-- ===== src/Packet/Total/Spec.antt =====
-- What a packet that `pkt_decode` of src/packet_implem.c accepts must be.
use projet_trtp.Base.{ℕ, ◌+◌, ◌≤◌, ◌≡◌, ◌≢◌, List, some}
use projet_trtp.Base.Bytes.{read_at, be_value}
use projet_trtp.Packet.Struct.{ptype_fec, ptype_data, StatusCode, pkt_ok, block, Pkt, Libs}
use projet_trtp.Packet.Access.{predict_header_length}
use projet_trtp.Packet.Decode.{crc_of, clear_tr}

-- The fields that the first bytes give.
pub record InRange (pkt : Pkt) : Type 0 where
  pub window : pkt.window ≤ 31
  pub tr : pkt.tr ≤ 1
  pub truncated : pkt.tr ≡ 1 → pkt.type ≡ ptype_data
  pub length : pkt.length ≤ 512

module _ (libs : Libs) (bytes : List ℕ) where
  -- CRC1 is the CRC of the header with TR at 0, and stands behind it.
  pub record HeaderChecked (pkt : Pkt) : Type 0 where
    pub header : List ℕ
    pub word : List ℕ
    pub header_read : read_at bytes 0 (predict_header_length pkt.type) ≡ some header
    pub word_read : read_at bytes (predict_header_length pkt.type) 4 ≡ some word
    pub stored : be_value 0 word ≡ pkt.crc1
    pub computed : crc_of libs (clear_tr header) ≡ pkt.crc1

  -- The payload is the `n` bytes behind the header of a PTYPE_DATA or PTYPE_FEC packet, and CRC2,
  -- which stands behind it, is its CRC.
  pub record PayloadChecked (pkt : Pkt) (n : ℕ) : Type 0 where
    pub payload : List ℕ
    pub word : List ℕ
    pub untruncated : pkt.tr ≡ 0
    pub held : pkt.payload ≡ block payload
    pub payload_read : read_at bytes 12 n ≡ some payload
    pub word_read : read_at bytes (12 + n) 4 ≡ some word
    pub stored : be_value 0 word ≡ pkt.crc2
    pub computed : crc_of libs payload ≡ pkt.crc2

  -- What PKT_OK stands for.
  pub record Accepted (pkt : Pkt) : Type 0 where
    pub range : InRange pkt
    pub header : HeaderChecked pkt
    pub fec : pkt.type ≡ ptype_fec → PayloadChecked pkt 512
    pub content : pkt.type ≡ ptype_data → pkt.length ≢ 0 → PayloadChecked pkt pkt.length

  abbrev pub Returns : StatusCode → Pkt → Type 0
  Returns status pkt = status ≡ pkt_ok → Accepted pkt
