-- ===== src/Packet/RoundTrip/Wire.antt =====
-- What a packet is on the wire and at the other side, of src/packet_implem.c.
use projet_trtp.Base.{arith, false, ℕ, ◌^◌, ◌≤◌, ◌<◌, ◌≡◌, ◌≢◌, List, ◌++◌, some, length}
use projet_trtp.Packet.Struct.{ptype_fec, ptype_data, pkt_ok, null, block, Pkt, Libs}
use projet_trtp.Packet.Access.{pkt_zero}
use projet_trtp.Packet.Decode.{lt_int, crc_of, pkt_decode}
use projet_trtp.Packet.Encode.{pkt_encode, encode_header}

-- The packet as the other side gets it: the CRCs are those of the bytes sent, the length of a
-- PTYPE_FEC packet is 512, and an acknowledgement has neither length nor payload.
abbrev pub received : Libs → Pkt → (payload : List ℕ) → Pkt
received libs pkt bytes =
    let crc1 = crc_of libs (encode_header pkt) in
    let crc2 = crc_of libs bytes in
    elim pkt.type [
      | ptype_data ↦ record pkt { crc1 = crc1; crc2 = crc2 }
      | ptype_fec ↦ record pkt { length = 512; crc1 = crc1; crc2 = crc2 }
      | _ ↦ record pkt { length = 0; crc1 = crc1; payload = null; crc2 = 0 }
    ]

-- The packets that the programs send and that carry what their type wants.
pub record IsSendable (pkt : Pkt) : Type 0 where
  pub window : pkt.window < 32
  pub tr : pkt.tr ≡ 0
  pub seqnum : pkt.seqnum < 256
  pub timestamp : pkt.timestamp < 2 ^ 32

abbrev pub Carries : Pkt → List ℕ → Type 0
Carries pkt bytes = elim pkt.type [
  | ptype_data ↦
      (pkt.payload ≡ block bytes)
      × (length bytes ≡ pkt.length)
      × (pkt.length ≢ 0)
      × (pkt.length ≤ 512)
  | ptype_fec ↦ (pkt.payload ≡ block bytes) × (length bytes ≡ 512)
  | _ ↦ Unit {0}
]

-- `pkt_encode` accepts the packet at full size and stays inside the buffer, and `pkt_decode` reads it
-- back from the bytes, whatever stands behind them in its buffer.
abbrev pub RoundTrips : Libs → Pkt → (payload rest : List ℕ) → Type 0
RoundTrips libs pkt bytes rest =
    (out : List ℕ) × (pkt_encode libs pkt 528 ≡ some (pkt_ok, out))
    × (length out ≤ 528)
    × (pkt_decode libs (out ++ rest) (length out) pkt_zero ≡ some (pkt_ok, received libs pkt bytes))

pub lt_int_small : (a len : ℕ) → len ≤ a → len < 2 ^ 31 → lt_int a len ≡ false
lt_int_small a len h small = ground arith
