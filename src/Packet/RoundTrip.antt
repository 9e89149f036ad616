-- ===== src/Packet/RoundTrip.antt =====
-- `pkt_decode` behind `pkt_encode`, of src/packet_implem.c.
pub mod Wire
mod Header
mod Kinds
pub mod Truncated
pub mod Final
use projet_trtp.Base.{ℕ, ◌≡◌, true, List}
use projet_trtp.Packet.Struct.{Pkt, Libs}
use Wire.{IsSendable, Carries, RoundTrips}
use Kinds.{trip}

-- Every packet that is not truncated, whose fields are in range and which carries what its type
-- wants, is encoded into at most 528 bytes, and decoding those bytes, with anything behind them,
-- into a fresh packet gives PKT_OK and the packet with the CRCs of the bytes sent: a PTYPE_DATA packet with
-- all its other fields, a PTYPE_FEC packet with the length 512 in place of its own, which is not sent, and a
-- PTYPE_ACK or PTYPE_NACK packet with the length 0, no payload and the CRC2 0.
pub decode-encode :
    (libs : Libs) (mem : (k : ℕ) → libs.malloc k ≡ true) (pkt : Pkt) (bytes rest : List ℕ)
    → IsSendable pkt
    → Carries pkt bytes
    → RoundTrips libs pkt bytes rest
decode-encode libs mem pkt bytes rest v c =
    trip libs mem pkt.type pkt.tr pkt.window pkt.length pkt.seqnum pkt.crc1 pkt.crc2 pkt.timestamp
      pkt.payload bytes rest v.tr v.window v.timestamp c
