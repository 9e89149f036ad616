-- ===== src/Network.antt =====
-- A file on its way from src/read-write/read_write_sender.c to src/read-write/read_write_receiver.c: the
-- datagrams that the sender makes of it, and what the network may do to them.
pub mod Arrivals
pub mod Prefix
pub mod Pieces
pub mod Sent
pub mod EndToEnd
mod Tests
use projet_trtp.Base.{
  ℕ, ◌^◌, ◌≤◌, ◌<◌, ◌≡◌, ◌≢◌, ◌⊎◌, List, [], ◌∷◌, ◌++◌, Option, none, some, length, take, get_elem?,
  All,
}
use projet_trtp.Base.Bytes.{FirstByte}
use projet_trtp.Packet.Struct.{ptype_data, pkt_ok, Pkt, Libs}
use projet_trtp.Packet.Access.{pkt_zero}
use projet_trtp.Packet.Encode.{pkt_encode}
use projet_trtp.Packet.Decode.{pkt_decode}
use projet_trtp.Packet.Decode.Steps.{fields}
use projet_trtp.Receiver.{overwrite}
use projet_trtp.Receiver.Loop.{Turn, incoming, outgoing}
use projet_trtp.Receiver.Sound.{IsBuffer}
use projet_trtp.Sender.Pieces.{piece}

-- The file in pieces as `pread` finds them.
abbrev pub IsFile : List (List ℕ) → Type 0
IsFile pieces = All (λ bytes. (length bytes ≢ 0) × (length bytes ≤ 512)) pieces

abbrev pub contents : List (List ℕ) → List ℕ
contents [] = []
contents (bytes ∷ pieces) = bytes ++ contents pieces

-- No buffer with the datagram at its start holds a PTYPE_DATA packet that `pkt_decode` accepts.
abbrev pub IsRefused : Libs → List ℕ → Type 0
IsRefused libs out =
    (old : List ℕ) (pkt : Pkt)
    → IsBuffer old
    → pkt_decode libs (overwrite (take 528 out) old) (length (take 528 out)) pkt_zero
      ≡ some (pkt_ok, pkt)
    → pkt.type ≢ ptype_data

module _ (libs : Libs) (pieces : List (List ℕ)) where
  -- What reaches the receiver: a piece of the file with its number, the same cut behind its header, the
  -- packet with which the file ends, and anything that `pkt_decode` refuses.
  pub data Datagram : List ℕ → Type 0 where
    whole :
        (number window timestamp : ℕ) (bytes out : List ℕ)
        → get_elem? pieces number ≡ some bytes
        → window < 32
        → timestamp < 2 ^ 32
        → pkt_encode libs (piece window number timestamp bytes) 528 ≡ some (pkt_ok, out)
        → Datagram out
    cut :
        (number window timestamp : ℕ) (bytes out : List ℕ)
        → get_elem? pieces number ≡ some bytes
        → window < 32
        → timestamp < 2 ^ 32
        → pkt_encode libs (record (piece window number timestamp bytes) { tr = 1 }) 528
          ≡ some (pkt_ok, out)
        → Datagram out
    last :
        (window timestamp : ℕ) (out : List ℕ)
        → window < 32
        → timestamp < 2 ^ 32
        → pkt_encode libs (fields ptype_data 0 window 0 (length pieces) 0 0 timestamp) 528
          ≡ some (pkt_ok, out)
        → Datagram out
    refused : (out : List ℕ) → FirstByte out → IsRefused libs out → Datagram out

  -- A turn brings such a datagram, or none; no `read` fails.
  abbrev pub Carried : Turn → Type 0
  Carried (incoming (some out)) = Datagram out
  Carried (incoming none) = ⊥
  Carried outgoing = Unit {0}
