-- ===== src/Receiver/Sound.antt =====
-- The invariant of the receiver of src/read-write/read_write_receiver.c, and that nothing it
-- receives makes it break it or go wrong.
pub mod Keep
pub mod Handlers
pub mod Runs
use projet_trtp.Base.{ℕ, ◌≤◌, ◌<◌, ◌≡◌, ◌≢◌, List, [], ◌∷◌, Option, some, length, All}
use projet_trtp.Base.Bytes.{FirstByte, IsByte}
use projet_trtp.Packet.Struct.{Ptypes, ptype_data, Pkt, Libs}
use projet_trtp.Packet.Encode.{encode_start}
use projet_trtp.Packet.Total.Spec.{Accepted}
use projet_trtp.Window.{WindowPkt}
use projet_trtp.Receiver.{Receiver, overwrite}
use projet_trtp.Receiver.Answers.{answer, IsAnswer}

-- A PTYPE_DATA packet as `pkt_decode` leaves one that it accepts, from some bytes.
abbrev pub IsHeld : Libs → Pkt → Type 0
IsHeld libs pkt = (pkt.type ≡ ptype_data) × ((bytes : List ℕ) × Accepted libs bytes pkt)

pub record IsWindow (H : Pkt → Type 0) (window : WindowPkt) : Type 0 where
  pub head : window.seqnum_head < 256
  pub low : 1 ≤ window.windowsize
  pub high : window.windowsize ≤ 31
  pub held : All H window.list

-- The buffer has its full size; the first byte of it is the one on which `pkt_decode` works.
abbrev pub IsBuffer : List ℕ → Type 0
IsBuffer buffer = (528 ≤ length buffer) × FirstByte buffer

-- What holds of the buffer: it has its full size, and still holds when an answer has been encoded into it.
pub record KeepsBuffer (libs : Libs) (B : List ℕ → Type 0) : Type 0 where
  pub full : (old : List ℕ) → B old → IsBuffer old
  pub answered :
      (type : Ptypes) (window seqnum timestamp : ℕ) (old : List ℕ)
      → IsAnswer type
      → B old
      → B (overwrite (encode_start libs (answer type window seqnum timestamp)) old)

-- The sequence number at the window's head is a byte, `H` holds of the packets in the window of 1 to 31
-- places, `B` of the buffer, and `Q` of the head and of the standard output.
abbrev pub IsReceiver :
    (H : Pkt → Type 0) → (B : List ℕ → Type 0) → (Q : ℕ → List ℕ → Type 0) → Receiver → Type 0
IsReceiver H B Q s = IsWindow H s.window × (B s.buffer × Q s.window.seqnum_head s.output)
