-- ===== src/Sender/Tests.antt =====
-- Runs of the sender of src/read-write/read_write_sender.c, and the theorems about it at concrete states.
use projet_trtp.Base.{
  Bool-cases, inl, inr, false, length, ◌≤◌, ℕ, ◌+◌, ◌*◌, ◌≡◌, refl, true, List, [], ◌∷◌, some, none,
  arith, if◌then◌else◌, ◌==◌,
}
use mathlib.Core.List.{foldr}
use projet_trtp.Packet.Struct.{ptype_data, block, Pkt}
use projet_trtp.Packet.Access.{pkt_zero}
use projet_trtp.Window.{can_ack_window}
use projet_trtp.Sender.{System, Sender, initial}
use projet_trtp.Sender.Acks.{ack_window, update_window}
use projet_trtp.Sender.Removal.{ack_window-StartsWith}
use projet_trtp.Sender.Fill.{fill_window}
use projet_trtp.Sender.Pieces.Filled.{Filled, fill_window-Filled}
use projet_trtp.Sender.Loop.{Ready}
use projet_trtp.Sender.Resize.{Resized, update_window-Resized, update_window_empty}

-- A checksum in place of the CRC, a clock that moves on by one, a file of two pieces.
abbrev system : System
system = record {
  libs = record { malloc = λ _. true; crc32 = λ bytes. foldr (λ b acc. b + 31 * acc) 7 bytes };
  send = λ _ _. true;
  clock = λ n. n;
  pread = λ offset. if offset == 0 then some (72 ∷ 105 ∷ []) else some [];
}

abbrev numbered : ℕ → Pkt
numbered seqnum = record pkt_zero {
  type = ptype_data;
  length = 1;
  seqnum = seqnum;
  payload = block (1 ∷ []);
}

abbrev three : List Pkt
three = numbered 255 ∷ numbered 0 ∷ numbered 1 ∷ []

abbrev state : List Pkt → Sender
state list = record (initial []) {
  window = record { seqnum_head = 255; seqnum_tail = 1; windowsize = 5; list = list };
  global_pkt = 258;
}

ack_window_example :
    (s' : Sender) × (ack_window system 0 (state three) ≡ some (some 1, s'))
    × (s'.window.list ≡ numbered 0 ∷ numbered 1 ∷ [])
    × (s'.window.windowsize ≡ 5)
    × (s'.global_pkt ≡ 258)
unfolding can_ack_window initial
ack_window_example =
    ack_window-StartsWith system 0 (numbered 255 ∷ []) (numbered 0 ∷ numbered 1 ∷ []) (state three)
      (omega arith) refl refl (λ e. cc e) ((omega arith, omega arith), tt) refl

update_window_example :
    (s' : Sender) × (update_window 2 (state three) ≡ some s') × Resized 2 (state three) s'
update_window_example =
    update_window-Resized 2 (state three) (omega arith) (omega arith) (omega arith)

update_window_empty_example : update_window 2 (state []) ≡ none
update_window_empty_example = update_window_empty 2 (state []) (omega arith) (omega arith) refl

reads : (offset : ℕ) → (bytes : List ℕ) × (system.pread offset ≡ some bytes) × (length bytes ≤ 512)
reads offset = elim (Bool-cases (offset == 0)) [
  | inl start ↦ (72 ∷ 105 ∷ [], rw start, omega arith)
  | inr later ↦ ([], rw later, omega arith)
]

fill_window_example :
    (s' : Sender) × (fill_window system false (initial []) ≡ some s')
    × Filled system (initial []) s'
unfolding initial
fill_window_example =
    fill_window-Filled system (initial []) (λ k. refl) (λ sent bytes. refl) reads (omega arith) refl
      (omega arith)

-- Noise in a round that can write, a round in which nothing can be done, and one that can only write.
abbrev rounds : List Ready
rounds =
    record { writable = true; incoming = some (some (192 ∷ 7 ∷ [])) }
    ∷ record { writable = false; incoming = none }
    ∷ record { writable = true; incoming = none }
    ∷ []
