-- ===== src/Receiver/Recover.antt =====
-- `deal_with_fec` of src/read-write/read_write_receiver.c, which `receive_data` does not call. `none` is
-- undefined behaviour.
pub mod Hole
mod Tests
use projet_trtp.Base.{
  ℕ, zero, suc, ◌+◌, ◌%◌, Bool, true, false, ◌||◌, not, List, [], ◌∷◌, ◌++◌, Option, none, some,
  ltb, ◌==◌, if◌then◌else◌, length,
}
use projet_trtp.Packet.Struct.{Pkt, Libs}
use projet_trtp.Packet.Access.{pkt_set_seqnum}
use projet_trtp.Fec.{fec_generation}
use projet_trtp.Receiver.{Receiver}
use projet_trtp.Receiver.Insert.{linked_list_add_increasing}

-- The list from the packet on that has the number or the one before it; empty where there is none.
abbrev pub find_start : (seqnum : ℕ) → List Pkt → List Pkt
find_start seqnum [] = []
find_start seqnum (current ∷ pkts) =
    let rest = find_start seqnum pkts in
    if current.seqnum == seqnum || ((current.seqnum + 1) % 256 == seqnum)
    then current ∷ pkts
    else rest

-- What the loop leaves: the result -1, or the packets with the number that is missing, if one is.
pub data Collected : Type 0 where
  useless : Collected
  collected : (pkts : List Pkt) → (missing_seqnum : Option ℕ) → Collected

-- Behind the loop's test of the tail. `pkts` has three places.
abbrev pub at_tail : (seqnum_tail : ℕ) → List Pkt → Option ℕ → Collected
at_tail seqnum_tail pkts none =
    if length pkts == 3 then collected pkts (some ((seqnum_tail + 1) % 256)) else useless
at_tail seqnum_tail pkts (some missing_seqnum) = useless

abbrev pub skip_missing : (current expected : ℕ) → Option ℕ → Option ℕ
skip_missing current expected missing_seqnum =
    if current == expected then missing_seqnum else some expected

abbrev pub next_j : (current expected j : ℕ) → ℕ
next_j current expected j = if current == expected then j + 1 else j + 2

-- The loop at `j`, in at most `fuel` rounds; as `j` grows, four are enough.
unfoldable pub collect :
    (seqnum_tail n_seqnum fuel j : ℕ) → (pkts : List Pkt) → Option ℕ → List Pkt → Option Collected
collect seqnum_tail n_seqnum zero j pkts missing_seqnum current =
    some (collected pkts missing_seqnum)
collect seqnum_tail n_seqnum (suc fuel) j pkts missing_seqnum [] = none
collect seqnum_tail n_seqnum (suc fuel) j pkts missing_seqnum (current ∷ rest) =
    let expected = (n_seqnum + j) % 256 in
    let missing = skip_missing current.seqnum expected missing_seqnum in
    let pkts' = pkts ++ (current ∷ []) in
    let go_on =
      collect seqnum_tail n_seqnum fuel (next_j current.seqnum expected j) pkts' missing rest in
    if ltb j 4
    then (if ltb (length pkts) 3
        then elim rest [ [] ↦ some (at_tail seqnum_tail pkts' missing) | _ ∷ _ ↦ go_on ]
        else none)
    else some (collected pkts missing_seqnum)

-- -1 as a `uint8_t`.
abbrev pub missing_byte : Option ℕ → ℕ
missing_byte none = 255
missing_byte (some missing_seqnum) = missing_seqnum

-- Behind the insertion, whose result is not looked at.
abbrev pub recovered :
    (missing_seqnum : ℕ) → Option (Bool × Receiver) → Option (Option ℕ × Receiver)
recovered missing_seqnum none = none
recovered missing_seqnum (some (new, s)) =
    some
      (some missing_seqnum, record s { resent_ack = not (s.window.seqnum_head == missing_seqnum) })

-- The packet restored, from `fec_generation` on.
abbrev pub restore :
    Libs → (missing_seqnum : ℕ) → Receiver → Option Pkt → Option (Option ℕ × Receiver)
restore libs missing_seqnum s none = none
restore libs missing_seqnum s (some pkt_restored) =
    recovered missing_seqnum
      (linked_list_add_increasing libs (record pkt_restored { seqnum = missing_seqnum }) s)

-- The three packets that are there, and the parity packet; the result -1 is `none`.
abbrev pub use_collected :
    Libs → (fec_pkt : Pkt) → Receiver → Option Collected → Option (Option ℕ × Receiver)
use_collected libs fec_pkt s none = none
use_collected libs fec_pkt s (some useless) = some (none, s)
use_collected libs fec_pkt s (some (collected (pkt1 ∷ pkt2 ∷ pkt3 ∷ []) missing_seqnum)) =
    restore libs (missing_byte missing_seqnum) s (fec_generation libs pkt1 pkt2 pkt3 fec_pkt)
use_collected libs fec_pkt s (some (collected _ missing_seqnum)) = some (none, s)

-- `if (pkt_get_seqnum(current->next->pkt) == seqnum) current = current->next;`.
abbrev pub from_next : (seqnum : ℕ) → (current next : Pkt) → List Pkt → List Pkt
from_next seqnum current next rest =
    if next.seqnum == seqnum then next ∷ rest else current ∷ next ∷ rest

abbrev pub first_seqnum_of : List Pkt → ℕ
first_seqnum_of [] = 0
first_seqnum_of (current ∷ rest) = current.seqnum

abbrev pub from_start : Libs → (fec_pkt : Pkt) → Receiver → List Pkt → Option (Option ℕ × Receiver)
from_start libs fec_pkt s (current ∷ next ∷ rest) =
    let list = from_next fec_pkt.seqnum current next rest in
    use_collected libs fec_pkt s
      (collect s.window.seqnum_tail (first_seqnum_of list) 4 0 [] none list)
from_start libs fec_pkt s _ = some (none, s)

unfoldable pub deal_with_fec : Libs → (fec_pkt : Pkt) → Receiver → Option (Option ℕ × Receiver)
deal_with_fec libs fec_pkt s =
    if ltb (length s.window.list) 3
    then some (none, s)
    else from_start libs fec_pkt s (find_start fec_pkt.seqnum s.window.list)
