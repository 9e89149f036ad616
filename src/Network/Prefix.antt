-- ===== src/Network/Prefix.antt =====
-- What src/read-write/read_write_receiver.c delivers of a file that src/read-write/read_write_sender.c
-- sends.
use projet_trtp.Base.{
  ℕ, zero, suc, ◌+◌, ◌%◌, ◌≤◌, ◌<◌, ◌≡◌, inl, inr, refl, sym, ap, ◌∙◌, Bool, true, List, [], ◌∷◌,
  ◌++◌, some, append_nil, append_assoc, length, take, take_all, get_elem?, All, arith,
}
use projet_trtp.Receiver.{World, Receiver, initial}
use projet_trtp.Receiver.Loop.{Turn, read_write_receiver}
use projet_trtp.Receiver.Flushes.{WritesAll}
use projet_trtp.Receiver.Sound.{IsBuffer}
use projet_trtp.Receiver.Sound.Keep.{IsBuffer-KeepsBuffer}
use projet_trtp.Receiver.Sound.Runs.{KeptByWrite, KeptByEnd, EndsByFailure, initial-Goes}
use projet_trtp.Network.{IsFile, contents, Carried}
use projet_trtp.Network.Arrivals.{IsOfFile, Carried-Brings}

-- One more piece.
contents-take :
    (pieces : List (List ℕ)) (n : ℕ) (bytes : List ℕ)
    → get_elem? pieces n ≡ some bytes
    → contents (take (suc n) pieces) ≡ contents (take n pieces) ++ bytes
contents-take [] n bytes e = absurd (cc e)
contents-take (b ∷ pieces) zero bytes e = let same : b ≡ bytes = cc e in append_nil b ∙ same
contents-take (b ∷ pieces) (suc n) bytes e =
    ap (λ (l : List ℕ). b ++ l) (contents-take pieces n bytes e)
    ∙ sym (append_assoc b (contents (take n pieces)) bytes)

get_elem?-lt :
    (pieces : List (List ℕ)) (n : ℕ) (bytes : List ℕ)
    → get_elem? pieces n ≡ some bytes
    → n < length pieces
get_elem?-lt [] n bytes e = absurd (cc e)
get_elem?-lt (b ∷ pieces) zero bytes e = omega arith
get_elem?-lt (b ∷ pieces) (suc n) bytes e = omega (arith, get_elem?-lt pieces n bytes e)

module _ (world : World) (mem : (k : ℕ) → world.libs.malloc k ≡ true) (all : WritesAll world)
    (pieces : List (List ℕ)) (short : length pieces < 255) where
  -- The pieces in front of the head have been written; the end counts as one more.
  abbrev Written : ℕ → List ℕ → Type 0
  Written head output = (head ≤ length pieces + 1) × (output ≡ contents (take head pieces))

  abbrev Complete : ℕ → List ℕ → Type 0
  Complete head output = output ≡ contents pieces

  write_keeps : KeptByWrite world (IsOfFile world.libs mem pieces) Written
  write_keeps pkt head output own n (kept, inl (bytes, at, full, read)) here more taken wrote
        (low, q) =
      let e1 : own ≡ bytes = cc (taken, read) in
      let size : n ≡ length own = cc (wrote, all output own) in
      let at_head : get_elem? pieces head ≡ some bytes = ap (get_elem? pieces) here ∙ at in
      let lt = get_elem?-lt pieces head bytes at_head in
      let next : (head + 1) % 256 ≡ suc head = omega arith in
      (
        omega arith,
        rw (size, take_all (length own) own (omega arith), next, e1, q)
            (sym (contents-take pieces head bytes at_head)),
      )
  write_keeps pkt head output own n (kept, inr (last, empty)) here more taken wrote q =
      absurd (more empty)

  end_keeps : KeptByEnd (IsOfFile world.libs mem pieces) Written Complete
  end_keeps pkt head output (kept, inl (bytes, at, full, read)) here empty q = absurd (full empty)
  end_keeps pkt head output (kept, inr (last, empty')) here empty (low, q) =
      let at_end : head ≡ length pieces = here ∙ last in
      let next : (head + 1) % 256 ≡ suc head = omega arith in
      let whole : output ≡ contents pieces = q ∙ ap contents (take_all head pieces (omega arith)) in
      ((omega arith, rw (next, take_all (suc head) pieces (omega arith)) whole), whole)

  no_failure : EndsByFailure world Written Complete
  no_failure head output own failed q = absurd (cc (failed, all output own))

-- A file of fewer than 255 pieces of 1 to 512 bytes is sent, and of the datagrams that `pkt_encode` makes
-- of the pieces and of the end of the file any may reach the receiver, in any order, any number of times,
-- late, cut behind the header or not at all, among others that `pkt_decode` refuses. Where `malloc`
-- succeeds, the buffer has 528 bytes, no `read` fails and the standard output takes all bytes, the
-- receiver is defined, its standard output is the file's first pieces, as many as the number at the
-- window's head says, and if it has met the end of the file, the whole file.
pub read_write_receiver-Prefix :
    (world : World) (pieces : List (List ℕ)) (turns : List Turn) (buffer : List ℕ)
    → ((k : ℕ) → world.libs.malloc k ≡ true)
    → WritesAll world
    → IsFile pieces
    → length pieces < 255
    → All (Carried world.libs pieces) turns
    → IsBuffer buffer
    → (eof_wrote : Bool) × (s : Receiver) × (read_write_receiver world turns (initial buffer)
        ≡ some (eof_wrote, s))
      × (s.output ≡ contents (take s.window.seqnum_head pieces))
      × (eof_wrote ≡ true → s.output ≡ contents pieces)
read_write_receiver-Prefix world pieces turns buffer mem all file short carried b =
    let (eof_wrote, s, e, v, done) =
      initial-Goes world mem (IsOfFile world.libs mem pieces) (λ pkt h. h.0) IsBuffer
        (IsBuffer-KeepsBuffer world.libs) (Written world mem all pieces short)
        (Complete world mem all pieces short) (write_keeps world mem all pieces short)
        (end_keeps world mem all pieces short) (no_failure world mem all pieces short) turns buffer
        (Carried-Brings world.libs mem pieces turns file short carried) b (omega arith, refl) in
    (eof_wrote, s, e, v.1.1.1, done)
