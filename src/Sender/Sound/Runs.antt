-- ===== src/Sender/Sound/Runs.antt =====
-- The loop of src/read-write/read_write_sender.c keeps the invariant, whatever comes in.
use projet_trtp.Base.{
  ℕ, ◌≤◌, ◌≡◌, refl, Bool, true, false, List, [], ◌∷◌, Option, some, length, arith,
}
use projet_trtp.Packet.Struct.{Libs}
use projet_trtp.Receiver.Always.{Always, Always-bind, Always-some}
use projet_trtp.Receiver.Sound.{IsBuffer}
use projet_trtp.Sender.{System, Sender, initial}
use projet_trtp.Sender.Loop.{Ready, turn, read_write_sender}
use projet_trtp.Sender.Pieces.Filled.{BytesRead}
use projet_trtp.Sender.Sound.{LetsEnd, IsSender, IsOpen}
use projet_trtp.Sender.Sound.Acked.{LetsShrink}
use projet_trtp.Sender.Sound.Writes.{LetsFill}
use projet_trtp.Sender.Sound.Reads.{IsRound, Announces, Goes, turn-Goes}

-- The rounds, with the sizes that they announce: between two bounds that only grow, from one round to the
-- next, unless the window may shrink.
abbrev pub AreRounds : Libs → (Shrinks : Type 0) → (w : ℕ) → List Ready → Type 0
AreRounds libs Shrinks w [] = Unit {0}
AreRounds libs Shrinks w (ready ∷ rounds) =
    (w' : ℕ) × (w ≤ w')
    × IsRound ready
    × Announces libs Shrinks w w' ready.incoming
    × AreRounds libs Shrinks w' rounds

module _ (system : System) (mem : (k : ℕ) → system.libs.malloc k ≡ true)
    (sends : (sent : List (List ℕ)) (bytes : List ℕ) → system.send sent bytes ≡ true)
    (reads : (offset : ℕ)
      → (bytes : List ℕ) × (system.pread offset ≡ some bytes) × (length bytes ≤ 512))
    (first : BytesRead system) (E : ℕ → Type 0) (K : (tail global : ℕ) (eof last : Bool) → Type 0)
    (Shrinks : Type 0) (fills : LetsFill system E K) (lets : LetsShrink K Shrinks)
    (ends : LetsEnd E K) where
  -- The invariant, under some bound on the window.
  abbrev pub Stays : Bool × Sender → Type 0
  Stays r = (w : ℕ) × Goes system E K w r

  stop_or :
      (w : ℕ) (left : Bool) (s : Sender) (rest : Option (Bool × Sender))
      → Goes system E K w (left, s)
      → (left ≡ false → Always Stays rest)
      → Always Stays (elim left [ true ↦ some (true, s) | false ↦ rest ])
  stop_or w true s rest v h = (w, v)
  stop_or w false s rest v h = h refl

  loop-Stays :
      (w : ℕ) (rounds : List Ready) (s : Sender)
      → AreRounds system.libs Shrinks w rounds
      → IsSender system E K w s
      → IsOpen s
      → Always Stays (read_write_sender system false rounds s)
  unfolding read_write_sender
  loop-Stays w [] s h v open_file = (w, (v, λ _. open_file))
  loop-Stays w (ready ∷ rounds) s (w', grows, r, says, h) v open_file =
      Always-bind (Goes system E K w') Stays (turn system false ready s) _
        (turn-Goes system mem sends reads first E K Shrinks fills lets w w' ends grows ready s r
          says v open_file)
        λ t v1.
          stop_or w' t.0 t.1 (read_write_sender system false rounds t.1) v1
            (λ stays. loop-Stays w' rounds t.1 h v1.0 (v1.1 stays))

  pub run-Stays :
      (rounds : List Ready) (copybuf : List ℕ)
      → IsBuffer copybuf
      → K 0 0 false false
      → AreRounds system.libs Shrinks 1 rounds
      → (left : Bool) × (s : Sender) × (read_write_sender system false rounds (initial copybuf)
          ≡ some (left, s))
        × ((w : ℕ) × IsSender system E K w s)
        × (left ≡ false → IsOpen s)
  unfolding initial
  run-Stays rounds copybuf b state h =
      let start : IsSender system E K 1 (initial copybuf) = record {
        low = omega arith;
        high = omega arith;
        bound = omega arith;
        pkts = tt;
        outs = tt;
        buffer = b;
        state = state;
      } in
      let (r, e, v) =
        Always-some Stays _
          (loop-Stays 1 rounds (initial copybuf) h start (λ last. absurd (cc last))) in
      (r.0, r.1, e, (v.0, v.1.0), v.1.1)

abbrev pub AnyNumber : ℕ → Type 0
AnyNumber seqnum = Unit {0}

abbrev pub AnyState : (tail global : ℕ) (eof last : Bool) → Type 0
AnyState tail global eof last = Unit {0}
