-- ===== src/Sender/Sound/Writes.antt =====
-- The part of a round of src/read-write/read_write_sender.c under POLLOUT keeps the invariant.
use projet_trtp.Base.{
  nil_cases, ℕ, ◌+◌, ◌≤◌, ◌≡◌, ◌≢◌, ◌⊎◌, inl, inr, refl, sym, subst, ap, ◌∙◌, Bool, true, false,
  not, ◌&&◌, List, [], ◌∷◌, ◌++◌, some, Bool-cases, ltb, ltb→le, length, All, arith,
}
use projet_trtp.Packet.Struct.{Pkt}
use projet_trtp.Receiver.Always.{Always, Always-bind, Always-test}
use projet_trtp.Sender.{System, Sender}
use projet_trtp.Sender.Fill.{fill_window}
use projet_trtp.Sender.Buffer.{send_final_pkt}
use projet_trtp.Sender.Resend.{resent_pkt}
use projet_trtp.Sender.Loop.{has_place, fill_turn, final_turn, write_turn}
use projet_trtp.Sender.Pieces.Filled.{IsPieces, AreEncoded, BytesRead, Filled, fill_window-Filled}
use projet_trtp.Sender.Sound.{IsBusy, LetsEnd, IsOurs, IsOut, IsSender, IsOpen, All-append}
use projet_trtp.Sender.Sound.Resent.{resent_pkt-IsBusy, send_final_pkt-IsBusy}

module _ (system : System) (E : ℕ → Type 0) (K : (tail global : ℕ) (eof last : Bool) → Type 0) where
  abbrev pub StateOf : Sender → Type 0
  StateOf s = K s.window.seqnum_tail s.global_pkt s.eof_reached s.last_pkt

  -- `K` lets `fill_window` read on.
  abbrev pub LetsFill : Type 0
  LetsFill = (s s' : Sender) → Filled system s s' → s.eof_reached ≡ false → StateOf s → StateOf s'

  pieces-IsOurs :
      (number : ℕ) (pkts : List Pkt) → IsPieces system number pkts → All (IsOurs system E) pkts
  pieces-IsOurs number [] h = tt
  pieces-IsOurs number (pkt ∷ pkts) (p, h) = (inl (number, p), pieces-IsOurs (number + 1) pkts h)

  encoded-IsOut :
      (pkts : List Pkt) (outs : List (List ℕ))
      → All (IsOurs system E) pkts
      → AreEncoded system.libs pkts outs
      → All (IsOut system E) outs
  encoded-IsOut [] [] h e = tt
  encoded-IsOut [] (out ∷ outs) h e = absurd e
  encoded-IsOut (pkt ∷ pkts) [] h e = absurd e
  encoded-IsOut (pkt ∷ pkts) (out ∷ outs) (p, h) (e, es) =
      ((pkt, p, e), encoded-IsOut pkts outs h es)

  Filled-IsSender :
      (w : ℕ) (s s' : Sender)
      → LetsFill
      → s.eof_reached ≡ false
      → BytesRead system
      → Filled system s s'
      → IsSender system E K w s
      → IsSender system E K w s'
  Filled-IsSender w s s' lets more first f v =
      let ours = pieces-IsOurs s.global_pkt f.new f.pieces in
      record {
        low = rw f.windowsize v.low;
        high = rw f.windowsize v.high;
        bound = rw f.windowsize v.bound;
        state = lets s s' f more v.state;
        pkts = rw f.list (All-append (IsOurs system E) s.window.list f.new v.pkts ours);
        outs = rw f.sent (
            All-append (IsOut system E) s.sent f.datagrams v.outs
              (encoded-IsOut f.new f.datagrams ours f.encoded));
        buffer = f.buffer first v.buffer;
      }

front_nil : {A : Type 0} (xs ys : List A) → xs ++ ys ≡ [] → xs ≡ []
front_nil [] ys e = refl
front_nil (x ∷ xs) ys e = absurd (cc e)

module _ (system : System) (mem : (k : ℕ) → system.libs.malloc k ≡ true)
    (sends : (sent : List (List ℕ)) (bytes : List ℕ) → system.send sent bytes ≡ true)
    (reads : (offset : ℕ)
      → (bytes : List ℕ) × (system.pread offset ≡ some bytes) × (length bytes ≤ 512))
    (first : BytesRead system) (E : ℕ → Type 0) (K : (tail global : ℕ) (eof last : Bool) → Type 0)
    (w : ℕ) where
  abbrev Busy : Sender → Type 0
  Busy s = IsBusy system E K w s

  -- Behind `fill_window`: there is something to send again, or the end of the file is due.
  abbrev IsFilled : Sender → Type 0
  IsFilled s =
      IsSender system E K w s
      × ((s.window.list ≢ [])
          ⊎ ((s.eof_reached ≡ true) × (s.last_pkt ≡ false) × (s.window.list ≡ [])))

  at_end : (s : Sender) → s.eof_reached ≡ true → IsSender system E K w s → IsOpen s → IsFilled s
  at_end s eof v open_file = elim (nil_cases s.window.list) [
    | inr full ↦ (v, inl full)
    | inl empty ↦ elim (Bool-cases s.last_pkt) [
      | inl last ↦ absurd (open_file last empty)
      | inr more ↦ (v, inr (eof, more, empty))
    ]
  ]

  full_list :
      (s : Sender)
      → IsSender system E K w s
      → s.window.windowsize ≤ length s.window.list
      → s.window.list ≢ []
  full_list s v full = λ e. let size = ap length e in let low = v.low in absurd (omega arith)

  filled :
      (s s' : Sender)
      → LetsFill system E K
      → s.eof_reached ≡ false
      → Filled system s s'
      → IsSender system E K w s
      → IsOpen s
      → IsFilled s'
  filled s s' lets more f v open_file =
      let v' = Filled-IsSender system E K w s s' lets more first f v in
      elim f.end [
        | inl full ↦ (let size = f.windowsize in (v', inl (full_list s' v' (omega arith))))
        | inr (eof, stop) ↦ at_end s' eof v' (λ last empty.
            open_file (sym f.last_pkt ∙ last) (front_nil s.window.list f.new (sym f.list ∙ empty)))
      ]

  both_true : (eof place : Bool) → (not eof && place) ≡ true → (eof ≡ false) × (place ≡ true)
  both_true true place h = absurd (cc h)
  both_true false place h = (refl, h)

  one_false : (eof place : Bool) → eof ≡ false → (not eof && place) ≡ false → place ≡ false
  one_false true place e h = absurd (cc e)
  one_false false place e h = h

  fill_turn-IsFilled :
      (s : Sender)
      → LetsFill system E K
      → IsSender system E K w s
      → IsOpen s
      → Always IsFilled (fill_turn system false s)
  fill_turn-IsFilled s lets v open_file =
      Always-test IsFilled (not s.eof_reached && has_place s) (fill_window system false s) (some s)
        (λ goes.
          let (more, place) = both_true s.eof_reached (has_place s) goes in
          let (s', e, f) = fill_window-Filled system s mem sends reads v.high more (ground arith) in
          subst (Always IsFilled) (sym e) (filled s s' lets more f v open_file))
        (λ stops. elim (Bool-cases s.eof_reached) [
          | inl eof ↦ at_end s eof v open_file
          | inr more ↦ (
            v,
            inl (full_list s v (ltb→le _ _ (one_false s.eof_reached (has_place s) more stops))),
          )
        ])

  all_true :
      (last eof place : Bool)
      → last ≡ false
      → eof ≡ true
      → place ≡ true
      → (not last && (eof && place)) ≡ false
      → ⊥
  all_true last eof place h1 h2 h3 h = ground arith

  may_end :
      (last eof place : Bool) → (not last && (eof && place)) ≡ true → (last ≡ false) × (eof ≡ true)
  may_end true eof place h = absurd (cc h)
  may_end false true place h = (refl, refl)
  may_end false false place h = absurd (cc h)

  final_turn-IsBusy : (s : Sender) → LetsEnd E K → IsFilled s → Always Busy (final_turn system s)
  final_turn-IsBusy s ends (v, inl full) =
      Always-test Busy (not s.last_pkt && (s.eof_reached && has_place s))
        (send_final_pkt system (record s { last_pkt = true })) (some s)
        (λ goes.
          let (more, eof) = may_end s.last_pkt s.eof_reached (has_place s) goes in
          send_final_pkt-IsBusy system mem sends E K w s ends eof more v)
        (λ stops. (v, full))
  final_turn-IsBusy s ends (v, inr (eof, more, empty)) =
      let low = v.low in
      let place : has_place s ≡ true =
        ap (λ (list : List Pkt). ltb (length list) s.window.windowsize) empty ∙ ground arith in
      Always-test Busy (not s.last_pkt && (s.eof_reached && has_place s))
        (send_final_pkt system (record s { last_pkt = true })) (some s)
        (λ goes. send_final_pkt-IsBusy system mem sends E K w s ends eof more v)
        (λ stops. absurd (all_true s.last_pkt s.eof_reached (has_place s) more eof place stops))

  pub write_turn-IsBusy :
      (s : Sender)
      → LetsFill system E K
      → LetsEnd E K
      → IsSender system E K w s
      → IsOpen s
      → Always (λ r. Busy r.1) (write_turn system false s)
  unfolding write_turn
  write_turn-IsBusy s lets ends v open_file =
      Always-bind IsFilled (λ r. Busy r.1) (fill_turn system false s) _
        (fill_turn-IsFilled s lets v open_file)
        λ s1 v1.
          Always-bind Busy (λ r. Busy r.1) (final_turn system s1) _ (final_turn-IsBusy s1 ends v1)
            λ s2 v2.
              Always-bind Busy (λ r. Busy r.1) (resent_pkt system s2) _
                (resent_pkt-IsBusy system mem sends E K w s2 v2) λ s3 v3. v3
