-- ===== src/Sender/Removal.antt =====
-- Which packets `ack_window` and `update_window` of src/read-write/read_write_sender.c remove.
use projet_trtp.Base.{
  ℕ, ◌+◌, ◌%◌, ◌^◌, ◌<◌, ◌≡◌, ◌≢◌, refl, ap, ◌∙◌, true, false, List, [], ◌∷◌, ◌++◌, some, arith,
  length, All,
}
use projet_trtp.Packet.Struct.{Pkt}
use projet_trtp.Window.{WindowPkt, seqnum_in_window, can_ack_window, first_seqnum}
use projet_trtp.Sender.{System, Sender}
use projet_trtp.Sender.Acks.{ack_loop, ack_window, ack_list, acked, remove_acked}

-- The number is not acknowledged yet by `ack_seqnum`.
abbrev pub IsOther : (ack_seqnum : ℕ) → Pkt → Type 0
IsOther ack_seqnum pkt = (pkt.seqnum < 256) × (pkt.seqnum ≢ ack_seqnum)

abbrev pub StartsWith : (seqnum : ℕ) → List Pkt → Type 0
StartsWith seqnum [] = Unit {0}
StartsWith seqnum (pkt ∷ pkts) = pkt.seqnum ≡ seqnum

other_lem :
    (window : WindowPkt) (ack_seqnum : ℕ) (pkt : Pkt) (pkts : List Pkt)
    → window.list ≡ pkt ∷ pkts
    → ack_seqnum < 256
    → IsOther ack_seqnum pkt
    → seqnum_in_window window ack_seqnum pkt.seqnum ≡ true
unfolding seqnum_in_window first_seqnum
other_lem window ack_seqnum pkt pkts e ha (hp, ne) =
    rw (seqnum_in_window, first_seqnum, e) (ground arith)

same_lem :
    (window : WindowPkt) (ack_seqnum : ℕ) (pkt : Pkt) (pkts : List Pkt)
    → window.list ≡ pkt ∷ pkts
    → pkt.seqnum ≡ ack_seqnum
    → seqnum_in_window window ack_seqnum pkt.seqnum ≡ false
unfolding seqnum_in_window first_seqnum
same_lem window ack_seqnum pkt pkts e same = rw (seqnum_in_window, first_seqnum, e) (ground arith)

ack_loop_lem :
    (time ack_seqnum n : ℕ) (before rest : List Pkt) (s : Sender)
    → ack_seqnum < 256
    → s.window.list ≡ before ++ rest
    → All (IsOther ack_seqnum) before
    → StartsWith ack_seqnum rest
    → (s' : Sender) × (ack_loop time ack_seqnum n (before ++ rest) s ≡ (n + length before, s'))
      × (s'.window.list ≡ rest)
      × (s'.window.windowsize ≡ s.window.windowsize)
      × (s'.global_pkt ≡ s.global_pkt)
unfolding ack_loop
ack_loop_lem time ack_seqnum n [] [] s ha here h same =
    (s, ap (λ (k : ℕ). (k, s)) (omega arith), here, refl, refl)
ack_loop_lem time ack_seqnum n [] (pkt ∷ rest) s ha here h same =
    let out = same_lem s.window ack_seqnum pkt rest here same in
    (s, rw (ack_loop, out) (ap (λ (k : ℕ). (k, s)) (omega arith)), here, refl, refl)
ack_loop_lem time ack_seqnum n (pkt ∷ before) rest s ha here (p, ps) same =
    let inside = other_lem s.window ack_seqnum pkt (before ++ rest) here ha p in
    let (s', e, l, w, g) =
      ack_loop_lem time ack_seqnum (n + 1) before rest (remove_acked time pkt (before ++ rest) s) ha
        refl ps same in
    (s', rw (ack_loop, inside) (e ∙ ap (λ (k : ℕ). (k, s')) (omega arith)), l, w, g)

ack_list_lem :
    (system : System) (ack_seqnum : ℕ) (list : List Pkt) (s : Sender) (r : ℕ × Sender)
    → list ≢ []
    → ack_loop (system.clock s.calls % 2 ^ 32) ack_seqnum 0 list (record s { calls = s.calls + 1 })
      ≡ r
    → ack_list system ack_seqnum list s ≡ some (acked r)
unfolding ack_list
ack_list_lem system ack_seqnum [] s r full e = absurd (full refl)
ack_list_lem system ack_seqnum (pkt ∷ pkts) s r full e = ap (λ (x : ℕ × Sender). some (acked x)) e

-- Where `can_ack_window` accepts the number, `ack_window` removes the packets in front of the one with
-- that number, or, if the list has no such packet, all of them, and returns how many they are.
pub ack_window-StartsWith :
    (system : System) (ack_seqnum : ℕ) (before rest : List Pkt) (s : Sender)
    → ack_seqnum < 256
    → can_ack_window s.window ack_seqnum ≡ true
    → s.window.list ≡ before ++ rest
    → before ++ rest ≢ []
    → All (IsOther ack_seqnum) before
    → StartsWith ack_seqnum rest
    → (s' : Sender) × (ack_window system ack_seqnum s ≡ some (some (length before), s'))
      × (s'.window.list ≡ rest)
      × (s'.window.windowsize ≡ s.window.windowsize)
      × (s'.global_pkt ≡ s.global_pkt)
unfolding ack_window
ack_window-StartsWith system ack_seqnum before rest s ha can here full h same =
    let (s', e, l, w, g) =
      ack_loop_lem (system.clock s.calls % 2 ^ 32) ack_seqnum 0 before rest
        (record s { calls = s.calls + 1 }) ha here h same in
    (
      s',
      rw (ack_window, can)
          (ap (λ (list : List Pkt). ack_list system ack_seqnum list s) here
            ∙ ack_list_lem system ack_seqnum (before ++ rest) s (0 + length before, s') full e
            ∙ ap (λ (k : ℕ). some (some k, s')) (omega arith)),
      l,
      w,
      g,
    )
