-- ===== src/Receiver/Shrink.antt =====
-- What `decrease_window` of src/read-write/read_write_receiver.c drops.
use projet_trtp.Base.{
  ℕ, zero, suc, ◌+◌, ◌-◌, ◌/◌, ◌≤◌, ◌<◌, ◌≡◌, refl, ap, ◌∙◌, inl, inr, true, false, List, [], ◌∷◌,
  some, arith, ltb, ◌==◌, ltb→lt, ltb→le, Bool-cases, length, take,
}
use projet_trtp.Packet.Struct.{Pkt}
use projet_trtp.Window.{WindowPkt}
use projet_trtp.Receiver.{Receiver}
use projet_trtp.Receiver.Response.{
  remove_end, remove_ends, last_seqnum, set_tail, drop_packets, decrease_window,
}

pub length-remove_end : (list : List Pkt) → length (remove_end list) ≡ length list - 1
length-remove_end [] = refl
length-remove_end (pkt ∷ []) = refl
length-remove_end (pkt ∷ pkt' ∷ pkts) = omega (arith, length-remove_end (pkt' ∷ pkts))

pub take-remove_end :
    (n : ℕ) (list : List Pkt) → n < length list → take n (remove_end list) ≡ take n list
take-remove_end zero list h = refl
take-remove_end (suc n) [] h = absurd (omega arith)
take-remove_end (suc n) (pkt ∷ []) h = absurd (omega arith)
take-remove_end (suc n) (pkt ∷ pkt' ∷ pkts) h = rw (take-remove_end n (pkt' ∷ pkts) (omega arith))

pub take_all : (n : ℕ) (list : List Pkt) → length list ≤ n → take n list ≡ list
take_all zero [] h = refl
take_all zero (pkt ∷ pkts) h = absurd (omega arith)
take_all (suc n) [] h = refl
take_all (suc n) (pkt ∷ pkts) h = rw (take_all n pkts (omega arith))

remove_ends_lem :
    (fuel n : ℕ) (list : List Pkt)
    → length list ≤ fuel
    → remove_ends fuel n list ≡ (take n list, length list - n)
unfolding remove_ends
remove_ends_lem zero n [] h =
    let e : 0 - n ≡ 0 = omega arith in rw (take_all n [] (omega arith), e) refl
remove_ends_lem zero n (pkt ∷ pkts) h = absurd (omega arith)
remove_ends_lem (suc fuel) n list h =
    let ih = remove_ends_lem fuel n (remove_end list) (omega (arith, length-remove_end list)) in
    elim (Bool-cases (ltb n (length list))) [
      | inl more ↦
          rw (more, ih, take-remove_end n list (ltb→lt _ _ more), length-remove_end list)
            (let e : length list - 1 - n + 1 ≡ length list - n = omega (arith, ltb→lt _ _ more) in
              rw e refl)
      | inr done ↦
          rw (done, take_all n list (ltb→le _ _ done))
            (let e : length list - n ≡ 0 = omega (arith, ltb→le _ _ done) in rw e refl)
    ]

pub last_seqnum-take :
    (n : ℕ) (list : List Pkt)
    → 1 ≤ n
    → 1 ≤ length list
    → (seqnum : ℕ) × (last_seqnum (take n list) ≡ some seqnum)
last_seqnum-take zero list h k = absurd (omega arith)
last_seqnum-take (suc n) [] h k = absurd (omega arith)
last_seqnum-take (suc zero) (pkt ∷ pkts) h k = (pkt.seqnum, refl)
last_seqnum-take (suc (suc n)) (pkt ∷ []) h k = (pkt.seqnum, refl)
last_seqnum-take (suc (suc n)) (pkt ∷ pkt' ∷ pkts) h k =
    last_seqnum-take (suc n) (pkt' ∷ pkts) (omega arith) (omega arith)

-- What is left: the first packets, as many as the window has places, and where some had to go, their
-- last number as `seqnum_tail`.
pub record Shrunk (before after : WindowPkt) : Type 0 where
  pub list : after.list ≡ take before.windowsize before.list
  pub seqnum_head : after.seqnum_head ≡ before.seqnum_head
  pub windowsize : after.windowsize ≡ before.windowsize
  pub tail :
      before.windowsize < length before.list → last_seqnum after.list ≡ some after.seqnum_tail

set_tail-none :
    (window : WindowPkt) (list : List Pkt) (i : ℕ)
    → (i == 0) ≡ true
    → set_tail window (list, i) ≡ some (record window { list = list })
set_tail-none window list i none_dropped = rw none_dropped

set_tail-some :
    (window : WindowPkt) (list : List Pkt) (i seqnum : ℕ)
    → (i == 0) ≡ false
    → last_seqnum list ≡ some seqnum
    → set_tail window (list, i) ≡ some (record window { list = list; seqnum_tail = seqnum })
set_tail-some window list i seqnum dropped last = rw (dropped, last)

abbrev pub halved : Receiver → WindowPkt
halved s = record s.window { windowsize = s.window.windowsize / 2 }

pub drop_packets_lem :
    (window : WindowPkt)
    → 1 ≤ window.windowsize
    → (window' : WindowPkt) × (drop_packets window ≡ some window') × Shrunk window window'
unfolding drop_packets
drop_packets_lem window h =
    let e = remove_ends_lem (length window.list) window.windowsize window.list (omega arith) in
    elim (Bool-cases (length window.list - window.windowsize == 0)) [
      | inl none_dropped ↦ (
        record window { list = take window.windowsize window.list },
        ap (set_tail window) e ∙ set_tail-none window _ _ none_dropped,
        record {
          list = refl;
          seqnum_head = refl;
          windowsize = refl;
          tail = λ more. absurd (ground arith);
        },
      )
      | inr dropped ↦
          let (seqnum, last) = last_seqnum-take window.windowsize window.list h (ground arith) in
          (
            record window { list = take window.windowsize window.list; seqnum_tail = seqnum },
            ap (set_tail window) e ∙ set_tail-some window _ _ seqnum dropped last,
            record { list = refl; seqnum_head = refl; windowsize = refl; tail = λ more. last },
          )
    ]

-- `decrease_window` is defined for every window. It halves a window of more than four places, keeps
-- the first packets that fit into it, sets `seqnumTail` to the last of them where others had to go,
-- and forgets that the end of the file was seen; a window of at most four stays as it is.
pub decrease_window_lem :
    (s : Receiver)
    → (s' : Receiver) × (decrease_window s ≡ some s')
      × (4 < s.window.windowsize → Shrunk (halved s) s'.window × (s'.eof_reached ≡ false))
      × (s.window.windowsize ≤ 4 → s' ≡ s)
unfolding decrease_window
decrease_window_lem s = elim (Bool-cases (ltb 4 s.window.windowsize)) [
  | inl large ↦
      let (window, e, shrunk) = drop_packets_lem (halved s) (omega (arith, ltb→lt _ _ large)) in
      (
        record s { window = window; eof_reached = false },
        rw (large, e) refl,
        (λ _. (shrunk, refl)),
        λ small. absurd (ground arith),
      )
  | inr small ↦ (s, rw small refl, (λ more. absurd (ground arith)), λ _. refl)
]
