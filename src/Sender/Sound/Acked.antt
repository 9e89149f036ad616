-- ===== src/Sender/Sound/Acked.antt =====
-- `update_window` and `ack_window` of src/read-write/read_write_sender.c keep the invariant.
use projet_trtp.Base.{
  ◌⊎◌, Bool, ℕ, zero, suc, ◌+◌, ◌≤◌, ◌<◌, ◌≡◌, ◌≢◌, inl, inr, refl, sym, subst, ◌∙◌, true, List, [],
  ◌∷◌, Bool-cases, ltb, ◌==◌, length, take, All, arith,
}
use projet_trtp.Packet.Struct.{Pkt}
use projet_trtp.Window.{seqnum_in_window, can_ack_window}
use projet_trtp.Receiver.Always.{Always}
use projet_trtp.Receiver.Sound.Keep.{All-take}
use projet_trtp.Sender.{System, Sender}
use projet_trtp.Sender.Acks.{remove_acked, ack_loop, ack_list, ack_window, resize, update_window}
use projet_trtp.Sender.Resize.{Resized, update_window-Resized}
use projet_trtp.Sender.Sound.{IsBusy, IsOurs, IsSender}
use projet_trtp.Sender.Sound.Resent.{with_list}

-- `K` lets `update_window` drop packets, where it may.
abbrev pub LetsShrink :
    (K : (tail global : ℕ) (eof last : Bool) → Type 0) → (Shrinks : Type 0) → Type 0
LetsShrink K Shrinks =
    Shrinks
    → (new_size : ℕ) (s s' : Sender) → Resized new_size s s'
    → K s.window.seqnum_tail s.global_pkt s.eof_reached s.last_pkt
    → K s'.window.seqnum_tail s'.global_pkt s'.eof_reached s'.last_pkt

-- The announced size may shrink the window, or it is 0, or not below `w`; it is at most `w'`.
abbrev pub Fits : (Shrinks : Type 0) → (w w' new_size : ℕ) → Type 0
Fits Shrinks w w' new_size =
    (new_size ≤ w') × (new_size ≤ 31) × (Shrinks ⊎ ((new_size ≡ 0) ⊎ (w ≤ new_size)))

module _ (system : System) (mem : (k : ℕ) → system.libs.malloc k ≡ true)
    (sends : (sent : List (List ℕ)) (bytes : List ℕ) → system.send sent bytes ≡ true)
    (E : ℕ → Type 0) (K : (tail global : ℕ) (eof last : Bool) → Type 0) (Shrinks : Type 0) where
  abbrev Busy : ℕ → Sender → Type 0
  Busy w s = IsBusy system E K w s

  take_some : (n : ℕ) (list : List Pkt) → 1 ≤ n → list ≢ [] → take n list ≢ []
  take_some zero list h full = absurd (omega arith)
  take_some (suc n) [] h full = absurd (full refl)
  take_some (suc n) (pkt ∷ pkts) h full = λ e. cc e

  longer : (list : List Pkt) → list ≢ [] → 1 ≤ length list
  longer [] full = absurd (full refl)
  longer (pkt ∷ pkts) full = omega arith

  pub wider : (w w' : ℕ) (s : Sender) → w ≤ w' → Busy w s → Busy w' s
  wider w w' s h (v, full) =
      let bound = v.bound in
      (
        record {
          low = v.low;
          high = v.high;
          bound = omega arith;
          pkts = v.pkts;
          outs = v.outs;
          buffer = v.buffer;
          state = v.state;
        },
        full,
      )

  resized :
      (w w' new_size : ℕ) (s s' : Sender)
      → LetsShrink K Shrinks
      → Shrinks
      → 1 ≤ new_size
      → new_size ≤ w'
      → new_size ≤ 31
      → Resized new_size s s'
      → Busy w s
      → Busy w' s'
  resized w w' new_size s s' lets shrinks low bound small r (v, full) = (
    record {
      low = rw r.windowsize low;
      high = rw r.windowsize small;
      bound = rw r.windowsize bound;
      pkts = rw r.list (All-take (IsOurs system E) new_size s.window.list v.pkts);
      outs = rw r.sent v.outs;
      buffer = rw r.copybuf v.buffer;
      state = lets shrinks new_size s s' r v.state;
    },
    (λ e. take_some new_size s.window.list low full (sym r.list ∙ e)),
  )

  larger :
      (w w' new_size : ℕ) (s : Sender)
      → 1 ≤ new_size
      → new_size ≤ w'
      → new_size ≤ 31
      → Busy w s
      → Busy w' (resize new_size s)
  larger w w' new_size s low bound small (v, full) = (
    record {
      low = low;
      high = small;
      bound = bound;
      pkts = v.pkts;
      outs = v.outs;
      buffer = v.buffer;
      state = v.state;
    },
    full,
  )

  pub update_window-IsBusy :
      (w w' new_size : ℕ) (s : Sender)
      → LetsShrink K Shrinks
      → w ≤ w'
      → Fits Shrinks w w' new_size
      → Busy w s
      → Always (Busy w') (update_window new_size s)
  unfolding update_window
  update_window-IsBusy w w' new_size s lets grows (fits, small, how) (v, full) =
      elim (Bool-cases (new_size == 0)) [
        | inl zero_size ↦ rw (update_window, zero_size) (wider w w' s grows (v, full))
        | inr some_size ↦ elim (Bool-cases (new_size == s.window.windowsize)) [
          | inl same ↦ rw (update_window, some_size, same) (wider w w' s grows (v, full))
          | inr other ↦ elim (Bool-cases (ltb s.window.windowsize new_size)) [
            | inl more ↦
                rw (update_window, some_size, other, more)
                  (larger w w' new_size s (ground arith) fits small (v, full))
            | inr less ↦
                let low : 1 ≤ new_size = ground arith in
                let below : new_size < s.window.windowsize = ground arith in
                let bound = v.bound in
                elim how [
                  | inl shrinks ↦
                      let (s', e, r) =
                        update_window-Resized new_size s low below (longer s.window.list full) in
                      unfold update_window in
                      subst (Always (Busy w')) (sym e)
                        (resized w w' new_size s s' lets shrinks low fits small r (v, full))
                  | inr (inl none_size) ↦ absurd (omega arith)
                  | inr (inr grown) ↦ absurd (omega arith)
                ]
          ]
        ]
      ]

  ack_loop-IsSender :
      (w time ack_seqnum no_acked : ℕ) (list : List Pkt) (s : Sender)
      → All (IsOurs system E) list
      → IsSender system E K w s
      → IsSender system E K w (ack_loop time ack_seqnum no_acked list s).1
  unfolding ack_loop
  ack_loop-IsSender w time ack_seqnum no_acked [] s h v = v
  ack_loop-IsSender w time ack_seqnum no_acked (pkt ∷ pkts) s (p, h) v =
      elim (Bool-cases (seqnum_in_window s.window ack_seqnum pkt.seqnum)) [
        | inl before ↦
            rw (ack_loop, before)
              (ack_loop-IsSender w time ack_seqnum (no_acked + 1) pkts
                (remove_acked time pkt pkts s) h (with_list system mem sends E K w s pkts h v))
        | inr behind ↦ rw (ack_loop, behind) v
      ]

  ack_list-IsSender :
      (w ack_seqnum : ℕ) (list : List Pkt) (s : Sender)
      → list ≢ []
      → All (IsOurs system E) list
      → IsSender system E K w s
      → Always (λ r. IsSender system E K w r.1) (ack_list system ack_seqnum list s)
  unfolding ack_list
  ack_list-IsSender w ack_seqnum [] s full h v = absurd (full refl)
  ack_list-IsSender w ack_seqnum (pkt ∷ pkts) s full h v =
      ack_loop-IsSender w _ ack_seqnum 0 (pkt ∷ pkts) (record s { calls = s.calls + 1 }) h v

  pub ack_window-IsSender :
      (w ack_seqnum : ℕ) (s : Sender)
      → Busy w s
      → Always (λ r. IsSender system E K w r.1) (ack_window system ack_seqnum s)
  unfolding ack_window
  ack_window-IsSender w ack_seqnum s (v, full) =
      elim (Bool-cases (can_ack_window s.window ack_seqnum)) [
        | inl inside ↦
            rw (ack_window, inside) (ack_list-IsSender w ack_seqnum s.window.list s full v.pkts v)
        | inr outside ↦ rw (ack_window, outside) v
      ]
