-- ===== src/Sender/Resize.antt =====
-- Which packets `update_window` of src/read-write/read_write_sender.c drops.
use projet_trtp.Base.{
  ℕ, zero, suc, ◌+◌, ◌-◌, ◌%◌, ◌^◌, ◌≤◌, ◌<◌, ◌≡◌, ◌≢◌, refl, ap, sym, ◌∙◌, inl, inr, false, List,
  [], none, some, arith, length, take, ltb, ltb→lt, ltb→le, le→ltb, ne→==, Bool-cases,
}
use projet_trtp.Packet.Struct.{Pkt}
use projet_trtp.Receiver.Response.{remove_end, last_seqnum}
use projet_trtp.Receiver.Shrink.{length-remove_end, take-remove_end, take_all, last_seqnum-take}
use projet_trtp.Sender.{Sender}
use projet_trtp.Sender.Acks.{drop_end, drop_ends, shrink_end, resize, update_window}

last_in : (list : List Pkt) → 1 ≤ length list → (seqnum : ℕ) × (last_seqnum list ≡ some seqnum)
last_in list h =
    let (seqnum, e) = last_seqnum-take (length list) list h h in
    (seqnum, sym (ap last_seqnum (take_all (length list) list (omega arith))) ∙ e)

-- What the loop has done: the list is cut to its first packets, and `global_pkt` is lower by one for each packet
-- that went, modulo 2 ^ 64.
pub record Cut (s s' : Sender) : Type 0 where
  pub list : s'.window.list ≡ take s.window.windowsize s.window.list
  pub windowsize : s'.window.windowsize ≡ s.window.windowsize
  pub head : s'.window.seqnum_head ≡ s.window.seqnum_head
  pub sent : s'.sent ≡ s.sent
  pub copybuf : s'.copybuf ≡ s.copybuf
  pub global_pkt :
      (s'.global_pkt + (length s.window.list - s.window.windowsize)) % 2 ^ 64
      ≡ s.global_pkt % 2 ^ 64

record Dropped (s s' : Sender) : Type 0 where
  list : s'.window.list ≡ remove_end s.window.list
  windowsize : s'.window.windowsize ≡ s.window.windowsize
  head : s'.window.seqnum_head ≡ s.window.seqnum_head
  sent : s'.sent ≡ s.sent
  copybuf : s'.copybuf ≡ s.copybuf
  global_pkt : s'.global_pkt ≡ (s.global_pkt + 2 ^ 64 - 1) % 2 ^ 64

drop_end_lem : (s : Sender) → 1 ≤ length s.window.list → Dropped s (drop_end s)
drop_end_lem s h =
    let (seqnum, e) = last_in s.window.list h in
    rw (drop_end, e)
      (record {
        list = refl;
        windowsize = refl;
        head = refl;
        sent = refl;
        copybuf = refl;
        global_pkt = refl;
      })

drop_ends_lem : (fuel : ℕ) (s : Sender) → length s.window.list ≤ fuel → Cut s (drop_ends fuel s)
unfolding drop_ends
drop_ends_lem zero s h = record {
  list = sym (take_all s.window.windowsize s.window.list (omega arith));
  windowsize = refl;
  head = refl;
  sent = refl;
  copybuf = refl;
  global_pkt = omega arith;
}
drop_ends_lem (suc fuel) s h = elim (Bool-cases (ltb s.window.windowsize (length s.window.list))) [
  | inr fits ↦
      rw (drop_ends, fits)
        (record {
          list = sym (take_all s.window.windowsize s.window.list (ltb→le _ _ fits));
          windowsize = refl;
          head = refl;
          sent = refl;
          copybuf = refl;
          global_pkt = omega (arith, ltb→le _ _ fits);
        })
  | inl more ↦
      let lt = ltb→lt _ _ more in
      let d = drop_end_lem s (omega arith) in
      let size = ap length d.list ∙ length-remove_end s.window.list in
      let c = drop_ends_lem fuel (drop_end s) (omega arith) in
      rw (drop_ends, more)
        (record {
          list =
              c.list
              ∙ ap (λ (k : ℕ). take k (drop_end s).window.list) d.windowsize
              ∙ ap (take s.window.windowsize) d.list
              ∙ take-remove_end s.window.windowsize s.window.list lt;
          windowsize = c.windowsize ∙ d.windowsize;
          head = c.head ∙ d.head;
          sent = c.sent ∙ d.sent;
          copybuf = c.copybuf ∙ d.copybuf;
          global_pkt =
              let g = c.global_pkt in let g1 = d.global_pkt in let w = d.windowsize in omega arith;
        })
]

-- What is left of the sender by a smaller window.
pub record Resized (new_size : ℕ) (s s' : Sender) : Type 0 where
  pub list : s'.window.list ≡ take new_size s.window.list
  pub windowsize : s'.window.windowsize ≡ new_size
  pub head : s'.window.seqnum_head ≡ s.window.seqnum_head
  pub sent : s'.sent ≡ s.sent
  pub copybuf : s'.copybuf ≡ s.copybuf
  pub tail : last_seqnum s'.window.list ≡ some s'.window.seqnum_tail
  pub global_pkt :
      (s'.global_pkt + (length s.window.list - new_size)) % 2 ^ 64 ≡ s.global_pkt % 2 ^ 64
  pub file_open : s'.eof_reached ≡ false
  pub not_last : s'.last_pkt ≡ false

shrink_lem :
    (new_size : ℕ) (s : Sender)
    → 1 ≤ new_size
    → 1 ≤ length s.window.list
    → (s' : Sender) × (shrink_end (drop_ends (length s.window.list) (resize new_size s)) ≡ some s')
      × Resized new_size s s'
shrink_lem new_size s low full =
    let s1 : Sender = drop_ends (length s.window.list) (resize new_size s) in
    let c = drop_ends_lem (length s.window.list) (resize new_size s) (omega arith) in
    let (seqnum, e) = last_seqnum-take new_size s.window.list low full in
    let last : last_seqnum s1.window.list ≡ some seqnum = ap last_seqnum c.list ∙ e in
    (
      record s1 {
        window = record s1.window { seqnum_tail = seqnum };
        eof_reached = false;
        last_pkt = false;
        last_rst = 0;
      },
      rw (shrink_end, last),
      record {
        list = c.list;
        windowsize = c.windowsize;
        head = c.head;
        sent = c.sent;
        copybuf = c.copybuf;
        tail = last;
        global_pkt = c.global_pkt;
        file_open = refl;
        not_last = refl;
      },
    )

smaller :
    (new_size : ℕ) (s : Sender)
    → 1 ≤ new_size
    → new_size < s.window.windowsize
    → update_window new_size s ≡ shrink_end (drop_ends (length s.window.list) (resize new_size s))
unfolding update_window
smaller new_size s low less =
    let nonzero : new_size ≢ 0 = omega arith in
    let other : new_size ≢ s.window.windowsize = omega arith in
    rw (
      update_window,
      ne→== new_size 0 nonzero,
      ne→== new_size s.window.windowsize other,
      le→ltb s.window.windowsize new_size (omega arith),
    )

nothing :
    (new_size : ℕ) (s : Sender)
    → s.window.list ≡ []
    → shrink_end (drop_ends (length s.window.list) (resize new_size s)) ≡ none
nothing new_size s empty =
    let s1 : Sender = drop_ends (length s.window.list) (resize new_size s) in
    let c = drop_ends_lem (length s.window.list) (resize new_size s) (omega arith) in
    let last : last_seqnum s1.window.list ≡ none =
      ap last_seqnum (c.list ∙ ap (take new_size) empty ∙ take_all new_size [] (omega arith)) in
    rw (shrink_end, last)

-- For a size from 1 to below the present one, and a list that is not empty, `update_window` is defined.
-- It keeps the first packets that fit, sets `seqnumTail` to the last of them, takes the number of the dropped
-- packets from `global_pkt`, modulo 2 ^ 64, and forgets that the end of the file was reached and the last
-- packet sent.
pub update_window-Resized :
    (new_size : ℕ) (s : Sender)
    → 1 ≤ new_size
    → new_size < s.window.windowsize
    → 1 ≤ length s.window.list
    → (s' : Sender) × (update_window new_size s ≡ some s') × Resized new_size s s'
unfolding update_window
update_window-Resized new_size s low less full =
    let (s', e, r) = shrink_lem new_size s low full in (s', smaller new_size s low less ∙ e, r)

-- For such a size and an empty list `update_window` reads the number of a packet that has been freed, or
-- was never there.
pub update_window_empty :
    (new_size : ℕ) (s : Sender)
    → 1 ≤ new_size
    → new_size < s.window.windowsize
    → s.window.list ≡ []
    → update_window new_size s ≡ none
update_window_empty new_size s low less empty =
    smaller new_size s low less ∙ nothing new_size s empty
