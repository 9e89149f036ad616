-- ===== src/Receiver/Order.antt =====
-- `linkedList_add_increasing` of src/read-write/read_write_receiver.c on a list in order.
use projet_trtp.Base.{
  ℕ, ◌+◌, ◌≤◌, ◌<◌, ◌≡◌, ◌≢◌, refl, ap, ◌⊎◌, inl, inr, true, false, Bool, List, [], ◌∷◌, ◌++◌,
  Option, none, some, arith, ltb, ◌==◌, ==_iff, ltb→lt, Bool-cases, All,
}
use projet_trtp.Packet.Struct.{Pkt}
use projet_trtp.Window.{WindowPkt, is_in_window, is_seqnum_greater, distance}
use projet_trtp.Window.ReceiverTests.{is_seqnum_greater_lem}
use projet_trtp.Receiver.Insert.{insert}

-- The window has 1 to 31 places and does not end at 255.
pub record IsPlain (window : WindowPkt) : Type 0 where
  pub head : window.seqnum_head < 256
  pub low : 1 ≤ window.windowsize
  pub high : window.windowsize ≤ 31
  pub edge : window.seqnum_head + window.windowsize ≢ 255

module _ (window : WindowPkt) where
  -- The packet's place, counted from the window's head.
  abbrev pub place : Pkt → ℕ
  place pkt = distance window.seqnum_head pkt.seqnum

  abbrev pub IsInside : Pkt → Type 0
  IsInside pkt = (pkt.seqnum < 256) × (is_in_window window pkt.seqnum ≡ true)

  abbrev pub Before : Pkt → Pkt → Type 0
  Before a b = place a < place b

  -- Every packet is inside the window and comes before those behind it in the list.
  abbrev pub IsOrdered : List Pkt → Type 0
  IsOrdered [] = Unit {0}
  IsOrdered (pkt ∷ pkts) = IsInside pkt × (All (Before pkt) pkts × IsOrdered pkts)

  -- A packet of the list has the number.
  abbrev pub HasSeqnum : ℕ → List Pkt → Type 0
  HasSeqnum seqnum [] = ⊥
  HasSeqnum seqnum (pkt ∷ pkts) = (seqnum ≡ pkt.seqnum) ⊎ HasSeqnum seqnum pkts

  -- The packet has come between those before it and those behind it.
  pub record Placed (pkt : Pkt) (list list' : List Pkt) (at_end : Bool) : Type 0 where
    pub before : List Pkt
    pub after : List Pkt
    pub old : list ≡ before ++ after
    pub new : list' ≡ before ++ (pkt ∷ after)
    pub lower : All (λ other. Before other pkt) before
    pub higher : All (Before pkt) after
    pub end : (at_end ≡ true → after ≡ []) × (at_end ≡ false → after ≢ [])

  abbrev pub Inserted : Pkt → List Pkt → Option (Bool × List Pkt) → Type 0
  Inserted pkt list none = HasSeqnum pkt.seqnum list
  Inserted pkt list (some (at_end, list')) = Placed pkt list list' at_end

  Before-trans :
      (a b : Pkt) (pkts : List Pkt) → Before a b → All (Before b) pkts → All (Before a) pkts
  Before-trans a b [] h hs = tt
  Before-trans a b (pkt ∷ pkts) h (p, ps) = (omega arith, Before-trans a b pkts h ps)

  behind :
      (pkt current : Pkt) (pkts : List Pkt) (o : Option (Bool × List Pkt))
      → Before current pkt
      → Inserted pkt pkts o
      → Inserted pkt
          (current ∷ pkts)
          (elim o [ none ↦ none | some (at_end, list) ↦ some (at_end, current ∷ list) ])
  behind pkt current pkts none lt h = inr h
  behind pkt current pkts (some (at_end, list)) lt h = record {
    before = current ∷ h.before;
    after = h.after;
    old = ap (λ (l : List Pkt). current ∷ l) h.old;
    new = ap (λ (l : List Pkt). current ∷ l) h.new;
    lower = (lt, h.lower);
    higher = h.higher;
    end = h.end;
  }

  greater_lem :
      (a b : Pkt)
      → IsPlain window
      → IsInside a
      → IsInside b
      → is_seqnum_greater a.seqnum b.seqnum window ≡ ltb (place b) (place a)
  greater_lem a b v (ha, ia) (hb, ib) =
      is_seqnum_greater_lem window a.seqnum b.seqnum v.head v.low v.high ha hb ia ib v.edge

  distance_ne :
      (a b : Pkt)
      → IsPlain window
      → IsInside a
      → IsInside b
      → (a.seqnum == b.seqnum) ≡ false
      → ltb (place a) (place b) ≡ false
      → Before b a
  distance_ne a b v (ha, ia) (hb, ib) other later = let h = v.head in ground arith

-- On a window that does not end at 255, with an ordered list inside it and a packet inside it, `insert`
-- refuses the packet exactly if the list has its number, and otherwise puts it behind all the
-- packets that come before it from the window's head and before all that come behind it, where
-- nothing else changes; the packet becomes the tail exactly if none comes behind it.
pub insert-Inserted :
    (window : WindowPkt) (pkt : Pkt) (list : List Pkt)
    → IsPlain window
    → IsInside window pkt
    → IsOrdered window list
    → Inserted window pkt list (insert window pkt list)
unfolding insert
insert-Inserted window pkt [] v i o = record {
  before = [];
  after = [];
  old = refl;
  new = refl;
  lower = tt;
  higher = tt;
  end = ((λ _. refl), λ h. absurd (cc h));
}
insert-Inserted window pkt (current ∷ pkts) v i (j, (b, o)) =
    elim (Bool-cases (pkt.seqnum == current.seqnum)) [
      | inl same ↦ rw (insert, same) (inl ((==_iff pkt.seqnum current.seqnum).0 same))
      | inr other ↦ elim (Bool-cases (ltb (place window pkt) (place window current))) [
        | inl here ↦
            rw (insert, other, greater_lem window current pkt v j i, here)
              (record {
                before = [];
                after = current ∷ pkts;
                old = refl;
                new = refl;
                lower = tt;
                higher =
                    (ltb→lt _ _ here, Before-trans window pkt current pkts (ltb→lt _ _ here) b);
                end = ((λ h. absurd (cc h)), λ _ h. absurd (cc h));
              })
        | inr later ↦
            rw (insert, other, greater_lem window current pkt v j i, later)
              (behind window pkt current pkts (insert window pkt pkts)
                (distance_ne window pkt current v i j other later)
                (insert-Inserted window pkt pkts v i o))
      ]
    ]
