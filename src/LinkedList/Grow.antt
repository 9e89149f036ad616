-- ===== src/LinkedList/Grow.antt =====
-- `linkedList_add_pkt` of src/linkedList/linkedList.c on a list.
use projet_trtp.Base.{
  ℕ, ◌+◌, ◌%◌, ◌<◌, ◌≡◌, ◌≢◌, refl, sym, ◌∙◌, ap, List, [], ◌∷◌, ◌++◌, Option, none, some, arith,
  ne→==, length, All, length-append,
}
use projet_trtp.Packet.Struct.{Pkt}
use projet_trtp.LinkedList.{
  Node, Heap, LinkedList, update, store_node, linked_list_add, linked_list_add_pkt, ◌>>=◌,
}
use projet_trtp.LinkedList.Chain.{
  Cell, Links, Holds, Apart, Distinct, IsList, update_other, update_same, Links-update, All-map,
  tail_of,
}

-- An address that holds no node is none of the list's.
pub free_address :
    (nodes : ℕ → Option Node) (a head tail : ℕ) (cells : List Cell)
    → nodes a ≡ none
    → Links nodes head tail cells
    → All (λ c. c.addr ≢ a) cells
free_address nodes a head tail [] e h = tt
free_address nodes a head tail (c ∷ []) e (eh, et, (next, f)) =
    ((λ same. cc (sym f ∙ ap nodes same ∙ e)), tt)
free_address nodes a head tail (c ∷ d ∷ cs) e (eh, f, h) =
    ((λ same. cc (sym f ∙ ap nodes same ∙ e)), free_address nodes a d.addr tail (d ∷ cs) e h)

All-snoc :
    (P : Cell → Type 0) (cells : List Cell) (c : Cell)
    → All P cells
    → P c
    → All P (cells ++ (c ∷ []))
All-snoc P [] c h p = (p, tt)
All-snoc P (d ∷ cells) c (q, h) p = (q, All-snoc P cells c h p)

Distinct-snoc :
    (cells : List Cell) (c : Cell)
    → Distinct cells
    → All (λ d. Apart d c) cells
    → Distinct (cells ++ (c ∷ []))
Distinct-snoc [] c h a = (tt, tt)
Distinct-snoc (d ∷ cells) c (g, h) (b, a) =
    (All-snoc (Apart d) cells c g b, Distinct-snoc cells c h a)

module _ (n ptr next : ℕ) (pkt : Pkt) where
  abbrev pub new_cell : Cell
  new_cell = record { addr = n; ptr = ptr; pkt = pkt }

  -- The write to the tail's `next`.
  Links-snoc :
      (nodes : ℕ → Option Node) (head tail : ℕ) (c : Cell) (cs : List Cell)
      → Links nodes head tail (c ∷ cs)
      → Distinct (c ∷ cs)
      → nodes n ≡ some (record { pkt = ptr; next = next })
      → All (λ d. d.addr ≢ n) (c ∷ cs)
      → (last : Node) × (nodes tail ≡ some last)
        × Links
            (update nodes tail (some (record last { next = n })))
            head
            n
            ((c ∷ cs) ++ (new_cell ∷ []))
  Links-snoc nodes head tail c [] (eh, et, (old, e)) distinct fresh (ne, out) = (
    record { pkt = c.ptr; next = old },
    ap nodes et ∙ e,
    (
      eh,
      ap (λ (t : ℕ). update nodes t (some (record { pkt = c.ptr; next = n })) c.addr) et
          ∙ update_same nodes c.addr _,
      (refl, refl, (next, update_other nodes tail n _ (λ same. ne (sym (same ∙ et))) ∙ fresh)),
    ),
  )
  Links-snoc nodes head tail c (d ∷ cs) (eh, e, h) (apart, distinct) fresh (ne, out) =
      let (last, found, links) = Links-snoc nodes d.addr tail d cs h distinct fresh out in
      let other : c.addr ≢ tail =
        tail_of (λ q. c.addr ≢ q) nodes d.addr tail d cs h
          (All-map (λ x a same. a.0 (sym same)) (d ∷ cs) apart) in
      (last, found, (eh, update_other nodes tail c.addr _ other ∙ e, links))

  All-zip :
      (cells : List Cell)
      → All (λ c. c.addr ≢ n) cells
      → All (λ c. c.ptr ≢ ptr) cells
      → All (λ c. Apart c new_cell) cells
  All-zip [] out apart = tt
  All-zip (c ∷ cs) (a, out) (b, apart) =
      (((λ e. a (sym e)), (λ e. b (sym e))), All-zip cs out apart)

  -- `linkedList_add_pkt` puts the packet behind the others.
  pub add_pkt-IsList :
      (h : Heap) (list : LinkedList) (cells : List Cell)
      → IsList h list cells
      → length cells < 255
      → n ≢ 0
      → h.nodes n ≡ none
      → Holds h.pkts new_cell
      → All (λ c. c.ptr ≢ ptr) cells
      → (h' : Heap) × (list' : LinkedList) × (linked_list_add_pkt n next h list ptr
          ≡ some (h', list'))
        × IsList h' list' (cells ++ (new_cell ∷ []))
        × (h'.pkts ≡ h.pkts)
  unfolding linked_list_add_pkt
  add_pkt-IsList h list [] v room ne fresh held apart = (
    store_node h n (record { pkt = ptr; next = next }),
    record { head = n; tail = n; size = 1 },
    rw (linked_list_add_pkt, ne→== n 0 ne, linked_list_add, v.size),
    record {
      size = refl;
      small = omega arith;
      links = (refl, refl, (next, update_same h.nodes n _));
      holds = (held, tt);
      distinct = (tt, tt);
    },
    refl,
  )
  add_pkt-IsList h list (c ∷ cs) v room ne fresh held apart =
      let out = free_address h.nodes n list.head list.tail (c ∷ cs) fresh v.links in
      let stored =
        Links-update h.nodes n (some (record { pkt = ptr; next = next })) list.head list.tail
          (c ∷ cs) out v.links in
      let (last, found, links) =
        Links-snoc (update h.nodes n (some (record { pkt = ptr; next = next }))) list.head list.tail
          c cs stored v.distinct (update_same h.nodes n _) out in
      let size = v.size in
      let full : list.size ≢ 0 = omega arith in
      (
        store_node (store_node h n (record { pkt = ptr; next = next })) list.tail
            (record last { next = n }),
        record list { tail = n; size = (list.size + 1) % 256 },
        rw (
          linked_list_add_pkt,
          ne→== n 0 ne,
          linked_list_add,
          ne→== list.size 0 full,
          found,
          ◌>>=◌,
        ),
        record {
          size = omega (arith, length-append (c ∷ cs) (new_cell ∷ []));
          small = omega (arith, length-append (c ∷ cs) (new_cell ∷ []));
          links = links;
          holds = All-snoc (Holds h.pkts) (c ∷ cs) new_cell v.holds held;
          distinct = Distinct-snoc (c ∷ cs) new_cell v.distinct (All-zip (c ∷ cs) out apart);
        },
        refl,
      )
