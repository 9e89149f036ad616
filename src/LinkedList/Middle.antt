-- ===== src/LinkedList/Middle.antt =====
-- `linkedList_remove_middle` of src/linkedList/linkedList.c on a list: a node between two others goes.
use projet_trtp.Base.{
  ℕ, suc, ◌-◌, ◌≡◌, ◌≢◌, refl, sym, ◌∙◌, ap, List, [], ◌∷◌, ◌++◌, Option, none, some, arith, ne→==,
  length, All, append_assoc, subst,
}
use projet_trtp.Packet.Struct.{Pkt}
use projet_trtp.LinkedList.{
  Node, Heap, LinkedList, update, store_node, linked_list_remove_middle, ◌>>=◌,
}
use projet_trtp.LinkedList.Chain.{
  Cell, Links, Holds, Apart, Distinct, IsList, update_other, update_same, Links-update,
  Holds-update, All-map,
}
use projet_trtp.LinkedList.Shrink.{dropped, whole-free_payload}

-- A part of a list that has a property keeps it.
module _ (P : Cell → Type 0) (c : Cell) (post : List Cell) where
  All-cut : (pre : List Cell) → All P (pre ++ (c ∷ post)) → P c × All P (pre ++ post)
  All-cut [] h = h
  All-cut (d ∷ pre) (p, h) = let (pc, rest) = All-cut pre h in (pc, (p, rest))

module _ (c : Cell) (post : List Cell) where
  -- The others are distinct, and apart from the cell.
  Distinct-cut :
      (pre : List Cell)
      → Distinct (pre ++ (c ∷ post))
      → Distinct (pre ++ post) × All (λ d. Apart c d) (pre ++ post)
  Distinct-cut [] (a, h) = (h, a)
  Distinct-cut (d ∷ pre) (a, h) =
      let (ac, rest) = All-cut (Apart d) c post pre a in
      let (distinct, apart) = Distinct-cut pre h in
      ((rest, distinct), (((λ e. ac.0 (sym e)), (λ e. ac.1 (sym e))), apart))

module _ (p c d : Cell) (post : List Cell) where
  abbrev behind_p : Node
  behind_p = record { pkt = p.ptr; next = d.addr }

  -- The write of `previous->next` goes past the node.
  Links-cut :
      (nodes : ℕ → Option Node) (head tail : ℕ) (pre : List Cell)
      → Links nodes head tail (pre ++ (p ∷ c ∷ d ∷ post))
      → Distinct (pre ++ (p ∷ c ∷ d ∷ post))
      → (nodes c.addr ≡ some (record { pkt = c.ptr; next = d.addr }))
        × (nodes p.addr ≡ some (record { pkt = p.ptr; next = c.addr }))
        × Links (update nodes p.addr (some behind_p)) head tail (pre ++ (p ∷ d ∷ post))
  Links-cut nodes head tail [] (head_at, e, (c_at, f, links)) (ap_, (ac, distinct)) = (
    f,
    e,
    (
      head_at,
      update_same nodes p.addr _,
      Links-update nodes p.addr (some behind_p) d.addr tail (d ∷ post)
          (All-map (λ x a. a.0) (d ∷ post) ap_.1) links,
    ),
  )
  Links-cut nodes head tail (a ∷ []) (head_at, e, links) (apart, distinct) =
      let (f, g, rest) = Links-cut nodes p.addr tail [] links distinct in
      (f, g, (head_at, update_other nodes p.addr a.addr _ (λ same. apart.0.0 (sym same)) ∙ e, rest))
  Links-cut nodes head tail (a ∷ b ∷ pre) (head_at, e, links) (apart, distinct) =
      let (f, g, rest) = Links-cut nodes b.addr tail (b ∷ pre) links distinct in
      let other = (All-cut (Apart a) p (c ∷ d ∷ post) (b ∷ pre) apart).0 in
      (f, g, (head_at, update_other nodes p.addr a.addr _ (λ same. other.0 (sym same)) ∙ e, rest))

  -- The list without the node between `p` and `d`, with its parts' properties.
  cut-Apart :
      (pre : List Cell)
      → Distinct (pre ++ (p ∷ c ∷ d ∷ post))
      → Distinct (pre ++ (p ∷ d ∷ post)) × All (Apart c) (pre ++ (p ∷ d ∷ post))
  cut-Apart pre h =
      let front = append_assoc pre (p ∷ []) (c ∷ d ∷ post) in
      let whole = append_assoc pre (p ∷ []) (d ∷ post) in
      let (distinct, apart) =
        Distinct-cut c (d ∷ post) (pre ++ (p ∷ [])) (subst Distinct (sym front) h) in
      (subst Distinct whole distinct, subst (All (Apart c)) whole apart)

  cut-Holds :
      (pkts : ℕ → Option Pkt) (pre : List Cell)
      → All (Holds pkts) (pre ++ (p ∷ c ∷ d ∷ post))
      → Holds pkts c × All (Holds pkts) (pre ++ (p ∷ d ∷ post))
  cut-Holds pkts [] (hp, (hc, h)) = (hc, (hp, h))
  cut-Holds pkts (a ∷ pre) (ha, h) = let (hc, rest) = cut-Holds pkts pre h in (hc, (ha, rest))

  cut-length :
      (pre : List Cell) → length (pre ++ (p ∷ c ∷ d ∷ post)) ≡ suc (length (pre ++ (p ∷ d ∷ post)))
  cut-length [] = refl
  cut-length (a ∷ pre) = ap suc (cut-length pre)

  -- `linkedList_remove_middle`, given the nodes of two neighbours, the second not the tail, returns: it
  -- takes the second's packet out of the list and frees its two blocks.
  pub remove_middle-IsList :
      (h : Heap) (list : LinkedList) (pre : List Cell)
      → IsList h list (pre ++ (p ∷ c ∷ d ∷ post))
      → (h' : Heap) × (list' : LinkedList) × (linked_list_remove_middle h list p.addr c.addr
          ≡ some (h', list'))
        × IsList h' list' (pre ++ (p ∷ d ∷ post))
        × (h'.nodes c.addr ≡ none)
        × (h'.pkts c.ptr ≡ none)
  unfolding linked_list_remove_middle
  remove_middle-IsList h list pre v =
      let (f, g, links) = Links-cut h.nodes list.head list.tail pre v.links v.distinct in
      let (distinct, apart) = cut-Apart pre v.distinct in
      let (held, holds) = cut-Holds h.pkts pre v.holds in
      let small = v.small in
      let size = v.size in
      let other : c.addr ≢ p.addr = λ e. (All-cut (Apart c) p (d ∷ post) pre apart).0.0 (sym e) in
      (
        dropped (store_node h p.addr behind_p) c,
        record list { size = list.size - 1 },
        rw (
          f,
          g,
          ◌>>=◌,
          ne→== c.ptr 0 held.0,
          held.1,
          whole-free_payload (store_node h p.addr behind_p) c.ptr c.pkt.payload held.2,
          update_other h.nodes p.addr c.addr (some behind_p) other,
          f,
          ◌>>=◌,
        ),
        record {
          size = omega (arith, cut-length pre);
          small = omega (arith, cut-length pre);
          links =
              Links-update (update h.nodes p.addr (some behind_p)) c.addr none list.head list.tail
                (pre ++ (p ∷ d ∷ post)) (All-map (λ x a. a.0) (pre ++ (p ∷ d ∷ post)) apart) links;
          holds =
              Holds-update h.pkts c.ptr none (pre ++ (p ∷ d ∷ post))
                (All-map (λ x a. a.1) (pre ++ (p ∷ d ∷ post)) apart) holds;
          distinct = distinct;
        },
        update_same (update h.nodes p.addr (some behind_p)) c.addr none,
        update_same h.pkts c.ptr none,
      )
