-- ===== src/LinkedList/Shrink.antt =====
-- `linkedList_remove` of src/linkedList/linkedList.c on a list: the first node goes.
use projet_trtp.Base.{
  Bool, false, ℕ, ◌-◌, ◌≡◌, ◌≢◌, refl, ◌∙◌, ap, List, [], ◌∷◌, none, some, arith, ne→==, All,
}
use projet_trtp.Packet.Struct.{Payload, null, block, freed}
use projet_trtp.LinkedList.{Heap, LinkedList, update, free_payload, mark, linked_list_remove, ◌>>=◌}
use projet_trtp.LinkedList.Chain.{
  Cell, Links, Holds, Apart, IsList, Links-update, Holds-update, All-map, first_node,
}

-- Without the block of a payload that is one.
abbrev pub payload_gone : (ℕ → Bool) → ℕ → Payload → ℕ → Bool
payload_gone payloads p null = payloads
payload_gone payloads p (block bytes) = mark payloads p false
payload_gone payloads p freed = payloads

-- The heap without the cell's blocks.
abbrev pub dropped : Heap → Cell → Heap
dropped h c = record {
  nodes = update h.nodes c.addr none;
  pkts = update h.pkts c.ptr none;
  payloads = payload_gone h.payloads c.ptr c.pkt.payload;
  lists = h.lists;
}

pub whole-free_payload :
    (h : Heap) (ptr : ℕ) (p : Payload)
    → p ≢ freed
    → free_payload h ptr p ≡ some (record h { payloads = payload_gone h.payloads ptr p })
whole-free_payload h ptr null ne = refl
whole-free_payload h ptr (block bytes) ne = refl
whole-free_payload h ptr freed ne = elim (ne refl) [ ]

-- The other cells keep their nodes and packets.
module _ (h : Heap) (c : Cell) where
  pub Links-dropped :
      (head tail : ℕ) (cs : List Cell)
      → All (Apart c) cs
      → Links h.nodes head tail cs
      → Links (dropped h c).nodes head tail cs
  Links-dropped head tail cs apart links =
      Links-update h.nodes c.addr none head tail cs (All-map (λ d a. a.0) cs apart) links

  pub Holds-dropped :
      (cs : List Cell)
      → All (Apart c) cs
      → All (Holds h.pkts) cs
      → All (Holds (dropped h c).pkts) cs
  Holds-dropped cs apart holds =
      Holds-update h.pkts c.ptr none cs (All-map (λ d a. a.1) cs apart) holds

-- The struct after a removal at the head.
abbrev pub behind : LinkedList → List Cell → LinkedList
behind list [] = record list { size = 0 }
behind list (d ∷ cs) = record list { head = d.addr; size = list.size - 1 }

pub remove-runs :
    (h : Heap) (list : LinkedList) (c : Cell) (cs : List Cell)
    → IsList h list (c ∷ cs)
    → linked_list_remove h list ≡ some (dropped h c, behind list cs)
unfolding linked_list_remove
remove-runs h list c [] v =
    let (next, e) = first_node h.nodes list.head list.tail c [] v.links in
    let head = v.links.0 in
    let found = ap h.nodes head ∙ e in
    let (ne, held, whole) = v.holds.0 in
    rw (
      v.size,
      found,
      ◌>>=◌,
      ne→== c.ptr 0 ne,
      held,
      whole-free_payload h c.ptr c.pkt.payload whole,
      head,
      e,
      ◌>>=◌,
    )
remove-runs h list c (d ∷ cs) v =
    let size = v.size in
    let some0 : list.size ≢ 0 = omega arith in
    let some1 : list.size ≢ 1 = omega arith in
    let head = v.links.0 in
    let e = v.links.1 in
    let found = ap h.nodes head ∙ e in
    let (ne, held, whole) = v.holds.0 in
    rw (
      ne→== list.size 0 some0,
      ne→== list.size 1 some1,
      found,
      ◌>>=◌,
      ne→== c.ptr 0 ne,
      held,
      whole-free_payload h c.ptr c.pkt.payload whole,
      head,
      e,
    )

pub remove-IsList :
    (h : Heap) (list : LinkedList) (c : Cell) (cs : List Cell)
    → IsList h list (c ∷ cs)
    → IsList (dropped h c) (behind list cs) cs
remove-IsList h list c [] v = record {
  size = refl;
  small = omega arith;
  links = tt;
  holds = tt;
  distinct = tt;
}
remove-IsList h list c (d ∷ cs) v =
    let size = v.size in
    let small = v.small in
    let (eh, e, links) = v.links in
    record {
      size = omega arith;
      small = omega arith;
      links = Links-dropped h c d.addr list.tail (d ∷ cs) v.distinct.0 links;
      holds = Holds-dropped h c (d ∷ cs) v.distinct.0 v.holds.1;
      distinct = v.distinct.1;
    }
