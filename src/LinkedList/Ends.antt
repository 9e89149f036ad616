-- ===== src/LinkedList/Ends.antt =====
-- `linkedList_remove_end` of src/linkedList/linkedList.c on a list: the last node goes.
use projet_trtp.Base.{
  ℕ, zero, suc, ◌-◌, ◌<◌, ◌≡◌, ◌≢◌, refl, sym, ◌∙◌, ap, subst, List, [], ◌∷◌, Option, none, some,
  arith, ne→==, ==_refl, length, All,
}
use projet_trtp.LinkedList.{
  Node, Heap, LinkedList, update, before_tail, linked_list_remove_end, ◌>>=◌,
}
use projet_trtp.LinkedList.Chain.{
  Cell, Links, Holds, Apart, Distinct, IsList, update_other, Holds-update, All-map, tail_of,
}
use projet_trtp.LinkedList.Shrink.{dropped, whole-free_payload}

abbrev pub last : Cell → List Cell → Cell
last c [] = c
last c (d ∷ cs) = last d cs

-- All cells but the last.
abbrev pub init : Cell → List Cell → List Cell
init c [] = []
init c (d ∷ cs) = c ∷ init d cs

length-init : (c : Cell) (cs : List Cell) → length (init c cs) ≡ length cs
length-init c [] = refl
length-init c (d ∷ cs) = ap suc (length-init d cs)

module _ (P : Cell → Type 0) where
  All-init : (c : Cell) (cs : List Cell) → All P (c ∷ cs) → All P (init c cs)
  All-init c [] h = tt
  All-init c (d ∷ cs) (p, h) = (p, All-init d cs h)

  All-last : (c : Cell) (cs : List Cell) → All P (c ∷ cs) → P (last c cs)
  All-last c [] (p, h) = p
  All-last c (d ∷ cs) (p, h) = All-last d cs h

Distinct-init : (c : Cell) (cs : List Cell) → Distinct (c ∷ cs) → Distinct (init c cs)
Distinct-init c [] h = tt
Distinct-init c (d ∷ cs) (a, h) = (All-init (Apart c) d cs a, Distinct-init d cs h)

last-Apart :
    (c : Cell) (cs : List Cell) → Distinct (c ∷ cs) → All (λ d. Apart d (last c cs)) (init c cs)
last-Apart c [] h = tt
last-Apart c (d ∷ cs) (a, h) = (All-last (Apart c) d cs a, last-Apart d cs h)

-- The last cell's node is the tail's.
tail-last :
    (nodes : ℕ → Option Node) (head tail : ℕ) (c : Cell) (cs : List Cell)
    → Links nodes head tail (c ∷ cs)
    → (tail ≡ (last c cs).addr)
      × ((next : ℕ) × (nodes (last c cs).addr
            ≡ some (record { pkt = (last c cs).ptr; next = next })))
tail-last nodes head tail c [] (eh, et, l) = (et, l)
tail-last nodes head tail c (d ∷ cs) (eh, e, h) = tail-last nodes d.addr tail d cs h

-- The loop stops at the node in front of the tail, in fewer rounds than there are nodes.
before_tail-finds :
    (fuel : ℕ) (h : Heap) (head tail : ℕ) (c d : Cell) (cs : List Cell)
    → Links h.nodes head tail (c ∷ d ∷ cs)
    → Distinct (c ∷ d ∷ cs)
    → length cs < fuel
    → (p : ℕ) × (before_tail fuel h tail head ≡ some p)
      × Links (update h.nodes tail none) head p (init c (d ∷ cs))
unfolding before_tail
before_tail-finds zero h head tail c d cs links distinct enough = elim enough [ ]
before_tail-finds (suc fuel) h head tail c d [] (eh, e, (ed, et, l)) (a, distinct) enough = (
  head,
  rw (eh, e, ◌>>=◌, et, ==_refl d.addr),
  (eh, eh, (d.addr, update_other h.nodes tail c.addr none (λ same. a.0.0 (sym (same ∙ et))) ∙ e)),
)
before_tail-finds (suc fuel) h head tail c d (b ∷ cs) (eh, e, links) (a, distinct) enough =
    let (p, found, rest) =
      before_tail-finds fuel h d.addr tail d b cs links distinct (omega arith) in
    let far : d.addr ≢ tail =
      tail_of (λ q. d.addr ≢ q) h.nodes b.addr tail b cs links.2
        (All-map (λ x apart same. apart.0 (sym same)) (b ∷ cs) distinct.0) in
    let away : c.addr ≢ tail =
      tail_of (λ q. c.addr ≢ q) h.nodes d.addr tail d (b ∷ cs) links
        (All-map (λ x apart same. apart.0 (sym same)) (d ∷ b ∷ cs) a) in
    (
      p,
      rw (eh, e, ◌>>=◌, ne→== d.addr tail far) found,
      (eh, update_other h.nodes tail c.addr none away ∙ e, rest),
    )

pub remove_end-IsList :
    (h : Heap) (list : LinkedList) (c : Cell) (cs : List Cell)
    → IsList h list (c ∷ cs)
    → (list' : LinkedList) × (linked_list_remove_end h list ≡ some (dropped h (last c cs), list'))
      × IsList (dropped h (last c cs)) list' (init c cs)
unfolding linked_list_remove_end
remove_end-IsList h list c [] v =
    let (head, tail, (next, e)) = v.links in
    let found = ap h.nodes head ∙ e in
    let (ne, held, whole) = v.holds.0 in
    (
      record list { size = 0 },
      rw (
        v.size,
        found,
        ◌>>=◌,
        ne→== c.ptr 0 ne,
        held,
        whole-free_payload h c.ptr c.pkt.payload whole,
        head,
        e,
      ),
      record { size = refl; small = omega arith; links = tt; holds = tt; distinct = tt },
    )
remove_end-IsList h list c (d ∷ cs) v =
    let size = v.size in
    let small = v.small in
    let some0 : list.size ≢ 0 = omega arith in
    let some1 : list.size ≢ 1 = omega arith in
    let (p, stop, links) =
      before_tail-finds list.size h list.head list.tail c d cs v.links v.distinct (omega arith) in
    let (tail, (next, e)) = tail-last h.nodes list.head list.tail c (d ∷ cs) v.links in
    let found = ap h.nodes tail ∙ e in
    let (ne, held, whole) = All-last (Holds h.pkts) c (d ∷ cs) v.holds in
    (
      record list { tail = p; size = list.size - 1 },
      rw (
        ne→== list.size 0 some0,
        ne→== list.size 1 some1,
        stop,
        ◌>>=◌,
        found,
        ne→== (last d cs).ptr 0 ne,
        held,
        whole-free_payload h (last d cs).ptr (last d cs).pkt.payload whole,
        tail,
        e,
      ),
      record {
        size = omega (arith, length-init d cs);
        small = omega (arith, length-init d cs);
        links =
            subst (λ (a : ℕ). Links (update h.nodes a none) list.head p (init c (d ∷ cs))) tail
              links;
        holds =
            Holds-update h.pkts (last d cs).ptr none (init c (d ∷ cs))
              (All-map (λ x a same. a.1 (sym same)) (init c (d ∷ cs))
                (last-Apart c (d ∷ cs) v.distinct))
              (All-init (Holds h.pkts) c (d ∷ cs) v.holds);
        distinct = Distinct-init c (d ∷ cs) v.distinct;
      },
    )
