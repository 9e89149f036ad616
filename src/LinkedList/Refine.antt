-- ===== src/LinkedList/Refine.antt =====
-- What src/linkedList/linkedList.c promises: a sequence of packets.
use projet_trtp.Base.{
  ℕ, ◌<◌, ◌≡◌, ◌≢◌, refl, ap, List, [], ◌∷◌, ◌++◌, Option, none, some, length, All,
}
use projet_trtp.Packet.Struct.{Pkt}
use projet_trtp.LinkedList.{
  Heap, LinkedList, linked_list_add_pkt, linked_list_remove, linked_list_remove_end,
}
use projet_trtp.LinkedList.Chain.{Cell, Holds, IsList}
use projet_trtp.LinkedList.Grow.{new_cell, add_pkt-IsList}
use projet_trtp.LinkedList.Shrink.{dropped, behind, remove-runs, remove-IsList}
use projet_trtp.LinkedList.Ends.{init, remove_end-IsList}

-- `node` and `next` are the block that `malloc` gives, `ptr` is the packet's address.
pub data Op : Type 0 where
  put : (node next ptr : ℕ) (pkt : Pkt) → Op
  remove_first : Op
  remove_last : Op

pub run : Op → Heap → LinkedList → Option (Heap × LinkedList)
run (put node next ptr pkt) h list = linked_list_add_pkt node next h list ptr
run remove_first h list = linked_list_remove h list
run remove_last h list = linked_list_remove_end h list

abbrev pub without_last : List Pkt → List Pkt
without_last [] = []
without_last (p ∷ []) = []
without_last (p ∷ q ∷ ps) = p ∷ without_last (q ∷ ps)

abbrev pub without_first : List Pkt → List Pkt
without_first [] = []
without_first (p ∷ ps) = ps

-- What an operation does to the sequence.
abbrev pub abstract_run : Op → List Pkt → List Pkt
abstract_run (put node next ptr pkt) ps = ps ++ (pkt ∷ [])
abstract_run remove_first ps = without_first ps
abstract_run remove_last ps = without_last ps

abbrev pub packets : List Cell → List Pkt
packets [] = []
packets (c ∷ cs) = c.pkt ∷ packets cs

-- A node is new_cell where `malloc` gave a block, for a packet of its own, to fewer than 255 nodes.
abbrev pub Allowed : Op → Heap → List Cell → Type 0
Allowed (put node next ptr pkt) h cells =
    (length cells < 255)
    × (node ≢ 0)
    × (h.nodes node ≡ none)
    × Holds h.pkts (record { addr = node; ptr = ptr; pkt = pkt })
    × All (λ c. c.ptr ≢ ptr) cells
Allowed remove_first h cells = Unit {0}
Allowed remove_last h cells = Unit {0}

packets-snoc :
    (cells : List Cell) (c : Cell) → packets (cells ++ (c ∷ [])) ≡ packets cells ++ (c.pkt ∷ [])
packets-snoc [] c = refl
packets-snoc (d ∷ cells) c = ap (λ (ps : List Pkt). d.pkt ∷ ps) (packets-snoc cells c)

packets-init : (c : Cell) (cs : List Cell) → packets (init c cs) ≡ without_last (packets (c ∷ cs))
packets-init c [] = refl
packets-init c (d ∷ cs) = ap (λ (ps : List Pkt). c.pkt ∷ ps) (packets-init d cs)

-- Each operation returns, and does to the packets of a list what `abstract_run` does to the sequence: a
-- packet is put behind the others, the first one goes, the last one goes, and nothing where there is
-- none. What results is a list again.
pub run-refines :
    (op : Op) (h : Heap) (list : LinkedList) (cells : List Cell)
    → IsList h list cells
    → Allowed op h cells
    → (h' : Heap) × (list' : LinkedList) × (cells' : List Cell) × (run op h list ≡ some (h', list'))
      × IsList h' list' cells'
      × (packets cells' ≡ abstract_run op (packets cells))
unfolding run
run-refines (put node next ptr pkt) h list cells v (room, ne, fresh, held, apart) =
    let (h', list', e, v', kept) =
      add_pkt-IsList node ptr next pkt h list cells v room ne fresh held apart in
    (
      h',
      list',
      cells ++ (new_cell node ptr next pkt ∷ []),
      e,
      v',
      packets-snoc cells (new_cell node ptr next pkt),
    )
run-refines remove_first h list [] v ready =
    (h, list, [], unfold linked_list_remove in (rw v.size refl), v, refl)
run-refines remove_first h list (c ∷ cs) v ready =
    (dropped h c, behind list cs, cs, remove-runs h list c cs v, remove-IsList h list c cs v, refl)
run-refines remove_last h list [] v ready =
    (h, list, [], unfold linked_list_remove_end in (rw v.size refl), v, refl)
run-refines remove_last h list (c ∷ cs) v ready =
    let (list', e, v') = remove_end-IsList h list c cs v in
    (_, list', init c cs, e, v', packets-init c cs)
