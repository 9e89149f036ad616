-- ===== src/LinkedList/Delete.antt =====
-- `linkedList_del` of src/linkedList/linkedList.c: every block of the list is freed.
use projet_trtp.Base.{
  Bool, true, false, ap, ==_refl, ℕ, suc, ◌≡◌, ◌≢◌, refl, sym, ◌∙◌, List, [], ◌∷◌, none, some,
  ne→==, length, All,
}
use projet_trtp.Packet.Struct.{Payload, null, block, freed}
use projet_trtp.LinkedList.{mark, free_list, Heap, LinkedList, del_loop, linked_list_del, ◌>>=◌}
use projet_trtp.LinkedList.Chain.{
  Cell, Links, Holds, Apart, Distinct, IsList, update_other, update_same, All-map,
}
use projet_trtp.LinkedList.Shrink.{
  dropped, payload_gone, whole-free_payload, Links-dropped, Holds-dropped,
}

abbrev pub all_dropped : Heap → List Cell → Heap
all_dropped h [] = h
all_dropped h (c ∷ cs) = all_dropped (dropped h c) cs

-- One round.
round :
    (n : ℕ) (h : Heap) (head next : ℕ) (c : Cell)
    → head ≡ c.addr
    → h.nodes c.addr ≡ some (record { pkt = c.ptr; next = next })
    → Holds h.pkts c
    → del_loop (suc n) h head ≡ del_loop n (dropped h c) next
unfolding del_loop
round n h head next c head_at e (ne, held, whole) = rw (
  head_at,
  e,
  ◌>>=◌,
  ne→== c.ptr 0 ne,
  held,
  whole-free_payload h c.ptr c.pkt.payload whole,
  e,
  ◌>>=◌,
)

pub del_loop_lem :
    (h : Heap) (head tail : ℕ) (cs : List Cell)
    → Links h.nodes head tail cs
    → All (Holds h.pkts) cs
    → Distinct cs
    → del_loop (length cs) h head ≡ some (all_dropped h cs)
unfolding del_loop
del_loop_lem h head tail [] links holds distinct = refl
del_loop_lem h head tail (c ∷ []) (head_at, tail_at, (next, e)) (held, holds) distinct =
    unfold del_loop in round 0 h head next c head_at e held
del_loop_lem h head tail (c ∷ d ∷ cs) (head_at, e, links) (held, holds) (apart, distinct) =
    round (suc (length cs)) h head d.addr c head_at e held
    ∙ del_loop_lem (dropped h c) d.addr tail (d ∷ cs)
        (Links-dropped h c d.addr tail (d ∷ cs) apart links)
        (Holds-dropped h c (d ∷ cs) apart holds) distinct

-- Elsewhere the heap is as before.
pub nodes_kept :
    (h : Heap) (a : ℕ) (cs : List Cell)
    → All (λ c. a ≢ c.addr) cs
    → (all_dropped h cs).nodes a ≡ h.nodes a
nodes_kept h a [] out = refl
nodes_kept h a (c ∷ cs) (ne, out) =
    nodes_kept (dropped h c) a cs out ∙ update_other h.nodes c.addr a none ne

pub pkts_kept :
    (h : Heap) (a : ℕ) (cs : List Cell)
    → All (λ c. a ≢ c.ptr) cs
    → (all_dropped h cs).pkts a ≡ h.pkts a
pkts_kept h a [] out = refl
pkts_kept h a (c ∷ cs) (ne, out) =
    pkts_kept (dropped h c) a cs out ∙ update_other h.pkts c.ptr a none ne

-- What is freed stays freed.
stays-freed :
    (h : Heap) (c : Cell) (cs : List Cell)
    → (h.nodes c.addr ≡ none) × (h.pkts c.ptr ≡ none)
    → All (Apart c) cs
    → ((all_dropped h cs).nodes c.addr ≡ none) × ((all_dropped h cs).pkts c.ptr ≡ none)
stays-freed h c [] gone apart = gone
stays-freed h c (d ∷ cs) (n, p) ((an, apt), apart) =
    stays-freed (dropped h d) c cs
      (
        update_other h.nodes d.addr c.addr none (λ e. an (sym e)) ∙ n,
        update_other h.pkts d.ptr c.ptr none (λ e. apt (sym e)) ∙ p,
      )
      apart

each_freed :
    (h : Heap) (cs : List Cell)
    → Distinct cs
    → All
        (λ c. ((all_dropped h cs).nodes c.addr ≡ none) × ((all_dropped h cs).pkts c.ptr ≡ none))
        cs
each_freed h [] distinct = tt
each_freed h (c ∷ cs) (apart, distinct) = (
  stays-freed (dropped h c) c cs (update_same h.nodes c.addr none, update_same h.pkts c.ptr none)
      apart,
  each_freed (dropped h c) cs distinct,
)

mark_other : (f : ℕ → Bool) (p q : ℕ) (v : Bool) → q ≢ p → mark f p v q ≡ f q
mark_other f p q v ne = rw (ne→== p q (λ e. ne (sym e)))

mark_same : (f : ℕ → Bool) (p : ℕ) (v : Bool) → mark f p v p ≡ v
mark_same f p v = rw (==_refl p)

gone_other : (f : ℕ → Bool) (p q : ℕ) (payload : Payload) → q ≢ p → payload_gone f p payload q ≡ f q
gone_other f p q null ne = refl
gone_other f p q (block bytes) ne = mark_other f p q false ne
gone_other f p q freed ne = refl

gone_same :
    (f : ℕ → Bool) (p : ℕ) (payload : Payload)
    → payload ≢ freed
    → payload ≢ null
    → payload_gone f p payload p ≡ false
gone_same f p null whole held = absurd (held refl)
gone_same f p (block bytes) whole held = mark_same f p false
gone_same f p freed whole held = absurd (whole refl)

pub payloads_kept :
    (h : Heap) (a : ℕ) (cs : List Cell)
    → All (λ c. a ≢ c.ptr) cs
    → (all_dropped h cs).payloads a ≡ h.payloads a
payloads_kept h a [] out = refl
payloads_kept h a (c ∷ cs) (ne, out) =
    payloads_kept (dropped h c) a cs out ∙ gone_other h.payloads c.ptr a c.pkt.payload ne

lists_kept : (h : Heap) (cs : List Cell) → (all_dropped h cs).lists ≡ h.lists
lists_kept h [] = refl
lists_kept h (c ∷ cs) = lists_kept (dropped h c) cs

each_payload :
    (h : Heap) (cs : List Cell)
    → Distinct cs
    → All (Holds h.pkts) cs
    → All (λ c. c.pkt.payload ≢ null → (all_dropped h cs).payloads c.ptr ≡ false) cs
each_payload h [] distinct holds = tt
each_payload h (c ∷ cs) (apart, distinct) ((ne, held, whole), holds) = (
  λ full.
      payloads_kept (dropped h c) c.ptr cs (All-map (λ d a e. a.1 (sym e)) cs apart)
      ∙ gone_same h.payloads c.ptr c.pkt.payload whole full,
  each_payload (dropped h c) cs distinct (Holds-dropped h c cs apart holds),
)

-- A list whose struct is allocated is deleted whole: the code returns, the struct, the nodes, the packets
-- and those of their payloads that are not NULL are freed, and all other blocks are as before.
pub linked_list_del-frees :
    (h : Heap) (at : ℕ) (list : LinkedList) (cells : List Cell)
    → h.lists at ≡ true
    → IsList h list cells
    → (h' : Heap) × (linked_list_del h at list ≡ some h')
      × All (λ c. (h'.nodes c.addr ≡ none) × (h'.pkts c.ptr ≡ none)) cells
      × All (λ c. c.pkt.payload ≢ null → h'.payloads c.ptr ≡ false) cells
      × (h'.lists at ≡ false)
      × ((a : ℕ) → All (λ c. a ≢ c.addr) cells → h'.nodes a ≡ h.nodes a)
      × ((a : ℕ) → All (λ c. a ≢ c.ptr) cells → h'.pkts a ≡ h.pkts a)
      × ((a : ℕ) → All (λ c. a ≢ c.ptr) cells → h'.payloads a ≡ h.payloads a)
      × ((a : ℕ) → a ≢ at → h'.lists a ≡ h.lists a)
unfolding linked_list_del free_list
linked_list_del-frees h at list cells held v =
    let same = lists_kept h cells in
    let there = ap (λ (f : ℕ → Bool). f at) same ∙ held in
    (
      record (all_dropped h cells) { lists = mark (all_dropped h cells).lists at false },
      rw (
        v.size,
        del_loop_lem h list.head list.tail cells v.links v.holds v.distinct,
        ◌>>=◌,
        there,
      ),
      each_freed h cells v.distinct,
      each_payload h cells v.distinct v.holds,
      mark_same (all_dropped h cells).lists at false,
      (λ a out. nodes_kept h a cells out),
      (λ a out. pkts_kept h a cells out),
      (λ a out. payloads_kept h a cells out),
      λ a other.
          mark_other (all_dropped h cells).lists at a false other ∙ ap (λ (f : ℕ → Bool). f a) same,
    )
