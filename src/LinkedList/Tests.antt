-- ===== src/LinkedList/Tests.antt =====
-- src/linkedList/linkedList.c on three packets.
use projet_trtp.Base.{
  ◌&&◌, ltb, true, false, ne→==, ==_refl, ℕ, ◌+◌, ◌≡◌, ◌≢◌, refl, List, [], ◌∷◌, ◌++◌, none, some,
  arith, ◌==◌, if◌then◌else◌, All,
}
use projet_trtp.Packet.Struct.{block, null, freed, ptype_data, Pkt}
use projet_trtp.LinkedList.{
  Heap, LinkedList, mark, pkt_del, linked_list_create, linked_list_remove_middle, linked_list_del,
}
use projet_trtp.LinkedList.Chain.{Cell, IsList}
use projet_trtp.LinkedList.Delete.{linked_list_del-frees}
use projet_trtp.LinkedList.Middle.{remove_middle-IsList}
use projet_trtp.LinkedList.Refine.{put, run, packets, run-refines}

abbrev numbered : ℕ → Pkt
numbered seqnum = record {
  type = ptype_data;
  tr = 0;
  window = 0;
  length = 1;
  seqnum = seqnum;
  timestamp = 0;
  crc1 = 0;
  payload = block (seqnum ∷ []);
  crc2 = 0;
}

abbrev cell : ℕ → Cell
cell n = record { addr = n; ptr = n + 10; pkt = numbered n }

abbrev three : List Cell
three = cell 1 ∷ cell 2 ∷ cell 3 ∷ []

-- The nodes at 1, 2, 3 and the packets at 11, 12, 13.
abbrev heap : Heap
heap = record {
  nodes = λ p.
      if p == 1
      then some (record { pkt = 11; next = 2 })
      else if p == 2
      then some (record { pkt = 12; next = 3 })
      else if p == 3
      then some (record { pkt = 13; next = 99 })
      else none;
  pkts = λ p.
      if p == 11
      then some (numbered 1)
      else if p == 12
      then some (numbered 2)
      else if p == 13
      then some (numbered 3)
      else if p == 14
      then some (numbered 4)
      else none;
  payloads = λ p. ltb 10 p && ltb p 15;
  lists = λ p. p == 5;
}

abbrev list : LinkedList
list = record { head = 1; tail = 3; size = 3 }

not_freed : (n : ℕ) → block (n ∷ []) ≢ freed
not_freed n = λ e. cc e

three-IsList : IsList heap list three
three-IsList = record {
  size = refl;
  small = omega arith;
  links = (refl, refl, (refl, refl, (refl, refl, (99, refl))));
  holds = (
    (omega arith, refl, not_freed 1),
    ((omega arith, refl, not_freed 2), ((omega arith, refl, not_freed 3), tt)),
  );
  distinct = omega arith;
}

put_example :
    (h' : Heap) × (list' : LinkedList) × (cells' : List Cell) × (run
        (put 4 77 14 (numbered 4))
        heap
        list
      ≡ some (h', list'))
    × IsList h' list' cells'
    × (packets cells' ≡ packets three ++ (numbered 4 ∷ []))
put_example =
    run-refines (put 4 77 14 (numbered 4)) heap list three three-IsList
      (omega arith, omega arith, refl, (omega arith, refl, not_freed 4), omega arith)

remove_middle_example :
    (h' : Heap) × (list' : LinkedList) × (linked_list_remove_middle heap list 1 2
      ≡ some (h', list'))
    × IsList h' list' (cell 1 ∷ cell 3 ∷ [])
    × (h'.nodes 2 ≡ none)
    × (h'.pkts 12 ≡ none)
remove_middle_example = remove_middle-IsList (cell 1) (cell 2) (cell 3) [] heap list [] three-IsList

linked_list_del_example :
    (h' : Heap) × (linked_list_del heap 5 list ≡ some h')
    × All (λ c. (h'.nodes c.addr ≡ none) × (h'.pkts c.ptr ≡ none)) three
    × All (λ c. c.pkt.payload ≢ null → h'.payloads c.ptr ≡ false) three
    × (h'.lists 5 ≡ false)
    × ((a : ℕ) → All (λ c. a ≢ c.addr) three → h'.nodes a ≡ heap.nodes a)
    × ((a : ℕ) → All (λ c. a ≢ c.ptr) three → h'.pkts a ≡ heap.pkts a)
    × ((a : ℕ) → All (λ c. a ≢ c.ptr) three → h'.payloads a ≡ heap.payloads a)
    × ((a : ℕ) → a ≢ 5 → h'.lists a ≡ heap.lists a)
linked_list_del_example = linked_list_del-frees heap 5 list three refl three-IsList

-- A fresh list is empty, and can be deleted.
created-IsList :
    (h : Heap) (at head tail : ℕ)
    → at ≢ 0
    → (h' : Heap) × (list' : LinkedList) × (linked_list_create at head tail h ≡ some (h', list'))
      × IsList h' list' []
      × (h'.lists at ≡ true)
unfolding linked_list_create
created-IsList h at head tail ne = (
  record h { lists = mark h.lists at true },
  record { head = head; tail = tail; size = 0 },
  rw (ne→== at 0 ne),
  record { size = refl; small = omega arith; links = tt; holds = tt; distinct = tt },
  rw (==_refl at),
)

-- A payload that has been freed is not freed again.
pkt_del_freed :
    (h : Heap) (p : ℕ) (pkt : Pkt)
    → p ≢ 0
    → h.pkts p ≡ some pkt
    → pkt.payload ≡ freed
    → pkt_del h p ≡ none
unfolding pkt_del
pkt_del_freed h p pkt ne e gone = rw (ne→== p 0 ne, e, gone)
