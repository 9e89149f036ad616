-- ===== src/LinkedList.antt =====
-- src/linkedList/linkedList.c on an explicit heap, with `pkt_del` of src/packet_implem.c. A function that
-- writes through its `linkedList_t *` returns the new struct; `none` is undefined behaviour of C: a
-- pointer that is followed or freed and leads to no block.
pub mod Chain
mod Grow
mod Shrink
mod Ends
mod Delete
mod Middle
pub mod Refine
mod Tests
use projet_trtp.Base.{
  ℕ, zero, suc, ◌+◌, ◌-◌, ◌%◌, Bool, true, false, List, [], ◌∷◌, Option, none, some, ◌==◌,
  if◌then◌else◌,
}
use projet_trtp.Packet.Struct.{Payload, null, block, freed, Pkt}

-- `node_t`: the addresses of a packet and of the next node.
pub record Node : Type 0 where
  pub pkt : ℕ
  pub next : ℕ

-- The nodes and packets that are allocated, at their addresses (0 is NULL), whether the payload of the
-- packet at an address is allocated, and whether the `linkedList_t` at an address is.
pub record Heap : Type 0 where
  pub nodes : ℕ → Option Node
  pub pkts : ℕ → Option Pkt
  pub payloads : ℕ → Bool
  pub lists : ℕ → Bool

-- `linkedList_t`; `size` is a `uint8_t`.
pub record LinkedList : Type 0 where
  pub head : ℕ
  pub tail : ℕ
  pub size : ℕ

abbrev pub update {ℓ} : {A : Type ℓ} → (ℕ → Option A) → ℕ → Option A → ℕ → Option A
update f p v q = if p == q then v else f q

abbrev pub mark : (ℕ → Bool) → ℕ → Bool → ℕ → Bool
mark f p v q = if p == q then v else f q

infixl 5 ◌>>=◌
abbrev pub ◌>>=◌ {ℓ κ} : {A : Type ℓ} {B : Type κ} → Option A → (A → Option B) → Option B
none >>= f = none
some a >>= f = f a

-- `free` of a node.
unfoldable pub free_node : Heap → ℕ → Option Heap
free_node h p = h.nodes p >>= λ _. some (record h { nodes = update h.nodes p none })

abbrev pub store_node : Heap → ℕ → Node → Heap
store_node h p node = record h { nodes = update h.nodes p (some node) }

-- `free(pkt->payload)`, under its guard.
abbrev pub free_payload : Heap → ℕ → Payload → Option Heap
free_payload h p null = some h
free_payload h p (block bytes) = some (record h { payloads = mark h.payloads p false })
free_payload h p freed = none

unfoldable pub pkt_del : Heap → ℕ → Option Heap
pkt_del h p = if p == 0 then some h else do
  pkt ← h.pkts p
  h1 ← free_payload h p pkt.payload
  some (record h1 { pkts = update h1.pkts p none })

-- `linkedList_create`; `list` is what `malloc` returns, `head` and `tail` what its block held. The result of
-- `malloc` is written to unchecked.
unfoldable pub linked_list_create : (list head tail : ℕ) → Heap → Option (Heap × LinkedList)
linked_list_create list head tail h =
    if list == 0
    then none
    else some
        (record h { lists = mark h.lists list true }, record { head = head; tail = tail; size = 0 })

-- `free` of a `linkedList_t`.
unfoldable pub free_list : Heap → ℕ → Option Heap
free_list h list =
    if h.lists list then some (record h { lists = mark h.lists list false }) else none

-- `linkedList_add`.
unfoldable pub linked_list_add : Heap → LinkedList → ℕ → Option (Heap × LinkedList)
linked_list_add h list n =
    if list.size == 0 then some (h, record { head = n; tail = n; size = 1 }) else do
      last ← h.nodes list.tail
      some (
        store_node h list.tail (record last { next = n }),
        record list { tail = n; size = (list.size + 1) % 256 },
      )

-- `linkedList_add_pkt`; `node` is what `malloc` returns, and `next` what its block held.
unfoldable pub linked_list_add_pkt :
    (node next : ℕ) → Heap → LinkedList → ℕ → Option (Heap × LinkedList)
unfolding linked_list_add
linked_list_add_pkt node next h list pkt =
    if node == 0
    then none
    else linked_list_add (store_node h node (record { pkt = pkt; next = next })) list node

-- `linkedList_remove`, without its status.
unfoldable pub linked_list_remove : Heap → LinkedList → Option (Heap × LinkedList)
unfolding free_node pkt_del
linked_list_remove h list = if list.size == 0 then some (h, list) else do
  old ← h.nodes list.head
  h1 ← pkt_del h old.pkt
  h2 ← free_node h1 list.head
  some (
    h2,
    if list.size == 1
        then record list { size = 0 }
        else record list { head = old.next; size = list.size - 1 },
  )

-- The loop of `linkedList_remove_end`, in at most `fuel` rounds: the node in front of the tail.
unfoldable pub before_tail : (fuel : ℕ) → Heap → (tail current : ℕ) → Option ℕ
before_tail zero h tail current = none
before_tail (suc fuel) h tail current = do
  node ← h.nodes current
  let rest = before_tail fuel h tail node.next
  if node.next == tail then some current else rest

-- `linkedList_remove_end`, without its status. A list has `size` nodes, so that as many rounds are
-- enough.
unfoldable pub linked_list_remove_end : Heap → LinkedList → Option (Heap × LinkedList)
unfolding free_node pkt_del before_tail
linked_list_remove_end h list =
    if list.size == 0
    then some (h, list)
    else if list.size == 1
    then (do
      old ← h.nodes list.head
      h1 ← pkt_del h old.pkt
      h2 ← free_node h1 list.head
      some (h2, record list { size = 0 }))
    else do
      current ← before_tail list.size h list.tail list.head
      last ← h.nodes list.tail
      h1 ← pkt_del h last.pkt
      h2 ← free_node h1 list.tail
      some (h2, record list { tail = current; size = list.size - 1 })

-- `linkedList_remove_middle`.
unfoldable pub linked_list_remove_middle :
    Heap → LinkedList → (previous current : ℕ) → Option (Heap × LinkedList)
unfolding free_node pkt_del
linked_list_remove_middle h list previous current = do
  node ← h.nodes current
  before ← h.nodes previous
  h1 ← pkt_del (store_node h previous (record before { next = node.next })) node.pkt
  h2 ← free_node h1 current
  some (h2, record list { size = list.size - 1 })

-- The loop of `linkedList_del`, with `size` rounds to go.
unfoldable pub del_loop : (size : ℕ) → Heap → (current : ℕ) → Option Heap
unfolding free_node pkt_del
del_loop zero h current = some h
del_loop (suc size) h current = do
  node ← h.nodes current
  h1 ← pkt_del h node.pkt
  h2 ← free_node h1 current
  del_loop size h2 node.next

-- `linkedList_del` of the struct at the address `at`. Its cases for no node and for one do what the loop
-- does, and all of them end with the struct's `free`.
unfoldable pub linked_list_del : Heap → (at : ℕ) → LinkedList → Option Heap
unfolding del_loop free_list
linked_list_del h at list = do h1 ← del_loop list.size h list.head; free_list h1 at
