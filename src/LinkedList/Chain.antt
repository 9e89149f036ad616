-- ===== src/LinkedList/Chain.antt =====
-- Which lists the nodes of src/linkedList/linkedList.c stand for.
use projet_trtp.Base.{
  ℕ, ◌<◌, ◌≡◌, ◌≢◌, sym, ◌∙◌, List, [], ◌∷◌, Option, some, ne→==, ==_refl, subst, length, All,
}
use projet_trtp.Packet.Struct.{freed, Pkt}
use projet_trtp.LinkedList.{Node, Heap, LinkedList, update}

-- A node's address, its packet's address, and the packet.
pub record Cell : Type 0 where
  pub addr : ℕ
  pub ptr : ℕ
  pub pkt : Pkt

-- From `head` the nodes of the cells lead to `tail`; what the last one's `next` holds is not said.
abbrev pub Links : (ℕ → Option Node) → (head tail : ℕ) → List Cell → Type 0
Links nodes head tail [] = Unit {0}
Links nodes head tail (c ∷ []) =
    (head ≡ c.addr)
    × (tail ≡ c.addr)
    × ((next : ℕ) × (nodes c.addr ≡ some (record { pkt = c.ptr; next = next })))
Links nodes head tail (c ∷ d ∷ cs) =
    (head ≡ c.addr)
    × (nodes c.addr ≡ some (record { pkt = c.ptr; next = d.addr }))
    × Links nodes d.addr tail (d ∷ cs)

-- The packet is there, and can be deleted.
abbrev pub Holds : (ℕ → Option Pkt) → Cell → Type 0
Holds pkts c = (c.ptr ≢ 0) × (pkts c.ptr ≡ some c.pkt) × (c.pkt.payload ≢ freed)

abbrev pub Apart : Cell → Cell → Type 0
Apart c d = (d.addr ≢ c.addr) × (d.ptr ≢ c.ptr)

abbrev pub Distinct : List Cell → Type 0
Distinct [] = Unit {0}
Distinct (c ∷ cs) = All (Apart c) cs × Distinct cs

-- The struct and the heap stand for the cells.
pub record IsList (h : Heap) (list : LinkedList) (cells : List Cell) : Type 0 where
  pub size : list.size ≡ length cells
  pub small : length cells < 256
  pub links : Links h.nodes list.head list.tail cells
  pub holds : All (Holds h.pkts) cells
  pub distinct : Distinct cells

pub update_other {ℓ} :
    {A : Type ℓ} (f : ℕ → Option A) (p q : ℕ) (v : Option A) → q ≢ p → update f p v q ≡ f q
update_other f p q v ne = rw (ne→== p q (λ e. ne (sym e)))

pub update_same {ℓ} : {A : Type ℓ} (f : ℕ → Option A) (p : ℕ) (v : Option A) → update f p v p ≡ v
update_same f p v = rw (==_refl p)

-- A change at another address leaves the nodes as they are.
pub Links-update :
    (nodes : ℕ → Option Node) (a : ℕ) (v : Option Node) (head tail : ℕ) (cells : List Cell)
    → All (λ c. c.addr ≢ a) cells
    → Links nodes head tail cells
    → Links (update nodes a v) head tail cells
Links-update nodes a v head tail [] out h = tt
Links-update nodes a v head tail (c ∷ []) (ne, out) (eh, et, (next, e)) =
    (eh, et, (next, update_other nodes a c.addr v ne ∙ e))
Links-update nodes a v head tail (c ∷ d ∷ cs) (ne, out) (eh, e, h) =
    (eh, update_other nodes a c.addr v ne ∙ e, Links-update nodes a v d.addr tail (d ∷ cs) out h)

pub Holds-update :
    (pkts : ℕ → Option Pkt) (a : ℕ) (v : Option Pkt) (cells : List Cell)
    → All (λ c. c.ptr ≢ a) cells
    → All (Holds pkts) cells
    → All (Holds (update pkts a v)) cells
Holds-update pkts a v [] out h = tt
Holds-update pkts a v (c ∷ cs) (ne, out) ((ne0, e, whole), h) =
    ((ne0, update_other pkts a c.ptr v ne ∙ e, whole), Holds-update pkts a v cs out h)

module _ {P Q : Cell → Type 0} (f : (c : Cell) → P c → Q c) where
  pub All-map : (cells : List Cell) → All P cells → All Q cells
  All-map [] h = tt
  All-map (c ∷ cs) (p, ps) = (f c p, All-map cs ps)

-- What holds of all addresses holds of the tail.
pub tail_of :
    (Q : ℕ → Type 0) (nodes : ℕ → Option Node) (head tail : ℕ) (c : Cell) (cs : List Cell)
    → Links nodes head tail (c ∷ cs)
    → All (λ d. Q d.addr) (c ∷ cs)
    → Q tail
tail_of Q nodes head tail c [] (eh, et, last) (q, qs) = subst Q (sym et) q
tail_of Q nodes head tail c (d ∷ cs) (eh, e, h) (q, qs) = tail_of Q nodes d.addr tail d cs h qs

pub head_of :
    (nodes : ℕ → Option Node) (head tail : ℕ) (c : Cell) (cs : List Cell)
    → Links nodes head tail (c ∷ cs)
    → head ≡ c.addr
head_of nodes head tail c [] h = h.0
head_of nodes head tail c (d ∷ cs) h = h.0

-- The node at the head.
pub first_node :
    (nodes : ℕ → Option Node) (head tail : ℕ) (c : Cell) (cs : List Cell)
    → Links nodes head tail (c ∷ cs)
    → (next : ℕ) × (nodes c.addr ≡ some (record { pkt = c.ptr; next = next }))
first_node nodes head tail c [] (eh, et, last) = last
first_node nodes head tail c (d ∷ cs) (eh, e, h) = (d.addr, e)
