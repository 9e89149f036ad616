-- ===== src/Window.antt =====
-- `window_pkt_t` of src/read-write/read_write_sender.h, which the sender and the receiver each keep
-- one of, and the tests of sequence numbers against it, of src/read-write/read_write_sender.c and
-- src/read-write/read_write_receiver.c. The linked list of a window is the list of its packets,
-- head first: its `size` is the length (a `uint8_t`: below 256), and its `tail` is the last one.
pub mod SenderTests
pub mod ReceiverTests
mod Tests
use projet_trtp.Base.{
  ℕ, ◌+◌, ◌-◌, ◌%◌, ◌<◌, Bool, true, false, ◌&&◌, ◌||◌, not, List, [], ◌∷◌, ltb, ◌==◌,
  if◌then◌else◌,
}
use projet_trtp.Packet.Struct.{Pkt, Libs}

pub record WindowPkt : Type 0 where
  pub seqnum_head : ℕ
  pub seqnum_tail : ℕ
  pub windowsize : ℕ
  pub list : List Pkt

-- `sizeof(window_pkt_t)`, `sizeof(linkedList_t)` and `sizeof(struct pollfd)`.
abbrev pub sizeof_window_pkt : ℕ
sizeof_window_pkt = 16

abbrev pub sizeof_linked_list : ℕ
sizeof_linked_list = 24

abbrev pub sizeof_pollfd : ℕ
sizeof_pollfd = 8

-- Whether the blocks are there to which the sender and the receiver write unchecked before their loops: the
-- window, its list (`linkedList_create`) and the `struct pollfd`.
abbrev pub has_blocks : Libs → Bool
has_blocks libs =
    libs.malloc sizeof_window_pkt && (libs.malloc sizeof_linked_list && libs.malloc sizeof_pollfd)

-- `uint16_t x = (seqnum < head) ? seqnum + 256 : seqnum`.
abbrev pub unwrap : (head seqnum : ℕ) → ℕ
unwrap head seqnum = if ltb seqnum head then seqnum + 256 else seqnum

-- The sequence number from which `seqnum_in_window` counts.
unfoldable pub first_seqnum : WindowPkt → ℕ
first_seqnum window = elim window.list [ [] ↦ window.seqnum_head | pkt ∷ _ ↦ pkt.seqnum ]

-- The packet can be removed: it comes before the acknowledged number.
unfoldable pub seqnum_in_window : WindowPkt → (ack_seqnum pkt_seqnum : ℕ) → Bool
unfolding first_seqnum
seqnum_in_window window ack_seqnum pkt_seqnum =
    let head = first_seqnum window in ltb (unwrap head pkt_seqnum) (unwrap head ack_seqnum)

unfoldable pub is_in_sender_window : WindowPkt → ℕ → Bool
is_in_sender_window window seqnum =
    let head = window.seqnum_head in
    let tail = window.seqnum_tail in
    if (if ltb head tail
      then ltb tail seqnum || ltb seqnum head
      else ltb seqnum head && ltb tail seqnum)
    then false
    else if (head == tail) && not (seqnum == head)
    then false
    else true

unfoldable pub can_ack_window : WindowPkt → ℕ → Bool
can_ack_window window seqnum =
    let head = window.seqnum_head in
    if ltb (unwrap head seqnum) (unwrap head window.seqnum_tail + 31) then true else false

-- The receiver's test, without its count of ignored packets: `false` is 0.
unfoldable pub is_in_window : WindowPkt → ℕ → Bool
is_in_window window seqnum =
    let head = window.seqnum_head in
    let tail = (window.seqnum_head + window.windowsize) % 256 in
    if (if ltb head tail
      then (ltb (tail + 1) seqnum || ltb seqnum head) && not ((seqnum == 0) && (tail == 255))
      else ltb seqnum head && ltb (tail + 1) seqnum)
    then false
    else if (head == tail) && not (seqnum == head)
    then false
    else true

-- `seqnum_a` comes behind `seqnum_b` in the receiver's order.
unfoldable pub is_seqnum_greater : (seqnum_a seqnum_b : ℕ) → WindowPkt → Bool
is_seqnum_greater seqnum_a seqnum_b window =
    let head = window.seqnum_head in
    let tail = (window.seqnum_head + window.windowsize) % 256 in
    if ltb head tail
    then ltb seqnum_b seqnum_a
    else ltb (unwrap head seqnum_b) (unwrap head seqnum_a)

-- How far a sequence number lies behind another one, on the circle of 256.
abbrev pub distance : (head seqnum : ℕ) → ℕ
distance head seqnum = (seqnum + 256 - head) % 256
