-- ===== src/Receiver/Insert.antt =====
-- `is_in_window` with its counter, and `linkedList_add_increasing`, of
-- src/read-write/read_write_receiver.c.
use projet_trtp.Base.{
  ℕ, ◌+◌, Bool, true, false, List, [], ◌∷◌, Option, none, some, ◌==◌, if◌then◌else◌,
}
use projet_trtp.Packet.Struct.{Pkt, Libs}
use projet_trtp.Window.{WindowPkt, is_in_window, is_seqnum_greater}
use projet_trtp.Receiver.{Receiver}

abbrev pub ignore_packet : Receiver → Receiver
ignore_packet s = record s {
  stats = record s.stats { packet_ignored = s.stats.packet_ignored + 1 };
}

-- `is_in_window`, with the count of ignored packets.
unfoldable pub check_in_window : Receiver → (seqnum : ℕ) → Bool × Receiver
check_in_window s seqnum =
    if is_in_window s.window seqnum then (true, s) else (false, ignore_packet s)

-- The walk along the list: `none` where it meets the packet's number, and otherwise the new list,
-- and whether the packet has become its tail. An empty list is the end of the walk too.
unfoldable pub insert : WindowPkt → Pkt → List Pkt → Option (Bool × List Pkt)
insert window pkt [] = some (true, pkt ∷ [])
insert window pkt (current ∷ pkts) =
    let rest = insert window pkt pkts in
    if pkt.seqnum == current.seqnum
    then none
    else if is_seqnum_greater current.seqnum pkt.seqnum window
    then some (false, pkt ∷ current ∷ pkts)
    else elim rest [ none ↦ none | some (at_end, list) ↦ some (at_end, current ∷ list) ]

-- `sizeof(node_t)`.
abbrev pub sizeof_node : ℕ
sizeof_node = 16

-- What becomes of the result of the walk.
abbrev pub store : Libs → Pkt → Receiver → Option (Bool × List Pkt) → Option (Bool × Receiver)
store libs pkt s none = some (
  false,
  record s { stats = record s.stats { packet_duplicated = s.stats.packet_duplicated + 1 } },
)
store libs pkt s (some (at_end, list)) =
    if libs.malloc sizeof_node
    then some (
      true,
      record s {
        window = record s.window {
          list = list;
          seqnum_tail = (if at_end then pkt.seqnum else s.window.seqnum_tail);
        };
      },
    )
    else none

-- Whether the packet was added (the result 0, and not -1), and the state.
unfoldable pub linked_list_add_increasing : Libs → Pkt → Receiver → Option (Bool × Receiver)
linked_list_add_increasing libs pkt s = store libs pkt s (insert s.window pkt s.window.list)
