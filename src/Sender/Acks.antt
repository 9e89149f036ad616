-- ===== src/Sender/Acks.antt =====
-- `ack_window` and `update_window` of src/read-write/read_write_sender.c.
use projet_trtp.Base.{
  ℕ, zero, suc, ◌+◌, ◌-◌, ◌%◌, ◌^◌, false, List, [], ◌∷◌, Option, none, some, ltb, ◌==◌,
  if◌then◌else◌, length, map,
}
use projet_trtp.Packet.Struct.{Pkt}
use projet_trtp.Window.{seqnum_in_window, can_ack_window}
use projet_trtp.Receiver.Response.{remove_end, last_seqnum}
use projet_trtp.Sender.{System, Stats, FecSlot, Sender, time_millis}
use projet_trtp.Sender.Resend.{elapsed}

-- `max_rtt` and `min_rtt`.
abbrev pub count_rtt : (rtt : ℕ) → Stats → Stats
count_rtt rtt stats =
    if ltb stats.max_rtt rtt
    then record stats { max_rtt = rtt }
    else if ltb rtt stats.min_rtt
    then record stats { min_rtt = rtt }
    else stats

-- A round of the loop: the packet at the head goes, and `pkts` are behind it.
abbrev pub remove_acked : (time : ℕ) → Pkt → List Pkt → Sender → Sender
remove_acked time pkt pkts s = record s {
  stats = count_rtt (elapsed time pkt.timestamp) s.stats;
  fec = [];
  window = record s.window {
    list = pkts;
    seqnum_head = (elim pkts [ [] ↦ s.window.seqnum_head | next ∷ _ ↦ next.seqnum ]);
  };
}

-- The loop on the window's list, with `no_acked`; it ends when the list has run empty.
unfoldable pub ack_loop : (time ack_seqnum no_acked : ℕ) → List Pkt → Sender → ℕ × Sender
ack_loop time ack_seqnum no_acked [] s = (no_acked, s)
ack_loop time ack_seqnum no_acked (pkt ∷ pkts) s =
    let rest = ack_loop time ack_seqnum (no_acked + 1) pkts (remove_acked time pkt pkts s) in
    if seqnum_in_window s.window ack_seqnum pkt.seqnum then rest else (no_acked, s)

-- `return no_acked`.
abbrev pub acked : ℕ × Sender → Option ℕ × Sender
acked (no_acked, s) = (some no_acked, s)

-- The part of `ack_window` behind its test, on the window's list; the head of an empty list is no node.
unfoldable pub ack_list : System → (ack_seqnum : ℕ) → List Pkt → Sender → Option (Option ℕ × Sender)
unfolding ack_loop
ack_list system ack_seqnum [] s = none
ack_list system ack_seqnum (pkt ∷ pkts) s =
    let (time, s1) = time_millis system s in
    some (acked (ack_loop time ack_seqnum 0 (pkt ∷ pkts) s1))

-- The result `none` inside is -1.
unfoldable pub ack_window : System → (ack_seqnum : ℕ) → Sender → Option (Option ℕ × Sender)
ack_window system ack_seqnum s =
    if can_ack_window s.window ack_seqnum
    then ack_list system ack_seqnum s.window.list s
    else some (none, s)

-- The pointers to the packet that is freed, the one at a place of the list.
abbrev pub drop_slot : (place : ℕ) → FecSlot → FecSlot
drop_slot place slot = if slot.place == place then record slot { pkt = none } else slot

-- A round of the loop of `update_window`.
abbrev pub drop_end : Sender → Sender
drop_end s = elim (last_seqnum s.window.list) [
  | none ↦ s
  | some _ ↦ record s {
    window = record s.window { list = remove_end s.window.list };
    global_pkt = (s.global_pkt + 2 ^ 64 - 1) % 2 ^ 64;
    fec = map (drop_slot (length s.window.list - 1)) s.fec;
  }
]

-- The loop, in at most `fuel` rounds.
unfoldable pub drop_ends : (fuel : ℕ) → Sender → Sender
drop_ends zero s = s
drop_ends (suc fuel) s =
    let rest = drop_ends fuel (drop_end s) in
    if ltb s.window.windowsize (length s.window.list) then rest else s

-- The part behind the loop; the tail of an empty list is no node.
abbrev pub shrink_end : Sender → Option Sender
shrink_end s = elim (last_seqnum s.window.list) [
  | none ↦ none
  | some seqnum ↦ some (record s {
    window = record s.window { seqnum_tail = seqnum };
    eof_reached = false;
    last_pkt = false;
    last_rst = 0;
  })
]

abbrev pub resize : (new_size : ℕ) → Sender → Sender
resize new_size s = record s { window = record s.window { windowsize = new_size } }

unfoldable pub update_window : (new_size : ℕ) → Sender → Option Sender
unfolding drop_ends
update_window new_size s =
    if new_size == 0
    then some (record s { stats = record s.stats { packet_ignored = s.stats.packet_ignored + 1 } })
    else if new_size == s.window.windowsize
    then some s
    else if ltb s.window.windowsize new_size
    then some (resize new_size s)
    else shrink_end (drop_ends (length s.window.list) (resize new_size s))
