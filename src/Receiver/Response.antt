-- ===== src/Receiver/Response.antt =====
-- The answers of the receiver, of src/read-write/read_write_receiver.c: `increase_window`,
-- `decrease_window`, `send_response`, `send_troncated_nack` and `send_ack`. `none` is undefined
-- behaviour.
use projet_trtp.Base.{
  ℕ, zero, suc, ◌+◌, ◌/◌, ◌%◌, false, List, [], ◌∷◌, ◌++◌, Option, none, some, ltb, ◌==◌,
  if◌then◌else◌, length,
}
use projet_trtp.Packet.Struct.{pkt_max_len, pkt_ok, Pkt}
use projet_trtp.Packet.Access.{
  pkt_new, pkt_set_type, pkt_set_window, pkt_set_seqnum, pkt_set_timestamp,
}
use projet_trtp.Packet.Decode.{Step, next, exit, fault, ◌>>◌, attempt}
use projet_trtp.Packet.Encode.{pkt_encode}
use projet_trtp.Window.{WindowPkt}
use projet_trtp.Receiver.{World, Receiver, overwrite}

abbrev pub exit_success : ℕ
exit_success = 0

abbrev pub exit_failure : ℕ
exit_failure = 1

unfoldable pub increase_window : WindowPkt → WindowPkt
increase_window window =
    if ltb window.windowsize 31
    then record window { windowsize = window.windowsize + 1 }
    else window

-- `linkedList_remove_end`, without its status.
abbrev pub remove_end : List Pkt → List Pkt
remove_end [] = []
remove_end (pkt ∷ []) = []
remove_end (pkt ∷ pkt' ∷ pkts) = pkt ∷ remove_end (pkt' ∷ pkts)

-- The loop of `decrease_window`, in at most `fuel` rounds: the list, and the number `i` of rounds.
unfoldable pub remove_ends : (fuel windowsize : ℕ) → List Pkt → List Pkt × ℕ
remove_ends zero windowsize list = (list, 0)
remove_ends (suc fuel) windowsize list =
    let (list', i) = remove_ends fuel windowsize (remove_end list) in
    if ltb windowsize (length list) then (list', i + 1) else (list, 0)

-- `pkt_get_seqnum(list->tail->pkt)`; an empty list has no tail.
abbrev pub last_seqnum : List Pkt → Option ℕ
last_seqnum [] = none
last_seqnum (pkt ∷ []) = some pkt.seqnum
last_seqnum (pkt ∷ pkt' ∷ pkts) = last_seqnum (pkt' ∷ pkts)

-- `seqnumTail`, where packets have been dropped.
abbrev pub set_tail : WindowPkt → List Pkt × ℕ → Option WindowPkt
set_tail window (list, i) =
    if i == 0 then some (record window { list = list }) else elim (last_seqnum list) [
      | none ↦ none
      | some seqnum ↦ some (record window { list = list; seqnum_tail = seqnum })
    ]

-- The part of `decrease_window` behind the halving. Every round takes a packet, so that as many
-- rounds as there are packets are enough.
unfoldable pub drop_packets : WindowPkt → Option WindowPkt
unfolding remove_ends
drop_packets window =
    set_tail window (remove_ends (length window.list) window.windowsize window.list)

unfoldable pub decrease_window : Receiver → Option Receiver
decrease_window s =
    if ltb 4 s.window.windowsize
    then elim (drop_packets (record s.window { windowsize = s.window.windowsize / 2 })) [
      | none ↦ none
      | some window ↦ some (record s { window = window; eof_reached = false })
    ]
    else some s

-- The setters of `send_response`.
unfoldable pub fill_response : (type window seqnum timestamp : ℕ) → Step (Unit {0})
unfolding pkt_set_type pkt_set_window pkt_set_seqnum pkt_set_timestamp
fill_response type window seqnum timestamp = do
  attempt (λ pkt. pkt_set_type pkt type)
  attempt (λ pkt. pkt_set_window pkt window)
  attempt (λ pkt. pkt_set_seqnum pkt seqnum)
  attempt (λ pkt. pkt_set_timestamp pkt timestamp)

-- `pkt_encode` and `write` of `send_response`.
unfoldable pub transmit : World → Pkt → Receiver → Option (ℕ × Receiver)
transmit world pkt s = elim (pkt_encode world.libs pkt pkt_max_len) [
  | none ↦ none
  | some (status, out) ↦ elim status [
    | pkt_ok ↦
        (let s' = record s { buffer = overwrite out s.buffer } in
          if world.send s.sent out
          then some (exit_success, record s' { sent = s.sent ++ (out ∷ []) })
          else some (exit_failure, s'))
    | _ ↦ some (exit_failure, s)
  ]
]

unfoldable pub send_response :
    World → (type seqnum timestamp : ℕ) → Receiver → Option (ℕ × Receiver)
send_response world type seqnum timestamp s = elim (pkt_new world.libs) [
  | none ↦ none
  | some pkt ↦ elim (fill_response type s.window.windowsize seqnum timestamp pkt) [
    | next _ pkt' ↦ transmit world pkt' s
    | exit _ _ ↦ some (exit_failure, s)
    | fault ↦ none
  ]
]

unfoldable pub send_troncated_nack : World → Pkt → Receiver → Option (ℕ × Receiver)
send_troncated_nack world pkt s =
    let counted = record s.stats {
      data_truncated_received = s.stats.data_truncated_received + 1;
      packet_ignored = s.stats.packet_ignored + 1;
    } in
    elim (decrease_window (record s { stats = counted })) [
      | none ↦ none
      | some s1 ↦ elim (send_response world 3 (pkt.seqnum % 256) pkt.timestamp s1) [
        | none ↦ none
        | some (ack_status, s2) ↦
            if ack_status == exit_success
            then some (
              exit_success,
              record s2 { stats = record s2.stats { nack_sent = s2.stats.nack_sent + 1 } },
            )
            else some (exit_failure, s2)
      ]
    ]

unfoldable pub send_ack : World → (timestamp : ℕ) → Receiver → Option (ℕ × Receiver)
send_ack world timestamp s = elim (send_response world 2 s.window.seqnum_head timestamp s) [
  | none ↦ none
  | some (ack_status, s1) ↦
      if ack_status == exit_success
      then some (
        exit_success,
        record s1 { stats = record s1.stats { ack_sent = s1.stats.ack_sent + 1 }; num_ack = 0 },
      )
      else some (exit_failure, s1)
]
