-- ===== src/Sender/Buffer.antt =====
-- `pkt_encode` into `copybuf` and the `write` behind it, as src/read-write/read_write_sender.c has them
-- together, and `send_final_pkt`. `none` is undefined behaviour.
use projet_trtp.Base.{
  ℕ, ◌+◌, ◌%◌, Bool, true, false, List, [], ◌∷◌, ◌++◌, Option, none, some, if◌then◌else◌, take,
  drop, length,
}
use projet_trtp.Packet.Struct.{pkt_max_len, StatusCode, pkt_ok, Pkt}
use projet_trtp.Packet.Access.{
  pkt_new, pkt_set_type, pkt_set_tr, pkt_set_length, pkt_set_window, pkt_set_seqnum,
  pkt_set_timestamp,
}
use projet_trtp.Packet.Encode.{pkt_encode}
use projet_trtp.Sender.{System, Sender, time_millis}

-- `sizeof(node_t)`.
abbrev pub sizeof_node : ℕ
sizeof_node = 16

-- `linkedList_add_pkt` on the window's list.
abbrev pub add_pkt : System → Pkt → Sender → Option Sender
add_pkt system pkt s =
    if system.libs.malloc sizeof_node
    then some (record s { window = record s.window { list = s.window.list ++ (pkt ∷ []) } })
    else none

-- `write(sfd, copybuf, len)`; the Boolean tells whether it has sent the datagram.
abbrev pub write_datagram : System → List ℕ → Sender → Bool × Sender
write_datagram system bytes s =
    if system.send s.sent bytes
    then (true, record s { sent = s.sent ++ (bytes ∷ []) })
    else (false, s)

-- The status of `pkt_encode` is not looked at; where it fails `len` is still PKT_MAX_LEN.
abbrev pub written_bytes : StatusCode → (out copybuf : List ℕ) → List ℕ
written_bytes pkt_ok out copybuf = out
written_bytes _ out copybuf = take pkt_max_len copybuf

unfoldable pub encode_write : System → Pkt → Sender → Option (Bool × Sender)
encode_write system pkt s = elim (pkt_encode system.libs pkt pkt_max_len) [
  | none ↦ none
  | some (status, out) ↦
      (let copybuf = out ++ drop (length out) s.copybuf in
        some (
          write_datagram system (written_bytes status out copybuf)
            (record s { copybuf = copybuf })))
]

-- The setters of `send_final_pkt`, whose statuses are not looked at.
unfoldable pub final_pkt : (windowsize seqnum timestamp : ℕ) → Pkt → Pkt
unfolding pkt_set_type pkt_set_tr pkt_set_length pkt_set_window pkt_set_seqnum pkt_set_timestamp
final_pkt windowsize seqnum timestamp pkt =
    let pkt1 = (pkt_set_length (pkt_set_tr (pkt_set_type pkt 1).1 0).1 0).1 in
    (pkt_set_timestamp (pkt_set_seqnum (pkt_set_window pkt1 windowsize).1 seqnum).1 timestamp).1

-- Behind the encoding of `send_final_pkt`.
abbrev pub final_written : System → Pkt → Bool × Sender → Option Sender
final_written system pkt (true, s) =
    elim (add_pkt system pkt
      (record s { stats = record s.stats { data_sent = s.stats.data_sent + 1 } })) [
        | none ↦ none
        | some s1 ↦ some (record s1 { last_pkt = true })
      ]
final_written system pkt (false, s) = some s

-- `pkt_encode` fails only for want of room, which PKT_MAX_LEN is for this packet.
abbrev pub final_encoded : System → Pkt → Option (StatusCode × List ℕ) → Sender → Option Sender
final_encoded system pkt none s = none
final_encoded system pkt (some (status, out)) s = elim status [
  | pkt_ok ↦
      final_written system pkt
        (write_datagram system out (record s { copybuf = out ++ drop (length out) s.copybuf }))
  | _ ↦ some s
]

unfoldable pub send_final_pkt : System → Sender → Option Sender
send_final_pkt system s =
    let window = record s.window { seqnum_tail = (s.window.seqnum_tail + 1) % 256 } in
    let (time, s1) = time_millis system (record s { window = window }) in
    elim (pkt_new system.libs) [
      | none ↦ none
      | some pkt ↦
          (let pkt' = final_pkt window.windowsize window.seqnum_tail time pkt in
            final_encoded system pkt' (pkt_encode system.libs pkt' pkt_max_len) s1)
    ]
