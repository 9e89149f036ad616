-- ===== src/Receiver/Receive.antt =====
-- `receive_data` of src/read-write/read_write_receiver.c. Its result is never used. `pkt_del` frees a
-- packet to which nothing refers any more.
use projet_trtp.Base.{
  ℕ, ◌+◌, ◌-◌, ◌^◌, Bool, true, false, ◌&&◌, not, List, Option, none, some, ◌==◌, if◌then◌else◌,
  length, take,
}
use projet_trtp.Packet.Struct.{pkt_max_len, ptype_data, type_is, StatusCode, pkt_ok, e_crc, Pkt}
use projet_trtp.Packet.Access.{pkt_new}
use projet_trtp.Packet.Decode.{pkt_decode}
use projet_trtp.Receiver.{World, Receiver, overwrite}
use projet_trtp.Receiver.Response.{increase_window, send_troncated_nack}
use projet_trtp.Receiver.Insert.{check_in_window, ignore_packet, linked_list_add_increasing}

-- The result of `send_troncated_nack` is not looked at.
abbrev pub refuse : World → Pkt → Receiver → Option Receiver
refuse world pkt s = elim (send_troncated_nack world pkt s) [ none ↦ none | some (_, s') ↦ some s' ]

-- The status E_CRC.
unfoldable pub bad_crc : World → Pkt → Receiver → Option Receiver
bad_crc world pkt s =
    if type_is pkt.type ptype_data && (pkt.tr == 1)
    then (let (inside, s1) = check_in_window s pkt.seqnum in
        if inside then refuse world pkt s1 else some (ignore_packet s1))
    else some (ignore_packet s)

-- Behind a call of `linkedList_add_increasing`.
unfoldable pub added : Pkt → Bool → Receiver → Receiver
added pkt new s =
    if new
    then (let s1 =
          (if pkt.length == 0
            then record s { eof_reached = true; eof_seqnum = pkt.seqnum }
            else s) in
        if s1.window.seqnum_head == pkt.seqnum
        then record s1 { window = increase_window s1.window; resent_ack = false }
        else record s1 { resent_ack = true })
    else record s { resent_ack = true }

abbrev pub count_data : Receiver → Receiver
count_data s = record s { stats = record s.stats { data_received = s.stats.data_received + 1 } }

-- A PTYPE_DATA packet that is not truncated.
unfoldable pub data_packet : World → Pkt → Receiver → Option Receiver
data_packet world pkt s =
    let (inside, s1) = check_in_window s pkt.seqnum in
    if inside
    then elim (linked_list_add_increasing world.libs pkt (count_data s1)) [
      | none ↦ none
      | some (new, s2) ↦ some (added pkt new s2)
    ]
    else some (record s1 { resent_ack = true })

-- The status PKT_OK. A PTYPE_FEC packet is ignored by `if (1)`, so that `deal_with_fec` is never
-- called.
unfoldable pub packet : World → Pkt → Receiver → Option Receiver
packet world pkt s = elim pkt.type [
  | ptype_data ↦ if not (pkt.tr == 0) then refuse world pkt s else data_packet world pkt s
  | _ ↦ some (ignore_packet s)
]

unfoldable pub decoded : World → StatusCode → Pkt → Receiver → Option Receiver
decoded world status pkt s = elim status [
  | e_crc ↦ bad_crc world pkt s
  | pkt_ok ↦ packet world pkt s
  | _ ↦ some (ignore_packet s)
]

-- `read(sfd, buffer, PKT_MAX_LEN)`: the buffer, and the result as the `size_t` that `pkt_decode`
-- takes; `none` is -1, and a longer datagram is cut.
abbrev pub read_datagram : Option (List ℕ) → List ℕ → List ℕ × ℕ
read_datagram none buffer = (buffer, 2 ^ 64 - 1)
read_datagram (some datagram) buffer =
    let bytes = take pkt_max_len datagram in (overwrite bytes buffer, length bytes)

-- The part of `receive_data` behind the `read`.
abbrev pub receive_bytes : World → Receiver → List ℕ × ℕ → Option Receiver
receive_bytes world s (buffer, bytes_read) = elim (pkt_new world.libs) [
  | none ↦ none
  | some pkt ↦ elim (pkt_decode world.libs buffer bytes_read pkt) [
    | none ↦ none
    | some (status, pkt') ↦ decoded world status pkt' (record s { buffer = buffer })
  ]
]

unfoldable pub receive_data : World → Option (List ℕ) → Receiver → Option Receiver
receive_data world datagram s = receive_bytes world s (read_datagram datagram s.buffer)
