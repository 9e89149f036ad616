-- ===== src/Sender/Nack.antt =====
-- `resent_nack` of src/read-write/read_write_sender.c, which the loop does not call. `none` is undefined
-- behaviour.
mod Found
use projet_trtp.Base.{
  ℕ, ◌+◌, Bool, true, false, List, [], ◌∷◌, ◌++◌, Option, none, some, ◌==◌, if◌then◌else◌, length,
  drop,
}
use projet_trtp.Packet.Struct.{pkt_max_len, StatusCode, pkt_ok, Pkt}
use projet_trtp.Packet.Access.{pkt_set_timestamp}
use projet_trtp.Packet.Encode.{pkt_encode}
use projet_trtp.Window.{is_in_sender_window}
use projet_trtp.Sender.{System, Sender, time_millis}
use projet_trtp.Sender.Buffer.{write_datagram}

-- The results -1, -2 and 0.
pub data NackResult : Type 0 where
  not_sent : NackResult
  not_encoded : NackResult
  resent : NackResult

-- The packet with the number, between those before it and behind it.
unfoldable pub find_nack : (nack : ℕ) → List Pkt → Option (List Pkt × Pkt × List Pkt)
find_nack nack [] = none
find_nack nack (current ∷ pkts) =
    let found = find_nack nack pkts in
    if current.seqnum == nack
    then some ([], current, pkts)
    else elim found [ none ↦ none | some (before, pkt, rest) ↦ some (current ∷ before, pkt, rest) ]

abbrev pub nack_written : Bool × Sender → NackResult × Sender
nack_written (false, s) = (not_sent, s)
nack_written (true, s) = (
  resent,
  record s { stats = record s.stats { packet_retransmitted = s.stats.packet_retransmitted + 1 } },
)

abbrev pub nack_encoded :
    System → Sender → Option (StatusCode × List ℕ) → Option (NackResult × Sender)
nack_encoded system s none = none
nack_encoded system s (some (status, out)) =
    let s1 : Sender = record s { copybuf = out ++ drop (length out) s.copybuf } in
    elim status [
      | pkt_ok ↦ some (nack_written (write_datagram system out s1))
      | _ ↦ some (not_encoded, s1)
    ]

-- From `pkt_set_timestamp` on.
abbrev pub send_found :
    System → Sender → Option (List Pkt × Pkt × List Pkt) → Option (NackResult × Sender)
send_found system s none = some (not_sent, s)
send_found system s (some (before, pkt, rest)) =
    let (time, s1) = time_millis system s in
    let pkt' = (pkt_set_timestamp pkt time).1 in
    nack_encoded system (record s1 { window = record s1.window { list = before ++ (pkt' ∷ rest) } })
      (pkt_encode system.libs pkt' pkt_max_len)

unfoldable pub resent_nack : System → (nack : ℕ) → Sender → Option (NackResult × Sender)
unfolding pkt_set_timestamp
resent_nack system nack s =
    if is_in_sender_window s.window nack
    then send_found system s (find_nack nack s.window.list)
    else some (not_sent, s)
