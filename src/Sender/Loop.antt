-- ===== src/Sender/Loop.antt =====
-- The loop of `read_write_sender` of src/read-write/read_write_sender.c, against a sequence of results
-- of `poll` and `read`.
use projet_trtp.Base.{
  ℕ, ◌+◌, Bool, true, false, ◌&&◌, not, List, [], ◌∷◌, Option, none, some, ltb, ◌==◌, if◌then◌else◌,
  length,
}
use projet_trtp.Packet.Struct.{ptype_ack, ptype_nack, StatusCode, pkt_ok, Pkt}
use projet_trtp.Packet.Access.{pkt_new}
use projet_trtp.Packet.Decode.{pkt_decode}
use projet_trtp.Window.{is_in_sender_window}
use projet_trtp.Receiver.Receive.{read_datagram}
use projet_trtp.Sender.{System, Sender}
use projet_trtp.Sender.Buffer.{send_final_pkt}
use projet_trtp.Sender.Fill.{fill_window}
use projet_trtp.Sender.Resend.{resent_pkt}
use projet_trtp.Sender.Acks.{ack_window, update_window}

abbrev pub max_resent_last_pkt : ℕ
max_resent_last_pkt = 4

-- What `poll` finds: whether there is POLLOUT, and with POLLIN the datagram that `read` gets (`none`
-- where it fails).
pub record Ready : Type 0 where
  pub writable : Bool
  pub incoming : Option (Option (List ℕ))

abbrev pub has_place : Sender → Bool
has_place s = ltb (length s.window.list) s.window.windowsize

abbrev pub fill_turn : System → (fec_enable : Bool) → Sender → Option Sender
fill_turn system fec_enable s =
    if not s.eof_reached && has_place s then fill_window system fec_enable s else some s

abbrev pub final_turn : System → Sender → Option Sender
final_turn system s =
    if not s.last_pkt && (s.eof_reached && has_place s)
    then send_final_pkt system (record s { last_pkt = true })
    else some s

-- The part under POLLOUT; the Boolean tells whether the loop is left.
unfoldable pub write_turn : System → (fec_enable : Bool) → Sender → Option (Bool × Sender)
write_turn system fec_enable s = elim (fill_turn system fec_enable s) [
  | none ↦ none
  | some s1 ↦ elim (final_turn system s1) [
    | none ↦ none
    | some s2 ↦ elim (resent_pkt system s2) [
      | none ↦ none
      | some s3 ↦ some (s3.last_pkt && ltb max_resent_last_pkt s3.last_rst, s3)
    ]
  ]
]

abbrev pub ignore_packet : Sender → Sender
ignore_packet s = record s {
  stats = record s.stats { packet_ignored = s.stats.packet_ignored + 1 };
}

abbrev pub nack_packet : Pkt → Sender → Sender
nack_packet pkt s =
    if is_in_sender_window s.window pkt.seqnum
    then record s { stats = record s.stats { nack_received = s.stats.nack_received + 1 } }
    else ignore_packet s

-- Behind `ack_window`: the Boolean tells whether the transmission has ended.
abbrev pub after_ack : Option ℕ → Sender → Bool × Sender
after_ack retval s =
    let s1 : Sender = elim retval [ none ↦ ignore_packet s | some _ ↦ s ] in
    (s1.last_pkt && (length s1.window.list == 0), s1)

abbrev pub ack_packet : System → Pkt → Sender → Option (Bool × Sender)
ack_packet system pkt s =
    elim (ack_window system pkt.seqnum
      (record s { stats = record s.stats { ack_received = s.stats.ack_received + 1 } })) [
        | none ↦ none
        | some (retval, s1) ↦ some (after_ack retval s1)
      ]

-- A packet that is accepted and not truncated. The result of `update_window` is not looked at.
unfoldable pub packet : System → Pkt → Sender → Option (Bool × Sender)
packet system pkt s = elim (update_window pkt.window s) [
  | none ↦ none
  | some s1 ↦ elim pkt.type [
    | ptype_nack ↦ some (false, nack_packet pkt s1)
    | ptype_ack ↦ ack_packet system pkt s1
    | _ ↦ some (false, s1)
  ]
]

abbrev pub decoded : System → StatusCode → Pkt → Sender → Option (Bool × Sender)
decoded system status pkt s = elim status [
  | pkt_ok ↦ if pkt.tr == 0 then packet system pkt s else some (false, ignore_packet s)
  | _ ↦ some (false, ignore_packet s)
]

-- The part under POLLIN, behind the `read`.
unfoldable pub read_turn : System → Sender → List ℕ × ℕ → Option (Bool × Sender)
read_turn system s (copybuf, bytes_read) = elim (pkt_new system.libs) [
  | none ↦ none
  | some pkt ↦ elim (pkt_decode system.libs copybuf bytes_read pkt) [
    | none ↦ none
    | some (status, pkt') ↦
        decoded system status pkt' (record s { copybuf = copybuf; last_rst = 0 })
  ]
]

abbrev pub incoming_turn : System → Option (Option (List ℕ)) → Sender → Option (Bool × Sender)
incoming_turn system none s = some (false, s)
incoming_turn system (some datagram) s = read_turn system s (read_datagram datagram s.copybuf)

-- A round of the loop; the Boolean tells whether the loop is left.
unfoldable pub turn : System → (fec_enable : Bool) → Ready → Sender → Option (Bool × Sender)
turn system fec_enable ready s =
    elim (if ready.writable then write_turn system fec_enable s else some (false, s)) [
      | none ↦ none
      | some (left, s1) ↦ elim left [
        | true ↦ some (true, s1)
        | false ↦ incoming_turn system ready.incoming s1
      ]
    ]

-- The loop; the Boolean tells whether it has ended within the rounds.
unfoldable pub read_write_sender :
    System → (fec_enable : Bool) → List Ready → Sender → Option (Bool × Sender)
read_write_sender system fec_enable [] s = some (false, s)
read_write_sender system fec_enable (ready ∷ rest) s = elim (turn system fec_enable ready s) [
  | none ↦ none
  | some (left, s1) ↦ elim left [
    | true ↦ some (true, s1)
    | false ↦ read_write_sender system fec_enable rest s1
  ]
]
