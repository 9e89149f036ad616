-- ===== src/Receiver/Loop.antt =====
-- The loop of `read_write_receiver` of src/read-write/read_write_receiver.c, against a sequence of
-- results of `poll` and `read`.
use projet_trtp.Base.{
  ℕ, Bool, true, false, ◌||◌, not, List, [], ◌∷◌, Option, none, some, ◌==◌, if◌then◌else◌,
}
use projet_trtp.Receiver.{World, Receiver}
use projet_trtp.Receiver.Response.{send_ack}
use projet_trtp.Receiver.Receive.{receive_data}
use projet_trtp.Receiver.Flush.{flush_file}

-- One round: `poll` finds POLLIN, with the datagram that a `read` gets (`none` where it fails), or
-- finds only POLLOUT. A round of the inner loop is a round with POLLIN, and the inner loop is left
-- when its `poll` does not find it.
pub data Turn : Type 0 where
  incoming : Option (List ℕ) → Turn
  outgoing : Turn

-- The result of `send_ack` is not looked at.
abbrev pub acknowledge : World → Receiver → Option Receiver
acknowledge world s = elim (send_ack world s.last_timestamp s) [
  | none ↦ none
  | some (_, s') ↦ some s'
]

-- `receive_data`, unless the file is complete.
abbrev pub receive_turn : World → Option (List ℕ) → Receiver → Option Receiver
receive_turn world datagram s =
    if not s.eof_reached || not (s.window.seqnum_head == s.eof_seqnum)
    then receive_data world datagram s
    else some s

-- What follows `flush_file`; the Boolean is `eof_wrote`.
abbrev pub after_flush : World → Option ℕ → Receiver → Option (Bool × Receiver)
after_flush world none s = elim (acknowledge world s) [ none ↦ none | some s1 ↦ some (true, s1) ]
after_flush world (some packet_write) s = some (false, s)

abbrev pub flush_turn : World → Receiver → Option (Bool × Receiver)
flush_turn world s = elim (flush_file world s) [
  | none ↦ none
  | some (retval, s1) ↦ after_flush world retval s1
]

unfoldable pub turn : World → Turn → Receiver → Option (Bool × Receiver)
turn world (incoming datagram) s = elim (receive_turn world datagram s) [
  | none ↦ none
  | some s1 ↦ flush_turn world s1
]
turn world outgoing s =
    if s.resent_ack
    then elim (acknowledge world s) [
      | none ↦ none
      | some s1 ↦ some (false, record s1 { resent_ack = false })
    ]
    else some (false, s)

-- The loop, which ends with the file; the Boolean tells whether it has ended within the turns.
unfoldable pub read_write_receiver : World → List Turn → Receiver → Option (Bool × Receiver)
read_write_receiver world [] s = some (false, s)
read_write_receiver world (t ∷ ts) s = elim (turn world t s) [
  | none ↦ none
  | some (eof_wrote, s1) ↦ elim eof_wrote [
    | true ↦ some (true, s1)
    | false ↦ read_write_receiver world ts s1
  ]
]
