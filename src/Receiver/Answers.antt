-- ===== src/Receiver/Answers.antt =====
-- What the answers of src/read-write/read_write_receiver.c are on the wire, and what they leave of the
-- receiver's state.
use projet_trtp.Base.{
  ℕ, ◌+◌, ◌^◌, ◌≤◌, ◌<◌, ◌≡◌, ◌⊎◌, inl, inr, refl, true, List, [], ◌∷◌, ◌++◌, some, arith,
  Bool-cases, le→ltb, if◌then◌else◌, length,
}
use projet_trtp.Packet.Struct.{
  Ptypes, ptype_fec, ptype_data, ptype_ack, ptype_nack, type_code, pkt_ok, Pkt,
}
use projet_trtp.Packet.Access.{pkt_zero, pkt_new}
use projet_trtp.Packet.Decode.{pkt_decode, next}
use projet_trtp.Packet.Encode.{pkt_encode}
use projet_trtp.Packet.RoundTrip.{decode-encode}
use projet_trtp.Packet.RoundTrip.Wire.{received}
use projet_trtp.Receiver.{World, Receiver, overwrite}
use projet_trtp.Receiver.Response.{
  exit_success, exit_failure, fill_response, transmit, send_response, send_ack,
}

-- The packet of an answer.
abbrev pub answer : Ptypes → (window seqnum timestamp : ℕ) → Pkt
answer type window seqnum timestamp = record pkt_zero {
  type = type;
  window = window;
  seqnum = seqnum;
  timestamp = timestamp;
}

-- An acknowledgement or a PTYPE_NACK.
abbrev pub IsAnswer : Ptypes → Type 0
IsAnswer type = (type ≡ ptype_ack) ⊎ (type ≡ ptype_nack)

fill_ack :
    (window seqnum timestamp : ℕ)
    → window ≤ 31
    → fill_response 2 window seqnum timestamp pkt_zero
      ≡ next tt (answer ptype_ack window seqnum timestamp)
unfolding fill_response
fill_ack window seqnum timestamp h = rw (le→ltb 31 window h)

fill_nack :
    (window seqnum timestamp : ℕ)
    → window ≤ 31
    → fill_response 3 window seqnum timestamp pkt_zero
      ≡ next tt (answer ptype_nack window seqnum timestamp)
unfolding fill_response
fill_nack window seqnum timestamp h = rw (le→ltb 31 window h)

-- The state behind an answer that has been encoded as `out`.
abbrev pub answered : World → List ℕ → Receiver → ℕ × Receiver
answered world out s =
    if world.send s.sent out
    then (exit_success, record s { buffer = overwrite out s.buffer; sent = s.sent ++ (out ∷ []) })
    else (exit_failure, record s { buffer = overwrite out s.buffer })

transmit_lem :
    (world : World) (pkt : Pkt) (out : List ℕ) (s : Receiver)
    → pkt_encode world.libs pkt 528 ≡ some (pkt_ok, out)
    → transmit world pkt s ≡ some (answered world out s)
unfolding transmit
transmit_lem world pkt out s e = elim (Bool-cases (world.send s.sent out)) [
  | inl ok ↦ rw (transmit, e, ok)
  | inr failed ↦ rw (transmit, e, failed)
]

module _ (world : World) (mem : (k : ℕ) → world.libs.malloc k ≡ true) where
  pub send_response_lem :
      (type : Ptypes) (seqnum timestamp : ℕ) (s : Receiver) (out : List ℕ)
      → IsAnswer type
      → s.window.windowsize ≤ 31
      → pkt_encode world.libs (answer type s.window.windowsize seqnum timestamp) 528
        ≡ some (pkt_ok, out)
      → send_response world (type_code type) seqnum timestamp s ≡ some (answered world out s)
  unfolding send_response pkt_new
  send_response_lem ptype_ack seqnum timestamp s out kind h e =
      rw (send_response, pkt_new, mem 24, fill_ack s.window.windowsize seqnum timestamp h)
        (transmit_lem world _ out s e)
  send_response_lem ptype_nack seqnum timestamp s out kind h e =
      rw (send_response, pkt_new, mem 24, fill_nack s.window.windowsize seqnum timestamp h)
        (transmit_lem world _ out s e)
  send_response_lem ptype_data seqnum timestamp s out kind h e = absurd (ground arith)
  send_response_lem ptype_fec seqnum timestamp s out kind h e = absurd (ground arith)

-- The state behind an acknowledgement that has been sent.
abbrev acknowledged : List ℕ → Receiver → Receiver
acknowledged out s = record s {
  buffer = overwrite out s.buffer;
  sent = s.sent ++ (out ∷ []);
  stats = record s.stats { ack_sent = s.stats.ack_sent + 1 };
  num_ack = 0;
}

send_ack_of :
    (world : World) (s : Receiver) (timestamp : ℕ) (out : List ℕ)
    → send_response world 2 s.window.seqnum_head timestamp s ≡ some (answered world out s)
    → world.send s.sent out ≡ true
    → send_ack world timestamp s ≡ some (exit_success, acknowledged out s)
unfolding send_ack
send_ack_of world s timestamp out e ok = rw (send_ack, e, ok)

-- Where `malloc` succeeds and the datagram is sent, `send_ack` returns EXIT_SUCCESS, and has sent one
-- datagram, from which `pkt_decode`, whatever stands behind it in the buffer, reads an acknowledgement
-- of the number at the window's head with the window's size and the given timestamp.
pub send_ack_lem :
    (world : World) (s : Receiver) (timestamp : ℕ) (rest : List ℕ)
    → ((k : ℕ) → world.libs.malloc k ≡ true)
    → ((sent : List (List ℕ)) (out : List ℕ) → world.send sent out ≡ true)
    → s.window.windowsize ≤ 31
    → s.window.seqnum_head < 256
    → timestamp < 2 ^ 32
    → (s' : Receiver) × (out : List ℕ) × (pkt : Pkt) × (send_ack world timestamp s
        ≡ some (exit_success, s'))
      × (s'.sent ≡ s.sent ++ (out ∷ []))
      × (s'.window ≡ s.window)
      × (pkt_decode world.libs (out ++ rest) (length out) pkt_zero ≡ some (pkt_ok, pkt))
      × (pkt.type ≡ ptype_ack)
      × (pkt.seqnum ≡ s.window.seqnum_head)
      × (pkt.window ≡ s.window.windowsize)
      × (pkt.timestamp ≡ timestamp)
unfolding send_ack
send_ack_lem world s timestamp rest mem sends small head time =
    let pkt = answer ptype_ack s.window.windowsize s.window.seqnum_head timestamp in
    let (out, e, size, d) =
      decode-encode world.libs mem pkt [] rest
        (record { window = omega arith; tr = refl; seqnum = head; timestamp = time }) tt in
    let sent_lem =
      send_response_lem world mem ptype_ack s.window.seqnum_head timestamp s out (inl refl) small
        e in
    (
      acknowledged out s,
      out,
      received world.libs pkt [],
      send_ack_of world s timestamp out sent_lem (sends s.sent out),
      refl,
      refl,
      d,
      refl,
      refl,
      refl,
      refl,
    )
