-- ===== src/Sender/Resend.antt =====
-- `resent_pkt` of src/read-write/read_write_sender.c.
use projet_trtp.Base.{
  ℕ, ◌+◌, ◌-◌, ◌%◌, ◌^◌, true, false, List, [], ◌∷◌, ◌++◌, Option, none, some, ltb, ◌==◌,
  if◌then◌else◌,
}
use projet_trtp.Packet.Struct.{Pkt}
use projet_trtp.Packet.Access.{pkt_set_timestamp}
use projet_trtp.Sender.{System, Sender, time_millis}
use projet_trtp.Sender.Buffer.{encode_write}

abbrev pub timeout : ℕ
timeout = 2000

-- `time - timestamp` on `uint32_t`.
abbrev pub elapsed : (time timestamp : ℕ) → ℕ
elapsed time timestamp = (time + 2 ^ 32 - timestamp) % 2 ^ 32

abbrev pub count_resent : Pkt → Sender → Sender
count_resent pkt s = record s {
  last_rst = (if pkt.length == 0 then s.last_rst + 1 else s.last_rst);
  stats = record s.stats { packet_retransmitted = s.stats.packet_retransmitted + 1 };
}

-- The loop at `rest`, behind the packets `before`; a failing `write` ends it.
unfoldable pub resent_loop : System → (before rest : List Pkt) → Sender → Option Sender
unfolding pkt_set_timestamp
resent_loop system before [] s = some s
resent_loop system before (pkt ∷ rest) s =
    let (time, s1) = time_millis system s in
    let pkt' = (pkt_set_timestamp pkt time).1 in
    if ltb timeout (elapsed time pkt.timestamp)
    then elim (encode_write system pkt'
        (record s1 { window = record s1.window { list = before ++ (pkt' ∷ rest) } })) [
          | none ↦ none
          | some (sent, s2) ↦ elim sent [
            | true ↦ resent_loop system (before ++ (pkt' ∷ [])) rest (count_resent pkt' s2)
            | false ↦ some s2
          ]
        ]
    else resent_loop system (before ++ (pkt ∷ [])) rest s1

-- The head of an empty list is no node.
unfoldable pub resent_pkt : System → Sender → Option Sender
unfolding resent_loop
resent_pkt system s = elim s.window.list [
  | [] ↦ none
  | _ ∷ _ ↦ resent_loop system [] s.window.list s
]
