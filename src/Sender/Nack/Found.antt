-- ===== src/Sender/Nack/Found.antt =====
-- What `resent_nack` of src/read-write/read_write_sender.c sends.
use projet_trtp.Base.{
  ℕ, ◌+◌, ◌%◌, ◌^◌, ◌≡◌, ◌≢◌, refl, ap, ◌∙◌, true, List, [], ◌∷◌, ◌++◌, some, arith, All, ◌==◌,
  ne→==, drop, length,
}
use projet_trtp.Packet.Struct.{pkt_max_len, pkt_ok, Pkt}
use projet_trtp.Packet.Access.{pkt_set_timestamp}
use projet_trtp.Packet.Encode.{pkt_encode}
use projet_trtp.Window.{is_in_sender_window}
use projet_trtp.Sender.{System, Sender}
use projet_trtp.Sender.Nack.{resent, find_nack, resent_nack}

find_nack-append :
    (nack : ℕ) (before rest : List Pkt) (pkt : Pkt)
    → All (λ (p : Pkt). p.seqnum ≢ nack) before
    → pkt.seqnum ≡ nack
    → find_nack nack (before ++ (pkt ∷ rest)) ≡ some (before, pkt, rest)
unfolding find_nack
find_nack-append nack [] rest pkt h e =
    let same : (pkt.seqnum == nack) ≡ true = ground (arith, e) in rw same
find_nack-append nack (p ∷ before) rest pkt (other, h) e =
    rw (ne→== p.seqnum nack other, find_nack-append nack before rest pkt h e)

-- Where the number is in the window, a packet of the list has it, none before that one has it too, the
-- packet can be encoded and `write` succeeds, that packet alone is sent again, with the time of the
-- call, and stays in its place in the list.
resent_nack_lem :
    (system : System) (nack : ℕ) (s : Sender) (before rest : List Pkt) (pkt : Pkt) (out : List ℕ)
    → ((sent : List (List ℕ)) (bytes : List ℕ) → system.send sent bytes ≡ true)
    → is_in_sender_window s.window nack ≡ true
    → s.window.list ≡ before ++ (pkt ∷ rest)
    → All (λ (p : Pkt). p.seqnum ≢ nack) before
    → pkt.seqnum ≡ nack
    → pkt_encode system.libs (record pkt { timestamp = system.clock s.calls % 2 ^ 32 }) pkt_max_len
      ≡ some (pkt_ok, out)
    → (s' : Sender) × (resent_nack system nack s ≡ some (resent, s'))
      × (s'.sent ≡ s.sent ++ (out ∷ []))
      × (s'.window.list
          ≡ before ++ (record pkt { timestamp = system.clock s.calls % 2 ^ 32 } ∷ rest))
unfolding resent_nack pkt_set_timestamp
resent_nack_lem system nack s before rest pkt out sends inside list h e enc =
    let found : find_nack nack s.window.list ≡ some (before, pkt, rest) =
      ap (find_nack nack) list ∙ find_nack-append nack before rest pkt h e in
    let now : Pkt = record pkt { timestamp = system.clock s.calls % 2 ^ 32 } in
    (
      record s {
        window = record s.window { list = before ++ (now ∷ rest) };
        copybuf = out ++ drop (length out) s.copybuf;
        stats = record s.stats { packet_retransmitted = s.stats.packet_retransmitted + 1 };
        calls = s.calls + 1;
        sent = s.sent ++ (out ∷ []);
      },
      rw (inside, found, enc, sends s.sent out),
      refl,
      refl,
    )
