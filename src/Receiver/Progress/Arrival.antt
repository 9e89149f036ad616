-- ===== src/Receiver/Progress/Arrival.antt =====
-- The turn that brings the next packet, of src/read-write/read_write_receiver.c.
use projet_trtp.Base.{
  ℕ, ◌^◌, ◌≤◌, ◌<◌, ◌≡◌, ◌≢◌, refl, subst, ◌∙◌, ap, Bool, true, false, List, [], ◌++◌, Option, some,
  length, ◌==◌, ◌||◌, not, if◌then◌else◌,
}
use projet_trtp.Packet.Struct.{StatusCode, pkt_ok, Pkt}
use projet_trtp.Packet.Access.{pkt_zero}
use projet_trtp.Packet.Decode.{pkt_decode}
use projet_trtp.Packet.Encode.{pkt_encode}
use projet_trtp.Packet.RoundTrip.{decode-encode}
use projet_trtp.Packet.RoundTrip.Wire.{IsSendable}
use projet_trtp.Receiver.{World, Receiver}
use projet_trtp.Receiver.Receive.{receive_data}
use projet_trtp.Receiver.Flushes.{WritesAll}
use projet_trtp.Receiver.Loop.{incoming, turn, receive_turn, flush_turn}
use projet_trtp.Receiver.Progress.{
  data_pkt, with_crcs, IsWaiting, receive_next, Advanced, flush_next,
}

module _ (world : World) (mem : (k : ℕ) → world.libs.malloc k ≡ true) where
  turn_of :
      (datagram : Option (List ℕ)) (s s1 : Receiver) (r : Bool × Receiver)
      → s.eof_reached ≡ false
      → receive_data world datagram s ≡ some s1
      → flush_turn world s1 ≡ some r
      → turn world (incoming datagram) s ≡ some r
  unfolding turn
  turn_of datagram s s1 r open_file e f =
      let test = λ (b : Bool). not b || not (s.window.seqnum_head == s.eof_seqnum) in
      let received_lem : receive_turn world datagram s ≡ some s1 =
        ap (λ (b : Bool). if test b then receive_data world datagram s else some s) open_file ∙ e in
      rw (turn, received_lem, f)

  same_out :
      {o : Option (StatusCode × List ℕ)} {a b : List ℕ}
      → o ≡ some (pkt_ok, a)
      → o ≡ some (pkt_ok, b)
      → a ≡ b
  same_out e1 e2 = cc (e1, e2)

  pub turn_next :
      (window timestamp : ℕ) (bytes : List ℕ) (s : Receiver) (v : IsWaiting s)
      → WritesAll world
      → window < 32
      → timestamp < 2 ^ 32
      → length bytes ≢ 0
      → length bytes ≤ 512
      → (out : List ℕ) × (s' : Receiver) × (pkt_encode world.libs
            (data_pkt window s.window.seqnum_head timestamp bytes)
            528
          ≡ some (pkt_ok, out))
        × (turn world (incoming (some out)) s ≡ some (false, s'))
        × Advanced world mem window timestamp bytes out s v s'
  unfolding turn
  turn_next window timestamp bytes s v all hw ht full small =
      let pkt : Pkt = data_pkt window s.window.seqnum_head timestamp bytes in
      let fields : IsSendable pkt = record {
        window = hw;
        tr = refl;
        seqnum = v.head;
        timestamp = ht;
      } in
      let trip = λ (rest : List ℕ).
        decode-encode world.libs mem pkt bytes rest fields (refl, refl, full, small) in
      let out : List ℕ = (trip []).0 in
      let encoded = (trip []).1 in
      let decodes = λ (rest : List ℕ).
        subst
          (λ (o : List ℕ).
            pkt_decode world.libs (o ++ rest) (length o) pkt_zero
            ≡ some (pkt_ok, with_crcs world.libs pkt bytes))
          (same_out (trip rest).1 encoded) (trip rest).3 in
      let received_lem =
        receive_next world mem window timestamp bytes out s v full (trip []).2 decodes in
      let (s', e, f) = flush_next world mem window timestamp bytes out s v all full in
      (out, s', encoded, turn_of (some out) s _ _ v.more received_lem e, f)
