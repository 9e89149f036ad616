-- ===== src/Receiver/Sound/Runs.antt =====
-- The turns of the loop of src/read-write/read_write_receiver.c keep the invariant, whatever comes in.
use projet_trtp.Base.{
  ℕ, ◌+◌, ◌-◌, ◌^◌, refl, length, ◌%◌, ◌≡◌, ◌≢◌, inl, inr, true, false, Bool, List, [], ◌∷◌, ◌++◌,
  not, ◌||◌, Option, none, some, arith, Bool-cases, Option-cases, ◌==◌, ==_iff, take, All,
}
use projet_trtp.Packet.Struct.{ptype_data, pkt_ok, Pkt, Libs}
use projet_trtp.Packet.Access.{pkt_zero, pkt_new, pkt_get_payload}
use projet_trtp.Packet.Decode.{pkt_decode, payload_bytes}
use projet_trtp.Window.{WindowPkt}
use projet_trtp.Receiver.{World, Receiver, overwrite, initial}
use projet_trtp.Receiver.Always.{Always, Always-bind, Always-if, Always-some}
use projet_trtp.Receiver.Response.{send_ack}
use projet_trtp.Receiver.Receive.{receive_bytes, receive_data}
use projet_trtp.Receiver.Flush.{flush_loop, flush_file, written, file_end, next_head}
use projet_trtp.Receiver.Loop.{
  Turn, incoming, outgoing, acknowledge, after_flush, receive_turn, flush_turn, turn,
  read_write_receiver,
}
use projet_trtp.Receiver.Sound.{IsHeld, IsWindow, KeepsBuffer, IsReceiver}
use projet_trtp.Receiver.Sound.Keep.{send_ack-IsReceiver}
use projet_trtp.Receiver.Sound.Handlers.{payload_lem, with_buffer}

-- `B` holds of the buffer into which a datagram is read, and if `pkt_decode` accepts a PTYPE_DATA packet, in
-- the buffer and with the length that the `read` of the turn leaves, `H` holds of it.
abbrev pub Brings : Libs → (H : Pkt → Type 0) → (B : List ℕ → Type 0) → Turn → Type 0
Brings libs H B (incoming (some datagram)) =
    ((old : List ℕ) → B old → B (overwrite (take 528 datagram) old))
    × ((old : List ℕ) (pkt : Pkt)
        → B old
        → pkt_decode libs (overwrite (take 528 datagram) old) (length (take 528 datagram)) pkt_zero
          ≡ some (pkt_ok, pkt)
        → pkt.type ≡ ptype_data
        → H pkt)
Brings libs H B (incoming none) =
    (old : List ℕ) (pkt : Pkt)
    → B old
    → pkt_decode libs old (2 ^ 64 - 1) pkt_zero ≡ some (pkt_ok, pkt)
    → pkt.type ≡ ptype_data
    → H pkt
Brings libs H B outgoing = Unit {0}

-- `Q` goes on holding when `flush_file` writes a packet.
abbrev pub KeptByWrite : World → (H : Pkt → Type 0) → (Q : ℕ → List ℕ → Type 0) → Type 0
KeptByWrite world H Q =
    (pkt : Pkt) (head : ℕ) (output own : List ℕ) (n : ℕ)
    → H pkt
    → head ≡ pkt.seqnum
    → pkt.length ≢ 0
    → payload_bytes pkt.length (pkt_get_payload pkt) ≡ some own
    → world.write output own ≡ some n
    → Q head output
    → Q ((head + 1) % 256) (output ++ take n own)

-- It goes on holding where `flush_file` meets the end of the file, and `End` holds then.
abbrev pub KeptByEnd : (H : Pkt → Type 0) → (Q End : ℕ → List ℕ → Type 0) → Type 0
KeptByEnd H Q End =
    (pkt : Pkt) (head : ℕ) (output : List ℕ)
    → H pkt
    → head ≡ pkt.seqnum
    → pkt.length ≡ 0
    → Q head output
    → Q ((head + 1) % 256) output × End ((head + 1) % 256) output

-- `End` holds where a write fails too, since the loop ends with it.
abbrev pub EndsByFailure : World → (Q End : ℕ → List ℕ → Type 0) → Type 0
EndsByFailure world Q End =
    (head : ℕ) (output own : List ℕ)
    → world.write output own ≡ none
    → Q head output
    → End head output

module _ (world : World) (mem : (k : ℕ) → world.libs.malloc k ≡ true) (H : Pkt → Type 0)
    (B : List ℕ → Type 0) (keeps : KeepsBuffer world.libs B) (Q : ℕ → List ℕ → Type 0) where
  abbrev Good : Receiver → Type 0
  Good s = IsReceiver H B Q s

  receive_data-IsReceiver :
      (datagram : Option (List ℕ)) (s : Receiver)
      → Brings world.libs H B (incoming datagram)
      → Good s
      → Always Good (receive_data world datagram s)
  unfolding receive_data pkt_new
  receive_data-IsReceiver none s h (w, (b, q)) =
      rw (receive_data, receive_bytes, pkt_new, mem 24)
        (with_buffer world mem H B keeps Q s.buffer _ s b (λ pkt. h s.buffer pkt b) (w, (b, q)))
  receive_data-IsReceiver (some datagram) s (fits, given) (w, (b, q)) =
      let kept = fits s.buffer b in
      rw (receive_data, receive_bytes, pkt_new, mem 24)
        (with_buffer world mem H B keeps Q (overwrite (take 528 datagram) s.buffer) _ s kept
          (λ pkt. given s.buffer pkt b) (w, (b, q)))

  next_IsWindow :
      (pkts : List Pkt) (seqnum_tail : ℕ) (window : WindowPkt)
      → All H pkts
      → IsWindow H window
      → IsWindow H (record (next_head window) { list = pkts; seqnum_tail = seqnum_tail })
  next_IsWindow pkts seqnum_tail window h w = record {
    head = omega arith;
    low = w.low;
    high = w.high;
    held = h;
  }

  acknowledge-IsReceiver : (s : Receiver) → Good s → Always Good (acknowledge world s)
  acknowledge-IsReceiver s v =
      Always-bind (λ r. Good r.1) Good (send_ack world s.last_timestamp s) _
        (send_ack-IsReceiver world mem H B keeps Q s.last_timestamp s v) λ r v'. v'

  receive_turn-IsReceiver :
      (datagram : Option (List ℕ)) (s : Receiver)
      → Brings world.libs H B (incoming datagram)
      → Good s
      → Always Good (receive_turn world datagram s)
  receive_turn-IsReceiver datagram s h v =
      Always-if Good (not s.eof_reached || not (s.window.seqnum_head == s.eof_seqnum))
        (receive_data world datagram s) (some s) (receive_data-IsReceiver datagram s h v) v

module _ (world : World) (mem : (k : ℕ) → world.libs.malloc k ≡ true) (H : Pkt → Type 0)
    (held : (pkt : Pkt) → H pkt → IsHeld world.libs pkt) (B : List ℕ → Type 0)
    (keeps : KeepsBuffer world.libs B) (Q End : ℕ → List ℕ → Type 0)
    (writes : KeptByWrite world H Q) (ends : KeptByEnd H Q End)
    (fails : EndsByFailure world Q End) where
  -- The invariant, and `End` where the loop ends.
  abbrev pub Goes : {R : Type 0} → (stop : R) → R × Receiver → Type 0
  Goes stop (r, s) = IsReceiver H B Q s × (r ≡ stop → End s.window.seqnum_head s.output)

  flush_loop-Goes :
      (packet_write : ℕ) (list : List Pkt) (s : Receiver)
      → All H list
      → IsReceiver H B Q s
      → Always (Goes none) (flush_loop world packet_write list s)
  unfolding flush_loop written file_end
  flush_loop-Goes packet_write [] s h v = (v, λ e. cc e)
  flush_loop-Goes packet_write (pkt ∷ pkts) s (p, ps) (w, (b, q)) =
      elim (Bool-cases (s.window.seqnum_head == pkt.seqnum)) [
        | inr other ↦ rw (flush_loop, other) ((w, (b, q)), λ e. cc e)
        | inl head ↦ elim (Bool-cases (pkt.length == 0)) [
          | inl end ↦
              let (q', done) =
                ends pkt s.window.seqnum_head s.output p ((==_iff _ _).0 head) ((==_iff _ _).0 end)
                  q in
              rw (flush_loop, head, end)
                (
                  (
                    next_IsWindow world mem H B keeps Q s.window.list s.window.seqnum_tail s.window
                        w.held w,
                    (b, q'),
                  ),
                  λ _. done,
                )
          | inr more ↦
              let nonzero : pkt.length ≢ 0 = ground arith in
              let (own, e) = payload_lem world.libs pkt (held pkt p) nonzero in
              elim (Option-cases (world.write s.output own)) [
                | inl failed ↦
                    rw (flush_loop, head, more, e, failed)
                      ((w, (b, q)), λ _. fails s.window.seqnum_head s.output own failed q)
                | inr (n, ok) ↦
                    rw (flush_loop, head, more, e, ok)
                      (flush_loop-Goes (packet_write + 1) pkts (written pkt pkts (take n own) s) ps
                        (
                          next_IsWindow world mem H B keeps Q pkts _ s.window ps w,
                          (
                            b,
                            writes pkt s.window.seqnum_head s.output own n p ((==_iff _ _).0 head)
                                nonzero e ok q,
                          ),
                        ))
              ]
        ]
      ]

  -- The acknowledgement leaves the window's head and the standard output alone.
  after_flush-Goes :
      (retval : Option ℕ) (s : Receiver)
      → Goes none (retval, s)
      → Always (Goes true) (after_flush world retval s)
  after_flush-Goes none s ((w, (b, q)), done) =
      let both = λ (head : ℕ) (output : List ℕ). Q head output × End head output in
      Always-bind (IsReceiver H B both) (Goes true) (acknowledge world s) _
        (acknowledge-IsReceiver world mem H B keeps both s (w, (b, (q, done refl))))
        λ s1 v1. ((v1.0, (v1.1.0, v1.1.1.0)), λ _. v1.1.1.1)
  after_flush-Goes (some packet_write) s (v, done) = (v, λ e. cc e)

  flush_turn-Goes : (s : Receiver) → IsReceiver H B Q s → Always (Goes true) (flush_turn world s)
  unfolding flush_file
  flush_turn-Goes s (w, (b, q)) =
      Always-bind (Goes none) (Goes true) (flush_file world s) _
        (flush_loop-Goes 0 s.window.list s w.held (w, (b, q))) λ r v1. after_flush-Goes r.0 r.1 v1

  turn-Goes :
      (t : Turn) (s : Receiver)
      → Brings world.libs H B t
      → IsReceiver H B Q s
      → Always (Goes true) (turn world t s)
  unfolding turn
  turn-Goes (incoming datagram) s h v =
      Always-bind (IsReceiver H B Q) (Goes true) (receive_turn world datagram s) _
        (receive_turn-IsReceiver world mem H B keeps Q datagram s h v) flush_turn-Goes
  turn-Goes outgoing s h v =
      Always-if (Goes true) s.resent_ack _ (some (false, s))
        (Always-bind (IsReceiver H B Q) (Goes true) (acknowledge world s) _
          (acknowledge-IsReceiver world mem H B keeps Q s v) λ s1 v1. (v1, λ e. cc e))
        (v, λ e. cc e)

  stop_or :
      (eof_wrote : Bool) (s : Receiver) (rest : Option (Bool × Receiver))
      → Goes true (eof_wrote, s)
      → Always (Goes true) rest
      → Always (Goes true) (elim eof_wrote [ true ↦ some (true, s) | false ↦ rest ])
  stop_or true s rest v h = v
  stop_or false s rest v h = h

  run_lem :
      (turns : List Turn) (s : Receiver)
      → All (Brings world.libs H B) turns
      → IsReceiver H B Q s
      → Always (Goes true) (read_write_receiver world turns s)
  unfolding read_write_receiver
  run_lem [] s h v = (v, λ e. cc e)
  run_lem (t ∷ ts) s (h, hs) v =
      Always-bind (Goes true) (Goes true) (turn world t s) _ (turn-Goes t s h v)
        λ r v1. stop_or r.0 r.1 (read_write_receiver world ts r.1) v1 (run_lem ts r.1 hs v1.0)

  pub initial-Goes :
      (turns : List Turn) (buffer : List ℕ)
      → All (Brings world.libs H B) turns
      → B buffer
      → Q 0 []
      → (eof_wrote : Bool) × (s : Receiver) × (read_write_receiver world turns (initial buffer)
          ≡ some (eof_wrote, s))
        × IsReceiver H B Q s
        × (eof_wrote ≡ true → End s.window.seqnum_head s.output)
  unfolding initial
  initial-Goes turns buffer h b q =
      let start : IsWindow H (initial buffer).window = record {
        head = omega arith;
        low = omega arith;
        high = omega arith;
        held = tt;
      } in
      let (r, e, v) =
        Always-some (Goes true) _ (run_lem turns (initial buffer) h (start, (b, q))) in
      (r.0, r.1, e, v.0, v.1)
