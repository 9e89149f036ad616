-- ===== src/Receiver/Sound/Keep.antt =====
-- The operations of src/read-write/read_write_receiver.c on the window, the list and the buffer keep the
-- invariant.
use projet_trtp.Base.{
  ℕ, zero, suc, ◌%◌, ◌≡◌, refl, inl, inr, true, List, [], ◌∷◌, Option, none, some, arith,
  Bool-cases, Bool, ◌==◌, length, drop, take, All, length-append, length-drop, ltb, ltb→lt,
}
use projet_trtp.Base.Bytes.{FirstByte}
use projet_trtp.Packet.Struct.{
  Ptypes, ptype_fec, ptype_data, ptype_ack, ptype_nack, type_code, pkt_ok, Pkt, Libs,
}
use projet_trtp.Packet.Encode.{pkt_encode, encode_start}
use projet_trtp.Packet.Access.{predict_header_length}
use projet_trtp.Window.{WindowPkt, is_seqnum_greater}
use projet_trtp.Receiver.{World, Receiver, overwrite}
use projet_trtp.Receiver.Always.{Always, Always-bind, Always-if}
use projet_trtp.Receiver.Shrink.{Shrunk, halved, drop_packets_lem}
use projet_trtp.Receiver.Answers.{answer, IsAnswer, answered, send_response_lem}
use projet_trtp.Receiver.Response.{
  increase_window, decrease_window, send_response, send_troncated_nack, send_ack,
}
use projet_trtp.Receiver.Insert.{insert}
use projet_trtp.Receiver.Sound.{IsWindow, IsBuffer, KeepsBuffer, IsReceiver}

module _ (P : Pkt → Type 0) where
  pub All-take : (n : ℕ) (list : List Pkt) → All P list → All P (take n list)
  All-take zero list h = tt
  All-take (suc n) [] h = tt
  All-take (suc n) (pkt ∷ pkts) (p, ps) = (p, All-take n pkts ps)

  -- The list that `insert` gives, if it gives one.
  abbrev pub AllInserted : Option (Bool × List Pkt) → Type 0
  AllInserted none = Unit {0}
  AllInserted (some (at_end, list)) = All P list

  behind :
      (current : Pkt) (o : Option (Bool × List Pkt))
      → P current
      → AllInserted o
      → AllInserted (elim o [ none ↦ none | some (at_end, list) ↦ some (at_end, current ∷ list) ])
  behind current none q h = tt
  behind current (some (at_end, list)) q h = (q, h)

  pub All-insert :
      (window : WindowPkt) (pkt : Pkt) (list : List Pkt)
      → P pkt
      → All P list
      → AllInserted (insert window pkt list)
  unfolding insert
  All-insert window pkt [] p ps = (p, tt)
  All-insert window pkt (current ∷ pkts) p (q, qs) =
      elim (Bool-cases (pkt.seqnum == current.seqnum)) [
        | inl same ↦ rw (insert, same) tt
        | inr other ↦ elim (Bool-cases (is_seqnum_greater current.seqnum pkt.seqnum window)) [
          | inl here ↦ rw (insert, other, here) (p, (q, qs))
          | inr later ↦
              rw (insert, other, later)
                (behind current (insert window pkt pkts) q (All-insert window pkt pkts p qs))
        ]
      ]

pub overwrite-IsBuffer :
    (new old : List ℕ) → FirstByte new → IsBuffer old → IsBuffer (overwrite new old)
overwrite-IsBuffer [] old f h = h
overwrite-IsBuffer (b ∷ bs) old f (size, g) = (
  omega (
    arith,
    length-append (b ∷ bs) (drop (suc (length bs)) old),
    length-drop (suc (length bs)) old,
  ),
  f,
)

pub increase_window-IsWindow :
    (H : Pkt → Type 0) (window : WindowPkt)
    → IsWindow H window
    → IsWindow H (increase_window window)
unfolding increase_window
increase_window-IsWindow H window v = ground arith

Shrunk-IsWindow :
    (H : Pkt → Type 0) (before after : WindowPkt)
    → IsWindow H before
    → Shrunk before after
    → IsWindow H after
Shrunk-IsWindow H before after v h = record {
  head = rw h.seqnum_head v.head;
  low = rw h.windowsize v.low;
  high = rw h.windowsize v.high;
  held = rw h.list (All-take H before.windowsize before.list v.held);
}

halved-IsWindow :
    (H : Pkt → Type 0) (s : Receiver)
    → IsWindow H s.window
    → ltb 4 s.window.windowsize ≡ true
    → IsWindow H (halved s)
halved-IsWindow H s w large = record {
  head = w.head;
  low = omega (arith, ltb→lt _ _ large);
  high = let h = w.high in omega arith;
  held = w.held;
}

-- The full size is kept by answers.
pub IsBuffer-KeepsBuffer : (libs : Libs) → KeepsBuffer libs IsBuffer
IsBuffer-KeepsBuffer libs = record {
  full = λ old b. b;
  answered = λ type window seqnum timestamp old kind b.
      overwrite-IsBuffer (encode_start libs (answer type window seqnum timestamp)) old (omega arith)
        b;
}

pub encode_answer :
    (libs : Libs) (type : Ptypes) (window seqnum timestamp : ℕ)
    → IsAnswer type
    → pkt_encode libs (answer type window seqnum timestamp) 528
      ≡ some (pkt_ok, encode_start libs (answer type window seqnum timestamp))
unfolding pkt_encode predict_header_length
encode_answer libs ptype_ack window seqnum timestamp kind = refl
encode_answer libs ptype_nack window seqnum timestamp kind = refl
encode_answer libs ptype_data window seqnum timestamp kind = absurd (ground arith)
encode_answer libs ptype_fec window seqnum timestamp kind = absurd (ground arith)

module _ (world : World) (mem : (k : ℕ) → world.libs.malloc k ≡ true) (H : Pkt → Type 0)
    (B : List ℕ → Type 0) (keeps : KeepsBuffer world.libs B) (Q : ℕ → List ℕ → Type 0) where
  abbrev Good : Receiver → Type 0
  Good s = IsReceiver H B Q s

  answered-IsReceiver :
      (type : Ptypes) (seqnum timestamp : ℕ) (s : Receiver) (out : List ℕ)
      → B (overwrite out s.buffer)
      → Good s
      → Good (answered world out s).1
  answered-IsReceiver type seqnum timestamp s out kept (w, (b, q)) =
      elim (Bool-cases (world.send s.sent out)) [
        | inl ok ↦ rw ok (w, (kept, q))
        | inr failed ↦ rw failed (w, (kept, q))
      ]

  pub send_response-IsReceiver :
      (type : Ptypes) (seqnum timestamp : ℕ) (s : Receiver)
      → IsAnswer type
      → Good s
      → Always (λ r. Good r.1) (send_response world (type_code type) seqnum timestamp s)
  send_response-IsReceiver type seqnum timestamp s kind (w, b) =
      rw
        (send_response_lem world mem type seqnum timestamp s _ kind w.high
          (encode_answer world.libs type s.window.windowsize seqnum timestamp kind))
        (answered-IsReceiver type seqnum timestamp s _
          (keeps.answered type s.window.windowsize seqnum timestamp s.buffer kind b.0) (w, b))

  pub send_ack-IsReceiver :
      (timestamp : ℕ) (s : Receiver) → Good s → Always (λ r. Good r.1) (send_ack world timestamp s)
  unfolding send_ack
  send_ack-IsReceiver timestamp s v =
      Always-bind (λ r. Good r.1) (λ r. Good r.1)
        (send_response world 2 s.window.seqnum_head timestamp s) _
        (send_response-IsReceiver ptype_ack s.window.seqnum_head timestamp s (inl refl) v)
        (λ r v'. Always-if (λ r. Good r.1) _ (some _) (some _) v' v')

  pub decrease_window-IsReceiver : (s : Receiver) → Good s → Always Good (decrease_window s)
  unfolding decrease_window
  decrease_window-IsReceiver s (w, (b, q)) = elim (Bool-cases (ltb 4 s.window.windowsize)) [
    | inl large ↦
        let (window, e, shrunk) = drop_packets_lem (halved s) (omega (arith, ltb→lt _ _ large)) in
        rw (decrease_window, large, e)
          (
            Shrunk-IsWindow H (halved s) window (halved-IsWindow H s w large) shrunk,
            (b, rw shrunk.seqnum_head q),
          )
    | inr small ↦ rw (decrease_window, small) (w, (b, q))
  ]

  pub send_troncated_nack-IsReceiver :
      (pkt : Pkt) (s : Receiver) → Good s → Always (λ r. Good r.1) (send_troncated_nack world pkt s)
  unfolding send_troncated_nack
  send_troncated_nack-IsReceiver pkt s v =
      Always-bind Good (λ r. Good r.1) (decrease_window _) _ (decrease_window-IsReceiver _ v)
        λ s1 v1.
          Always-bind (λ r. Good r.1) (λ r. Good r.1) (send_response world 3 _ _ s1) _
            (send_response-IsReceiver ptype_nack (pkt.seqnum % 256) pkt.timestamp s1 (inr refl) v1)
            λ r v2. Always-if (λ r. Good r.1) _ (some _) (some _) v2 v2
