-- ===== src/Receiver/Sound/Handlers.antt =====
-- The handlers and the loop of src/read-write/read_write_receiver.c keep the invariant, whatever comes
-- in.
use projet_trtp.Base.{
  ltb, ℕ, ◌∙◌, ap, ◌≡◌, ◌≢◌, refl, inl, inr, true, false, Bool, List, [], ◌∷◌, not, ◌&&◌, Option,
  none, some, arith, Bool-cases, ◌==◌,
}
use projet_trtp.Base.Bytes.{take_exactly_all, length-take_exactly}
use projet_trtp.Packet.Struct.{
  Ptypes, ptype_fec, ptype_data, ptype_ack, ptype_nack, type_is, StatusCode, pkt_ok, e_crc, e_type,
  e_tr, e_length, e_window, e_seqnum, e_nomem, e_noheader, e_unconsistent, Pkt, Libs,
}
use projet_trtp.Packet.Access.{pkt_zero, pkt_get_payload}
use projet_trtp.Packet.Decode.{pkt_decode, payload_bytes}
use projet_trtp.Packet.Total.{decode-Accepted}
use projet_trtp.Window.{is_in_window}
use projet_trtp.Receiver.{World, Receiver}
use projet_trtp.Receiver.Always.{Always, Always-bind, Always-if}
use projet_trtp.Receiver.Response.{increase_window, send_troncated_nack}
use projet_trtp.Receiver.Insert.{insert, store, linked_list_add_increasing, check_in_window}
use projet_trtp.Receiver.Receive.{refuse, bad_crc, added, count_data, data_packet, packet, decoded}
use projet_trtp.Receiver.Sound.{IsHeld, KeepsBuffer, IsReceiver}
use projet_trtp.Receiver.Sound.Keep.{
  AllInserted, All-insert, increase_window-IsWindow, send_troncated_nack-IsReceiver,
}

-- The payload of a packet in the list can be read.
pub payload_lem :
    (libs : Libs) (pkt : Pkt)
    → IsHeld libs pkt
    → pkt.length ≢ 0
    → (own : List ℕ) × (payload_bytes pkt.length (pkt_get_payload pkt) ≡ some own)
unfolding pkt_get_payload
payload_lem libs pkt (kind, (bytes, v)) more =
    let c = v.content kind more in
    (
      c.payload,
      rw (pkt_get_payload, kind, c.untruncated, c.held)
          (take_exactly_all pkt.length c.payload
            (length-take_exactly pkt.length _ c.payload c.payload_read)),
    )

module _ (world : World) (mem : (k : ℕ) → world.libs.malloc k ≡ true) (H : Pkt → Type 0)
    (B : List ℕ → Type 0) (keeps : KeepsBuffer world.libs B) (Q : ℕ → List ℕ → Type 0) where
  abbrev Good : Receiver → Type 0
  Good s = IsReceiver H B Q s

  grown_head :
      (s : Receiver)
      → Q s.window.seqnum_head s.output
      → Q (increase_window s.window).seqnum_head s.output
  unfolding increase_window
  grown_head s q = elim (Bool-cases (ltb s.window.windowsize 31)) [
    | inl more ↦ rw (increase_window, more) q
    | inr full ↦ rw (increase_window, full) q
  ]

  grow : (s : Receiver) → Good s → Good (record s { window = increase_window s.window })
  grow s (w, (b, q)) = (increase_window-IsWindow H s.window w, (b, grown_head s q))

  added-IsReceiver : (pkt : Pkt) (new : Bool) (s : Receiver) → Good s → Good (added pkt new s)
  unfolding added
  added-IsReceiver pkt false s v = v
  added-IsReceiver pkt true s v = elim (Bool-cases (pkt.length == 0)) [
    | inl end ↦ elim (Bool-cases (s.window.seqnum_head == pkt.seqnum)) [
      | inl head ↦ rw (added, end, head) (grow s v)
      | inr other ↦ rw (added, end, other) v
    ]
    | inr more ↦ elim (Bool-cases (s.window.seqnum_head == pkt.seqnum)) [
      | inl head ↦ rw (added, more, head) (grow s v)
      | inr other ↦ rw (added, more, other) v
    ]
  ]

  store-IsReceiver :
      (pkt : Pkt) (s : Receiver) (o : Option (Bool × List Pkt))
      → Good s
      → AllInserted H o
      → Always (λ r. Good r.1) (store world.libs pkt s o)
  store-IsReceiver pkt s none v h = v
  store-IsReceiver pkt s (some (at_end, list)) (w, b) h =
      rw (mem 16) (record { head = w.head; low = w.low; high = w.high; held = h }, b)

  pub refuse-IsReceiver : (pkt : Pkt) (s : Receiver) → Good s → Always Good (refuse world pkt s)
  refuse-IsReceiver pkt s v =
      Always-bind (λ r. Good r.1) Good (send_troncated_nack world pkt s) _
        (send_troncated_nack-IsReceiver world mem H B keeps Q pkt s v) λ r v'. v'

  bad_crc-IsReceiver : (pkt : Pkt) (s : Receiver) → Good s → Always Good (bad_crc world pkt s)
  unfolding bad_crc check_in_window
  bad_crc-IsReceiver pkt s v = elim (Bool-cases (type_is pkt.type ptype_data && (pkt.tr == 1))) [
    | inr other ↦ rw (bad_crc, other) v
    | inl cut ↦ elim (Bool-cases (is_in_window s.window pkt.seqnum)) [
      | inl inside ↦ rw (bad_crc, check_in_window, cut, inside) (refuse-IsReceiver pkt s v)
      | inr outside ↦ rw (bad_crc, check_in_window, cut, outside) v
    ]
  ]

  add-IsReceiver :
      (pkt : Pkt) (s : Receiver)
      → H pkt
      → Good s
      → Always (λ r. Good r.1) (linked_list_add_increasing world.libs pkt s)
  unfolding linked_list_add_increasing
  add-IsReceiver pkt s h (w, b) =
      store-IsReceiver pkt s (insert s.window pkt s.window.list) (w, b)
        (All-insert H s.window pkt s.window.list h w.held)

  data_packet-IsReceiver :
      (pkt : Pkt) (s : Receiver) → H pkt → Good s → Always Good (data_packet world pkt s)
  unfolding data_packet check_in_window
  data_packet-IsReceiver pkt s h v = elim (Bool-cases (is_in_window s.window pkt.seqnum)) [
    | inr outside ↦ rw (data_packet, check_in_window, outside) v
    | inl inside ↦
        rw (data_packet, check_in_window, inside)
          (Always-bind (λ r. Good r.1) Good
            (linked_list_add_increasing world.libs pkt (count_data s)) _
            (add-IsReceiver pkt (count_data s) h v) λ r v'. added-IsReceiver pkt r.0 r.1 v')
  ]

  packet-IsReceiver :
      (type : Ptypes) (pkt : Pkt) (s : Receiver)
      → pkt.type ≡ type
      → (pkt.type ≡ ptype_data → H pkt)
      → Good s
      → Always Good (packet world pkt s)
  unfolding packet
  packet-IsReceiver ptype_fec pkt s kind a v = rw (packet, kind) v
  packet-IsReceiver ptype_ack pkt s kind a v = rw (packet, kind) v
  packet-IsReceiver ptype_nack pkt s kind a v = rw (packet, kind) v
  packet-IsReceiver ptype_data pkt s kind a v =
      rw (packet, kind)
        (Always-if Good (not (pkt.tr == 0)) (refuse world pkt s) (data_packet world pkt s)
          (refuse-IsReceiver pkt s v) (data_packet-IsReceiver pkt s (a kind) v))

  decoded-IsReceiver :
      (status : StatusCode) (pkt : Pkt) (s : Receiver)
      → (status ≡ pkt_ok → pkt.type ≡ ptype_data → H pkt)
      → Good s
      → Always Good (decoded world status pkt s)
  unfolding decoded
  decoded-IsReceiver e_crc pkt s a v = bad_crc-IsReceiver pkt s v
  decoded-IsReceiver pkt_ok pkt s a v = packet-IsReceiver pkt.type pkt s refl (a refl) v
  decoded-IsReceiver e_type pkt s a v = v
  decoded-IsReceiver e_tr pkt s a v = v
  decoded-IsReceiver e_length pkt s a v = v
  decoded-IsReceiver e_window pkt s a v = v
  decoded-IsReceiver e_seqnum pkt s a v = v
  decoded-IsReceiver e_nomem pkt s a v = v
  decoded-IsReceiver e_noheader pkt s a v = v
  decoded-IsReceiver e_unconsistent pkt s a v = v

  pub with_buffer :
      (buffer : List ℕ) (len : ℕ) (s : Receiver)
      → B buffer
      → ((pkt : Pkt)
          → pkt_decode world.libs buffer len pkt_zero ≡ some (pkt_ok, pkt)
          → pkt.type ≡ ptype_data
          → H pkt)
      → Good s
      → Always Good (elim (pkt_decode world.libs buffer len pkt_zero) [
        | none ↦ none
        | some (status, pkt') ↦ decoded world status pkt' (record s { buffer = buffer })
      ])
  with_buffer [] len s kept given v = let (size, f) = keeps.full [] kept in absurd (omega arith)
  with_buffer (b ∷ bs) len s kept given (w, (_, q)) =
      let (size, f) = keeps.full (b ∷ bs) kept in
      let (status, pkt, e, a) = decode-Accepted world.libs mem b bs len f size in
      rw e (
        decoded-IsReceiver status pkt (record s { buffer = b ∷ bs })
          (λ ok. given pkt (e ∙ ap (λ (k : StatusCode). some (k, pkt)) ok)) (w, (kept, q)))
