-- ===== src/Sender/Sound/Resent.antt =====
-- `resent_pkt` and `send_final_pkt` of src/read-write/read_write_sender.c keep the invariant.
use projet_trtp.Base.{
  Bool, false, ℕ, ◌+◌, ◌%◌, ◌^◌, ◌≤◌, ◌≡◌, ◌≢◌, inl, inr, refl, sym, subst, ap, ◌∙◌, true, List, [],
  ◌∷◌, ◌++◌, Option, some, Bool-cases, ltb, le→ltb, All, arith,
}
use projet_trtp.Packet.Struct.{ptype_data, StatusCode, pkt_ok, Pkt}
use projet_trtp.Packet.Access.{
  pkt_zero, pkt_new, pkt_set_type, pkt_set_tr, pkt_set_length, pkt_set_window, pkt_set_seqnum,
  pkt_set_timestamp,
}
use projet_trtp.Packet.Encode.{pkt_encode}
use projet_trtp.Packet.Encode.First.{encode-FirstByte}
use projet_trtp.Packet.Decode.Steps.{fields}
use projet_trtp.Receiver.{overwrite}
use projet_trtp.Receiver.Always.{Always}
use projet_trtp.Receiver.Sound.Keep.{overwrite-IsBuffer}
use projet_trtp.Sender.{System, Sender}
use projet_trtp.Sender.Buffer.{
  add_pkt, write_datagram, final_written, final_encoded, final_pkt, send_final_pkt,
}
use projet_trtp.Sender.Pieces.{encode_write_lem}
use projet_trtp.Sender.Resend.{timeout, elapsed, count_resent, resent_loop, resent_pkt}
use projet_trtp.Sender.Sound.{
  IsBusy, LetsEnd, IsOurs, IsOut, IsSender, IsOurs-encode, IsOurs-timestamp, All-append,
}

module _ (system : System) (mem : (k : ℕ) → system.libs.malloc k ≡ true)
    (sends : (sent : List (List ℕ)) (bytes : List ℕ) → system.send sent bytes ≡ true)
    (E : ℕ → Type 0) (K : (tail global : ℕ) (eof last : Bool) → Type 0) (w : ℕ) where
  -- A packet of the file goes out.
  pub sent-IsSender :
      (pkt : Pkt) (out : List ℕ) (s : Sender)
      → IsOurs system E pkt
      → pkt_encode system.libs pkt 528 ≡ some (pkt_ok, out)
      → IsSender system E K w s
      → IsSender system E K w
          (record s { copybuf = overwrite out s.copybuf; sent = s.sent ++ (out ∷ []) })
  sent-IsSender pkt out s ours e v = record {
    low = v.low;
    high = v.high;
    bound = v.bound;
    state = v.state;
    pkts = v.pkts;
    outs = All-append (IsOut system E) s.sent (out ∷ []) v.outs ((pkt, ours, e), tt);
    buffer = overwrite-IsBuffer out s.copybuf (encode-FirstByte system.libs pkt out e) v.buffer;
  }

  abbrev Busy : Sender → Type 0
  Busy s = IsBusy system E K w s

  pub with_list :
      (s : Sender) (list : List Pkt)
      → All (IsOurs system E) list
      → IsSender system E K w s
      → IsSender system E K w (record s { window = record s.window { list = list } })
  with_list s list ours v = record {
    low = v.low;
    high = v.high;
    bound = v.bound;
    state = v.state;
    pkts = ours;
    outs = v.outs;
    buffer = v.buffer;
  }

  not_nil : (before : List Pkt) (pkt : Pkt) (rest : List Pkt) → before ++ (pkt ∷ rest) ≢ []
  not_nil [] pkt rest e = cc e
  not_nil (p ∷ before) pkt rest e = cc e

  resent_loop-IsBusy :
      (before rest : List Pkt) (s : Sender)
      → All (IsOurs system E) before
      → All (IsOurs system E) rest
      → Busy s
      → Always Busy (resent_loop system before rest s)
  unfolding resent_loop pkt_set_timestamp
  resent_loop-IsBusy before [] s hb hr v = v
  resent_loop-IsBusy before (pkt ∷ rest) s hb (hp, hr) (v, full) =
      let time : ℕ = system.clock s.calls % 2 ^ 32 in
      let pkt' : Pkt = record pkt { timestamp = time } in
      let ours = IsOurs-timestamp system mem E pkt time (omega arith) hp in
      let (out, e) = IsOurs-encode system mem E pkt' ours in
      let s1 : Sender = record s {
        calls = s.calls + 1;
        window = record s.window { list = before ++ (pkt' ∷ rest) };
      } in
      let v1 =
        with_list s (before ++ (pkt' ∷ rest))
          (All-append (IsOurs system E) before (pkt' ∷ rest) hb (ours, hr)) v in
      elim (Bool-cases (ltb timeout (elapsed time pkt.timestamp))) [
        | inl late ↦
            rw (resent_loop, late, encode_write_lem system pkt' out s1 e sends)
              (resent_loop-IsBusy (before ++ (pkt' ∷ [])) rest
                (count_resent pkt'
                  (record s1 { copybuf = overwrite out s.copybuf; sent = s.sent ++ (out ∷ []) }))
                (All-append (IsOurs system E) before (pkt' ∷ []) hb (ours, tt)) hr
                (sent-IsSender pkt' out s1 ours e v1, not_nil before pkt' rest))
        | inr early ↦
            rw (resent_loop, early)
              (resent_loop-IsBusy (before ++ (pkt ∷ [])) rest (record s { calls = s.calls + 1 })
                (All-append (IsOurs system E) before (pkt ∷ []) hb (hp, tt)) hr (v, full))
      ]

  pub resent_pkt-IsBusy : (s : Sender) → Busy s → Always Busy (resent_pkt system s)
  unfolding resent_pkt
  resent_pkt-IsBusy s (v, full) = by_list s.window.list refl
    where
      by_list : (list : List Pkt) → s.window.list ≡ list → Always Busy (resent_pkt system s)
      by_list [] e = absurd (full e)
      by_list (pkt ∷ pkts) e =
          rw (resent_pkt, e) (resent_loop-IsBusy [] s.window.list s tt v.pkts (v, full))

  final_pkt_lem :
      (window seqnum timestamp : ℕ)
      → window ≤ 31
      → final_pkt window seqnum timestamp pkt_zero
        ≡ fields ptype_data 0 window 0 seqnum 0 0 timestamp
  unfolding final_pkt pkt_set_type pkt_set_tr pkt_set_length pkt_set_window pkt_set_seqnum
      pkt_set_timestamp
  final_pkt_lem window seqnum timestamp small =
      rw (final_pkt, pkt_set_window, le→ltb 31 window small)

  -- The state in which the packet is encoded.
  abbrev ending : Sender → Sender
  ending s = record s {
    window = record s.window { seqnum_tail = (s.window.seqnum_tail + 1) % 256 };
    calls = s.calls + 1;
  }

  send_final_pkt_lem :
      (s : Sender)
      → s.window.windowsize ≤ 31
      → send_final_pkt system s ≡ (
          let pkt : Pkt =
            fields ptype_data 0 s.window.windowsize 0
              ((s.window.seqnum_tail + 1) % 256)
              0
              0
              (system.clock s.calls % 2 ^ 32) in
          final_encoded system pkt (pkt_encode system.libs pkt 528) (ending s))
  unfolding send_final_pkt pkt_new
  send_final_pkt_lem s small =
      let seqnum : ℕ = (s.window.seqnum_tail + 1) % 256 in
      let time : ℕ = system.clock s.calls % 2 ^ 32 in
      let made : send_final_pkt system s
          ≡ final_encoded system (final_pkt s.window.windowsize seqnum time pkt_zero)
              (pkt_encode system.libs (final_pkt s.window.windowsize seqnum time pkt_zero) 528)
              (ending s) =
        rw (send_final_pkt, mem 24) in
      made
      ∙ ap (λ (pkt : Pkt). final_encoded system pkt (pkt_encode system.libs pkt 528) (ending s))
          (final_pkt_lem s.window.windowsize seqnum time small)

  final_encoded-IsBusy :
      (pkt : Pkt) (out : List ℕ) (s : Sender)
      → IsOurs system E pkt
      → pkt_encode system.libs pkt 528 ≡ some (pkt_ok, out)
      → IsSender system E K w (record s { last_pkt = true })
      → Always Busy (final_encoded system pkt (some (pkt_ok, out)) s)
  final_encoded-IsBusy pkt out s ours e v =
      rw (final_encoded, write_datagram, sends s.sent out, final_written, add_pkt, mem 16)
        (
          with_list
              (record s {
                last_pkt = true;
                copybuf = overwrite out s.copybuf;
                sent = s.sent ++ (out ∷ []);
              })
              (s.window.list ++ (pkt ∷ []))
              (All-append (IsOurs system E) s.window.list (pkt ∷ []) v.pkts (ours, tt))
              (sent-IsSender pkt out (record s { last_pkt = true }) ours e v),
          not_nil s.window.list pkt [],
        )

  -- `send_final_pkt` puts the packet with which the file ends behind the others.
  pub send_final_pkt-IsBusy :
      (s : Sender)
      → LetsEnd E K
      → s.eof_reached ≡ true
      → s.last_pkt ≡ false
      → IsSender system E K w s
      → Always Busy (send_final_pkt system (record s { last_pkt = true }))
  send_final_pkt-IsBusy s ends eof last v =
      let seqnum : ℕ = (s.window.seqnum_tail + 1) % 256 in
      let time : ℕ = system.clock s.calls % 2 ^ 32 in
      let pkt : Pkt = fields ptype_data 0 s.window.windowsize 0 seqnum 0 0 time in
      let (numbered, state) =
        ends s.window.seqnum_tail s.global_pkt s.eof_reached s.last_pkt eof last v.state in
      let ours : IsOurs system E pkt =
        inr (s.window.windowsize, time, seqnum, v.high, omega arith, omega arith, numbered, refl) in
      let (out, e) = IsOurs-encode system mem E pkt ours in
      let last_s : Sender = record s { last_pkt = true } in
      subst (Always Busy)
        (sym (
          send_final_pkt_lem last_s v.high
          ∙ ap (λ (o : Option (StatusCode × List ℕ)). final_encoded system pkt o (ending last_s))
              e))
        (final_encoded-IsBusy pkt out (ending last_s) ours e (record {
          low = v.low;
          high = v.high;
          bound = v.bound;
          pkts = v.pkts;
          outs = v.outs;
          buffer = v.buffer;
          state = state;
        }))
