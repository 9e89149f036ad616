-- ===== src/Sender/Sound/Reads.antt =====
-- What a round may find, and the part of it under POLLIN, of src/read-write/read_write_sender.c.
use projet_trtp.Base.{
  ℕ, ◌+◌, ◌≤◌, ◌≡◌, ◌⊎◌, inl, inr, refl, ap, ◌∙◌, Bool, true, false, ◌&&◌, List, [], ◌∷◌, Option,
  none, some, Bool-cases, ◌==◌, length, take, All, arith, if◌then◌else◌,
}
use projet_trtp.Base.Bytes.{IsByte, All-FirstByte, FirstByte-take}
use projet_trtp.Packet.Struct.{
  Ptypes, ptype_fec, ptype_data, ptype_ack, ptype_nack, StatusCode, pkt_ok, e_crc, e_type, e_tr,
  e_length, e_window, e_seqnum, e_nomem, e_noheader, e_unconsistent, Pkt, Libs,
}
use projet_trtp.Packet.Access.{pkt_zero, pkt_new}
use projet_trtp.Packet.Decode.{pkt_decode}
use projet_trtp.Receiver.Receive.{read_datagram}
use projet_trtp.Packet.Total.{decode-Accepted}
use projet_trtp.Window.{is_in_sender_window}
use projet_trtp.Receiver.{overwrite}
use projet_trtp.Receiver.Always.{Always, Always-bind, Always-if}
use projet_trtp.Receiver.Sound.{IsBuffer}
use projet_trtp.Receiver.Sound.Keep.{overwrite-IsBuffer}
use projet_trtp.Sender.{System, Sender}
use projet_trtp.Sender.Acks.{ack_window, update_window}
use projet_trtp.Sender.Loop.{
  Ready, write_turn, ignore_packet, nack_packet, after_ack, ack_packet, packet, decoded, read_turn,
  incoming_turn, turn,
}
use projet_trtp.Sender.Pieces.Filled.{BytesRead}
use projet_trtp.Sender.Sound.{IsBusy, LetsEnd, IsSender, IsOpen}
use projet_trtp.Sender.Sound.Acked.{
  LetsShrink, Fits, wider, update_window-IsBusy, ack_window-IsSender,
}
use projet_trtp.Sender.Sound.Writes.{LetsFill, write_turn-IsBusy}

abbrev pub IsIncoming : Option (Option (List ℕ)) → Type 0
IsIncoming none = Unit {0}
IsIncoming (some none) = Unit {0}
IsIncoming (some (some datagram)) = All IsByte datagram

-- What comes in consists of bytes, and nothing comes in a round that cannot write.
abbrev pub IsRound : Ready → Type 0
IsRound ready = ((ready.writable ≡ true) ⊎ (ready.incoming ≡ none)) × IsIncoming ready.incoming

-- The invariant behind a round: unless the loop is left, the list is empty only with the end of the file
-- still to come.
abbrev pub Goes :
    System
    → (E : ℕ → Type 0) → (K : (tail global : ℕ) (eof last : Bool) → Type 0) → (w : ℕ)
    → Bool × Sender
    → Type 0
Goes system E K w (left, s) = IsSender system E K w s × (left ≡ false → IsOpen s)

-- What `pkt_decode` accepts of a datagram announces a size that fits.
abbrev pub Announces : Libs → (Shrinks : Type 0) → (w w' : ℕ) → Option (Option (List ℕ)) → Type 0
Announces libs Shrinks w w' none = Unit {0}
Announces libs Shrinks w w' (some datagram) =
    (old : List ℕ) (pkt : Pkt)
    → IsBuffer old
    → pkt_decode libs (read_datagram datagram old).0 (read_datagram datagram old).1 pkt_zero
      ≡ some (pkt_ok, pkt)
    → Fits Shrinks w w' pkt.window

module _ (system : System) (mem : (k : ℕ) → system.libs.malloc k ≡ true)
    (sends : (sent : List (List ℕ)) (bytes : List ℕ) → system.send sent bytes ≡ true)
    (reads : (offset : ℕ)
      → (bytes : List ℕ) × (system.pread offset ≡ some bytes) × (length bytes ≤ 512))
    (first : BytesRead system) (E : ℕ → Type 0) (K : (tail global : ℕ) (eof last : Bool) → Type 0)
    (Shrinks : Type 0) (fills : LetsFill system E K) (lets : LetsShrink K Shrinks) (w w' : ℕ)
    (ends : LetsEnd E K) (grows : w ≤ w') where
  wide : (s : Sender) → IsBusy system E K w s → IsBusy system E K w' s
  wide s v = wider system mem sends E K Shrinks w w' s grows v

  narrow : (s : Sender) → IsSender system E K w s → IsSender system E K w' s
  narrow s v =
      let bound = v.bound in
      record {
        low = v.low;
        high = v.high;
        bound = omega arith;
        pkts = v.pkts;
        outs = v.outs;
        buffer = v.buffer;
        state = v.state;
      }

  Busy-Goes : (s : Sender) → IsBusy system E K w' s → Goes system E K w' (false, s)
  Busy-Goes s (v, full) = (v, λ _ _. full)

  nack-Goes :
      (pkt : Pkt) (s : Sender)
      → IsBusy system E K w' s
      → Goes system E K w' (false, nack_packet pkt s)
  nack-Goes pkt s v = elim (Bool-cases (is_in_sender_window s.window pkt.seqnum)) [
    | inl inside ↦ rw (nack_packet, inside) (Busy-Goes s v)
    | inr outside ↦ rw (nack_packet, outside) (Busy-Goes s v)
  ]

  left_or_open :
      (s : Sender)
      → IsSender system E K w' s
      → Goes system E K w' (s.last_pkt && (length s.window.list == 0), s)
  left_or_open s v = (
    v,
    λ stays last empty.
        let size : length s.window.list ≡ 0 = ap length empty in absurd (ground arith),
  )

  after_ack-Goes :
      (retval : Option ℕ) (s : Sender)
      → IsSender system E K w' s
      → Goes system E K w' (after_ack retval s)
  after_ack-Goes none s v = left_or_open (ignore_packet s) v
  after_ack-Goes (some n) s v = left_or_open s v

  ack-Goes :
      (pkt : Pkt) (s : Sender)
      → IsBusy system E K w' s
      → Always (Goes system E K w') (ack_packet system pkt s)
  ack-Goes pkt s v =
      let counted : Sender = record s {
        stats = record s.stats { ack_received = s.stats.ack_received + 1 };
      } in
      Always-bind (λ r. IsSender system E K w' r.1) (Goes system E K w')
        (ack_window system pkt.seqnum counted) _
        (ack_window-IsSender system mem sends E K Shrinks w' pkt.seqnum counted v)
        λ r v1. after_ack-Goes r.0 r.1 v1

  by_type :
      (type : Ptypes) (pkt : Pkt) (s : Sender)
      → IsBusy system E K w' s
      → Always (Goes system E K w') (elim type [
        | ptype_nack ↦ some (false, nack_packet pkt s)
        | ptype_ack ↦ ack_packet system pkt s
        | _ ↦ some (false, s)
      ])
  by_type ptype_nack pkt s v = nack-Goes pkt s v
  by_type ptype_ack pkt s v = ack-Goes pkt s v
  by_type ptype_data pkt s v = Busy-Goes s v
  by_type ptype_fec pkt s v = Busy-Goes s v

  packet-Goes :
      (pkt : Pkt) (s : Sender)
      → Fits Shrinks w w' pkt.window
      → IsBusy system E K w s
      → Always (Goes system E K w') (packet system pkt s)
  unfolding packet
  packet-Goes pkt s small v =
      Always-bind (IsBusy system E K w') (Goes system E K w') (update_window pkt.window s) _
        (update_window-IsBusy system mem sends E K Shrinks w w' pkt.window s lets grows small v)
        λ s1 v1. by_type pkt.type pkt s1 v1

  decoded-Goes :
      (status : StatusCode) (pkt : Pkt) (s : Sender)
      → (status ≡ pkt_ok → Fits Shrinks w w' pkt.window)
      → IsBusy system E K w s
      → Always (Goes system E K w') (decoded system status pkt s)
  decoded-Goes pkt_ok pkt s small v =
      Always-if (Goes system E K w') (pkt.tr == 0) (packet system pkt s)
        (some (false, ignore_packet s)) (packet-Goes pkt s (small refl) v) (Busy-Goes s (wide s v))
  decoded-Goes e_crc pkt s small v = Busy-Goes s (wide s v)
  decoded-Goes e_type pkt s small v = Busy-Goes s (wide s v)
  decoded-Goes e_tr pkt s small v = Busy-Goes s (wide s v)
  decoded-Goes e_length pkt s small v = Busy-Goes s (wide s v)
  decoded-Goes e_window pkt s small v = Busy-Goes s (wide s v)
  decoded-Goes e_seqnum pkt s small v = Busy-Goes s (wide s v)
  decoded-Goes e_nomem pkt s small v = Busy-Goes s (wide s v)
  decoded-Goes e_noheader pkt s small v = Busy-Goes s (wide s v)
  decoded-Goes e_unconsistent pkt s small v = Busy-Goes s (wide s v)

  with_buffer :
      (s : Sender) (copybuf : List ℕ)
      → IsBuffer copybuf
      → IsBusy system E K w s
      → IsBusy system E K w (record s { copybuf = copybuf; last_rst = 0 })
  with_buffer s copybuf b (v, full) = (
    record {
      low = v.low;
      high = v.high;
      pkts = v.pkts;
      outs = v.outs;
      buffer = b;
      bound = v.bound;
      state = v.state;
    },
    full,
  )

  read_turn-Goes :
      (s : Sender) (copybuf : List ℕ) (len : ℕ)
      → IsBuffer copybuf
      → ((pkt : Pkt)
          → pkt_decode system.libs copybuf len pkt_zero ≡ some (pkt_ok, pkt)
          → Fits Shrinks w w' pkt.window)
      → IsBusy system E K w s
      → Always (Goes system E K w') (read_turn system s (copybuf, len))
  unfolding read_turn pkt_new
  read_turn-Goes s [] len (size, f) fits v = absurd (omega arith)
  read_turn-Goes s (b ∷ bs) len (size, f) fits v =
      let (status, pkt, e, a) = decode-Accepted system.libs mem b bs len f size in
      rw (read_turn, mem 24, e)
        (decoded-Goes status pkt (record s { copybuf = b ∷ bs; last_rst = 0 })
          (λ ok. fits pkt (e ∙ ap (λ (k : StatusCode). some (k, pkt)) ok))
          (with_buffer s (b ∷ bs) (size, f) v))

  incoming_turn-Goes :
      (incoming : Option (Option (List ℕ))) (s : Sender)
      → IsIncoming incoming
      → Announces system.libs Shrinks w w' incoming
      → IsBusy system E K w s
      → Always (Goes system E K w') (incoming_turn system incoming s)
  incoming_turn-Goes none s bytes says v = Busy-Goes s (wide s v)
  incoming_turn-Goes (some none) s bytes says (v, full) =
      read_turn-Goes s s.copybuf _ v.buffer (λ pkt. says s.copybuf pkt v.buffer) (v, full)
  incoming_turn-Goes (some (some datagram)) s bytes says (v, full) =
      read_turn-Goes s (overwrite (take 528 datagram) s.copybuf) _
        (overwrite-IsBuffer (take 528 datagram) s.copybuf
          (FirstByte-take 528 datagram (All-FirstByte datagram bytes)) v.buffer)
        (λ pkt. says s.copybuf pkt v.buffer) (v, full)

  after_write :
      (incoming : Option (Option (List ℕ))) (left : Bool) (s : Sender)
      → IsIncoming incoming
      → Announces system.libs Shrinks w w' incoming
      → IsBusy system E K w s
      → Always
          (Goes system E K w')
          (elim left [ true ↦ some (true, s) | false ↦ incoming_turn system incoming s ])
  after_write incoming true s bytes says v = ((wide s v).0, λ e. cc e)
  after_write incoming false s bytes says v = incoming_turn-Goes incoming s bytes says v

  -- A round, on what `poll` finds.
  by_poll :
      (writable : Bool) (incoming : Option (Option (List ℕ))) (s : Sender)
      → (writable ≡ true) ⊎ (incoming ≡ none)
      → IsIncoming incoming
      → Announces system.libs Shrinks w w' incoming
      → IsSender system E K w s
      → IsOpen s
      → Always
          (Goes system E K w')
          (elim (if writable then write_turn system false s else some (false, s)) [
            | none ↦ none
            | some (left, s1) ↦ elim left [
              | true ↦ some (true, s1)
              | false ↦ incoming_turn system incoming s1
            ]
          ])
  by_poll true incoming s quiet bytes says v open_file =
      Always-bind (λ r. IsBusy system E K w r.1) (Goes system E K w') (write_turn system false s) _
        (write_turn-IsBusy system mem sends reads first E K w s fills ends v open_file)
        λ r v1. after_write incoming r.0 r.1 bytes says v1
  by_poll false incoming s (inl e) bytes says v open_file = absurd (cc e)
  by_poll false none s (inr e) bytes says v open_file = (narrow s v, λ _. open_file)
  by_poll false (some datagram) s (inr e) bytes says v open_file = absurd (cc e)

  pub turn-Goes :
      (ready : Ready) (s : Sender)
      → IsRound ready
      → Announces system.libs Shrinks w w' ready.incoming
      → IsSender system E K w s
      → IsOpen s
      → Always (Goes system E K w') (turn system false ready s)
  unfolding turn
  turn-Goes ready s (quiet, bytes) says v open_file =
      by_poll ready.writable ready.incoming s quiet bytes says v open_file
