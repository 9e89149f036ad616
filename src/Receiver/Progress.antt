-- ===== src/Receiver/Progress.antt =====
-- The next packet of a file at the receiver of src/read-write/read_write_receiver.c.
pub mod Arrival
pub mod Transfer
use projet_trtp.Base.{
  append_nil, take_all, ℕ, zero, suc, ◌+◌, min, ◌%◌, ◌^◌, ◌≤◌, ◌<◌, ◌≡◌, ◌≢◌, refl, sym, subst, ◌∙◌,
  ap, Bool, true, false, List, [], ◌∷◌, ◌++◌, Option, none, some, length, take, drop, arith, ◌==◌,
  ◌||◌, not, if◌then◌else◌, ==_refl, ne→==, leb, ltb, lt→ltb,
}
use projet_trtp.Base.Bytes.{take_exactly, take_exactly_all}
use projet_trtp.Packet.Struct.{StatusCode, ptype_data, pkt_ok, block, Pkt, Libs}
use projet_trtp.Packet.Access.{pkt_zero, pkt_new, pkt_get_payload}
use projet_trtp.Packet.Decode.{pkt_decode, payload_bytes, crc_of}
use projet_trtp.Packet.Encode.{pkt_encode, encode_header}
use projet_trtp.Packet.RoundTrip.{decode-encode}
use projet_trtp.Packet.RoundTrip.Wire.{IsSendable}
use projet_trtp.Window.{WindowPkt, is_in_window, distance}
use projet_trtp.Window.ReceiverTests.{is_in_window_lem}
use projet_trtp.Receiver.{World, Stats, Receiver, initial, overwrite}
use projet_trtp.Receiver.Response.{increase_window}
use projet_trtp.Receiver.Insert.{insert, linked_list_add_increasing, check_in_window}
use projet_trtp.Receiver.Receive.{
  receive_data, decoded, packet, data_packet, added, count_data, receive_bytes, read_datagram,
}
use projet_trtp.Receiver.Flush.{flush_file}
use projet_trtp.Receiver.Flushes.{WritesAll, Flushed, flush_file-IsRun}
use projet_trtp.Receiver.Loop.{Turn, incoming, turn, receive_turn, flush_turn, read_write_receiver}

-- A PTYPE_DATA packet as the sender makes it.
abbrev pub data_pkt : (window seqnum timestamp : ℕ) → List ℕ → Pkt
data_pkt window seqnum timestamp bytes = record pkt_zero {
  type = ptype_data;
  window = window;
  length = length bytes;
  seqnum = seqnum;
  timestamp = timestamp;
  payload = block bytes;
}

-- The same with the CRCs of the datagram.
abbrev pub with_crcs : Libs → Pkt → List ℕ → Pkt
with_crcs libs pkt bytes = record pkt {
  crc1 = crc_of libs (encode_header pkt);
  crc2 = crc_of libs bytes;
}

-- A receiver that waits for the next packet, with nothing in its list.
pub record IsWaiting (s : Receiver) : Type 0 where
  pub head : s.window.seqnum_head < 256
  pub low : 1 ≤ s.window.windowsize
  pub high : s.window.windowsize ≤ 31
  pub empty : s.window.list ≡ []
  pub more : s.eof_reached ≡ false

-- The state behind the reception of the packet that is waited for.
abbrev pub got : Pkt → List ℕ → Receiver → Receiver
got pkt out s =
    let counted = count_data (record s { buffer = overwrite out s.buffer }) in
    record counted {
      window = increase_window (record s.window { list = pkt ∷ []; seqnum_tail = pkt.seqnum });
      resent_ack = false;
    }

head_inside : (s : Receiver) → IsWaiting s → is_in_window s.window s.window.seqnum_head ≡ true
head_inside s v =
    is_in_window_lem s.window s.window.seqnum_head v.head v.low v.high v.head ∙ ground arith

grown_head : (window : WindowPkt) → (increase_window window).seqnum_head ≡ window.seqnum_head
unfolding increase_window
grown_head window = ground arith

grown_list : (window : WindowPkt) → (increase_window window).list ≡ window.list
unfolding increase_window
grown_list window = ground arith

grown_size :
    (window : WindowPkt)
    → window.windowsize ≤ 31
    → (increase_window window).windowsize ≡ min 31 (window.windowsize + 1)
unfolding increase_window
grown_size window h = ground arith

module _ (world : World) (mem : (k : ℕ) → world.libs.malloc k ≡ true) where
  add_next :
      (pkt : Pkt) (s : Receiver)
      → s.window.list ≡ []
      → linked_list_add_increasing world.libs pkt s
        ≡ some (
          true,
          record s { window = record s.window { list = pkt ∷ []; seqnum_tail = pkt.seqnum } },
        )
  unfolding linked_list_add_increasing insert
  add_next pkt s e = rw (linked_list_add_increasing, e, insert, mem 16)

  data_next :
      (pkt : Pkt) (out : List ℕ) (s : Receiver)
      → IsWaiting s
      → pkt.seqnum ≡ s.window.seqnum_head
      → pkt.length ≢ 0
      → data_packet world pkt (record s { buffer = overwrite out s.buffer }) ≡ some (got pkt out s)
  unfolding data_packet check_in_window added
  data_next pkt out s v here full =
      let inside : is_in_window s.window pkt.seqnum ≡ true =
        ap (is_in_window s.window) here ∙ head_inside s v in
      let counted = count_data (record s { buffer = overwrite out s.buffer }) in
      let at_head : (s.window.seqnum_head == pkt.seqnum) ≡ true =
        ap (λ (k : ℕ). s.window.seqnum_head == k) here ∙ ==_refl s.window.seqnum_head in
      rw (
        data_packet,
        check_in_window,
        inside,
        add_next pkt counted v.empty,
        added,
        ne→== pkt.length 0 full,
        at_head,
      )

  read_next :
      (out : List ℕ) (s : Receiver)
      → length out ≤ 528
      → read_datagram (some out) s.buffer ≡ (overwrite out s.buffer, length out)
  read_next out s size =
      ap (λ (l : List ℕ). (overwrite l s.buffer, length l)) (take_all 528 out size)

  decode_next :
      (pkt : Pkt) (out : List ℕ) (s : Receiver)
      → ((rest : List ℕ)
          → pkt_decode world.libs (out ++ rest) (length out) pkt_zero ≡ some (pkt_ok, pkt))
      → receive_bytes world s (overwrite out s.buffer, length out)
        ≡ decoded world pkt_ok pkt (record s { buffer = overwrite out s.buffer })
  unfolding pkt_new
  decode_next pkt out s d = rw (receive_bytes, pkt_new, mem 24, d (drop (length out) s.buffer))

  flushed :
      (s1 s' : Receiver) (n : ℕ)
      → flush_file world s1 ≡ some (some n, s')
      → flush_turn world s1 ≡ some (false, s')
  flushed s1 s' n e = rw (flush_turn, e)

  module _ (window timestamp : ℕ) (bytes out : List ℕ) (s : Receiver) (v : IsWaiting s) where
    abbrev sent : Pkt
    sent = data_pkt window s.window.seqnum_head timestamp bytes

    pub receive_next :
        length bytes ≢ 0
        → length out ≤ 528
        → ((rest : List ℕ)
            → pkt_decode world.libs (out ++ rest) (length out) pkt_zero
              ≡ some (pkt_ok, with_crcs world.libs sent bytes))
        → receive_data world (some out) s ≡ some (got (with_crcs world.libs sent bytes) out s)
    unfolding receive_data decoded packet
    receive_next full size d =
        ap (receive_bytes world s) (read_next out s size)
        ∙ decode_next (with_crcs world.libs sent bytes) out s d
        ∙ data_next (with_crcs world.libs sent bytes) out s v refl full

    -- The state behind the turn.
    pub record Advanced (s' : Receiver) : Type 0 where
      pub output : s'.output ≡ s.output ++ bytes
      pub head : s'.window.seqnum_head ≡ (s.window.seqnum_head + 1) % 256
      pub windowsize : s'.window.windowsize ≡ min 31 (s.window.windowsize + 1)
      pub waiting : IsWaiting s'

    pub flush_next :
        WritesAll world
        → length bytes ≢ 0
        → (s' : Receiver) × (flush_turn world (got (with_crcs world.libs sent bytes) out s)
            ≡ some (false, s'))
          × Advanced s'
    unfolding flush_file pkt_get_payload
    flush_next all full =
        let pkt : Pkt = with_crcs world.libs sent bytes in
        let s1 : Receiver = got pkt out s in
        let arrived : WindowPkt = record s.window { list = pkt ∷ []; seqnum_tail = pkt.seqnum } in
        let head = grown_head arrived in
        let small = v.head in
        let (s', e, f) =
          flush_file-IsRun world (pkt ∷ []) [] bytes s1 all (omega arith) (grown_list arrived)
            (
              sym head,
              full,
              (bytes, [], take_exactly_all (length bytes) bytes refl, sym (append_nil bytes), refl),
            )
            tt in
        let size = f.windowsize ∙ grown_size arrived v.high in
        let low = v.low in
        (
          s',
          flushed s1 s' 1 e,
          record {
            output = f.output;
            head = f.head ∙ ap (λ (k : ℕ). (k + 1) % 256) head;
            windowsize = size;
            waiting = record {
              head = let h = f.head in omega arith;
              low = omega arith;
              high = omega arith;
              empty = f.list;
              more = f.eof_reached ∙ v.more;
            };
          },
        )
