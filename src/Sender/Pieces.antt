-- ===== src/Sender/Pieces.antt =====
-- One packet of `fill_window` of src/read-write/read_write_sender.c.
pub mod Rounds
pub mod Filled
use projet_trtp.Base.{
  ℕ, zero, suc, ◌+◌, ◌-◌, ◌*◌, ◌%◌, ◌^◌, ◌≤◌, ◌<◌, ◌≡◌, ◌≢◌, refl, ap, sym, ◌∙◌, ◌⊎◌, inl, inr,
  Bool, true, false, not, ◌&&◌, List, [], ◌∷◌, ◌++◌, Option, none, some, arith, length, drop, ltb,
  ◌==◌, ltb→lt, ltb→le, lt→ltb, le→ltb, ne→==, Bool-cases, if◌then◌else◌, length-append, append_nil,
  append_assoc, subst,
}
use projet_trtp.Base.Bytes.{take_exactly, take_exactly-append}
use projet_trtp.Packet.Struct.{ptype_data, pkt_ok, block, null, Pkt, Libs}
use projet_trtp.Packet.Access.{
  pkt_zero, pkt_new, pkt_set_payload, pkt_get_payload, pkt_set_type, pkt_set_seqnum, pkt_set_window,
  pkt_set_tr, pkt_set_length, replace_payload, release_payload, copy_payload, pkt_set_timestamp,
}
use projet_trtp.Packet.Encode.{pkt_encode}
use projet_trtp.Packet.RoundTrip.{decode-encode}
use projet_trtp.Packet.RoundTrip.Wire.{IsSendable}
use projet_trtp.Window.{WindowPkt}
use projet_trtp.Receiver.{overwrite}
use projet_trtp.Sender.{System, Stats, Sender, time_millis}
use projet_trtp.Sender.Buffer.{encode_write, add_pkt, write_datagram}
use projet_trtp.Sender.Fill.{
  data_header, data_pkt, set_head, send_data, read_piece, fill_piece, fill_round, fill_loop,
  fill_window,
}

-- A PTYPE_DATA packet as `fill_window` makes it.
abbrev pub piece : (window seqnum timestamp : ℕ) → List ℕ → Pkt
piece window seqnum timestamp bytes = record pkt_zero {
  type = ptype_data;
  window = window;
  length = length bytes;
  seqnum = seqnum;
  timestamp = timestamp;
  payload = block bytes;
}

header_lem :
    (window seqnum : ℕ)
    → window ≤ 31
    → data_header window seqnum pkt_zero
      ≡ record pkt_zero { type = ptype_data; window = window; seqnum = seqnum }
unfolding data_header pkt_set_type pkt_set_seqnum pkt_set_window pkt_set_tr
header_lem window seqnum small = rw (data_header, pkt_set_window, le→ltb 31 window small)

set_lem :
    (libs : Libs) (window seqnum n : ℕ) (bytes source : List ℕ)
    → libs.malloc n ≡ true
    → n ≢ 0
    → n ≤ 512
    → take_exactly n source ≡ some bytes
    → pkt_set_payload libs
        (record pkt_zero { type = ptype_data; window = window; seqnum = seqnum })
        source
        n
      ≡ some (
        pkt_ok,
        record pkt_zero {
          type = ptype_data;
          window = window;
          seqnum = seqnum;
          length = n;
          payload = block bytes;
        },
      )
unfolding pkt_set_payload
set_lem libs window seqnum n bytes source mem full fits copied = ground arith

payload_lem :
    (libs : Libs) (window seqnum : ℕ) (bytes rest : List ℕ)
    → ((k : ℕ) → libs.malloc k ≡ true)
    → window ≤ 31
    → length bytes ≢ 0
    → length bytes ≤ 512
    → pkt_set_payload libs (data_header window seqnum pkt_zero) (bytes ++ rest) (length bytes)
      ≡ some (pkt_ok, piece window seqnum 0 bytes)
payload_lem libs window seqnum bytes rest mem small full fits =
    ap (λ (pkt : Pkt). pkt_set_payload libs pkt (bytes ++ rest) (length bytes))
      (header_lem window seqnum small)
    ∙ set_lem libs window seqnum (length bytes) bytes (bytes ++ rest) (mem (length bytes)) full fits
        (take_exactly-append bytes rest)

pub data_pkt_lem :
    (system : System) (bytes rest : List ℕ) (s : Sender)
    → ((k : ℕ) → system.libs.malloc k ≡ true)
    → s.window.windowsize ≤ 31
    → s.copybuf ≡ bytes ++ rest
    → length bytes ≢ 0
    → length bytes ≤ 512
    → data_pkt system (length bytes) s
      ≡ some (
        piece s.window.windowsize (s.global_pkt % 256) (system.clock s.calls % 2 ^ 32) bytes,
        record s { calls = s.calls + 1 },
      )
unfolding data_pkt pkt_new pkt_set_timestamp
data_pkt_lem system bytes rest s mem small e full fits =
    let n : length bytes % 2 ^ 16 ≡ length bytes = omega arith in
    let filled =
      ap
        (λ (c : List ℕ).
          pkt_set_payload system.libs
            (data_header s.window.windowsize (s.global_pkt % 256) pkt_zero) c (length bytes))
        e
      ∙ payload_lem system.libs s.window.windowsize (s.global_pkt % 256) bytes rest mem small full
          fits in
    rw (data_pkt, pkt_new, mem 24, n, filled)

-- What the round leaves.
pub record Sent (libs : Libs) (s s' : Sender) (pkt : Pkt) : Type 0 where
  pub list : s'.window.list ≡ s.window.list ++ (pkt ∷ [])
  pub windowsize : s'.window.windowsize ≡ s.window.windowsize
  pub global_pkt : s'.global_pkt ≡ s.global_pkt + 1
  pub eof_reached : s'.eof_reached ≡ s.eof_reached
  pub tail : s'.window.seqnum_tail ≡ s.global_pkt % 256
  pub out : List ℕ
  pub encoded : pkt_encode libs pkt 528 ≡ some (pkt_ok, out)
  pub sent : s'.sent ≡ s.sent ++ (out ∷ [])
  pub last_pkt : s'.last_pkt ≡ s.last_pkt
  pub buffer : s'.copybuf ≡ overwrite out s.copybuf

pub encode_write_lem :
    (system : System) (pkt : Pkt) (out : List ℕ) (s : Sender)
    → pkt_encode system.libs pkt 528 ≡ some (pkt_ok, out)
    → ((sent : List (List ℕ)) (bytes : List ℕ) → system.send sent bytes ≡ true)
    → encode_write system pkt s
      ≡ some (
        true,
        record s { copybuf = out ++ drop (length out) s.copybuf; sent = s.sent ++ (out ∷ []) },
      )
unfolding encode_write
encode_write_lem system pkt out s e sends = rw (encode_write, e, write_datagram, sends s.sent out)

pub send_data_lem :
    (system : System) (pkt : Pkt) (out : List ℕ) (s : Sender)
    → ((k : ℕ) → system.libs.malloc k ≡ true)
    → pkt_encode system.libs pkt 528 ≡ some (pkt_ok, out)
    → ((sent : List (List ℕ)) (bytes : List ℕ) → system.send sent bytes ≡ true)
    → (s' : Sender) × (send_data system false pkt s ≡ some (true, s')) × Sent system.libs s s' pkt
unfolding send_data
send_data_lem system pkt out s mem e sends =
    let s1 : Sender = record s {
      window = record s.window { list = s.window.list ++ (pkt ∷ []) };
    } in
    (
      record s1 {
        copybuf = out ++ drop (length out) s.copybuf;
        sent = s.sent ++ (out ∷ []);
        window = record s1.window { seqnum_tail = s.global_pkt % 256 };
        global_pkt = s.global_pkt + 1;
        stats = record s.stats { data_sent = s.stats.data_sent + 1 };
      },
      rw (send_data, add_pkt, mem 16, encode_write_lem system pkt out s1 e sends),
      record {
        list = refl;
        windowsize = refl;
        global_pkt = refl;
        eof_reached = refl;
        tail = refl;
        out = out;
        encoded = e;
        sent = refl;
        last_pkt = refl;
        buffer = refl;
      },
    )

pub record Headed (s s' : Sender) : Type 0 where
  pub list : s'.window.list ≡ s.window.list
  pub windowsize : s'.window.windowsize ≡ s.window.windowsize
  pub global_pkt : s'.global_pkt ≡ s.global_pkt
  pub eof_reached : s'.eof_reached ≡ s.eof_reached
  pub sent : s'.sent ≡ s.sent
  pub last_pkt : s'.last_pkt ≡ s.last_pkt
  pub copybuf : s'.copybuf ≡ s.copybuf

pub set_head_lem : (s : Sender) → Headed s (set_head s)
set_head_lem s = ground arith
