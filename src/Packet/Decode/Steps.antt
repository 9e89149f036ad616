-- ===== src/Packet/Decode/Steps.antt =====
-- What each step of `pkt_decode` does on the bytes that `pkt_encode` writes.
use projet_trtp.Base.{
  ℕ, ◌+◌, ◌*◌, ◌≤◌, ◌<◌, ◌≡◌, true, false, List, ◌∷◌, some, arith, ◌==◌, get_elem?, le→ltb, ==_refl,
  ne→==,
}
use projet_trtp.Base.Bits.{bit_and_tr, bit_and_window}
use projet_trtp.Base.Bytes.{read_at, be_value, le_value}
use projet_trtp.Packet.Struct.{
  Ptypes, ptype_fec, ptype_data, ptype_ack, ptype_nack, type_code, e_crc, null, Pkt, Libs,
}
use projet_trtp.Packet.Access.{predict_header_length}
use projet_trtp.Packet.Decode.{
  next, exit, ◌>>=◌, decode_first, decode_length, decode_rest, check_header, decode_payload,
  decode_steps, crc_of, clear_tr, lt_int,
}

-- A packet with no payload yet.
abbrev pub fields : Ptypes → (tr window length seqnum crc1 crc2 timestamp : ℕ) → Pkt
fields t r w n s c1 c2 time = record {
  type = t;
  tr = r;
  window = w;
  length = n;
  seqnum = s;
  timestamp = time;
  crc1 = c1;
  payload = null;
  crc2 = c2;
}

pub decode_first_lem :
    (t : Ptypes) (r w b : ℕ) (bs : List ℕ) (pkt : Pkt)
    → b ≡ type_code t * 64 + r * 32 + w
    → w < 32
    → r * type_code t ≡ r
    → r ≤ 1
    → decode_first (b ∷ bs) pkt ≡ next tt (record pkt { type = t; tr = r; window = w })
unfolding decode_first
decode_first_lem ptype_fec r w b bs pkt e hw ht hr = ground (arith, bit_and_tr b, bit_and_window b)
decode_first_lem ptype_data r w b bs pkt e hw ht hr = ground (arith, bit_and_tr b, bit_and_window b)
decode_first_lem ptype_ack r w b bs pkt e hw ht hr = ground (arith, bit_and_tr b, bit_and_window b)
decode_first_lem ptype_nack r w b bs pkt e hw ht hr = ground (arith, bit_and_tr b, bit_and_window b)

pub decode_rest_lem :
    (bytes : List ℕ) (offset s : ℕ) (ts cs : List ℕ) (pkt : Pkt)
    → get_elem? bytes offset ≡ some s
    → read_at bytes (offset + 1) 4 ≡ some ts
    → read_at bytes (offset + 5) 4 ≡ some cs
    → decode_rest bytes offset pkt
      ≡ next
          (be_value 0 cs)
          (record pkt { seqnum = s; timestamp = le_value ts; crc1 = be_value 0 cs })
unfolding decode_rest
decode_rest_lem bytes offset s ts cs pkt hs ht hc = rw (hs, ht, hc)

pub check_header_lem :
    (libs : Libs) (bytes header : List ℕ) (crc1 : ℕ) (pkt : Pkt)
    → libs.malloc (predict_header_length pkt.type) ≡ true
    → read_at bytes 0 (predict_header_length pkt.type) ≡ some header
    → crc_of libs (clear_tr header) ≡ crc1
    → predict_header_length pkt.type ≤ 12
    → check_header libs bytes crc1 pkt ≡ next tt (record pkt { crc1 = crc1 })
unfolding check_header
check_header_lem libs bytes header crc1 pkt hm hr hc hl =
    rw (le→ltb 12 (predict_header_length pkt.type) hl, hm, hr, hc, ==_refl crc1)

-- A header whose CRC is another one.
pub check_header_bad :
    (libs : Libs) (bytes header : List ℕ) (crc1 : ℕ) (pkt : Pkt)
    → libs.malloc (predict_header_length pkt.type) ≡ true
    → read_at bytes 0 (predict_header_length pkt.type) ≡ some header
    → (crc_of libs (clear_tr header) == crc1) ≡ false
    → predict_header_length pkt.type ≤ 12
    → check_header libs bytes crc1 pkt
      ≡ exit e_crc (record pkt { crc1 = crc_of libs (clear_tr header) })
unfolding check_header
check_header_bad libs bytes header crc1 pkt hm hr hc hl =
    rw (le→ltb 12 (predict_header_length pkt.type) hl, hm, hr, hc)

module _ (bytes : List ℕ) (len n : ℕ) (word : List ℕ) (w s c1 c2 time : ℕ) where
  -- The length field of a packet that has one.
  pub decode_length-data :
      (r : ℕ)
      → read_at bytes 1 2 ≡ some word
      → be_value 0 word ≡ n
      → n ≤ 512
      → lt_int (n + 32) len ≡ false
      → decode_length bytes len (fields ptype_data r w 0 s c1 c2 time)
        ≡ next (n, 3) (fields ptype_data r w n s c1 c2 time)
  unfolding decode_length
  decode_length-data r hw hn small fits = rw (hw, hn, le→ltb 512 n small, fits)

  pub decode_length-fec :
      read_at bytes 1 2 ≡ some word
      → be_value 0 word ≡ n
      → n ≤ 512
      → lt_int (n + 32) len ≡ false
      → decode_length bytes len (fields ptype_fec 0 w 0 s c1 c2 time)
        ≡ next (n, 3) (fields ptype_fec 0 w n s c1 c2 time)
  unfolding decode_length
  decode_length-fec hw hn small fits = rw (hw, hn, le→ltb 512 n small, fits)

-- The steps in a row, up to the payload.
pub decode_steps_lem :
    (libs : Libs) (bytes : List ℕ) (len n offset crc1 : ℕ) (p0 p1 p2 p3 p4 : Pkt)
    → 10 ≤ len
    → decode_first bytes p0 ≡ next tt p1
    → decode_length bytes len p1 ≡ next (n, offset) p2
    → decode_rest bytes offset p2 ≡ next crc1 p3
    → check_header libs bytes crc1 p3 ≡ next tt p4
    → decode_steps libs bytes len p0 ≡ decode_payload libs bytes len (offset + 9) n p4
unfolding decode_steps
decode_steps_lem libs bytes len n offset crc1 p0 p1 p2 p3 p4 big h1 h2 h3 h4 = rw (
  ne→== len 0 (omega arith),
  le→ltb len 6 (omega arith),
  le→ltb len 10 big,
  h1,
  h2,
  h3,
  h4,
  ◌>>=◌,
)
