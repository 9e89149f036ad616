-- ===== src/Packet/RoundTrip/Header.antt =====
-- What `pkt_decode` of src/packet_implem.c makes of the headers that `pkt_encode` writes.
use projet_trtp.Base.{
  ℕ, ◌+◌, ◌*◌, ◌%◌, ◌^◌, ◌≤◌, ◌<◌, ◌≡◌, ◌⊎◌, refl, true, false, List, ◌∷◌, ◌++◌, bit_and, arith,
}
use projet_trtp.Base.Bits.{bit_and_clear_tr}
use projet_trtp.Base.Bytes.{be16, be32, le32, be_value-be16, be_value-be32, le_value-le32}
use projet_trtp.Packet.Struct.{
  Ptypes, ptype_fec, ptype_data, ptype_ack, ptype_nack, type_code, pkt_ok, Libs,
}
use projet_trtp.Packet.Access.{pkt_zero, predict_header_length}
use projet_trtp.Packet.Decode.{exit, decode_length, decode_payload, crc_of, lt_int, decode_steps}
use projet_trtp.Packet.Decode.Steps.{
  fields, decode_first_lem, decode_rest_lem, check_header_lem, decode_length-data,
  decode_length-fec, decode_steps_lem,
}

-- The first byte of the header, over which CRC1 goes.
pub header_first :
    (t : Ptypes) (w : ℕ)
    → w < 32
    → bit_and ((type_code t * 2 ^ 6 % 256 + w) % 256) 0xdf ≡ type_code t * 64 + w
header_first ptype_fec w h =
    let e : (0 * 2 ^ 6 % 256 + w) % 256 ≡ w = omega arith in
    rw e (omega (arith, bit_and_clear_tr w))
header_first ptype_data w h =
    let e : (1 * 2 ^ 6 % 256 + w) % 256 ≡ 64 + w = omega arith in
    rw e (omega (arith, bit_and_clear_tr (64 + w)))
header_first ptype_ack w h =
    let e : (2 * 2 ^ 6 % 256 + w) % 256 ≡ 128 + w = omega arith in
    rw e (omega (arith, bit_and_clear_tr (128 + w)))
header_first ptype_nack w h =
    let e : (3 * 2 ^ 6 % 256 + w) % 256 ≡ 192 + w = omega arith in
    rw e (omega (arith, bit_and_clear_tr (192 + w)))

type_code-le : (t : Ptypes) → type_code t ≤ 3
type_code-le ptype_fec = omega arith
type_code-le ptype_data = omega arith
type_code-le ptype_ack = omega arith
type_code-le ptype_nack = omega arith

module _ (t : Ptypes) (r w : ℕ) (hw : w < 32) (hr : r ≤ 1) where
  -- The first byte that goes out.
  pub first_lem :
      (bit_and ((type_code t * 2 ^ 6 % 256 + w) % 256) 0xdf + r * 2 ^ 5) % 256
      ≡ type_code t * 64 + r * 32 + w
  first_lem = omega (arith, header_first t w hw, type_code-le t)

  -- The receiver's mask takes it back to the header's.
  pub clear_lem :
      bit_and ((bit_and ((type_code t * 2 ^ 6 % 256 + w) % 256) 0xdf + r * 2 ^ 5) % 256) 0xdf
      ≡ bit_and ((type_code t * 2 ^ 6 % 256 + w) % 256) 0xdf
  clear_lem =
      rw (first_lem, header_first t w hw)
        (omega (arith, bit_and_clear_tr (type_code t * 64 + r * 32 + w), type_code-le t))

module _ (libs : Libs) (r w n s time c len : ℕ) (rest : List ℕ) where
  abbrev pub long_wire : ℕ → List ℕ
  long_wire b = b ∷ (be16 n ++ (s ∷ (le32 time ++ (be32 c ++ rest))))

  abbrev pub short_wire : ℕ → List ℕ
  short_wire b = b ∷ s ∷ (le32 time ++ (be32 c ++ rest))

  module _ (b : ℕ) (mem : (k : ℕ) → libs.malloc k ≡ true) (hw : w < 32) (hr : r ≤ 1)
      (ht : time < 2 ^ 32) (hc : c < 2 ^ 32) (big : 10 ≤ len) where
    pub decode_steps-data :
        b ≡ 64 + r * 32 + w
        → n ≤ 512
        → lt_int (n + 32) len ≡ false
        → crc_of libs (bit_and b 0xdf ∷ (be16 n ++ (s ∷ le32 time))) ≡ c
        → decode_steps libs (long_wire b) len pkt_zero
          ≡ decode_payload libs (long_wire b) len 12 n (fields ptype_data r w n s c 0 time)
    unfolding predict_header_length
    decode_steps-data hb hn fits crc =
        decode_steps_lem libs (long_wire b) len n 3 c pkt_zero _ _
          (fields ptype_data r w n s c 0 time) _ big
          (decode_first_lem ptype_data r w b _ pkt_zero hb hw (omega arith) hr)
          (decode_length-data (long_wire b) len n (be16 n) w 0 0 0 0 r refl
            (be_value-be16 n (omega arith)) hn fits)
          (rw (
            decode_rest_lem (long_wire b) 3 s (le32 time) (be32 c) _ refl refl refl,
            be_value-be32 c hc,
            le_value-le32 time ht,
          ))
          (check_header_lem libs (long_wire b) (b ∷ (be16 n ++ (s ∷ le32 time))) c _ (mem 8) refl
            crc (omega arith))

    pub decode_steps-fec :
        b ≡ r * 32 + w
        → r ≡ 0
        → n ≤ 512
        → lt_int (n + 32) len ≡ false
        → crc_of libs (bit_and b 0xdf ∷ (be16 n ++ (s ∷ le32 time))) ≡ c
        → decode_steps libs (long_wire b) len pkt_zero
          ≡ decode_payload libs (long_wire b) len 12 n (fields ptype_fec 0 w n s c 0 time)
    unfolding predict_header_length
    decode_steps-fec hb hz hn fits crc =
        decode_steps_lem libs (long_wire b) len n 3 c pkt_zero _ _
          (fields ptype_fec 0 w n s c 0 time) _ big
          (decode_first_lem ptype_fec 0 w b _ pkt_zero (omega arith) hw (omega arith) (omega arith))
          (decode_length-fec (long_wire b) len n (be16 n) w 0 0 0 0 refl
            (be_value-be16 n (omega arith)) hn fits)
          (rw (
            decode_rest_lem (long_wire b) 3 s (le32 time) (be32 c) _ refl refl refl,
            be_value-be32 c hc,
            le_value-le32 time ht,
          ))
          (check_header_lem libs (long_wire b) (b ∷ (be16 n ++ (s ∷ le32 time))) c _ (mem 8) refl
            crc (omega arith))

    -- An acknowledgement is its header.
    pub decode_steps-short :
        (t : Ptypes)
        → (t ≡ ptype_ack) ⊎ (t ≡ ptype_nack)
        → b ≡ type_code t * 64 + w
        → crc_of libs (bit_and b 0xdf ∷ (s ∷ le32 time)) ≡ c
        → decode_steps libs (short_wire b) len pkt_zero ≡ exit pkt_ok (fields t 0 w 0 s c 0 time)
    unfolding predict_header_length decode_payload decode_length
    decode_steps-short ptype_fec ack hb crc = absurd (ground arith)
    decode_steps-short ptype_data ack hb crc = absurd (ground arith)
    decode_steps-short ptype_ack ack hb crc =
        decode_steps_lem libs (short_wire b) len 0 1 c pkt_zero _ _
          (fields ptype_ack 0 w 0 s c 0 time) _ big
          (decode_first_lem ptype_ack 0 w b _ pkt_zero (omega arith) hw (omega arith) (omega arith))
          refl
          (rw (
            decode_rest_lem (short_wire b) 1 s (le32 time) (be32 c) _ refl refl refl,
            be_value-be32 c hc,
            le_value-le32 time ht,
          ))
          (check_header_lem libs (short_wire b) (b ∷ s ∷ le32 time) c _ (mem 6) refl crc
            (omega arith))
    decode_steps-short ptype_nack ack hb crc =
        decode_steps_lem libs (short_wire b) len 0 1 c pkt_zero _ _
          (fields ptype_nack 0 w 0 s c 0 time) _ big
          (decode_first_lem ptype_nack 0 w b _ pkt_zero (omega arith) hw (omega arith)
            (omega arith))
          refl
          (rw (
            decode_rest_lem (short_wire b) 1 s (le32 time) (be32 c) _ refl refl refl,
            be_value-be32 c hc,
            le_value-le32 time ht,
          ))
          (check_header_lem libs (short_wire b) (b ∷ s ∷ le32 time) c _ (mem 6) refl crc
            (omega arith))
