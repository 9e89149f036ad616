-- ===== src/Packet/Total.antt =====
-- `pkt_decode` of src/packet_implem.c on any buffer of PKT_MAX_LEN bytes: it reads inside the
-- buffer, and what it accepts is well formed.
pub mod Spec
mod Steps
mod Content
use projet_trtp.Base.{
  ℕ, zero, suc, ◌+◌, ◌-◌, ◌*◌, ◌/◌, ◌%◌, ◌^◌, ◌≤◌, ◌<◌, ◌≡◌, ◌≢◌, subst, ◌⊎◌, inl, inr, refl, true,
  false, List, [], ◌∷◌, ◌++◌, Option, none, some, bit_and, arith, ltb, ◌==◌, if◌then◌else◌,
  get_elem?, drop, take, length, All, get_elem?-in, Bool-cases, le→ltb, ==_iff, Bool, ne→==, ltb→le,
  ◌∙◌, sym,
}
use projet_trtp.Base.Bits.{bit_and_tr, bit_and_window}
use projet_trtp.Base.Bytes.{
  IsByte, read_at, be_value, le_value, take_exactly, take_exactly_all, read_at-in,
}
use projet_trtp.Packet.Struct.{
  Ptypes, ptype_fec, ptype_data, ptype_ack, ptype_nack, type_code, type_is, StatusCode, pkt_ok,
  e_crc, e_unconsistent, Payload, null, block, Pkt, Libs,
}
use projet_trtp.Packet.Access.{pkt_zero, predict_header_length}
use projet_trtp.Packet.Decode.{
  Outcome, next, exit, ◌>>=◌, decode_first, decode_length, decode_rest, check_header,
  decode_payload, crc_of, clear_tr, lt_int, fault, returned, pkt_decode, decode_steps,
}
use projet_trtp.Packet.Decode.Steps.{fields, decode_rest_lem, check_header_lem, check_header_bad}
use projet_trtp.Packet.Decode.Ensures.{Ensures, seq}
use Spec.{Accepted, Returns}
use Steps.{Early, Rest, first_lem, length_lem, rest_lem, header_lem}
use Content.{content_lem}

module _ (libs : Libs) (mem : (k : ℕ) → libs.malloc k ≡ true) (b : ℕ) (bs : List ℕ) (hb : b < 256)
    (big : 528 ≤ length (b ∷ bs)) (len : ℕ) where
  abbrev bytes : List ℕ
  bytes = b ∷ bs

  abbrev Good : Unit {0} → Pkt → Type 0
  Good _ pkt = Accepted libs bytes pkt

  abbrev Done : Outcome (Unit {0}) → Type 0
  Done = Ensures (λ _ pkt. Accepted libs bytes pkt) (Returns libs bytes)

  steps_lem : Done (decode_steps libs bytes len pkt_zero)
  unfolding decode_steps
  steps_lem = elim (Bool-cases (len == 0)) [
    | inl e ↦ rw e (λ h. cc h)
    | inr ne ↦ elim (Bool-cases (ltb len 6)) [
      | inl e ↦ rw (ne, e) (λ h. cc h)
      | inr header ↦ elim (Bool-cases (ltb len 10)) [
        | inl e ↦ rw (ne, header, e) (λ h. cc h)
        | inr crc ↦
            rw (ne, header, crc)
              (seq _ Good (Returns libs bytes) (decode_first bytes) _ pkt_zero
                (first_lem libs bytes b bs pkt_zero hb refl refl refl)
                λ _ p1 (v1, null1, length1, crc1).
                  seq (λ (n, offset) pkt. Early libs bytes pkt n offset) Good (Returns libs bytes)
                    (decode_length bytes len) _ p1
                    (length_lem libs bytes big len p1 v1 null1 length1 crc1)
                    λ r p2 v2.
                      seq (λ crc pkt. Rest libs bytes pkt r.0 r.1 crc) Good (Returns libs bytes)
                        (decode_rest bytes r.1) _ p2 (rest_lem libs bytes big r.0 r.1 p2 v2)
                        λ crc p3 v3.
                          seq _ Good (Returns libs bytes) (check_header libs bytes crc) _ p3
                            (header_lem libs bytes big mem r.0 r.1 crc p3 v3)
                            λ _ p4 (v4, h4). content_lem libs bytes big mem len r.0 r.1 p4 v4 h4)
      ]
    ]
  ]

returned_lem :
    (libs : Libs) (source : List ℕ) (o : Outcome (Unit {0}))
    → Ensures (λ _ pkt. Accepted libs source pkt) (Returns libs source) o
    → (status : StatusCode) × (pkt : Pkt) × (returned o ≡ some (status, pkt))
      × (status ≡ pkt_ok → Accepted libs source pkt)
returned_lem libs source (next _ pkt) h = (pkt_ok, pkt, refl, λ _. h)
returned_lem libs source (exit status pkt) h = (status, pkt, refl, h)
returned_lem libs source fault h = absurd h

-- On any buffer of at least PKT_MAX_LEN bytes that begins with a byte, and for any `len`, decoding
-- into a fresh packet has defined behaviour where `malloc` succeeds. Where it returns PKT_OK the
-- fields are in their ranges, only PTYPE_DATA is truncated, CRC1 is stored behind the header and
-- is the CRC of the header with TR at 0, and the payload of a PTYPE_FEC packet, or of a PTYPE_DATA
-- packet with a length, is the bytes behind the header, whose CRC is the CRC2 that follows them.
pub decode-Accepted :
    (libs : Libs) (mem : (k : ℕ) → libs.malloc k ≡ true) (b : ℕ) (bs : List ℕ) (len : ℕ)
    → b < 256
    → 528 ≤ length (b ∷ bs)
    → (status : StatusCode) × (pkt : Pkt) × (pkt_decode libs (b ∷ bs) len pkt_zero
        ≡ some (status, pkt))
      × (status ≡ pkt_ok → Accepted libs (b ∷ bs) pkt)
unfolding pkt_decode
decode-Accepted libs mem b bs len hb big =
    returned_lem libs (b ∷ bs) _ (steps_lem libs mem b bs hb big len)
