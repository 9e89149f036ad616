-- ===== src/Packet/Total/Steps.antt =====
-- The steps of `pkt_decode` of src/packet_implem.c up to the payload, on a buffer of PKT_MAX_LEN
-- bytes.
use projet_trtp.Base.{
  ℕ, ◌+◌, ◌≤◌, ◌<◌, ◌≡◌, subst, inl, inr, refl, true, List, ◌∷◌, some, arith, ◌==◌, length,
  get_elem?-in, Bool-cases, ==_iff,
}
use projet_trtp.Base.Bits.{bit_and_tr, bit_and_window}
use projet_trtp.Base.Bytes.{read_at, be_value, read_at-in}
use projet_trtp.Packet.Struct.{
  Ptypes, ptype_fec, ptype_data, ptype_ack, ptype_nack, null, Pkt, Libs,
}
use projet_trtp.Packet.Access.{predict_header_length}
use projet_trtp.Packet.Decode.{
  decode_first, decode_length, decode_rest, check_header, crc_of, clear_tr,
}
use projet_trtp.Packet.Decode.Steps.{decode_rest_lem, check_header_lem, check_header_bad}
use projet_trtp.Packet.Decode.Ensures.{Ensures}
use projet_trtp.Packet.Total.Spec.{InRange, HeaderChecked, Returns}

header-le : (t : Ptypes) → predict_header_length t ≤ 8
unfolding predict_header_length
header-le ptype_fec = omega arith
header-le ptype_data = omega arith
header-le ptype_ack = omega arith
header-le ptype_nack = omega arith

module _ (libs : Libs) (bytes : List ℕ) where
  -- Before the payload is read.
  pub record Early (pkt : Pkt) (n offset : ℕ) : Type 0 where
    pub range : InRange pkt
    pub none_yet : pkt.payload ≡ null
    pub no_crc2 : pkt.crc2 ≡ 0
    pub same : pkt.length ≡ n
    pub place : offset + 5 ≡ predict_header_length pkt.type

  pub record Rest (pkt : Pkt) (n offset crc1 : ℕ) : Type 0 where
    pub early : Early pkt n offset
    pub word : List ℕ
    pub word_read : read_at bytes (predict_header_length pkt.type) 4 ≡ some word
    pub stored : be_value 0 word ≡ crc1

  pub first_lem :
      (b : ℕ) (bs : List ℕ) (pkt : Pkt)
      → b < 256
      → pkt.payload ≡ null
      → pkt.length ≡ 0
      → pkt.crc2 ≡ 0
      → Ensures
          (λ _ pkt'. InRange pkt' × (pkt'.payload ≡ null) × (pkt'.length ≡ 0) × (pkt'.crc2 ≡ 0))
          (Returns libs bytes)
          (decode_first (b ∷ bs) pkt)
  unfolding decode_first
  first_lem b bs pkt hb hp hl hc = ground (arith, bit_and_tr b, bit_and_window b)

  module _ (big : 528 ≤ length bytes) where
    pub length_lem :
        (len : ℕ) (pkt : Pkt)
        → InRange pkt
        → pkt.payload ≡ null
        → pkt.length ≡ 0
        → pkt.crc2 ≡ 0
        → Ensures
            (λ (n, offset) pkt'. Early pkt' n offset)
            (Returns libs bytes)
            (decode_length bytes len pkt)
    unfolding decode_length predict_header_length
    length_lem len pkt v hp hl hc =
        let (word, e, _) = read_at-in bytes 1 2 (omega arith) in ground (arith, e)

    pub rest_lem :
        (n offset : ℕ) (pkt : Pkt)
        → Early pkt n offset
        → Ensures
            (λ crc1 pkt'. Rest pkt' n offset crc1)
            (Returns libs bytes)
            (decode_rest bytes offset pkt)
    unfolding decode_rest
    rest_lem n offset pkt v =
        let small = header-le pkt.type in
        let (s, hs) = get_elem?-in bytes offset (omega arith) in
        let (ts, ht, _) = read_at-in bytes (offset + 1) 4 (omega arith) in
        let (cs, hc, _) = read_at-in bytes (offset + 5) 4 (omega arith) in
        rw (decode_rest_lem bytes offset s ts cs pkt hs ht hc) (record {
          early = ground arith;
          word = cs;
          word_read = subst (λ (k : ℕ). read_at bytes k 4 ≡ some cs) v.place hc;
          stored = refl;
        })

    pub header_lem :
        (mem : (k : ℕ) → libs.malloc k ≡ true) (n offset crc1 : ℕ) (pkt : Pkt)
        → Rest pkt n offset crc1
        → Ensures
            (λ _ pkt'. Early pkt' n offset × HeaderChecked libs bytes pkt')
            (Returns libs bytes)
            (check_header libs bytes crc1 pkt)
    header_lem mem n offset crc1 pkt v =
        let small = header-le pkt.type in
        let (header, hh, _) = read_at-in bytes 0 (predict_header_length pkt.type) (omega arith) in
        elim (Bool-cases (crc_of libs (clear_tr header) == crc1)) [
          | inl same ↦
              let e : crc_of libs (clear_tr header) ≡ crc1 = (==_iff _ _).0 same in
              rw (check_header_lem libs bytes header crc1 pkt (mem _) hh e (omega arith)) (
                ground arith,
                record {
                  header = header;
                  word = v.word;
                  header_read = hh;
                  word_read = v.word_read;
                  stored = v.stored;
                  computed = e;
                },
              )
          | inr other ↦
              rw (check_header_bad libs bytes header crc1 pkt (mem _) hh other (omega arith))
                (λ e. cc e)
        ]
