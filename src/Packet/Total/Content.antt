-- ===== src/Packet/Total/Content.antt =====
-- The part of `pkt_decode` of src/packet_implem.c behind the header, on a buffer of PKT_MAX_LEN
-- bytes.
use projet_trtp.Base.{
  ℕ, zero, suc, ◌+◌, ◌≤◌, ◌≡◌, ◌≢◌, subst, inl, inr, refl, true, false, List, arith, ltb, ◌==◌,
  if◌then◌else◌, length, Bool-cases, ==_iff, Bool, ne→==, ltb→le, ◌∙◌,
}
use projet_trtp.Base.Bytes.{be_value, take_exactly_all, read_at-in}
use projet_trtp.Packet.Struct.{
  Ptypes, ptype_fec, ptype_data, ptype_ack, ptype_nack, StatusCode, pkt_ok, e_crc, e_unconsistent,
  Payload, null, block, Pkt, Libs,
}
use projet_trtp.Packet.Access.{predict_header_length}
use projet_trtp.Packet.Decode.{Outcome, next, exit, decode_payload, crc_of}
use projet_trtp.Packet.Decode.Steps.{fields}
use projet_trtp.Packet.Decode.Ensures.{Ensures}
use projet_trtp.Packet.Decode.Content.{
  copy_in-data, copy_in-fec, copy_in-fec_empty, check_payload-data, check_payload-fec,
  decode_payload-truncated, decode_payload-long, decode_payload-none, decode_payload-start,
  decode_payload-stop,
}
use projet_trtp.Packet.Total.Steps.{Early}
use projet_trtp.Packet.Total.Spec.{InRange, HeaderChecked, Accepted, Returns}

module _ (libs : Libs) (bytes : List ℕ) (big : 528 ≤ length bytes)
    (mem : (k : ℕ) → libs.malloc k ≡ true) (len : ℕ) where
  abbrev Done : Outcome (Unit {0}) → Type 0
  Done = Ensures (λ _ pkt. Accepted libs bytes pkt) (Returns libs bytes)

  refused :
      (o : Outcome (Unit {0})) (status : StatusCode) (pkt : Pkt)
      → o ≡ exit status pkt
      → status ≢ pkt_ok
      → Done o
  refused o status pkt e ne = rw e (λ ok. absurd (ne ok))

  checked :
      (o : Outcome (Unit {0})) (b : Bool) (pkt : Pkt)
      → o ≡ (if b then next tt pkt else exit e_crc pkt)
      → (b ≡ true → Accepted libs bytes pkt)
      → Done o
  checked o true pkt e ok = rw e (ok refl)
  checked o false pkt e ok = refused o e_crc pkt e (λ h. cc h)

  data_full :
      (w n s c1 time : ℕ)
      → n ≢ 0
      → len ≤ 544
      → InRange (fields ptype_data 0 w n s c1 0 time)
      → HeaderChecked libs bytes (fields ptype_data 0 w n s c1 0 time)
      → Done (decode_payload libs bytes len 12 n (fields ptype_data 0 w n s c1 0 time))
  data_full w n s c1 time ne fits v h =
      let (bs, hb, size) = read_at-in bytes 12 n (omega arith) in
      let (word, hw, _) = read_at-in bytes (12 + n) 4 (omega arith) in
      checked _ (crc_of libs bs == be_value 0 word)
        (record (fields ptype_data 0 w n s c1 (be_value 0 word) time) { payload = block bs })
        (decode_payload-start libs bytes len 12 n (be_value 0 word) _ _ (ne→== n 0 ne) fits
            (copy_in-data libs bytes bs word len 12 n w s c1 time ne v.length (mem n) hb hw)
          ∙ check_payload-data libs bytes bs word len 12 n w s c1 time (be_value 0 word)
              (take_exactly_all n bs size))
        (λ same. record {
          range = ground arith;
          header = record {
            header = h.header;
            word = h.word;
            header_read = h.header_read;
            word_read = h.word_read;
            stored = h.stored;
            computed = h.computed;
          };
          fec = λ e. cc e;
          content = λ _ _. record {
            payload = bs;
            word = word;
            untruncated = refl;
            held = refl;
            payload_read = hb;
            word_read = hw;
            stored = refl;
            computed = (==_iff _ _).0 same;
          };
        })

  data_truncated :
      (w n s c1 time : ℕ)
      → n ≢ 0
      → n ≤ 512
      → len ≤ 544
      → Done (decode_payload libs bytes len 12 n (fields ptype_data 1 w n s c1 0 time))
  data_truncated w n s c1 time ne small fits =
      let (bs, hb, size) = read_at-in bytes 12 n (omega arith) in
      let (word, hw, _) = read_at-in bytes (12 + n) 4 (omega arith) in
      refused _ e_crc _
        (decode_payload-truncated libs bytes bs word len 12 n w s c1 time ne small fits (mem n) hb
          hw)
        (λ h. cc h)

  data_lem :
      (r w n s c1 time : ℕ)
      → InRange (fields ptype_data r w n s c1 0 time)
      → HeaderChecked libs bytes (fields ptype_data r w n s c1 0 time)
      → Done (decode_payload libs bytes len 12 n (fields ptype_data r w n s c1 0 time))
  data_lem r w zero s c1 time v h =
      rw (decode_payload-none libs bytes len 12 0 (fields ptype_data r w 0 s c1 0 time) refl)
        (λ _. record { range = v; header = h; fec = λ e. cc e; content = λ _ ne. absurd (ne refl) })
  data_lem r w (suc n) s c1 time v h =
      let ne : suc n ≢ 0 = omega arith in
      elim (Bool-cases (ltb 544 len)) [
        | inl long ↦
            refused _ e_unconsistent _
              (decode_payload-long libs bytes len 12 (suc n)
                (fields ptype_data r w (suc n) s c1 0 time) (ne→== (suc n) 0 ne) long)
              (λ e. cc e)
        | inr fits ↦ by_tr r v h (ltb→le 544 len fits)
      ]
    where
      by_tr :
          (r : ℕ)
          → InRange (fields ptype_data r w (suc n) s c1 0 time)
          → HeaderChecked libs bytes (fields ptype_data r w (suc n) s c1 0 time)
          → len ≤ 544
          → Done
              (decode_payload libs bytes len 12 (suc n) (fields ptype_data r w (suc n) s c1 0 time))
      by_tr zero v h fits = data_full w (suc n) s c1 time (omega arith) fits v h
      by_tr (suc zero) v h fits = data_truncated w (suc n) s c1 time (omega arith) v.length fits
      by_tr (suc (suc r)) v h fits = absurd (omega (arith, v.tr))

  fec_lem :
      (w n s c1 time : ℕ)
      → InRange (fields ptype_fec 0 w n s c1 0 time)
      → HeaderChecked libs bytes (fields ptype_fec 0 w n s c1 0 time)
      → len ≤ 544
      → Done (decode_payload libs bytes len 12 n (fields ptype_fec 0 w n s c1 0 time))
  fec_lem w zero s c1 time v h fits =
      let (bs, hb, size) = read_at-in bytes 12 512 (omega arith) in
      let (word, hw, _) = read_at-in bytes 524 4 (omega arith) in
      refused _ e_crc _
        (decode_payload-stop libs bytes len 12 0 e_crc _ _ refl fits
          (copy_in-fec_empty libs bytes bs word len 12 0 w s c1 time (mem 512) hb hw))
        (λ e. cc e)
  fec_lem w (suc n) s c1 time v h fits =
      let (bs, hb, size) = read_at-in bytes 12 512 (omega arith) in
      let (word, hw, _) = read_at-in bytes 524 4 (omega arith) in
      checked _ (crc_of libs bs == be_value 0 word)
        (record (fields ptype_fec 0 w (suc n) s c1 (be_value 0 word) time) { payload = block bs })
        (decode_payload-start libs bytes len 12 (suc n) (be_value 0 word) _ _ refl fits (
            copy_in-fec libs bytes bs word len 12 (suc n) w s c1 time (omega arith) (mem 512) hb hw)
          ∙ check_payload-fec libs bytes bs word len 12 (suc n) w s c1 time (be_value 0 word)
              (take_exactly_all 512 bs size))
        (λ same. record {
          range = ground arith;
          header = record {
            header = h.header;
            word = h.word;
            header_read = h.header_read;
            word_read = h.word_read;
            stored = h.stored;
            computed = h.computed;
          };
          fec = λ _. record {
            payload = bs;
            word = word;
            untruncated = refl;
            held = refl;
            payload_read = hb;
            word_read = hw;
            stored = refl;
            computed = (==_iff _ _).0 same;
          };
          content = λ e _. cc e;
        })

  -- Every type, field by field.
  by_type :
      (t : Ptypes) (r w n s c1 c2 time offset : ℕ) (pl : Payload)
      → pl ≡ null
      → c2 ≡ 0
      → offset + 5 ≡ predict_header_length t
      → InRange (fields t r w n s c1 0 time)
      → HeaderChecked libs bytes (fields t r w n s c1 0 time)
      → Done (
          decode_payload libs bytes len
            (offset + 9)
            n
            (record (fields t r w n s c1 c2 time) { payload = pl }))
  unfolding predict_header_length
  by_type ptype_data r w n s c1 c2 time offset pl hp hc ho v h =
      let e : offset + 9 ≡ 12 = omega arith in rw (e, hp, hc) (data_lem r w n s c1 time v h)
  by_type ptype_fec r w n s c1 c2 time offset pl hp hc ho v h =
      let e : offset + 9 ≡ 12 = omega arith in
      let open_ : r ≡ 0 = ground arith in
      elim (Bool-cases (ltb 544 len)) [
        | inl long ↦
            refused _ e_unconsistent _
              (decode_payload-long libs bytes len (offset + 9) n
                (record (fields ptype_fec r w n s c1 c2 time) { payload = pl }) refl long)
              (λ e. cc e)
        | inr fits ↦
            rw (e, hp, hc, open_)
              (fec_lem w n s c1 time
                (subst (λ (k : ℕ). InRange (fields ptype_fec k w n s c1 0 time)) open_ v)
                (subst (λ (k : ℕ). HeaderChecked libs bytes (fields ptype_fec k w n s c1 0 time))
                  open_ h)
                (ltb→le 544 len fits))
      ]
  by_type ptype_ack r w n s c1 c2 time offset pl hp hc ho v h =
      rw
        (
          hp,
          hc,
          decode_payload-none libs bytes len (offset + 9) n (fields ptype_ack r w n s c1 0 time)
              refl,
        )
        (λ _. record { range = v; header = h; fec = λ e. cc e; content = λ e _. cc e })
  by_type ptype_nack r w n s c1 c2 time offset pl hp hc ho v h =
      rw
        (
          hp,
          hc,
          decode_payload-none libs bytes len (offset + 9) n (fields ptype_nack r w n s c1 0 time)
              refl,
        )
        (λ _. record { range = v; header = h; fec = λ e. cc e; content = λ e _. cc e })

  pub content_lem :
      (n offset : ℕ) (pkt : Pkt)
      → Early libs bytes pkt n offset
      → HeaderChecked libs bytes pkt
      → Done (decode_payload libs bytes len (offset + 9) n pkt)
  content_lem n offset pkt v h =
      subst (λ (k : ℕ). Done (decode_payload libs bytes len (offset + 9) k pkt)) v.same
        (by_type pkt.type pkt.tr pkt.window pkt.length pkt.seqnum pkt.crc1 pkt.crc2 pkt.timestamp
          offset pkt.payload v.none_yet v.no_crc2 v.place (ground arith)
          (record {
            header = h.header;
            word = h.word;
            header_read = h.header_read;
            word_read = h.word_read;
            stored = h.stored;
            computed = h.computed;
          }))
