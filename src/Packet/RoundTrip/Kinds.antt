-- ===== src/Packet/RoundTrip/Kinds.antt =====
-- The round trip of each kind of packet, of src/packet_implem.c.
use projet_trtp.Base.{
  ℕ, ◌+◌, ◌^◌, ◌≤◌, ◌<◌, ◌≡◌, ◌≢◌, ◌⊎◌, inl, inr, ◌∙◌, refl, sym, true, List, ◌++◌, drop-add,
  drop_of_length, some, arith, drop, length, le→ltb, ne→==, length-append,
}
use mathlib.Core.List.{append_assoc}
use projet_trtp.Base.Bytes.{
  read_at, be32, be_value-be32, take_exactly, take_exactly_all, take_exactly_of_length,
}
use projet_trtp.Packet.Struct.{
  Ptypes, ptype_fec, ptype_data, ptype_ack, ptype_nack, pkt_ok, Payload, block, Pkt, Libs,
}
use projet_trtp.Packet.Access.{pkt_zero, predict_header_length}
use projet_trtp.Packet.Decode.{next, exit, crc_of, pkt_decode, decode_steps}
use projet_trtp.Packet.Decode.Steps.{fields}
use projet_trtp.Packet.RoundTrip.Header.{
  first_lem, clear_lem, decode_steps-data, decode_steps-fec, decode_steps-short,
}
use projet_trtp.Packet.Decode.Content.{decode_payload-data, decode_payload-fec}
use projet_trtp.Packet.Encode.{pkt_encode, encode_header, encode_start}
use projet_trtp.Packet.RoundTrip.Wire.{lt_int_small, received, Carries, RoundTrips}

-- One packet on its way: the libraries find memory, the fields are in their ranges, and the receiver
-- has `rest` behind the bytes of the packet.
module _ (libs : Libs) (mem : (k : ℕ) → libs.malloc k ≡ true) (w s time c1 c2 : ℕ)
    (bytes rest : List ℕ) (hw : w < 32) (ht : time < 2 ^ 32) where
  -- The payload and CRC2 behind a header of twelve bytes, as the decoder reads them.
  module _ (n : ℕ) (hl : length bytes ≡ n) (head : List ℕ) (hh : length head ≡ 12) where
    abbrev behind : List ℕ
    behind = (bytes ++ be32 (crc_of libs bytes)) ++ rest

    payload_read : take_exactly n (drop 12 (head ++ behind)) ≡ some bytes
    payload_read =
        rw (drop_of_length 12 head behind hh, append_assoc)
          (take_exactly_of_length n bytes (be32 (crc_of libs bytes) ++ rest) hl)

    word_read : read_at (head ++ behind) (12 + n) 4 ≡ some (be32 (crc_of libs bytes))
    word_read = rw (
      drop-add 12 n (head ++ behind),
      drop_of_length 12 head behind hh,
      append_assoc,
      drop_of_length n bytes (be32 (crc_of libs bytes) ++ rest) hl,
    )

  module _ (n : ℕ) where
    abbrev data_pkt : Pkt
    data_pkt = record (fields ptype_data 0 w n s c1 c2 time) { payload = block bytes }

    abbrev data_out : List ℕ
    data_out = encode_start libs data_pkt ++ (bytes ++ be32 (crc_of libs bytes))

    data_encode :
        length bytes ≡ n → n ≢ 0 → n ≤ 512 → pkt_encode libs data_pkt 528 ≡ some (pkt_ok, data_out)
    unfolding pkt_encode
    data_encode hl ne small =
        rw (ne→== n 0 ne, le→ltb 528 (8 + (n + 4) + 4) (omega arith), take_exactly_all n bytes hl)

    module _ (hl : length bytes ≡ n) (ne : n ≢ 0) (small : n ≤ 512) where
      data_steps :
          decode_steps libs (data_out ++ rest) (length data_out) pkt_zero
          ≡ next tt (received libs data_pkt bytes)
      unfolding predict_header_length
      data_steps =
          let word : List ℕ = be32 (crc_of libs bytes) in
          let size : length (bytes ++ word) ≡ n + 4 = omega (arith, length-append {0} bytes word) in
          let c : ℕ = crc_of libs (encode_header data_pkt) in
          let head : List ℕ = encode_start libs data_pkt in
          decode_steps-data libs 0 w n s time c (length data_out) ((bytes ++ word) ++ rest) _ mem hw
            (omega arith) ht (omega arith) (omega arith) (first_lem ptype_data 0 w hw (omega arith))
            small (lt_int_small (n + 32) (length data_out) (omega arith) (omega arith))
            (rw (clear_lem ptype_data 0 w hw (omega arith)))
          ∙ decode_payload-data libs (data_out ++ rest) bytes word (length data_out) 12 n w s c time
              ne small (omega arith) (mem n) (payload_read n hl head refl)
              (take_exactly_all n bytes hl) (word_read n hl head refl)
              (sym (be_value-be32 (crc_of libs bytes) (omega arith)))
          ∙ rw (be_value-be32 (crc_of libs bytes) (omega arith))

      data_trip : RoundTrips libs data_pkt bytes rest
      unfolding pkt_decode
      data_trip =
          let size = length-append {0} bytes (be32 (crc_of libs bytes)) in
          (data_out, data_encode hl ne small, omega arith, rw data_steps)

    abbrev fec_pkt : Pkt
    fec_pkt = record (fields ptype_fec 0 w n s c1 c2 time) { payload = block bytes }

    abbrev fec_out : List ℕ
    fec_out = encode_start libs fec_pkt ++ (bytes ++ be32 (crc_of libs bytes))

    module _ (hl : length bytes ≡ 512) where
      fec_encode : pkt_encode libs fec_pkt 528 ≡ some (pkt_ok, fec_out)
      unfolding pkt_encode
      fec_encode = rw (take_exactly_all 512 bytes hl)

      fec_steps :
          decode_steps libs (fec_out ++ rest) (length fec_out) pkt_zero
          ≡ next tt (received libs fec_pkt bytes)
      unfolding predict_header_length
      fec_steps =
          let word : List ℕ = be32 (crc_of libs bytes) in
          let size : length (bytes ++ word) ≡ 516 = omega (arith, length-append {0} bytes word) in
          let c : ℕ = crc_of libs (encode_header fec_pkt) in
          let head : List ℕ = encode_start libs fec_pkt in
          decode_steps-fec libs 0 w 512 s time c (length fec_out) ((bytes ++ word) ++ rest) _ mem hw
            (omega arith) ht (omega arith) (omega arith) (first_lem ptype_fec 0 w hw (omega arith))
            refl (omega arith) (lt_int_small 544 (length fec_out) (omega arith) (omega arith))
            (rw (clear_lem ptype_fec 0 w hw (omega arith)))
          ∙ decode_payload-fec libs (fec_out ++ rest) bytes word (length fec_out) 12 512 w s c time
              (omega arith) (omega arith) (mem 512) (payload_read 512 hl head refl)
              (take_exactly_all 512 bytes hl) (word_read 512 hl head refl)
              (sym (be_value-be32 (crc_of libs bytes) (omega arith)))
          ∙ rw (be_value-be32 (crc_of libs bytes) (omega arith))

      fec_trip : RoundTrips libs fec_pkt bytes rest
      unfolding pkt_decode
      fec_trip =
          let size = length-append {0} bytes (be32 (crc_of libs bytes)) in
          (fec_out, fec_encode, omega arith, rw fec_steps)

    module _ (t : Ptypes) (pl : Payload) where
      abbrev ack_pkt : Pkt
      ack_pkt = record (fields t 0 w n s c1 c2 time) { payload = pl }

      abbrev ack_out : List ℕ
      ack_out = encode_start libs ack_pkt

    ack_steps :
        (t : Ptypes) (pl : Payload)
        → (t ≡ ptype_ack) ⊎ (t ≡ ptype_nack)
        → decode_steps libs (ack_out t pl ++ rest) (length (ack_out t pl)) pkt_zero
          ≡ exit pkt_ok (received libs (ack_pkt t pl) bytes)
    unfolding predict_header_length
    ack_steps ptype_fec pl ack = absurd (ground arith)
    ack_steps ptype_data pl ack = absurd (ground arith)
    ack_steps ptype_ack pl ack =
        let c : ℕ = crc_of libs (encode_header (ack_pkt ptype_ack pl)) in
        decode_steps-short libs 0 w 0 s time c 10 rest _ mem hw (omega arith) ht (omega arith)
          (omega arith) ptype_ack ack (first_lem ptype_ack 0 w hw (omega arith))
          (rw (clear_lem ptype_ack 0 w hw (omega arith)))
    ack_steps ptype_nack pl ack =
        let c : ℕ = crc_of libs (encode_header (ack_pkt ptype_nack pl)) in
        decode_steps-short libs 0 w 0 s time c 10 rest _ mem hw (omega arith) ht (omega arith)
          (omega arith) ptype_nack ack (first_lem ptype_nack 0 w hw (omega arith))
          (rw (clear_lem ptype_nack 0 w hw (omega arith)))

    ack_trip :
        (t : Ptypes) (pl : Payload)
        → (t ≡ ptype_ack) ⊎ (t ≡ ptype_nack)
        → RoundTrips libs (ack_pkt t pl) bytes rest
    unfolding pkt_decode pkt_encode
    ack_trip ptype_fec pl ack = absurd (ground arith)
    ack_trip ptype_data pl ack = absurd (ground arith)
    ack_trip ptype_ack pl ack =
        (ack_out ptype_ack pl, refl, omega arith, rw (ack_steps ptype_ack pl ack))
    ack_trip ptype_nack pl ack =
        (ack_out ptype_nack pl, refl, omega arith, rw (ack_steps ptype_nack pl ack))

-- All kinds together, field by field.
pub trip :
    (libs : Libs) (mem : (k : ℕ) → libs.malloc k ≡ true) (t : Ptypes) (r w n s c1 c2 time : ℕ)
    (pl : Payload) (bytes rest : List ℕ)
    → r ≡ 0
    → w < 32
    → time < 2 ^ 32
    → Carries (record (fields t r w n s c1 c2 time) { payload = pl }) bytes
    → RoundTrips libs (record (fields t r w n s c1 c2 time) { payload = pl }) bytes rest
trip libs mem ptype_fec r w n s c1 c2 time pl bytes rest hr hw ht (e, hl) =
    rw (hr, e) (fec_trip libs mem w s time c1 c2 bytes rest hw ht n hl)
trip libs mem ptype_data r w n s c1 c2 time pl bytes rest hr hw ht (e, hl, ne, small) =
    rw (hr, e) (data_trip libs mem w s time c1 c2 bytes rest hw ht n hl ne small)
trip libs mem ptype_ack r w n s c1 c2 time pl bytes rest hr hw ht any =
    rw hr (ack_trip libs mem w s time c1 c2 bytes rest hw ht n ptype_ack pl (inl refl))
trip libs mem ptype_nack r w n s c1 c2 time pl bytes rest hr hw ht any =
    rw hr (ack_trip libs mem w s time c1 c2 bytes rest hw ht n ptype_nack pl (inr refl))
