-- ===== src/Packet/RoundTrip/Truncated.antt =====
-- A truncated packet on its way, of src/packet_implem.c.
use projet_trtp.Base.{
  ℕ, ◌+◌, ◌≤◌, ◌<◌, ◌^◌, ◌≡◌, ◌≢◌, ◌∙◌, refl, true, List, ◌++◌, some, arith, length, le→ltb, ne→==,
}
use projet_trtp.Base.Bytes.{take_exactly-in, read_at-in}
use projet_trtp.Packet.Struct.{Ptypes, ptype_data, pkt_ok, e_crc, Payload, block, Pkt, Libs}
use projet_trtp.Packet.Access.{pkt_zero, predict_header_length}
use projet_trtp.Packet.Decode.{exit, decode_steps, pkt_decode, crc_of}
use projet_trtp.Packet.Decode.Steps.{fields}
use projet_trtp.Packet.Decode.Content.{decode_payload-truncated}
use projet_trtp.Packet.RoundTrip.Header.{first_lem, clear_lem, decode_steps-data}
use projet_trtp.Packet.RoundTrip.Wire.{lt_int_small}
use projet_trtp.Packet.Encode.{encode_header, encode_start, pkt_encode}

module _ (libs : Libs) (mem : (k : ℕ) → libs.malloc k ≡ true) (w n s c1 c2 time : ℕ) (pl : Payload)
    (rest : List ℕ) (hw : w < 32) (ht : time < 2 ^ 32) (ne : n ≢ 0) (small : n ≤ 512)
    (room : n + 4 ≤ length rest) where
  abbrev cut : Pkt
  cut = record (fields ptype_data 1 w n s c1 c2 time) { payload = pl }

  abbrev out : List ℕ
  out = encode_start libs cut

  cut_steps :
      (bs : List ℕ) × (decode_steps libs (out ++ rest) (length out) pkt_zero
        ≡ exit e_crc (record (fields ptype_data 1 w n s (crc_of libs (encode_header cut)) 0 time) {
          payload = block bs;
        }))
  unfolding predict_header_length
  cut_steps =
      let c : ℕ = crc_of libs (encode_header cut) in
      let (bs, hb, _) = take_exactly-in n rest (omega arith) in
      let (word, hword, _) = read_at-in (out ++ rest) (12 + n) 4 (omega arith) in
      (
        bs,
        decode_steps-data libs 1 w n s time c 12 rest _ mem hw (omega arith) ht (omega arith)
              (omega arith) (first_lem ptype_data 1 w hw (omega arith)) small
              (lt_int_small (n + 32) 12 (omega arith) (omega arith))
              (rw (clear_lem ptype_data 1 w hw (omega arith)))
            ∙ decode_payload-truncated libs (out ++ rest) bs word 12 12 n w s c time ne small
                (omega arith) (mem n) hb hword,
      )

-- A PTYPE_DATA packet with TR at 1 and a length goes out as its header and CRC1 alone, and where the
-- receiver's buffer has `length + 4` bytes behind them `pkt_decode` returns E_CRC with the type, TR,
-- window, length, sequence number and timestamp of the packet, from which the receiver answers.
pub decode-encode_truncated :
    (libs : Libs) (mem : (k : ℕ) → libs.malloc k ≡ true) (pkt : Pkt) (rest : List ℕ)
    → pkt.type ≡ ptype_data
    → pkt.tr ≡ 1
    → pkt.window < 32
    → pkt.timestamp < 2 ^ 32
    → pkt.length ≢ 0
    → pkt.length ≤ 512
    → pkt.length + 4 ≤ length rest
    → (out bs : List ℕ) × (pkt_encode libs pkt 528 ≡ some (pkt_ok, out))
      × (length out ≡ 12)
      × (pkt_decode libs (out ++ rest) (length out) pkt_zero
          ≡ some (
            e_crc,
            record pkt { crc1 = crc_of libs (encode_header pkt); payload = block bs; crc2 = 0 },
          ))
unfolding pkt_decode pkt_encode
decode-encode_truncated libs mem pkt rest ht hr hw htime ne small room =
    by_fields pkt.type pkt.tr ht hr
  where
    by_fields :
        (t : Ptypes) (r : ℕ)
        → t ≡ ptype_data
        → r ≡ 1
        → (out bs : List ℕ) × (pkt_encode libs (record pkt { type = t; tr = r }) 528
            ≡ some (pkt_ok, out))
          × (length out ≡ 12)
          × (pkt_decode libs (out ++ rest) (length out) pkt_zero
              ≡ some (
                e_crc,
                record pkt {
                  type = t;
                  tr = r;
                  crc1 = crc_of libs (encode_header (record pkt { type = t; tr = r }));
                  payload = block bs;
                  crc2 = 0;
                },
              ))
    by_fields t r et er =
        let (bs, e) =
          cut_steps libs mem pkt.window pkt.length pkt.seqnum pkt.crc1 pkt.crc2 pkt.timestamp
            pkt.payload rest hw htime ne small room in
        rw (et, er)
          (
            encode_start libs (record pkt { type = ptype_data; tr = 1 }),
            bs,
            rw (ne→== pkt.length 0 ne, le→ltb 528 (8 + (pkt.length + 4) + 4) (omega arith)),
            refl,
            rw e,
          )
