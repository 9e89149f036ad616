-- ===== src/Packet/RoundTrip/Final.antt =====
-- The packet with which a file ends, a PTYPE_DATA packet of length 0, through `pkt_encode` and `pkt_decode`
-- of src/packet_implem.c.
use projet_trtp.Base.{ℕ, ◌^◌, ◌<◌, ◌≡◌, refl, true, List, [], ◌++◌, some, arith, length}
use projet_trtp.Base.Bytes.{be32}
use projet_trtp.Packet.Struct.{ptype_data, pkt_ok, Pkt, Libs}
use projet_trtp.Packet.Access.{pkt_zero, pkt_get_payload, predict_header_length}
use projet_trtp.Packet.Decode.{exit, crc_of, pkt_decode, decode_steps, decode_payload}
use projet_trtp.Packet.Decode.Steps.{fields}
use projet_trtp.Packet.RoundTrip.Header.{first_lem, clear_lem, decode_steps-data}
use projet_trtp.Packet.RoundTrip.Wire.{lt_int_small}
use projet_trtp.Packet.Encode.{pkt_encode, encode_header, encode_start}

module _ (libs : Libs) (mem : (k : ℕ) → libs.malloc k ≡ true) (w s c1 c2 time : ℕ) (rest : List ℕ)
    (hw : w < 32) (ht : time < 2 ^ 32) where
  abbrev pub final : Pkt
  final = fields ptype_data 0 w 0 s c1 c2 time

  abbrev pub final_out : List ℕ
  final_out = encode_start libs final ++ be32 (crc_of libs [])

  final_steps :
      decode_steps libs (final_out ++ rest) (length final_out) pkt_zero
      ≡ exit pkt_ok (fields ptype_data 0 w 0 s (crc_of libs (encode_header final)) 0 time)
  unfolding predict_header_length decode_payload
  final_steps =
      let word : List ℕ = be32 (crc_of libs []) in
      let c : ℕ = crc_of libs (encode_header final) in
      decode_steps-data libs 0 w 0 s time c 16 (word ++ rest) _ mem hw (omega arith) ht
        (omega arith) (omega arith) (first_lem ptype_data 0 w hw (omega arith)) (omega arith)
        (lt_int_small 32 16 (omega arith) (omega arith))
        (rw (clear_lem ptype_data 0 w hw (omega arith)))

  pub final_trip :
      (pkt_encode libs final 528 ≡ some (pkt_ok, final_out))
      × (pkt_decode libs (final_out ++ rest) (length final_out) pkt_zero
          ≡ some (pkt_ok, fields ptype_data 0 w 0 s (crc_of libs (encode_header final)) 0 time))
  unfolding pkt_encode pkt_decode pkt_get_payload
  final_trip = (refl, rw final_steps)
