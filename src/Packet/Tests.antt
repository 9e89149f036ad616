-- ===== src/Packet/Tests.antt =====
-- Runs of the codecs of src/packet_implem.c, and the theorems about them at concrete packets.
use projet_trtp.Base.{
  ℕ, ◌+◌, ◌*◌, ◌≤◌, ◌≡◌, ◌≢◌, refl, true, List, [], ◌∷◌, ◌++◌, some, none, arith, length, replicate,
}
use mathlib.Core.List.{foldr}
use projet_trtp.Base.Bytes.{be16, be32, le32}
use projet_trtp.Packet.Struct.{
  ptype_data, StatusCode, pkt_ok, e_crc, e_nomem, block, freed, Pkt, Libs,
}
use projet_trtp.Packet.Access.{pkt_zero, pkt_set_payload}
use projet_trtp.Packet.Access.Laws.{
  IsPkt, length as set_length, call, call-IsPkt, set_payload-set_payload_zero,
}
use projet_trtp.Packet.Decode.{pkt_decode, crc_of}
use projet_trtp.Packet.Encode.{pkt_encode, encode_header}
use projet_trtp.Packet.Encode.Room.{encode_room, encode_final}
use projet_trtp.Packet.RoundTrip.{decode-encode}
use projet_trtp.Packet.RoundTrip.Wire.{RoundTrips}
use projet_trtp.Packet.RoundTrip.Truncated.{decode-encode_truncated}
use projet_trtp.Packet.Total.{decode-Accepted}
use projet_trtp.Packet.Total.Spec.{Accepted}
use projet_trtp.Packet.Length.{decode_same}

-- A checksum in place of the CRC, and memory without end.
abbrev libs : Libs
libs = record { malloc = λ _. true; crc32 = λ bytes. foldr (λ b acc. b + 31 * acc) 7 bytes }

abbrev data_pkt : Pkt
data_pkt = record pkt_zero {
  type = ptype_data;
  window = 5;
  length = 3;
  seqnum = 9;
  timestamp = 0x01020304;
  payload = block (72 ∷ 105 ∷ 33 ∷ []);
}

abbrev cut_pkt : Pkt
cut_pkt = record data_pkt { tr = 1 }

abbrev final_pkt : Pkt
final_pkt = record pkt_zero { type = ptype_data; seqnum = 10 }

-- The wire form: type and window, length, sequence number, timestamp, CRC1, payload, CRC2.
abbrev data_wire : List ℕ
data_wire =
    69
    ∷ (be16 3
        ++ (9
            ∷ (le32 0x01020304
                ++ (be32 (crc_of libs (encode_header data_pkt))
                    ++ (72 ∷ 105 ∷ 33 ∷ be32 (crc_of libs (72 ∷ 105 ∷ 33 ∷ [])))))))

encode_data : pkt_encode libs data_pkt 528 ≡ some (pkt_ok, data_wire)
unfolding pkt_encode
encode_data = refl

encode_no_room : pkt_encode libs data_pkt 18 ≡ some (e_nomem, [])
unfolding pkt_encode
encode_no_room = refl

decode-encode_example : RoundTrips libs data_pkt (72 ∷ 105 ∷ 33 ∷ []) (1 ∷ 2 ∷ [])
decode-encode_example =
    decode-encode libs (λ k. refl) data_pkt (72 ∷ 105 ∷ 33 ∷ []) (1 ∷ 2 ∷ []) (omega arith)
      (refl, refl, omega arith, omega arith)

decode-encode_truncated_example :
    (out bs : List ℕ) × (pkt_encode libs cut_pkt 528 ≡ some (pkt_ok, out))
    × (length out ≡ 12)
    × (pkt_decode libs (out ++ replicate 7 1) (length out) pkt_zero
        ≡ some (
          e_crc,
          record cut_pkt {
            crc1 = crc_of libs (encode_header cut_pkt);
            payload = block bs;
            crc2 = 0;
          },
        ))
decode-encode_truncated_example =
    decode-encode_truncated libs (λ k. refl) cut_pkt (replicate 7 1) refl refl (omega arith)
      (omega arith) (omega arith) (omega arith) (omega arith)

decode-Accepted_example :
    (status : StatusCode) × (pkt : Pkt) × (pkt_decode libs (64 ∷ replicate 527 0) 12 pkt_zero
      ≡ some (status, pkt))
    × (status ≡ pkt_ok → Accepted libs (64 ∷ replicate 527 0) pkt)
decode-Accepted_example =
    decode-Accepted libs (λ k. refl) 64 (replicate 527 0) 12 (omega arith) (omega arith)

decode_same_example :
    pkt_decode libs (64 ∷ 0 ∷ 3 ∷ replicate 17 0) 10 pkt_zero
    ≡ pkt_decode libs (64 ∷ 0 ∷ 3 ∷ replicate 17 0) 19 pkt_zero
decode_same_example =
    decode_same libs (64 ∷ 0 ∷ 3 ∷ replicate 17 0) (0 ∷ 3 ∷ []) 10 19 refl (omega arith)
      (omega arith) (omega arith) (omega arith) (omega arith) (omega arith) pkt_zero

encode_room_example : length data_wire ≤ 528
encode_room_example =
    encode_room libs data_pkt 528 data_wire (λ final. absurd (omega (arith, final.2))) encode_data

encode_final_example :
    (out : List ℕ) × (pkt_encode libs final_pkt 12 ≡ some (pkt_ok, out)) × (length out ≡ 16)
encode_final_example = encode_final libs final_pkt 12 (refl, refl, refl) (λ e. cc e) (omega arith)

call-IsPkt_example :
    IsPkt (call (set_length 600) data_pkt).1
    × ((call (set_length 600) data_pkt).0 ≢ pkt_ok → (call (set_length 600) data_pkt).1 ≡ data_pkt)
call-IsPkt_example = call-IsPkt (set_length 600) data_pkt tt (omega arith)

set_payload-set_payload_zero_example :
    (pkt : Pkt) × (pkt_set_payload libs data_pkt [] 0 ≡ some (pkt_ok, pkt))
    × (pkt.payload ≡ freed)
    × (pkt_set_payload libs pkt (1 ∷ []) 1 ≡ none)
set_payload-set_payload_zero_example =
    set_payload-set_payload_zero libs data_pkt [] (1 ∷ []) (72 ∷ 105 ∷ 33 ∷ []) 1 refl refl refl
      (omega arith)
