-- ===== src/Packet/Encode/Room.antt =====
-- How much of the buffer `pkt_encode` of src/packet_implem.c fills.
use projet_trtp.Base.{
  ℕ, ◌+◌, ◌≤◌, ◌≡◌, ◌≢◌, ◌∙◌, ap, inl, inr, List, [], ◌++◌, some, arith, ltb, ltb→le, length,
  length-append, Bool-cases, Option-cases,
}
use projet_trtp.Base.Bytes.{be32, length-take_exactly}
use projet_trtp.Packet.Struct.{
  ptype_data, StatusCode, pkt_ok, Payload, null, block, freed, Pkt, Libs,
}
use projet_trtp.Packet.Access.{pkt_get_payload, predict_header_length}
use projet_trtp.Packet.Decode.{crc_of, payload_bytes}
use projet_trtp.Packet.Encode.{encode_size, encode_start, encode_payload, encode_tail, pkt_encode}

length-payload_bytes :
    (n : ℕ) (pl : Payload) (bytes : List ℕ) → payload_bytes n pl ≡ some bytes → length bytes ≡ n
length-payload_bytes n null bytes e = length-take_exactly n [] bytes e
length-payload_bytes n (block source) bytes e = length-take_exactly n source bytes e
length-payload_bytes n freed bytes e = absurd (cc e)

-- The payload and CRC2 are `n + 4` bytes.
length-encode_payload :
    (libs : Libs) (pkt : Pkt) (n : ℕ) (start out : List ℕ) (status : StatusCode)
    → encode_payload libs pkt n start ≡ some (status, out)
    → (length out ≡ length start + n + 4) × (status ≡ pkt_ok)
length-encode_payload libs pkt n start out status e =
    elim (Option-cases (payload_bytes n (pkt_get_payload pkt))) [
      | inl fault ↦ absurd (cc (rw (fault, encode_payload) at e))
      | inr (bytes, h) ↦ ground (
        arith,
        length-payload_bytes n (pkt_get_payload pkt) bytes h,
        length-append start (bytes ++ be32 (crc_of libs bytes)),
        length-append bytes (be32 (crc_of libs bytes)),
      )
    ]

length-encode_start :
    (libs : Libs) (pkt : Pkt) → length (encode_start libs pkt) ≡ predict_header_length pkt.type + 4
unfolding predict_header_length
length-encode_start libs pkt = ground arith

-- The final packet of a transfer: PTYPE_DATA, not truncated, with no payload.
abbrev pub IsFinal : Pkt → Type 0
IsFinal pkt = (pkt.type ≡ ptype_data) × (pkt.tr ≡ 0) × (pkt.length ≡ 0)

encode_tail-le :
    (libs : Libs) (pkt : Pkt) (room : ℕ) (out : List ℕ)
    → ¬ IsFinal pkt
    → encode_size pkt ≤ room
    → encode_tail libs pkt (encode_start libs pkt) ≡ some (pkt_ok, out)
    → length out ≤ room
unfolding encode_size predict_header_length
encode_tail-le libs pkt room out other fits e = ground (
  arith,
  length-encode_start libs pkt,
  length-encode_payload libs pkt pkt.length (encode_start libs pkt) out pkt_ok,
  length-encode_payload libs pkt 512 (encode_start libs pkt) out pkt_ok,
)

-- Where `pkt_encode` returns PKT_OK it has written no more bytes than the buffer has room for, unless
-- the packet is the final one of a transfer.
pub encode_room :
    (libs : Libs) (pkt : Pkt) (room : ℕ) (out : List ℕ)
    → ¬ IsFinal pkt
    → pkt_encode libs pkt room ≡ some (pkt_ok, out)
    → length out ≤ room
unfolding pkt_encode predict_header_length
encode_room libs pkt room out other e = elim (Bool-cases (ltb room (encode_size pkt))) [
  | inl small ↦ absurd (cc (rw small at e))
  | inr fits ↦ encode_tail-le libs pkt room out other (ltb→le _ _ fits) (rw fits at e)
]

-- Of the final packet it writes sixteen bytes as soon as there is room for twelve: CRC2 is not
-- counted by the check.
pub encode_final :
    (libs : Libs) (pkt : Pkt) (room : ℕ)
    → IsFinal pkt
    → pkt.payload ≢ freed
    → 12 ≤ room
    → (out : List ℕ) × (pkt_encode libs pkt room ≡ some (pkt_ok, out)) × (length out ≡ 16)
unfolding pkt_encode predict_header_length
encode_final libs pkt room (ht, hr, hn) held fits =
    let start : List ℕ = encode_start libs pkt in
    let eight : predict_header_length pkt.type ≡ 8 = rw ht in
    let size : length start ≡ 12 = omega (arith, length-encode_start libs pkt) in
    let word : List ℕ = be32 (crc_of libs []) in
    (start ++ word, ground arith, length-append start word ∙ ap (λ (k : ℕ). k + 4) size)
