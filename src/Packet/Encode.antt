-- ===== src/Packet/Encode.antt =====
-- `pkt_encode` of src/packet_implem.c. Each `memcpy` of it writes at `buf + *len` and moves `*len`
-- on, so what it has written is a list of bytes, and `*len` is the length of that list.
pub mod First
pub mod Room
use projet_trtp.Base.{
  ℕ, ◌+◌, ◌*◌, ◌%◌, ◌^◌, ◌&&◌, not, List, [], ◌∷◌, ◌++◌, Option, none, some, bit_and, ltb, ◌==◌,
  if◌then◌else◌, take,
}
use projet_trtp.Base.Bytes.{be16, be32, le32}
use projet_trtp.Packet.Struct.{
  max_payload_size, ptype_fec, ptype_data, type_code, type_is, StatusCode, pkt_ok, e_nomem, Pkt,
  Libs,
}
use projet_trtp.Packet.Access.{pkt_get_payload, predict_header_length}
use projet_trtp.Packet.Decode.{crc_of, payload_bytes}

-- The size that `pkt_encode` compares with the room in the buffer.
unfoldable pub encode_size : Pkt → ℕ
unfolding predict_header_length
encode_size pkt =
    predict_header_length pkt.type
    + (if type_is pkt.type ptype_data && not (pkt.length == 0)
        then pkt.length + 4
        else if type_is pkt.type ptype_fec
        then max_payload_size + 4
        else 0)
    + 4

-- `*buf = type << 6; *buf += window`, in a `char`.
abbrev pub first_byte : Pkt → ℕ
first_byte pkt = (type_code pkt.type * 2 ^ 6 % 256 + pkt.window) % 256

-- The bytes of the length field.
abbrev pub length_field : Pkt → List ℕ
length_field pkt = elim pkt.type [
  | ptype_data ↦ be16 pkt.length
  | ptype_fec ↦ be16 max_payload_size
  | _ ↦ []
]

-- The header with TR at 0, over which CRC1 goes.
abbrev pub encode_header : Pkt → List ℕ
encode_header pkt =
    bit_and (first_byte pkt) 0xdf ∷ (length_field pkt ++ (pkt.seqnum ∷ le32 pkt.timestamp))

-- `*buf += tr << 5`.
abbrev pub add_tr : ℕ → List ℕ → List ℕ
add_tr tr [] = []
add_tr tr (b ∷ bs) = (b + tr * 2 ^ 5) % 256 ∷ bs

-- `n` bytes of the payload and their CRC2; `none` is a read outside the block.
abbrev pub encode_payload : Libs → Pkt → ℕ → List ℕ → Option (StatusCode × List ℕ)
encode_payload libs pkt n out = elim (payload_bytes n (pkt_get_payload pkt)) [
  | none ↦ none
  | some bytes ↦ some (pkt_ok, out ++ (bytes ++ be32 (crc_of libs bytes)))
]

-- What follows CRC1.
abbrev pub encode_tail : Libs → Pkt → List ℕ → Option (StatusCode × List ℕ)
encode_tail libs pkt out =
    if type_is pkt.type ptype_data && (pkt.tr == 0)
    then encode_payload libs pkt pkt.length out
    else if type_is pkt.type ptype_fec
    then encode_payload libs pkt max_payload_size out
    else some (pkt_ok, out)

-- The header and its CRC1.
abbrev pub encode_start : Libs → Pkt → List ℕ
encode_start libs pkt =
    let header = encode_header pkt in
    add_tr pkt.tr (header ++ be32 (crc_of libs (take (predict_header_length pkt.type) header)))

-- The status and what has been written of the buffer, which has room for `room` bytes.
unfoldable pub pkt_encode : Libs → Pkt → ℕ → Option (StatusCode × List ℕ)
unfolding encode_size pkt_get_payload
pkt_encode libs pkt room =
    if ltb room (encode_size pkt)
    then some (e_nomem, [])
    else encode_tail libs pkt (encode_start libs pkt)
