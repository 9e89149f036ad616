-- ===== src/Packet/Length.antt =====
-- What `len` is to `pkt_decode` of src/packet_implem.c.
use projet_trtp.Base.{ℕ, ◌+◌, ◌≤◌, ◌≡◌, List, some, arith, le→ltb, ne→==}
use mathlib.Core.Path.{fun_ext}
use projet_trtp.Base.Bytes.{read_at, be_value}
use projet_trtp.Packet.Struct.{Pkt, Libs}
use projet_trtp.Packet.Decode.{decode_length, decode_payload, pkt_decode}

module _ (libs : Libs) (bytes word : List ℕ) (len len' : ℕ) (hw : read_at bytes 1 2 ≡ some word)
    (lo : 10 ≤ len) (lo' : 10 ≤ len') (hi : len ≤ be_value 0 word + 32)
    (hi' : len' ≤ be_value 0 word + 32) (max : len ≤ 544) (max' : len' ≤ 544) where
  length_same : decode_length bytes len ≡ decode_length bytes len'
  unfolding decode_length
  length_same = fun_ext λ pkt. rw hw (ground arith)

  payload_same :
      (offset n : ℕ)
      → decode_payload libs bytes len offset n ≡ decode_payload libs bytes len' offset n
  unfolding decode_payload
  payload_same offset n = fun_ext λ pkt. rw (le→ltb 544 len max, le→ltb 544 len' max')

  -- `pkt_decode` gives the same result for any two sizes of a datagram from 10 bytes up to the value
  -- of the length field and 32, so it does not see that bytes are missing and reads what the
  -- buffer held before in their place.
  pub decode_same : (pkt : Pkt) → pkt_decode libs bytes len pkt ≡ pkt_decode libs bytes len' pkt
  unfolding pkt_decode
  decode_same pkt =
      rw
        (
          ne→== len 0 (omega arith),
          le→ltb len 6 (omega arith),
          le→ltb len 10 lo,
          ne→== len' 0 (omega arith),
          le→ltb len' 6 (omega arith),
          le→ltb len' 10 lo',
        )
        (simp (length_same, payload_same))
