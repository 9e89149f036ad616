-- ===== src/Packet/Encode/First.antt =====
-- The first byte that `pkt_encode` of src/packet_implem.c writes.
use projet_trtp.Base.{
  ℕ, ◌<◌, ◌≡◌, refl, inl, inr, subst, Bool, true, false, ◌&&◌, ltb, ◌==◌, if◌then◌else◌, List, [],
  ◌∷◌, ◌++◌, Option, none, some, Option-cases, arith,
}
use projet_trtp.Base.Bytes.{FirstByte, be32}
use projet_trtp.Packet.Struct.{
  max_payload_size, ptype_fec, ptype_data, type_is, StatusCode, pkt_ok, e_nomem, Pkt, Libs,
}
use projet_trtp.Packet.Access.{pkt_get_payload}
use projet_trtp.Packet.Decode.{crc_of, payload_bytes}
use projet_trtp.Packet.Encode.{pkt_encode, encode_size, encode_start, encode_payload, encode_tail}

same_bytes :
    {o : Option (StatusCode × List ℕ)} {b : ℕ} {bs out : List ℕ}
    → b < 256
    → o ≡ some (pkt_ok, b ∷ bs)
    → o ≡ some (pkt_ok, out)
    → FirstByte out
same_bytes {b = b} {bs = bs} {out = out} small e1 e2 =
    let same : b ∷ bs ≡ out = cc (e1, e2) in subst FirstByte same small

module _ (libs : Libs) (pkt : Pkt) (b : ℕ) (bs out : List ℕ) (small : b < 256) where
  payload_first : (n : ℕ) → encode_payload libs pkt n (b ∷ bs) ≡ some (pkt_ok, out) → FirstByte out
  payload_first n e = elim (Option-cases (payload_bytes n (pkt_get_payload pkt))) [
    | inl h ↦
        (let q : encode_payload libs pkt n (b ∷ bs) ≡ none = rw (encode_payload, h) refl in
          absurd (cc (q, e)))
    | inr (bytes, h) ↦
        let q : encode_payload libs pkt n (b ∷ bs)
            ≡ some (pkt_ok, b ∷ (bs ++ (bytes ++ be32 (crc_of libs bytes)))) =
          rw (encode_payload, h) refl in
        same_bytes small q e
  ]

  tail_first : encode_tail libs pkt (b ∷ bs) ≡ some (pkt_ok, out) → FirstByte out
  tail_first = by_tests (type_is pkt.type ptype_data && (pkt.tr == 0)) (type_is pkt.type ptype_fec)
    where
      by_tests :
          (whole fec : Bool)
          → (if whole
              then encode_payload libs pkt pkt.length (b ∷ bs)
              else if fec
              then encode_payload libs pkt max_payload_size (b ∷ bs)
              else some (pkt_ok, b ∷ bs))
            ≡ some (pkt_ok, out)
          → FirstByte out
      by_tests true fec e = payload_first pkt.length e
      by_tests false true e = payload_first max_payload_size e
      by_tests false false e = same_bytes small refl e

-- `pkt_encode` writes a byte first.
pub encode-FirstByte :
    (libs : Libs) (pkt : Pkt) (out : List ℕ)
    → pkt_encode libs pkt 528 ≡ some (pkt_ok, out)
    → FirstByte out
unfolding pkt_encode
encode-FirstByte libs pkt out e = by_room (ltb 528 (encode_size pkt)) e
  where
    by_room :
        (small : Bool)
        → (if small then some (e_nomem, []) else encode_tail libs pkt (encode_start libs pkt))
          ≡ some (pkt_ok, out)
        → FirstByte out
    by_room true h = absurd (cc h)
    by_room false h = tail_first libs pkt _ _ out (omega arith) h
