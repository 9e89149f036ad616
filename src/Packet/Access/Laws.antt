-- ===== src/Packet/Access/Laws.antt =====
-- What the setters of src/packet_implem.c keep, and `pkt_set_payload` on its branches.
use projet_trtp.Base.{ℕ, ◌≤◌, ◌<◌, ◌^◌, ◌≡◌, ◌≢◌, refl, List, none, some, arith}
use projet_trtp.Packet.Struct.{ptype_data, StatusCode, pkt_ok, Pkt, Libs, block, freed}
use projet_trtp.Packet.Access.{
  pkt_set_type, pkt_set_tr, pkt_set_window, pkt_set_seqnum, pkt_set_length, pkt_set_timestamp,
  pkt_set_crc1, pkt_set_crc2, pkt_set_payload,
}

-- The fields lie in the bounds of the header file and of their bit fields.
pub record IsPkt (pkt : Pkt) : Type 0 where
  pub tr : pkt.tr ≤ 1
  pub window : pkt.window ≤ 31
  pub length : pkt.length ≤ 512
  pub seqnum : pkt.seqnum < 256
  pub timestamp : pkt.timestamp < 2 ^ 32
  pub crc1 : pkt.crc1 < 2 ^ 32
  pub crc2 : pkt.crc2 < 2 ^ 32

-- A call of one of the setters of a single field, which are all but `pkt_set_payload`.
pub data SetterCall : Type 0 where
  type tr window seqnum length timestamp crc1 crc2 : ℕ → SetterCall

unfoldable pub call : SetterCall → Pkt → StatusCode × Pkt
unfolding pkt_set_type pkt_set_tr pkt_set_window pkt_set_seqnum pkt_set_length pkt_set_timestamp
    pkt_set_crc1 pkt_set_crc2
call (type n) pkt = pkt_set_type pkt n
call (tr n) pkt = pkt_set_tr pkt n
call (window n) pkt = pkt_set_window pkt n
call (seqnum n) pkt = pkt_set_seqnum pkt n
call (length n) pkt = pkt_set_length pkt n
call (timestamp n) pkt = pkt_set_timestamp pkt n
call (crc1 n) pkt = pkt_set_crc1 pkt n
call (crc2 n) pkt = pkt_set_crc2 pkt n

-- The argument has the width of its C type, where no test of the setter bounds it.
abbrev pub Width : SetterCall → Type 0
Width (seqnum n) = n < 256
Width (timestamp n) = n < 2 ^ 32
Width (crc1 n) = n < 2 ^ 32
Width (crc2 n) = n < 2 ^ 32
Width _ = Unit {0}

-- Each setter but `pkt_set_payload`, on any argument of its C type, keeps the fields in their bounds, and
-- leaves the packet as it was where its status is not PKT_OK.
pub call-IsPkt :
    (c : SetterCall) (pkt : Pkt)
    → Width c
    → IsPkt pkt
    → IsPkt (call c pkt).1 × ((call c pkt).0 ≢ pkt_ok → (call c pkt).1 ≡ pkt)
unfolding call
call-IsPkt (type n) pkt w v = ground arith
call-IsPkt (tr n) pkt w v = ground arith
call-IsPkt (window n) pkt w v = ground arith
call-IsPkt (seqnum n) pkt w v = ground arith
call-IsPkt (length n) pkt w v = ground arith
call-IsPkt (timestamp n) pkt w v = ground arith
call-IsPkt (crc1 n) pkt w v = ground arith
call-IsPkt (crc2 n) pkt w v = ground arith

-- On a PTYPE_DATA packet that is not truncated and holds a payload, `pkt_set_payload` with the length
-- 0 returns PKT_OK and leaves the pointer to the freed block, so that the next `pkt_set_payload`
-- with a length in bounds frees the block again.
pub set_payload-set_payload_zero :
    (libs : Libs) (pkt : Pkt) (source source' held : List ℕ) (n : ℕ)
    → pkt.type ≡ ptype_data
    → pkt.tr ≡ 0
    → pkt.payload ≡ block held
    → n ≤ 512
    → (pkt' : Pkt) × (pkt_set_payload libs pkt source 0 ≡ some (pkt_ok, pkt'))
      × (pkt'.payload ≡ freed)
      × (pkt_set_payload libs pkt' source' n ≡ none)
unfolding pkt_set_payload
set_payload-set_payload_zero libs pkt source source' held n ht hr hp small =
    (record pkt { length = 0; payload = freed }, ground arith, refl, ground arith)
