-- ===== src/Packet/Decode.antt =====
-- `pkt_decode` of src/packet_implem.c, in the order of its steps. `bytes` is the block of memory
-- from the pointer `data` on, which is longer than `len` where the caller's buffer is.
pub mod Ensures
pub mod Steps
pub mod Content
use projet_trtp.Base.{
  ℕ, ◌+◌, ◌/◌, ◌%◌, ◌^◌, Bool, false, ◌&&◌, ◌||◌, not, List, [], ◌∷◌, Option, none, some, bit_and,
  ltb, ◌==◌, if◌then◌else◌, get_elem?, drop,
}
use projet_trtp.Base.Bytes.{take_exactly, read_at, be_value, le_value}
use projet_trtp.Packet.Struct.{
  max_payload_size, pkt_max_headerlen, ptype_fec, ptype_data, ptype_ack, ptype_nack, type_is,
  StatusCode, pkt_ok, e_crc, e_noheader, e_unconsistent, Payload, null, block, freed, Pkt, Libs,
}
use projet_trtp.Packet.Access.{
  pkt_set_type, pkt_set_tr, pkt_set_window, pkt_set_seqnum, pkt_set_length, pkt_set_timestamp,
  pkt_set_crc1, pkt_set_crc2, pkt_set_payload, predict_header_length,
}

-- A run up to some point: it goes on with a value, it has returned a status, or its behaviour is
-- undefined (a read outside the block, a NULL from `malloc` that is used).
pub data Outcome (A : Type 0) : Type 0 where
  next : A → Pkt → Outcome A
  exit : StatusCode → Pkt → Outcome A
  fault : Outcome A

-- The packet is the state.
abbrev pub Step : Type 0 → Type 0
Step A = Pkt → Outcome A

infixl 5 ◌>>=◌ ◌>>◌
abbrev pub ◌>>=◌ : {A B : Type 0} → Step A → (A → Step B) → Step B
◌>>=◌ m f pkt = elim (m pkt) [
  | next a pkt' ↦ f a pkt'
  | exit status pkt' ↦ exit status pkt'
  | fault ↦ fault
]

abbrev pub ◌>>◌ : {B : Type 0} → Step (Unit {0}) → Step B → Step B
m >> k = m >>= λ _. k

abbrev pub pure : {A : Type 0} → A → Step A
pure a pkt = next a pkt

abbrev pub get : Step Pkt
get pkt = next pkt pkt

-- `if (test) return status;`
abbrev pub exit_if : Bool → StatusCode → Step (Unit {0})
exit_if test status pkt = if test then exit status pkt else next tt pkt

-- `error = set(pkt, …); if (error != PKT_OK) return error;`
abbrev pub attempt : (Pkt → StatusCode × Pkt) → Step (Unit {0})
attempt set pkt =
    let (status, pkt') = set pkt in elim status [ pkt_ok ↦ next tt pkt' | other ↦ exit other pkt' ]

-- The same for a setter that may go wrong.
abbrev pub attempt_copy : (Pkt → Option (StatusCode × Pkt)) → Step (Unit {0})
attempt_copy set pkt = elim (set pkt) [ none ↦ fault | some r ↦ attempt (λ _. r) pkt ]

abbrev pub from_option : {A : Type 0} → Option A → Step A
from_option o pkt = elim o [ none ↦ fault | some a ↦ next a pkt ]

-- `(int) len`, compared: `a < (int) len` for an `a` that is not negative.
abbrev pub lt_int : ℕ → ℕ → Bool
lt_int a len = let low = len % 2 ^ 32 in if ltb low (2 ^ 31) then ltb a low else false

abbrev pub crc_of : Libs → List ℕ → ℕ
crc_of libs bytes = libs.crc32 bytes % 2 ^ 32

-- `*header = *header & 0b11011111`.
abbrev pub clear_tr : List ℕ → List ℕ
clear_tr [] = []
clear_tr (b ∷ bs) = bit_and b 0xdf ∷ bs

-- The first `n` bytes behind the pointer `payload`.
abbrev pub payload_bytes : ℕ → Payload → Option (List ℕ)
payload_bytes n null = take_exactly n []
payload_bytes n (block bytes) = take_exactly n bytes
payload_bytes n freed = none

-- Type, TR and window, from the first byte.
unfoldable pub decode_first : List ℕ → Step (Unit {0})
unfolding pkt_set_type pkt_set_tr pkt_set_window
decode_first bytes = do
  first ← from_option (get_elem? bytes 0)
  attempt (λ pkt. pkt_set_type pkt (first / 2 ^ 6))
  attempt (λ pkt. pkt_set_tr pkt (bit_and first 0x20 / 2 ^ 5))
  attempt (λ pkt. pkt_set_window pkt (bit_and first 0x1f))

-- The length, where the type has one; the result is `length` and `offset`.
unfoldable pub decode_length : List ℕ → ℕ → Step (ℕ × ℕ)
unfolding pkt_set_length
decode_length bytes len = do
  pkt ← get
  if type_is pkt.type ptype_data || type_is pkt.type ptype_fec
      then (do
        word ← from_option (read_at bytes 1 2)
        attempt (λ pkt. pkt_set_length pkt (be_value 0 word))
        exit_if (lt_int (be_value 0 word + 32) len) e_unconsistent
        pure (be_value 0 word, 3))
      else pure (0, 1)

-- Sequence number, timestamp and CRC1; the result is `crc1`.
unfoldable pub decode_rest : List ℕ → ℕ → Step ℕ
unfolding pkt_set_seqnum pkt_set_timestamp pkt_set_crc1
decode_rest bytes offset = do
  seqnum ← from_option (get_elem? bytes offset)
  attempt (λ pkt. pkt_set_seqnum pkt seqnum)
  time ← from_option (read_at bytes (offset + 1) 4)
  attempt (λ pkt. pkt_set_timestamp pkt (le_value time))
  crc ← from_option (read_at bytes (offset + 5) 4)
  attempt (λ pkt. pkt_set_crc1 pkt (be_value 0 crc))
  pure (be_value 0 crc)

-- The check of the header: its CRC with TR at 0 must be `crc1`.
unfoldable pub check_header : Libs → List ℕ → ℕ → Step (Unit {0})
unfolding pkt_set_crc1 predict_header_length
check_header libs bytes crc1 = do
  pkt ← get
  exit_if (ltb pkt_max_headerlen (predict_header_length pkt.type)) e_unconsistent
  from_option (if libs.malloc (predict_header_length pkt.type) then some tt else none)
  header ← from_option (read_at bytes 0 (predict_header_length pkt.type))
  attempt (λ pkt. pkt_set_crc1 pkt (crc_of libs (clear_tr header)))
  exit_if (not (crc_of libs (clear_tr header) == crc1)) e_crc

-- The comparison of CRC2 with the CRC of the payload.
unfoldable pub check_payload : Libs → ℕ → Step (Unit {0})
check_payload libs crc2 = do
  pkt ← get
  if type_is pkt.type ptype_fec
      then (do
        payload ← from_option (payload_bytes max_payload_size pkt.payload)
        exit_if (not (crc_of libs payload == crc2)) e_crc)
      else if type_is pkt.type ptype_data && (pkt.tr == 0)
      then (do
        payload ← from_option (payload_bytes pkt.length pkt.payload)
        exit_if (not (crc_of libs payload == crc2)) e_crc)
      else pure tt

-- The copy of the payload and CRC2; the result is `crc2`.
unfoldable pub copy_in : Libs → List ℕ → ℕ → ℕ → Step ℕ
copy_in libs bytes offset length = do
  attempt_copy (λ pkt. pkt_set_payload libs pkt (drop offset bytes) length)
  pkt ← get
  word ← from_option (
      read_at bytes
        (if type_is pkt.type ptype_fec then offset + max_payload_size else offset + length) 4)
  attempt (λ pkt. pkt_set_crc2 pkt (be_value 0 word))
  pure (be_value 0 word)

-- Everything behind the header. The caller has `len`, `offset` and `length`.
unfoldable pub decode_payload : Libs → List ℕ → ℕ → ℕ → ℕ → Step (Unit {0})
decode_payload libs bytes len offset length = do
  pkt ← get
  exit_if
      (type_is pkt.type ptype_ack
        || type_is pkt.type ptype_nack
        || (type_is pkt.type ptype_data && (pkt.length == 0)))
      pkt_ok
  exit_if (ltb (max_payload_size + 32) len) e_unconsistent
  crc2 ← copy_in libs bytes offset length
  check_payload libs crc2

-- The body of `pkt_decode`, up to its last `return PKT_OK`.
unfoldable pub decode_steps : Libs → List ℕ → ℕ → Step (Unit {0})
decode_steps libs bytes len = do
  exit_if (len == 0) e_unconsistent
  exit_if (ltb len 6) e_noheader
  exit_if (ltb len 10) e_crc
  decode_first bytes
  (length, offset) ← decode_length bytes len
  crc1 ← decode_rest bytes offset
  check_header libs bytes crc1
  decode_payload libs bytes len (offset + 9) length

abbrev pub returned : Outcome (Unit {0}) → Option (StatusCode × Pkt)
returned (next _ pkt) = some (pkt_ok, pkt)
returned (exit status pkt) = some (status, pkt)
returned fault = none

-- The status and the packet as `pkt_decode` leaves it; `none` is undefined behaviour.
unfoldable pub pkt_decode : Libs → List ℕ → ℕ → Pkt → Option (StatusCode × Pkt)
unfolding decode_steps
pkt_decode libs bytes len pkt = returned (decode_steps libs bytes len pkt)
