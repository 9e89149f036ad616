-- ===== src/Fec.antt =====
-- `fec_generation` of src/fec.c. `none` is undefined behaviour: a read outside a payload, or a NULL of
-- `malloc` that is used.
pub mod Parity
mod Tests
use projet_trtp.Base.{
  ℕ, zero, suc, ◌+◌, List, [], ◌∷◌, Option, none, some, bit_xor, ltb, if◌then◌else◌, get_elem?,
}
use projet_trtp.Packet.Struct.{max_payload_size, Payload, null, block, freed, Pkt, Libs}
use projet_trtp.Packet.Access.{
  pkt_new, pkt_get_payload, pkt_set_length, pkt_set_payload, pkt_set_seqnum,
}

infixl 5 ◌>>=◌
abbrev pub ◌>>=◌ : {A B : Type 0} → Option A → (A → Option B) → Option B
none >>= f = none
some a >>= f = f a

-- `payload[i]`.
abbrev pub byte_at : Payload → ℕ → Option ℕ
byte_at null i = none
byte_at (block bytes) i = get_elem? bytes i
byte_at freed i = none

-- `(i < length) ? payload[i] : 0`.
abbrev pub padded_at : (length : ℕ) → Payload → ℕ → Option ℕ
padded_at length payload i = if ltb i length then byte_at payload i else some 0

-- One byte of the parity. The fourth operand is read from the third payload, as the source has it.
unfoldable pub xor_byte : (pkt1 pkt2 pkt3 pkt4 : Pkt) → ℕ → Option ℕ
unfolding pkt_get_payload
xor_byte pkt1 pkt2 pkt3 pkt4 i = do
  payload1 ← padded_at pkt1.length (pkt_get_payload pkt1) i
  payload2 ← padded_at pkt2.length (pkt_get_payload pkt2) i
  payload3 ← padded_at pkt3.length (pkt_get_payload pkt3) i
  payload4 ← padded_at pkt4.length (pkt_get_payload pkt3) i
  some (bit_xor (bit_xor (bit_xor payload1 payload2) payload3) payload4)

-- `n` rounds of the loop, from `i` on.
unfoldable pub xor_loop : (pkt1 pkt2 pkt3 pkt4 : Pkt) → (n i : ℕ) → Option (List ℕ)
xor_loop pkt1 pkt2 pkt3 pkt4 zero i = some []
xor_loop pkt1 pkt2 pkt3 pkt4 (suc n) i = do
  byte ← xor_byte pkt1 pkt2 pkt3 pkt4 i
  rest ← xor_loop pkt1 pkt2 pkt3 pkt4 n (i + 1)
  some (byte ∷ rest)

abbrev pub xor_length : (pkt1 pkt2 pkt3 pkt4 : Pkt) → ℕ
xor_length pkt1 pkt2 pkt3 pkt4 =
    bit_xor (bit_xor (bit_xor pkt1.length pkt2.length) pkt3.length) pkt4.length

-- The packet around the parity. The statuses of the setters are not looked at.
unfoldable pub fec_packet : Libs → (length seqnum : ℕ) → List ℕ → Option Pkt
unfolding pkt_new pkt_set_length pkt_set_seqnum
fec_packet libs length seqnum xor_payload = do
  fec_pkt ← pkt_new libs
  (status, fec_pkt') ←
      pkt_set_payload libs (pkt_set_length fec_pkt length).1 xor_payload max_payload_size
  some (pkt_set_seqnum fec_pkt' seqnum).1

-- `larger_pkt` of the source is never used.
unfoldable pub fec_generation : Libs → (pkt1 pkt2 pkt3 pkt4 : Pkt) → Option Pkt
fec_generation libs pkt1 pkt2 pkt3 pkt4 = do
  xor_payload ← xor_loop pkt1 pkt2 pkt3 pkt4 max_payload_size 0
  fec_packet libs (xor_length pkt1 pkt2 pkt3 pkt4) pkt1.seqnum xor_payload
