-- ===== src/Fec/Parity.antt =====
-- What the parity of `fec_generation` of src/fec.c depends on.
use projet_trtp.Base.{
  ℕ, zero, suc, ◌+◌, ◌≤◌, ◌<◌, ◌≡◌, refl, true, List, [], ◌∷◌, some, bit_xor, ltb, if◌then◌else◌,
  get_elem?, get_or, arith, length, Bool-cases, inl, inr, ap,
}
use projet_trtp.Packet.Struct.{ptype_data, block, Pkt, Libs}
use projet_trtp.Packet.Access.{pkt_zero, pkt_set_payload}
use projet_trtp.Base.Bytes.{take_exactly_all}
use projet_trtp.Fec.{fec_packet, xor_byte, xor_loop, xor_length, fec_generation}

module _ (libs : Libs) (pkt1 pkt2 pkt3 pkt4 pkt4' : Pkt) (e : pkt4.length ≡ pkt4'.length) where
  xor_byte_same : (i : ℕ) → xor_byte pkt1 pkt2 pkt3 pkt4 i ≡ xor_byte pkt1 pkt2 pkt3 pkt4' i
  unfolding xor_byte
  xor_byte_same i = rw e

  xor_loop_same : (n i : ℕ) → xor_loop pkt1 pkt2 pkt3 pkt4 n i ≡ xor_loop pkt1 pkt2 pkt3 pkt4' n i
  unfolding xor_loop
  xor_loop_same zero i = refl
  xor_loop_same (suc n) i = rw (xor_byte_same i, xor_loop_same n (i + 1))

  -- The parity packet does not depend on the payload of the fourth packet: two fourth packets of the
  -- same length give the same parity packet, whatever they carry.
  pub fec_generation_same :
      fec_generation libs pkt1 pkt2 pkt3 pkt4 ≡ fec_generation libs pkt1 pkt2 pkt3 pkt4'
  unfolding fec_generation
  fec_generation_same = rw (xor_loop_same 512 0, e)

-- The packet is an untruncated PTYPE_DATA packet with the payload `bytes`.
pub record Holds (pkt : Pkt) (bytes : List ℕ) : Type 0 where
  pub data_type : pkt.type ≡ ptype_data
  pub untruncated : pkt.tr ≡ 0
  pub held : pkt.payload ≡ block bytes
  pub size : length bytes ≡ pkt.length

get_elem?-eq-get_or :
    (bytes : List ℕ) (i : ℕ) → i < length bytes → get_elem? bytes i ≡ some (get_or bytes i 0)
get_elem?-eq-get_or [] i h = elim h [ ]
get_elem?-eq-get_or (x ∷ xs) zero h = refl
get_elem?-eq-get_or (x ∷ xs) (suc i) h = get_elem?-eq-get_or xs i (omega arith)

get_or_past : (bytes : List ℕ) (i : ℕ) → length bytes ≤ i → get_or bytes i 0 ≡ 0
get_or_past [] i h = refl
get_or_past (x ∷ xs) zero h = absurd (omega arith)
get_or_past (x ∷ xs) (suc i) h = get_or_past xs i (omega arith)

fec_packet_lem :
    (libs : Libs) (mem : (k : ℕ) → libs.malloc k ≡ true) (n seqnum : ℕ) (bytes : List ℕ)
    → length bytes ≡ 512
    → fec_packet libs n seqnum bytes
      ≡ some (record pkt_zero {
        length = if ltb 512 n then 0 else n;
        seqnum = seqnum;
        payload = block bytes;
      })
unfolding fec_packet pkt_set_payload
fec_packet_lem libs mem n seqnum bytes size = elim (Bool-cases (ltb 512 n)) [
  | inl large ↦ rw (large, mem 24, mem 512, take_exactly_all 512 bytes size)
  | inr small ↦ rw (small, mem 24, mem 512, take_exactly_all 512 bytes size)
]

-- One byte of the parity, of payloads that are taken to go on with zeros.
abbrev pub parity : (bytes1 bytes2 bytes3 : List ℕ) (length4 i : ℕ) → ℕ
parity bytes1 bytes2 bytes3 length4 i =
    bit_xor (bit_xor (bit_xor (get_or bytes1 i 0) (get_or bytes2 i 0)) (get_or bytes3 i 0))
      (if ltb i length4 then get_or bytes3 i 0 else 0)

module _ (pkt1 pkt2 pkt3 pkt4 : Pkt) (bytes1 bytes2 bytes3 : List ℕ) (h1 : Holds pkt1 bytes1)
    (h2 : Holds pkt2 bytes2) (h3 : Holds pkt3 bytes3) (short : pkt4.length ≤ pkt3.length) where
  xor_byte-parity :
      (i : ℕ) → xor_byte pkt1 pkt2 pkt3 pkt4 i ≡ some (parity bytes1 bytes2 bytes3 pkt4.length i)
  unfolding xor_byte
  xor_byte-parity i = ground (
    arith,
    get_elem?-eq-get_or bytes1 i,
    get_elem?-eq-get_or bytes2 i,
    get_elem?-eq-get_or bytes3 i,
    get_or_past bytes1 i,
    get_or_past bytes2 i,
    get_or_past bytes3 i,
  )

  unfoldable pub parities : (n i : ℕ) → List ℕ
  parities zero i = []
  parities (suc n) i = parity bytes1 bytes2 bytes3 pkt4.length i ∷ parities n (i + 1)

  xor_loop-parities : (n i : ℕ) → xor_loop pkt1 pkt2 pkt3 pkt4 n i ≡ some (parities n i)
  unfolding parities xor_loop
  xor_loop-parities zero i = refl
  xor_loop-parities (suc n) i = rw (xor_byte-parity i, xor_loop-parities n (i + 1))

  length-parities : (n i : ℕ) → length (parities n i) ≡ n
  unfolding parities
  length-parities zero i = refl
  length-parities (suc n) i = ap suc (length-parities n (i + 1))

  get_elem?-parities :
      (n i k j : ℕ)
      → k < n
      → j ≡ i + k
      → get_elem? (parities n i) k ≡ some (parity bytes1 bytes2 bytes3 pkt4.length j)
  unfolding parities
  get_elem?-parities zero i k j h e = absurd (omega arith)
  get_elem?-parities (suc n) i zero j h e = let e' : j ≡ i = omega arith in rw e'
  get_elem?-parities (suc n) i (suc k) j h e =
      get_elem?-parities n (i + 1) k j (omega arith) (omega arith)

  -- For four packets of which the first three carry payloads of their lengths and the fourth is no
  -- longer than the third, the parity packet has type PTYPE_FEC, the first packet's sequence number,
  -- the XOR of the lengths (0 where that is above 512) and 512 bytes of payload, each the XOR of
  -- the bytes at its place, in which the third payload stands for the fourth as well.
  pub fec_generation-parity :
      (libs : Libs)
      → ((k : ℕ) → libs.malloc k ≡ true)
      → (bytes : List ℕ) × (fec_generation libs pkt1 pkt2 pkt3 pkt4
          ≡ some (record pkt_zero {
            length = let n = xor_length pkt1 pkt2 pkt3 pkt4 in if ltb 512 n then 0 else n;
            seqnum = pkt1.seqnum;
            payload = block bytes;
          }))
        × (length bytes ≡ 512)
        × ((i : ℕ) → i < 512 → get_elem? bytes i ≡ some (parity bytes1 bytes2 bytes3 pkt4.length i))
  unfolding fec_generation
  fec_generation-parity libs mem = (
    parities 512 0,
    rw (xor_loop-parities 512 0) (fec_packet_lem libs mem _ pkt1.seqnum _ (length-parities 512 0)),
    length-parities 512 0,
    λ i h. get_elem?-parities 512 0 i i h (omega arith),
  )
