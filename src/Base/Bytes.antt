-- ===== src/Base/Bytes.antt =====
-- Bytes of words, and reads from a block of memory: what memcpy, htons, ntohs, htonl and ntohl do.
use Prim.Native.Nat.{ℕ, zero, suc, ◌+◌, ◌*◌, ◌/◌, ◌%◌, ◌^◌, ◌≤◌, ◌<◌}
use mathlib.Core.Path.{◌≡◌, refl}
use mathlib.Core.List.{List, [], ◌∷◌, ◌++◌}
use mathlib.Core.Option.{Option, none, some}
use native.Mathlib.Omega.{arith}
use mathlib.Core.Logic.{inl, inr}
use projet_trtp.Base.Tests.{Option-cases}
use projet_trtp.Base.Lists.{All, length, take, drop, length-drop}

-- A byte, as the number of its bits (the sign of `char` is never used).
abbrev pub IsByte : ℕ → Type 0
IsByte b = b < 256

abbrev pub FirstByte : List ℕ → Type 0
FirstByte [] = Unit {0}
FirstByte (b ∷ bs) = IsByte b

-- The two bytes of `htons(n)` in memory.
abbrev pub be16 : ℕ → List ℕ
be16 n = n / 256 % 256 ∷ n % 256 ∷ []

-- The four bytes of `htonl(n)` in memory.
abbrev pub be32 : ℕ → List ℕ
be32 n = n / 2 ^ 24 % 256 ∷ n / 2 ^ 16 % 256 ∷ n / 2 ^ 8 % 256 ∷ n % 256 ∷ []

-- The four bytes of `n` in memory on a little-endian host.
abbrev pub le32 : ℕ → List ℕ
le32 n = n % 256 ∷ n / 2 ^ 8 % 256 ∷ n / 2 ^ 16 % 256 ∷ n / 2 ^ 24 % 256 ∷ []

-- What `ntohs` and `ntohl` read from such bytes.
abbrev pub be_value : ℕ → List ℕ → ℕ
be_value acc [] = acc
be_value acc (b ∷ bs) = be_value (acc * 256 + b) bs

-- What a plain load reads on a little-endian host.
abbrev pub le_value : List ℕ → ℕ
le_value [] = 0
le_value (b ∷ bs) = b + 256 * le_value bs

-- The first `n` bytes of a block; `none` if the block is shorter.
abbrev pub take_exactly {ℓ} : {A : Type ℓ} → ℕ → List A → Option (List A)
take_exactly zero xs = some []
take_exactly (suc n) [] = none
take_exactly (suc n) (x ∷ xs) = elim (take_exactly n xs) [ none ↦ none | some ys ↦ some (x ∷ ys) ]

-- `memcpy(_, block + offset, n)`; `none` is a read outside the block.
abbrev pub read_at : List ℕ → ℕ → ℕ → Option (List ℕ)
read_at block offset n = take_exactly n (drop offset block)

pub be_value-be16 : (n : ℕ) → n < 2 ^ 16 → be_value 0 (be16 n) ≡ n
be_value-be16 n h = omega arith

pub be_value-be32 : (n : ℕ) → n < 2 ^ 32 → be_value 0 (be32 n) ≡ n
be_value-be32 n h = omega arith

pub le_value-le32 : (n : ℕ) → n < 2 ^ 32 → le_value (le32 n) ≡ n
le_value-le32 n h = omega arith

pub take_exactly-append {ℓ} :
    {A : Type ℓ} (xs ys : List A) → take_exactly (length xs) (xs ++ ys) ≡ some xs
take_exactly-append [] ys = refl
take_exactly-append (x ∷ xs) ys = rw (take_exactly-append xs ys)

pub take_exactly_of_length {ℓ} :
    {A : Type ℓ} (n : ℕ) (xs ys : List A) → length xs ≡ n → take_exactly n (xs ++ ys) ≡ some xs
take_exactly_of_length n xs ys e = rw (← e) (take_exactly-append xs ys)

pub take_exactly_all {ℓ} :
    {A : Type ℓ} (n : ℕ) (xs : List A) → length xs ≡ n → take_exactly n xs ≡ some xs
take_exactly_all zero [] e = refl
take_exactly_all zero (x ∷ xs) e = absurd (omega arith)
take_exactly_all (suc n) [] e = absurd (omega arith)
take_exactly_all (suc n) (x ∷ xs) e = rw (take_exactly_all n xs (omega arith))

pub length-take_exactly {ℓ} :
    {A : Type ℓ} (n : ℕ) (xs ys : List A) → take_exactly n xs ≡ some ys → length ys ≡ n
length-take_exactly zero xs ys e = ground arith
length-take_exactly (suc n) [] ys e = absurd (cc e)
length-take_exactly (suc n) (x ∷ xs) ys e = elim (Option-cases (take_exactly n xs)) [
  | inl empty ↦ absurd (ground arith)
  | inr (zs, h) ↦ ground (arith, length-take_exactly n xs zs h)
]

-- A read inside the block succeeds.
pub take_exactly-in {ℓ} :
    {A : Type ℓ} (n : ℕ) (xs : List A)
    → n ≤ length xs
    → (ys : List A) × (take_exactly n xs ≡ some ys) × (length ys ≡ n)
take_exactly-in zero xs h = ([], refl, refl)
take_exactly-in (suc n) [] h = elim h [ ]
take_exactly-in (suc n) (x ∷ xs) h =
    let (ys, e, l) = take_exactly-in n xs (omega arith) in (x ∷ ys, rw e, omega arith)

pub read_at-in :
    (block : List ℕ) (offset n : ℕ)
    → offset + n ≤ length block
    → (ys : List ℕ) × (read_at block offset n ≡ some ys) × (length ys ≡ n)
read_at-in block offset n h =
    take_exactly-in n (drop offset block) (omega (arith, length-drop {0} offset block))

pub All-FirstByte : (xs : List ℕ) → All IsByte xs → FirstByte xs
All-FirstByte [] h = tt
All-FirstByte (x ∷ xs) (p, h) = p

pub FirstByte-take : (n : ℕ) (xs : List ℕ) → FirstByte xs → FirstByte (take n xs)
FirstByte-take zero xs h = tt
FirstByte-take (suc n) [] h = tt
FirstByte-take (suc n) (x ∷ xs) h = h
