-- ===== src/Program/Port.antt =====
-- The port of src/sender.c and src/receiver.c: `strtol` in base 10, and its result as a `uint16_t`.
pub mod Decimal
use projet_trtp.Base.{
  ℕ, zero, suc, ◌+◌, ◌-◌, ◌*◌, ◌%◌, ◌^◌, ◌≤◌, ◌<◌, ◌≡◌, ◌≢◌, refl, sym, ap, ◌∙◌, Bool, true, false,
  ◌&&◌, ◌||◌, List, [], ◌∷◌, map, Option, none, some, arith, All, ltb, leb, ◌==◌, if◌then◌else◌,
  min,
}

abbrev pub is_space : ℕ → Bool
is_space c = c == 32 || (ltb 8 c && ltb c 14)

abbrev pub is_digit : ℕ → Bool
is_digit c = ltb 47 c && ltb c 58

abbrev pub skip_spaces : List ℕ → List ℕ
skip_spaces [] = []
skip_spaces (c ∷ cs) = let rest = skip_spaces cs in if is_space c then rest else c ∷ cs

-- Whether there is a minus, and what follows the sign.
abbrev pub sign : List ℕ → Bool × List ℕ
sign [] = (false, [])
sign (c ∷ cs) = if c == 45 then (true, cs) else if c == 43 then (false, cs) else (false, c ∷ cs)

-- The value of the digits, with what follows them.
abbrev pub digits : (value : ℕ) → List ℕ → ℕ × List ℕ
digits value [] = (value, [])
digits value (c ∷ cs) =
    let rest = digits (10 * value + (c - 48)) cs in if is_digit c then rest else (value, c ∷ cs)

abbrev pub starts_with_digit : List ℕ → Bool
starts_with_digit [] = false
starts_with_digit (c ∷ cs) = is_digit c

-- What `strtol` finds: the sign, the absolute value, not beyond LONG_MAX and LONG_MIN, and the rest, which
-- is all where there is no number.
unfoldable pub strtol : List ℕ → Bool × ℕ × List ℕ
strtol text =
    let (minus, behind) = sign (skip_spaces text) in
    let (value, rest) = digits 0 behind in
    if starts_with_digit behind
    then (minus, min value (if minus then 2 ^ 63 else 2 ^ 63 - 1), rest)
    else (false, 0, text)

-- The conversion to `uint16_t`.
abbrev pub to_uint16 : (minus : Bool) → ℕ → ℕ
to_uint16 true value = (2 ^ 16 - value % 2 ^ 16) % 2 ^ 16
to_uint16 false value = value % 2 ^ 16

abbrev pub all_read : Bool × ℕ × List ℕ → Option ℕ
all_read (minus, value, []) = some (to_uint16 minus value)
all_read (minus, value, c ∷ rest) = none

-- The port, if all of the text is a number.
unfoldable pub port_of : List ℕ → Option ℕ
port_of text = all_read (strtol text)
