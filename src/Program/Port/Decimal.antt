-- ===== src/Program/Port/Decimal.antt =====
-- The port of src/sender.c and src/receiver.c, from its decimal digits.
use projet_trtp.Base.{
  ℕ, zero, suc, ◌+◌, ◌-◌, ◌*◌, ◌/◌, ◌%◌, ◌^◌, ◌<◌, ◌≡◌, inl, inr, true, false, List, [], ◌∷◌, ◌++◌,
  some, arith, ltb, Bool-cases, lt→ltb, ltb→lt, if◌then◌else◌, min,
}
use projet_trtp.Program.Port.{
  is_digit, skip_spaces, sign, digits, starts_with_digit, strtol, port_of,
}

-- A number in decimal digits, of which one more than `more` are enough.
abbrev pub decimal : (more : ℕ) → ℕ → List ℕ
decimal zero n = (48 + n) ∷ []
decimal (suc more) n =
    let front = decimal more (n / 10) in
    if ltb n 10 then (48 + n) ∷ [] else front ++ ((48 + n % 10) ∷ [])

digits-append :
    (xs ys : List ℕ) (v w : ℕ) → digits v xs ≡ (w, []) → digits v (xs ++ ys) ≡ digits w ys
digits-append [] ys v w e = let same : v ≡ w = cc e in rw same
digits-append (c ∷ cs) ys v w e = elim (Bool-cases (is_digit c)) [
  | inl h ↦
      (let e' : digits (10 * v + (c - 48)) cs ≡ (w, []) = rw h at e in
        rw (h, digits-append cs ys (10 * v + (c - 48)) w e'))
  | inr h ↦ (let e' : (v, c ∷ cs) ≡ (w, []) = rw h at e in absurd (cc e'))
]

digit_lem : (v d n : ℕ) → d < 10 → 10 * v + d ≡ n → digits v ((48 + d) ∷ []) ≡ (n, [])
digit_lem v d n h sum =
    let e : 10 * v + (48 + d - 48) ≡ n = omega arith in
    rw (lt→ltb 47 (48 + d) (omega arith), lt→ltb (48 + d) 58 (omega arith), e)

decimal_lem : (more n : ℕ) → n < 10 * 10 ^ more → digits 0 (decimal more n) ≡ (n, [])
decimal_lem zero n h = digit_lem 0 n n (omega arith) (omega arith)
decimal_lem (suc more) n h = elim (Bool-cases (ltb n 10)) [
  | inl small ↦ rw (small, digit_lem 0 n n (ltb→lt n 10 small) (omega arith))
  | inr large ↦
      (let front = decimal_lem more (n / 10) (omega arith) in
        rw (
          large,
          digits-append (decimal more (n / 10)) ((48 + n % 10) ∷ []) 0 (n / 10) front,
          digit_lem (n / 10) (n % 10) n (omega arith) (omega arith),
        ))
]

-- A text that starts with a digit has no spaces and no sign.
bare : (text : List ℕ) → starts_with_digit text ≡ true → sign (skip_spaces text) ≡ (false, text)
bare [] h = absurd (cc h)
bare (c ∷ cs) h = ground arith

starts-append : (xs ys : List ℕ) → starts_with_digit xs ≡ true → starts_with_digit (xs ++ ys) ≡ true
starts-append [] ys h = absurd (cc h)
starts-append (x ∷ xs) ys h = h

first_digit : (more n : ℕ) → n < 10 * 10 ^ more → starts_with_digit (decimal more n) ≡ true
first_digit zero n h = rw (lt→ltb 47 (48 + n) (omega arith), lt→ltb (48 + n) 58 (omega arith))
first_digit (suc more) n h = elim (Bool-cases (ltb n 10)) [
  | inl small ↦
      (let low = ltb→lt n 10 small in
        rw (small, lt→ltb 47 (48 + n) (omega arith), lt→ltb (48 + n) 58 (omega arith)))
  | inr large ↦
      rw (large, starts-append (decimal more (n / 10)) _ (first_digit more (n / 10) (omega arith)))
]

-- A positional argument that is a number below 2 ^ 63 in decimal digits, without leading zeros, is accepted
-- as a port, which is the number modulo 2 ^ 16, also where the number is no port.
pub port_of-decimal :
    (more n : ℕ) → n < 10 * 10 ^ more → n < 2 ^ 63 → port_of (decimal more n) ≡ some (n % 2 ^ 16)
unfolding port_of strtol
port_of-decimal more n h small =
    let fits : min n (2 ^ 63 - 1) ≡ n = omega arith in
    rw (
      bare (decimal more n) (first_digit more n h),
      decimal_lem more n h,
      first_digit more n h,
      fits,
    )
