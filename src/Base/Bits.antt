-- ===== src/Base/Bits.antt =====
-- Masks of one byte, compared with their arithmetic at every byte.
use Prim.Native.Nat.{ℕ, zero, suc, ◌+◌, ◌-◌, ◌*◌, ◌/◌, ◌%◌, ◌≤◌, ◌<◌, bit_and}
use mathlib.Core.Path.{◌≡◌, refl, subst}
use mathlib.Core.Logic.{inl, inr}
use mathlib.Core.Bool.{Bool, true}
use native.Mathlib.Omega.{arith}
use projet_trtp.Base.Tests.{ltb, ◌==◌, ==_iff, ltb→lt, ltb→le, Bool-cases, if◌then◌else◌}

module _ (f g : ℕ → ℕ) where
  -- `f` and `g` have the same values on the `count` numbers from `start` on.
  same_values : (count start : ℕ) → Bool
  same_values zero start = true
  same_values (suc count) start =
      let rest = same_values count (start + 1) in
      if f start == g start then rest else f start == g start

  same_at :
      (count start : ℕ)
      → same_values count start ≡ true
      → (x : ℕ) → start ≤ x
      → x < start + count
      → f x ≡ g x
  unfolding same_values
  same_at zero start same x lo hi = absurd (omega arith)
  same_at (suc count) start same x lo hi = elim (Bool-cases (f start == g start)) [
    | inr differ ↦ absurd (ground arith)
    | inl here ↦ elim (Bool-cases (ltb start x)) [
      | inl later ↦
          same_at count (start + 1) (rw here at same) x (omega (arith, ltb→lt _ _ later))
            (omega arith)
      | inr first ↦
          let e : start ≡ x = omega (arith, ltb→le _ _ first) in
          subst (λ (k : ℕ). f k ≡ g k) e ((==_iff (f start) (g start)).0 here)
    ]
  ]

window_values : same_values (λ b. bit_and b 0x1f) (λ b. b % 32) 256 0 ≡ true
unfolding same_values
window_values = refl

tr_values : same_values (λ b. bit_and b 0x20) (λ b. b / 32 % 2 * 32) 256 0 ≡ true
unfolding same_values
tr_values = refl

clear_tr_values : same_values (λ b. bit_and b 0xdf) (λ b. b - b / 32 % 2 * 32) 256 0 ≡ true
unfolding same_values
clear_tr_values = refl

-- The five low bits of a byte.
pub bit_and_window : (b : ℕ) → b < 256 → bit_and b 0x1f ≡ b % 32
bit_and_window b h = same_at _ (λ b. b % 32) 256 0 window_values b (omega arith) h

-- Bit 5 of a byte, in its place.
pub bit_and_tr : (b : ℕ) → b < 256 → bit_and b 0x20 ≡ b / 32 % 2 * 32
bit_and_tr b h = same_at _ (λ b. b / 32 % 2 * 32) 256 0 tr_values b (omega arith) h

-- A byte with bit 5 cleared.
pub bit_and_clear_tr : (b : ℕ) → b < 256 → bit_and b 0xdf ≡ b - b / 32 % 2 * 32
bit_and_clear_tr b h = same_at _ (λ b. b - b / 32 % 2 * 32) 256 0 clear_tr_values b (omega arith) h
