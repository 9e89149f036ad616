-- ===== src/Receiver/Always.antt =====
-- Defined behaviour with a postcondition, for the results of the receiver's operations.
use projet_trtp.Base.{◌≡◌, refl, Bool, true, false, Option, none, some, if◌then◌else◌}

-- The result is there, and `P` holds of it.
abbrev pub Always : {A : Type 0} → (P : A → Type 0) → Option A → Type 0
Always P none = ⊥
Always P (some a) = P a

module _ {A B : Type 0} (Q : A → Type 0) (P : B → Type 0) where
  pub Always-bind :
      (o : Option A) (f : A → Option B)
      → Always Q o
      → ((a : A) → Q a → Always P (f a))
      → Always P (elim o [ none ↦ none | some a ↦ f a ])
  Always-bind none f h k = h
  Always-bind (some a) f h k = k a h

-- Both branches of a test.
pub Always-if :
    {A : Type 0} (P : A → Type 0) (test : Bool) (a b : Option A)
    → Always P a
    → Always P b
    → Always P (if test then a else b)
Always-if P true a b h k = h
Always-if P false a b h k = k

-- A test whose result is known in each branch.
pub Always-test :
    {A : Type 0} (P : A → Type 0) (test : Bool) (a b : Option A)
    → (test ≡ true → Always P a)
    → (test ≡ false → Always P b)
    → Always P (if test then a else b)
Always-test P true a b h k = h refl
Always-test P false a b h k = k refl

-- The value that is there.
pub Always-some :
    {A : Type 0} (P : A → Type 0) (o : Option A) → Always P o → (a : A) × (o ≡ some a) × P a
Always-some P none h = absurd h
Always-some P (some a) h = (a, refl, h)
