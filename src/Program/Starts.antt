-- ===== src/Program/Starts.antt =====
-- How the programs start and how they fail: what src/sender.c and src/receiver.c have in common.
use projet_trtp.Base.{
  Bool, true, false, ℕ, ◌≡◌, ◌≢◌, ◌⊎◌, inl, inr, refl, List, [], ◌∷◌, Option, none, some, All,
}
use projet_trtp.Program.{Opt, opt_s, Os, Process, Exit, refused, open_stats}

-- A process starts with the three standard descriptors.
abbrev pub start : Process
start = record { fds = 2 ∷ 1 ∷ 0 ∷ []; calls = [] }

-- `socket` and `open` find descriptors that are not in use.
abbrev pub Fresh : Os → Type 0
Fresh os =
    ((fds : List ℕ) (fd : ℕ) → os.socket fds ≡ some fd → All (λ x. fd ≢ x) fds)
    × ((name fds : List ℕ) (fd : ℕ) → os.open_write name fds ≡ inr fd → All (λ x. fd ≢ x) fds)

-- An errno is not 0.
abbrev pub HasErrno : Os → Type 0
HasErrno os =
    ((name : Option (List ℕ)) (fds : List ℕ) (errno : ℕ)
      → os.open_read name fds ≡ inl errno
      → errno ≢ 0)
    × ((name fds : List ℕ) (errno : ℕ) → os.open_write name fds ≡ inl errno → errno ≢ 0)

-- The last of the options counts.
abbrev pub last_of : (Opt → Option (List ℕ)) → List Opt → Option (List ℕ) → Option (List ℕ)
last_of arg [] before = before
last_of arg (opt ∷ opts) before =
    last_of arg opts (elim (arg opt) [ none ↦ before | some optarg ↦ some optarg ])

abbrev pub s_arg : Opt → Option (List ℕ)
s_arg (opt_s optarg) = some optarg
s_arg _ = none

-- A refusal with a status that is a failure.
abbrev pub Fails : {S : Type 0} → Option (Exit S × Process) → Type 0
Fails r = (status : ℕ) × (p : Process) × (status ≢ 0) × (r ≡ some (refused status, p))

abbrev pub option_result : {A : Type 0} → (o : Option A) → (o ≡ none) ⊎ ((a : A) × (o ≡ some a))
option_result none = inl refl
option_result (some a) = inr (a, refl)

abbrev pub sum_result : (o : ℕ ⊎ ℕ) → ((e : ℕ) × (o ≡ inl e)) ⊎ ((n : ℕ) × (o ≡ inr n))
sum_result (inl e) = inl (e, refl)
sum_result (inr n) = inr (n, refl)

pub errno_stats :
    (os : Os) (name : Option (List ℕ)) (p : Process) (e : ℕ)
    → HasErrno os
    → open_stats os name p ≡ inl e
    → e ≢ 0
errno_stats os none p e h same = absurd (cc same)
errno_stats os (some name) p e h same = h.1 name p.fds e same

-- What is only tried behind a test, and fails.
pub guarded_cases :
    (guard tried : Bool) → ((guard ≡ false) ⊎ (tried ≡ true)) ⊎ ((guard ≡ true) × (tried ≡ false))
guarded_cases false tried = inl (inl refl)
guarded_cases true true = inl (inr refl)
guarded_cases true false = inr (refl, refl)
