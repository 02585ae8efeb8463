-- ===== src/Prelude/Outcome.antt =====
-- A computation that may raise an exception.
use mathlib.Core.Path.{◌≡◌, refl}
use mathlib.Core.Bool.{Bool, true, false}
use mathlib.Core.Logic.{◌⊎◌, inl, inr}

pub data Result {ℓ κ} (E : Type ℓ) (A : Type κ) : Type (ℓ ⊔ κ) where
  ok : A → Result E A
  raise : E → Result E A

infixl 5 ◌>>=◌ ◌>>◌
abbrev pub ◌>>=◌ {ℓ κ ν} :
    {E : Type ℓ} {A : Type κ} {B : Type ν} → Result E A → (A → Result E B) → Result E B
ok a >>= f = f a
raise e >>= f = raise e

abbrev pub ◌>>◌ {ℓ κ ν} :
    {E : Type ℓ} {A : Type κ} {B : Type ν} → Result E A → Result E B → Result E B
m >> k = m >>= λ _. k

-- `if test: raise e`
abbrev pub raise_if {ℓ} : {E : Type ℓ} → Bool → E → Result E (Unit {0})
raise_if true e = raise e
raise_if false e = ok tt

pub Result-cases {ℓ κ} :
    {E : Type ℓ} {A : Type κ} (r : Result E A) → ((a : A) × (r ≡ ok a)) ⊎ ((e : E) × (r ≡ raise e))
Result-cases (ok a) = inl (a, refl)
Result-cases (raise e) = inr (e, refl)

-- Where a chain of two steps returned, so did both of its steps.
pub bind_inverse {ℓ κ ν} :
    {E : Type ℓ} {A : Type κ} {B : Type ν} (first : Result E A) (second : A → Result E B) {out : B}
    → (first >>= second) ≡ ok out
    → (between : A) × (first ≡ ok between) × (second between ≡ ok out)
bind_inverse (raise e) second returned = cc
bind_inverse (ok between) second returned = (between, refl, returned)
