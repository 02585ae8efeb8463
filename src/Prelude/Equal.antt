-- ===== src/Prelude/Equal.antt =====
-- Equality tests as an interface, with instances for numbers, texts and optional values.
use Prim.Native.Nat.{ℕ, compare, Ordering}
use Prim.Native.String.{String}
use mathlib.Core.Path.{◌≡◌, refl}
use mathlib.Core.Logic.{◌↔◌}
use mathlib.Core.Bool.{Bool, true, false, ◌&&◌}
use mathlib.Core.List.{List, [], ◌∷◌}
use mathlib.Core.Option.{Option, none, some}
use native.Mathlib.Omega.{arith}
use text.Mathlib.Text.{◌==◌ as str_eq}
use text.Mathlib.TextEquality.{eq_iff}

pub record Eq {ℓ} (A : Type ℓ) : Type ℓ where
  pub equal : A → A → Bool
  pub equal_iff : (a b : A) → (equal a b ≡ true) ↔ (a ≡ b)

infix 50 ◌==◌
abbrev pub ◌==◌ {ℓ} : {A : Type ℓ} ⦃e : Eq A⦄ → A → A → Bool
◌==◌ ⦃e⦄ = e.equal

abbrev pub nat_beq : ℕ → ℕ → Bool
nat_beq a b = elim (compare a b) [ Ordering.eq ↦ true | _ ↦ false ]

pub nat_beq_iff : (a b : ℕ) → (nat_beq a b ≡ true) ↔ (a ≡ b)
nat_beq_iff a b = ground arith

instance abbrev pub nat_eq : Eq ℕ
nat_eq = record { equal = nat_beq; equal_iff = nat_beq_iff }

instance abbrev pub string_eq : Eq String
string_eq = record { equal = str_eq; equal_iff = eq_iff }

module _ {ℓ} {A : Type ℓ} ⦃e : Eq A⦄ where
  pub ==_refl : (a : A) → (a == a) ≡ true
  ==_refl a = (e.equal_iff a a).1 refl

  abbrev pub option_beq : Option A → Option A → Bool
  option_beq none none = true
  option_beq none (some b) = false
  option_beq (some a) none = false
  option_beq (some a) (some b) = a == b

  pub option_beq_iff : (a b : Option A) → (option_beq a b ≡ true) ↔ (a ≡ b)
  option_beq_iff none none = ground arith
  option_beq_iff none (some b) = ground arith
  option_beq_iff (some a) none = ground arith
  option_beq_iff (some a) (some b) = ground (arith, e.equal_iff a b)

  instance abbrev pub option_eq : Eq (Option A)
  option_eq = record { equal = option_beq; equal_iff = option_beq_iff }

  abbrev pub list_beq : List A → List A → Bool
  list_beq [] [] = true
  list_beq [] (y ∷ ys) = false
  list_beq (x ∷ xs) [] = false
  list_beq (x ∷ xs) (y ∷ ys) = x == y && list_beq xs ys

  pub list_beq_iff : (xs ys : List A) → (list_beq xs ys ≡ true) ↔ (xs ≡ ys)
  list_beq_iff [] [] = ground arith
  list_beq_iff [] (y ∷ ys) = ground arith
  list_beq_iff (x ∷ xs) [] = ground arith
  list_beq_iff (x ∷ xs) (y ∷ ys) = ground (arith, e.equal_iff x y, list_beq_iff xs ys)

  instance abbrev pub list_eq : Eq (List A)
  list_eq = record { equal = list_beq; equal_iff = list_beq_iff }

module _ {ℓ κ} {A : Type ℓ} {B : Type κ} ⦃a : Eq A⦄ ⦃b : Eq B⦄ where
  abbrev pub pair_beq : A × B → A × B → Bool
  pair_beq x y = x.0 == y.0 && x.1 == y.1

  pub pair_beq_iff : (x y : A × B) → (pair_beq x y ≡ true) ↔ (x ≡ y)
  pair_beq_iff x y = ground (arith, a.equal_iff x.0 y.0, b.equal_iff x.1 y.1)

  instance abbrev pub pair_eq : Eq (A × B)
  pair_eq = record { equal = pair_beq; equal_iff = pair_beq_iff }
