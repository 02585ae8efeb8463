-- ===== src/Prelude/Pick.antt =====
-- One element of a list and the others: a task that takes a step among those that wait.
use langbot_plugin_sdk.Prelude.{
  suc, ◌+◌, ◌≡◌, refl, Bool, List, ◌∷◌, arith, length, count, if◌then◌else◌,
}

-- `t` is one of `ts`, and `rest` are the others.
pub data Pick {ℓ} {A : Type ℓ} (t : A) : List A → List A → Type ℓ where
  here : (rest : List A) → Pick t (t ∷ rest) rest
  there : {ts rest : List A} (u : A) → Pick t ts rest → Pick t (u ∷ ts) (u ∷ rest)

module _ {ℓ} {A : Type ℓ} where
  pub length-Pick : {t : A} {ts rest : List A} → Pick t ts rest → length ts ≡ suc (length rest)
  length-Pick (here rest) = refl
  length-Pick (there u p) = omega (arith, length-Pick p)

  pub count-Pick :
      (q : A → Bool) {t : A} {ts rest : List A}
      → Pick t ts rest
      → count q ts ≡ (if q t then 1 else 0) + count q rest
  count-Pick q (here rest) = refl
  count-Pick q (there u p) = omega (arith, count-Pick q p)
