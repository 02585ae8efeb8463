-- ===== src/Prelude/Dict.antt =====
-- Python's `dict`, as its items in insertion order: a write to a present key keeps its place, a
-- write to a new key goes to the end.
use mathlib.Core.Path.{subst}
use langbot_plugin_sdk.Prelude.{
  suc, ◌≤◌, ◌≡◌, refl, Bool, Option, none, some, List, [], ◌∷◌, arith, is_some, if◌then◌else◌, Eq,
  ◌==◌, length, All, Bool-cases, inl, inr,
}

abbrev pub Dict {ℓ κ} : Type ℓ → Type κ → Type (ℓ ⊔ κ)
Dict K V = List (K × V)

module _ {ℓ κ} {K : Type ℓ} {V : Type κ} ⦃e : Eq K⦄ where
  -- `d.get(k)`
  unfoldable pub get : Dict K V → K → Option V
  get [] k = none
  get ((j, v) ∷ d) k = if j == k then some v else get d k

  -- `d[k] = v`
  unfoldable pub set : Dict K V → K → V → Dict K V
  set [] k v = (k, v) ∷ []
  set ((j, w) ∷ d) k v = if j == k then (j, v) ∷ d else (j, w) ∷ set d k v

  -- `d.pop(k, None)`
  unfoldable pub remove : Dict K V → K → Dict K V
  remove [] k = []
  remove ((j, w) ∷ d) k = let rest = remove d k in if j == k then rest else (j, w) ∷ rest

  -- `k in d`
  abbrev pub contains : Dict K V → K → Bool
  contains d k = is_some (get d k)

  pub get-set :
      (d : Dict K V) (k : K) (v : V) (j : K)
      → get (set d k v) j ≡ (if k == j then some v else get d j)
  unfolding get set
  get-set [] k v j = refl
  get-set ((i, w) ∷ d) k v j =
      ground (arith, e.equal_iff k j, e.equal_iff i k, e.equal_iff i j, get-set d k v j)

  pub get-remove :
      (d : Dict K V) (k j : K) → get (remove d k) j ≡ (if k == j then none else get d j)
  unfolding get remove
  get-remove [] k j = ground arith
  get-remove ((i, w) ∷ d) k j =
      ground (arith, e.equal_iff k j, e.equal_iff i k, e.equal_iff i j, get-remove d k j)

  pub length-set :
      (d : Dict K V) (k : K) (v : V)
      → length (set d k v) ≡ (if contains d k then length d else suc (length d))
  unfolding get set
  length-set [] k v = refl
  length-set ((i, w) ∷ d) k v = ground (arith, e.equal_iff i k, length-set d k v)

  pub length-remove-le : (d : Dict K V) (k : K) → length (remove d k) ≤ length d
  unfolding remove
  length-remove-le [] k = omega arith
  length-remove-le ((i, w) ∷ d) k = ground (arith, length-remove-le d k)

  pub length-remove_present :
      (d : Dict K V) (k : K) {v : V} → get d k ≡ some v → suc (length (remove d k)) ≤ length d
  unfolding get remove
  length-remove_present [] k h = cc
  length-remove_present ((i, w) ∷ d) k h = elim (Bool-cases (i == k)) [
    | inl same ↦ let le = length-remove-le d k in rw same (omega arith)
    | inr other ↦ let ih = length-remove_present d k (rw other at h) in rw other (omega arith)
  ]

  pub remove_absent : (d : Dict K V) (k : K) → get d k ≡ none → remove d k ≡ d
  unfolding get remove
  remove_absent [] k h = refl
  remove_absent ((i, w) ∷ d) k h = ground (arith, e.equal_iff i k, remove_absent d k)

  pub get-set_self : (d : Dict K V) (k : K) (v : V) → get (set d k v) k ≡ some v
  get-set_self d k v = ground (arith, get-set d k v k, e.equal_iff k k)

  -- A predicate of every value.
  abbrev pub AllValues {ν} : (V → Type ν) → Dict K V → Type ν
  AllValues P d = All (λ kv. P kv.1) d

  pub AllValues-set {ν} :
      (P : V → Type ν) (d : Dict K V) (k : K) (v : V)
      → P v
      → AllValues P d
      → AllValues P (set d k v)
  unfolding set
  AllValues-set P [] k v new h = (new, tt)
  AllValues-set P ((j, w) ∷ d) k v new h = elim (Bool-cases (j == k)) [
    | inl same ↦ rw same (new, h.1)
    | inr other ↦ rw other (h.0, AllValues-set P d k v new h.1)
  ]

  pub AllValues-remove {ν} :
      (P : V → Type ν) (d : Dict K V) (k : K) → AllValues P d → AllValues P (remove d k)
  unfolding remove
  AllValues-remove P [] k h = tt
  AllValues-remove P ((j, w) ∷ d) k h = elim (Bool-cases (j == k)) [
    | inl same ↦ rw same (AllValues-remove P d k h.1)
    | inr other ↦ rw other (h.0, AllValues-remove P d k h.1)
  ]

  pub AllValues-get {ν} :
      (P : V → Type ν) (d : Dict K V) (k : K) {v : V} → AllValues P d → get d k ≡ some v → P v
  unfolding get
  AllValues-get P [] k h e = cc
  AllValues-get P ((j, w) ∷ d) k h e = elim (Bool-cases (j == k)) [
    | inl same ↦ subst P (some_inj (rw same at e)) h.0
    | inr other ↦ AllValues-get P d k h.1 (rw other at e)
  ]
    where
      some_inj : {x y : V} → some x ≡ some y → x ≡ y
      some_inj p = cc
