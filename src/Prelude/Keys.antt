-- ===== src/Prelude/Keys.antt =====
-- Dictionaries whose keys are distinct, as those that writes and removals build are.
use langbot_plugin_sdk.Prelude.{
  ◌≡◌, none, some, [], ◌∷◌, arith, Eq, ◌==◌, All, Bool-cases, inl, inr, refl,
}
use langbot_plugin_sdk.Prelude.Dict.{Dict, get, set, remove, get-set, get-remove}

module _ {ℓ κ} {K : Type ℓ} {V : Type κ} ⦃e : Eq K⦄ where
  unfoldable pub Distinct : Dict K V → Type (ℓ ⊔ κ)
  Distinct [] = Unit {ℓ ⊔ κ}
  Distinct ((k, v) ∷ d) = (get d k ≡ none) × Distinct d

  pub set-Distinct : (d : Dict K V) (k : K) (v : V) → Distinct d → Distinct (set d k v)
  unfolding Distinct set get
  set-Distinct [] k v h = (refl, tt)
  set-Distinct ((j, w) ∷ d) k v h = elim (Bool-cases (j == k)) [
    | inl same ↦ rw same (h.0, h.1)
    | inr other ↦ rw other (
      ground (arith, h.0, get-set d k v j, e.equal_iff k j, e.equal_iff j k, other),
      set-Distinct d k v h.1,
    )
  ]

  pub remove-Distinct : (d : Dict K V) (k : K) → Distinct d → Distinct (remove d k)
  unfolding Distinct remove
  remove-Distinct [] k h = tt
  remove-Distinct ((j, w) ∷ d) k h = elim (Bool-cases (j == k)) [
    | inl same ↦ rw same (remove-Distinct d k h.1)
    | inr other ↦ rw other (ground (arith, h.0, get-remove d k j), remove-Distinct d k h.1)
  ]

  -- An item of such a dictionary is what a lookup of its key finds.
  unfoldable pub Finds : Dict K V → Dict K V → Type κ
  Finds d items = All (λ kv. get d kv.0 ≡ some kv.1) items

  pub Finds-cons :
      (d items : Dict K V) (k : K) (v : V)
      → get items k ≡ none
      → Finds d items
      → Finds ((k, v) ∷ d) items
  unfolding Finds get
  Finds-cons d [] k v h f = tt
  Finds-cons d ((j, w) ∷ items) k v h f = (
    ground (arith, h, f.0, e.equal_iff j k, e.equal_iff k j, e.equal_iff k k),
    Finds-cons d items k v (ground (arith, h)) f.1,
  )

  pub Distinct-Finds : (d : Dict K V) → Distinct d → Finds d d
  unfolding Distinct Finds get
  Distinct-Finds [] h = tt
  Distinct-Finds ((k, v) ∷ d) h =
      (ground (arith, e.equal_iff k k), Finds-cons d d k v h.0 (Distinct-Finds d h.1))

  pub Finds-remove :
      (d items : Dict K V) (k : K) → get items k ≡ none → Finds d items → Finds (remove d k) items
  unfolding Finds get
  Finds-remove d [] k h f = tt
  Finds-remove d ((j, w) ∷ items) k h f = (
    ground (arith, h, f.0, get-remove d k j, e.equal_iff j k, e.equal_iff k j, e.equal_iff k k),
    Finds-remove d items k (ground (arith, h)) f.1,
  )
