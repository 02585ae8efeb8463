-- ===== src/Installations/Counted.antt =====
-- The number of enabled installations under a write and a removal.
use langbot_plugin_sdk.Prelude.{
  ℕ, ◌+◌, ◌≤◌, ◌≡◌, Option, none, some, [], ◌∷◌, arith, if◌then◌else◌, ◌==◌, Bool-cases, inl, inr,
}
use langbot_plugin_sdk.Prelude.Dict
use langbot_plugin_sdk.Prelude.Dict.{Dict}
use langbot_plugin_sdk.Context.{InstallationBinding, binding_eq}
use langbot_plugin_sdk.Installations.{Installation, enabled_count}

-- What an entry counts.
abbrev pub weight : Option Installation → ℕ
weight none = 0
weight (some i) = if i.enabled then 1 else 0

pub weight_le_one : (o : Option Installation) → weight o ≤ 1
weight_le_one none = omega arith
weight_le_one (some i) = ground arith

pub enabled_count-set :
    (d : Dict InstallationBinding Installation) (b : InstallationBinding) (i : Installation)
    → enabled_count (Dict.set d b i) + weight (Dict.get d b) ≡ enabled_count d + weight (some i)
unfolding enabled_count Dict.set Dict.get
enabled_count-set [] b i = ground arith
enabled_count-set ((c, j) ∷ d) b i = elim (Bool-cases (c == b)) [
  | inl same ↦ rw same (omega arith)
  | inr other ↦ let ih = enabled_count-set d b i in rw other (omega arith)
]

pub enabled_count-remove :
    (d : Dict InstallationBinding Installation) (b : InstallationBinding)
    → enabled_count (Dict.remove d b) + weight (Dict.get d b) ≤ enabled_count d
unfolding enabled_count Dict.remove Dict.get
enabled_count-remove [] b = omega arith
enabled_count-remove ((c, j) ∷ d) b = elim (Bool-cases (c == b)) [
  | inl same ↦ let ih = enabled_count-remove d b in rw same (omega arith)
  | inr other ↦ let ih = enabled_count-remove d b in rw other (omega arith)
]
