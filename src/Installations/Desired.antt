-- ===== src/Installations/Desired.antt =====
-- The desired state by uuid, and what the first loop of a reconciliation leaves active.
use langbot_plugin_sdk.Prelude.{
  String, ◌≡◌, ◌∙◌, refl, inl, inr, Bool, true, false, Option, none, some, List, [], ◌∷◌, arith,
  Option-cases, Bool-cases, if◌then◌else◌, ◌==◌, string_eq,
}
use langbot_plugin_sdk.Prelude.Dict
use langbot_plugin_sdk.Prelude.Dict.{Dict, get-set, get-remove}
use langbot_plugin_sdk.Context.{InstallationBinding, binding_eq}
use langbot_plugin_sdk.Installations.{Artifact, Manager, Volume, ErrorCode, put}
use langbot_plugin_sdk.Installations.Apply.{install, installation_of}
use langbot_plugin_sdk.Installations.Reconcile.{
  DesiredState, is_desired, names_uuid, has_duplicates, desired_by_uuid, withdraw,
  withdraw_undesired,
}
use langbot_plugin_sdk.Installations.Updated.{enable-IsUpdate, disable-IsUpdate}
use langbot_plugin_sdk.Installations.Invariant.{withdraw_active}

-- The desired state of an installation: the entry of its uuid.
unfoldable pub desired_state : List DesiredState → String → Option DesiredState
desired_state [] k = none
desired_state (d ∷ ds) k =
    let rest = desired_state ds k in if d.binding.installation_uuid == k then some d else rest

-- The binding that is to be active under `k`.
abbrev pub binding_of : Option DesiredState → Option InstallationBinding
binding_of none = none
binding_of (some d) = some d.binding

unfoldable pub desired_binding : List DesiredState → String → Option InstallationBinding
desired_binding ds k = binding_of (desired_state ds k)

-- Some failed installation of the report is that of `k`.
unfoldable pub reports : String → List (String × Option ErrorCode) → Bool
reports k [] = false
reports k ((u, e) ∷ rest) = let later = reports k rest in if u == k then true else later

pub names_uuid_lem :
    (k : String) (ds : List DesiredState) → names_uuid k ds ≡ false → desired_state ds k ≡ none
unfolding desired_state
names_uuid_lem k [] h = refl
names_uuid_lem k (d ∷ ds) h = ground (arith, h, names_uuid_lem k ds)

abbrev or_else : Option DesiredState → Option DesiredState → Option DesiredState
or_else (some x) y = some x
or_else none y = y

-- The dict of the desired states holds, for each uuid, its entry.
desired_by_uuid_lem :
    (acc : Dict String DesiredState) (ds : List DesiredState) (k : String)
    → has_duplicates ds ≡ false
    → Dict.get (desired_by_uuid acc ds) k ≡ or_else (desired_state ds k) (Dict.get acc k)
unfolding desired_by_uuid has_duplicates desired_state
desired_by_uuid_lem acc [] k h = refl
desired_by_uuid_lem acc (d ∷ ds) k h =
    let u = d.binding.installation_uuid in
    let alone : names_uuid u ds ≡ false = ground (arith, h) in
    let rest : has_duplicates ds ≡ false = ground (arith, h) in
    let gone = names_uuid_lem u ds alone in
    let ih = desired_by_uuid_lem (Dict.set acc u d) ds k rest in
    elim (Bool-cases (u == k)) [
      | inl same ↦
          let gone' : desired_state ds k ≡ none = ground (arith, gone, string_eq.equal_iff u k) in
          ground (arith, ih, gone', same, get-set acc u d k)
      | inr other ↦ ground (arith, ih, other, get-set acc u d k)
    ]

pub desired_start :
    (ds : List DesiredState) (k : String)
    → has_duplicates ds ≡ false
    → Dict.get (desired_by_uuid [] ds) k ≡ desired_state ds k
unfolding Dict.get
desired_start ds k h = elim (Option-cases (desired_state ds k)) [
  | inl absent ↦ desired_by_uuid_lem [] ds k h ∙ rw absent refl
  | inr (d, found) ↦ desired_by_uuid_lem [] ds k h ∙ rw found refl
]

-- What the first loop leaves active was active and, if it was among the items, is desired.
pub withdraw_undesired_active :
    (desired : Dict String DesiredState) (items : Dict String InstallationBinding) (m : Manager)
    (k : String) (b : InstallationBinding)
    → Dict.get (withdraw_undesired desired items m).0.active_binding_by_uuid k ≡ some b
    → (Dict.get m.active_binding_by_uuid k ≡ some b)
      × (Dict.get items k ≡ some b → is_desired desired k b ≡ true)
unfolding withdraw_undesired Dict.get
withdraw_undesired_active desired [] m k b h = (h, λ e. cc)
withdraw_undesired_active desired ((j, c) ∷ items) m k b h =
    elim (Bool-cases (is_desired desired j c)) [
      | inl wanted ↦
          let (before, rest) = withdraw_undesired_active desired items m k b (rw wanted at h) in
          (before, λ e. ground (arith, e, rest, wanted, string_eq.equal_iff j k))
      | inr unwanted ↦
          let (before, rest) =
            withdraw_undesired_active desired items (withdraw m j c) k b (rw unwanted at h) in
          let left : Dict.get (Dict.remove m.active_binding_by_uuid j) k ≡ some b =
            rw (withdraw_active j c m) at before in
          (
            ground (arith, left, get-remove m.active_binding_by_uuid j k),
            λ e. ground (arith, e, rest, left, get-remove m.active_binding_by_uuid j k),
          )
    ]

-- The active bindings after an apply that does not raise.
pub install_active :
    (m : Manager) (v : Volume) (b : InstallationBinding) (artifact : Option Artifact)
    (enabled : Bool)
    → (install m v b artifact enabled).0.active_binding_by_uuid ≡ m.active_binding_by_uuid
unfolding install
install_active m v b none enabled = refl
install_active m v b (some a) true =
    let i = installation_of m b a true in let u = enable-IsUpdate (put m i) v a i in u.active
install_active m v b (some a) false =
    let i = installation_of m b a false in let u = disable-IsUpdate (put m i) i in u.active
