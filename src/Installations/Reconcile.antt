-- ===== src/Installations/Reconcile.antt =====
-- `_reconcile_plugin_installations_unlocked` of runtime/plugin/mgr.py.
use langbot_plugin_sdk.Prelude.{
  ℕ, String, Bool, true, false, Option, none, some, List, [], ◌∷◌, ◌+◌, map, length, Result, ok,
  raise, ◌>>◌, raise_if, ltb, if◌then◌else◌, ◌==◌, string_eq,
}
use langbot_plugin_sdk.Prelude.Dict
use langbot_plugin_sdk.Prelude.Dict.{Dict}
use langbot_plugin_sdk.Context.{InstallationBinding, binding_eq}
use langbot_plugin_sdk.Context.Policy.{effective_worker_capacity}
use langbot_plugin_sdk.Fence.{
  Runtime, validate_installation_candidate, deactivate_installation_binding,
  is_current_installation_binding,
}
use langbot_plugin_sdk.Fence.Order.{state_of}
use langbot_plugin_sdk.Installations.{
  Answer, Volume, Manager, ErrorCode, artifact_missing, failed, InstallationError, no_policy,
  too_many_installations, duplicate_installations, too_many_workers, of_fence,
  revoke_installation_runtime,
}
use langbot_plugin_sdk.Installations.Apply.{apply_plugin_installation}

-- `PluginInstallationDesiredState`
pub record DesiredState : Type 0 where
  pub binding : InstallationBinding
  pub enabled : Bool

pub record Report : Type 0 where
  pub applied : List String
  pub withdrawn : List String
  pub missing_artifacts : List String
  pub failed_installations : List (String × Option ErrorCode)

abbrev pub names_uuid : String → List DesiredState → Bool
names_uuid k [] = false
names_uuid k (d ∷ ds) =
    let rest = names_uuid k ds in if d.binding.installation_uuid == k then true else rest

-- `len(set(uuids)) != len(uuids)`
unfoldable pub has_duplicates : List DesiredState → Bool
has_duplicates [] = false
has_duplicates (d ∷ ds) =
    let rest = has_duplicates ds in if names_uuid d.binding.installation_uuid ds then true else rest

unfoldable pub desired_workers : List DesiredState → ℕ
desired_workers [] = 0
desired_workers (d ∷ ds) = (if d.enabled then 1 else 0) + desired_workers ds

-- The dict comprehension: of two entries of one uuid the later one stays.
unfoldable pub desired_by_uuid :
    Dict String DesiredState → List DesiredState → Dict String DesiredState
desired_by_uuid acc [] = acc
desired_by_uuid acc (d ∷ ds) = desired_by_uuid (Dict.set acc d.binding.installation_uuid d) ds

unfoldable pub validate_all : Runtime → List DesiredState → Result InstallationError (Unit {0})
validate_all r [] = ok tt
validate_all r (d ∷ ds) = do
  of_fence (validate_installation_candidate r d.binding)
  validate_all r ds

abbrev pub is_desired : Dict String DesiredState → String → InstallationBinding → Bool
is_desired desired k b = elim (Dict.get desired k) [ none ↦ false | some d ↦ d.binding == b ]

-- `deactivate_installation_binding` does not raise for a current binding.
abbrev pub deactivate_current : Runtime → InstallationBinding → Runtime
deactivate_current r b =
    if is_current_installation_binding r b
    then state_of r (deactivate_installation_binding r b)
    else r

unfoldable pub withdraw : Manager → String → InstallationBinding → Manager
unfolding revoke_installation_runtime
withdraw m k b =
    let m' =
      revoke_installation_runtime (record m { runtime = deactivate_current m.runtime b }) b in
    record m' { active_binding_by_uuid = Dict.remove m'.active_binding_by_uuid k }

-- The first loop, over the items that were active when it began.
unfoldable pub withdraw_undesired :
    Dict String DesiredState → Dict String InstallationBinding → Manager → Manager × List String
unfolding withdraw
withdraw_undesired desired [] m = (m, [])
withdraw_undesired desired ((k, b) ∷ items) m =
    if is_desired desired k b
    then withdraw_undesired desired items m
    else let out = withdraw_undesired desired items (withdraw m k b) in (out.0, k ∷ out.1)

abbrev pub add_missing : Answer → List String → List String
add_missing a rest = elim a.state [ artifact_missing ↦ a.installation_uuid ∷ rest | _ ↦ rest ]

abbrev pub add_failed : Answer → List (String × Option ErrorCode) → List (String × Option ErrorCode)
add_failed a rest = elim a.state [ failed ↦ (a.installation_uuid, a.error_code) ∷ rest | _ ↦ rest ]

-- The second loop; what was applied before one that raises stays applied.
unfoldable pub apply_all :
    Volume → List DesiredState → Manager → Manager × Result InstallationError (List Answer)
apply_all v [] m = (m, ok [])
apply_all v (d ∷ ds) m = elim (apply_plugin_installation v none d.binding d.enabled m) [
  | raise e ↦ (m, raise e)
  | ok out ↦
      let rest = apply_all v ds out.0 in
      (rest.0, elim rest.1 [ raise e ↦ raise e | ok answers ↦ ok (out.1 ∷ answers) ])
]

unfoldable pub missing_of : List Answer → List String
missing_of [] = []
missing_of (a ∷ rest) = add_missing a (missing_of rest)

unfoldable pub failed_of : List Answer → List (String × Option ErrorCode)
failed_of [] = []
failed_of (a ∷ rest) = add_failed a (failed_of rest)

abbrev pub summary : List DesiredState → List String → List Answer → Report
summary ds withdrawn answers = record {
  applied = map (λ d. d.binding.installation_uuid) ds;
  withdrawn = withdrawn;
  missing_artifacts = missing_of answers;
  failed_installations = failed_of answers;
}

-- The tests before the first change.
unfoldable pub check_desired : List DesiredState → Runtime → Result InstallationError (Unit {0})
unfolding has_duplicates desired_workers validate_all effective_worker_capacity
check_desired ds r = elim r.worker_policy [
  | none ↦ raise no_policy
  | some policy ↦ do
    raise_if (ltb policy.max_installations (length ds)) too_many_installations
    raise_if (has_duplicates ds) duplicate_installations
    raise_if (ltb (effective_worker_capacity policy) (desired_workers ds)) too_many_workers
    validate_all r ds
]

unfoldable pub reconcile_plugin_installations :
    Volume → List DesiredState → Manager → Manager × Result InstallationError Report
unfolding check_desired desired_by_uuid withdraw_undesired apply_all
reconcile_plugin_installations v ds m = elim (check_desired ds m.runtime) [
  | raise e ↦ (m, raise e)
  | ok u ↦
      let out = withdraw_undesired (desired_by_uuid [] ds) m.active_binding_by_uuid m in
      let rest = apply_all v ds out.0 in
      (rest.0, elim rest.1 [ raise e ↦ raise e | ok answers ↦ ok (summary ds out.1 answers) ])
]
