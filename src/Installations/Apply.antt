-- ===== src/Installations/Apply.antt =====
-- `_apply_plugin_installation_unlocked` and `_remove_plugin_installation_unlocked` of
-- runtime/plugin/mgr.py.
use langbot_plugin_sdk.Prelude.{
  String, Bool, false, ◌&&◌, Option, none, some, Result, ok, raise, ◌>>=◌, ◌>>◌, if◌then◌else◌,
  ◌==◌, string_eq,
}
use langbot_plugin_sdk.Prelude.Dict
use langbot_plugin_sdk.Context.{InstallationBinding, binding_eq}
use langbot_plugin_sdk.Fence.{
  validate_installation_candidate, activate_installation_binding, deactivate_installation_binding,
  is_current_installation_binding, Runtime,
}
use langbot_plugin_sdk.Registration.{is_shared}
use langbot_plugin_sdk.Installations.{
  Artifact, Installation, State, Answer, Volume, Manager, InstallationError, of_fence, of_volume,
  put, disabled, starting, failed, artifact_missing, superseded, dropped, worker_capacity_exceeded,
  dependency_prepare_failed, worker_capacity_would_be_exceeded, stop_installation_worker,
  schedule_installation_worker, revoke_installation_runtime,
}

unfoldable pub installation_state_result : Installation → Answer
installation_state_result i = record {
  installation_uuid = i.binding.installation_uuid;
  state = i.state;
  artifact_path = some i.artifact.code_path;
  dependency_environment_digest = i.dependency_environment;
  error_code = i.error_code;
}

-- The answers that name no installation of the table.
abbrev pub capacity_answer : InstallationBinding → Answer
capacity_answer b = record {
  installation_uuid = b.installation_uuid;
  state = failed;
  artifact_path = none;
  dependency_environment_digest = none;
  error_code = some worker_capacity_exceeded;
}

abbrev pub short_answer : InstallationBinding → State → Answer
short_answer b s = record {
  installation_uuid = b.installation_uuid;
  state = s;
  artifact_path = none;
  dependency_environment_digest = none;
  error_code = none;
}

-- The artifact of `b`: of the package, or the one that is stored.
unfoldable pub fetch :
    Volume → Option String → InstallationBinding → Result InstallationError (Option Artifact)
fetch v archive b = do
  artifact ← elim archive [
    | none ↦ of_volume (v.get_verified b.artifact_digest)
    | some bytes ↦ do a ← of_volume (v.install_package bytes b.artifact_digest); ok (some a)
  ]
  elim artifact [
    | none ↦ ok none
    | some a ↦ do of_volume (v.ensure_installation_paths b); ok (some a)
  ]

-- A binding that `b` supersedes loses its worker.
unfoldable pub revoke_previous :
    Manager → InstallationBinding → Option InstallationBinding → Manager
unfolding revoke_installation_runtime
revoke_previous m b none = m
revoke_previous m b (some previous) =
    if previous == b then m else revoke_installation_runtime m previous

-- `out` is what the fence answered.
unfoldable pub supersede :
    Manager → InstallationBinding → Runtime × Option InstallationBinding → Manager
unfolding revoke_previous
supersede m b out =
    let m' = revoke_previous (record m { runtime = out.0 }) b out.1 in
    record m' { active_binding_by_uuid = Dict.set m'.active_binding_by_uuid b.installation_uuid b }

-- The installation of `b`, a new one where there is none.
abbrev pub installation_of : Manager → InstallationBinding → Artifact → Bool → Installation
installation_of m b a enabled = elim (Dict.get m.installations b) [
  | some i ↦ record i { enabled = enabled }
  | none ↦ record {
    binding = b;
    artifact = a;
    enabled = enabled;
    dependency_environment = none;
    state = disabled;
    error_code = none;
    launch_task = none;
  }
]

-- An installation that changed, with what is reported of it.
abbrev pub report : Manager × Installation → Manager × Answer
report out = (put out.0 out.1, installation_state_result out.1)

unfoldable pub launch : Manager → Installation → Manager × Answer
unfolding schedule_installation_worker
launch m i = report (schedule_installation_worker m (record i { state = starting }))

unfoldable pub enable : Manager → Volume → Artifact → Installation → Manager × Answer
unfolding launch stop_installation_worker
enable m v a current =
    let i = record current { error_code = none } in
    if is_shared m.runtime
    then elim (v.prepare_dependency_environment a) [
      | raise e ↦
          let out = stop_installation_worker m (record i { dependency_environment = none }) in
          report
            (out.0, record out.1 { state = failed; error_code = some dependency_prepare_failed })
      | ok environment ↦
          let i' = record i { dependency_environment = some environment } in
          if Dict.contains m.installations i.binding
            && is_current_installation_binding m.runtime i.binding
          then launch m i'
          else (put m i', short_answer i.binding superseded)
    ]
    else launch m i

unfoldable pub disable : Manager → Installation → Manager × Answer
unfolding stop_installation_worker
disable m i = report (stop_installation_worker m (record i { state = disabled; error_code = none }))

-- What follows once the binding is the active one.
unfoldable pub install :
    Manager → Volume → InstallationBinding → Option Artifact → Bool → Manager × Answer
unfolding enable disable
install m v b none enabled =
    (record m { installations = Dict.remove m.installations b }, short_answer b artifact_missing)
install m v b (some a) enabled =
    let i = installation_of m b a enabled in
    if enabled then enable (put m i) v a i else disable (put m i) i

unfoldable pub apply_plugin_installation :
    Volume
    → Option String
    → InstallationBinding
    → Bool
    → Manager
    → Result InstallationError (Manager × Answer)
unfolding fetch supersede install worker_capacity_would_be_exceeded
apply_plugin_installation v archive b enabled m = do
  of_fence (validate_installation_candidate m.runtime b)
  artifact ← fetch v archive b
  exceeded ← (if enabled then worker_capacity_would_be_exceeded m b else ok false)
  if exceeded then ok (m, capacity_answer b) else do
    out ← of_fence (activate_installation_binding m.runtime b)
    ok (install (supersede m b out) v b artifact enabled)

unfoldable pub remove_plugin_installation :
    InstallationBinding → Manager → Result InstallationError (Manager × Answer)
unfolding revoke_installation_runtime
remove_plugin_installation b m = do
  r ← of_fence (deactivate_installation_binding m.runtime b)
  let m' = revoke_installation_runtime (record m { runtime = r }) b
  ok (
    record m' {
      active_binding_by_uuid = Dict.remove m'.active_binding_by_uuid b.installation_uuid;
    },
    short_answer b dropped,
  )
