-- ===== src/Installations.antt =====
-- The installations of runtime/plugin/mgr.py: the worker processes that the runtime keeps for the
-- desired state of the control plane. A supervisor task is named by a number, with the binding of the
-- installation it supervises. What the volume answers depends on its files: each operation takes it
-- as an argument. `apply`, `remove` and `reconcile` hold `_installation_operation_lock`, so each is
-- one step: an operation that is cancelled, or that fails where the code awaits between the fence and the
-- table of the active bindings, is not modelled. Messages of errors, the paths of an installation and the connection of its worker are
-- not modelled; a supervisor task that ends has its callback run at once.
pub mod Apply
pub mod Reconcile
pub mod Counted
pub mod Updated
pub mod Managed
pub mod Applied
pub mod Outcome
pub mod Events
pub mod Invariant
pub mod Tasks
pub mod Workers
pub mod Staffed
pub mod Kept
pub mod Current
pub mod Desired
pub mod Reconciled
mod Tests
use langbot_plugin_sdk.Prelude.{
  ℕ, suc, String, Bool, true, false, Option, none, some, List, [], ◌∷◌, ◌+◌, Result, ok, raise, leb,
  if◌then◌else◌, ◌==◌, string_eq, option_eq, nat_eq,
}
use langbot_plugin_sdk.Prelude.Dict
use langbot_plugin_sdk.Prelude.Dict.{Dict}
use langbot_plugin_sdk.Context.{InstallationBinding, binding_eq}
use langbot_plugin_sdk.Context.Policy.{WorkerPolicy, effective_worker_capacity}
use langbot_plugin_sdk.Fence.{Runtime, FenceError}
use langbot_plugin_sdk.Registration.{Pending, revoke_registration_capabilities_for_binding}

-- `PluginArtifact`, the fields that mgr.py reads
pub record Artifact : Type 0 where
  pub digest : String
  pub code_path : String

pub data State : Type 0 where
  disabled starting failed artifact_missing superseded dropped : State

pub data ErrorCode : Type 0 where
  worker_capacity_exceeded dependency_prepare_failed : ErrorCode

-- `PluginInstallationRuntime`; `dependency_environment` is the digest of the environment.
pub record Installation : Type 0 where
  pub binding : InstallationBinding
  pub artifact : Artifact
  pub enabled : Bool
  pub dependency_environment : Option String
  pub state : State
  pub error_code : Option ErrorCode
  pub launch_task : Option ℕ

-- What an operation reports of an installation.
pub record Answer : Type 0 where
  pub installation_uuid : String
  pub state : State
  pub artifact_path : Option String
  pub dependency_environment_digest : Option String
  pub error_code : Option ErrorCode

-- What the artifact store and the dependency store answer.
pub record Volume : Type 0 where
  pub install_package : String → String → Result String Artifact
  pub get_verified : String → Result String (Option Artifact)
  pub ensure_installation_paths : InstallationBinding → Result String (Unit {0})
  pub prepare_dependency_environment : Artifact → Result String String

-- The fields of `PluginManager` that the operations read and write.
pub record Manager : Type 0 where
  pub runtime : Runtime
  pub active_binding_by_uuid : Dict String InstallationBinding
  pub installations : Dict InstallationBinding Installation
  pub plugin_run_tasks : Dict ℕ InstallationBinding
  pub next_task : ℕ
  pub pending_registrations : Pending

-- `__init__`, with the context of the runtime
abbrev pub start : Runtime → Manager
start r = record {
  runtime = r;
  active_binding_by_uuid = [];
  installations = [];
  plugin_run_tasks = [];
  next_task = 0;
  pending_registrations = [];
}

pub data InstallationError : Type 0 where
  refused : FenceError → InstallationError
  unavailable : String → InstallationError
  no_policy too_many_installations duplicate_installations too_many_workers : InstallationError

abbrev pub of_fence {ℓ} : {A : Type ℓ} → Result FenceError A → Result InstallationError A
of_fence (ok a) = ok a
of_fence (raise e) = raise (refused e)

abbrev pub of_volume {ℓ} : {A : Type ℓ} → Result String A → Result InstallationError A
of_volume (ok a) = ok a
of_volume (raise e) = raise (unavailable e)

-- `self._installations[runtime.binding] = runtime`
abbrev pub put : Manager → Installation → Manager
put m i = record m { installations = Dict.set m.installations i.binding i }

-- The number of installations whose `enabled` is set.
unfoldable pub enabled_count : Dict InstallationBinding Installation → ℕ
enabled_count [] = 0
enabled_count ((b, i) ∷ d) = (if i.enabled then 1 else 0) + enabled_count d

-- The installation that is active under `installation_uuid`.
abbrev pub active_installation : Manager → String → Option Installation
active_installation m installation_uuid =
    elim (Dict.get m.active_binding_by_uuid installation_uuid) [
      | none ↦ none
      | some b ↦ Dict.get m.installations b
    ]

unfoldable pub worker_capacity_would_be_exceeded :
    Manager → InstallationBinding → Result InstallationError Bool
unfolding effective_worker_capacity enabled_count
worker_capacity_would_be_exceeded m b = elim m.runtime.worker_policy [
  | none ↦ raise no_policy
  | some policy ↦
      if elim (active_installation m b.installation_uuid) [ none ↦ false | some i ↦ i.enabled ]
      then ok false
      else ok (leb (effective_worker_capacity policy) (enabled_count m.installations))
]

-- The supervisor of `i` is cancelled, and `i` forgets it.
unfoldable pub stop_installation_worker : Manager → Installation → Manager × Installation
stop_installation_worker m i = elim i.launch_task [
  | none ↦ (m, i)
  | some task ↦ (
    record m { plugin_run_tasks = Dict.remove m.plugin_run_tasks task },
    record i { launch_task = none },
  )
]

unfoldable pub schedule_installation_worker : Manager → Installation → Manager × Installation
schedule_installation_worker m i = elim i.launch_task [
  | some task ↦ (m, i)
  | none ↦ (
    record m {
      plugin_run_tasks = Dict.set m.plugin_run_tasks m.next_task i.binding;
      next_task = suc m.next_task;
    },
    record i { launch_task = some m.next_task },
  )
]

-- The callback of a supervisor task that ended.
unfoldable pub installation_supervisor_done : Manager → ℕ → Manager
installation_supervisor_done m task = elim (Dict.get m.plugin_run_tasks task) [
  | none ↦ m
  | some b ↦
      let m' = record m { plugin_run_tasks = Dict.remove m.plugin_run_tasks task } in
      elim (Dict.get m.installations b) [
        | none ↦ m'
        | some i ↦
            if i.launch_task == some task then put m' (record i { launch_task = none }) else m'
      ]
]

unfoldable pub revoke_installation_runtime : Manager → InstallationBinding → Manager
unfolding revoke_registration_capabilities_for_binding stop_installation_worker
revoke_installation_runtime m b =
    let m' = record m {
      pending_registrations =
          revoke_registration_capabilities_for_binding b m.pending_registrations;
      installations = Dict.remove m.installations b;
    } in
    elim (Dict.get m.installations b) [ none ↦ m' | some i ↦ (stop_installation_worker m' i).0 ]
