-- ===== src/Installations/Tests.antt =====
-- Runs of the model of the installations of runtime/plugin/mgr.py at concrete inputs.
use langbot_plugin_sdk.Prelude.{
  ◌≤◌, ◌≡◌, ◌⊎◌, refl, Bool, true, false, none, some, List, [], ◌∷◌, arith, ok, length, string_eq,
  nat_eq,
}
use langbot_plugin_sdk.Prelude.Dict
use langbot_plugin_sdk.Context.{InstallationBinding, binding_eq}
use langbot_plugin_sdk.Context.Policy.{WorkerPolicy, effective_worker_capacity}
use langbot_plugin_sdk.Fence.{
  Runtime, shared, new, validate_installation_candidate, activate_installation_binding,
  deactivate_installation_binding, is_current_installation_binding,
}
use langbot_plugin_sdk.Fence.Shared.{IsShared}
use langbot_plugin_sdk.Registration.{
  revoke_registration_capabilities_for_binding, bound_keys, remove_keys,
}
use langbot_plugin_sdk.Installations.{
  Installation, Manager, Volume, start, worker_capacity_exceeded, enabled_count,
  worker_capacity_would_be_exceeded, stop_installation_worker, schedule_installation_worker,
  installation_supervisor_done, revoke_installation_runtime,
}
use langbot_plugin_sdk.Installations.Apply.{
  installation_state_result, fetch, revoke_previous, supersede, launch, enable, disable, install,
  apply_plugin_installation, remove_plugin_installation,
}
use langbot_plugin_sdk.Installations.Reconcile.{
  DesiredState, Report, has_duplicates, desired_workers, desired_by_uuid, validate_all, withdraw,
  withdraw_undesired, apply_all, missing_of, failed_of, check_desired,
  reconcile_plugin_installations,
}
use langbot_plugin_sdk.Installations.Applied.{Managed, start-Managed}
use langbot_plugin_sdk.Installations.Events.{
  Event, applying, removing, reconciling, ended, step, run,
}
use langbot_plugin_sdk.Installations.Invariant.{run-Managed}
use langbot_plugin_sdk.Installations.Staffed.{start-IsStaffed, Retained}
use langbot_plugin_sdk.Installations.Current.{
  RetainedIn, RetainedThrough, workers_current, workers_bounded,
}
use langbot_plugin_sdk.Installations.Desired.{desired_binding, reports}
use langbot_plugin_sdk.Installations.Reconciled.{reconciled}

program : Unit {0}
unfolding effective_worker_capacity validate_installation_candidate activate_installation_binding
    deactivate_installation_binding is_current_installation_binding
    revoke_registration_capabilities_for_binding bound_keys remove_keys enabled_count
    worker_capacity_would_be_exceeded stop_installation_worker schedule_installation_worker
    installation_supervisor_done revoke_installation_runtime installation_state_result fetch
    revoke_previous supersede launch enable disable install apply_plugin_installation
    remove_plugin_installation has_duplicates desired_workers desired_by_uuid validate_all withdraw
    withdraw_undesired apply_all missing_of failed_of check_desired reconcile_plugin_installations
    step run Dict.get Dict.set Dict.remove
program = tt

-- A policy of one worker and two installations.
abbrev policy : WorkerPolicy
policy = record {
  max_cpus = 500;
  max_memory_mb = 512;
  max_pids = 64;
  max_open_files = 256;
  max_file_size_mb = 16;
  max_workers = 1;
  max_total_cpus = 8000;
  max_total_memory_mb = 8192;
  max_installations = 2;
  max_concurrent_restarts = 2;
  restart_failure_threshold = 2;
  restart_failure_window = 30000;
  restart_circuit_open = 60000;
  require_hard_limits = false;
}

abbrev runtime : Runtime
runtime = record new {
  runtime_identity = some (record { instance_uuid = "i"; runtime_id = "r" });
  worker_policy = some policy;
  runtime_profile = some shared;
  configuration_ready = true;
}

runtime-IsShared : IsShared policy runtime
unfolding program
runtime-IsShared = record {
  profile = refl;
  policy = refl;
  capacity = omega arith;
  marked = λ k b h. cc;
}

-- Two revisions of `a`, and `b`.
abbrev a1 : InstallationBinding
a1 = record {
  instance_uuid = "i";
  workspace_uuid = "w";
  placement_generation = 1;
  installation_uuid = "a";
  runtime_revision = 1;
  artifact_digest = "da";
}

abbrev a2 : InstallationBinding
a2 = record a1 { runtime_revision = 2 }

abbrev b1 : InstallationBinding
b1 = record a1 { installation_uuid = "b"; artifact_digest = "db" }

-- A volume that has every artifact.
abbrev volume : Volume
volume = record {
  install_package = λ bytes digest. ok (record { digest = digest; code_path = "/code" });
  get_verified = λ digest. ok (some (record { digest = digest; code_path = "/code" }));
  ensure_installation_paths = λ b. ok tt;
  prepare_dependency_environment = λ a. ok "env";
}

-- A volume that has lost every artifact.
abbrev lost : Volume
lost = record volume { get_verified = λ digest. ok none }

abbrev desire : InstallationBinding → Bool → DesiredState
desire b enabled = record { binding = b; enabled = enabled }

abbrev events : List Event
events =
    applying volume none a1 true
    ∷ applying volume none b1 true
    ∷ reconciling volume (desire a2 true ∷ desire b1 false ∷ [])
    ∷ ended 0
    ∷ []

begun-Managed : Managed policy (start runtime)
begun-Managed = start-Managed policy runtime runtime-IsShared refl

retained : (m : Manager) → Retained m volume
retained m b i h = λ e. cc

retained_through : RetainedThrough (start runtime) events
unfolding RetainedThrough RetainedIn run
retained_through = (
  retained (start runtime),
  (
    retained (run (start runtime) (applying volume none a1 true ∷ [])),
    (
      retained
          (run (start runtime) (applying volume none a1 true ∷ applying volume none b1 true ∷ [])),
      (tt, tt),
    ),
  ),
)

run-Managed_example : Managed policy (run (start runtime) events)
run-Managed_example = run-Managed policy (start runtime) events begun-Managed

workers_current_example :
    (i : Installation) × (Dict.get (run (start runtime) events).installations a2 ≡ some i)
    × (i.launch_task ≡ some 1)
    × (i.enabled ≡ true)
    × (is_current_installation_binding (run (start runtime) events).runtime a2 ≡ true)
unfolding program
workers_current_example =
    workers_current policy (start runtime) events begun-Managed (start-IsStaffed runtime)
      retained_through 1 a2 refl

workers_bounded_example :
    length (run (start runtime) events).plugin_run_tasks ≤ effective_worker_capacity policy
workers_bounded_example =
    workers_bounded policy (start runtime) events begun-Managed (start-IsStaffed runtime)
      retained_through

abbrev begun : Manager
begun = run (start runtime) (applying volume none a1 true ∷ [])

abbrev desired : List DesiredState
desired = desire b1 true ∷ desire a1 false ∷ []

-- `b1` is to run instead of `a1`, one worker at any time; but `b1` is applied while `a1` still has
-- its worker, so the report has it as failed for want of room.
report_of : Report
report_of = record {
  applied = "b" ∷ "a" ∷ [];
  withdrawn = [];
  missing_artifacts = [];
  failed_installations = ("b", some worker_capacity_exceeded) ∷ [];
}

swapped : (reconcile_plugin_installations volume desired begun).1 ≡ ok report_of
unfolding program report_of
swapped = refl

reconciled_example :
    (Dict.get (reconcile_plugin_installations volume desired begun).0.active_binding_by_uuid "b"
      ≡ desired_binding desired "b")
    ⊎ ((Dict.get (reconcile_plugin_installations volume desired begun).0.active_binding_by_uuid "b"
          ≡ none)
        × (reports "b" report_of.failed_installations ≡ true))
reconciled_example =
    reconciled policy volume desired begun report_of
      (run-Managed policy (start runtime) (applying volume none a1 true ∷ []) begun-Managed) swapped
      "b"

-- The same binding is applied again and its artifact is gone: the installation goes, its
-- supervisor stays, and a removal no longer finds it.
orphaned :
    let m = run begun (applying lost none a1 true ∷ removing a1 ∷ []) in
    (m.installations ≡ []) × (m.active_binding_by_uuid ≡ []) × (m.plugin_run_tasks ≡ (0, a1) ∷ [])
unfolding program
orphaned = (refl, refl, refl)
