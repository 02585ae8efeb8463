-- ===== src/Fence/Tests.antt =====
-- Runs of the model of runtime/context.py at concrete inputs.
use langbot_plugin_sdk.Prelude.{
  ◌≡◌, ◌≢◌, refl, true, false, some, List, [], ◌∷◌, arith, ok, string_eq,
}
use langbot_plugin_sdk.Prelude.Dict
use langbot_plugin_sdk.Context.{RuntimeIdentity, InstallationBinding}
use langbot_plugin_sdk.Context.Policy.{WorkerPolicy}
use langbot_plugin_sdk.Fence.{
  Runtime, oss_dev, shared, new, activate_control_handler, bind_runtime, bind_workspace,
  authorize_installation_binding, validate_installation_candidate, activate_installation_binding,
  deactivate_installation_binding, is_current_installation_binding,
}
use langbot_plugin_sdk.Fence.Order.{Call, activate, deactivate, authorize, configure, after, run}
use langbot_plugin_sdk.Fence.Shared.{IsShared}
use langbot_plugin_sdk.Fence.Fenced.{run-IsShared, stale_fenced}

program : Unit {0}
unfolding activate_control_handler bind_runtime bind_workspace authorize_installation_binding
    validate_installation_candidate activate_installation_binding deactivate_installation_binding
    is_current_installation_binding after run Dict.get Dict.set Dict.remove
program = tt

abbrev policy : WorkerPolicy
policy = record {
  max_cpus = 500;
  max_memory_mb = 512;
  max_pids = 64;
  max_open_files = 256;
  max_file_size_mb = 16;
  max_workers = 2;
  max_total_cpus = 8000;
  max_total_memory_mb = 8192;
  max_installations = 2;
  max_concurrent_restarts = 2;
  restart_failure_threshold = 2;
  restart_failure_window = 30000;
  restart_circuit_open = 60000;
  require_hard_limits = false;
}

abbrev identity : RuntimeIdentity
identity = record { instance_uuid = "i"; runtime_id = "r" }

-- Generation 1 in two revisions, and generation 2, of one installation.
abbrev first : InstallationBinding
first = record {
  instance_uuid = "i";
  workspace_uuid = "w";
  placement_generation = 1;
  installation_uuid = "p";
  runtime_revision = 1;
  artifact_digest = "d1";
}

abbrev second : InstallationBinding
second = record first { runtime_revision = 2; artifact_digest = "d2" }

abbrev third : InstallationBinding
third = record first { placement_generation = 2; artifact_digest = "d3" }

abbrev start : Runtime
start = record new {
  runtime_identity = some identity;
  worker_policy = some policy;
  runtime_profile = some shared;
  configuration_ready = true;
}

started : bind_runtime new identity policy shared ≡ ok start
unfolding program
started = refl

start-IsShared : IsShared policy start
unfolding program
start-IsShared = record {
  profile = refl;
  policy = refl;
  capacity = omega arith;
  marked = λ k b h. cc;
}

abbrev calls : List Call
calls = activate first ∷ activate third ∷ activate second ∷ []

-- `first` was replaced by `third`.
abbrev replaced : Runtime
replaced = run start (activate first ∷ activate third ∷ [])

replaced-IsShared : IsShared policy replaced
replaced-IsShared = run-IsShared policy start (activate first ∷ activate third ∷ []) start-IsShared

stale_fenced_example :
    ((s : Runtime) → authorize_installation_binding (run replaced calls) second ≢ ok s)
    × (is_current_installation_binding (run replaced calls) second ≡ false)
    × ((q : WorkerPolicy) → validate_installation_candidate (run replaced calls) second ≢ ok q)
unfolding program
stale_fenced_example = stale_fenced policy replaced calls second third replaced-IsShared refl refl

-- In the single-tenant profile the watermark is not looked at when an action is authorized: a
-- binding that was replaced and removed is taken again.
abbrev local_calls : List Call
local_calls = configure identity policy oss_dev ∷ activate third ∷ deactivate third ∷ []

old_binding_returns :
    (Dict.get (run new local_calls).installation_watermarks "p" ≡ some third)
    × (is_current_installation_binding (after (run new local_calls) (authorize first)) first ≡ true)
unfolding program
old_binding_returns = (refl, refl)
