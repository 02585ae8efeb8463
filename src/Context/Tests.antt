-- ===== src/Context/Tests.antt =====
-- Runs of the model of entities/io/context.py at concrete inputs.
use langbot_plugin_sdk.Prelude.{◌*◌, ◌^◌, ◌≡◌, refl, true, false, some, ok, raise}
use langbot_plugin_sdk.Prelude.Int.{pos}
use langbot_plugin_sdk.Context.Policy.{
  boolean, integer, floating, RawPolicy, WorkerPolicy, validate_policy, integer_limit,
  numeric_limit, boolean_flag, check_aggregate, float_scale, effective_worker_capacity,
  inconsistent, not_an_integer,
}

abbrev raw : RawPolicy
raw = record {
  max_cpus = floating (some (pos (2 ^ 1073)));
  max_memory_mb = integer (pos 512);
  max_pids = integer (pos 64);
  max_open_files = integer (pos 256);
  max_file_size_mb = integer (pos 16);
  max_workers = integer (pos 16);
  max_total_cpus = integer (pos 8);
  max_total_memory_mb = integer (pos 8192);
  max_installations = integer (pos 10000);
  max_concurrent_restarts = integer (pos 2);
  restart_failure_threshold = integer (pos 8);
  restart_failure_window = integer (pos 30);
  restart_circuit_open = integer (pos 60);
  require_hard_limits = boolean false;
}

abbrev checked : WorkerPolicy
checked = record {
  max_cpus = 2 ^ 1073;
  max_memory_mb = 512;
  max_pids = 64;
  max_open_files = 256;
  max_file_size_mb = 16;
  max_workers = 16;
  max_total_cpus = 8 * 2 ^ 1074;
  max_total_memory_mb = 8192;
  max_installations = 10000;
  max_concurrent_restarts = 2;
  restart_failure_threshold = 8;
  restart_failure_window = 30 * 2 ^ 1074;
  restart_circuit_open = 60 * 2 ^ 1074;
  require_hard_limits = false;
}

accepted : validate_policy raw ≡ ok checked
unfolding validate_policy integer_limit numeric_limit boolean_flag check_aggregate float_scale
accepted = refl

refused :
    (validate_policy (record raw { max_total_memory_mb = integer (pos 511) }) ≡ raise inconsistent)
    × (validate_policy (record raw { max_workers = boolean true }) ≡ raise not_an_integer)
unfolding validate_policy integer_limit numeric_limit boolean_flag check_aggregate float_scale
refused = (refl, refl)

-- `8.0 // 0.1`: the float `0.1` is 3602879701896397 / 2 ^ 55.
tenth :
    effective_worker_capacity (record checked {
      max_workers = 100;
      max_cpus = 3602879701896397 * 2 ^ 1019;
      max_memory_mb = 1;
    })
    ≡ 79
unfolding effective_worker_capacity
tenth = refl
