-- ===== src/Context/Policy.antt =====
-- `PluginWorkerPolicy` of entities/io/context.py. The CPU limits and the two times are floats in
-- the source. A finite float is a whole number of units of 2 ^ -1074, and that number stands for it: the
-- float `0.1` is a little more than a tenth. So a quotient of limits is that of the floats, as `//` has
-- it below 2 ^ 51. An integer of the wire is below 2 ^ 53, where `float` keeps its value.
use langbot_plugin_sdk.Prelude.{
  ℕ, zero, suc, ◌*◌, ◌/◌, ◌^◌, ◌≤◌, ◌≡◌, Bool, true, false, ◌&&◌, Option, none, some, arith, min,
  max, ltb, Result, ok, raise, ◌>>=◌, ◌>>◌, raise_if, bind_inverse, ◌==◌, nat_eq, ◌↔◌, not,
}
use langbot_plugin_sdk.Prelude.Int.{ℤ, pos, negsuc}

-- A value of the wire: `floating none` is an infinity or not a number.
pub data Setting : Type 0 where
  boolean : Bool → Setting
  integer : ℤ → Setting
  floating : Option ℤ → Setting
  other : Setting

pub data PolicyError : Type 0 where
  not_a_number not_an_integer not_positive not_a_boolean inconsistent : PolicyError

pub record RawPolicy : Type 0 where
  pub max_cpus : Setting
  pub max_memory_mb : Setting
  pub max_pids : Setting
  pub max_open_files : Setting
  pub max_file_size_mb : Setting
  pub max_workers : Setting
  pub max_total_cpus : Setting
  pub max_total_memory_mb : Setting
  pub max_installations : Setting
  pub max_concurrent_restarts : Setting
  pub restart_failure_threshold : Setting
  pub restart_failure_window : Setting
  pub restart_circuit_open : Setting
  pub require_hard_limits : Setting

pub record WorkerPolicy : Type 0 where
  pub max_cpus : ℕ
  pub max_memory_mb : ℕ
  pub max_pids : ℕ
  pub max_open_files : ℕ
  pub max_file_size_mb : ℕ
  pub max_workers : ℕ
  pub max_total_cpus : ℕ
  pub max_total_memory_mb : ℕ
  pub max_installations : ℕ
  pub max_concurrent_restarts : ℕ
  pub restart_failure_threshold : ℕ
  pub restart_failure_window : ℕ
  pub restart_circuit_open : ℕ
  pub require_hard_limits : Bool

-- The `==` that pydantic derives.
abbrev pub bool_beq : Bool → Bool → Bool
bool_beq true b = b
bool_beq false b = not b

abbrev pub policy_beq : WorkerPolicy → WorkerPolicy → Bool
policy_beq a b =
    a.max_cpus == b.max_cpus
    && a.max_memory_mb == b.max_memory_mb
    && a.max_pids == b.max_pids
    && a.max_open_files == b.max_open_files
    && a.max_file_size_mb == b.max_file_size_mb
    && a.max_workers == b.max_workers
    && a.max_total_cpus == b.max_total_cpus
    && a.max_total_memory_mb == b.max_total_memory_mb
    && a.max_installations == b.max_installations
    && a.max_concurrent_restarts == b.max_concurrent_restarts
    && a.restart_failure_threshold == b.restart_failure_threshold
    && a.restart_failure_window == b.restart_failure_window
    && a.restart_circuit_open == b.restart_circuit_open
    && bool_beq a.require_hard_limits b.require_hard_limits

pub policy_beq_iff : (a b : WorkerPolicy) → (policy_beq a b ≡ true) ↔ (a ≡ b)
policy_beq_iff a b = ground arith

abbrev positive : ℤ → Result PolicyError ℕ
positive (pos zero) = raise not_positive
positive (pos (suc n)) = ok (suc n)
positive (negsuc n) = raise not_positive

-- `validate_integer_limits`, then `validate_positive_integer_limit`
unfoldable pub integer_limit : Setting → Result PolicyError ℕ
integer_limit (boolean b) = raise not_an_integer
integer_limit (integer n) = positive n
integer_limit (floating x) = raise not_an_integer
integer_limit other = raise not_an_integer

-- The units of the float `1.0`
unfoldable pub float_scale : ℕ
float_scale = 2 ^ 1074

-- `float(n)`, where a negative number is as good as any other
abbrev as_float : ℤ → ℤ
as_float (pos n) = pos (n * float_scale)
as_float (negsuc n) = negsuc n

-- `validate_numeric_limits`, then `validate_max_cpus`
unfoldable pub numeric_limit : Setting → Result PolicyError ℕ
numeric_limit (boolean b) = raise not_a_number
numeric_limit (integer n) = positive (as_float n)
numeric_limit (floating none) = raise not_positive
numeric_limit (floating (some x)) = positive x
numeric_limit other = raise not_a_number

unfoldable pub boolean_flag : Setting → Result PolicyError Bool
boolean_flag (boolean b) = ok b
boolean_flag (integer n) = raise not_a_boolean
boolean_flag (floating x) = raise not_a_boolean
boolean_flag other = raise not_a_boolean

unfoldable pub effective_worker_capacity : WorkerPolicy → ℕ
effective_worker_capacity p =
    max
      (min p.max_workers
        (min (p.max_total_cpus / p.max_cpus) (p.max_total_memory_mb / p.max_memory_mb)))
      1

-- `validate_aggregate_limits`: the first test that fails raises.
unfoldable pub check_aggregate : WorkerPolicy → Result PolicyError WorkerPolicy
unfolding effective_worker_capacity
check_aggregate p = do
  raise_if (ltb p.max_total_cpus p.max_cpus) inconsistent
  raise_if (ltb p.max_total_memory_mb p.max_memory_mb) inconsistent
  raise_if (ltb p.max_installations p.max_workers) inconsistent
  raise_if (ltb (effective_worker_capacity p) p.max_concurrent_restarts) inconsistent
  raise_if (ltb p.max_installations p.restart_failure_threshold) inconsistent
  raise_if (ltb (3600 * float_scale) p.restart_failure_window) inconsistent
  raise_if (ltb (3600 * float_scale) p.restart_circuit_open) inconsistent
  ok p

unfoldable pub validate_policy : RawPolicy → Result PolicyError WorkerPolicy
validate_policy r = do
  max_cpus ← numeric_limit r.max_cpus
  max_memory_mb ← integer_limit r.max_memory_mb
  max_pids ← integer_limit r.max_pids
  max_open_files ← integer_limit r.max_open_files
  max_file_size_mb ← integer_limit r.max_file_size_mb
  max_workers ← integer_limit r.max_workers
  max_total_cpus ← numeric_limit r.max_total_cpus
  max_total_memory_mb ← integer_limit r.max_total_memory_mb
  max_installations ← integer_limit r.max_installations
  max_concurrent_restarts ← integer_limit r.max_concurrent_restarts
  restart_failure_threshold ← integer_limit r.restart_failure_threshold
  restart_failure_window ← numeric_limit r.restart_failure_window
  restart_circuit_open ← numeric_limit r.restart_circuit_open
  require_hard_limits ← boolean_flag r.require_hard_limits
  check_aggregate (record {
    max_cpus = max_cpus;
    max_memory_mb = max_memory_mb;
    max_pids = max_pids;
    max_open_files = max_open_files;
    max_file_size_mb = max_file_size_mb;
    max_workers = max_workers;
    max_total_cpus = max_total_cpus;
    max_total_memory_mb = max_total_memory_mb;
    max_installations = max_installations;
    max_concurrent_restarts = max_concurrent_restarts;
    restart_failure_threshold = restart_failure_threshold;
    restart_failure_window = restart_failure_window;
    restart_circuit_open = restart_circuit_open;
    require_hard_limits = require_hard_limits;
  })

-- What a policy in force satisfies.
pub record IsConsistent (p : WorkerPolicy) : Type 0 where
  pub some_cpu : 1 ≤ p.max_cpus
  pub some_memory : 1 ≤ p.max_memory_mb
  pub some_worker : 1 ≤ p.max_workers
  pub some_restart : 1 ≤ p.max_concurrent_restarts
  pub some_failure : 1 ≤ p.restart_failure_threshold
  pub cpus : p.max_cpus ≤ p.max_total_cpus
  pub memory : p.max_memory_mb ≤ p.max_total_memory_mb
  pub installations : p.max_workers ≤ p.max_installations
  pub restarts : p.max_concurrent_restarts ≤ effective_worker_capacity p
  pub threshold : p.restart_failure_threshold ≤ p.max_installations
  pub pauses : (1 ≤ p.restart_circuit_open) × (p.restart_circuit_open ≤ 3600 * float_scale)

pub integer_limit_pos : (s : Setting) (n : ℕ) → integer_limit s ≡ ok n → 1 ≤ n
unfolding integer_limit
integer_limit_pos (integer (pos (suc m))) n h = ground arith
integer_limit_pos _ n h = cc

pub numeric_limit_pos : (s : Setting) (n : ℕ) → numeric_limit s ≡ ok n → 1 ≤ n
unfolding numeric_limit
numeric_limit_pos s n h = ground arith

check_aggregate-le :
    (p q : WorkerPolicy)
    → check_aggregate p ≡ ok q
    → (q ≡ p)
      × (p.max_cpus ≤ p.max_total_cpus)
      × (p.max_memory_mb ≤ p.max_total_memory_mb)
      × (p.max_workers ≤ p.max_installations)
      × (p.max_concurrent_restarts ≤ effective_worker_capacity p)
      × (p.restart_failure_threshold ≤ p.max_installations)
      × (p.restart_circuit_open ≤ 3600 * float_scale)
unfolding check_aggregate
check_aggregate-le p q h = ground arith

-- A policy that passes the validation is consistent: its limits are positive, one worker fits into
-- the totals, and the restart limits fit the workers and the installations.
pub validate_policy-IsConsistent :
    (r : RawPolicy) (p : WorkerPolicy) → validate_policy r ≡ ok p → IsConsistent p
unfolding validate_policy
validate_policy-IsConsistent r p h =
    let (x0, e0, h0) = bind_inverse (numeric_limit r.max_cpus) _ h in
    let (x1, e1, h1) = bind_inverse (integer_limit r.max_memory_mb) _ h0 in
    let (x2, e2, h2) = bind_inverse (integer_limit r.max_pids) _ h1 in
    let (x3, e3, h3) = bind_inverse (integer_limit r.max_open_files) _ h2 in
    let (x4, e4, h4) = bind_inverse (integer_limit r.max_file_size_mb) _ h3 in
    let (x5, e5, h5) = bind_inverse (integer_limit r.max_workers) _ h4 in
    let (x6, e6, h6) = bind_inverse (numeric_limit r.max_total_cpus) _ h5 in
    let (x7, e7, h7) = bind_inverse (integer_limit r.max_total_memory_mb) _ h6 in
    let (x8, e8, h8) = bind_inverse (integer_limit r.max_installations) _ h7 in
    let (x9, e9, h9) = bind_inverse (integer_limit r.max_concurrent_restarts) _ h8 in
    let (x10, e10, h10) = bind_inverse (integer_limit r.restart_failure_threshold) _ h9 in
    let (x11, e11, h11) = bind_inverse (numeric_limit r.restart_failure_window) _ h10 in
    let (x12, e12, h12) = bind_inverse (numeric_limit r.restart_circuit_open) _ h11 in
    let (x13, e13, h13) = bind_inverse (boolean_flag r.require_hard_limits) _ h12 in
    let agg = check_aggregate-le _ p h13 in
    ground (
      arith,
      agg,
      numeric_limit_pos r.max_cpus x0 e0,
      integer_limit_pos r.max_memory_mb x1 e1,
      integer_limit_pos r.max_workers x5 e5,
      integer_limit_pos r.max_concurrent_restarts x9 e9,
      integer_limit_pos r.restart_failure_threshold x10 e10,
      numeric_limit_pos r.restart_circuit_open x12 e12,
    )
