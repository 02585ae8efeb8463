-- ===== src/Executor/Submit.antt =====
-- `submit` of bounded_executor.py as one uninterrupted call, the scope that it reads, the retries
-- of `run_blocking_cleanup`, and the installation of the executor in an event loop.
use langbot_plugin_sdk.Prelude.{
  ℕ, zero, suc, ◌+◌, ◌-◌, ◌*◌, ◌≤◌, String, ◌≡◌, refl, Bool, true, false, Option, none, some, min,
  arith, Result, ok, raise, if◌then◌else◌, ◌==◌, nat_eq, string_eq, option_eq, ◌&&◌, ◌↔◌, ◌≢◌,
}
use langbot_plugin_sdk.Prelude.Dict
use langbot_plugin_sdk.Prelude.Dict.{get-set, get-remove}
use langbot_plugin_sdk.Executor.{
  Executor, init, acquire, release, reject_globally, reject_scope, scope_is_full, admit, withdraw,
  scope_count, complete,
}
use langbot_plugin_sdk.Executor.Limits.{Limits}

-- What a call of `submit` ends with. `BlockingWorkCapacityError` carries the scope.
pub data Submission : Type 0 where
  accepted : Submission
  capacity_error : Option String → Submission
  pool_error : Submission

abbrev pub or_same : Executor → Option Executor → Executor
or_same x none = x
or_same x (some y) = y

-- The locked block: the share of the scope, the counters, and the pool's answer (`pool_takes`).
unfoldable pub submit_locked : Executor → Option String → Bool → Executor × Submission
unfolding scope_is_full reject_scope admit withdraw release
submit_locked x scope pool_takes =
    if scope_is_full x scope
    then (or_same x (release (reject_scope x)), capacity_error scope)
    else if pool_takes
    then (admit x scope, accepted)
    else (or_same x (release (withdraw (admit x scope) scope)), pool_error)

unfoldable pub submit : Executor → Option String → Bool → Executor × Submission
unfolding acquire reject_globally submit_locked
submit x scope pool_takes = elim (acquire x) [
  | none ↦ (reject_globally x, capacity_error scope)
  | some y ↦ submit_locked y scope pool_takes
]

-- `complete`, the callback of a future that is done: the counters, then the permit.
unfoldable pub finish : Executor → Option String → Executor
unfolding complete release
finish x scope = or_same x (release (complete x scope))

-- The same permits, work in flight and work of each scope.
pub record SameWork (x y : Executor) : Type 0 where
  pub capacity : y.capacity ≡ x.capacity
  pub inflight : y.inflight ≡ x.inflight
  pub running : y.running ≡ x.running
  pub scopes : (k : String) → scope_count y k ≡ scope_count x k

-- `submit` accepts the work exactly when a permit is free, the scope is below its share and the
-- pool takes the work.
pub submit-accepted_iff :
    (x : Executor) (scope : Option String) (takes : Bool)
    → ((submit x scope takes).1 ≡ accepted)
      ↔ ((1 ≤ x.capacity) × (scope_is_full x scope ≡ false) × (takes ≡ true))
unfolding submit
submit-accepted_iff x scope takes = (ground arith, ground arith)

-- Admitting a task and taking it out again leaves every scope's count.
scopes-withdraw :
    (x : Executor) (s : Option String) (k : String)
    → scope_count (withdraw (admit x s) s) k ≡ scope_count x k
unfolding withdraw admit
scopes-withdraw x none k = refl
scopes-withdraw x (some s) k = ground (
  arith,
  get-set x.inflight_by_scope s (scope_count x s + 1) k,
  get-set x.inflight_by_scope s (scope_count x s + 1) s,
  get-set (Dict.set x.inflight_by_scope s (scope_count x s + 1)) s (scope_count x s + 1 - 1) k,
  get-remove (Dict.set x.inflight_by_scope s (scope_count x s + 1)) s k,
  string_eq.equal_iff s k,
  string_eq.equal_iff s s,
)

scopes-complete :
    (x : Executor) (s : Option String) (k : String)
    → scope_count (complete (admit x s) s) k ≡ scope_count x k
unfolding complete admit withdraw
scopes-complete x s k = scopes-withdraw x s k

-- A submission that is not accepted holds nothing afterwards, on each of its three error paths.
pub submit_refused :
    (x : Executor) (scope : Option String) (takes : Bool)
    → x.capacity ≤ x.max_workers + x.max_pending
    → (submit x scope takes).1 ≢ accepted
    → SameWork x (submit x scope takes).0
unfolding submit
submit_refused x scope takes fits refused = record {
  capacity = ground arith;
  inflight = ground arith;
  running = ground arith;
  scopes = λ k. ground (arith, scopes-withdraw x scope k);
}

-- Work that was accepted and then finishes leaves what it found, and is counted as completed.
pub finish-submit :
    (x : Executor) (scope : Option String)
    → x.capacity ≤ x.max_workers + x.max_pending
    → (submit x scope true).1 ≡ accepted
    → let y = finish (submit x scope true).0 scope in
      SameWork x y
      × (y.completed_total ≡ x.completed_total + 1)
      × (y.submitted_total ≡ x.submitted_total + 1)
unfolding submit finish
finish-submit x scope fits took = (
  record {
    capacity = ground arith;
    inflight = ground arith;
    running = ground arith;
    scopes = λ k. ground (arith, scopes-complete x scope k);
  },
  ground arith,
  ground arith,
)

-- `blocking_work_scope(scope)`: a scope that is blank leaves the scope of the caller. `strip` is
-- `str.strip`.
module _ (strip : String → String) where
  unfoldable pub entered_scope : Option String → Option String → Option String
  entered_scope current none = current
  entered_scope current (some scope) =
      let normalized = strip scope in if normalized == "" then current else some normalized

-- The default executor of an event loop: none yet, a bounded one, or a foreign one.
pub data DefaultExecutor : Type 0 where
  unset foreign : DefaultExecutor
  bounded : Executor → DefaultExecutor

pub data ConfigureError : Type 0 where
  different_limits already_initialized : ConfigureError

-- `configure_bounded_default_executor`, after `_validated_limits`
unfoldable pub configure_default : DefaultExecutor → Limits → Result ConfigureError DefaultExecutor
configure_default unset l = ok (bounded (init l.workers l.pending l.scope_limit))
configure_default foreign l = raise already_initialized
configure_default (bounded x) l =
    if x.max_workers == l.workers
      && x.max_pending == l.pending
      && x.max_inflight_per_scope == l.scope_limit
    then ok (bounded x)
    else raise different_limits

-- Installing the executor twice with equal limits keeps the first one and its counters; with any
-- other limits the second call is refused.
pub configure_default_again :
    (l m : Limits) {d : DefaultExecutor}
    → configure_default unset l ≡ ok d
    → configure_default d m ≡ (
        if l.workers == m.workers && l.pending == m.pending && l.scope_limit == m.scope_limit
        then ok d
        else raise different_limits)
unfolding configure_default init
configure_default_again l m h = ground arith

-- The pauses of `run_blocking_cleanup`, in milliseconds: 10, doubled up to 250.
abbrev cleanup_retry_initial : ℕ
cleanup_retry_initial = 10

abbrev cleanup_retry_max : ℕ
cleanup_retry_max = 250

unfoldable pub cleanup_delay : ℕ → ℕ
cleanup_delay zero = cleanup_retry_initial
cleanup_delay (suc n) = min (cleanup_delay n * 2) cleanup_retry_max

-- Every pause is positive and at most 250 ms, and no pause is shorter than the one before.
pub cleanup_delay_bounds :
    (n : ℕ)
    → (cleanup_retry_initial ≤ cleanup_delay n)
      × (cleanup_delay n ≤ cleanup_retry_max)
      × (cleanup_delay n ≤ cleanup_delay (suc n))
unfolding cleanup_delay
cleanup_delay_bounds zero = omega arith
cleanup_delay_bounds (suc n) = omega (arith, cleanup_delay_bounds n)
