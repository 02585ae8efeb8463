-- ===== src/Restart.antt =====
-- src/langbot_plugin/runtime/plugin/restart_coordinator.py: admission of worker restarts by launch
-- slots and a circuit breaker. A time is a number of ticks of the coordinator's clock; 0 is the
-- clock's earliest value, so `now - window` may stop at 0 where Python goes below it: no failure
-- time lies below 0. This file is the coordinator between two awaits, `Permit` the permits,
-- `System` the supervisors that interleave.
pub mod Permit
pub mod System
pub mod Invariant
pub mod Cooldown
mod Tests
use langbot_plugin_sdk.Prelude.{
  ℕ, zero, suc, ◌+◌, ◌-◌, ◌≤◌, Bool, true, false, ◌&&◌, ◌||◌, Option, none, some, List, [], ◌∷◌,
  ◌++◌, max, length, drop, leb, ltb, if◌then◌else◌, ◌==◌, nat_eq, Result, ok, raise, not,
}

pub record Policy : Type 0 where
  pub max_concurrent_restarts : ℕ
  pub restart_failure_threshold : ℕ
  pub restart_failure_window : ℕ
  pub restart_circuit_open : ℕ

pub record Coordinator : Type 0 where
  pub configured : Bool
  pub max_concurrent_restarts : ℕ
  pub failure_threshold : ℕ
  pub failure_window : ℕ
  pub circuit_open : ℕ
  -- the value of the bounded semaphore, once there is one
  pub launch_semaphore : Option ℕ
  -- oldest first, at most `failure_threshold` of them
  pub failure_times : List ℕ
  pub open_until : ℕ
  pub half_open_probe_inflight : Bool
  pub active_launches : ℕ
  pub gate_waiters : ℕ
  pub restart_attempts_total : ℕ
  pub restart_failures_total : ℕ
  pub circuit_open_total : ℕ

pub data RestartError : Type 0 where
  policy_changed not_configured admission_underflow semaphore_overflow : RestartError

-- `__init__`
abbrev pub new : Coordinator
new = record {
  configured = false;
  max_concurrent_restarts = 0;
  failure_threshold = 0;
  failure_window = 0;
  circuit_open = 0;
  launch_semaphore = none;
  failure_times = [];
  open_until = 0;
  half_open_probe_inflight = false;
  active_launches = 0;
  gate_waiters = 0;
  restart_attempts_total = 0;
  restart_failures_total = 0;
  circuit_open_total = 0;
}

-- `current == limits`
abbrev has_policy : Coordinator → Policy → Bool
has_policy c p =
    c.max_concurrent_restarts == p.max_concurrent_restarts
    && c.failure_threshold == p.restart_failure_threshold
    && c.failure_window == p.restart_failure_window
    && c.circuit_open == p.restart_circuit_open

unfoldable pub configure : Coordinator → Policy → Result RestartError Coordinator
configure c p =
    if c.configured
    then (if has_policy c p then ok c else raise policy_changed)
    else ok (record c {
      configured = true;
      max_concurrent_restarts = p.max_concurrent_restarts;
      failure_threshold = p.restart_failure_threshold;
      failure_window = p.restart_failure_window;
      circuit_open = p.restart_circuit_open;
      launch_semaphore = some p.max_concurrent_restarts;
      failure_times = [];
    })

-- The loop of `_trim_failures`: failures before the cutoff leave from the front.
unfoldable pub drop_before : ℕ → List ℕ → List ℕ
drop_before cutoff [] = []
drop_before cutoff (t ∷ ts) =
    let rest = drop_before cutoff ts in if ltb t cutoff then rest else t ∷ ts

unfoldable pub trim_failures : Coordinator → ℕ → Coordinator
unfolding drop_before
trim_failures c now = record c {
  failure_times = drop_before (now - c.failure_window) c.failure_times;
}

-- `deque(maxlen=n).append(t)`: the oldest entries leave.
unfoldable pub append_bounded : ℕ → List ℕ → ℕ → List ℕ
append_bounded n ts t = let all = ts ++ t ∷ [] in drop (length all - n) all

-- `_release_launch_slot`, with the bound of the semaphore
unfoldable pub release_launch_slot : Coordinator → Result RestartError Coordinator
release_launch_slot c = elim c.launch_semaphore [
  | none ↦ raise not_configured
  | some free ↦
      if leb c.active_launches 0
      then raise admission_underflow
      else if leb c.max_concurrent_restarts free
      then raise semaphore_overflow
      else ok
          (record c { active_launches = c.active_launches - 1; launch_semaphore = some (free + 1) })
]

-- What one turn of the loop of `acquire` decides: a permit, or a wait for the time or for a change.
pub data Gate : Type 0 where
  permit : Bool → Gate
  wait_for : ℕ → Gate
  wait_change : Gate

abbrev grant : Coordinator → Coordinator
grant c = record c {
  restart_attempts_total = c.restart_attempts_total + 1;
  active_launches = c.active_launches + 1;
}

unfoldable pub gate : Coordinator → ℕ → Gate × Coordinator
unfolding trim_failures
gate c now =
    let c' = trim_failures c now in
    if ltb now c'.open_until
    then (wait_for (c'.open_until - now), c')
    else if ltb 0 c'.open_until
    then (if c'.half_open_probe_inflight
        then (wait_change, c')
        else (permit true, record (grant c') { half_open_probe_inflight = true }))
    else (permit false, grant c')

-- The end of `_record_failure`, which opens the circuit or prolongs its pause.
abbrev open_circuit : Coordinator → ℕ → Coordinator
open_circuit c now = record c {
  open_until = max c.open_until (now + c.circuit_open);
  half_open_probe_inflight = false;
  circuit_open_total =
      (if ltb now c.open_until || c.half_open_probe_inflight then 0 else 1) + c.circuit_open_total;
}

abbrev should_open : Coordinator → ℕ → Bool → Bool
should_open c now was_probe =
    was_probe || (ltb now c.open_until || leb c.failure_threshold (length c.failure_times))

abbrev note_failure : Coordinator → ℕ → Bool → Coordinator
note_failure c now was_probe = record c {
  failure_times = append_bounded c.failure_threshold c.failure_times now;
  restart_failures_total = c.restart_failures_total + 1;
  half_open_probe_inflight = if was_probe then false else c.half_open_probe_inflight;
}

unfoldable pub record_failure : Coordinator → ℕ → Bool → Coordinator
unfolding trim_failures
record_failure c now was_probe =
    let c' = note_failure (trim_failures c now) now was_probe in
    if should_open c' now was_probe then open_circuit c' now else c'

-- `record_unadmitted_failure`
unfoldable pub record_unadmitted_failure : Coordinator → ℕ → Result RestartError Coordinator
unfolding record_failure
record_unadmitted_failure c now = elim c.launch_semaphore [
  | none ↦ raise not_configured
  | some free ↦ ok (record_failure c now false)
]

unfoldable pub record_probe_success : Coordinator → Coordinator
record_probe_success c =
    if c.half_open_probe_inflight
    then record c { half_open_probe_inflight = false; open_until = 0; failure_times = [] }
    else c

unfoldable pub abandon_probe : Coordinator → Coordinator
abandon_probe c =
    if c.half_open_probe_inflight then record c { half_open_probe_inflight = false } else c

pub data CircuitState : Type 0 where
  closed opened half_open : CircuitState

abbrev circuit_state : Coordinator → ℕ → CircuitState
circuit_state c now =
    if ltb now c.open_until
    then opened
    else if ltb 0 c.open_until || c.half_open_probe_inflight
    then half_open
    else closed

pub record Snapshot : Type 0 where
  pub state : CircuitState
  pub active_launches : ℕ
  pub gate_waiters : ℕ
  pub max_concurrent_restarts : ℕ
  pub failures_in_window : ℕ
  pub failure_threshold : ℕ
  pub open_remaining : ℕ
  pub half_open_probe_inflight : Bool
  pub restart_attempts_total : ℕ
  pub restart_failures_total : ℕ
  pub circuit_open_total : ℕ

-- `none` is `{"configured": False}`. The failures outside the window leave as a side effect.
unfoldable pub snapshot : Coordinator → ℕ → Option Snapshot × Coordinator
unfolding trim_failures
snapshot c now =
    if not c.configured
    then (none, c)
    else let c' = trim_failures c now in
      (
        some (record {
          state = circuit_state c' now;
          active_launches = c'.active_launches;
          gate_waiters = c'.gate_waiters;
          max_concurrent_restarts = c'.max_concurrent_restarts;
          failures_in_window = length c'.failure_times;
          failure_threshold = c'.failure_threshold;
          open_remaining = c'.open_until - now;
          half_open_probe_inflight = c'.half_open_probe_inflight;
          restart_attempts_total = c'.restart_attempts_total;
          restart_failures_total = c'.restart_failures_total;
          circuit_open_total = c'.circuit_open_total;
        }),
        c',
      )
