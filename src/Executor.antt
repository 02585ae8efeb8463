-- ===== src/Executor.antt =====
-- src/langbot_plugin/runtime/bounded_executor.py: the thread pool with a hard cap on running plus
-- queued work and a fair share for each tenant scope. `Limits` is the validation of the limits,
-- this file the operations as they stand between two locks, `System` the threads that interleave.
pub mod Limits
pub mod System
pub mod Invariant
pub mod Safety
pub mod Submit
mod Tests
use langbot_plugin_sdk.Prelude.{
  ℕ, zero, suc, ◌+◌, ◌-◌, String, ◌≡◌, Bool, true, false, ◌&&◌, Option, none, some, max, length,
  leb, ltb, if◌then◌else◌, get_or, [], string_eq,
}
use langbot_plugin_sdk.Prelude.Dict
use langbot_plugin_sdk.Prelude.Dict.{Dict}

pub record Executor : Type 0 where
  pub max_workers : ℕ
  pub max_pending : ℕ
  pub max_inflight_per_scope : ℕ
  -- the value of the bounded semaphore
  pub capacity : ℕ
  pub inflight_by_scope : Dict String ℕ
  pub inflight : ℕ
  pub running : ℕ
  pub submitted_total : ℕ
  pub completed_total : ℕ
  pub rejected_total : ℕ
  pub global_rejected_total : ℕ
  pub scope_rejected_total : ℕ

-- `__init__`, after the validation of the limits
unfoldable pub init : ℕ → ℕ → ℕ → Executor
init workers pending per_scope = record {
  max_workers = workers;
  max_pending = pending;
  max_inflight_per_scope = per_scope;
  capacity = workers + pending;
  inflight_by_scope = [];
  inflight = 0;
  running = 0;
  submitted_total = 0;
  completed_total = 0;
  rejected_total = 0;
  global_rejected_total = 0;
  scope_rejected_total = 0;
}

module _ (x : Executor) where
  abbrev pub scope_count : String → ℕ
  scope_count scope = get_or (Dict.get x.inflight_by_scope scope) 0

  -- `self._capacity.acquire(blocking=False)`
  unfoldable pub acquire : Option Executor
  acquire = elim x.capacity [ zero ↦ none | suc n ↦ some (record x { capacity = n }) ]

  -- `self._capacity.release()`: a bounded semaphore refuses to pass its first value.
  unfoldable pub release : Option Executor
  release =
      if ltb x.capacity (x.max_workers + x.max_pending)
      then some (record x { capacity = x.capacity + 1 })
      else none

  -- the block of `submit` after a failed `acquire`
  unfoldable pub reject_globally : Executor
  reject_globally = record x {
    rejected_total = x.rejected_total + 1;
    global_rejected_total = x.global_rejected_total + 1;
  }

  -- the test of the locked block of `submit`
  unfoldable pub scope_is_full : Option String → Bool
  scope_is_full none = false
  scope_is_full (some scope) = leb x.max_inflight_per_scope (scope_count scope)

  unfoldable pub reject_scope : Executor
  reject_scope = record x {
    rejected_total = x.rejected_total + 1;
    scope_rejected_total = x.scope_rejected_total + 1;
  }

  unfoldable pub count_scope : Option String → Dict String ℕ
  count_scope none = x.inflight_by_scope
  count_scope (some scope) = Dict.set x.inflight_by_scope scope (scope_count scope + 1)

  -- the counters of an admitted submission
  unfoldable pub admit : Option String → Executor
  unfolding count_scope
  admit scope = record x {
    inflight = x.inflight + 1;
    submitted_total = x.submitted_total + 1;
    inflight_by_scope = count_scope scope;
  }

  -- `_release_scope_locked`; a count of one leaves no entry behind
  unfoldable pub release_scope : Option String → Dict String ℕ
  release_scope none = x.inflight_by_scope
  release_scope (some scope) =
      let remaining = scope_count scope - 1 in
      if ltb 0 remaining
      then Dict.set x.inflight_by_scope scope remaining
      else Dict.remove x.inflight_by_scope scope

  -- the locked block of `submit` after `super().submit` raised
  unfoldable pub withdraw : Option String → Executor
  unfolding release_scope
  withdraw scope = record x { inflight = x.inflight - 1; inflight_by_scope = release_scope scope }

  -- the two locked blocks of `run`
  unfoldable pub start_run : Executor
  start_run = record x { running = x.running + 1 }

  unfoldable pub end_run : Executor
  end_run = record x { running = x.running - 1 }

  -- the locked block of `complete`
  unfoldable pub complete : Option String → Executor
  unfolding release_scope
  complete scope = record x {
    inflight = x.inflight - 1;
    completed_total = x.completed_total + 1;
    inflight_by_scope = release_scope scope;
  }

pub record Snapshot : Type 0 where
  pub max_workers : ℕ
  pub max_pending : ℕ
  pub max_inflight_per_scope : ℕ
  pub inflight : ℕ
  pub running : ℕ
  pub pending : ℕ
  pub active_scopes : ℕ
  pub submitted_total : ℕ
  pub completed_total : ℕ
  pub rejected_total : ℕ
  pub global_rejected_total : ℕ
  pub scope_rejected_total : ℕ

-- `max(inflight - running, 0)` is the subtraction of ℕ.
unfoldable pub snapshot : Executor → Snapshot
snapshot x = record {
  max_workers = x.max_workers;
  max_pending = x.max_pending;
  max_inflight_per_scope = x.max_inflight_per_scope;
  inflight = x.inflight;
  running = x.running;
  pending = x.inflight - x.running;
  active_scopes = length x.inflight_by_scope;
  submitted_total = x.submitted_total;
  completed_total = x.completed_total;
  rejected_total = x.rejected_total;
  global_rejected_total = x.global_rejected_total;
  scope_rejected_total = x.scope_rejected_total;
}
