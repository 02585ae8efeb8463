-- ===== src/Executor/Safety.antt =====
-- What the counters of bounded_executor.py guarantee in every reachable state.
use langbot_plugin_sdk.Prelude.{
  ℕ, ◌+◌, ◌*◌, ◌≤◌, String, ◌≡◌, refl, Bool, Option, none, some, List, [], arith, count, ok,
  string_eq, count-le-length,
}
use langbot_plugin_sdk.Prelude.Pick.{Pick, length-Pick}
use langbot_plugin_sdk.Prelude.Dict
use langbot_plugin_sdk.Prelude.Int.{ℤ}
use langbot_plugin_sdk.Executor.{
  Executor, init, acquire, release, reject_globally, reject_scope, admit, withdraw, start_run,
  end_run, complete,
}
use langbot_plugin_sdk.Executor.Limits.{Limits, validated_limits, validated_limits-AreFair}
use langbot_plugin_sdk.Executor.System.{System, Task, Step, Reach, initial, next}
use langbot_plugin_sdk.Executor.Invariant.{counted, counted_for, fresh, Reach-Inv}

-- No step changes the limits.
Step-limits :
    {s u : System}
    → Step s u
    → (u.executor.max_workers ≡ s.executor.max_workers)
      × (u.executor.max_pending ≡ s.executor.max_pending)
      × (u.executor.max_inflight_per_scope ≡ s.executor.max_inflight_per_scope)
unfolding acquire release reject_globally reject_scope admit withdraw start_run end_run complete
Step-limits (Step.refuse x ts e) = (refl, refl, refl)
Step-limits (Step.enter x y ts s e) = ground arith
Step-limits (Step.turn_away x y ts rest s p full e) = ground arith
Step-limits (Step.let_in x ts rest s p free) = (refl, refl, refl)
Step-limits (Step.queue x ts rest s p) = (refl, refl, refl)
Step-limits (Step.fail x ts rest s p) = (refl, refl, refl)
Step-limits (Step.start x ts rest s p) = (refl, refl, refl)
Step-limits (Step.cancel x ts rest s p) = (refl, refl, refl)
Step-limits (Step.stop x ts rest s p) = (refl, refl, refl)
Step-limits (Step.done x ts rest s p) = (refl, refl, refl)
Step-limits (Step.give_back x y ts rest s p e) = ground arith

Reach-limits :
    (w p l : ℕ) {s : System}
    → Reach (fresh w p l) s
    → (s.executor.max_workers ≡ w)
      × (s.executor.max_pending ≡ p)
      × (s.executor.max_inflight_per_scope ≡ l)
unfolding init
Reach-limits w p l initial = (refl, refl, refl)
Reach-limits w p l (next r st) = omega (arith, Reach-limits w p l r, Step-limits st)

-- Running and queued work together never exceed `max_workers + max_pending`, and the work of one
-- scope never exceeds its limit.
pub inflight_bounded :
    (w p l : ℕ) {s : System}
    → Reach (fresh w p l) s
    → (count counted s.tasks ≤ w + p) × ((k : String) → count (counted_for k) s.tasks ≤ l)
inflight_bounded w p l {s} r =
    let v = Reach-Inv w p l r in
    let lim = Reach-limits w p l r in
    (
      omega (arith, v.totals.permits, lim, count-le-length counted s.tasks),
      λ k. omega (arith, v.table.scopes k, v.table.shares k, lim),
    )

-- When nothing is in flight any more, all permits are back, the counters are zero, and no scope
-- has an entry left.
pub idle_restored :
    (w p l : ℕ) {x : Executor}
    → Reach (fresh w p l) (record { executor = x; tasks = [] })
    → (x.capacity ≡ w + p)
      × (x.inflight ≡ 0)
      × (x.running ≡ 0)
      × ((k : String) → Dict.get x.inflight_by_scope k ≡ none)
idle_restored w p l {x} r =
    let v = Reach-Inv w p l r in
    (
      omega (arith, v.totals.permits, Reach-limits w p l r),
      omega (arith, v.totals.inflight),
      omega (arith, v.totals.running),
      λ k. ground (arith, v.table.scopes k, v.table.no_empty_scope k),
    )

-- A thread that holds a permit can give it back: the bounded semaphore never refuses.
pub give_back_possible :
    (w p l : ℕ) {x : Executor} {ts rest : List Task} {t : Task}
    → Reach (fresh w p l) (record { executor = x; tasks = ts })
    → Pick t ts rest
    → (y : Executor) × (release x ≡ some y)
unfolding release
give_back_possible w p l {x} r picked = (
  record x { capacity = x.capacity + 1 },
  ground (arith, (Reach-Inv w p l r).totals.permits, length-Pick picked),
)

-- Under limits that the validation accepted, with two workers or more, no scope ever has more
-- work in flight than half of the workers.
pub scope_share :
    {V : Type 0} (is_bool : V → Bool) (int_of : V → Option ℤ) (a b : V) (c : Option V)
    {lim : Limits} {s : System} (k : String)
    → validated_limits is_bool int_of a b c ≡ ok lim
    → 2 ≤ lim.workers
    → Reach (fresh lim.workers lim.pending lim.scope_limit) s
    → 2 * count (counted_for k) s.tasks ≤ lim.workers
scope_share is_bool int_of a b c {lim} k e two r =
    let fair = validated_limits-AreFair is_bool int_of a b c e in
    omega (arith, (inflight_bounded lim.workers lim.pending lim.scope_limit r).1 k, fair.share)
