-- ===== src/Executor/Invariant.antt =====
-- The counters of the executor against the work that is really in flight, whatever the order in
-- which the threads run.
use langbot_plugin_sdk.Prelude.{
  ℕ, suc, ◌+◌, ◌-◌, ◌≤◌, String, ◌≡◌, ◌≢◌, refl, sym, Bool, true, false, ◌&&◌, Option, none, some,
  List, [], arith, length, count, if◌then◌else◌, get_or, ◌==◌, string_eq, option_eq,
}
use langbot_plugin_sdk.Prelude.Pick.{Pick, length-Pick, count-Pick}
use langbot_plugin_sdk.Prelude.Dict
use langbot_plugin_sdk.Prelude.Dict.{Dict, get, get-set, get-remove}
use langbot_plugin_sdk.Executor.{
  Executor, init, acquire, release, reject_globally, reject_scope, scope_is_full, admit, withdraw,
  start_run, end_run, complete, scope_count, release_scope,
}
use langbot_plugin_sdk.Executor.System.{System, Task, Phase, task, Step, Reach, initial, next}

-- The phases in which a task is counted by `_inflight`.
abbrev pub is_counted : Phase → Bool
is_counted Phase.acquired = false
is_counted Phase.admitted = true
is_counted Phase.queued = true
is_counted Phase.running = true
is_counted Phase.finished = true
is_counted Phase.returning = false

abbrev pub is_running : Phase → Bool
is_running Phase.running = true
is_running Phase.acquired = false
is_running Phase.admitted = false
is_running Phase.queued = false
is_running Phase.finished = false
is_running Phase.returning = false

abbrev pub counted : Task → Bool
counted t = is_counted t.phase

abbrev pub counted_for : String → Task → Bool
counted_for k t = is_counted t.phase && (t.scope == some k)

abbrev pub runs : Task → Bool
runs t = is_running t.phase

-- The totals say what their names say of the tasks in flight.
pub record Totals (s : System) : Type 0 where
  pub permits :
      s.executor.capacity + length s.tasks ≡ s.executor.max_workers + s.executor.max_pending
  pub inflight : s.executor.inflight ≡ count counted s.tasks
  pub running : s.executor.running ≡ count runs s.tasks
  pub submitted : s.executor.completed_total + s.executor.inflight ≤ s.executor.submitted_total
  pub rejected :
      s.executor.rejected_total ≡ s.executor.global_rejected_total + s.executor.scope_rejected_total

-- The table of the scopes holds the tasks in flight of each scope, and none above its share.
pub record Shares (s : System) : Type 0 where
  pub scopes : (k : String) → scope_count s.executor k ≡ count (counted_for k) s.tasks
  pub shares : (k : String) → scope_count s.executor k ≤ s.executor.max_inflight_per_scope
  pub no_empty_scope : (k : String) → Dict.get s.executor.inflight_by_scope k ≢ some 0

Pick-totals :
    {t : Task} {ts rest : List Task}
    → Pick t ts rest
    → (length ts ≡ suc (length rest))
      × (count counted ts ≡ (if counted t then 1 else 0) + count counted rest)
      × (count runs ts ≡ (if runs t then 1 else 0) + count runs rest)
Pick-totals p = (length-Pick p, count-Pick counted p, count-Pick runs p)

Step-Totals : {s u : System} → Step s u → Totals s → Totals u
unfolding acquire release reject_globally reject_scope admit withdraw start_run end_run complete
Step-Totals (Step.refuse x ts e) v = ground arith
Step-Totals (Step.enter x y ts s e) v = ground arith
Step-Totals (Step.turn_away x y ts rest s p full e) v = ground (arith, Pick-totals p)
Step-Totals (Step.let_in x ts rest s p free) v = ground (arith, Pick-totals p)
Step-Totals (Step.queue x ts rest s p) v = ground (arith, Pick-totals p)
Step-Totals (Step.fail x ts rest s p) v = ground (arith, Pick-totals p)
Step-Totals (Step.start x ts rest s p) v = ground (arith, Pick-totals p)
Step-Totals (Step.cancel x ts rest s p) v = ground (arith, Pick-totals p)
Step-Totals (Step.stop x ts rest s p) v = ground (arith, Pick-totals p)
Step-Totals (Step.done x ts rest s p) v = ground (arith, Pick-totals p)
Step-Totals (Step.give_back x y ts rest s p e) v = ground (arith, Pick-totals p)

-- What the two writes to the table do to the count of a scope.
scope_count-admit :
    (x : Executor) (s : Option String) (k : String)
    → scope_count (admit x s) k ≡ (if s == some k then 1 else 0) + scope_count x k
unfolding admit
scope_count-admit x none k = omega arith
scope_count-admit x (some s) k =
    ground (arith, get-set x.inflight_by_scope s (scope_count x s + 1) k, string_eq.equal_iff s k)

scope_count-release :
    (x : Executor) (s : Option String) (k : String)
    → get_or (Dict.get (release_scope x s) k) 0 ≡ scope_count x k - (if s == some k then 1 else 0)
unfolding release_scope
scope_count-release x none k = omega arith
scope_count-release x (some s) k = ground (
  arith,
  get-set x.inflight_by_scope s (scope_count x s - 1) k,
  get-remove x.inflight_by_scope s k,
  string_eq.equal_iff s k,
)

admit-no_empty :
    (x : Executor) (s : Option String) (k : String)
    → Dict.get x.inflight_by_scope k ≢ some 0
    → Dict.get (admit x s).inflight_by_scope k ≢ some 0
unfolding admit
admit-no_empty x none k h = h
admit-no_empty x (some s) k h =
    ground (arith, get-set x.inflight_by_scope s (scope_count x s + 1) k, string_eq.equal_iff s k)

release-no_empty :
    (x : Executor) (s : Option String) (k : String)
    → Dict.get x.inflight_by_scope k ≢ some 0
    → Dict.get (release_scope x s) k ≢ some 0
unfolding release_scope
release-no_empty x none k h = h
release-no_empty x (some s) k h = ground (
  arith,
  get-set x.inflight_by_scope s (scope_count x s - 1) k,
  get-remove x.inflight_by_scope s k,
  string_eq.equal_iff s k,
)

-- A step that leaves the table alone, and counts the same tasks for every scope.
kept :
    {s u : System}
    → u.executor.inflight_by_scope ≡ s.executor.inflight_by_scope
    → u.executor.max_inflight_per_scope ≡ s.executor.max_inflight_per_scope
    → ((k : String) → count (counted_for k) u.tasks ≡ count (counted_for k) s.tasks)
    → Shares s
    → Shares u
kept e m same v = record {
  scopes = λ k. ground (arith, same k, v.scopes k);
  shares = λ k. ground (arith, v.shares k);
  no_empty_scope = λ k. ground (arith, v.no_empty_scope k);
}

-- A step that drops a task of scope `s` from the table.
dropped :
    {x y : Executor} {ts us : List Task} (s : Option String)
    → y.inflight_by_scope ≡ release_scope x s
    → y.max_inflight_per_scope ≡ x.max_inflight_per_scope
    → ((k : String)
        → count (counted_for k) ts ≡ (if s == some k then 1 else 0) + count (counted_for k) us)
    → Shares (record { executor = x; tasks = ts })
    → Shares (record { executor = y; tasks = us })
dropped {x} s e m same v = record {
  scopes = λ k. ground (arith, same k, v.scopes k, scope_count-release x s k);
  shares = λ k. ground (arith, v.shares k, scope_count-release x s k);
  no_empty_scope = λ k. ground (arith, release-no_empty x s k (v.no_empty_scope k));
}

admit-shares :
    (x : Executor) (s : Option String) (k : String)
    → scope_is_full x s ≡ false
    → scope_count x k ≤ x.max_inflight_per_scope
    → scope_count (admit x s) k ≤ x.max_inflight_per_scope
unfolding scope_is_full admit
admit-shares x none k free h = h
admit-shares x (some s) k free h =
    ground (arith, get-set x.inflight_by_scope s (scope_count x s + 1) k, string_eq.equal_iff s k)

-- A step that enters a task of scope `s` in the table.
added :
    {x : Executor} {ts us : List Task} (s : Option String)
    → scope_is_full x s ≡ false
    → ((k : String)
        → count (counted_for k) us ≡ (if s == some k then 1 else 0) + count (counted_for k) ts)
    → Shares (record { executor = x; tasks = ts })
    → Shares (record { executor = admit x s; tasks = us })
unfolding admit
added {x} s free same v = record {
  scopes = λ k. omega (arith, same k, v.scopes k, scope_count-admit x s k);
  shares = λ k. admit-shares x s k free (v.shares k);
  no_empty_scope = λ k. admit-no_empty x s k (v.no_empty_scope k);
}

-- A task that leaves one phase for another, or for good, as one scope counts it.
Pick-left :
    {s : Option String} {p : Phase} {ts rest : List Task} (k : String)
    → Pick (task s p) ts rest
    → count (counted_for k) ts
      ≡ (if is_counted p && (s == some k) then 1 else 0) + count (counted_for k) rest
Pick-left k p = count-Pick (counted_for k) p

Step-Shares : {s u : System} → Step s u → Shares s → Shares u
unfolding acquire release reject_globally reject_scope withdraw start_run end_run complete
Step-Shares (Step.refuse x ts e) v = kept refl refl (λ k. refl) v
Step-Shares (Step.enter x y ts s e) v = kept (ground arith) (ground arith) (λ k. omega arith) v
Step-Shares (Step.turn_away x y ts rest s p full e) v =
    kept (ground arith) (ground arith) (λ k. omega (arith, Pick-left k p)) v
Step-Shares (Step.let_in x ts rest s p free) v = added s free (λ k. omega (arith, Pick-left k p)) v
Step-Shares (Step.queue x ts rest s p) v = kept refl refl (λ k. sym (Pick-left k p)) v
Step-Shares (Step.fail x ts rest s p) v = dropped s refl refl (λ k. omega (arith, Pick-left k p)) v
Step-Shares (Step.start x ts rest s p) v = kept refl refl (λ k. sym (Pick-left k p)) v
Step-Shares (Step.cancel x ts rest s p) v =
    dropped s refl refl (λ k. omega (arith, Pick-left k p)) v
Step-Shares (Step.stop x ts rest s p) v = kept refl refl (λ k. sym (Pick-left k p)) v
Step-Shares (Step.done x ts rest s p) v = dropped s refl refl (λ k. omega (arith, Pick-left k p)) v
Step-Shares (Step.give_back x y ts rest s p e) v =
    kept (ground arith) (ground arith) (λ k. omega (arith, Pick-left k p)) v

pub record Inv (s : System) : Type 0 where
  pub totals : Totals s
  pub table : Shares s

Step-Inv : {s u : System} → Step s u → Inv s → Inv u
Step-Inv st v = record { totals = Step-Totals st v.totals; table = Step-Shares st v.table }

abbrev pub fresh : ℕ → ℕ → ℕ → System
fresh workers pending per_scope = record { executor = init workers pending per_scope; tasks = [] }

fresh-Inv : (w p l : ℕ) → Inv (fresh w p l)
unfolding init get
fresh-Inv w p l = record {
  totals = ground arith;
  table = record {
    scopes = λ k. refl;
    shares = λ k. omega arith;
    no_empty_scope = λ k. ground arith;
  };
}

-- From a fresh executor, whatever the interleaving of submissions, runs, failures and
-- cancellations, every counter equals the work that is in flight, and no scope exceeds its limit.
pub Reach-Inv : (w p l : ℕ) {s : System} → Reach (fresh w p l) s → Inv s
Reach-Inv w p l initial = fresh-Inv w p l
Reach-Inv w p l (next r st) = Step-Inv st (Reach-Inv w p l r)
