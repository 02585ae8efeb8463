-- ===== src/Restart/Cooldown.antt =====
-- What the circuit breaker of restart_coordinator.py keeps back, and how a probe ends it.
use langbot_plugin_sdk.Prelude.{
  ℕ, ◌+◌, ◌-◌, ◌≤◌, ◌<◌, ◌≡◌, refl, ap, ◌∙◌, ◌⊎◌, ◌↔◌, Bool, true, false, some, List, arith, length,
  count, if◌then◌else◌, Result, ok,
}
use langbot_plugin_sdk.Prelude.Pick.{Pick}
use langbot_plugin_sdk.Restart.{
  Coordinator, Policy, RestartError, permit, wait_for, wait_change, configure, gate,
  release_launch_slot, record_failure, record_probe_success, abandon_probe,
}
use langbot_plugin_sdk.Restart.Permit.{
  Permit, mark_ready, mark_stable, record_permit_failure, abandon, after_transition,
}
use langbot_plugin_sdk.Restart.System.{
  System, Supervisor, permitted, sys, Step, Reach, initial, next,
}
use langbot_plugin_sdk.Restart.Invariant.{
  Reach-IsAccounted, record_failure_frame, fresh, Pick-counts, in_acquire, launches,
}

-- Until the time `u` the circuit is open, no probe is in flight, and no restart beyond the first
-- `n` has been admitted.
abbrev Cold : ℕ → ℕ → System → Type 0
Cold u n s =
    s.now < u
    → (u ≤ s.coordinator.open_until)
      × (s.coordinator.half_open_probe_inflight ≡ false)
      × (s.coordinator.restart_attempts_total ≡ n)

Step-Cold : (u n : ℕ) {s s' : System} → Step s s' → Cold u n s → Cold u n s'
unfolding gate mark_ready mark_stable record_permit_failure abandon release_launch_slot
    record_failure record_probe_success abandon_probe
Step-Cold u n (Step.tick c t d ss) v = λ h. v (omega arith)
Step-Cold u n (Step.take_slot c t free ss e) v = v
Step-Cold u n (Step.admit c c' t ss rest probe p e) v = λ h. ground (arith, v h)
Step-Cold u n (Step.sleep c c' t ss rest g p e w) v = λ h. ground (arith, v h)
Step-Cold u n (Step.wake c t ss rest p) v = v
Step-Cold u n (Step.cancel c t free ss rest p e) v = v
Step-Cold u n (Step.ready c c' t ss rest q q' p e) v = λ h. ground (arith, v h)
Step-Cold u n (Step.stable c c' t ss rest q q' x p e) v = λ h. ground (arith, v h)
Step-Cold u n (Step.fail c c' t ss rest q q' x p e) v = λ h. ground (arith, v h)
Step-Cold u n (Step.give_up c c' t ss rest q q' x p e) v = λ h. ground (arith, v h)
Step-Cold u n (Step.unadmitted c t ss) v = λ h. ground (arith, v h)

Reach-Cold : (u n : ℕ) {s s' : System} → Cold u n s → Reach s s' → Cold u n s'
Reach-Cold u n v initial = v
Reach-Cold u n v (next r st) = Step-Cold u n st (Reach-Cold u n v r)

-- What a failure leaves, if it came from a probe or filled the window.
record_failure_opens :
    (c : Coordinator) (t : ℕ) (was_probe : Bool)
    → (was_probe ≡ true)
      ⊎ (c.failure_threshold ≤ length (record_failure c t was_probe).failure_times)
    → let c' = record_failure c t was_probe in
      (t + c.circuit_open ≤ c'.open_until) × (c'.half_open_probe_inflight ≡ false)
unfolding record_failure
record_failure_opens c t was_probe h = ground arith

-- A failed probe, or a failure that fills the window, opens the circuit: whatever the supervisors
-- do from then on, no restart is admitted before `circuit_open` ticks have passed.
pub cooldown :
    (c : Coordinator) (t : ℕ) (was_probe : Bool) (ss : List Supervisor) {s : System}
    → (was_probe ≡ true)
      ⊎ (c.failure_threshold ≤ length (record_failure c t was_probe).failure_times)
    → Reach (sys (record_failure c t was_probe) t ss) s
    → s.now < t + c.circuit_open
    → s.coordinator.restart_attempts_total ≡ (record_failure c t was_probe).restart_attempts_total
cooldown c t was_probe ss full r h =
    let opened = record_failure_opens c t was_probe full in
    (Reach-Cold (t + c.circuit_open) _ (λ _. (opened.0, opened.1, refl)) r h).2

-- The gate after a probe was let through at time `t`: shut while the probe runs; open to everybody
-- after its success; open to one more probe after it was abandoned; and shut for `circuit_open`
-- ticks after its failure.
pub probe_decides :
    (c c' : Coordinator) (t later : ℕ)
    → gate c t ≡ (permit true, c')
    → t ≤ later
    → ((gate c' later).0 ≡ wait_change)
      × ((gate (record_probe_success c') later).0 ≡ permit false)
      × ((gate (abandon_probe c') later).0 ≡ permit true)
      × ((u : ℕ)
          → u < later + c.circuit_open
          → (d : ℕ) × ((gate (record_failure c' later true) u).0 ≡ wait_for d))
unfolding gate record_failure record_probe_success abandon_probe
probe_decides c c' t later e h = (
  ground arith,
  ground arith,
  ground arith,
  λ u before. ((record_failure c' later true).open_until - u, ground arith),
)

-- A coordinator that took a policy accepts exactly this policy again, and is not changed by it.
pub configure_again_iff :
    (c d : Coordinator) (p q : Policy)
    → c.configured ≡ false
    → configure c p ≡ ok d
    → (configure d q ≡ ok d) ↔ (p ≡ q)
unfolding configure
configure_again_iff c d p q unset e = (ground arith, ground arith)

-- The launch slots that a permit holds.
abbrev pub slots_of : Permit → ℕ
slots_of q = if q.launch_slot_held then 1 else 0

-- The coordinator `c'` has one launch less under way than `c` and one free slot more, if the permit
-- `q` held a slot, and as many of both if it held none.
abbrev pub Gives : Permit → Coordinator → Coordinator → Type 0
Gives q c c' =
    (c'.active_launches + slots_of q ≡ c.active_launches)
    × ((free : ℕ) × (c.launch_semaphore ≡ some free)
        × (c'.launch_semaphore ≡ some (free + slots_of q)))

mark_ready_total :
    (p : Policy) (t : ℕ) {c : Coordinator} {u : ℕ} {ss rest : List Supervisor} {q : Permit}
    → Reach (fresh p t) (sys c u ss)
    → Pick (permitted q) ss rest
    → (c' : Coordinator) × (mark_ready c q ≡ ok (c', record q { launch_slot_held = false }))
      × Gives q c c'
unfolding mark_ready release_launch_slot
mark_ready_total p t {c} {u} {ss} {rest} {q} r picked =
    let free = c.max_concurrent_restarts - (count in_acquire ss + count launches ss) in
    (
      (if q.launch_slot_held
          then record c {
            active_launches = c.active_launches - 1;
            launch_semaphore = some (free + 1);
          }
          else c),
      ground (arith, Reach-IsAccounted p t r, Pick-counts picked),
      (
        ground (arith, Reach-IsAccounted p t r, Pick-counts picked),
        (
          free,
          ground (arith, Reach-IsAccounted p t r),
          ground (arith, Reach-IsAccounted p t r, Pick-counts picked),
        ),
      ),
    )

record_failure-Gives :
    (q : Permit) (c c' : Coordinator) (now : ℕ) (was_probe : Bool)
    → Gives q c c'
    → Gives q c (record_failure c' now was_probe)
record_failure-Gives q c c' now was_probe (active, (free, before, after)) =
    let frame = record_failure_frame c' now was_probe in
    (ap (λ n. n + slots_of q) frame.3 ∙ active, (free, before, frame.0 ∙ after))

-- An operation of the permit `q` returns: the permit holds no launch slot any more, and the
-- coordinator has the slot back that it held.
abbrev pub FreesSlot : Coordinator → Permit → Result RestartError (Coordinator × Permit) → Type 0
FreesSlot c q m =
    (r : Coordinator × Permit) × (m ≡ ok r) × (r.1.launch_slot_held ≡ false) × Gives q c r.0

-- In every reachable state each operation of a permit returns: neither the underflow check nor the
-- semaphore's bound raises. Afterwards the permit holds no launch slot, and if it held one, one launch
-- less is under way and the semaphore has one slot more; if it held none, both are as they were.
pub permit_returns :
    (p : Policy) (t : ℕ) {c : Coordinator} {u : ℕ} {ss rest : List Supervisor} {q : Permit}
    → Reach (fresh p t) (sys c u ss)
    → Pick (permitted q) ss rest
    → (cancelled : Bool)
    → FreesSlot c q (mark_ready c q)
      × FreesSlot c q (mark_stable c q cancelled)
      × FreesSlot c q (record_permit_failure c u q cancelled)
      × FreesSlot c q (abandon c q cancelled)
unfolding mark_stable record_permit_failure abandon record_probe_success abandon_probe
permit_returns p t {c} {u} {q = q} r picked cancelled =
    let (c', e, gives) = mark_ready_total p t r picked in
    let q' : Permit = record q { launch_slot_held = false } in
    let ended : Permit = after_transition q' cancelled in
    (
      ((c', q'), e, refl, gives),
      (
        (if q.probe_active then (record_probe_success c', ended) else (c', q')),
        ground (arith, e),
        ground arith,
        ground (arith, gives),
      ),
      (
        (if q.probe_active
            then (record_failure c' u true, ended)
            else (record_failure c' u false, q')),
        ground (arith, e),
        ground arith,
        ground (
          arith,
          record_failure-Gives q c c' u true gives,
          record_failure-Gives q c c' u false gives,
        ),
      ),
      (
        (if q.probe_active then (abandon_probe c', ended) else (c', q')),
        ground (arith, e),
        ground arith,
        ground (arith, gives),
      ),
    )
