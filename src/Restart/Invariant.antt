-- ===== src/Restart/Invariant.antt =====
-- Launch slots, gate waiters and probes of the coordinator, against the supervisors that hold them.
use langbot_plugin_sdk.Prelude.{
  ℕ, ◌+◌, ◌-◌, ◌≤◌, ◌≡◌, Bool, true, false, some, List, [], ◌∷◌, ◌++◌, arith, length, count,
  if◌then◌else◌, length-append, length-drop,
}
use langbot_plugin_sdk.Prelude.Pick.{Pick, count-Pick}
use langbot_plugin_sdk.Restart.{
  Coordinator, Policy, new, gate, drop_before, append_bounded, release_launch_slot, record_failure,
  record_probe_success, abandon_probe,
}
use langbot_plugin_sdk.Restart.Permit.{mark_ready, mark_stable, record_permit_failure, abandon}
use langbot_plugin_sdk.Restart.System.{
  System, Supervisor, holding, gated, permitted, sys, Step, Reach, initial, next,
}

-- Supervisors between `semaphore.acquire()` and the permit.
abbrev pub in_acquire : Supervisor → Bool
in_acquire holding = true
in_acquire gated = true
in_acquire (permitted p) = false

abbrev pub in_gate : Supervisor → Bool
in_gate gated = true
in_gate holding = false
in_gate (permitted p) = false

abbrev pub launches : Supervisor → Bool
launches (permitted p) = p.launch_slot_held
launches holding = false
launches gated = false

abbrev pub probes : Supervisor → Bool
probes (permitted p) = p.probe_active
probes holding = false
probes gated = false

-- Every launch slot is free, in `acquire` or held by a permit, the two gauges are exact, and a
-- probe that is marked in flight has an owner.
pub record IsAccounted (s : System) : Type 0 where
  pub slots :
      s.coordinator.launch_semaphore
      ≡ some (
          s.coordinator.max_concurrent_restarts
          - (count in_acquire s.supervisors + count launches s.supervisors))
  pub bounded :
      count in_acquire s.supervisors + count launches s.supervisors
      ≤ s.coordinator.max_concurrent_restarts
  pub active : s.coordinator.active_launches ≡ count launches s.supervisors
  pub waiters : s.coordinator.gate_waiters ≡ count in_gate s.supervisors
  pub owner : s.coordinator.half_open_probe_inflight ≡ true → 1 ≤ count probes s.supervisors
  pub window : length s.coordinator.failure_times ≤ s.coordinator.failure_threshold

pub Pick-counts :
    {t : Supervisor} {ts rest : List Supervisor}
    → Pick t ts rest
    → (count in_acquire ts ≡ (if in_acquire t then 1 else 0) + count in_acquire rest)
      × (count in_gate ts ≡ (if in_gate t then 1 else 0) + count in_gate rest)
      × (count launches ts ≡ (if launches t then 1 else 0) + count launches rest)
      × (count probes ts ≡ (if probes t then 1 else 0) + count probes rest)
Pick-counts p =
    (count-Pick in_acquire p, count-Pick in_gate p, count-Pick launches p, count-Pick probes p)

length-drop_before-le : (n : ℕ) (ts : List ℕ) → length (drop_before n ts) ≤ length ts
unfolding drop_before
length-drop_before-le n [] = omega arith
length-drop_before-le n (t ∷ ts) = ground (arith, length-drop_before-le n ts)

length-append_bounded-le : (n : ℕ) (ts : List ℕ) (t : ℕ) → length (append_bounded n ts t) ≤ n
unfolding append_bounded
length-append_bounded-le n ts t =
    omega (arith, length-drop (length (ts ++ t ∷ []) - n) (ts ++ t ∷ []), length-append ts (t ∷ []))

-- A recorded failure touches neither the slots nor the gauges, keeps the deque within the
-- threshold, and can only clear the mark of a probe in flight.
pub record_failure_frame :
    (c : Coordinator) (now : ℕ) (was_probe : Bool)
    → let c' = record_failure c now was_probe in
      (c'.launch_semaphore ≡ c.launch_semaphore)
      × (c'.max_concurrent_restarts ≡ c.max_concurrent_restarts)
      × (c'.failure_threshold ≡ c.failure_threshold)
      × (c'.active_launches ≡ c.active_launches)
      × (c'.gate_waiters ≡ c.gate_waiters)
      × (c'.half_open_probe_inflight ≡ true → c.half_open_probe_inflight ≡ true)
      × (c'.half_open_probe_inflight ≡ true → was_probe ≡ false)
      × (length c'.failure_times ≤ c'.failure_threshold)
unfolding record_failure
record_failure_frame c now was_probe =
    let bound =
      length-append_bounded-le c.failure_threshold
        (drop_before (now - c.failure_window) c.failure_times) now in
    ground (arith, bound)

-- The coordinator after a launch slot came back.
abbrev released : Coordinator → ℕ → Coordinator
released c used = record c {
  active_launches = c.active_launches - 1;
  launch_semaphore = some (c.max_concurrent_restarts - used + 1);
}

Step-IsAccounted : {s u : System} → Step s u → IsAccounted s → IsAccounted u
unfolding gate mark_ready mark_stable record_permit_failure abandon release_launch_slot
    record_probe_success abandon_probe
Step-IsAccounted (Step.tick c t d ss) v = ground arith
Step-IsAccounted (Step.take_slot c t free ss e) v = ground arith
Step-IsAccounted (Step.admit c c' t ss rest probe p e) v =
    ground (arith, Pick-counts p, length-drop_before-le (t - c.failure_window) c.failure_times)
Step-IsAccounted (Step.sleep c c' t ss rest g p e w) v =
    ground (arith, Pick-counts p, length-drop_before-le (t - c.failure_window) c.failure_times)
Step-IsAccounted (Step.wake c t ss rest p) v = ground (arith, Pick-counts p)
Step-IsAccounted (Step.cancel c t free ss rest p e) v = ground (arith, Pick-counts p)
Step-IsAccounted (Step.ready c c' t ss rest q q' p e) v = ground (arith, Pick-counts p)
Step-IsAccounted (Step.stable c c' t ss rest q q' x p e) v = ground (arith, Pick-counts p)
Step-IsAccounted (Step.fail c c' t ss rest q q' x p e) v =
    let used = count in_acquire ss + count launches ss in
    ground (
      arith,
      Pick-counts p,
      record_failure_frame c t true,
      record_failure_frame c t false,
      record_failure_frame (released c used) t true,
      record_failure_frame (released c used) t false,
    )
Step-IsAccounted (Step.give_up c c' t ss rest q q' x p e) v = ground (arith, Pick-counts p)
Step-IsAccounted (Step.unadmitted c t ss) v = ground (arith, record_failure_frame c t false)

abbrev pub configured_with : Policy → Coordinator
configured_with p = record new {
  configured = true;
  max_concurrent_restarts = p.max_concurrent_restarts;
  failure_threshold = p.restart_failure_threshold;
  failure_window = p.restart_failure_window;
  circuit_open = p.restart_circuit_open;
  launch_semaphore = some p.max_concurrent_restarts;
}

abbrev pub fresh : Policy → ℕ → System
fresh p t = sys (configured_with p) t []

-- From a configured coordinator, whatever the supervisors do and in whatever order: the slots held
-- in `acquire` and by permits, and the free ones, add up to the policy's limit; `active_launches`
-- and `gate_waiters` are exact; where a probe is marked in flight, some permit is a probe (not
-- the converse: a permit may be a probe where none is marked); and no more failure times are kept
-- than the threshold.
pub Reach-IsAccounted : (p : Policy) (t : ℕ) {s : System} → Reach (fresh p t) s → IsAccounted s
Reach-IsAccounted p t initial = ground arith
Reach-IsAccounted p t (next r st) = Step-IsAccounted st (Reach-IsAccounted p t r)
