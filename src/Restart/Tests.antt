-- ===== src/Restart/Tests.antt =====
-- Runs of the model of restart_coordinator.py at concrete inputs.
use langbot_plugin_sdk.Prelude.{◌≡◌, refl, true, false, some, [], ◌∷◌, arith, count, inr}
use langbot_plugin_sdk.Prelude.Pick.{here, there}
use langbot_plugin_sdk.Restart.{
  Coordinator, Policy, configure, gate, append_bounded, release_launch_slot, record_failure,
  record_probe_success, abandon_probe,
}
use langbot_plugin_sdk.Restart.Permit.{
  new_permit, mark_ready, mark_stable, record_permit_failure, abandon,
}
use langbot_plugin_sdk.Restart.System.{System, permitted, sys, Step, Reach, initial, next}
use langbot_plugin_sdk.Restart.Invariant.{
  IsAccounted, Reach-IsAccounted, fresh, configured_with, probes, launches,
}
use langbot_plugin_sdk.Restart.Cooldown.{cooldown, FreesSlot, permit_returns}

program : Unit {0}
unfolding configure gate append_bounded release_launch_slot record_failure record_probe_success
    abandon_probe mark_ready mark_stable record_permit_failure abandon
program = tt

abbrev policy : Policy
policy = record {
  max_concurrent_restarts = 2;
  restart_failure_threshold = 2;
  restart_failure_window = 30;
  restart_circuit_open = 60;
}

-- Two failures at time 100 open the circuit until 160; then one probe is let through.
abbrev tripped : Coordinator
tripped = record_failure (record_failure (configured_with policy) 100 false) 100 false

abbrev probing : Coordinator
unfolding program
probing = record tripped {
  half_open_probe_inflight = true;
  failure_times = [];
  restart_attempts_total = 1;
  active_launches = 1;
  launch_semaphore = some 1;
}

abbrev probed : Reach (fresh policy 100) (sys probing 160 (permitted (new_permit true) ∷ []))
unfolding program
probed =
    next
      (next
        (next (next (next initial (Step.unadmitted _ _ _)) (Step.unadmitted _ _ _))
          (Step.tick _ 100 60 _))
        (Step.take_slot _ _ 1 _ refl))
      (Step.admit _ _ _ _ _ true (here []) refl)

Reach-IsAccounted_example : IsAccounted (sys probing 160 (permitted (new_permit true) ∷ []))
Reach-IsAccounted_example = Reach-IsAccounted policy 100 probed

cooldown_example : tripped.restart_attempts_total ≡ 0
unfolding program
cooldown_example =
    cooldown (record_failure (configured_with policy) 100 false) 100 false [] (inr (omega arith))
      (next initial (Step.tick _ 100 59 [])) (omega arith)

permit_returns_example :
    FreesSlot probing (new_permit true) (mark_ready probing (new_permit true))
    × FreesSlot probing (new_permit true) (mark_stable probing (new_permit true) false)
    × FreesSlot probing
        (new_permit true)
        (record_permit_failure probing 160 (new_permit true) false)
    × FreesSlot probing (new_permit true) (abandon probing (new_permit true) false)
permit_returns_example = permit_returns policy 100 probed (here []) false

-- A probe that outlives a second opening of the circuit clears the mark of the next probe when it
-- is abandoned, and a third supervisor gets in beside the second.
stale_probe :
    (s : System) × Reach (fresh policy 100) s
    × (count launches s.supervisors ≡ 2)
    × (count probes s.supervisors ≡ 2)
unfolding program
stale_probe = (
  _,
  next
      (next
        (next
          (next
            (next
              (next (next (next probed (Step.unadmitted _ _ _)) (Step.unadmitted _ _ _))
                (Step.tick _ 160 60 _))
              (Step.take_slot _ _ 0 _ refl))
            (Step.admit _ _ _ _ _ true (here _) refl))
          (Step.give_up _ _ _ _ _ _ _ false (there _ (here _)) refl))
        (Step.take_slot _ _ 0 _ refl))
      (Step.admit _ _ _ _ _ true (here _) refl),
  refl,
  refl,
)
