-- ===== src/Restart/Permit.antt =====
-- `RestartPermit` of restart_coordinator.py. An operation returns the coordinator and the permit
-- that it leaves; `cancelled` says that the caller was cancelled while a probe's transition ran,
-- in which case the transition is complete and `_probe_active` was not cleared.
use langbot_plugin_sdk.Prelude.{ℕ, Bool, true, false, Result, ok, ◌>>=◌, if◌then◌else◌}
use langbot_plugin_sdk.Restart.{
  Coordinator, RestartError, release_launch_slot, record_failure, record_probe_success,
  abandon_probe,
}

pub record Permit : Type 0 where
  pub is_half_open_probe : Bool
  pub launch_slot_held : Bool
  pub probe_active : Bool

-- `__post_init__`
abbrev pub new_permit : Bool → Permit
new_permit probe = record {
  is_half_open_probe = probe;
  launch_slot_held = true;
  probe_active = probe;
}

unfoldable pub mark_ready : Coordinator → Permit → Result RestartError (Coordinator × Permit)
mark_ready c p =
    if p.launch_slot_held
    then (do c' ← release_launch_slot c; ok (c', record p { launch_slot_held = false }))
    else ok (c, p)

-- What an await that may be cancelled leaves of `_probe_active`.
abbrev pub after_transition : Permit → Bool → Permit
after_transition p cancelled = record p { probe_active = cancelled }

unfoldable pub mark_stable :
    Coordinator → Permit → Bool → Result RestartError (Coordinator × Permit)
mark_stable c p cancelled = do
  (c', p') ← mark_ready c p
  if p'.probe_active
      then ok (record_probe_success c', after_transition p' cancelled)
      else ok (c', p')

unfoldable pub record_permit_failure :
    Coordinator → ℕ → Permit → Bool → Result RestartError (Coordinator × Permit)
record_permit_failure c now p cancelled = do
  (c', p') ← mark_ready c p
  if p'.probe_active
      then ok (record_failure c' now true, after_transition p' cancelled)
      else ok (record_failure c' now false, p')

unfoldable pub abandon : Coordinator → Permit → Bool → Result RestartError (Coordinator × Permit)
abandon c p cancelled = do
  (c', p') ← mark_ready c p
  if p'.probe_active then ok (abandon_probe c', after_transition p' cancelled) else ok (c', p')
