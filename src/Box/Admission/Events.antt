-- ===== src/Box/Admission/Events.antt =====
-- What happens to the admission grants of box/runtime.py, in any order and at any time, with the
-- policy that is configured then.
use langbot_plugin_sdk.Prelude.{ℕ, List, [], ◌∷◌}
use langbot_plugin_sdk.Context.{ActionContext}
use langbot_plugin_sdk.Box.Tenancy.{Library}
use langbot_plugin_sdk.Box.Admission.{
  Grant, Revocation, Policy, Admission, reap_expired_admissions, require_sandbox_admission,
}
use langbot_plugin_sdk.Box.Admission.Grants.{
  upsert_sandbox_admission_grant, revoke_sandbox_admission_grant,
}

pub data Event : Type 0 where
  reaping : ℕ → Event
  requiring : Policy → ℕ → ActionContext → Event
  upserting : Policy → ℕ → ℕ → Grant → Event
  revoking : Policy → ℕ → Revocation → Event

unfoldable pub step : Library → Admission → Event → Admission
step l s (reaping now) = reap_expired_admissions now s
step l s (requiring p now c) = (require_sandbox_admission p now s c).0
step l s (upserting p max_records now g) =
    (upsert_sandbox_admission_grant l p max_records now s g).0
step l s (revoking p max_records r) = (revoke_sandbox_admission_grant p max_records s r).0

unfoldable pub run : Library → Admission → List Event → Admission
unfolding step
run l s [] = s
run l s (e ∷ es) = run l (step l s e) es

abbrev pub new : Admission
new = record {
  admission_grants = [];
  admission_expiry_heap = [];
  admission_revisions = [];
  admission_generations = [];
  admission_limit_fingerprints = [];
  revoked_admission_revisions = [];
  session_ids_by_workspace = [];
}
