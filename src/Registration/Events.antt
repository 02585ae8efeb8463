-- ===== src/Registration/Events.antt =====
-- What happens to the registration capabilities of runtime/plugin/mgr.py, in any order.
use langbot_plugin_sdk.Prelude.{ℕ, String, List, [], ◌∷◌}
use langbot_plugin_sdk.Context.{InstallationBinding}
use langbot_plugin_sdk.Fence.{Runtime}
use langbot_plugin_sdk.Registration.{
  Library, Launch, Pending, issue_registration_capability, is_registration_capability_pending,
  consume_registration_capability, revoke_registration_capability,
  revoke_registration_capabilities_for_binding,
}

pub data Event : Type 0 where
  issuing : Runtime → ℕ → String → Launch → Event
  checking revoking : ℕ → String → Event
  consuming : ℕ → String → String → String → Event
  revoking_binding : InstallationBinding → Event

unfoldable pub step : Library → Pending → Event → Pending
step l d (issuing r now token a) = (issue_registration_capability l r now token a d).0
step l d (checking now capability) = (is_registration_capability_pending l now capability d).0
step l d (revoking now capability) = revoke_registration_capability l now capability d
step l d (consuming now capability author name) =
    (consume_registration_capability l now capability author name d).0
step l d (revoking_binding b) = revoke_registration_capabilities_for_binding b d

unfoldable pub run : Library → Pending → List Event → Pending
unfolding step
run l d [] = d
run l d (e ∷ es) = run l (step l d e) es
