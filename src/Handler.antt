-- ===== src/Handler.antt =====
-- src/langbot_plugin/runtime/io/handler.py: one side of a connection. This file has the contexts that
-- a connection is bound to and that its requests carry, `Bound` what the binding guarantees; `Files`
-- is the transfer of files, `Calls` the calls that wait for the peer. A context is given here as
-- `parse_action_envelope_context` returns it: a value that it refuses raises before anything else.
pub mod Bound
pub mod Files
pub mod Transfer
pub mod SafeKey
pub mod Delivered
pub mod Tracked
pub mod Owned
pub mod Calls
pub mod Dispatch
pub mod Streamed
mod Tests
use langbot_plugin_sdk.Prelude.{
  String, Bool, true, false, ◌&&◌, ◌||◌, not, Option, none, some, is_some, Result, ok, raise, ◌>>=◌,
  ◌>>◌, raise_if, ◌==◌, string_eq, option_eq,
}
use langbot_plugin_sdk.Context.{
  Envelope, workspace, installation, as_action_context, same_workspace, envelope_eq,
}

pub data ContextError : Type 0 where
  other_workspace installation_removed other_installation other_revision not_bound : ContextError

abbrev pub installation_uuid : Envelope → Option String
installation_uuid e = (as_action_context e).installation_uuid

abbrev pub is_in_workspace : Envelope → Envelope → Bool
is_in_workspace a b = same_workspace (as_action_context a) (as_action_context b)

-- `isinstance(e, InstallationBinding)`
abbrev pub is_installation : Envelope → Bool
is_installation (workspace c) = false
is_installation (installation b) = true

-- `bind_action_context`, where `current` is `_bound_action_context`, and the result is what replaces
-- it.
unfoldable pub bind_action_context : Option Envelope → Envelope → Result ContextError Envelope
unfolding same_workspace
bind_action_context none context = ok context
bind_action_context (some current) context = do
  raise_if (not (is_in_workspace current context)) other_workspace
  raise_if (is_some (installation_uuid current) && not (is_some (installation_uuid context)))
      installation_removed
  raise_if
      (is_some (installation_uuid current)
        && not (installation_uuid current == installation_uuid context))
      other_installation
  raise_if (is_installation current && (not (is_installation context) || not (context == current)))
      other_revision
  ok context

unfoldable pub require_bound_action_context : Option Envelope → Result ContextError Envelope
require_bound_action_context none = raise not_bound
require_bound_action_context (some bound) = ok bound

-- The tests that `validate_inbound_action_context` and `resolve_outbound_action_context` share.
abbrev pub check_context : Envelope → Envelope → Result ContextError (Unit {0})
check_context bound context = do
  raise_if (not (is_in_workspace bound context)) other_workspace
  raise_if
      (is_some (installation_uuid bound)
        && not (installation_uuid context == installation_uuid bound))
      other_installation
  raise_if (is_installation bound && not (context == bound)) other_revision

unfoldable pub validate_inbound_action_context :
    Option Envelope → Option Envelope → Result ContextError (Option Envelope)
unfolding same_workspace
validate_inbound_action_context none action_context = ok action_context
validate_inbound_action_context (some bound) none = ok (some bound)
validate_inbound_action_context (some bound) (some context) = do
  check_context bound context
  ok (some bound)

unfoldable pub resolve_outbound_action_context :
    Option Envelope → Option Envelope → Result ContextError (Option Envelope)
unfolding same_workspace
resolve_outbound_action_context bound none = ok bound
resolve_outbound_action_context none (some context) = ok (some context)
resolve_outbound_action_context (some bound) (some context) = do
  check_context bound context
  ok (some context)
