-- ===== src/Fence/Order.antt =====
-- The order of the bindings of one installation, and sequences of operations on `RuntimeContext`.
use langbot_plugin_sdk.Prelude.{ℕ, ◌≡◌, ◌⊎◌, true, false, List, [], ◌∷◌, arith, Result, ok, raise}
use langbot_plugin_sdk.Context.{RuntimeIdentity, InstallationBinding, Envelope}
use langbot_plugin_sdk.Context.Policy.{WorkerPolicy}
use langbot_plugin_sdk.Fence.{
  Runtime, Profile, FenceError, activate_control_handler, bind_runtime, bind_workspace,
  authorize_installation_binding, activate_installation_binding, deactivate_installation_binding,
  is_newer,
}

-- `new` is `old`, or it is newer and of the same Workspace.
abbrev pub Follows : InstallationBinding → InstallationBinding → Type 0
Follows new old =
    (new ≡ old) ⊎ ((is_newer new old ≡ true) × (new.workspace_uuid ≡ old.workspace_uuid))

pub is_newer_trans :
    (a b c : InstallationBinding) → is_newer a b ≡ true → is_newer b c ≡ true → is_newer a c ≡ true
is_newer_trans a b c h k = ground arith

pub is_newer_irrefl : (a : InstallationBinding) → is_newer a a ≡ false
is_newer_irrefl a = ground arith

pub Follows-trans : (a b c : InstallationBinding) → Follows a b → Follows b c → Follows a c
Follows-trans a b c h k = ground (arith, is_newer_trans a b c)

-- What follows a newer binding is newer.
pub Follows-newer :
    (a b c : InstallationBinding) → Follows a b → is_newer b c ≡ true → is_newer a c ≡ true
Follows-newer a b c h k = ground (arith, is_newer_trans a b c)

-- The operations that change the state.
pub data Call : Type 0 where
  handler : ℕ → Call
  configure : RuntimeIdentity → WorkerPolicy → Profile → Call
  bind : Envelope → Call
  authorize : InstallationBinding → Call
  activate : InstallationBinding → Call
  deactivate : InstallationBinding → Call

-- An operation that raises leaves the state.
abbrev pub state_of : Runtime → Result FenceError Runtime → Runtime
state_of r (ok r') = r'
state_of r (raise e) = r

abbrev first_of_pair {ℓ} : {A : Type ℓ} → Runtime → Result FenceError (Runtime × A) → Runtime
first_of_pair r (ok (r', a)) = r'
first_of_pair r (raise e) = r

unfoldable pub after : Runtime → Call → Runtime
after r (handler h) = (activate_control_handler r h).0
after r (configure i p f) = state_of r (bind_runtime r i p f)
after r (bind c) = state_of r (bind_workspace r c)
after r (authorize b) = state_of r (authorize_installation_binding r b)
after r (activate b) = first_of_pair r (activate_installation_binding r b)
after r (deactivate b) = state_of r (deactivate_installation_binding r b)

unfoldable pub run : Runtime → List Call → Runtime
run r [] = r
run r (c ∷ cs) = run (after r c) cs
