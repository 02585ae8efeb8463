-- ===== src/Fence.antt =====
-- src/langbot_plugin/runtime/context.py: the fences of `RuntimeContext`. A control handler is named
-- by a number. An operation returns the new state and its result, or raises and leaves the state.
pub mod Order
pub mod Shared
pub mod Fenced
mod Tests
use langbot_plugin_sdk.Prelude.{
  ℕ, ◌≤◌, ◌<◌, String, ◌≡◌, Bool, true, false, ◌&&◌, ◌||◌, not, Option, none, some, List, [], ◌∷◌,
  Result, ok, raise, ◌>>=◌, ◌>>◌, raise_if, ltb, leb, if◌then◌else◌, length, is_some, Eq, ◌==◌,
  nat_eq, string_eq, option_eq,
}
use langbot_plugin_sdk.Prelude.Dict
use langbot_plugin_sdk.Prelude.Dict.{Dict}
use langbot_plugin_sdk.Context.Policy.{WorkerPolicy, policy_beq}
use langbot_plugin_sdk.Context.{
  RuntimeIdentity, ActionContext, InstallationBinding, Envelope, as_action_context, installation,
  without_installation, identity_eq, context_eq, binding_eq,
}

pub data Profile : Type 0 where
  oss_dev shared : Profile

abbrev pub profile_beq : Profile → Profile → Bool
profile_beq oss_dev oss_dev = true
profile_beq oss_dev shared = false
profile_beq shared oss_dev = false
profile_beq shared shared = true

pub record Runtime : Type 0 where
  pub control_handler : Option ℕ
  pub runtime_identity : Option RuntimeIdentity
  pub worker_policy : Option WorkerPolicy
  pub runtime_profile : Option Profile
  pub configuration_ready : Bool
  pub legacy_workspace_binding : Option ActionContext
  pub workspace_binding_ready : Bool
  pub installation_bindings : Dict String InstallationBinding
  pub installation_watermarks : Dict String InstallationBinding

pub data FenceError : Type 0 where
  identity_rebound policy_changed profile_changed : FenceError
  other_instance other_workspace not_configured binding_changed not_desired : FenceError
  capacity_reached workspace_moved stale_state stale_removal not_bound : FenceError

-- `__init__`
abbrev pub new : Runtime
new = record {
  control_handler = none;
  runtime_identity = none;
  worker_policy = none;
  runtime_profile = none;
  configuration_ready = false;
  legacy_workspace_binding = none;
  workspace_binding_ready = false;
  installation_bindings = [];
  installation_watermarks = [];
}

unfoldable pub activate_control_handler : Runtime → ℕ → Runtime × Option ℕ
activate_control_handler r handler =
    (record r { control_handler = some handler }, r.control_handler)

unfoldable pub is_active_control_handler : Runtime → ℕ → Bool
is_active_control_handler r handler = r.control_handler == some handler

-- `x is not None and x != y`
abbrev differs {ℓ} : {A : Type ℓ} → (A → A → Bool) → Option A → A → Bool
differs beq none y = false
differs beq (some x) y = not (beq x y)

unfoldable pub bind_runtime :
    Runtime → RuntimeIdentity → WorkerPolicy → Profile → Result FenceError Runtime
bind_runtime r identity policy profile = do
  raise_if (differs (λ a b. a == b) r.runtime_identity identity) identity_rebound
  raise_if (differs policy_beq r.worker_policy policy) policy_changed
  raise_if (differs profile_beq r.runtime_profile profile) profile_changed
  ok (record r {
    runtime_identity = some identity;
    worker_policy = some policy;
    runtime_profile = some profile;
    configuration_ready = true;
  })

abbrev other_than_runtime : Runtime → String → Bool
other_than_runtime r instance_uuid = elim r.runtime_identity [
  | none ↦ false
  | some identity ↦ not (instance_uuid == identity.instance_uuid)
]

unfoldable pub bind_workspace : Runtime → Envelope → Result FenceError Runtime
unfolding without_installation
bind_workspace r action_context = do
  let binding = without_installation (as_action_context action_context)
  raise_if (other_than_runtime r binding.instance_uuid) other_instance
  raise_if (differs (λ a b. a == b) r.legacy_workspace_binding binding) other_workspace
  ok (record r { legacy_workspace_binding = some binding; workspace_binding_ready = true })

-- The tests that open every operation on an installation.
abbrev require_runtime : Runtime → InstallationBinding → Result FenceError WorkerPolicy
require_runtime r binding = elim r.runtime_identity [
  | none ↦ raise not_configured
  | some identity ↦ elim r.worker_policy [
    | none ↦ raise not_configured
    | some policy ↦
        if binding.instance_uuid == identity.instance_uuid then ok policy else raise other_instance
  ]
]

abbrev current : Runtime → InstallationBinding → Option InstallationBinding
current r binding = Dict.get r.installation_bindings binding.installation_uuid

abbrev watermark : Runtime → InstallationBinding → Option InstallationBinding
watermark r binding = Dict.get r.installation_watermarks binding.installation_uuid

unfoldable pub authorize_installation_binding :
    Runtime → InstallationBinding → Result FenceError Runtime
unfolding bind_workspace
authorize_installation_binding r binding = do
  policy ← require_runtime r binding
  elim (current r binding) [
    | some existing ↦ if existing == binding then ok r else raise binding_changed
    | none ↦ elim r.runtime_profile [
      | some oss_dev ↦ do
        r' ← bind_workspace r (installation binding)
        ok (record r' {
          installation_bindings =
              Dict.set r'.installation_bindings binding.installation_uuid binding;
        })
      | _ ↦ raise not_desired
    ]
  ]

-- `binding` is of a newer generation, or of a newer revision of the same generation.
abbrev pub is_newer : InstallationBinding → InstallationBinding → Bool
is_newer binding baseline =
    ltb baseline.placement_generation binding.placement_generation
    || (binding.placement_generation == baseline.placement_generation
        && ltb baseline.runtime_revision binding.runtime_revision)

abbrev has_room : Runtime → WorkerPolicy → Bool
has_room r policy = ltb (length r.installation_watermarks) policy.max_installations

-- The tests against a baseline, or for a first binding.
abbrev check_baseline :
    Runtime
    → WorkerPolicy
    → InstallationBinding
    → Option InstallationBinding
    → Result FenceError (Unit {0})
check_baseline r policy binding none = if has_room r policy then ok tt else raise capacity_reached
check_baseline r policy binding (some baseline) =
    if not (baseline.workspace_uuid == binding.workspace_uuid)
    then raise workspace_moved
    else if not (is_newer binding baseline)
    then raise stale_state
    else ok tt

-- `current or watermarks.get(...)`
abbrev or_else {ℓ} : {A : Type ℓ} → Option A → Option A → Option A
or_else none y = y
or_else (some x) y = some x

unfoldable pub validate_installation_candidate :
    Runtime → InstallationBinding → Result FenceError WorkerPolicy
validate_installation_candidate r binding = do
  policy ← require_runtime r binding
  if current r binding == some binding then ok policy else do
    check_baseline r policy binding (or_else (current r binding) (watermark r binding))
    ok policy

unfoldable pub activate_installation_binding :
    Runtime → InstallationBinding → Result FenceError (Runtime × Option InstallationBinding)
unfolding validate_installation_candidate
activate_installation_binding r binding = do
  policy ← validate_installation_candidate r binding
  let previous = current r binding
  raise_if
      (not (is_some previous) && (not (is_some (watermark r binding)) && not (has_room r policy)))
      capacity_reached
  ok (
    record r {
      installation_bindings = Dict.set r.installation_bindings binding.installation_uuid binding;
      installation_watermarks =
          Dict.set r.installation_watermarks binding.installation_uuid binding;
    },
    previous,
  )

unfoldable pub deactivate_installation_binding :
    Runtime → InstallationBinding → Result FenceError Runtime
deactivate_installation_binding r binding =
    if current r binding == some binding
    then ok (record r {
      installation_bindings = Dict.remove r.installation_bindings binding.installation_uuid;
      installation_watermarks =
          Dict.set r.installation_watermarks binding.installation_uuid binding;
    })
    else raise stale_removal

unfoldable pub is_current_installation_binding : Runtime → InstallationBinding → Bool
is_current_installation_binding r binding = current r binding == some binding

-- `wait_for_workspace_binding`, once its event is set
unfoldable pub workspace_binding : Runtime → Result FenceError ActionContext
workspace_binding r = elim r.legacy_workspace_binding [
  | none ↦ raise not_bound
  | some binding ↦ ok binding
]
