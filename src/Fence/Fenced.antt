-- ===== src/Fence/Fenced.antt =====
-- What the fence of the shared profile guarantees over any sequence of operations.
use langbot_plugin_sdk.Prelude.{
  String, ◌≡◌, ◌≢◌, ◌↔◌, refl, inl, inr, true, false, some, List, [], ◌∷◌, arith, ok, string_eq,
  option_eq, Option-cases,
}
use langbot_plugin_sdk.Prelude.Dict
use langbot_plugin_sdk.Prelude.Dict.{Dict, get-set, get-remove, length-set}
use langbot_plugin_sdk.Context.{
  RuntimeIdentity, InstallationBinding, Envelope, as_action_context, same_workspace,
  without_installation, context_beq_iff, context_eq, binding_eq, binding_beq_iff, identity_eq,
  identity_beq_iff,
}
use langbot_plugin_sdk.Context.Policy.{WorkerPolicy, policy_beq_iff}
use langbot_plugin_sdk.Fence.{
  Runtime, Profile, bind_runtime, bind_workspace, authorize_installation_binding,
  validate_installation_candidate, is_newer, is_current_installation_binding,
}
use langbot_plugin_sdk.Fence.Order.{
  Follows, Follows-trans, Follows-newer, is_newer_irrefl, Call, after, run,
}
use langbot_plugin_sdk.Fence.Shared.{IsShared, after-IsShared, after-Change, Change-Follows}

module _ (p : WorkerPolicy) where
  -- In the shared profile, whatever operations are called and in whatever order, an active binding
  -- is the watermark of its installation, and no more installations than `max_installations` are
  -- ever remembered.
  pub run-IsShared : (r : Runtime) (cs : List Call) → IsShared p r → IsShared p (run r cs)
  unfolding run
  run-IsShared r [] v = v
  run-IsShared r (c ∷ cs) v = run-IsShared (after r c) cs (after-IsShared p r v c)

  -- In the shared profile no sequence of operations loses the watermark of an installation, moves
  -- it to another Workspace or to an older or a different equally old binding.
  pub run-Follows :
      (r : Runtime) (cs : List Call)
      → IsShared p r
      → (k : String) (old : InstallationBinding) → Dict.get r.installation_watermarks k ≡ some old
      → (new : InstallationBinding) × (Dict.get (run r cs).installation_watermarks k ≡ some new)
        × Follows new old
  unfolding run
  run-Follows r [] v k old h = (old, h, inl refl)
  run-Follows r (c ∷ cs) v k old h =
      let (mid, h', f) = Change-Follows p r v (after-Change p r v c) k old h in
      let (new, h'', g) = run-Follows (after r c) cs (after-IsShared p r v c) k mid h' in
      (new, h'', Follows-trans new mid old g f)

  -- In the shared profile a tenant action is authorized exactly for the active binding of its
  -- installation on this instance; the state stays as it is.
  pub authorize_iff :
      (r : Runtime) (b : InstallationBinding)
      → IsShared p r
      → (authorize_installation_binding r b ≡ ok r) ↔ (
          (Dict.get r.installation_bindings b.installation_uuid ≡ some b)
          × ((i : RuntimeIdentity) × (r.runtime_identity ≡ some i)
              × (b.instance_uuid ≡ i.instance_uuid)))
  unfolding authorize_installation_binding
  authorize_iff r b v = elim (Option-cases (Dict.get r.installation_bindings b.installation_uuid)) [
    | inl absent ↦ (ground (arith, v.profile, absent), ground (arith, absent))
    | inr (c, here) ↦ elim (Option-cases r.runtime_identity) [
      | inl unset ↦ (ground (arith, unset), ground (arith, unset))
      | inr (i, set) ↦
          let same = string_eq.equal_iff b.instance_uuid i.instance_uuid in
          let eq = binding_beq_iff c b in
          (
            λ h. (
              ground (arith, v.policy, set, here, same, eq),
              (i, set, ground (arith, v.policy, set, here, same, eq)),
            ),
            λ h. ground (arith, v.policy, set, here, same, eq, h),
          )
    ]
  ]

  -- The same in one state: the older binding against the watermark.
  stale_refused :
      (r : Runtime) (old new : InstallationBinding)
      → IsShared p r
      → Dict.get r.installation_watermarks old.installation_uuid ≡ some new
      → is_newer new old ≡ true
      → ((s : Runtime) → authorize_installation_binding r old ≢ ok s)
        × (is_current_installation_binding r old ≡ false)
        × ((q : WorkerPolicy) → validate_installation_candidate r old ≢ ok q)
  unfolding authorize_installation_binding is_current_installation_binding
      validate_installation_candidate
  stale_refused r old new v mark newer =
      elim (Option-cases (Dict.get r.installation_bindings old.installation_uuid)) [
        | inl absent ↦ (
          λ s h. ground (arith, v.profile, absent),
          ground (arith, absent),
          λ q h. ground (arith, absent, mark, newer),
        )
        | inr (c, here) ↦
            let eq = binding_beq_iff c old in
            let top = v.marked _ c here in
            let irrefl = is_newer_irrefl old in
            (
              λ s h. ground (arith, here, mark, top, newer, irrefl, eq),
              ground (arith, here, mark, top, newer, irrefl, eq),
              λ q h. ground (arith, here, mark, top, newer, irrefl, eq),
            )
      ]

  -- Once a newer binding of an installation is its watermark, the older one is fenced off for ever:
  -- after any further operations it is neither authorized nor current nor accepted again.
  pub stale_fenced :
      (r : Runtime) (cs : List Call) (old new : InstallationBinding)
      → IsShared p r
      → Dict.get r.installation_watermarks old.installation_uuid ≡ some new
      → is_newer new old ≡ true
      → ((s : Runtime) → authorize_installation_binding (run r cs) old ≢ ok s)
        × (is_current_installation_binding (run r cs) old ≡ false)
        × ((q : WorkerPolicy) → validate_installation_candidate (run r cs) old ≢ ok q)
  stale_fenced r cs old new v mark newer =
      let (top, mark', follows) = run-Follows r cs v old.installation_uuid new mark in
      stale_refused (run r cs) old top (run-IsShared r cs v) mark'
        (Follows-newer top new old follows newer)

-- Once the runtime is configured, a later configuration is accepted only with the same identity,
-- policy and profile, and then changes nothing.
pub bind_runtime_once :
    (r : Runtime) (i j : RuntimeIdentity) (p q : WorkerPolicy) (f g : Profile) (s t : Runtime)
    → bind_runtime r i p f ≡ ok s
    → bind_runtime s j q g ≡ ok t
    → (j ≡ i) × (q ≡ p) × (g ≡ f) × (t ≡ s)
unfolding bind_runtime
bind_runtime_once r i j p q f g s t e h = ground (arith, identity_beq_iff i j, policy_beq_iff p q)

-- The legacy manager serves one Workspace: once it is bound, every accepted binding names the same
-- instance, Workspace and generation, whatever installation it came with, and changes nothing.
pub bind_workspace_once :
    (r : Runtime) (a b : Envelope) (s t : Runtime)
    → bind_workspace r a ≡ ok s
    → bind_workspace s b ≡ ok t
    → (same_workspace (as_action_context a) (as_action_context b) ≡ true) × (t ≡ s)
unfolding bind_workspace same_workspace
bind_workspace_once r a b s t e h = ground (
  arith,
  context_beq_iff (without_installation (as_action_context a))
      (without_installation (as_action_context b)),
)
