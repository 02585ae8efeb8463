-- ===== src/Fence/Shared.antt =====
-- The fence of the shared profile, where several tenants use one runtime.
use langbot_plugin_sdk.Prelude.{
  ◌≤◌, ◌<◌, String, ◌≡◌, refl, inl, inr, Option, none, some, arith, ok, length, string_eq, ◌==◌,
  option_eq, option_beq_iff, Bool-cases, Option-cases, Result-cases,
}
use langbot_plugin_sdk.Prelude.Dict
use langbot_plugin_sdk.Prelude.Dict.{Dict, get-set, get-remove, length-set}
use langbot_plugin_sdk.Context.{InstallationBinding, binding_eq, binding_beq_iff, identity_eq}
use langbot_plugin_sdk.Context.Policy.{WorkerPolicy, policy_beq_iff}
use langbot_plugin_sdk.Fence.{
  Runtime, shared, activate_control_handler, bind_runtime, bind_workspace,
  authorize_installation_binding, activate_installation_binding, deactivate_installation_binding,
}
use langbot_plugin_sdk.Fence.Order.{
  Follows, Call, handler, configure, bind, authorize, activate, deactivate, after,
}

-- A runtime of the shared profile: an active binding is the watermark of its installation, and
-- there are at most `max_installations` watermarks.
pub record IsShared (p : WorkerPolicy) (r : Runtime) : Type 0 where
  pub profile : r.runtime_profile ≡ some shared
  pub policy : r.worker_policy ≡ some p
  pub capacity : length r.installation_watermarks ≤ p.max_installations
  pub marked :
      (k : String) (b : InstallationBinding)
      → Dict.get r.installation_bindings k ≡ some b
      → Dict.get r.installation_watermarks k ≡ some b

-- The watermark of `b`'s installation lets `b` in.
abbrev pub Admissible :
    WorkerPolicy → Runtime → InstallationBinding → Option InstallationBinding → Type 0
Admissible p r b none = length r.installation_watermarks < p.max_installations
Admissible p r b (some w) = Follows b w

-- What an operation does to the two tables.
pub data Change (p : WorkerPolicy) (r r' : Runtime) : Type 0 where
  kept :
      r'.installation_bindings ≡ r.installation_bindings
      → r'.installation_watermarks ≡ r.installation_watermarks
      → Change p r r'
  installed :
      (b : InstallationBinding)
      → r'.installation_bindings ≡ Dict.set r.installation_bindings b.installation_uuid b
      → r'.installation_watermarks ≡ Dict.set r.installation_watermarks b.installation_uuid b
      → Admissible p r b (Dict.get r.installation_watermarks b.installation_uuid)
      → Change p r r'
  removed :
      (b : InstallationBinding)
      → r'.installation_bindings ≡ Dict.remove r.installation_bindings b.installation_uuid
      → r'.installation_watermarks ≡ Dict.set r.installation_watermarks b.installation_uuid b
      → Dict.get r.installation_bindings b.installation_uuid ≡ some b
      → Change p r r'

module _ (p : WorkerPolicy) (r : Runtime) (v : IsShared p r) where
  -- A call changes neither the profile nor the policy.
  settings-after :
      (c : Call)
      → ((after r c).runtime_profile ≡ some shared) × ((after r c).worker_policy ≡ some p)
  unfolding after activate_control_handler bind_runtime bind_workspace
      authorize_installation_binding activate_installation_binding deactivate_installation_binding
  settings-after (handler h) = (v.profile, v.policy)
  settings-after (configure i q f) = ground (arith, v.profile, v.policy, policy_beq_iff p q)
  settings-after (bind c) = ground (arith, v.profile, v.policy)
  settings-after (authorize b) = ground (arith, v.profile, v.policy)
  settings-after (activate b) = ground (arith, v.profile, v.policy)
  settings-after (deactivate b) = ground (arith, v.profile, v.policy)

  activate-Admissible :
      (b : InstallationBinding) {out : Runtime × Option InstallationBinding}
      → activate_installation_binding r b ≡ ok out
      → Admissible p r b (Dict.get r.installation_watermarks b.installation_uuid)
  unfolding activate_installation_binding
  activate-Admissible b e =
      let id = b.installation_uuid in
      elim (Option-cases (Dict.get r.installation_bindings id)) [
        | inl absent ↦ elim (Option-cases (Dict.get r.installation_watermarks id)) [
          | inl unmarked ↦ rw unmarked (ground (arith, v.policy, absent, unmarked))
          | inr (w, mark) ↦ rw mark (
              ground (
                arith,
                v.policy,
                absent,
                mark,
                string_eq.equal_iff w.workspace_uuid b.workspace_uuid,
              ))
        ]
        | inr (c, here) ↦ rw (v.marked id c here) (
            ground (
              arith,
              v.policy,
              here,
              v.marked id c here,
              binding_beq_iff c b,
              string_eq.equal_iff c.workspace_uuid b.workspace_uuid,
            ))
      ]

  activate_tables :
      (b : InstallationBinding) {out : Runtime × Option InstallationBinding}
      → activate_installation_binding r b ≡ ok out
      → (out.0.installation_bindings ≡ Dict.set r.installation_bindings b.installation_uuid b)
        × (out.0.installation_watermarks ≡ Dict.set r.installation_watermarks b.installation_uuid b)
  unfolding activate_installation_binding
  activate_tables b e = ground (arith, e)

  activate-Change : (b : InstallationBinding) → Change p r (after r (activate b))
  unfolding after
  activate-Change b = elim (Result-cases (activate_installation_binding r b)) [
    | inl (out, e) ↦
        installed b (ground (arith, e, activate_tables b e))
          (ground (arith, e, activate_tables b e)) (activate-Admissible b e)
    | inr (err, e) ↦ kept (ground (arith, e)) (ground (arith, e))
  ]

  pub after-Change : (c : Call) → Change p r (after r c)
  unfolding after activate_control_handler bind_runtime bind_workspace
      authorize_installation_binding deactivate_installation_binding
  after-Change (handler h) = kept refl refl
  after-Change (configure i q f) = kept (ground arith) (ground arith)
  after-Change (bind c) = kept (ground arith) (ground arith)
  after-Change (authorize b) = kept (ground (arith, v.profile)) (ground (arith, v.profile))
  after-Change (activate b) = activate-Change b
  after-Change (deactivate b) =
      let id = b.installation_uuid in
      elim (Bool-cases (Dict.get r.installation_bindings id == some b)) [
        | inl same ↦ removed b (ground arith) (ground arith) ((option_beq_iff _ (some b)).0 same)
        | inr other ↦ kept (ground arith) (ground arith)
      ]

  -- A change keeps what `IsShared` says of the tables.
  Change-marked :
      {r' : Runtime}
      → Change p r r'
      → (k : String) (b : InstallationBinding) → Dict.get r'.installation_bindings k ≡ some b
      → Dict.get r'.installation_watermarks k ≡ some b
  Change-marked (kept e f) k b h = ground (arith, e, f, v.marked k b)
  Change-marked (installed c e f a) k b h = ground (
    arith,
    e,
    f,
    v.marked k b,
    get-set r.installation_bindings c.installation_uuid c k,
    get-set r.installation_watermarks c.installation_uuid c k,
  )
  Change-marked (removed c e f here) k b h = ground (
    arith,
    e,
    f,
    v.marked k b,
    get-remove r.installation_bindings c.installation_uuid k,
    get-set r.installation_watermarks c.installation_uuid c k,
  )

  Change-capacity :
      {r' : Runtime} → Change p r r' → length r'.installation_watermarks ≤ p.max_installations
  Change-capacity (kept e f) = ground (arith, f, v.capacity)
  Change-capacity (installed c e f a) =
      let id = c.installation_uuid in
      elim (Option-cases (Dict.get r.installation_watermarks id)) [
        | inl unmarked ↦
            let room = rw unmarked at a in
            ground (arith, f, room, unmarked, length-set r.installation_watermarks id c)
        | inr (w, mark) ↦
            ground (arith, f, mark, v.capacity, length-set r.installation_watermarks id c)
      ]
  Change-capacity (removed c e f here) =
      let id = c.installation_uuid in
      ground (arith, f, v.capacity, v.marked id c here, length-set r.installation_watermarks id c)

  -- The watermark of an installation only ever moves to a binding that follows it.
  pub Change-Follows :
      {r' : Runtime}
      → Change p r r'
      → (k : String) (old : InstallationBinding) → Dict.get r.installation_watermarks k ≡ some old
      → (new : InstallationBinding) × (Dict.get r'.installation_watermarks k ≡ some new)
        × Follows new old
  Change-Follows (kept e f) k old h = (old, ground (arith, f, h), inl refl)
  Change-Follows (installed c e f a) k old h = elim (Bool-cases (c.installation_uuid == k)) [
    | inl same ↦
        let mark : Dict.get r.installation_watermarks c.installation_uuid ≡ some old =
          rw ((string_eq.equal_iff c.installation_uuid k).0 same) h in
        (
          c,
          ground (arith, f, same, get-set r.installation_watermarks c.installation_uuid c k),
          rw mark at a,
        )
    | inr other ↦ (
      old,
      ground (arith, f, h, get-set r.installation_watermarks c.installation_uuid c k),
      inl refl,
    )
  ]
  Change-Follows (removed c e f here) k old h = elim (Bool-cases (c.installation_uuid == k)) [
    | inl same ↦
        let mark : Dict.get r.installation_watermarks c.installation_uuid ≡ some old =
          rw ((string_eq.equal_iff c.installation_uuid k).0 same) h in
        (
          c,
          ground (arith, f, same, get-set r.installation_watermarks c.installation_uuid c k),
          inl (ground (arith, mark, v.marked c.installation_uuid c here)),
        )
    | inr other ↦ (
      old,
      ground (arith, f, h, get-set r.installation_watermarks c.installation_uuid c k),
      inl refl,
    )
  ]

  pub after-IsShared : (c : Call) → IsShared p (after r c)
  after-IsShared c =
      let (profile, policy) = settings-after c in
      let change = after-Change c in
      record {
        profile = profile;
        policy = policy;
        capacity = Change-capacity change;
        marked = Change-marked change;
      }
