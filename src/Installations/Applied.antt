-- ===== src/Installations/Applied.antt =====
-- Every operation on the installations keeps what holds between the tables and the fence.
use langbot_plugin_sdk.Prelude.{
  ◌≤◌, ◌<◌, String, ◌≡◌, ◌⊎◌, refl, sym, inl, inr, Bool, true, false, Option, none, some, arith, ok,
  string_eq, ◌==◌, option_eq, Bool-cases, Option-cases, [], if◌then◌else◌,
}
use langbot_plugin_sdk.Prelude.Dict
use langbot_plugin_sdk.Prelude.Dict.{Dict, get-set, get-remove, get-set_self}
use langbot_plugin_sdk.Context.{InstallationBinding, binding_eq, binding_beq_iff}
use langbot_plugin_sdk.Context.Policy.{WorkerPolicy, effective_worker_capacity}
use langbot_plugin_sdk.Fence.{
  Runtime, activate_installation_binding, deactivate_installation_binding,
}
use langbot_plugin_sdk.Prelude.Keys.{Distinct}
use langbot_plugin_sdk.Fence.Shared.{IsShared}
use langbot_plugin_sdk.Fence.Order.{state_of}
use langbot_plugin_sdk.Installations.{
  start, Artifact, Installation, Manager, Volume, enabled_count, worker_capacity_would_be_exceeded,
  put, revoke_installation_runtime,
}
use langbot_plugin_sdk.Installations.Apply.{revoke_previous, supersede, install, installation_of}
use langbot_plugin_sdk.Installations.Counted.{weight, enabled_count-remove}
use langbot_plugin_sdk.Installations.Updated.{
  IsUpdate, enable-IsUpdate, disable-IsUpdate, revoke_tables,
}
use langbot_plugin_sdk.Installations.Managed.{
  Installed, IsManaged, Room, put-IsManaged, put_enabled, put_same, remove-IsManaged,
  drop-IsManaged, activate-IsManaged, activated_previous,
}

-- The invariant of a manager.
abbrev pub Managed : WorkerPolicy → Manager → Type 0
Managed p m = IsManaged p m.runtime m.active_binding_by_uuid m.installations

-- The manager of a runtime of the shared profile that has no binding yet.
pub start-Managed :
    (p : WorkerPolicy) (r : Runtime)
    → IsShared p r
    → r.installation_bindings ≡ []
    → Managed p (start r)
unfolding Dict.get Distinct enabled_count
start-Managed p r v e = record {
  fence = v;
  keyed = λ k b h. ground (arith, e, h);
  mirrored = λ k. rw e refl;
  distinct = tt;
  owned = λ b i h. cc;
  capacity = omega arith;
}

module _ (p : WorkerPolicy) (m : Manager) (v : Managed p m) where
  -- An update of an installation of the table, of the same flag.
  update-Managed :
      (i : Installation) {m' : Manager}
      → Dict.get m.active_binding_by_uuid i.binding.installation_uuid ≡ some i.binding
      → Dict.get m.installations i.binding ≡ some i
      → IsUpdate m i m'
      → Managed p m'
  update-Managed i {m'} here found u =
      let at : Dict.get m.active_binding_by_uuid u.entry.binding.installation_uuid
          ≡ some u.entry.binding =
        rw u.binding here in
      let light : weight (some u.entry) ≤ weight (Dict.get m.installations u.entry.binding) =
        ground (arith, u.enabled, u.binding, found) in
      let w = put-IsManaged p v u.entry at (put_same p v u.entry light) in
      rw (u.runtime, u.active, u.installations, sym u.binding) w

-- The installations that stay when `b` becomes active.
pub remaining : Manager → InstallationBinding → Installed
remaining m b = elim (Dict.get m.active_binding_by_uuid b.installation_uuid) [
  | none ↦ m.installations
  | some c ↦ if c == b then m.installations else Dict.remove m.installations c
]

module _ (p : WorkerPolicy) (m : Manager) (v : Managed p m) where
  pub installation_of_lem :
      (b : InstallationBinding) (a : Artifact) (enabled : Bool)
      → ((installation_of m b a enabled).binding ≡ b)
        × ((installation_of m b a enabled).enabled ≡ enabled)
  installation_of_lem b a enabled = elim (Option-cases (Dict.get m.installations b)) [
    | inl absent ↦ rw (installation_of, absent) (refl, refl)
    | inr (i, found) ↦ rw (installation_of, found) ((v.owned b i found).0, refl)
  ]

  -- What is done with an installation that was just written.
  written-Managed :
      (i : Installation) {m' : Manager}
      → Dict.get m.active_binding_by_uuid i.binding.installation_uuid ≡ some i.binding
      → enabled_count (Dict.set m.installations i.binding i) ≤ effective_worker_capacity p
      → IsUpdate (put m i) i m'
      → Managed p m'
  written-Managed i here few u =
      update-Managed p (put m i) (put-IsManaged p v i here few) i here
        (get-set_self m.installations i.binding i) u

  pub install-Managed :
      (w : Volume) (b : InstallationBinding) (artifact : Option Artifact) (enabled : Bool)
      → Dict.get m.active_binding_by_uuid b.installation_uuid ≡ some b
      → (enabled ≡ true → Room p m.installations b)
      → Managed p (install m w b artifact enabled).0
  unfolding install
  install-Managed w b none enabled here room = remove-IsManaged p v b
  install-Managed w b (some a) true here room =
      let i = installation_of m b a true in
      let (named, on) = installation_of_lem b a true in
      let at : Dict.get m.active_binding_by_uuid i.binding.installation_uuid ≡ some i.binding =
        rw named here in
      let place : Room p m.installations i.binding = rw named (room refl) in
      written-Managed i at (put_enabled p v i place) (enable-IsUpdate (put m i) w a i)
  install-Managed w b (some a) false here room =
      let i = installation_of m b a false in
      let (named, off) = installation_of_lem b a false in
      let at : Dict.get m.active_binding_by_uuid i.binding.installation_uuid ≡ some i.binding =
        rw named here in
      let light : weight (some i) ≤ weight (Dict.get m.installations i.binding) =
        ground (arith, off) in
      written-Managed i at (put_same p v i light) (disable-IsUpdate (put m i) i)

  pub supersede_tables :
      (b : InstallationBinding) {out : Runtime × Option InstallationBinding}
      → activate_installation_binding m.runtime b ≡ ok out
      → ((supersede m b out).runtime ≡ out.0)
        × ((supersede m b out).active_binding_by_uuid
            ≡ Dict.set m.active_binding_by_uuid b.installation_uuid b)
        × ((supersede m b out).installations ≡ remaining m b)
  unfolding supersede revoke_previous remaining
  supersede_tables b {out} e =
      elim (Option-cases (Dict.get m.active_binding_by_uuid b.installation_uuid)) [
        | inl absent ↦
            let previous : out.1 ≡ none = ground (arith, activated_previous p v b e, absent) in
            rw (previous, remaining, absent) (refl, refl, refl)
        | inr (c, found) ↦
            let previous : out.1 ≡ some c = ground (arith, activated_previous p v b e, found) in
            let (r, a, d) = revoke_tables (record m { runtime = out.0 }) c in
            elim (Bool-cases (c == b)) [
              | inl same ↦ rw (previous, remaining, found, same) (refl, refl, refl)
              | inr other ↦ rw (previous, remaining, found, other) (r, ground (arith, a), d)
            ]
      ]

  pub remaining_cases :
      (b : InstallationBinding)
      → ((remaining m b ≡ m.installations)
          × ((a : InstallationBinding)
              → Dict.get m.active_binding_by_uuid b.installation_uuid ≡ some a
              → a ≡ b))
        ⊎ ((a : InstallationBinding) × (Dict.get m.active_binding_by_uuid b.installation_uuid
              ≡ some a)
            × ((a == b) ≡ false)
            × (remaining m b ≡ Dict.remove m.installations a))
  unfolding remaining
  remaining_cases b = elim (Option-cases (Dict.get m.active_binding_by_uuid b.installation_uuid)) [
    | inl absent ↦ inl (rw (remaining, absent) refl, λ a h. ground (arith, absent, h))
    | inr (a, here) ↦ elim (Bool-cases (a == b)) [
      | inl same ↦ inl (
        rw (remaining, here, same) refl,
        λ c h. ground (arith, here, h, same, binding_beq_iff a b),
      )
      | inr other ↦ inr (a, here, other, rw (remaining, here, other) refl)
    ]
  ]

  pub remaining_only :
      (b c : InstallationBinding) (i : Installation)
      → Dict.get (remaining m b) c ≡ some i
      → (Dict.get m.installations c ≡ some i) × (c.installation_uuid ≡ b.installation_uuid → c ≡ b)
  remaining_only b c i h = elim (remaining_cases b) [
    | inl (e, only) ↦
        let found = rw e at h in
        let (_, at) = v.owned c i found in (found, λ k. only c (ground (arith, at, k)))
    | inr (a, here, other, e) ↦
        let kept = rw e at h in
        let found : Dict.get m.installations c ≡ some i =
          ground (arith, kept, get-remove m.installations a c) in
        let (_, at) = v.owned c i found in
        (
          found,
          λ k.
              ground
                (arith, at, k, here, kept, get-remove m.installations a c, binding_beq_iff a c),
        )
  ]

  remaining_few :
      (b : InstallationBinding) → enabled_count (remaining m b) ≤ effective_worker_capacity p
  remaining_few b = elim (remaining_cases b) [
    | inl (e, only) ↦ rw e v.capacity
    | inr (a, here, other, e) ↦ let k = remove-IsManaged p v a in rw e k.capacity
  ]

  admitted :
      (b : InstallationBinding)
      → worker_capacity_would_be_exceeded m b ≡ ok false
      → (enabled_count m.installations < effective_worker_capacity p)
        ⊎ ((a : InstallationBinding) × (Dict.get m.active_binding_by_uuid b.installation_uuid
              ≡ some a)
            × (weight (Dict.get m.installations a) ≡ 1))
  unfolding worker_capacity_would_be_exceeded
  admitted b e =
      let fence = v.fence in
      elim (Option-cases (Dict.get m.active_binding_by_uuid b.installation_uuid)) [
        | inl absent ↦ inl (ground (arith, fence.policy, absent, e))
        | inr (a, here) ↦ elim (Option-cases (Dict.get m.installations a)) [
          | inl none_there ↦ inl (ground (arith, fence.policy, here, none_there, e))
          | inr (i, found) ↦ elim (Bool-cases i.enabled) [
            | inl on ↦ inr (a, here, ground (arith, found, on))
            | inr off ↦ inl (ground (arith, fence.policy, here, found, off, e))
          ]
        ]
      ]

  pub remaining-Room :
      (b : InstallationBinding)
      → worker_capacity_would_be_exceeded m b ≡ ok false
      → Room p (remaining m b) b
  remaining-Room b e =
      let few = v.capacity in
      elim (remaining_cases b) [
        | inl (eq, only) ↦ rw eq (elim (admitted b e) [
          | inl less ↦ omega arith
          | inr (a, here, one) ↦ let one' = rw (only a here) at one in omega arith
        ])
        | inr (a, here, other, eq) ↦
            let fewer = enabled_count-remove m.installations a in
            rw eq (elim (admitted b e) [
              | inl less ↦ omega arith
              | inr (c, there, one) ↦
                  let same : c ≡ a = ground (arith, here, there) in
                  let one' = rw same at one in omega arith
            ])
      ]

  pub supersede-Managed :
      (b : InstallationBinding) {out : Runtime × Option InstallationBinding}
      → activate_installation_binding m.runtime b ≡ ok out
      → Managed p (supersede m b out)
  supersede-Managed b e =
      let (r, a, d) = supersede_tables b e in
      rw (r, a, d) (activate-IsManaged p v b e (remaining_only b) (remaining_few b))

  -- A binding that is active leaves the fence and the tables.
  pub revoked-Managed :
      (k : String) (b : InstallationBinding)
      → Dict.get m.active_binding_by_uuid k ≡ some b
      → (r : Runtime) → r ≡ state_of m.runtime (deactivate_installation_binding m.runtime b)
      → let m' = revoke_installation_runtime (record m { runtime = r }) b in
        Managed p (record m' { active_binding_by_uuid = Dict.remove m'.active_binding_by_uuid k })
  revoked-Managed k b here r e =
      let named : b.installation_uuid ≡ k = v.keyed k b (ground (arith, v.mirrored k, here)) in
      let (s, a, d) = revoke_tables (record m { runtime = r }) b in
      let at : Dict.get m.active_binding_by_uuid b.installation_uuid ≡ some b =
        ground (arith, here, named) in
      rw (s, a, d, e, sym named) (drop-IsManaged p v b at)
