-- ===== src/Installations/Managed.antt =====
-- What holds between the tables of the manager and the fence of the shared profile, and how a
-- write, a removal, an activation and a deactivation keep it.
use langbot_plugin_sdk.Prelude.{
  suc, ◌+◌, ◌≤◌, String, ◌≡◌, inl, inr, Option, some, arith, ok, string_eq, ◌==◌, option_eq,
  option_beq_iff, Bool-cases,
}
use langbot_plugin_sdk.Prelude.Dict
use langbot_plugin_sdk.Prelude.Dict.{Dict, get-set, get-remove, get-set_self}
use langbot_plugin_sdk.Prelude.Keys.{Distinct, set-Distinct, remove-Distinct}
use langbot_plugin_sdk.Context.{InstallationBinding, binding_eq, binding_beq_iff}
use langbot_plugin_sdk.Context.Policy.{WorkerPolicy, effective_worker_capacity}
use langbot_plugin_sdk.Fence.{
  Runtime, activate_installation_binding, deactivate_installation_binding,
}
use langbot_plugin_sdk.Fence.Order.{activate, deactivate, after, state_of}
use langbot_plugin_sdk.Fence.Shared.{IsShared, after-IsShared}
use langbot_plugin_sdk.Installations.{Installation, enabled_count}
use langbot_plugin_sdk.Installations.Counted.{
  weight, weight_le_one, enabled_count-set, enabled_count-remove,
}

abbrev pub Active : Type 0
Active = Dict String InstallationBinding

abbrev pub Installed : Type 0
Installed = Dict InstallationBinding Installation

-- The fence is of the shared profile; the active bindings are those of the fence, each under its
-- own uuid; an installation is kept under its binding, which is active; and no more installations
-- are enabled than the worker capacity.
pub record IsManaged (p : WorkerPolicy) (r : Runtime) (a : Active) (d : Installed) : Type 0 where
  pub fence : IsShared p r
  pub keyed :
      (k : String) (b : InstallationBinding)
      → Dict.get r.installation_bindings k ≡ some b
      → b.installation_uuid ≡ k
  pub mirrored : (k : String) → Dict.get a k ≡ Dict.get r.installation_bindings k
  pub distinct : Distinct a
  pub owned :
      (b : InstallationBinding) (i : Installation)
      → Dict.get d b ≡ some i
      → (i.binding ≡ b) × (Dict.get a b.installation_uuid ≡ some b)
  pub capacity : enabled_count d ≤ effective_worker_capacity p

-- There is room for one more worker, or `b` has one.
abbrev pub Room : WorkerPolicy → Installed → InstallationBinding → Type 0
Room p d b = suc (enabled_count d) ≤ effective_worker_capacity p + weight (Dict.get d b)

module _ (p : WorkerPolicy) {r : Runtime} {a : Active} {d : Installed} (v : IsManaged p r a d) where
  -- Writing an installation of an active binding, enabled only where there is room.
  pub put-IsManaged :
      (i : Installation)
      → Dict.get a i.binding.installation_uuid ≡ some i.binding
      → enabled_count (Dict.set d i.binding i) ≤ effective_worker_capacity p
      → IsManaged p r a (Dict.set d i.binding i)
  put-IsManaged i here few = record {
    fence = v.fence;
    keyed = v.keyed;
    mirrored = v.mirrored;
    distinct = v.distinct;
    owned = λ b j e. elim (Bool-cases (i.binding == b)) [
      | inl same ↦ ground (arith, here, get-set d i.binding i b, binding_beq_iff i.binding b)
      | inr other ↦ v.owned b j (ground (arith, get-set d i.binding i b))
    ];
    capacity = few;
  }

  pub put_enabled :
      (i : Installation)
      → Room p d i.binding
      → enabled_count (Dict.set d i.binding i) ≤ effective_worker_capacity p
  put_enabled i room =
      let counted = enabled_count-set d i.binding i in
      let one = weight_le_one (some i) in omega arith

  -- A write that leaves the flag, or clears it, needs no room.
  pub put_same :
      (i : Installation)
      → weight (some i) ≤ weight (Dict.get d i.binding)
      → enabled_count (Dict.set d i.binding i) ≤ effective_worker_capacity p
  put_same i le =
      let counted = enabled_count-set d i.binding i in let few = v.capacity in omega arith

  pub remove-IsManaged : (b : InstallationBinding) → IsManaged p r a (Dict.remove d b)
  remove-IsManaged b = record {
    fence = v.fence;
    keyed = v.keyed;
    mirrored = v.mirrored;
    distinct = v.distinct;
    owned = λ c i e. v.owned c i (ground (arith, get-remove d b c));
    capacity = let fewer = enabled_count-remove d b in let few = v.capacity in omega arith;
  }

  deactivated :
      (b : InstallationBinding)
      → Dict.get r.installation_bindings b.installation_uuid ≡ some b
      → (state_of r (deactivate_installation_binding r b)).installation_bindings
        ≡ Dict.remove r.installation_bindings b.installation_uuid
  unfolding deactivate_installation_binding
  deactivated b bound =
      ground (arith, option_beq_iff (Dict.get r.installation_bindings b.installation_uuid) (some b))

  deactivated-IsShared :
      (b : InstallationBinding) → IsShared p (state_of r (deactivate_installation_binding r b))
  unfolding after
  deactivated-IsShared b = after-IsShared p r v.fence (deactivate b)

  left :
      (b c : InstallationBinding) (i : Installation)
      → Dict.get a b.installation_uuid ≡ some b
      → Dict.get (Dict.remove d b) c ≡ some i
      → (i.binding ≡ c)
        × (Dict.get (Dict.remove a b.installation_uuid) c.installation_uuid ≡ some c)
  left b c i here h =
      let found : Dict.get d c ≡ some i = ground (arith, get-remove d b c) in
      let (named, at) = v.owned c i found in
      (
        named,
        ground (
          arith,
          at,
          here,
          get-remove d b c,
          get-remove a b.installation_uuid c.installation_uuid,
          string_eq.equal_iff b.installation_uuid c.installation_uuid,
          binding_beq_iff b c,
        ),
      )

  -- A binding that leaves the fence, the active bindings and the installations.
  pub drop-IsManaged :
      (b : InstallationBinding)
      → Dict.get a b.installation_uuid ≡ some b
      → IsManaged p
          (state_of r (deactivate_installation_binding r b))
          (Dict.remove a b.installation_uuid)
          (Dict.remove d b)
  drop-IsManaged b here =
      let id = b.installation_uuid in
      let bound : Dict.get r.installation_bindings id ≡ some b =
        ground (arith, v.mirrored id, here) in
      let e = deactivated b bound in
      record {
        fence = deactivated-IsShared b;
        keyed = λ k c h.
            v.keyed k c (ground (arith, rw e at h, get-remove r.installation_bindings id k));
        mirrored = λ k. rw e (
            ground
              (arith, v.mirrored k, get-remove a id k, get-remove r.installation_bindings id k));
        distinct = remove-Distinct a id v.distinct;
        owned = λ c i h. left b c i here h;
        capacity = let fewer = enabled_count-remove d b in let few = v.capacity in omega arith;
      }

  -- What the fence answers to an activation.
  activated :
      (b : InstallationBinding) {out : Runtime × Option InstallationBinding}
      → activate_installation_binding r b ≡ ok out
      → (out.0.installation_bindings ≡ Dict.set r.installation_bindings b.installation_uuid b)
        × (out.1 ≡ Dict.get a b.installation_uuid)
  unfolding activate_installation_binding
  activated b e = ground (arith, e, v.mirrored b.installation_uuid)

  activated-IsShared :
      (b : InstallationBinding) {out : Runtime × Option InstallationBinding}
      → activate_installation_binding r b ≡ ok out
      → IsShared p out.0
  unfolding after
  activated-IsShared b e = let s = after-IsShared p r v.fence (activate b) in rw e at s

  pub activated_previous :
      (b : InstallationBinding) {out : Runtime × Option InstallationBinding}
      → activate_installation_binding r b ≡ ok out
      → out.1 ≡ Dict.get a b.installation_uuid
  activated_previous b e = (activated b e).1

  -- A binding that becomes active, once no other binding of its uuid has an installation.
  pub activate-IsManaged :
      (b : InstallationBinding) {out : Runtime × Option InstallationBinding}
      → activate_installation_binding r b ≡ ok out
      → {d' : Installed}
      → ((c : InstallationBinding) (i : Installation)
          → Dict.get d' c ≡ some i
          → (Dict.get d c ≡ some i) × (c.installation_uuid ≡ b.installation_uuid → c ≡ b))
      → enabled_count d' ≤ effective_worker_capacity p
      → IsManaged p out.0 (Dict.set a b.installation_uuid b) d'
  activate-IsManaged b e rest few =
      let id = b.installation_uuid in
      let (t, previous) = activated b e in
      record {
        fence = activated-IsShared b e;
        keyed = λ k c h. elim (Bool-cases (id == k)) [
          | inl same ↦
              ground
                (arith, rw t at h, get-set r.installation_bindings id b k, string_eq.equal_iff id k)
          | inr other ↦
              v.keyed k c (ground (arith, rw t at h, get-set r.installation_bindings id b k))
        ];
        mirrored = λ k. rw t (
            ground (arith, v.mirrored k, get-set a id b k, get-set r.installation_bindings id b k));
        distinct = set-Distinct a id b v.distinct;
        owned = λ c i h.
            let (found, only) = rest c i h in
            let (named, at) = v.owned c i found in
            (
              named,
              ground (
                arith,
                at,
                only,
                get-set a id b c.installation_uuid,
                string_eq.equal_iff id c.installation_uuid,
              ),
            );
        capacity = few;
      }
