-- ===== src/Installations/Invariant.antt =====
-- The invariant of the manager over sequences of operations.
use langbot_plugin_sdk.Prelude.{
  ℕ, String, ◌≡◌, refl, inl, inr, Bool, Option, none, some, List, [], ◌∷◌, arith, ok, Option-cases,
  Bool-cases, Result-cases, string_eq, option_eq, nat_eq, ◌==◌, option_beq_iff,
}
use langbot_plugin_sdk.Prelude.Dict
use langbot_plugin_sdk.Prelude.Dict.{Dict, get-set_self, get-set}
use langbot_plugin_sdk.Prelude.Keys.{Distinct, Finds, Finds-remove, Distinct-Finds}
use langbot_plugin_sdk.Context.{InstallationBinding, binding_eq}
use langbot_plugin_sdk.Context.Policy.{WorkerPolicy}
use langbot_plugin_sdk.Fence.{
  Runtime, deactivate_installation_binding, is_current_installation_binding,
}
use langbot_plugin_sdk.Fence.Order.{state_of}
use langbot_plugin_sdk.Installations.{Manager, Volume, installation_supervisor_done}
use langbot_plugin_sdk.Installations.Apply.{
  supersede, apply_plugin_installation, remove_plugin_installation,
}
use langbot_plugin_sdk.Installations.Reconcile.{
  DesiredState, is_desired, deactivate_current, withdraw, withdraw_undesired, apply_all,
  check_desired, desired_by_uuid, reconcile_plugin_installations,
}
use langbot_plugin_sdk.Installations.Updated.{revoke_tables}
use langbot_plugin_sdk.Installations.Managed.{put-IsManaged, put_same}
use langbot_plugin_sdk.Installations.Applied.{
  Managed, supersede_tables, supersede-Managed, remaining-Room, install-Managed, revoked-Managed,
}
use langbot_plugin_sdk.Installations.Outcome.{Outcome-apply, rejected, crowded, applied}
use langbot_plugin_sdk.Installations.Events.{
  Event, applying, removing, reconciling, ended, manager_of, step, run,
}

pub withdraw_active :
    (k : String) (b : InstallationBinding) (m : Manager)
    → (withdraw m k b).active_binding_by_uuid ≡ Dict.remove m.active_binding_by_uuid k
unfolding withdraw
withdraw_active k b m =
    let (r, a, d) = revoke_tables (record m { runtime = deactivate_current m.runtime b }) b in
    rw a refl

module _ (p : WorkerPolicy) where
  pub apply-Managed :
      (v : Volume) (bytes : Option String) (b : InstallationBinding) (enabled : Bool) (m : Manager)
      → Managed p m
      → Managed p (manager_of m (apply_plugin_installation v bytes b enabled m))
  apply-Managed v bytes b enabled m h = elim (Outcome-apply v bytes b enabled m) [
    | rejected e eq ↦ rw eq h
    | crowded eq on ↦ rw eq h
    | applied out artifact act found free eq ↦
        let (r, a, d) = supersede_tables p m h b act in
        let here : Dict.get (supersede m b out).active_binding_by_uuid b.installation_uuid
            ≡ some b =
          rw a (get-set_self m.active_binding_by_uuid b.installation_uuid b) in
        rw eq (
          install-Managed p (supersede m b out) (supersede-Managed p m h b act) v b artifact enabled
            here (λ on. rw d (remaining-Room p m h b (free on))))
  ]

  pub deactivated_active :
      (b : InstallationBinding) (m : Manager) {r : Runtime}
      → Managed p m
      → deactivate_installation_binding m.runtime b ≡ ok r
      → Dict.get m.active_binding_by_uuid b.installation_uuid ≡ some b
  unfolding deactivate_installation_binding
  deactivated_active b m h k = ground (
    arith,
    h.mirrored b.installation_uuid,
    option_beq_iff (Dict.get m.runtime.installation_bindings b.installation_uuid) (some b),
  )

  -- A binding that is active is current, so it is deactivated.
  deactivate_current_lem :
      (k : String) (b : InstallationBinding) (m : Manager)
      → Managed p m
      → Dict.get m.active_binding_by_uuid k ≡ some b
      → deactivate_current m.runtime b
        ≡ state_of m.runtime (deactivate_installation_binding m.runtime b)
  unfolding is_current_installation_binding deactivate_installation_binding
  deactivate_current_lem k b m h here = ground (arith)

  remove-Managed :
      (b : InstallationBinding) (m : Manager)
      → Managed p m
      → Managed p (manager_of m (remove_plugin_installation b m))
  unfolding remove_plugin_installation
  remove-Managed b m h = elim (Result-cases (deactivate_installation_binding m.runtime b)) [
    | inr (e, k) ↦ rw k h
    | inl (r, k) ↦
        rw k
          (revoked-Managed p m h b.installation_uuid b (deactivated_active b m h k) r (rw k refl))
  ]

  pub withdraw-Managed :
      (k : String) (b : InstallationBinding) (m : Manager)
      → Managed p m
      → Dict.get m.active_binding_by_uuid k ≡ some b
      → Managed p (withdraw m k b)
  unfolding withdraw
  withdraw-Managed k b m h here =
      revoked-Managed p m h k b here (deactivate_current m.runtime b)
        (deactivate_current_lem k b m h here)

  done-Managed :
      (task : ℕ) (m : Manager) → Managed p m → Managed p (installation_supervisor_done m task)
  unfolding installation_supervisor_done
  done-Managed task m h = elim (Option-cases (Dict.get m.plugin_run_tasks task)) [
    | inl gone ↦ rw (installation_supervisor_done, gone) h
    | inr (b, running) ↦ elim (Option-cases (Dict.get m.installations b)) [
      | inl absent ↦ rw (installation_supervisor_done, running, absent) h
      | inr (i, found) ↦ elim (Bool-cases (i.launch_task == some task)) [
        | inr other ↦ rw (installation_supervisor_done, running, found, other) h
        | inl same ↦
            let (named, at) = h.owned b i found in
            rw (installation_supervisor_done, running, found, same)
              (put-IsManaged p h (record i { launch_task = none }) (ground (arith, named, at))
                (put_same p h (record i { launch_task = none }) (ground (arith, named, found))))
      ]
    ]
  ]

  pub withdraw_undesired-Managed :
      (desired : Dict String DesiredState) (items : Dict String InstallationBinding) (m : Manager)
      → Managed p m
      → Distinct items
      → Finds m.active_binding_by_uuid items
      → Managed p (withdraw_undesired desired items m).0
  unfolding withdraw_undesired Distinct Finds
  withdraw_undesired-Managed desired [] m h apart found = h
  withdraw_undesired-Managed desired ((k, b) ∷ items) m h apart found =
      elim (Bool-cases (is_desired desired k b)) [
        | inl wanted ↦ rw wanted (withdraw_undesired-Managed desired items m h apart.1 found.1)
        | inr unwanted ↦ rw unwanted (
            withdraw_undesired-Managed desired items (withdraw m k b)
              (withdraw-Managed k b m h found.0) apart.1
              (rw (withdraw_active k b m)
                (Finds-remove m.active_binding_by_uuid items k apart.0 found.1)))
      ]

  apply_all-Managed :
      (v : Volume) (ds : List DesiredState) (m : Manager)
      → Managed p m
      → Managed p (apply_all v ds m).0
  unfolding apply_all
  apply_all-Managed v [] m h = h
  apply_all-Managed v (d ∷ ds) m h =
      let now = apply-Managed v none d.binding d.enabled m h in
      elim (Result-cases (apply_plugin_installation v none d.binding d.enabled m)) [
        | inr (e, k) ↦ rw (apply_all, k) h
        | inl (out, k) ↦ rw (apply_all, k) (apply_all-Managed v ds out.0 (rw k at now))
      ]

  reconcile-Managed :
      (v : Volume) (ds : List DesiredState) (m : Manager)
      → Managed p m
      → Managed p (reconcile_plugin_installations v ds m).0
  unfolding reconcile_plugin_installations
  reconcile-Managed v ds m h = elim (Result-cases (check_desired ds m.runtime)) [
    | inr (e, k) ↦ rw (reconcile_plugin_installations, k) h
    | inl (u, k) ↦
        rw (reconcile_plugin_installations, k)
          (apply_all-Managed v ds _ (
            withdraw_undesired-Managed (desired_by_uuid [] ds) m.active_binding_by_uuid m h
              h.distinct (Distinct-Finds m.active_binding_by_uuid h.distinct)))
  ]

  pub step-Managed : (m : Manager) (e : Event) → Managed p m → Managed p (step m e)
  unfolding step
  step-Managed m (applying v bytes b enabled) h = apply-Managed v bytes b enabled m h
  step-Managed m (removing b) h = remove-Managed b m h
  step-Managed m (reconciling v ds) h = reconcile-Managed v ds m h
  step-Managed m (ended task) h = done-Managed task m h

  -- From a manager of the shared profile for which it holds, every sequence of operations, each of
  -- them atomic, keeps it: the fence stays one of the shared profile, the active bindings are those of the fence,
  -- each under its own uuid, every installation is kept under its binding, which is the active
  -- one of its uuid, and no more installations are enabled than the worker capacity of the policy.
  pub run-Managed : (m : Manager) (es : List Event) → Managed p m → Managed p (run m es)
  unfolding run
  run-Managed m [] h = h
  run-Managed m (e ∷ es) h = run-Managed (step m e) es (step-Managed m e h)
