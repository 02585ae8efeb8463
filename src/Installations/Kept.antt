-- ===== src/Installations/Kept.antt =====
-- Every operation on the installations keeps the fit of the supervisor tasks.
use langbot_plugin_sdk.Prelude.{
  ℕ, String, inl, inr, none, some, List, [], ◌∷◌, arith, option_eq, Option-cases, Bool-cases,
  Result-cases, ◌==◌, nat_eq, string_eq,
}
use langbot_plugin_sdk.Prelude.Dict
use langbot_plugin_sdk.Prelude.Dict.{Dict, get-set, get-remove}
use langbot_plugin_sdk.Prelude.Keys.{Distinct-Finds}
use langbot_plugin_sdk.Context.{InstallationBinding, binding_eq}
use langbot_plugin_sdk.Context.Policy.{WorkerPolicy}
use langbot_plugin_sdk.Fence.{Runtime, deactivate_installation_binding}
use langbot_plugin_sdk.Installations.{
  Manager, Volume, revoke_installation_runtime, installation_supervisor_done,
}
use langbot_plugin_sdk.Installations.Apply.{apply_plugin_installation, remove_plugin_installation}
use langbot_plugin_sdk.Installations.Reconcile.{
  DesiredState, is_desired, deactivate_current, withdraw, withdraw_undesired, apply_all,
  check_desired, desired_by_uuid, reconcile_plugin_installations,
}
use langbot_plugin_sdk.Installations.Updated.{revoke_tables}
use langbot_plugin_sdk.Installations.Applied.{Managed}
use langbot_plugin_sdk.Installations.Events.{manager_of}
use langbot_plugin_sdk.Installations.Invariant.{apply-Managed, withdraw_undesired-Managed}
use langbot_plugin_sdk.Installations.Tasks.{Wanted}
use langbot_plugin_sdk.Installations.Workers.{revoke-Supervised, done-Supervised}
use langbot_plugin_sdk.Installations.Staffed.{
  IsStaffed, Retained, Wanted-remove, apply-IsStaffed, apply-Retained,
}

revoke-IsStaffed :
    (m : Manager) (b : InstallationBinding)
    → IsStaffed m
    → IsStaffed (revoke_installation_runtime m b)
revoke-IsStaffed m b s =
    let (_, _, d) = revoke_tables m b in
    record {
      supervised = revoke-Supervised m s.supervised b;
      wanted = rw d (Wanted-remove m.installations b s.wanted);
    }

-- A change of the fence and of the active bindings alone.
move :
    (m : Manager) (r : Runtime) (a : Dict String InstallationBinding)
    → IsStaffed m
    → IsStaffed (record m { runtime = r; active_binding_by_uuid = a })
move m r a s = record { supervised = s.supervised; wanted = s.wanted }

pub remove-IsStaffed :
    (b : InstallationBinding) (m : Manager)
    → IsStaffed m
    → IsStaffed (manager_of m (remove_plugin_installation b m))
unfolding remove_plugin_installation
remove-IsStaffed b m s = elim (Result-cases (deactivate_installation_binding m.runtime b)) [
  | inr (e, k) ↦ rw k s
  | inl (r, k) ↦
      let m' = record m { runtime = r } in
      let s' = revoke-IsStaffed m' b (move m r m.active_binding_by_uuid s) in
      rw k (move (revoke_installation_runtime m' b) (revoke_installation_runtime m' b).runtime _ s')
]

done-Wanted :
    (task : ℕ) (m : Manager)
    → Wanted m.installations
    → Wanted (installation_supervisor_done m task).installations
unfolding installation_supervisor_done
done-Wanted task m w = elim (Option-cases (Dict.get m.plugin_run_tasks task)) [
  | inl gone ↦ rw (installation_supervisor_done, gone) w
  | inr (b, running) ↦ elim (Option-cases (Dict.get m.installations b)) [
    | inl absent ↦ rw (installation_supervisor_done, running, absent) w
    | inr (i, found) ↦ elim (Bool-cases (i.launch_task == some task)) [
      | inr other ↦ rw (installation_supervisor_done, running, found, other) w
      | inl same ↦
          rw (installation_supervisor_done, running, found, same)
            (λ c j t at run. elim (Bool-cases (i.binding == c)) [
              | inl mine ↦ ground (
                arith,
                run,
                at,
                get-set m.installations i.binding (record i { launch_task = none }) c,
              )
              | inr other ↦
                  w c j t
                    (ground (
                      arith,
                      at,
                      get-set m.installations i.binding (record i { launch_task = none }) c,
                    ))
                    run
            ])
    ]
  ]
]

pub done-IsStaffed :
    (p : WorkerPolicy) (task : ℕ) (m : Manager)
    → Managed p m
    → IsStaffed m
    → IsStaffed (installation_supervisor_done m task)
done-IsStaffed p task m h s = record {
  supervised = done-Supervised m s.supervised p task h;
  wanted = done-Wanted task m s.wanted;
}

withdraw-IsStaffed :
    (k : String) (b : InstallationBinding) (m : Manager) → IsStaffed m → IsStaffed (withdraw m k b)
unfolding withdraw
withdraw-IsStaffed k b m s =
    let m' = record m { runtime = deactivate_current m.runtime b } in
    let s' = revoke-IsStaffed m' b (move m _ m.active_binding_by_uuid s) in
    move (revoke_installation_runtime m' b) (revoke_installation_runtime m' b).runtime _ s'

withdraw-Retained :
    (v : Volume) (k : String) (b : InstallationBinding) (m : Manager)
    → Retained m v
    → Retained (withdraw m k b) v
unfolding withdraw
withdraw-Retained v k b m kept c i at =
    let m' = record m { runtime = deactivate_current m.runtime b } in
    let (_, _, d) = revoke_tables m' b in
    kept c i (ground (arith, rw d at at, get-remove m.installations b c))

withdraw_undesired-IsStaffed :
    (v : Volume) (desired : Dict String DesiredState) (items : Dict String InstallationBinding)
    (m : Manager)
    → Retained m v
    → IsStaffed m
    → Retained (withdraw_undesired desired items m).0 v
      × IsStaffed (withdraw_undesired desired items m).0
unfolding withdraw_undesired
withdraw_undesired-IsStaffed v desired [] m kept s = (kept, s)
withdraw_undesired-IsStaffed v desired ((k, b) ∷ items) m kept s =
    elim (Bool-cases (is_desired desired k b)) [
      | inl wanted ↦ rw wanted (withdraw_undesired-IsStaffed v desired items m kept s)
      | inr unwanted ↦ rw unwanted (
          withdraw_undesired-IsStaffed v desired items (withdraw m k b)
            (withdraw-Retained v k b m kept) (withdraw-IsStaffed k b m s))
    ]

apply_all-IsStaffed :
    (p : WorkerPolicy) (v : Volume) (ds : List DesiredState) (m : Manager)
    → Managed p m
    → Retained m v
    → IsStaffed m
    → IsStaffed (apply_all v ds m).0
unfolding apply_all
apply_all-IsStaffed p v [] m h kept s = s
apply_all-IsStaffed p v (d ∷ ds) m h kept s =
    let h' = apply-Managed p v none d.binding d.enabled m h in
    let kept' = apply-Retained p v d.binding d.enabled m h kept in
    let s' = apply-IsStaffed p v none d.binding d.enabled m h kept s in
    elim (Result-cases (apply_plugin_installation v none d.binding d.enabled m)) [
      | inr (e, k) ↦ rw (apply_all, k) s
      | inl (out, k) ↦
          rw (apply_all, k)
            (apply_all-IsStaffed p v ds out.0 (rw k at h') (rw k at kept') (rw k at s'))
    ]

pub reconcile-IsStaffed :
    (p : WorkerPolicy) (v : Volume) (ds : List DesiredState) (m : Manager)
    → Managed p m
    → Retained m v
    → IsStaffed m
    → IsStaffed (reconcile_plugin_installations v ds m).0
unfolding reconcile_plugin_installations
reconcile-IsStaffed p v ds m h kept s = elim (Result-cases (check_desired ds m.runtime)) [
  | inr (e, k) ↦ rw (reconcile_plugin_installations, k) s
  | inl (u, k) ↦
      let desired = desired_by_uuid [] ds in
      let (kept', s') = withdraw_undesired-IsStaffed v desired m.active_binding_by_uuid m kept s in
      let h' =
        withdraw_undesired-Managed p desired m.active_binding_by_uuid m h h.distinct
          (Distinct-Finds m.active_binding_by_uuid h.distinct) in
      rw (reconcile_plugin_installations, k) (apply_all-IsStaffed p v ds _ h' kept' s')
]
