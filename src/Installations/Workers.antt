-- ===== src/Installations/Workers.antt =====
-- The supervisor tasks after each operation on the installations.
use mathlib.Core.Path.{subst}
use langbot_plugin_sdk.Prelude.{
  ℕ, suc, ◌≡◌, refl, inl, inr, Bool, true, false, ◌&&◌, Option, none, some, arith, option_eq,
  option_beq_iff, Option-cases, Bool-cases, Result-cases, ◌==◌, nat_eq, string_eq,
}
use langbot_plugin_sdk.Prelude.Dict
use langbot_plugin_sdk.Prelude.Dict.{Dict, get-set, get-remove, get-set_self, remove_absent}
use langbot_plugin_sdk.Context.{InstallationBinding, binding_eq}
use langbot_plugin_sdk.Context.Policy.{WorkerPolicy}
use langbot_plugin_sdk.Fence.{is_current_installation_binding}
use langbot_plugin_sdk.Registration.{is_shared}
use langbot_plugin_sdk.Installations.{
  Artifact, Installation, Manager, Volume, put, stop_installation_worker, disabled, starting,
  schedule_installation_worker, revoke_installation_runtime, installation_supervisor_done,
}
use langbot_plugin_sdk.Installations.Apply.{install, installation_of, enable, disable, launch}
use langbot_plugin_sdk.Installations.Updated.{stop_tables, schedule_tables}
use langbot_plugin_sdk.Installations.Applied.{Managed, installation_of_lem}
use langbot_plugin_sdk.Installations.Tasks.{
  task_of, IsSupervised, keep-IsSupervised, stop-IsSupervised, start-IsSupervised,
  remove-IsSupervised, revoke-IsSupervised,
}

abbrev pub Supervised : Manager → Type 0
Supervised m = IsSupervised m.installations m.plugin_run_tasks m.next_task

module _ (m : Manager) (s : Supervised m) where
  stop-Supervised :
      (i j : Installation)
      → task_of (Dict.get m.installations i.binding) ≡ i.launch_task
      → j.binding ≡ i.binding
      → j.launch_task ≡ (stop_installation_worker m i).1.launch_task
      → Supervised (put (stop_installation_worker m i).0 j)
  unfolding stop_installation_worker
  stop-Supervised i j was named now = elim (Option-cases i.launch_task) [
    | inl idle ↦ rw idle (keep-IsSupervised s j.binding j (ground (arith, was, named, now, idle)))
    | inr (task, run) ↦ rw run (
        stop-IsSupervised s j.binding j task (ground (arith, was, named, run))
          (ground (arith, now, run)))
  ]

  schedule-Supervised :
      (i j : Installation)
      → task_of (Dict.get m.installations i.binding) ≡ i.launch_task
      → j.binding ≡ i.binding
      → j.launch_task ≡ (schedule_installation_worker m i).1.launch_task
      → Supervised (put (schedule_installation_worker m i).0 j)
  unfolding schedule_installation_worker
  schedule-Supervised i j was named now = elim (Option-cases i.launch_task) [
    | inl idle ↦
        let k =
          start-IsSupervised s j.binding j (ground (arith, was, named, idle))
            (ground (arith, now, idle)) in
        let started : Supervised (
            put
              (record m {
                plugin_run_tasks = Dict.set m.plugin_run_tasks m.next_task i.binding;
                next_task = suc m.next_task;
              })
              j) =
          subst
            (λ c.
              IsSupervised (Dict.set m.installations j.binding j)
                (Dict.set m.plugin_run_tasks m.next_task c) (suc m.next_task))
            named k in
        rw idle started
    | inr (task, run) ↦
        rw run (keep-IsSupervised s j.binding j (ground (arith, was, named, now, run)))
  ]

  launch-Supervised :
      (i : Installation)
      → task_of (Dict.get m.installations i.binding) ≡ i.launch_task
      → Supervised (launch m i).0
  unfolding launch
  launch-Supervised i was =
      let i' = record i { state = starting } in
      let (_, _, _, named, _) = schedule_tables m i' in
      schedule-Supervised i' (schedule_installation_worker m i').1 was named refl

  disable-Supervised :
      (i : Installation)
      → task_of (Dict.get m.installations i.binding) ≡ i.launch_task
      → Supervised (disable m i).0
  unfolding disable
  disable-Supervised i was =
      let i' = record i { state = disabled; error_code = none } in
      let (_, _, _, named, _) = stop_tables m i' in
      stop-Supervised i' (stop_installation_worker m i').1 was named refl

  pub revoke-Supervised : (b : InstallationBinding) → Supervised (revoke_installation_runtime m b)
  unfolding revoke_installation_runtime stop_installation_worker
  revoke-Supervised b = elim (Option-cases (Dict.get m.installations b)) [
    | inl absent ↦
        rw (revoke_installation_runtime, absent) (remove-IsSupervised s b (ground (arith, absent)))
    | inr (i, found) ↦ elim (Option-cases i.launch_task) [
      | inl idle ↦
          rw (revoke_installation_runtime, found, stop_installation_worker, idle)
            (remove-IsSupervised s b (ground (arith, found, idle)))
      | inr (task, run) ↦
          rw (revoke_installation_runtime, found, stop_installation_worker, run)
            (revoke-IsSupervised s b task (ground (arith, found, run)))
    ]
  ]

  enable-Supervised :
      (v : Volume) (a : Artifact) (i : Installation)
      → task_of (Dict.get m.installations i.binding) ≡ i.launch_task
      → Supervised (enable m v a i).0
  unfolding enable
  enable-Supervised v a i was = elim (Bool-cases (is_shared m.runtime)) [
    | inr other ↦ rw other (launch-Supervised (record i { error_code = none }) was)
    | inl here ↦ rw here (elim (Result-cases (v.prepare_dependency_environment a)) [
      | inr (e, h) ↦
          let i' = record i { error_code = none; dependency_environment = none } in
          let (_, _, _, named, _) = stop_tables m i' in rw h (stop-Supervised i' _ was named refl)
      | inl (environment, h) ↦
          let i' = record i { error_code = none; dependency_environment = some environment } in
          rw h
            (elim (Bool-cases (
              Dict.contains m.installations i.binding
              && is_current_installation_binding m.runtime i.binding)) [
                | inl current ↦ rw current (launch-Supervised i' was)
                | inr stale ↦ rw stale (keep-IsSupervised s i.binding i' was)
              ])
    ])
  ]

  pub done-Supervised :
      (p : WorkerPolicy) (task : ℕ) → Managed p m → Supervised (installation_supervisor_done m task)
  unfolding installation_supervisor_done
  done-Supervised p task h = elim (Option-cases (Dict.get m.plugin_run_tasks task)) [
    | inl gone ↦ rw (installation_supervisor_done, gone) s
    | inr (b, running) ↦
        let its = s.running task b running in
        elim (Option-cases (Dict.get m.installations b)) [
          | inl absent ↦ ground (arith, its, absent)
          | inr (i, found) ↦
              let mine : i.launch_task ≡ some task = ground (arith, its, found) in
              let named : i.binding ≡ b = (h.owned b i found).0 in
              let k =
                stop-IsSupervised s i.binding (record i { launch_task = none }) task
                  (ground (arith, its, named)) refl in
              let yes : (i.launch_task == some task) ≡ true =
                ground (arith, option_beq_iff i.launch_task (some task)) in
              rw (installation_supervisor_done, running, found, yes) k
        ]
  ]

module _ (p : WorkerPolicy) (m : Manager) (h : Managed p m) (s : Supervised m) where
  installation_of_task :
      (b : InstallationBinding) (a : Artifact) (enabled : Bool)
      → let i = installation_of m b a enabled in
        task_of (Dict.get m.installations i.binding) ≡ i.launch_task
  installation_of_task b a enabled =
      let (named, _) = installation_of_lem p m h b a enabled in
      elim (Option-cases (Dict.get m.installations b)) [
        | inl absent ↦ rw (named, installation_of, absent) refl
        | inr (i, found) ↦ rw (named, installation_of, found) refl
      ]

  pub install-Supervised :
      (v : Volume) (b : InstallationBinding) (artifact : Option Artifact) (enabled : Bool)
      → (artifact ≡ none → Dict.get m.installations b ≡ none)
      → Supervised (install m v b artifact enabled).0
  unfolding install
  install-Supervised v b none enabled absent = remove-IsSupervised s b (ground (arith, absent refl))
  install-Supervised v b (some a) true absent =
      let i = installation_of m b a true in
      let was = installation_of_task b a true in
      enable-Supervised (put m i) (keep-IsSupervised s i.binding i was) v a i
        (ground (arith, get-set_self m.installations i.binding i))
  install-Supervised v b (some a) false absent =
      let i = installation_of m b a false in
      let was = installation_of_task b a false in
      disable-Supervised (put m i) (keep-IsSupervised s i.binding i was) i
        (ground (arith, get-set_self m.installations i.binding i))
