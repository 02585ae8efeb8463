-- ===== src/Installations/Current.antt =====
-- The workers of the runtime over sequences of operations on the installations.
use langbot_plugin_sdk.Prelude.{
  ℕ, ◌≤◌, ◌≡◌, inl, inr, true, some, List, [], ◌∷◌, arith, length, option_eq, option_beq_iff,
  Option-cases, nat_eq, string_eq,
}
use langbot_plugin_sdk.Prelude.Dict
use langbot_plugin_sdk.Prelude.Dict.{Dict, get-set, get-remove}
use langbot_plugin_sdk.Context.{InstallationBinding, binding_eq}
use langbot_plugin_sdk.Context.Policy.{WorkerPolicy, effective_worker_capacity}
use langbot_plugin_sdk.Fence.{is_current_installation_binding}
use langbot_plugin_sdk.Installations.{Installation, Manager}
use langbot_plugin_sdk.Installations.Applied.{Managed}
use langbot_plugin_sdk.Installations.Events.{
  Event, applying, removing, reconciling, ended, step, run,
}
use langbot_plugin_sdk.Installations.Invariant.{step-Managed, run-Managed}
use langbot_plugin_sdk.Installations.Tasks.{supervised_le_enabled}
use langbot_plugin_sdk.Installations.Staffed.{IsStaffed, Retained, apply-IsStaffed}
use langbot_plugin_sdk.Installations.Kept.{remove-IsStaffed, done-IsStaffed, reconcile-IsStaffed}

-- The volume of each operation still has the artifacts of the installations of that time.
unfoldable pub RetainedIn : Manager → Event → Type 0
RetainedIn m (applying v bytes b enabled) = Retained m v
RetainedIn m (removing b) = Unit
RetainedIn m (reconciling v ds) = Retained m v
RetainedIn m (ended task) = Unit

unfoldable pub RetainedThrough : Manager → List Event → Type 0
RetainedThrough m [] = Unit
RetainedThrough m (e ∷ es) = RetainedIn m e × RetainedThrough (step m e) es

step-IsStaffed :
    (p : WorkerPolicy) (m : Manager) (e : Event)
    → Managed p m
    → RetainedIn m e
    → IsStaffed m
    → IsStaffed (step m e)
unfolding step RetainedIn
step-IsStaffed p m (applying v bytes b enabled) h kept s =
    apply-IsStaffed p v bytes b enabled m h kept s
step-IsStaffed p m (removing b) h kept s = remove-IsStaffed b m s
step-IsStaffed p m (reconciling v ds) h kept s = reconcile-IsStaffed p v ds m h kept s
step-IsStaffed p m (ended task) h kept s = done-IsStaffed p task m h s

run-IsStaffed :
    (p : WorkerPolicy) (m : Manager) (es : List Event)
    → Managed p m
    → RetainedThrough m es
    → IsStaffed m
    → IsStaffed (run m es)
unfolding run RetainedThrough
run-IsStaffed p m [] h kept s = s
run-IsStaffed p m (e ∷ es) h kept s =
    run-IsStaffed p (step m e) es (step-Managed p m e h) kept.1 (step-IsStaffed p m e h kept.0 s)

-- From a manager of the shared profile whose tables fit, after any sequence of operations during
-- each of which the volume has the artifacts of the installations there are: a supervisor task
-- that runs is that of the installation of its binding, the installation is enabled, and the
-- binding is the current one of the fence.
pub workers_current :
    (p : WorkerPolicy) (m : Manager) (es : List Event)
    → Managed p m
    → IsStaffed m
    → RetainedThrough m es
    → (task : ℕ) (b : InstallationBinding) → Dict.get (run m es).plugin_run_tasks task ≡ some b
    → (i : Installation) × (Dict.get (run m es).installations b ≡ some i)
      × (i.launch_task ≡ some task)
      × (i.enabled ≡ true)
      × (is_current_installation_binding (run m es).runtime b ≡ true)
unfolding is_current_installation_binding
workers_current p m es h s kept task b there =
    let h' = run-Managed p m es h in
    let s' = run-IsStaffed p m es h kept s in
    let its = s'.supervised.running task b there in
    elim (Option-cases (Dict.get (run m es).installations b)) [
      | inl absent ↦ ground (arith, its, absent)
      | inr (i, found) ↦
          let mine : i.launch_task ≡ some task = ground (arith, its, found) in
          let (_, at) = h'.owned b i found in
          (
            i,
            found,
            mine,
            s'.wanted b i task found mine,
            ground (
              arith,
              at,
              h'.mirrored b.installation_uuid,
              option_beq_iff (Dict.get (run m es).runtime.installation_bindings b.installation_uuid)
                  (some b),
            ),
          )
    ]

-- From a manager of the shared profile whose tables fit, after any sequence of operations, each of
-- them atomic, during each of which the volume has the artifacts of the installations there are: no
-- more supervisor tasks run than the worker capacity of the policy.
pub workers_bounded :
    (p : WorkerPolicy) (m : Manager) (es : List Event)
    → Managed p m
    → IsStaffed m
    → RetainedThrough m es
    → length (run m es).plugin_run_tasks ≤ effective_worker_capacity p
workers_bounded p m es h s kept =
    let h' = run-Managed p m es h in
    let s' = run-IsStaffed p m es h kept s in
    let few = s'.supervised.counted in
    let enabled = supervised_le_enabled (run m es).installations s'.supervised.separate s'.wanted in
    let room = h'.capacity in omega arith
