-- ===== src/Installations/Staffed.antt =====
-- The workers of the runtime over sequences of operations on the installations.
use langbot_plugin_sdk.Prelude.{
  ℕ, String, ◌≡◌, ◌≢◌, ◌⊎◌, ◌∙◌, inl, inr, Bool, true, false, Option, none, some, arith, ok,
  option_eq, Option-cases, Bool-cases, ◌==◌, nat_eq, string_eq,
}
use langbot_plugin_sdk.Prelude.Dict
use langbot_plugin_sdk.Prelude.Dict.{Dict, get-set, get-remove, get-set_self, remove_absent}
use langbot_plugin_sdk.Prelude.Keys.{Distinct}
use langbot_plugin_sdk.Context.{InstallationBinding, binding_eq, binding_beq_iff}
use langbot_plugin_sdk.Context.Policy.{WorkerPolicy}
use langbot_plugin_sdk.Fence.{Runtime}
use langbot_plugin_sdk.Installations.{
  start, Artifact, Installation, Manager, Volume, put, stop_installation_worker, disabled,
}
use langbot_plugin_sdk.Installations.Apply.{
  install, installation_of, disable, revoke_previous, supersede, fetch, apply_plugin_installation,
}
use langbot_plugin_sdk.Installations.Updated.{IsUpdate, enable-IsUpdate, disable-IsUpdate}
use langbot_plugin_sdk.Installations.Managed.{Installed}
use langbot_plugin_sdk.Installations.Applied.{
  Managed, remaining_only, supersede_tables, supersede-Managed, installation_of_lem,
}
use langbot_plugin_sdk.Installations.Outcome.{Outcome-apply, rejected, crowded, applied}
use langbot_plugin_sdk.Installations.Events.{manager_of, run}
use langbot_plugin_sdk.Installations.Tasks.{Wanted}
use langbot_plugin_sdk.Installations.Workers.{Supervised, revoke-Supervised, install-Supervised}

pub Wanted-remove : (d : Installed) (b : InstallationBinding) → Wanted d → Wanted (Dict.remove d b)
Wanted-remove d b w c i task found run = w c i task (ground (arith, found, get-remove d b c)) run

-- An entry that is written over, with one that may have a task only if it is enabled.
Wanted-set :
    (d : Installed) (b : InstallationBinding) (i j : Installation)
    → Wanted d
    → ((task : ℕ) → j.launch_task ≡ some task → j.enabled ≡ true)
    → Wanted (Dict.set (Dict.set d b i) b j)
Wanted-set d b i j w on c e task found run = elim (Bool-cases (b == c)) [
  | inl same ↦
      let mine : e ≡ j = ground (arith, found, get-set (Dict.set d b i) b j c) in
      ground (arith, mine, on task, run)
  | inr other ↦
      w c e task (ground (arith, found, get-set (Dict.set d b i) b j c, get-set d b i c)) run
]

-- A disabled installation has no task.
disable_entry :
    (m : Manager) (i : Installation)
    → (j : Installation) × ((disable m i).0.installations ≡ Dict.set m.installations i.binding j)
      × (j.launch_task ≡ none)
unfolding disable stop_installation_worker
disable_entry m i =
    let i' = record i { state = disabled; error_code = none } in
    ((stop_installation_worker m i').1, ground arith, ground arith)

module _ (p : WorkerPolicy) (m : Manager) (h : Managed p m) (w : Wanted m.installations) where
  install-Wanted :
      (v : Volume) (b : InstallationBinding) (artifact : Option Artifact) (enabled : Bool)
      → Wanted (install m v b artifact enabled).0.installations
  unfolding install
  install-Wanted v b none enabled = Wanted-remove m.installations b w
  install-Wanted v b (some a) true =
      let i = installation_of m b a true in
      let (_, on) = installation_of_lem p m h b a true in
      let u = enable-IsUpdate (put m i) v a i in
      rw u.installations (
        Wanted-set m.installations i.binding i u.entry w
          (λ task run. ground (arith, u.enabled, on)))
  install-Wanted v b (some a) false =
      let i = installation_of m b a false in
      let (j, e, idle) = disable_entry (put m i) i in
      rw e (Wanted-set m.installations i.binding i j w (λ task run. ground (arith, idle, run)))

-- Tasks and installations fit, and a supervised installation is enabled.
pub record IsStaffed (m : Manager) : Type 0 where
  pub supervised : Supervised m
  pub wanted : Wanted m.installations

pub start-IsStaffed : (r : Runtime) → IsStaffed (start r)
unfolding Dict.get Distinct
start-IsStaffed r = record {
  supervised = record {
    running = λ task b h. cc;
    listed = λ task b h. cc;
    fresh = λ task b h. cc;
    separate = tt;
    counted = omega arith;
  };
  wanted = λ b i task h run. cc;
}

-- The volume still has the artifact of every installation.
abbrev pub Retained : Manager → Volume → Type 0
Retained m v =
    (b : InstallationBinding) (i : Installation)
    → Dict.get m.installations b ≡ some i
    → v.get_verified b.artifact_digest ≢ ok none

fetch_missing :
    (v : Volume) (bytes : Option String) (b : InstallationBinding)
    → fetch v bytes b ≡ ok none
    → v.get_verified b.artifact_digest ≡ ok none
unfolding fetch
fetch_missing v none b e = ground (arith, e)
fetch_missing v (some bytes) b e = ground (arith, e)

fetch_found :
    (v : Volume) (b : InstallationBinding) (a : Artifact)
    → fetch v none b ≡ ok (some a)
    → v.get_verified b.artifact_digest ≢ ok none
unfolding fetch
fetch_found v b a e = λ k. ground (arith, e, k)

update_keys :
    (m : Manager) (j : Installation) {m' : Manager} (c : InstallationBinding) (i : Installation)
    → IsUpdate (put m j) j m'
    → Dict.get m'.installations c ≡ some i
    → ((k : Installation) × (Dict.get m.installations c ≡ some k)) ⊎ (c ≡ j.binding)
update_keys m j c i u e = elim (Bool-cases (j.binding == c)) [
  | inl same ↦ inr (ground (arith, binding_beq_iff j.binding c))
  | inr other ↦ inl (
    i,
    ground (
      arith,
      rw u.installations at e,
      get-set (Dict.set m.installations j.binding j) j.binding u.entry c,
      get-set m.installations j.binding j c,
    ),
  )
]

-- An installation after an install was there before, or is the one that was found.
install_keys :
    (p : WorkerPolicy) (m : Manager) (h : Managed p m) (v : Volume) (b : InstallationBinding)
    (artifact : Option Artifact) (enabled : Bool) (c : InstallationBinding) (i : Installation)
    → Dict.get (install m v b artifact enabled).0.installations c ≡ some i
    → ((j : Installation) × (Dict.get m.installations c ≡ some j)) ⊎ ((c ≡ b) × (artifact ≢ none))
unfolding install
install_keys p m h v b none enabled c i e =
    inl (i, ground (arith, e, get-remove m.installations b c))
install_keys p m h v b (some a) true c i e =
    let j = installation_of m b a true in
    let (named, _) = installation_of_lem p m h b a true in
    elim (update_keys m j c i (enable-IsUpdate (put m j) v a j) e) [
      | inl before ↦ inl before
      | inr new ↦ inr (new ∙ named, λ k. cc)
    ]
install_keys p m h v b (some a) false c i e =
    let j = installation_of m b a false in
    let (named, _) = installation_of_lem p m h b a false in
    elim (update_keys m j c i (disable-IsUpdate (put m j) j) e) [
      | inl before ↦ inl before
      | inr new ↦ inr (new ∙ named, λ k. cc)
    ]

supersede-Supervised :
    (m : Manager) (b : InstallationBinding) (out : Runtime × Option InstallationBinding)
    → Supervised m
    → Supervised (supersede m b out)
unfolding supersede revoke_previous
supersede-Supervised m b (r, none) s = s
supersede-Supervised m b (r, some c) s = elim (Bool-cases (c == b)) [
  | inl same ↦ rw same s
  | inr other ↦ rw other (revoke-Supervised (record m { runtime = r }) s c)
]

module _ (p : WorkerPolicy) (v : Volume) where
  pub apply-IsStaffed :
      (bytes : Option String) (b : InstallationBinding) (enabled : Bool) (m : Manager)
      → Managed p m
      → Retained m v
      → IsStaffed m
      → IsStaffed (manager_of m (apply_plugin_installation v bytes b enabled m))
  apply-IsStaffed bytes b enabled m h kept s = elim (Outcome-apply v bytes b enabled m) [
    | rejected e eq ↦ rw eq s
    | crowded eq on ↦ rw eq s
    | applied out artifact act found free eq ↦
        let (_, _, d) = supersede_tables p m h b act in
        let h' = supersede-Managed p m h b act in
        let w : Wanted (supersede m b out).installations =
          rw d (λ c i task at. s.wanted c i task (remaining_only p m h b c i at).0) in
        let absent : artifact ≡ none → Dict.get (supersede m b out).installations b ≡ none =
          λ missing. elim (Option-cases (Dict.get (supersede m b out).installations b)) [
            | inl gone ↦ gone
            | inr (i, here) ↦
                let there = (remaining_only p m h b b i (rw d at here)).0 in
                elim (kept b i there (fetch_missing v bytes b (rw missing at found))) [ ]
          ] in
        rw eq (record {
          supervised =
              install-Supervised p (supersede m b out) h'
                (supersede-Supervised m b out s.supervised) v b artifact enabled absent;
          wanted = install-Wanted p (supersede m b out) h' w v b artifact enabled;
        })
  ]

  pub apply-Retained :
      (b : InstallationBinding) (enabled : Bool) (m : Manager)
      → Managed p m
      → Retained m v
      → Retained (manager_of m (apply_plugin_installation v none b enabled m)) v
  apply-Retained b enabled m h kept = elim (Outcome-apply v none b enabled m) [
    | rejected e eq ↦ rw eq kept
    | crowded eq on ↦ rw eq kept
    | applied out artifact act found free eq ↦
        let (_, _, d) = supersede_tables p m h b act in
        let h' = supersede-Managed p m h b act in
        rw eq (λ c i at. elim (install_keys p (supersede m b out) h' v b artifact enabled c i at) [
          | inl (j, before) ↦ kept c j (remaining_only p m h b c j (rw d at before)).0
          | inr (same, some_found) ↦ elim (Option-cases artifact) [
            | inl missing ↦ elim (some_found missing) [ ]
            | inr (a, there) ↦ rw same (fetch_found v b a (rw there at found))
          ]
        ])
  ]
