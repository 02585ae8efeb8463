-- ===== src/Installations/Tasks.antt =====
-- The supervisor tasks against the installations, and how the steps of an operation keep them.
use langbot_plugin_sdk.Prelude.{
  ℕ, suc, ◌+◌, ◌≤◌, ◌<◌, ◌≡◌, refl, inl, inr, true, Option, none, some, [], ◌∷◌, arith, length,
  Bool-cases, Option-cases, nat_eq, ◌==◌,
}
use langbot_plugin_sdk.Prelude.Dict
use langbot_plugin_sdk.Prelude.Dict.{
  Dict, get-set, get-remove, length-set, length-remove_present, remove_absent,
}
use langbot_plugin_sdk.Prelude.Keys.{Distinct, set-Distinct, remove-Distinct}
use langbot_plugin_sdk.Context.{InstallationBinding, binding_eq, binding_beq_iff}
use langbot_plugin_sdk.Installations.{Installation, enabled_count}
use langbot_plugin_sdk.Installations.Managed.{Installed}

abbrev pub task_of : Option Installation → Option ℕ
task_of none = none
task_of (some i) = i.launch_task

abbrev pub load : Option ℕ → ℕ
load none = 0
load (some task) = 1

-- The number of installations that have a supervisor.
pub supervised_count : Installed → ℕ
supervised_count [] = 0
supervised_count ((b, i) ∷ d) = load i.launch_task + supervised_count d

supervised_count-set :
    (d : Installed) (b : InstallationBinding) (i : Installation)
    → supervised_count (Dict.set d b i) + load (task_of (Dict.get d b))
      ≡ supervised_count d + load i.launch_task
unfolding supervised_count Dict.set Dict.get
supervised_count-set [] b i = omega arith
supervised_count-set ((c, j) ∷ d) b i = elim (Bool-cases (c == b)) [
  | inl same ↦ rw same (omega arith)
  | inr other ↦ let ih = supervised_count-set d b i in rw other (omega arith)
]

supervised_count-change :
    (d : Installed) (b : InstallationBinding) (i : Installation) {x y : Option ℕ}
    → task_of (Dict.get d b) ≡ x
    → i.launch_task ≡ y
    → supervised_count (Dict.set d b i) + load x ≡ supervised_count d + load y
supervised_count-change d b i p q = let e = supervised_count-set d b i in cc

supervised_count-remove :
    (d : Installed) (b : InstallationBinding)
    → Distinct d
    → supervised_count (Dict.remove d b) + load (task_of (Dict.get d b)) ≡ supervised_count d
unfolding supervised_count Dict.remove Dict.get Distinct
supervised_count-remove [] b h = omega arith
supervised_count-remove ((c, j) ∷ d) b h = elim (Bool-cases (c == b)) [
  | inl same ↦
      let gone : Dict.get d b ≡ none = ground (arith, h.0, binding_beq_iff c b) in
      rw (same, remove_absent d b gone) (omega arith)
  | inr other ↦ let ih = supervised_count-remove d b h.1 in rw other (omega arith)
]

-- A supervised installation is enabled.
abbrev pub Wanted : Installed → Type 0
Wanted d =
    (b : InstallationBinding) (i : Installation) (task : ℕ)
    → Dict.get d b ≡ some i
    → i.launch_task ≡ some task
    → i.enabled ≡ true

pub supervised_le_enabled :
    (d : Installed) → Distinct d → Wanted d → supervised_count d ≤ enabled_count d
unfolding supervised_count enabled_count Distinct Dict.get
supervised_le_enabled [] h w = omega arith
supervised_le_enabled ((c, j) ∷ d) h w =
    let rest : Wanted d =
      λ b i task found run. w b i task (ground (arith, h.0, found, binding_beq_iff c b)) run in
    let ih = supervised_le_enabled d h.1 rest in
    elim (Option-cases j.launch_task) [
      | inl idle ↦ rw idle (ground (arith, ih))
      | inr (task, run) ↦
          let on : j.enabled ≡ true = w c j task (ground (arith, binding_beq_iff c c)) run in
          rw (run, on) (omega arith)
    ]

-- A task supervises the installation of its binding, an installation's task is among the tasks
-- with its binding, and the tasks are older than the next one.
pub record IsSupervised (d : Installed) (t : Dict ℕ InstallationBinding) (n : ℕ) : Type 0 where
  pub running :
      (task : ℕ) (b : InstallationBinding)
      → Dict.get t task ≡ some b
      → task_of (Dict.get d b) ≡ some task
  pub listed :
      (task : ℕ) (b : InstallationBinding)
      → task_of (Dict.get d b) ≡ some task
      → Dict.get t task ≡ some b
  pub fresh : (task : ℕ) (b : InstallationBinding) → Dict.get t task ≡ some b → task < n
  pub separate : Distinct d
  pub counted : length t ≤ supervised_count d

module _ {d : Installed} {t : Dict ℕ InstallationBinding} {n : ℕ} (s : IsSupervised d t n) where
  -- A write that leaves the task.
  pub keep-IsSupervised :
      (b : InstallationBinding) (j : Installation)
      → task_of (Dict.get d b) ≡ j.launch_task
      → IsSupervised (Dict.set d b j) t n
  keep-IsSupervised b j same = record {
    running =
        λ task c h. ground (arith, s.running task c h, same, get-set d b j c, binding_beq_iff b c);
    listed =
        λ task c h. s.listed task c (ground (arith, h, same, get-set d b j c, binding_beq_iff b c));
    fresh = s.fresh;
    separate = set-Distinct d b j s.separate;
    counted = let few = s.counted in let e = supervised_count-change d b j same refl in omega arith;
  }

  -- The task ends, and its installation forgets it.
  pub stop-IsSupervised :
      (b : InstallationBinding) (j : Installation) (k : ℕ)
      → task_of (Dict.get d b) ≡ some k
      → j.launch_task ≡ none
      → IsSupervised (Dict.set d b j) (Dict.remove t k) n
  stop-IsSupervised b j k was idle = record {
    running = λ task c h. ground (
      arith,
      s.running task c,
      h,
      was,
      get-remove t k task,
      nat_eq.equal_iff k task,
      get-set d b j c,
      binding_beq_iff b c,
    );
    listed = λ task c h. ground (
      arith,
      h,
      idle,
      s.listed task c,
      s.listed k b was,
      get-remove t k task,
      nat_eq.equal_iff k task,
      get-set d b j c,
      binding_beq_iff b c,
    );
    fresh = λ task c h. s.fresh task c (ground (arith, h, get-remove t k task));
    separate = set-Distinct d b j s.separate;
    counted =
        let few = s.counted in
        let less = length-remove_present t k (s.listed k b was) in
        let e = supervised_count-change d b j was idle in omega arith;
  }

  -- A new task for an installation that has none.
  pub start-IsSupervised :
      (b : InstallationBinding) (j : Installation)
      → task_of (Dict.get d b) ≡ none
      → j.launch_task ≡ some n
      → IsSupervised (Dict.set d b j) (Dict.set t n b) (suc n)
  start-IsSupervised b j was now =
      let unused : Dict.get t n ≡ none = elim (Option-cases (Dict.get t n)) [
        | inl none_there ↦ none_there
        | inr (c, there) ↦ let less = s.fresh n c there in ground arith
      ] in
      record {
        running = λ task c h. elim (Bool-cases (n == task)) [
          | inl same ↦ ground (
            arith,
            h,
            now,
            get-set t n b task,
            nat_eq.equal_iff n task,
            get-set d b j c,
            binding_beq_iff b c,
          )
          | inr other ↦
              let was_there = s.running task c (ground (arith, h, get-set t n b task)) in
              ground (arith, was_there, was, get-set d b j c, binding_beq_iff b c)
        ];
        listed = λ task c h. elim (Bool-cases (b == c)) [
          | inl same ↦ ground (
            arith,
            h,
            now,
            get-set t n b task,
            nat_eq.equal_iff n task,
            get-set d b j c,
            binding_beq_iff b c,
          )
          | inr other ↦
              let was_there = s.listed task c (ground (arith, h, get-set d b j c)) in
              ground (arith, was_there, unused, get-set t n b task, nat_eq.equal_iff n task)
        ];
        fresh = λ task c h. elim (Bool-cases (n == task)) [
          | inl same ↦ ground (arith, nat_eq.equal_iff n task)
          | inr other ↦
              let less = s.fresh task c (ground (arith, h, get-set t n b task)) in omega arith
        ];
        separate = set-Distinct d b j s.separate;
        counted =
            let few = s.counted in
            let more = length-set t n b in
            let more' = rw unused at more in
            let e = supervised_count-change d b j was now in omega arith;
      }

  -- An installation without a task leaves.
  pub remove-IsSupervised :
      (b : InstallationBinding) → task_of (Dict.get d b) ≡ none → IsSupervised (Dict.remove d b) t n
  remove-IsSupervised b was = record {
    running =
        λ task c h. ground (arith, s.running task c h, was, get-remove d b c, binding_beq_iff b c);
    listed = λ task c h. s.listed task c (ground (arith, h, get-remove d b c));
    fresh = s.fresh;
    separate = remove-Distinct d b s.separate;
    counted =
        let few = s.counted in
        let e = supervised_count-remove d b s.separate in let e' = rw was at e in omega arith;
  }

  -- An installation leaves and its task ends.
  pub revoke-IsSupervised :
      (b : InstallationBinding) (k : ℕ)
      → task_of (Dict.get d b) ≡ some k
      → IsSupervised (Dict.remove d b) (Dict.remove t k) n
  revoke-IsSupervised b k was = record {
    running = λ task c h. ground (
      arith,
      s.running task c,
      h,
      was,
      get-remove t k task,
      nat_eq.equal_iff k task,
      get-remove d b c,
      binding_beq_iff b c,
    );
    listed = λ task c h. ground (
      arith,
      h,
      s.listed task c,
      s.listed k b was,
      get-remove t k task,
      nat_eq.equal_iff k task,
      get-remove d b c,
      binding_beq_iff b c,
    );
    fresh = λ task c h. s.fresh task c (ground (arith, h, get-remove t k task));
    separate = remove-Distinct d b s.separate;
    counted =
        let few = s.counted in
        let less = length-remove_present t k (s.listed k b was) in
        let e = supervised_count-remove d b s.separate in let e' = rw was at e in omega arith;
  }
