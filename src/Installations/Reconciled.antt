-- ===== src/Installations/Reconciled.antt =====
-- What a reconciliation leaves active, against the desired state.
use mathlib.Core.Path.{subst}
use langbot_plugin_sdk.Prelude.{
  String, sym, ◌≡◌, ◌⊎◌, ◌∙◌, refl, inl, inr, Bool, true, false, Option, none, some, List, [], ◌∷◌,
  arith, ok, Option-cases, Bool-cases, Result-cases, Result, ◌==◌, string_eq,
}
use langbot_plugin_sdk.Prelude.Dict
use langbot_plugin_sdk.Prelude.Dict.{Dict, get-set, get-remove}
use langbot_plugin_sdk.Prelude.Keys.{Distinct-Finds}
use langbot_plugin_sdk.Context.{InstallationBinding, binding_eq, binding_beq_iff}
use langbot_plugin_sdk.Context.Policy.{WorkerPolicy}
use langbot_plugin_sdk.Fence.{Runtime}
use langbot_plugin_sdk.Installations.{Answer, Manager, Volume, InstallationError}
use langbot_plugin_sdk.Installations.Apply.{apply_plugin_installation, supersede, capacity_answer}
use langbot_plugin_sdk.Installations.Reconcile.{
  DesiredState, Report, has_duplicates, desired_by_uuid, withdraw_undesired, apply_all, failed_of,
  summary, check_desired, reconcile_plugin_installations,
}
use langbot_plugin_sdk.Installations.Applied.{Managed, supersede_tables}
use langbot_plugin_sdk.Installations.Outcome.{Outcome-apply, rejected, crowded, applied}
use langbot_plugin_sdk.Installations.Invariant.{apply-Managed, withdraw_undesired-Managed}
use langbot_plugin_sdk.Installations.Desired.{
  desired_state, binding_of, desired_binding, reports, names_uuid_lem, desired_start,
  withdraw_undesired_active, install_active,
}

apply_active :
    (p : WorkerPolicy) (v : Volume) (b : InstallationBinding) (enabled : Bool) (m : Manager)
    (out : Manager × Answer)
    → Managed p m
    → apply_plugin_installation v none b enabled m ≡ ok out
    → (out.0.active_binding_by_uuid ≡ Dict.set m.active_binding_by_uuid b.installation_uuid b)
      ⊎ ((out.0.active_binding_by_uuid ≡ m.active_binding_by_uuid) × (out.1 ≡ capacity_answer b))
apply_active p v b enabled m out h e = elim (Outcome-apply v none b enabled m) [
  | rejected err eq ↦ cc
  | crowded eq on ↦ inr (ground (arith, e, eq), ground (arith, e, eq))
  | applied won artifact act found free eq ↦
      let (_, a, _) = supersede_tables p m h b act in
      let kept = install_active (supersede m b won) v b artifact enabled in
      inl (ground (arith, e, eq, kept ∙ a))
]

reports_added :
    (k : String) (a : Answer) (answers : List Answer)
    → reports k (failed_of answers) ≡ true
    → reports k (failed_of (a ∷ answers)) ≡ true
unfolding reports failed_of
reports_added k a answers h = ground (arith, h)

reports_capacity :
    (b : InstallationBinding) (answers : List Answer)
    → reports b.installation_uuid (failed_of (capacity_answer b ∷ answers)) ≡ true
unfolding reports failed_of
reports_capacity b answers =
    ground (arith, string_eq.equal_iff b.installation_uuid b.installation_uuid)

-- The binding of an entry of the desired state is active, or its failure is reported and what was
-- active is left; what was active under a uuid without entry is left.
Settled : Option DesiredState → List Answer → Manager → Manager → String → Type 0
Settled none answers m m' k =
    Dict.get m'.active_binding_by_uuid k ≡ Dict.get m.active_binding_by_uuid k
Settled (some d) answers m m' k =
    (Dict.get m'.active_binding_by_uuid k ≡ some d.binding)
    ⊎ ((Dict.get m'.active_binding_by_uuid k ≡ Dict.get m.active_binding_by_uuid k)
        × (reports k (failed_of answers) ≡ true))

-- The entry of the first apply, whose uuid no later one has.
Settled-here :
    (p : WorkerPolicy) (v : Volume) (d : DesiredState) (m : Manager) (out : Manager × Answer)
    (answers : List Answer) (m' : Manager)
    → Managed p m
    → apply_plugin_installation v none d.binding d.enabled m ≡ ok out
    → Settled none answers out.0 m' d.binding.installation_uuid
    → Settled (some d) (out.1 ∷ answers) m m' d.binding.installation_uuid
unfolding Settled
Settled-here p v d m out answers m' h e kept =
    let u = d.binding.installation_uuid in
    elim (apply_active p v d.binding d.enabled m out h e) [
      | inl a ↦ inl (
          kept
          ∙ ground
              (arith, a, get-set m.active_binding_by_uuid u d.binding u, string_eq.equal_iff u u))
      | inr (a, full) ↦
          inr (ground (arith, kept, a), ground (arith, full, reports_capacity d.binding answers))
    ]

-- The uuid of the first apply is another one.
Settled-there :
    (p : WorkerPolicy) (v : Volume) (d : DesiredState) (o : Option DesiredState) (m : Manager)
    (out : Manager × Answer) (answers : List Answer) (m' : Manager) (k : String)
    → Managed p m
    → apply_plugin_installation v none d.binding d.enabled m ≡ ok out
    → (d.binding.installation_uuid == k) ≡ false
    → Settled o answers out.0 m' k
    → Settled o (out.1 ∷ answers) m m' k
unfolding Settled
Settled-there p v d o m out answers m' k h e other s =
    let u = d.binding.installation_uuid in
    let same : Dict.get out.0.active_binding_by_uuid k ≡ Dict.get m.active_binding_by_uuid k =
      elim (apply_active p v d.binding d.enabled m out h e) [
        | inl a ↦ ground (arith, a, get-set m.active_binding_by_uuid u d.binding k, other)
        | inr (a, full) ↦ ground (arith, a)
      ] in
    elim o as (λ x. Settled x answers out.0 m' k → Settled x (out.1 ∷ answers) m m' k) [
      | none ↦ λ t. t ∙ same
      | some w ↦ λ t. elim t [
        | inl now ↦ inl now
        | inr (left, told) ↦ inr (left ∙ same, reports_added k out.1 answers told)
      ]
    ]
      s

apply_all-Settled :
    (p : WorkerPolicy) (v : Volume) (ds : List DesiredState) (m : Manager) (answers : List Answer)
    (k : String)
    → Managed p m
    → has_duplicates ds ≡ false
    → (apply_all v ds m).1 ≡ ok answers
    → Settled (desired_state ds k) answers m (apply_all v ds m).0 k
unfolding apply_all desired_state has_duplicates Settled
apply_all-Settled p v [] m answers k h alone e = refl
apply_all-Settled p v (d ∷ ds) m answers k h alone e =
    elim (Result-cases (apply_plugin_installation v none d.binding d.enabled m)) [
      | inr (err, eq) ↦ ground (arith, e, eq)
      | inl (out, eq) ↦ elim (Result-cases (apply_all v ds out.0).1) [
        | inr (err, fails) ↦ ground (arith, e, eq, fails)
        | inl (later, done) ↦
            let all : answers ≡ out.1 ∷ later = ground (arith, e, eq, done) in
            let now = apply-Managed p v none d.binding d.enabled m h in
            let ih =
              apply_all-Settled p v ds out.0 later k (rw eq at now) (ground (arith, alone)) done in
            rw (apply_all, eq, all)
              (elim (Bool-cases (d.binding.installation_uuid == k)) [
                | inl same ↦
                    let named = (string_eq.equal_iff d.binding.installation_uuid k).0 same in
                    let gone : desired_state ds k ≡ none =
                      subst (λ x. desired_state ds x ≡ none) named
                        (names_uuid_lem d.binding.installation_uuid ds (ground (arith, alone))) in
                    let kept = rw gone at ih in
                    let m' = (apply_all v ds out.0).0 in
                    rw same (
                      subst (λ x. Settled (some d) (out.1 ∷ later) m m' x) named
                        (Settled-here p v d m out later m' h eq
                          (subst (λ x. Settled none later out.0 m' x) (sym named) kept)))
                | inr other ↦
                    rw other
                      (Settled-there p v d (desired_state ds k) m out later _ k h eq other ih)
              ])
      ]
    ]

-- The tests before the first change pass only where no uuid is desired twice.
check_desired_alone :
    (ds : List DesiredState) (r : Runtime) {u : Unit {0}}
    → check_desired ds r ≡ ok u
    → has_duplicates ds ≡ false
unfolding check_desired
check_desired_alone ds r e = ground (arith, e)

-- What the first loop leaves active is desired.
withdrawn_lem :
    (p : WorkerPolicy) (ds : List DesiredState) (m : Manager) (k : String)
    → Managed p m
    → has_duplicates ds ≡ false
    → let m1 = (withdraw_undesired (desired_by_uuid [] ds) m.active_binding_by_uuid m).0 in
      (Dict.get m1.active_binding_by_uuid k ≡ none)
      ⊎ (Dict.get m1.active_binding_by_uuid k ≡ desired_binding ds k)
unfolding desired_binding
withdrawn_lem p ds m k h alone =
    let desired = desired_by_uuid [] ds in
    let m1 = (withdraw_undesired desired m.active_binding_by_uuid m).0 in
    elim (Option-cases (Dict.get m1.active_binding_by_uuid k)) [
      | inl gone ↦ inl gone
      | inr (b, there) ↦
          let (before, wanted) =
            withdraw_undesired_active desired m.active_binding_by_uuid m k b there in
          elim (Option-cases (Dict.get desired k)) [
            | inl absent ↦ ground (arith, wanted before, absent)
            | inr (d, named) ↦ inr (
                ground (
                  arith,
                  there,
                  wanted before,
                  named,
                  desired_start ds k alone,
                  binding_beq_iff d.binding b,
                ))
          ]
    ]

concluded :
    (o : Option DesiredState) (answers : List Answer) (m m' : Manager) (k : String)
    → Settled o answers m m' k
    → (Dict.get m.active_binding_by_uuid k ≡ none)
      ⊎ (Dict.get m.active_binding_by_uuid k ≡ binding_of o)
    → (Dict.get m'.active_binding_by_uuid k ≡ binding_of o)
      ⊎ ((Dict.get m'.active_binding_by_uuid k ≡ none) × (reports k (failed_of answers) ≡ true))
unfolding Settled
concluded none answers m m' k s was = ground (arith, s, was)
concluded (some d) answers m m' k s was = ground (arith, s, was)

failures :
    (s report : Report) {x : Result InstallationError Report}
    → x ≡ ok s
    → x ≡ ok report
    → report.failed_installations ≡ s.failed_installations
failures s report e f = cc

-- In a manager of the shared profile whose tables fit, a reconciliation that does not raise leaves
-- under each uuid exactly the binding that the desired state names for it, if any, or, where the
-- report names the installation as failed, what was active under the uuid or nothing.
pub reconciled :
    (p : WorkerPolicy) (v : Volume) (ds : List DesiredState) (m : Manager) (report : Report)
    → Managed p m
    → (reconcile_plugin_installations v ds m).1 ≡ ok report
    → (k : String)
    → (Dict.get (reconcile_plugin_installations v ds m).0.active_binding_by_uuid k
        ≡ desired_binding ds k)
      ⊎ ((Dict.get (reconcile_plugin_installations v ds m).0.active_binding_by_uuid k ≡ none)
          × (reports k report.failed_installations ≡ true))
unfolding reconcile_plugin_installations desired_binding
reconciled p v ds m report h e k = elim (Result-cases (check_desired ds m.runtime)) [
  | inr (err, c) ↦ ground (arith, e, c)
  | inl (u, c) ↦
      let alone = check_desired_alone ds m.runtime c in
      let desired = desired_by_uuid [] ds in
      let m1 = (withdraw_undesired desired m.active_binding_by_uuid m).0 in
      let h1 =
        withdraw_undesired-Managed p desired m.active_binding_by_uuid m h h.distinct
          (Distinct-Finds m.active_binding_by_uuid h.distinct) in
      elim (Result-cases (apply_all v ds m1).1) [
        | inr (err, a) ↦ ground (arith, e, c, a)
        | inl (answers, a) ↦
            let told : report.failed_installations ≡ failed_of answers =
              failures
                (summary ds (withdraw_undesired desired m.active_binding_by_uuid m).1 answers)
                report (rw (reconcile_plugin_installations, c, a) refl) e in
            rw (reconcile_plugin_installations, c, told)
              (concluded (desired_state ds k) answers m1 (apply_all v ds m1).0 k
                (apply_all-Settled p v ds m1 answers k h1 alone a) (withdrawn_lem p ds m k h alone))
      ]
]
