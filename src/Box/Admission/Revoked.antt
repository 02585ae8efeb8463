-- ===== src/Box/Admission/Revoked.antt =====
-- A revocation of box/runtime.py is final.
use langbot_plugin_sdk.Prelude.{
  ℕ, ◌≤◌, ◌<◌, ◌≡◌, refl, sym, ap, ◌∙◌, inl, inr, ◌⊎◌, max, some, Option-cases, List, [], ◌∷◌, leb,
  if◌then◌else◌, Result-cases, ok, ◌==◌, ==_refl, nat_eq, string_eq, pair_eq, pair_beq_iff, arith,
  Bool-cases,
}
use langbot_plugin_sdk.Prelude.Dict
use langbot_plugin_sdk.Context.{ActionContext}
use langbot_plugin_sdk.Box.Tenancy.{Library}
use langbot_plugin_sdk.Box.Admission.{
  Key, Grant, Revocation, Policy, Entry, Admission, workspace_key, context_key, get_or, reap_entry,
  reap_from, reap_expired_admissions, require_admission, require_sandbox_admission,
  index_admission_expiry, drop_workspace_sessions,
}
use langbot_plugin_sdk.Box.Admission.Grants.{
  revocation_key, check_grant, check_revision, install, put_grant, is_shorter, drop_other_sessions,
  upsert_sandbox_admission_grant, revoke_sandbox_admission_grant,
}
use langbot_plugin_sdk.Box.Admission.Events.{
  Event, reaping, requiring, upserting, revoking, step, run,
}

-- The Workspace `key` has no grant up to the revision `r`, and none will be accepted.
pub record IsRevoked (key : Key) (r : ℕ) (s : Admission) : Type 0 where
  pub remembered : r ≤ get_or s.revoked_admission_revisions key 0
  pub newer : (g : Grant) → Dict.get s.admission_grants key ≡ some g → r < g.entitlement_revision

reap_entry-IsRevoked :
    (now : ℕ) (key : Key) (r : ℕ) (s : Admission) (e : Entry)
    → IsRevoked key r s
    → IsRevoked key r (reap_entry now s e)
unfolding reap_entry drop_workspace_sessions
reap_entry-IsRevoked now key r s e v = record {
  remembered = ground (arith, v.remembered);
  newer = λ g h. ground (arith, h, v.newer g, Dict.get-remove s.admission_grants e.key key);
}

reap_from-IsRevoked :
    (now : ℕ) (key : Key) (r : ℕ) (s : Admission) (heap : List Entry)
    → IsRevoked key r s
    → IsRevoked key r (reap_from now s heap)
unfolding reap_from
reap_from-IsRevoked now key r s [] v = record { remembered = v.remembered; newer = v.newer }
reap_from-IsRevoked now key r s (e ∷ heap) v = elim (Bool-cases (leb e.expires_at now)) [
  | inl due ↦
      rw (reap_from, due)
        (reap_from-IsRevoked now key r (reap_entry now s e) heap
          (reap_entry-IsRevoked now key r s e v))
  | inr later ↦ rw (reap_from, later) (record { remembered = v.remembered; newer = v.newer })
]

pub install-grants :
    (l : Library) (s : Admission) (g : Grant)
    → (install l s g).admission_grants ≡ Dict.set s.admission_grants (workspace_key g) g
unfolding install index_admission_expiry drop_workspace_sessions drop_other_sessions
install-grants l s g = ground arith

install-revoked :
    (l : Library) (s : Admission) (g : Grant)
    → (install l s g).revoked_admission_revisions ≡ s.revoked_admission_revisions
unfolding install index_admission_expiry drop_workspace_sessions drop_other_sessions
install-revoked l s g = ground arith

check_revision-newer :
    (max_records : ℕ) (s : Admission) (g : Grant) (done : Unit {0})
    → check_revision max_records s g ≡ ok done
    → get_or s.revoked_admission_revisions (workspace_key g) 0 < g.entitlement_revision
check_revision-newer max_records s g done h = ground (arith, h)

install-IsRevoked :
    (l : Library) (key : Key) (r : ℕ) (s : Admission) (g : Grant)
    → get_or s.revoked_admission_revisions (workspace_key g) 0 < g.entitlement_revision
    → IsRevoked key r s
    → IsRevoked key r (install l s g)
install-IsRevoked l key r s g fresh v = record {
  remembered = rw (install-revoked l s g) v.remembered;
  newer = λ g' h. installed g' (elim (Bool-cases (workspace_key g == key)) [
    | inl same ↦
        inl (
          ((pair_beq_iff (workspace_key g) key).0 same),
          some_inj (sym (is_set g' h) ∙ rw same refl),
        )
    | inr other ↦ inr (sym (rw other refl) ∙ is_set g' h)
  ]);
}
  where
    some_inj : {x y : Grant} → some x ≡ some y → x ≡ y
    some_inj e = cc

    is_set :
        (g' : Grant)
        → Dict.get (install l s g).admission_grants key ≡ some g'
        → (if workspace_key g == key then some g else Dict.get s.admission_grants key) ≡ some g'
    is_set g' h =
        sym (Dict.get-set s.admission_grants (workspace_key g) g key)
        ∙ sym (ap (λ d. Dict.get d key) (install-grants l s g))
        ∙ h

    installed :
        (g' : Grant)
        → ((workspace_key g ≡ key) × (g' ≡ g)) ⊎ (Dict.get s.admission_grants key ≡ some g')
        → r < g'.entitlement_revision
    installed g' (inl (same, e)) = rw e (omega (arith, rw same at fresh, v.remembered))
    installed g' (inr e) = v.newer g' e

put_grant-IsRevoked :
    (l : Library) (key : Key) (r : ℕ) (s : Admission) (g : Grant)
    → get_or s.revoked_admission_revisions (workspace_key g) 0 < g.entitlement_revision
    → IsRevoked key r s
    → IsRevoked key r (put_grant l s g).0
unfolding put_grant
put_grant-IsRevoked l key r s g fresh v =
    elim (Option-cases (Dict.get s.admission_grants (workspace_key g))) [
      | inl absent ↦ rw (put_grant, absent) (install-IsRevoked l key r s g fresh v)
      | inr (c, present) ↦ elim (Bool-cases (is_shorter c g)) [
        | inl shorter ↦ rw (put_grant, present, shorter) v
        | inr longer ↦ rw (put_grant, present, longer) (install-IsRevoked l key r s g fresh v)
      ]
    ]

upsert-IsRevoked :
    (l : Library) (p : Policy) (max_records now : ℕ) (key : Key) (r : ℕ) (s : Admission) (g : Grant)
    → IsRevoked key r s
    → IsRevoked key r (upsert_sandbox_admission_grant l p max_records now s g).0
unfolding upsert_sandbox_admission_grant reap_expired_admissions
upsert-IsRevoked l p max_records now key r s g v = elim (Result-cases (check_grant p now g)) [
  | inl (checked, h) ↦
      elim (Result-cases (check_revision max_records (reap_expired_admissions now s) g)) [
        | inl (done, k) ↦
            rw (upsert_sandbox_admission_grant, h, k)
              (put_grant-IsRevoked l key r (reap_expired_admissions now s) g
                (check_revision-newer max_records (reap_expired_admissions now s) g done k)
                (reap_from-IsRevoked now key r s s.admission_expiry_heap v))
        | inr (e, k) ↦
            rw (upsert_sandbox_admission_grant, h, k)
              (reap_from-IsRevoked now key r s s.admission_expiry_heap v)
      ]
  | inr (e, h) ↦ rw (upsert_sandbox_admission_grant, h) v
]

revoke-IsRevoked :
    (p : Policy) (max_records : ℕ) (key : Key) (r : ℕ) (s : Admission) (revocation : Revocation)
    → IsRevoked key r s
    → IsRevoked key r (revoke_sandbox_admission_grant p max_records s revocation).0
unfolding revoke_sandbox_admission_grant drop_workspace_sessions
revoke-IsRevoked p max_records key r s revocation v = record {
  remembered = ground (
    arith,
    v.remembered,
    pair_beq_iff (revocation_key revocation) key,
    Dict.get-set s.revoked_admission_revisions (revocation_key revocation)
        (max (get_or s.revoked_admission_revisions (revocation_key revocation) 0)
          revocation.entitlement_revision)
        key,
  );
  newer = λ g h.
      ground
        (arith, h, v.newer g, Dict.get-remove s.admission_grants (revocation_key revocation) key);
}

step-IsRevoked :
    (l : Library) (key : Key) (r : ℕ) (s : Admission) (e : Event)
    → IsRevoked key r s
    → IsRevoked key r (step l s e)
unfolding step reap_expired_admissions require_sandbox_admission
step-IsRevoked l key r s (reaping now) v = reap_from-IsRevoked now key r s s.admission_expiry_heap v
step-IsRevoked l key r s (requiring p now c) v =
    reap_from-IsRevoked now key r s s.admission_expiry_heap v
step-IsRevoked l key r s (upserting p max_records now g) v =
    upsert-IsRevoked l p max_records now key r s g v
step-IsRevoked l key r s (revoking p max_records revocation) v =
    revoke-IsRevoked p max_records key r s revocation v

run-IsRevoked :
    (l : Library) (key : Key) (r : ℕ) (s : Admission) (es : List Event)
    → IsRevoked key r s
    → IsRevoked key r (run l s es)
unfolding run
run-IsRevoked l key r s [] v = v
run-IsRevoked l key r s (e ∷ es) v =
    run-IsRevoked l key r (step l s e) es (step-IsRevoked l key r s e v)

-- What a revocation that is accepted leaves.
revoke-establishes :
    (p : Policy) (max_records : ℕ) (s : Admission) (revocation : Revocation)
    → (revoke_sandbox_admission_grant p max_records s revocation).1 ≡ ok tt
    → IsRevoked
        (revocation_key revocation)
        revocation.entitlement_revision
        (revoke_sandbox_admission_grant p max_records s revocation).0
unfolding revoke_sandbox_admission_grant drop_workspace_sessions
revoke-establishes p max_records s revocation h = record {
  remembered = ground (
    arith,
    h,
    Dict.get-set_self s.revoked_admission_revisions (revocation_key revocation) (
        max (get_or s.revoked_admission_revisions (revocation_key revocation) 0)
          revocation.entitlement_revision),
  );
  newer = λ g k. ground (
    arith,
    h,
    k,
    ==_refl (revocation_key revocation),
    Dict.get-remove s.admission_grants (revocation_key revocation) (revocation_key revocation),
  );
}

require_admission-present :
    (p : Policy) (now : ℕ) (s : Admission) (c : ActionContext) (g : Grant)
    → require_admission p now s c ≡ ok g
    → Dict.get s.admission_grants (context_key c) ≡ some g
unfolding require_admission
require_admission-present p now s c g h = ground (arith, h)

-- A revocation that was accepted is final. Whatever is requested afterwards, at any times and under
-- any policies, a Workspace is admitted only by a grant of a later revision than the one revoked.
pub revoked_for_good :
    (l : Library) (p q : Policy) (max_records now : ℕ) (s : Admission) (revocation : Revocation)
    (es : List Event) (c : ActionContext) (g : Grant)
    → (revoke_sandbox_admission_grant p max_records s revocation).1 ≡ ok tt
    → context_key c ≡ revocation_key revocation
    → (require_sandbox_admission q now
        (run l (revoke_sandbox_admission_grant p max_records s revocation).0 es)
        c).1
      ≡ ok g
    → revocation.entitlement_revision < g.entitlement_revision
unfolding require_sandbox_admission reap_expired_admissions
revoked_for_good l p q max_records now s revocation es c g accepted same admitted =
    let revoked = (revoke_sandbox_admission_grant p max_records s revocation).0 in
    let v =
      run-IsRevoked l (revocation_key revocation) revocation.entitlement_revision revoked es
        (revoke-establishes p max_records s revocation accepted) in
    let after = reap_expired_admissions now (run l revoked es) in
    (reap_from-IsRevoked now (revocation_key revocation) revocation.entitlement_revision
        (run l revoked es) (run l revoked es).admission_expiry_heap v).newer
      g
      (ap (λ k. Dict.get after.admission_grants k) (sym same)
        ∙ require_admission-present q now after c g admitted)
