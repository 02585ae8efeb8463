-- ===== src/Box/Admission/Expired.antt =====
-- The loop of box/runtime.py that removes grants when they expire.
use mathlib.Core.Path.{subst}
use langbot_plugin_sdk.Prelude.{
  ℕ, ◌≤◌, ◌<◌, ◌≡◌, ◌≢◌, ◌↔◌, sym, ap, inl, inr, ◌⊎◌, some, Option-cases, List, [], ◌∷◌, leb,
  Result-cases, All, nat_eq, string_eq, pair_eq, pair_beq_iff, arith, Bool-cases,
}
use langbot_plugin_sdk.Prelude.Dict
use langbot_plugin_sdk.Prelude.Dict.{Dict}
use langbot_plugin_sdk.Box.Tenancy.{Library}
use langbot_plugin_sdk.Box.Admission.{
  Key, Grant, Revocation, Policy, Entry, Admission, workspace_key, entry_of, heappush,
  heapify_grants, reap_entry, reap_from, reap_expired_admissions, require_sandbox_admission,
  index_admission_expiry, drop_workspace_sessions,
}
use langbot_plugin_sdk.Box.Admission.Grants.{
  revocation_key, check_grant, check_revision, install, put_grant, is_shorter, drop_other_sessions,
  upsert_sandbox_admission_grant, revoke_sandbox_admission_grant,
}
use langbot_plugin_sdk.Box.Admission.Heap.{Has, IsIndexed, push-IsIndexed, heapify-IsIndexed}
use langbot_plugin_sdk.Box.Admission.Revoked.{install-grants}
use langbot_plugin_sdk.Box.Admission.Events.{
  Event, reaping, requiring, upserting, revoking, step, run, new,
}

-- What the loop leaves of the grants.
record IsReaped (now : ℕ) (s s' : Admission) : Type 0 where
  indexed : IsIndexed s'.admission_grants s'.admission_expiry_heap
  alive : (k : Key) (g : Grant) → Dict.get s'.admission_grants k ≡ some g → now < g.expires_at
  kept :
      (k : Key) (g : Grant)
      → Dict.get s.admission_grants k ≡ some g
      → now < g.expires_at
      → Dict.get s'.admission_grants k ≡ some g
  old :
      (k : Key) (g : Grant)
      → Dict.get s'.admission_grants k ≡ some g
      → Dict.get s.admission_grants k ≡ some g

reap_entry-old :
    (now : ℕ) (s : Admission) (e : Entry) (k : Key) (g : Grant)
    → Dict.get (reap_entry now s e).admission_grants k ≡ some g
    → Dict.get s.admission_grants k ≡ some g
unfolding reap_entry drop_workspace_sessions
reap_entry-old now s e k g h = ground (arith, h, Dict.get-remove s.admission_grants e.key k)

reap_entry-kept :
    (now : ℕ) (s : Admission) (e : Entry) (k : Key) (g : Grant)
    → Dict.get s.admission_grants k ≡ some g
    → now < g.expires_at
    → Dict.get (reap_entry now s e).admission_grants k ≡ some g
unfolding reap_entry drop_workspace_sessions
reap_entry-kept now s e k g h later =
    ground (arith, h, later, pair_beq_iff e.key k, Dict.get-remove s.admission_grants e.key k)

-- A grant whose entry is popped when it is due is removed.
reap_entry-removed :
    (now : ℕ) (s : Admission) (k : Key) (g : Grant)
    → workspace_key g ≡ k
    → g.expires_at ≤ now
    → Dict.get s.admission_grants k ≡ some g
    → Dict.get (reap_entry now s (entry_of g)).admission_grants k ≢ some g
unfolding reap_entry drop_workspace_sessions
reap_entry-removed now s k g same due h =
    let there : Dict.get s.admission_grants (workspace_key g) ≡ some g = rw same h in
    λ still. ground (
      arith,
      due,
      there,
      still,
      same,
      pair_beq_iff (workspace_key g) k,
      Dict.get-remove s.admission_grants (workspace_key g) k,
    )

reap_entry-IsIndexed :
    (now : ℕ) (s : Admission) (e : Entry) (heap : List Entry)
    → e.expires_at ≤ now
    → IsIndexed s.admission_grants (e ∷ heap)
    → IsIndexed (reap_entry now s e).admission_grants heap
reap_entry-IsIndexed now s e heap due v = record {
  sorted = v.sorted.1;
  keyed = λ k g h. v.keyed k g (reap_entry-old now s e k g h);
  indexed = λ k g h. elim (v.indexed k g (reap_entry-old now s e k g h)) [
    | inl first ↦ absurd (
        reap_entry-removed now s k g (v.keyed k g (reap_entry-old now s e k g h))
          (omega (arith, due, ap (λ x. x.expires_at) first)) (reap_entry-old now s e k g h)
          (subst (λ x. Dict.get (reap_entry now s x).admission_grants k ≡ some g) (sym first) h))
    | inr more ↦ more
  ];
}

All-Has : (P : Entry → Type 0) (heap : List Entry) (x : Entry) → All P heap → Has x heap → P x
All-Has P [] x a h = absurd h
All-Has P (e ∷ heap) x a h = elim h [
  | inl same ↦ subst P (sym same) a.0
  | inr more ↦ All-Has P heap x a.1 more
]

-- The loop stops at an entry that is not due, and then no grant is.
stop-IsReaped :
    (now : ℕ) (s : Admission) (e : Entry) (heap : List Entry)
    → now < e.expires_at
    → IsIndexed s.admission_grants (e ∷ heap)
    → IsReaped now s (record s { admission_expiry_heap = e ∷ heap })
stop-IsReaped now s e heap h v = record {
  indexed = v;
  alive = λ k g present. elim (v.indexed k g present) [
    | inl same ↦ omega (arith, h, ap (λ x. x.expires_at) same)
    | inr more ↦
        omega
          (arith, h, All-Has (λ f. e.expires_at ≤ f.expires_at) heap (entry_of g) v.sorted.0 more)
  ];
  kept = λ k g present later. present;
  old = λ k g present. present;
}

reap_from-IsReaped :
    (now : ℕ) (s : Admission) (heap : List Entry)
    → IsIndexed s.admission_grants heap
    → IsReaped now s (reap_from now s heap)
unfolding reap_from
reap_from-IsReaped now s [] v = record {
  indexed = v;
  alive = λ k g present. absurd (v.indexed k g present);
  kept = λ k g present later. present;
  old = λ k g present. present;
}
reap_from-IsReaped now s (e ∷ heap) v = elim (Bool-cases (leb e.expires_at now)) [
  | inl due ↦
      let w =
        reap_from-IsReaped now (reap_entry now s e) heap
          (reap_entry-IsIndexed now s e heap (ground (arith, due)) v) in
      rw (reap_from, due)
        (record {
          indexed = w.indexed;
          alive = w.alive;
          kept = λ k g present later. w.kept k g (reap_entry-kept now s e k g present later) later;
          old = λ k g present. reap_entry-old now s e k g (w.old k g present);
        })
  | inr later ↦ rw (reap_from, later) (stop-IsReaped now s e heap (ground (arith, later)) v)
]

install-heap :
    (l : Library) (s : Admission) (g : Grant)
    → ((install l s g).admission_expiry_heap ≡ heappush s.admission_expiry_heap (entry_of g))
      ⊎ ((install l s g).admission_expiry_heap
          ≡ heapify_grants (Dict.set s.admission_grants (workspace_key g) g))
unfolding install index_admission_expiry drop_workspace_sessions drop_other_sessions
install-heap l s g = ground arith

abbrev IsKept : Admission → Type 0
IsKept s = IsIndexed s.admission_grants s.admission_expiry_heap

install-IsKept : (l : Library) (s : Admission) (g : Grant) → IsKept s → IsKept (install l s g)
install-IsKept l s g v =
    let pushed = push-IsIndexed s.admission_grants s.admission_expiry_heap g v in
    rw (install-grants l s g) (elim (install-heap l s g) [
      | inl push ↦ rw push pushed
      | inr made ↦
          rw made (heapify-IsIndexed (Dict.set s.admission_grants (workspace_key g) g) pushed.keyed)
    ])

put_grant-IsKept : (l : Library) (s : Admission) (g : Grant) → IsKept s → IsKept (put_grant l s g).0
unfolding put_grant
put_grant-IsKept l s g v = elim (Option-cases (Dict.get s.admission_grants (workspace_key g))) [
  | inl absent ↦ rw (put_grant, absent) (install-IsKept l s g v)
  | inr (c, present) ↦ elim (Bool-cases (is_shorter c g)) [
    | inl shorter ↦ rw (put_grant, present, shorter) v
    | inr longer ↦ rw (put_grant, present, longer) (install-IsKept l s g v)
  ]
]

reap-IsKept : (now : ℕ) (s : Admission) → IsKept s → IsKept (reap_expired_admissions now s)
unfolding reap_expired_admissions
reap-IsKept now s v = (reap_from-IsReaped now s s.admission_expiry_heap v).indexed

upsert-IsKept :
    (l : Library) (p : Policy) (max_records now : ℕ) (s : Admission) (g : Grant)
    → IsKept s
    → IsKept (upsert_sandbox_admission_grant l p max_records now s g).0
unfolding upsert_sandbox_admission_grant
upsert-IsKept l p max_records now s g v = elim (Result-cases (check_grant p now g)) [
  | inl (checked, h) ↦
      elim (Result-cases (check_revision max_records (reap_expired_admissions now s) g)) [
        | inl (done, k) ↦
            rw (upsert_sandbox_admission_grant, h, k)
              (put_grant-IsKept l (reap_expired_admissions now s) g (reap-IsKept now s v))
        | inr (e, k) ↦ rw (upsert_sandbox_admission_grant, h, k) (reap-IsKept now s v)
      ]
  | inr (e, h) ↦ rw (upsert_sandbox_admission_grant, h) v
]

revoke-heap :
    (p : Policy) (max_records : ℕ) (s : Admission) (revocation : Revocation)
    → (revoke_sandbox_admission_grant p max_records s revocation).0.admission_expiry_heap
      ≡ s.admission_expiry_heap
unfolding revoke_sandbox_admission_grant drop_workspace_sessions
revoke-heap p max_records s revocation = ground arith

revoke-old :
    (p : Policy) (max_records : ℕ) (s : Admission) (revocation : Revocation) (k : Key) (g : Grant)
    → Dict.get (revoke_sandbox_admission_grant p max_records s revocation).0.admission_grants k
      ≡ some g
    → Dict.get s.admission_grants k ≡ some g
unfolding revoke_sandbox_admission_grant drop_workspace_sessions
revoke-old p max_records s revocation k g h =
    ground (arith, h, Dict.get-remove s.admission_grants (revocation_key revocation) k)

revoke-IsKept :
    (p : Policy) (max_records : ℕ) (s : Admission) (revocation : Revocation)
    → IsKept s
    → IsKept (revoke_sandbox_admission_grant p max_records s revocation).0
revoke-IsKept p max_records s revocation v = record {
  sorted = rw (revoke-heap p max_records s revocation) v.sorted;
  keyed = λ k g h. v.keyed k g (revoke-old p max_records s revocation k g h);
  indexed = λ k g h.
      rw (revoke-heap p max_records s revocation)
        (v.indexed k g (revoke-old p max_records s revocation k g h));
}

step-IsKept : (l : Library) (s : Admission) (e : Event) → IsKept s → IsKept (step l s e)
unfolding step require_sandbox_admission
step-IsKept l s (reaping now) v = reap-IsKept now s v
step-IsKept l s (requiring p now c) v = reap-IsKept now s v
step-IsKept l s (upserting p max_records now g) v = upsert-IsKept l p max_records now s g v
step-IsKept l s (revoking p max_records revocation) v = revoke-IsKept p max_records s revocation v

run-IsKept : (l : Library) (s : Admission) (es : List Event) → IsKept s → IsKept (run l s es)
unfolding run
run-IsKept l s [] v = v
run-IsKept l s (e ∷ es) v = run-IsKept l (step l s e) es (step-IsKept l s e v)

new-IsKept : IsKept new
unfolding Dict.get
new-IsKept = record { sorted = tt; keyed = λ k g h. cc; indexed = λ k g h. cc }

-- Whatever was granted and revoked before, also when the heap was compacted: the loop removes
-- exactly the grants that are expired, and keeps every other.
pub reap_exact :
    (l : Library) (es : List Event) (now : ℕ) (k : Key) (g : Grant)
    → (Dict.get (reap_expired_admissions now (run l new es)).admission_grants k ≡ some g)
      ↔ ((Dict.get (run l new es).admission_grants k ≡ some g) × (now < g.expires_at))
unfolding reap_expired_admissions
reap_exact l es now k g =
    let s = run l new es in
    let v = reap_from-IsReaped now s s.admission_expiry_heap (run-IsKept l new es new-IsKept) in
    (λ h. (v.old k g h, v.alive k g h), λ h. v.kept k g h.0 h.1)
