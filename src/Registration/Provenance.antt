-- ===== src/Registration/Provenance.antt =====
-- Where the registrations of runtime/plugin/mgr.py come from.
use mathlib.Core.Path.{subst}
use langbot_plugin_sdk.Prelude.{
  ℕ, ◌<◌, ◌≡◌, ◌≢◌, inl, inr, ◌⊎◌, String, Bool, true, false, ◌||◌, none, some, Option-cases, List,
  [], ◌∷◌, leb, Result-cases, ok, raise, ◌==◌, string_eq, option_eq, arith, Bool-cases,
}
use langbot_plugin_sdk.Prelude.Dict
use langbot_plugin_sdk.Context.{binding_eq}
use langbot_plugin_sdk.Registration.{
  Library, Pending, Registration, RegistrationError, expired_keys, remove_keys, bound_keys,
  prune_expired, check_launch, registration_of, issue_registration_capability,
  find_pending_registration_key, take_registration, is_registration_capability_pending,
  consume_registration_capability, revoke_registration_capability,
  revoke_registration_capabilities_for_binding,
}
use langbot_plugin_sdk.Registration.Events.{
  Event, issuing, checking, revoking, consuming, revoking_binding, step, run,
}
use langbot_plugin_sdk.Registration.Once.{remove_keys-sub}

-- The event issued the token for the registration, and its launch passed the checks then.
abbrev pub IsIssue : Library → String → Registration → Event → Type 0
IsIssue l t reg (issuing r now token a) =
    (token ≡ t) × (reg ≡ registration_of l now a) × (check_launch l r a ≡ ok tt)
IsIssue l t reg e = ⊥

-- One of the events did.
abbrev pub IsIssued : Library → String → Registration → List Event → Type 0
IsIssued l t reg [] = ⊥
IsIssued l t reg (e ∷ es) = IsIssue l t reg e ⊎ IsIssued l t reg es

abbrev holds : String → List String → Bool
holds t [] = false
holds t (k ∷ ks) = k == t || holds t ks

remove_keys-gone :
    (d : Pending) (ks : List String) (t : String)
    → holds t ks ≡ true
    → Dict.get (remove_keys d ks) t ≡ none
unfolding remove_keys
remove_keys-gone d [] t h = cc
remove_keys-gone d (k ∷ ks) t h =
    elim (Option-cases (Dict.get (remove_keys (Dict.remove d k) ks) t)) [
      | inl gone ↦ gone
      | inr (reg, there) ↦ ground (
        arith,
        h,
        there,
        Dict.get-remove d k t,
        remove_keys-gone (Dict.remove d k) ks t,
        remove_keys-sub (Dict.remove d k) ks t reg there,
      )
    ]

expired_keys-holds :
    (now : ℕ) (d : Pending) (t : String) (reg : Registration)
    → Dict.get d t ≡ some reg
    → leb reg.expires_at now ≡ true
    → holds t (expired_keys now d) ≡ true
unfolding expired_keys Dict.get
expired_keys-holds now [] t reg h due = cc
expired_keys-holds now ((k, r) ∷ d) t reg h due =
    ground (arith, h, due, expired_keys-holds now d t reg)

-- What is left after the expired registrations are pruned is not expired.
prune_expired-alive :
    (now : ℕ) (d : Pending) (t : String) (reg : Registration)
    → Dict.get (prune_expired now d) t ≡ some reg
    → (Dict.get d t ≡ some reg) × (now < reg.expires_at)
unfolding prune_expired
prune_expired-alive now d t reg h =
    let there = remove_keys-sub d (expired_keys now d) t reg h in
    (
      there,
      elim (Bool-cases (leb reg.expires_at now)) [
        | inl due ↦ ground (
          arith,
          h,
          remove_keys-gone d (expired_keys now d) t (expired_keys-holds now d t reg there due),
        )
        | inr alive ↦ ground (arith, alive)
      ],
    )

take-sub :
    (author name : String) (d : Pending) (k t : String) (reg : Registration)
    → Dict.get (take_registration author name d k).0 t ≡ some reg
    → Dict.get d t ≡ some reg
unfolding take_registration
take-sub author name d k t reg h = ground (arith, h, Dict.get-remove d k t)

-- What is accepted was there, under the identity that was presented.
take-accepted :
    (author name : String) (d : Pending) (k : String) (reg : Registration)
    → (take_registration author name d k).1 ≡ ok reg
    → (Dict.get d k ≡ some reg) × (reg.plugin_author ≡ author) × (reg.plugin_name ≡ name)
unfolding take_registration
take-accepted author name d k reg h = elim (Option-cases (Dict.get d k)) [
  | inl absent ↦ ground (arith, h, absent)
  | inr (r, there) ↦ ground (
    arith,
    h,
    there,
    string_eq.equal_iff r.plugin_author author,
    string_eq.equal_iff r.plugin_name name,
  )
]

module _ (l : Library) where
  find-sub :
      (now : ℕ) (capability : String) (d : Pending) (t : String) (reg : Registration)
      → Dict.get (find_pending_registration_key l now capability d).0 t ≡ some reg
      → Dict.get d t ≡ some reg
  unfolding find_pending_registration_key
  find-sub now capability d t reg h = ground (arith, h, prune_expired-alive now d t reg)

  find-alive :
      (now : ℕ) (capability : String) (d : Pending) (k : String) (reg : Registration)
      → (find_pending_registration_key l now capability d).1 ≡ some k
      → Dict.get (find_pending_registration_key l now capability d).0 k ≡ some reg
      → (k ≡ l.strip capability) × (Dict.get d k ≡ some reg) × (now < reg.expires_at)
  unfolding find_pending_registration_key
  find-alive now capability d k reg found h =
      ground (arith, h, found, prune_expired-alive now d k reg)

  step-from :
      (d : Pending) (e : Event) (t : String) (reg : Registration)
      → Dict.get (step l d e) t ≡ some reg
      → IsIssue l t reg e ⊎ (Dict.get d t ≡ some reg)
  unfolding step issue_registration_capability is_registration_capability_pending
      consume_registration_capability revoke_registration_capability
      revoke_registration_capabilities_for_binding
  step-from d (issuing r now token a) t reg h = elim (Result-cases (check_launch l r a)) [
    | inl (checked, e) ↦ ground (
      arith,
      rw (step, issue_registration_capability, e) at h,
      e,
      string_eq.equal_iff token t,
      prune_expired-alive now d t reg,
      Dict.get-set (prune_expired now d) token (registration_of l now a) t,
    )
    | inr (x, e) ↦ inr (rw (step, issue_registration_capability, e) at h)
  ]
  step-from d (checking now capability) t reg h = inr (find-sub now capability d t reg h)
  step-from d (revoking now capability) t reg h =
      inr (elim (Option-cases (find_pending_registration_key l now capability d).1) [
        | inl lost ↦
            find-sub now capability d t reg (rw (step, revoke_registration_capability, lost) at h)
        | inr (k, found) ↦ find-sub now capability d t reg (
            remove-sub (find_pending_registration_key l now capability d).0 k t reg
              (rw (step, revoke_registration_capability, found) at h))
      ])
    where
      remove-sub :
          (d : Pending) (k t : String) (reg : Registration)
          → Dict.get (Dict.remove d k) t ≡ some reg
          → Dict.get d t ≡ some reg
      remove-sub d k t reg h = ground (arith, h, Dict.get-remove d k t)
  step-from d (consuming now capability author name) t reg h =
      inr (elim (Option-cases (find_pending_registration_key l now capability d).1) [
        | inl lost ↦
            find-sub now capability d t reg (rw (step, consume_registration_capability, lost) at h)
        | inr (k, found) ↦ find-sub now capability d t reg (
            take-sub author name (find_pending_registration_key l now capability d).0 k t reg
              (rw (step, consume_registration_capability, found) at h))
      ])
  step-from d (revoking_binding b) t reg h = inr (remove_keys-sub d (bound_keys b d) t reg h)

  run-from :
      (d : Pending) (es : List Event) (t : String) (reg : Registration)
      → Dict.get (run l d es) t ≡ some reg
      → IsIssued l t reg es ⊎ (Dict.get d t ≡ some reg)
  unfolding run
  run-from d [] t reg h = inr h
  run-from d (e ∷ es) t reg h = elim (run-from (step l d e) es t reg h) [
    | inl issued ↦ inl (inr issued)
    | inr there ↦ elim (step-from d e t reg there) [
      | inl first ↦ inl (inl first)
      | inr before ↦ inr before
    ]
  ]

  -- Whatever happened before, a registration that is accepted was issued, for the token that is
  -- presented, to a launch that passed the checks then; it has the identity that is presented, and
  -- its five minutes are not over.
  pub accepted-IsIssued :
      (es : List Event) (now : ℕ) (capability author name : String) (reg : Registration)
      → (consume_registration_capability l now capability author name (run l [] es)).1 ≡ ok reg
      → IsIssued l (l.strip capability) reg es
        × (now < reg.expires_at)
        × (reg.plugin_author ≡ author)
        × (reg.plugin_name ≡ name)
  unfolding consume_registration_capability Dict.get
  accepted-IsIssued es now capability author name reg h =
      elim (Option-cases (find_pending_registration_key l now capability (run l [] es)).1) [
        | inl lost ↦ absurd (raise-≢-ok (rw (consume_registration_capability, lost) at h))
        | inr (k, found) ↦
            let (there, same_author, same_name) =
              take-accepted author name
                (find_pending_registration_key l now capability (run l [] es)).0 k reg
                (rw (consume_registration_capability, found) at h) in
            let (key, before, alive) = find-alive now capability (run l [] es) k reg found there in
            (
              elim (run-from [] es k reg before) [
                | inl issued ↦ subst (λ t. IsIssued l t reg es) key issued
                | inr never ↦ absurd (none-≢-some never)
              ],
              alive,
              same_author,
              same_name,
            )
      ]
    where
      raise-≢-ok : {x : RegistrationError} → raise x ≢ ok reg
      raise-≢-ok e = cc

      none-≢-some : none ≢ some reg
      none-≢-some e = cc
