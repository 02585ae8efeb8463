-- ===== src/Registration/Once.antt =====
-- A capability of runtime/plugin/mgr.py is used once.
use mathlib.Core.Path.{subst}
use langbot_plugin_sdk.Prelude.{
  ℕ, ◌≡◌, ◌≢◌, inl, inr, ◌⊎◌, String, false, none, some, Option-cases, List, [], ◌∷◌, All,
  Result-cases, raise, ◌==◌, string_eq, option_eq, arith, Bool-cases,
}
use langbot_plugin_sdk.Prelude.Dict
use langbot_plugin_sdk.Context.{InstallationBinding, binding_eq}
use langbot_plugin_sdk.Registration.{
  Library, Pending, Registration, invalid_capability, prune_expired, expired_keys, remove_keys,
  bound_keys, check_launch, registration_of, issue_registration_capability,
  find_pending_registration_key, take_registration, is_registration_capability_pending,
  consume_registration_capability, revoke_registration_capability,
  revoke_registration_capabilities_for_binding,
}
use langbot_plugin_sdk.Registration.Events.{
  Event, issuing, checking, revoking, consuming, revoking_binding, step, run,
}

-- The code draws another token than this one.
abbrev pub IsOther : String → Event → Type 0
IsOther t (issuing r now token a) = token ≢ t
IsOther t e = Unit

pub remove_keys-sub :
    (d : Pending) (ks : List String) (t : String) (reg : Registration)
    → Dict.get (remove_keys d ks) t ≡ some reg
    → Dict.get d t ≡ some reg
unfolding remove_keys
remove_keys-sub d [] t reg h = h
remove_keys-sub d (k ∷ ks) t reg h =
    ground (arith, Dict.get-remove d k t, remove_keys-sub (Dict.remove d k) ks t reg h)

remove_keys-absent :
    (d : Pending) (ks : List String) (t : String)
    → Dict.get d t ≡ none
    → Dict.get (remove_keys d ks) t ≡ none
unfolding remove_keys
remove_keys-absent d [] t h = h
remove_keys-absent d (k ∷ ks) t h =
    remove_keys-absent (Dict.remove d k) ks t (ground (arith, h, Dict.get-remove d k t))

prune_expired-absent :
    (now : ℕ) (d : Pending) (t : String)
    → Dict.get d t ≡ none
    → Dict.get (prune_expired now d) t ≡ none
unfolding prune_expired
prune_expired-absent now d t h = remove_keys-absent d (expired_keys now d) t h

revoking_binding-absent :
    (b : InstallationBinding) (d : Pending) (t : String)
    → Dict.get d t ≡ none
    → Dict.get (revoke_registration_capabilities_for_binding b d) t ≡ none
unfolding revoke_registration_capabilities_for_binding
revoking_binding-absent b d t h = remove_keys-absent d (bound_keys b d) t h

module _ (l : Library) where
  find-absent :
      (now : ℕ) (capability : String) (d : Pending) (t : String)
      → Dict.get d t ≡ none
      → Dict.get (find_pending_registration_key l now capability d).0 t ≡ none
  unfolding find_pending_registration_key
  find-absent now capability d t h = ground (arith, h, prune_expired-absent now d t)

  remove-absent :
      (d : Pending) (k t : String) → Dict.get d t ≡ none → Dict.get (Dict.remove d k) t ≡ none
  remove-absent d k t h = ground (arith, h, Dict.get-remove d k t)

  take-absent :
      (author name : String) (d : Pending) (k t : String)
      → Dict.get d t ≡ none
      → Dict.get (take_registration author name d k).0 t ≡ none
  unfolding take_registration
  take-absent author name d k t h = ground (arith, h, remove-absent d k t)

  step-absent :
      (d : Pending) (e : Event) (t : String)
      → IsOther t e
      → Dict.get d t ≡ none
      → Dict.get (step l d e) t ≡ none
  unfolding step issue_registration_capability is_registration_capability_pending
      consume_registration_capability revoke_registration_capability
  step-absent d (issuing r now token a) t o h = elim (Result-cases (check_launch l r a)) [
    | inl (checked, e) ↦
        rw (step, issue_registration_capability, e)
          (ground (
            arith,
            o,
            absent,
            string_eq.equal_iff token t,
            Dict.get-set (prune_expired now d) token (registration_of l now a) t,
          ))
    | inr (x, e) ↦ rw (step, issue_registration_capability, e) h
  ]
    where
      absent : Dict.get (prune_expired now d) t ≡ none
      absent = prune_expired-absent now d t h
  step-absent d (checking now capability) t o h = find-absent now capability d t h
  step-absent d (revoking now capability) t o h =
      elim (Option-cases (find_pending_registration_key l now capability d).1) [
        | inl lost ↦
            rw (step, revoke_registration_capability, lost) (find-absent now capability d t h)
        | inr (k, found) ↦
            rw (step, revoke_registration_capability, found)
              (remove-absent (find_pending_registration_key l now capability d).0 k t
                (find-absent now capability d t h))
      ]
  step-absent d (consuming now capability author name) t o h =
      elim (Option-cases (find_pending_registration_key l now capability d).1) [
        | inl lost ↦
            rw (step, consume_registration_capability, lost) (find-absent now capability d t h)
        | inr (k, found) ↦
            rw (step, consume_registration_capability, found)
              (take-absent author name (find_pending_registration_key l now capability d).0 k t
                (find-absent now capability d t h))
      ]
  step-absent d (revoking_binding b) t o h = revoking_binding-absent b d t h

  run-absent :
      (d : Pending) (es : List Event) (t : String)
      → All (IsOther t) es
      → Dict.get d t ≡ none
      → Dict.get (run l d es) t ≡ none
  unfolding run
  run-absent d [] t o h = h
  run-absent d (e ∷ es) t o h = run-absent (step l d e) es t o.1 (step-absent d e t o.0 h)

  -- What `consume` finds: nothing, or the text that was supplied.
  find-key :
      (now : ℕ) (capability : String) (d : Pending) (k : String)
      → (find_pending_registration_key l now capability d).1 ≡ some k
      → k ≡ l.strip capability
  unfolding find_pending_registration_key
  find-key now capability d k h = ground (arith, h)

  take-gone :
      (author name : String) (d : Pending) (k : String)
      → Dict.get (take_registration author name d k).0 k ≡ none
  unfolding take_registration
  take-gone author name d k = ground (arith, Dict.get-remove d k k, string_eq.equal_iff k k)

  refused :
      (now : ℕ) (capability author name : String) (d : Pending)
      → (l.strip capability ≡ "") ⊎ (Dict.get d (l.strip capability) ≡ none)
      → (consume_registration_capability l now capability author name d).1
        ≡ raise invalid_capability
  unfolding consume_registration_capability find_pending_registration_key
  refused now capability author name d h = ground (
    arith,
    h,
    prune_expired-absent now d (l.strip capability),
    string_eq.equal_iff (l.strip capability) "",
  )

  find-lost :
      (now : ℕ) (capability : String) (d : Pending)
      → (l.strip capability == "") ≡ false
      → (find_pending_registration_key l now capability d).1 ≡ none
      → Dict.get (find_pending_registration_key l now capability d).0 (l.strip capability) ≡ none
  unfolding find_pending_registration_key
  find-lost now capability d text lost = ground (arith, text, lost)

  -- The capability after it was presented.
  consume-gone :
      (now : ℕ) (capability author name : String) (d : Pending)
      → (l.strip capability ≡ "")
        ⊎ (Dict.get
              (consume_registration_capability l now capability author name d).0
              (l.strip capability)
            ≡ none)
  unfolding consume_registration_capability
  consume-gone now capability author name d =
      elim (Option-cases (find_pending_registration_key l now capability d).1) [
        | inl lost ↦ elim (Bool-cases (l.strip capability == "")) [
          | inl empty ↦ inl ((string_eq.equal_iff (l.strip capability) "").0 empty)
          | inr text ↦
              inr
                (rw (consume_registration_capability, lost) (find-lost now capability d text lost))
        ]
        | inr (k, found) ↦ inr (
            rw (consume_registration_capability, found)
              (subst
                (λ t.
                  Dict.get
                    (take_registration author name
                      (find_pending_registration_key l now capability d).0 k).0
                    t
                  ≡ none)
                (find-key now capability d k found)
                (take-gone author name (find_pending_registration_key l now capability d).0 k)))
      ]

  -- A capability is presented at most once. Whatever it was presented with, whether it was accepted or
  -- not, it is refused from then on, unless the same random token is drawn again.
  pub presented_once :
      (d : Pending) (now later : ℕ) (capability author name other_author other_name : String)
      (es : List Event)
      → All (IsOther (l.strip capability)) es
      → (consume_registration_capability l later capability other_author other_name
          (run l (consume_registration_capability l now capability author name d).0 es)).1
        ≡ raise invalid_capability
  presented_once d now later capability author name other_author other_name es o =
      let d' = (consume_registration_capability l now capability author name d).0 in
      refused later capability other_author other_name (run l d' es)
        (elim (consume-gone now capability author name d) [
          | inl empty ↦ inl empty
          | inr gone ↦ inr (run-absent d' es (l.strip capability) o gone)
        ])
