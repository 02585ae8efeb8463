-- ===== src/Box/Tenancy/Named.antt =====
-- The name of a session of box/tenancy.py and back.
use mathlib.Core.List.{append_assoc}
use langbot_plugin_sdk.Prelude.{
  ℕ, zero, suc, ◌≤◌, ◌≡◌, ◌≢◌, refl, sym, ap, ◌∙◌, inl, inr, true, none, some, Option-cases, [],
  ◌∷◌, ◌++◌, length, take, length-append, lstrip, rstrip, nat_eq, arith,
}
use langbot_plugin_sdk.Context.{ActionContext}
use langbot_plugin_sdk.Box.Tenancy.{
  Text, Library, is_id_char, dash_runs, box_namespace, box_runtime_namespace, safe_id,
  session_namespace_prefix, namespace_session_id, session_belongs_to_placement, logical_session_id,
}
use langbot_plugin_sdk.Box.Tenancy.Separate.{
  IsLibrary, every, is_digit, starts_with-append, drop-append,
}

abbrev IsId : Text → Type 0
IsId t = every is_id_char t ≡ true

IsId-append : (s t : Text) → IsId s → IsId t → IsId (s ++ t)
IsId-append [] t hs ht = ht
IsId-append (c ∷ s) t hs ht = ground (arith, hs, IsId-append s t (ground (arith, hs)) ht)

IsId-take : (n : ℕ) (t : Text) → IsId t → IsId (take n t)
IsId-take zero t h = refl
IsId-take (suc n) [] h = refl
IsId-take (suc n) (c ∷ t) h = ground (arith, h, IsId-take n t)

IsId-digits : (t : Text) → every is_digit t ≡ true → IsId t
IsId-digits [] h = refl
IsId-digits (c ∷ t) h = ground (arith, h, IsId-digits t)

IsId-dash_runs : (t : Text) → IsId (dash_runs t)
unfolding dash_runs
IsId-dash_runs [] = refl
IsId-dash_runs (c ∷ t) = ground (arith, IsId-dash_runs t)

IsId-lstrip : (c : ℕ) (t : Text) → IsId t → IsId (lstrip c t)
unfolding lstrip
IsId-lstrip c [] h = refl
IsId-lstrip c (d ∷ t) h = ground (arith, h, IsId-lstrip c t)

IsId-rstrip : (c : ℕ) (t : Text) → IsId t → IsId (rstrip c t)
unfolding rstrip
IsId-rstrip c [] h = refl
IsId-rstrip c (d ∷ t) h = ground (arith, h, IsId-rstrip c t)

module _ (l : Library) (v : IsLibrary l) where
  IsId-safe_id : (session_id id : Text) → safe_id l session_id ≡ some id → IsId id × (1 ≤ length id)
  unfolding safe_id
  IsId-safe_id session_id id h = ground (
    arith,
    h,
    IsId-rstrip b'-' (lstrip b'-' (dash_runs (l.strip session_id)))
        (IsId-lstrip b'-' (dash_runs (l.strip session_id)) (IsId-dash_runs (l.strip session_id))),
  )

  IsId-prefix : (c : ActionContext) → IsId (session_namespace_prefix l c)
  unfolding session_namespace_prefix box_runtime_namespace box_namespace
  IsId-prefix c =
      IsId-append (box_runtime_namespace l c) (b'-' ∷ [])
        (IsId-append (box_namespace l c) (b'-' ∷ b'g' ∷ l.decimal c.placement_generation)
          (IsId-take 24 (l.sha256 c.instance_uuid c.workspace_uuid)
            (v.sha256_chars c.instance_uuid c.workspace_uuid))
          (IsId-digits (l.decimal c.placement_generation)
            (v.decimal_digits c.placement_generation)))
        refl

  prefixed :
      (c : ActionContext) (id : Text)
      → IsId id
      → 1 ≤ length id
      → (logical_session_id l c (session_namespace_prefix l c ++ id) ≡ id)
        × (session_belongs_to_placement l c (session_namespace_prefix l c ++ id) ≡ true)
  unfolding logical_session_id session_belongs_to_placement
  prefixed c id h long =
      let prefix = session_namespace_prefix l c in
      let kept = v.strip_keeps (prefix ++ id) (IsId-append prefix id (IsId-prefix c) h) in
      (
        rw (logical_session_id, kept, starts_with-append prefix id) (drop-append prefix id),
        rw (session_belongs_to_placement, kept, starts_with-append prefix id)
            (ground (arith, long, length-append prefix id)),
      )

  named :
      (c : ActionContext) (session_id name : Text)
      → namespace_session_id l c session_id ≡ some name
      → (id : Text) × (safe_id l session_id ≡ some id) × (name ≡ session_namespace_prefix l c ++ id)
  unfolding namespace_session_id session_namespace_prefix
  named c session_id name h = elim (Option-cases (safe_id l session_id)) [
    | inl raised ↦ absurd (
        none-≢-some (
          sym (
            ap
              (λ o. elim o [
                | none ↦ none
                | some id ↦ some (box_runtime_namespace l c ++ b'-' ∷ id)
              ])
              raised)
          ∙ h))
    | inr (id, made) ↦ (
      id,
      made,
      some_inj (
            sym h
            ∙ ap
                (λ o. elim o [
                  | none ↦ none
                  | some id ↦ some (box_runtime_namespace l c ++ b'-' ∷ id)
                ])
                made)
          ∙ sym (append_assoc (box_runtime_namespace l c) (b'-' ∷ []) id),
    )
  ]
    where
      some_inj : {x y : Text} → some x ≡ some y → x ≡ y
      some_inj e = cc

      none-≢-some : {x : Text} → none ≢ some x
      none-≢-some e = cc

  -- The name that a placement gives a session belongs to the placement, and stands there for the
  -- session id that was asked for, with each run of other characters as one dash and no dash at its ends.
  pub logical-namespace :
      (c : ActionContext) (session_id name : Text)
      → namespace_session_id l c session_id ≡ some name
      → (safe_id l session_id ≡ some (logical_session_id l c name))
        × (session_belongs_to_placement l c name ≡ true)
  logical-namespace c session_id name h =
      let (id, made, e) = named c session_id name h in
      let (chars, long) = IsId-safe_id session_id id made in
      let (logical, belongs) = prefixed c id chars long in
      rw e (made ∙ ap some (sym logical), belongs)
