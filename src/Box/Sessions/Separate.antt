-- ===== src/Box/Sessions/Separate.antt =====
-- The tables of the sandbox sessions of box/runtime.py: no session is in two of them, and what a drop
-- and a reaping leave.
use mathlib.Core.Path.{subst}
use langbot_plugin_sdk.Prelude.{
  sym, ℕ, ◌+◌, ◌≡◌, ◌⊎◌, ◌∙◌, refl, inl, inr, String, Bool, true, false, ◌&&◌, not, Option, none,
  some, List, [], ◌∷◌, arith, ltb, if◌then◌else◌, Bool-cases, Option-cases, ◌==◌, string_eq, nat_eq,
}
use langbot_plugin_sdk.Prelude.Dict
use langbot_plugin_sdk.Prelude.Dict.{Dict, get-set, get-remove}
use langbot_plugin_sdk.Box.Sessions.{
  RuntimeSession, Sessions, contains_id, is_idle, drop_session, drop_all, reap_expired_sessions,
  expired_session_ids, known_session_ids, count_of,
}

-- A session that is being closed is not in the table, and one that is being created is in neither.
pub record IsSeparate (s : Sessions) : Type 0 where
  pub closed :
      (id : String) (c : RuntimeSession)
      → Dict.get s.closing_session_tasks id ≡ some c
      → Dict.get s.sessions id ≡ none
  pub uncreated :
      (id : String)
      → Dict.get s.creating_session_tasks id ≡ some false
      → (Dict.get s.sessions id ≡ none) × (Dict.get s.closing_session_tasks id ≡ none)

drop_get :
    (s : Sessions) (id j : String)
    → IsSeparate s
    → Dict.get (drop_session s id).sessions j ≡ (if id == j then none else Dict.get s.sessions j)
unfolding drop_session
drop_get s id j v = elim (Option-cases (Dict.get s.closing_session_tasks id)) [
  | inr (c, closing) ↦ ground (arith, closing, v.closed id c closing, string_eq.equal_iff id j)
  | inl opened ↦ elim (Option-cases (Dict.get s.sessions id)) [
    | inl absent ↦ ground (arith, opened, absent, get-remove s.sessions id j)
    | inr (session, there) ↦ ground (arith, opened, there, get-remove s.sessions id j)
  ]
]

drop_closing :
    (s : Sessions) (id j : String) (c : RuntimeSession)
    → Dict.get (drop_session s id).closing_session_tasks j ≡ some c
    → (Dict.get s.closing_session_tasks j ≡ some c)
      ⊎ ((id ≡ j) × ((session : RuntimeSession) × (Dict.get s.sessions id ≡ some session)))
unfolding drop_session
drop_closing s id j c h = elim (Option-cases (Dict.get s.closing_session_tasks id)) [
  | inr (d, closing) ↦ inl (ground (arith, h, closing))
  | inl opened ↦ elim (Option-cases (Dict.get s.sessions id)) [
    | inl absent ↦ inl (ground (arith, h, opened, absent))
    | inr (session, there) ↦ elim (Bool-cases (id == j)) [
      | inl same ↦ inr ((string_eq.equal_iff id j).0 same, (session, there))
      | inr other ↦
          inl
            (ground (arith, h, opened, there, other, get-set s.closing_session_tasks id session j))
    ]
  ]
]

drop_creating :
    (s : Sessions) (id : String)
    → (drop_session s id).creating_session_tasks ≡ s.creating_session_tasks
unfolding drop_session
drop_creating s id = ground arith

pub drop-IsSeparate : (s : Sessions) (id : String) → IsSeparate s → IsSeparate (drop_session s id)
drop-IsSeparate s id v = record {
  closed = λ j c h. elim (drop_closing s id j c h) [
    | inl before ↦ ground (arith, drop_get s id j v, v.closed j c before)
    | inr (same, (session, there)) ↦
        ground (arith, drop_get s id j v, string_eq.equal_iff id j, same)
  ];
  uncreated = λ j h.
      let (absent, opened) = v.uncreated j (ground (arith, h, drop_creating s id)) in
      (
        ground (arith, drop_get s id j v, absent),
        elim (Option-cases (Dict.get (drop_session s id).closing_session_tasks j)) [
          | inl gone ↦ gone
          | inr (c, now) ↦ elim (drop_closing s id j c now) [
            | inl before ↦ ground (arith, before, opened)
            | inr (same, (session, there)) ↦
                let there' = rw same at there in ground (arith, there', absent)
          ]
        ],
      );
}

drop_all-get :
    (s : Sessions) (ids : List String) (j : String)
    → IsSeparate s
    → IsSeparate (drop_all s ids)
      × (Dict.get (drop_all s ids).sessions j
          ≡ (if contains_id ids j then none else Dict.get s.sessions j))
unfolding drop_all
drop_all-get s [] j v = (v, refl)
drop_all-get s (id ∷ ids) j v =
    let (w, e) = drop_all-get (drop_session s id) ids j (drop-IsSeparate s id v) in
    (w, ground (arith, e, drop_get s id j v))

-- Whether the reaping takes the session of `id`.
unfoldable pub is_reaped : ℕ → Sessions → String → RuntimeSession → Bool
is_reaped now s id session =
    not (s.session_ttl == 0)
    && (contains_id s.expirable_session_ids id
        && (ltb (session.last_used_at + s.session_ttl) now
            && (count_of s.active_exec_counts id == 0
                && (count_of s.session_leases id == 0 && not session.has_running_process))))

expired_lem :
    (now : ℕ) (s : Sessions) (ids : List String) (j : String) (session : RuntimeSession)
    → Dict.get s.sessions j ≡ some session
    → contains_id (expired_session_ids now s ids) j ≡ (contains_id ids j && is_idle now s j session)
unfolding expired_session_ids
expired_lem now s [] j session there = refl
expired_lem now s (id ∷ ids) j session there =
    let ih = expired_lem now s ids j session there in
    elim (Bool-cases (id == j)) [
      | inl same ↦
          let named = (string_eq.equal_iff id j).0 same in
          let at : Dict.get s.sessions id ≡ some session =
            subst (λ x. Dict.get s.sessions x ≡ some session) (sym named) there in
          elim (Bool-cases (is_idle now s id session)) [
            | inl idle ↦
                let idle' = subst (λ x. is_idle now s x session ≡ true) named idle in
                rw (expired_session_ids, at, idle, same, idle') refl
            | inr busy ↦
                let busy' = subst (λ x. is_idle now s x session ≡ false) named busy in
                rw (expired_session_ids, at, busy, same, busy') (ground (arith, ih, busy'))
          ]
      | inr other ↦ elim (Option-cases (Dict.get s.sessions id)) [
        | inl absent ↦ rw (expired_session_ids, absent, other) ih
        | inr (found, at) ↦ elim (Bool-cases (is_idle now s id found)) [
          | inl idle ↦ rw (expired_session_ids, at, idle, other) ih
          | inr busy ↦ rw (expired_session_ids, at, busy, other) ih
        ]
      ]
    ]

expired_absent :
    (now : ℕ) (s : Sessions) (ids : List String) (j : String)
    → Dict.get s.sessions j ≡ none
    → (if contains_id (expired_session_ids now s ids) j then none else Dict.get s.sessions j) ≡ none
expired_absent now s ids j absent =
    elim (Bool-cases (contains_id (expired_session_ids now s ids) j)) [
      | inl yes_there ↦ rw yes_there refl
      | inr not_there ↦ rw not_there absent
    ]

-- What the reaping is to leave of the session of `id`.
unfoldable pub remaining : ℕ → Sessions → String → Option RuntimeSession
remaining now s id = elim (Dict.get s.sessions id) [
  | none ↦ none
  | some session ↦ if is_reaped now s id session then none else some session
]

pub reap_get :
    (now : ℕ) (s : Sessions) (id : String)
    → IsSeparate s
    → IsSeparate (reap_expired_sessions now s)
      × (Dict.get (reap_expired_sessions now s).sessions id ≡ remaining now s id)
unfolding reap_expired_sessions remaining is_reaped
reap_get now s id v = elim (Bool-cases (s.session_ttl == 0)) [
  | inl off ↦
      rw (reap_expired_sessions, off)
        (
          v,
          elim (Option-cases (Dict.get s.sessions id)) [
            | inl absent ↦ rw (remaining, absent) refl
            | inr (session, there) ↦
                let kept : is_reaped now s id session ≡ false = ground (arith, off) in
                rw (remaining, there, kept) refl
          ],
        )
  | inr on ↦
      let s' = record s { expirable_session_ids = known_session_ids s s.expirable_session_ids } in
      let v' : IsSeparate s' = record { closed = v.closed; uncreated = v.uncreated } in
      let (w, e) = drop_all-get s' (expired_session_ids now s s.expirable_session_ids) id v' in
      rw (reap_expired_sessions, on)
        (
          w,
          elim (Option-cases (Dict.get s.sessions id)) [
            | inl absent ↦
                rw (remaining, absent) (e ∙ expired_absent now s s.expirable_session_ids id absent)
            | inr (session, there) ↦
                let x = expired_lem now s s.expirable_session_ids id session there in
                rw (remaining, there) (ground (arith, e, x, there))
          ],
        )
]
