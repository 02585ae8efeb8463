-- ===== src/Box/Sessions/Reaped.antt =====
-- The tables of the sandbox sessions of box/runtime.py over every interleaving, and what a reaping
-- leaves.
use langbot_plugin_sdk.Prelude.{
  ℕ, ◌≡◌, refl, inl, inr, String, Bool, true, false, none, some, arith, ok, Bool-cases,
  Option-cases, ◌==◌, string_eq, nat_eq,
}
use langbot_plugin_sdk.Prelude.Dict
use langbot_plugin_sdk.Prelude.Dict.{Dict, get-set, get-remove}
use langbot_plugin_sdk.Box.Sessions.{
  RuntimeSession, Sessions, reap_expired_sessions, begin_creation, publish, end_creation,
  hold_session, release_session, reuse_session, mark_used, end_execution, end_cleanup,
}
use langbot_plugin_sdk.Box.Sessions.System.{
  Step, begin_creation_step, publish_step, end_creation_step, hold_step, release_step, reuse_step,
  end_execution_step, drop_step, reap_step, end_cleanup_step, shutdown_step, Reach, begin, next,
}
use langbot_plugin_sdk.Box.Sessions.Separate.{IsSeparate, drop-IsSeparate, remaining, reap_get}

-- A step that writes no session that is not there, and leaves the tasks.
same_tables :
    (s s' : Sessions)
    → IsSeparate s
    → ((id : String) → Dict.get s.sessions id ≡ none → Dict.get s'.sessions id ≡ none)
    → s'.creating_session_tasks ≡ s.creating_session_tasks
    → s'.closing_session_tasks ≡ s.closing_session_tasks
    → IsSeparate s'
same_tables s s' v still creating closing = record {
  closed = λ id c h. still id (v.closed id c (rw closing at h));
  uncreated = λ id h.
      let (absent, opened) = v.uncreated id (rw creating at h) in
      (still id absent, rw closing opened);
}

mark_used-IsSeparate :
    (now : ℕ) (s : Sessions) (id : String) → IsSeparate s → IsSeparate (mark_used now s id)
unfolding mark_used
mark_used-IsSeparate now s id v = same_tables s (mark_used now s id) v still refl refl
  where
    still :
        (j : String)
        → Dict.get s.sessions j ≡ none
        → Dict.get (mark_used now s id).sessions j ≡ none
    still j absent = elim (Option-cases (Dict.get s.sessions id)) [
      | inl gone ↦ rw (mark_used, gone) absent
      | inr (session, there) ↦ ground (
        arith,
        there,
        absent,
        string_eq.equal_iff id j,
        get-set s.sessions id (record session { last_used_at = now }) j,
      )
    ]

begin-IsSeparate :
    (s : Sessions) (id : String) {s' : Sessions}
    → IsSeparate s
    → Dict.get s.sessions id ≡ none
    → Dict.get s.closing_session_tasks id ≡ none
    → begin_creation s id ≡ ok s'
    → IsSeparate s'
unfolding begin_creation
begin-IsSeparate s id {s'} v absent opened e =
    let sessions : s'.sessions ≡ s.sessions = ground (arith, e) in
    let closing : s'.closing_session_tasks ≡ s.closing_session_tasks = ground (arith, e) in
    let tasks : s'.creating_session_tasks ≡ Dict.set s.creating_session_tasks id false =
      ground (arith, e) in
    record {
      closed = λ j c h. rw sessions (v.closed j c (rw closing at h));
      uncreated = λ j h. elim (Bool-cases (id == j)) [
        | inl same ↦ (
          ground (arith, sessions, absent, same, string_eq.equal_iff id j),
          ground (arith, closing, opened, same, string_eq.equal_iff id j),
        )
        | inr other ↦
            let before : Dict.get s.creating_session_tasks j ≡ some false =
              ground (arith, rw tasks at h, other, get-set s.creating_session_tasks id false j) in
            let (a, o) = v.uncreated j before in (rw sessions a, rw closing o)
      ];
    }

publish-IsSeparate :
    (s : Sessions) (id : String) (session : RuntimeSession) (track : Bool) {s' : Sessions}
    → IsSeparate s
    → Dict.get s.creating_session_tasks id ≡ some false
    → publish s id session track ≡ ok s'
    → IsSeparate s'
unfolding publish
publish-IsSeparate s id session track {s'} v creating e =
    let sessions : s'.sessions ≡ Dict.set s.sessions id session = ground (arith, e) in
    let closing : s'.closing_session_tasks ≡ s.closing_session_tasks = ground (arith, e) in
    let tasks : s'.creating_session_tasks ≡ Dict.set s.creating_session_tasks id true =
      ground (arith, e) in
    let (_, opened) = v.uncreated id creating in
    record {
      closed = λ j c h.
          let h' = rw closing at h in
          ground (
            arith,
            sessions,
            v.closed j c h',
            h',
            opened,
            string_eq.equal_iff id j,
            get-set s.sessions id session j,
          );
      uncreated = λ j h.
          let h' = rw tasks at h in
          let other : (id == j) ≡ false =
            ground (arith, h', get-set s.creating_session_tasks id true j) in
          let before : Dict.get s.creating_session_tasks j ≡ some false =
            ground (arith, h', other, get-set s.creating_session_tasks id true j) in
          let (a, o) = v.uncreated j before in
          (ground (arith, sessions, a, other, get-set s.sessions id session j), rw closing o);
    }

step-IsSeparate : {s s' : Sessions} → IsSeparate s → Step s s' → IsSeparate s'
unfolding end_creation hold_session release_session reuse_session end_cleanup end_execution
step-IsSeparate {s} v (begin_creation_step id idle stopped e) =
    begin-IsSeparate s id v idle stopped e
step-IsSeparate {s} v (publish_step id session track creating e) =
    publish-IsSeparate s id session track v creating e
step-IsSeparate {s} v (end_creation_step id) = record {
  closed = v.closed;
  uncreated = λ j h. v.uncreated j (ground (arith, h, get-remove s.creating_session_tasks id j));
}
step-IsSeparate v (hold_step id) = record { closed = v.closed; uncreated = v.uncreated }
step-IsSeparate v (release_step id) = record { closed = v.closed; uncreated = v.uncreated }
step-IsSeparate {s} v (reuse_step now id session track there) =
    same_tables s (reuse_session now s id session track) v
      (λ j absent. ground (
        arith,
        there,
        absent,
        string_eq.equal_iff id j,
        get-set s.sessions id (record session { last_used_at = now }) j,
      ))
      refl refl
step-IsSeparate {s} v (end_execution_step now id true) =
    drop-IsSeparate (mark_used now s id) id (mark_used-IsSeparate now s id v)
step-IsSeparate {s} v (end_execution_step now id false) = mark_used-IsSeparate now s id v
step-IsSeparate {s} v (drop_step id) = drop-IsSeparate s id v
step-IsSeparate {s} v (reap_step now) = (reap_get now s "" v).0
step-IsSeparate {s} v (end_cleanup_step id) = record {
  closed = λ j c h. v.closed j c (ground (arith, h, get-remove s.closing_session_tasks id j));
  uncreated = λ j h.
      let (absent, opened) = v.uncreated j h in
      (absent, ground (arith, opened, get-remove s.closing_session_tasks id j));
}
step-IsSeparate v (shutdown_step flag) = record { closed = v.closed; uncreated = v.uncreated }

Reach-IsSeparate : (n ttl : ℕ) {s : Sessions} → Reach n ttl s → IsSeparate s
unfolding Dict.get
Reach-IsSeparate n ttl begin = record { closed = λ id c h. refl; uncreated = λ id h. (refl, refl) }
Reach-IsSeparate n ttl (next before step) = step-IsSeparate (Reach-IsSeparate n ttl before) step

-- In every interleaving the reaping of expired sessions removes exactly the sessions that may
-- expire, were last used before the deadline and have no execution, no holder and no running
-- process; every other session stays as it is.
pub sessions_reaped :
    (max_sessions session_ttl now : ℕ) {s : Sessions}
    → Reach max_sessions session_ttl s
    → (id : String) → Dict.get (reap_expired_sessions now s).sessions id ≡ remaining now s id
sessions_reaped n ttl now {s} reached id = (reap_get now s id (Reach-IsSeparate n ttl reached)).1
