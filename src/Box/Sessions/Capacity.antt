-- ===== src/Box/Sessions/Capacity.antt =====
-- The number of sandbox sessions that box/runtime.py keeps track of, over every interleaving.
use langbot_plugin_sdk.Prelude.{
  ℕ, suc, ◌+◌, ◌≤◌, ◌≡◌, refl, inl, inr, String, Bool, true, false, Option, none, some, List, [],
  ◌∷◌, arith, ok, length, if◌then◌else◌, Bool-cases, Option-cases, ◌==◌, string_eq, nat_eq,
}
use langbot_plugin_sdk.Prelude.Dict
use langbot_plugin_sdk.Prelude.Dict.{Dict, length-set, length-remove-le, length-remove_present}
use langbot_plugin_sdk.Box.Sessions.{
  RuntimeSession, Sessions, drop_session, drop_all, reap_expired_sessions, expired_session_ids,
  known_session_ids, begin_creation, publish, end_creation, hold_session, release_session,
  reuse_session, mark_used, end_execution, end_cleanup,
}
use langbot_plugin_sdk.Box.Sessions.System.{
  Step, begin_creation_step, publish_step, end_creation_step, hold_step, release_step, reuse_step,
  end_execution_step, drop_step, reap_step, end_cleanup_step, shutdown_step, Reach, begin, next,
}

-- What a creation counts: one until it has published its session.
abbrev pending : Option Bool → ℕ
pending none = 0
pending (some published) = if published then 0 else 1

-- The creations that have not published.
pub unpublished : Dict String Bool → ℕ
unpublished [] = 0
unpublished ((id, published) ∷ tasks) = pending (some published) + unpublished tasks

unpublished-set :
    (d : Dict String Bool) (id : String) (b : Bool)
    → unpublished (Dict.set d id b) + pending (Dict.get d id) ≡ unpublished d + pending (some b)
unfolding unpublished Dict.set Dict.get
unpublished-set [] id b = omega arith
unpublished-set ((j, c) ∷ d) id b = elim (Bool-cases (j == id)) [
  | inl same ↦ rw same (omega arith)
  | inr other ↦ let ih = unpublished-set d id b in rw other (omega arith)
]

unpublished-remove :
    (d : Dict String Bool) (id : String) → unpublished (Dict.remove d id) ≤ unpublished d
unfolding unpublished Dict.remove
unpublished-remove [] id = omega arith
unpublished-remove ((j, c) ∷ d) id = elim (Bool-cases (j == id)) [
  | inl same ↦ let ih = unpublished-remove d id in rw same (omega arith)
  | inr other ↦ let ih = unpublished-remove d id in rw other (omega arith)
]

unpublished_le_length : (d : Dict String Bool) → unpublished d ≤ length d
unfolding unpublished
unpublished_le_length [] = omega arith
unpublished_le_length ((j, true) ∷ d) = let ih = unpublished_le_length d in omega arith
unpublished_le_length ((j, false) ∷ d) = let ih = unpublished_le_length d in omega arith

-- The sessions that are entered, the creations that have not published theirs, and the sessions that
-- are being closed.
pub tracked : Sessions → ℕ
tracked s =
    length s.sessions + unpublished s.creating_session_tasks + length s.closing_session_tasks

-- A step within the capacity that starts no session.
record IsNoMore (s s' : Sessions) : Type 0 where
  fewer : tracked s' ≤ tracked s
  limit : s'.max_sessions ≡ s.max_sessions

length-set-le :
    {V : Type 0} (d : Dict String V) (id : String) (v : V)
    → length (Dict.set d id v) ≤ suc (length d)
length-set-le d id v = ground (arith, length-set d id v)

length-set_present :
    {V : Type 0} (d : Dict String V) (id : String) (v : V) {w : V}
    → Dict.get d id ≡ some w
    → length (Dict.set d id v) ≡ length d
length-set_present d id v h = ground (arith, length-set d id v, h)

drop-IsNoMore : (s : Sessions) (id : String) → IsNoMore s (drop_session s id)
unfolding drop_session tracked
drop-IsNoMore s id = elim (Bool-cases (Dict.contains s.closing_session_tasks id)) [
  | inl closing ↦ rw (drop_session, closing) (record { fewer = omega arith; limit = refl })
  | inr opened ↦ elim (Option-cases (Dict.get s.sessions id)) [
    | inl absent ↦
        let less = length-remove-le s.sessions id in
        rw (drop_session, opened, absent) (record { fewer = omega arith; limit = refl })
    | inr (session, there) ↦
        let less = length-remove_present s.sessions id there in
        let more = length-set-le s.closing_session_tasks id session in
        elim (Bool-cases s.has_backend) [
          | inl with_one ↦
              rw (drop_session, opened, there, with_one)
                (record { fewer = omega arith; limit = refl })
          | inr without ↦
              rw (drop_session, opened, there, without)
                (record { fewer = omega arith; limit = refl })
        ]
  ]
]

IsNoMore-trans : {s t u : Sessions} → IsNoMore s t → IsNoMore t u → IsNoMore s u
IsNoMore-trans a b =
    let fewer = a.fewer in
    let fewer' = b.fewer in
    let limit = a.limit in
    let limit' = b.limit in record { fewer = omega arith; limit = omega arith }

drop_all-IsNoMore : (s : Sessions) (ids : List String) → IsNoMore s (drop_all s ids)
unfolding drop_all
drop_all-IsNoMore s [] = record { fewer = omega arith; limit = refl }
drop_all-IsNoMore s (id ∷ ids) =
    IsNoMore-trans (drop-IsNoMore s id) (drop_all-IsNoMore (drop_session s id) ids)

-- What a runtime of the capacity `n` keeps.
record IsWithin (n : ℕ) (s : Sessions) : Type 0 where
  room : tracked s ≤ n
  limit : s.max_sessions ≡ n

no_more : (n : ℕ) {s s' : Sessions} → IsNoMore s s' → IsWithin n s → IsWithin n s'
no_more n m w =
    let fewer = m.fewer in
    let limit = m.limit in
    let room = w.room in let limit' = w.limit in record { room = omega arith; limit = omega arith }

publish-IsWithin :
    (n : ℕ) (s : Sessions) (id : String) (session : RuntimeSession) (track : Bool) {s' : Sessions}
    → IsWithin n s
    → Dict.get s.creating_session_tasks id ≡ some false
    → publish s id session track ≡ ok s'
    → IsWithin n s'
unfolding publish tracked
publish-IsWithin n s id session track {s'} w creating e =
    let room = w.room in
    let limit = w.limit in
    let more = length-set-le s.sessions id session in
    let counted = unpublished-set s.creating_session_tasks id true in
    let counted' = rw creating at counted in
    let sessions : s'.sessions ≡ Dict.set s.sessions id session = ground (arith, e) in
    let tasks : s'.creating_session_tasks ≡ Dict.set s.creating_session_tasks id true =
      ground (arith, e) in
    let closing : s'.closing_session_tasks ≡ s.closing_session_tasks = ground (arith, e) in
    let same : s'.max_sessions ≡ s.max_sessions = ground (arith, e) in
    record { room = rw (sessions, tasks, closing) (omega arith); limit = omega arith }

begin-IsWithin :
    (n : ℕ) (s : Sessions) (id : String) {s' : Sessions}
    → IsWithin n s
    → begin_creation s id ≡ ok s'
    → IsWithin n s'
unfolding begin_creation tracked
begin-IsWithin n s id {s'} w e =
    let limit = w.limit in
    let tasks : s'.creating_session_tasks ≡ Dict.set s.creating_session_tasks id false =
      ground (arith, e) in
    let sessions : s'.sessions ≡ s.sessions = ground (arith, e) in
    let closing : s'.closing_session_tasks ≡ s.closing_session_tasks = ground (arith, e) in
    let same : s'.max_sessions ≡ s.max_sessions = ground (arith, e) in
    let free : suc
          (length s.sessions + length s.creating_session_tasks + length s.closing_session_tasks)
        ≤ s.max_sessions =
      ground (arith, e) in
    let counted = unpublished-set s.creating_session_tasks id false in
    let bound = unpublished_le_length s.creating_session_tasks in
    record { room = rw (sessions, tasks, closing) (omega arith); limit = omega arith }

reap-IsNoMore : (now : ℕ) (s : Sessions) → IsNoMore s (reap_expired_sessions now s)
unfolding reap_expired_sessions tracked
reap-IsNoMore now s = elim (Bool-cases (s.session_ttl == 0)) [
  | inl off ↦ rw (reap_expired_sessions, off) (record { fewer = omega arith; limit = refl })
  | inr on ↦
      let s' = record s { expirable_session_ids = known_session_ids s s.expirable_session_ids } in
      let dropped = drop_all-IsNoMore s' (expired_session_ids now s s.expirable_session_ids) in
      rw (reap_expired_sessions, on) (record { fewer = dropped.fewer; limit = dropped.limit })
]

mark_used-IsNoMore : (now : ℕ) (s : Sessions) (id : String) → IsNoMore s (mark_used now s id)
unfolding mark_used tracked
mark_used-IsNoMore now s id = elim (Option-cases (Dict.get s.sessions id)) [
  | inl absent ↦ rw (mark_used, absent) (record { fewer = omega arith; limit = refl })
  | inr (session, there) ↦
      let same = length-set_present s.sessions id (record session { last_used_at = now }) there in
      rw (mark_used, there) (record { fewer = omega arith; limit = refl })
]

end_execution-IsNoMore :
    (now : ℕ) (s : Sessions) (id : String) (timed_out : Bool)
    → IsNoMore s (end_execution now s id timed_out)
unfolding end_execution
end_execution-IsNoMore now s id false = mark_used-IsNoMore now s id
end_execution-IsNoMore now s id true =
    IsNoMore-trans (mark_used-IsNoMore now s id) (drop-IsNoMore (mark_used now s id) id)

step-IsWithin : (n : ℕ) {s s' : Sessions} → IsWithin n s → Step s s' → IsWithin n s'
unfolding tracked end_creation hold_session release_session reuse_session end_cleanup
step-IsWithin n {s} w (begin_creation_step id idle stopped e) = begin-IsWithin n s id w e
step-IsWithin n {s} w (publish_step id session track creating e) =
    publish-IsWithin n s id session track w creating e
step-IsWithin n {s} w (end_creation_step id) =
    let less = unpublished-remove s.creating_session_tasks id in
    let room = w.room in record { room = omega arith; limit = w.limit }
step-IsWithin n w (hold_step id) = record { room = w.room; limit = w.limit }
step-IsWithin n w (release_step id) = record { room = w.room; limit = w.limit }
step-IsWithin n {s} w (reuse_step now id session track there) =
    let same = length-set_present s.sessions id (record session { last_used_at = now }) there in
    let room = w.room in record { room = omega arith; limit = w.limit }
step-IsWithin n {s} w (end_execution_step now id timed_out) =
    no_more n (end_execution-IsNoMore now s id timed_out) w
step-IsWithin n {s} w (drop_step id) = no_more n (drop-IsNoMore s id) w
step-IsWithin n {s} w (reap_step now) = no_more n (reap-IsNoMore now s) w
step-IsWithin n {s} w (end_cleanup_step id) =
    let less = length-remove-le s.closing_session_tasks id in
    let room = w.room in record { room = omega arith; limit = w.limit }
step-IsWithin n w (shutdown_step flag) = record { room = w.room; limit = w.limit }

Reach-IsWithin : (n ttl : ℕ) {s : Sessions} → Reach n ttl s → IsWithin n s
unfolding tracked unpublished
Reach-IsWithin n ttl begin = record { room = omega arith; limit = refl }
Reach-IsWithin n ttl (next before step) = step-IsWithin n (Reach-IsWithin n ttl before) step

-- From a runtime without sessions whose limits are not set anew, in every interleaving of the tasks that
-- create, use, reap and delete sessions: the sessions that are entered, the creations that have not published theirs and the
-- sessions that are being closed are at most `max_sessions` together. A session of the backend that the
-- runtime has forgotten is not counted.
pub sessions_bounded :
    (max_sessions session_ttl : ℕ) {s : Sessions}
    → Reach max_sessions session_ttl s
    → tracked s ≤ max_sessions
sessions_bounded n ttl reached = let w = Reach-IsWithin n ttl reached in w.room
