-- ===== src/Box/Sessions.antt =====
-- The sessions of box/runtime.py: every function is the code that holds `_lock` once. A session that
-- is being created is marked when it is published, which its task does before it leaves the
-- mark; a task that closes a session is named by the id. What the code reads of the managed processes
-- of a session is whether one runs. A time is a number of microseconds.
-- The tables are modelled, not the backend. A creation that is cancelled between the start of its
-- session in the backend and its publication, and a stop that fails, leave a session in the backend that
-- no table has; `init`, which may replace the backend and the limits, is no operation here.
pub mod System
pub mod Capacity
pub mod Separate
pub mod Reaped
mod Tests
use langbot_plugin_sdk.Prelude.{
  ℕ, ◌+◌, ◌-◌, String, Bool, true, false, ◌&&◌, ◌||◌, not, Option, none, some, is_some, List, [],
  ◌∷◌, length, leb, ltb, if◌then◌else◌, Result, ok, raise, ◌==◌, nat_eq, string_eq, pair_eq,
}
use langbot_plugin_sdk.Prelude.Dict
use langbot_plugin_sdk.Prelude.Dict.{Dict}
use langbot_plugin_sdk.Box.Admission.{Key}

-- `_RuntimeSession`, with what is read of its `info`
pub record RuntimeSession : Type 0 where
  pub workspace_key : Option Key
  pub persistent : Bool
  pub last_used_at : ℕ
  pub extra_mounts_key : String
  pub has_running_process : Bool

-- The fields of `BoxRuntime` that the sessions use.
pub record Sessions : Type 0 where
  pub sessions : Dict String RuntimeSession
  pub expirable_session_ids : List String
  pub session_ids_by_workspace : Dict Key (List String)
  pub active_exec_counts : Dict String ℕ
  pub session_leases : Dict String ℕ
  pub creating_session_tasks : Dict String Bool
  pub closing_session_tasks : Dict String RuntimeSession
  pub has_backend : Bool
  pub shutdown_in_progress : Bool
  pub max_sessions : ℕ
  pub session_ttl : ℕ

pub data SessionError : Type 0 where
  session_capacity_reached shutting_down : SessionError

-- `ids.discard(session_id)`
unfoldable pub discard : List String → String → List String
discard [] id = []
discard (i ∷ ids) id = let rest = discard ids id in if i == id then rest else i ∷ rest

abbrev pub contains_id : List String → String → Bool
contains_id [] id = false
contains_id (i ∷ ids) id = let rest = contains_id ids id in if i == id then true else rest

-- `counts.get(session_id, 0)`
abbrev pub count_of : Dict String ℕ → String → ℕ
count_of counts id = elim (Dict.get counts id) [ none ↦ 0 | some n ↦ n ]

-- A Workspace without sessions leaves the index.
abbrev pub without_session : Dict Key (List String) → Option Key → String → Dict Key (List String)
without_session index none id = index
without_session index (some key) id = elim (Dict.get index key) [
  | none ↦ index
  | some ids ↦ elim (discard ids id) [
    | [] ↦ Dict.remove index key
    | i ∷ rest ↦ Dict.set index key (i ∷ rest)
  ]
]

unfoldable pub drop_session : Sessions → String → Sessions
unfolding discard
drop_session s id =
    if Dict.contains s.closing_session_tasks id
    then s
    else let s' = record s {
      sessions = Dict.remove s.sessions id;
      expirable_session_ids = discard s.expirable_session_ids id;
      active_exec_counts = Dict.remove s.active_exec_counts id;
    } in
      elim (Dict.get s.sessions id) [
        | none ↦ s'
        | some session ↦ record s' {
          session_ids_by_workspace =
              without_session s.session_ids_by_workspace session.workspace_key id;
          closing_session_tasks =
              if s.has_backend
              then Dict.set s.closing_session_tasks id session
              else s.closing_session_tasks;
        }
      ]

-- A session of the index that nothing uses and that was last used before the deadline.
abbrev pub is_idle : ℕ → Sessions → String → RuntimeSession → Bool
is_idle now s id session =
    ltb (session.last_used_at + s.session_ttl) now
    && (leb (count_of s.active_exec_counts id) 0
        && (leb (count_of s.session_leases id) 0 && not session.has_running_process))

unfoldable pub expired_session_ids : ℕ → Sessions → List String → List String
expired_session_ids now s [] = []
expired_session_ids now s (id ∷ ids) =
    let rest = expired_session_ids now s ids in
    elim (Dict.get s.sessions id) [
      | none ↦ rest
      | some session ↦ if is_idle now s id session then id ∷ rest else rest
    ]

-- The ids of the index that have a session.
unfoldable pub known_session_ids : Sessions → List String → List String
known_session_ids s [] = []
known_session_ids s (id ∷ ids) =
    let rest = known_session_ids s ids in if Dict.contains s.sessions id then id ∷ rest else rest

unfoldable pub drop_all : Sessions → List String → Sessions
unfolding drop_session
drop_all s [] = s
drop_all s (id ∷ ids) = drop_all (drop_session s id) ids

-- `_reap_expired_sessions_locked`, without `_reap_completed_processes`
unfoldable pub reap_expired_sessions : ℕ → Sessions → Sessions
unfolding expired_session_ids known_session_ids drop_all
reap_expired_sessions now s =
    if s.session_ttl == 0
    then s
    else drop_all (record s { expirable_session_ids = known_session_ids s s.expirable_session_ids })
        (expired_session_ids now s s.expirable_session_ids)

-- The test of the capacity before a session is started.
unfoldable pub begin_creation : Sessions → String → Result SessionError Sessions
begin_creation s id =
    if leb s.max_sessions
      (length s.sessions + length s.creating_session_tasks + length s.closing_session_tasks)
    then raise session_capacity_reached
    else ok (record s { creating_session_tasks = Dict.set s.creating_session_tasks id false })

abbrev pub add_to_index : Dict Key (List String) → Option Key → String → Dict Key (List String)
add_to_index index none id = index
add_to_index index (some key) id = elim (Dict.get index key) [
  | none ↦ Dict.set index key (id ∷ [])
  | some ids ↦ Dict.set index key (if contains_id ids id then ids else id ∷ ids)
]

-- The session that was started is entered, unless the runtime shuts down.
unfoldable pub publish : Sessions → String → RuntimeSession → Bool → Result SessionError Sessions
publish s id session track_active_exec =
    let creating = Dict.set s.creating_session_tasks id true in
    if s.shutdown_in_progress
    then raise shutting_down
    else ok (record s {
      sessions = Dict.set s.sessions id session;
      expirable_session_ids =
          if session.persistent || contains_id s.expirable_session_ids id
          then s.expirable_session_ids
          else id ∷ s.expirable_session_ids;
      session_ids_by_workspace = add_to_index s.session_ids_by_workspace session.workspace_key id;
      active_exec_counts =
          if track_active_exec
          then Dict.set s.active_exec_counts id (count_of s.active_exec_counts id + 1)
          else s.active_exec_counts;
      creating_session_tasks = creating;
    })

-- The `finally` of a creation.
unfoldable pub end_creation : Sessions → String → Sessions
end_creation s id = record s { creating_session_tasks = Dict.remove s.creating_session_tasks id }

-- An existing session is held while its backend is asked whether it lives.
unfoldable pub hold_session : Sessions → String → Sessions
hold_session s id = record s {
  session_leases = Dict.set s.session_leases id (count_of s.session_leases id + 1);
}

unfoldable pub release_session : Sessions → String → Sessions
release_session s id =
    let remaining = count_of s.session_leases id - 1 in
    record s {
      session_leases =
          if leb remaining 0
          then Dict.remove s.session_leases id
          else Dict.set s.session_leases id remaining;
    }

-- A session that lives is used again.
unfoldable pub reuse_session : ℕ → Sessions → String → RuntimeSession → Bool → Sessions
reuse_session now s id session track_active_exec = record s {
  sessions = Dict.set s.sessions id (record session { last_used_at = now });
  active_exec_counts =
      if track_active_exec
      then Dict.set s.active_exec_counts id (count_of s.active_exec_counts id + 1)
      else s.active_exec_counts;
}

-- An execution has ended: the session was used now.
unfoldable pub mark_used : ℕ → Sessions → String → Sessions
mark_used now s id =
    let remaining = count_of s.active_exec_counts id - 1 in
    record s {
      sessions = elim (Dict.get s.sessions id) [
        | none ↦ s.sessions
        | some session ↦ Dict.set s.sessions id (record session { last_used_at = now })
      ];
      active_exec_counts =
          if ltb 0 remaining
          then Dict.set s.active_exec_counts id remaining
          else Dict.remove s.active_exec_counts id;
    }

-- The `finally` of `execute`.
unfoldable pub end_execution : ℕ → Sessions → String → Bool → Sessions
unfolding mark_used drop_session
end_execution now s id timed_out =
    if timed_out then drop_session (mark_used now s id) id else mark_used now s id

-- The `finally` of `_cleanup_session_resources`.
unfoldable pub end_cleanup : Sessions → String → Sessions
end_cleanup s id = record s { closing_session_tasks = Dict.remove s.closing_session_tasks id }
