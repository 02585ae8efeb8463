-- ===== src/Box/Sessions/System.antt =====
-- Every interleaving of the tasks that use the sessions of box/runtime.py: a step is the code of one
-- task that holds `_lock` once.
use langbot_plugin_sdk.Prelude.{ℕ, String, ◌≡◌, Bool, true, false, none, some, ok, [], string_eq}
use langbot_plugin_sdk.Prelude.Dict
use langbot_plugin_sdk.Box.Sessions.{
  RuntimeSession, Sessions, drop_session, reap_expired_sessions, begin_creation, publish,
  end_creation, hold_session, release_session, reuse_session, end_execution, end_cleanup,
}

-- The lock of a session id lets one task at a time create or delete its session: a creation begins
-- where the task has seen neither a session nor its closing, and only the creation publishes.
pub data Step (s : Sessions) : Sessions → Type 0 where
  begin_creation_step :
      (id : String) {s' : Sessions}
      → Dict.get s.sessions id ≡ none
      → Dict.get s.closing_session_tasks id ≡ none
      → begin_creation s id ≡ ok s'
      → Step s s'
  publish_step :
      (id : String) (session : RuntimeSession) (track_active_exec : Bool) {s' : Sessions}
      → Dict.get s.creating_session_tasks id ≡ some false
      → publish s id session track_active_exec ≡ ok s'
      → Step s s'
  end_creation_step : (id : String) → Step s (end_creation s id)
  hold_step : (id : String) → Step s (hold_session s id)
  release_step : (id : String) → Step s (release_session s id)
  reuse_step :
      (now : ℕ) (id : String) (session : RuntimeSession) (track_active_exec : Bool)
      → Dict.get s.sessions id ≡ some session
      → Step s (reuse_session now s id session track_active_exec)
  end_execution_step :
      (now : ℕ) (id : String) (timed_out : Bool) → Step s (end_execution now s id timed_out)
  drop_step : (id : String) → Step s (drop_session s id)
  reap_step : (now : ℕ) → Step s (reap_expired_sessions now s)
  end_cleanup_step : (id : String) → Step s (end_cleanup s id)
  shutdown_step : (flag : Bool) → Step s (record s { shutdown_in_progress = flag })

-- A runtime without sessions.
abbrev pub new : ℕ → ℕ → Sessions
new max_sessions session_ttl = record {
  sessions = [];
  expirable_session_ids = [];
  session_ids_by_workspace = [];
  active_exec_counts = [];
  session_leases = [];
  creating_session_tasks = [];
  closing_session_tasks = [];
  has_backend = true;
  shutdown_in_progress = false;
  max_sessions = max_sessions;
  session_ttl = session_ttl;
}

pub data Reach (max_sessions session_ttl : ℕ) : Sessions → Type 0 where
  begin : Reach max_sessions session_ttl (new max_sessions session_ttl)
  next :
      {s s' : Sessions}
      → Reach max_sessions session_ttl s
      → Step s s'
      → Reach max_sessions session_ttl s'
