-- ===== src/Box/Sessions/Tests.antt =====
-- Runs of the model of the sessions of box/runtime.py at concrete inputs.
use langbot_plugin_sdk.Prelude.{
  ◌≤◌, ◌≡◌, refl, true, false, none, some, [], ◌∷◌, ok, raise, string_eq, pair_eq,
}
use langbot_plugin_sdk.Prelude.Dict
use langbot_plugin_sdk.Box.Sessions.{
  RuntimeSession, Sessions, session_capacity_reached, discard, drop_session, expired_session_ids,
  known_session_ids, drop_all, reap_expired_sessions, begin_creation, publish, end_creation,
  hold_session, release_session, mark_used, end_execution, end_cleanup,
}
use langbot_plugin_sdk.Box.Sessions.System.{
  begin_creation_step, publish_step, end_creation_step, new, Reach, begin, next,
}
use langbot_plugin_sdk.Box.Sessions.Capacity.{tracked, sessions_bounded}
use langbot_plugin_sdk.Box.Sessions.Separate.{is_reaped, remaining}
use langbot_plugin_sdk.Box.Sessions.Reaped.{sessions_reaped}

program : Unit {0}
unfolding discard drop_session expired_session_ids known_session_ids drop_all reap_expired_sessions
    begin_creation publish end_creation hold_session release_session mark_used end_execution
    end_cleanup Dict.get Dict.set Dict.remove
program = tt

abbrev session : RuntimeSession
session = record {
  workspace_key = some ("i", "w");
  persistent = false;
  last_used_at = 100;
  extra_mounts_key = "";
  has_running_process = false;
}

-- Two sessions at most, which expire after 50.
abbrev started : Sessions
started = record (new 2 50) { creating_session_tasks = ("a", false) ∷ [] }

abbrev published : Sessions
published = record (new 2 50) {
  sessions = ("a", session) ∷ [];
  expirable_session_ids = "a" ∷ [];
  session_ids_by_workspace = (("i", "w"), "a" ∷ []) ∷ [];
  creating_session_tasks = ("a", true) ∷ [];
}

begun : begin_creation (new 2 50) "a" ≡ ok started
unfolding program
begun = refl

entered : publish started "a" session false ≡ ok published
unfolding program
entered = refl

reached : Reach 2 50 (end_creation published "a")
unfolding program
reached =
    next
      (next (next begin (begin_creation_step "a" refl refl begun))
        (publish_step "a" session false refl entered))
      (end_creation_step "a")

sessions_bounded_example : tracked (end_creation published "a") ≤ 2
sessions_bounded_example = sessions_bounded 2 50 reached

sessions_reaped_example :
    Dict.get (reap_expired_sessions 200 (end_creation published "a")).sessions "a"
    ≡ remaining 200 (end_creation published "a") "a"
sessions_reaped_example = sessions_reaped 2 50 200 reached "a"

-- The session is gone after its time, but not while it is held.
reaped :
    (remaining 200 (end_creation published "a") "a" ≡ none)
    × (remaining 150 (end_creation published "a") "a" ≡ some session)
    × (remaining 200 (hold_session published "a") "a" ≡ some session)
unfolding program remaining is_reaped
reaped = (refl, refl, refl)

-- A third session finds no room while the first one is in use and the second one is being closed.
abbrev closing : Sessions
closing = record published { closing_session_tasks = ("b", session) ∷ [] }

full : begin_creation closing "c" ≡ raise session_capacity_reached
unfolding program
full = refl
