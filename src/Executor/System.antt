-- ===== src/Executor/System.antt =====
-- The threads that use the executor, as interleaved steps. Each step is one locked block or one
-- operation on the semaphore. What runs the work (the queue and the threads of the standard
-- library's pool, the event loop) chooses the order, and may refuse or cancel any submission.
use langbot_plugin_sdk.Prelude.{String, ◌≡◌, true, false, Option, none, some, List, ◌∷◌}
use langbot_plugin_sdk.Prelude.Pick.{Pick}
use langbot_plugin_sdk.Executor.{
  Executor, acquire, release, reject_globally, reject_scope, scope_is_full, admit, withdraw,
  start_run, end_run, complete,
}

-- How far a submission that holds a permit of the semaphore has come. `returning` has only its
-- permit left to give back.
pub data Phase : Type 0 where
  acquired admitted queued running finished returning : Phase

pub record Task : Type 0 where
  pub scope : Option String
  pub phase : Phase

pub record System : Type 0 where
  pub executor : Executor
  pub tasks : List Task

abbrev pub task : Option String → Phase → Task
task s p = record { scope = s; phase = p }

pub data Step : System → System → Type 0 where
  -- `submit` finds no permit
  refuse :
      (x : Executor) (ts : List Task)
      → acquire x ≡ none
      → Step
          (record { executor = x; tasks = ts })
          (record { executor = reject_globally x; tasks = ts })
  -- `submit` takes a permit
  enter :
      (x y : Executor) (ts : List Task) (s : Option String)
      → acquire x ≡ some y
      → Step
          (record { executor = x; tasks = ts })
          (record { executor = y; tasks = task s acquired ∷ ts })
  -- the scope has its fair share: the permit goes back inside the locked block
  turn_away :
      (x y : Executor) (ts rest : List Task) (s : Option String)
      → Pick (task s acquired) ts rest
      → scope_is_full x s ≡ true
      → release (reject_scope x) ≡ some y
      → Step (record { executor = x; tasks = ts }) (record { executor = y; tasks = rest })
  let_in :
      (x : Executor) (ts rest : List Task) (s : Option String)
      → Pick (task s acquired) ts rest
      → scope_is_full x s ≡ false
      → Step
          (record { executor = x; tasks = ts })
          (record { executor = admit x s; tasks = task s admitted ∷ rest })
  -- `super().submit` queues the work, or raises
  queue :
      (x : Executor) (ts rest : List Task) (s : Option String)
      → Pick (task s admitted) ts rest
      → Step
          (record { executor = x; tasks = ts })
          (record { executor = x; tasks = task s queued ∷ rest })
  fail :
      (x : Executor) (ts rest : List Task) (s : Option String)
      → Pick (task s admitted) ts rest
      → Step
          (record { executor = x; tasks = ts })
          (record { executor = withdraw x s; tasks = task s returning ∷ rest })
  start :
      (x : Executor) (ts rest : List Task) (s : Option String)
      → Pick (task s queued) ts rest
      → Step
          (record { executor = x; tasks = ts })
          (record { executor = start_run x; tasks = task s running ∷ rest })
  -- the future is cancelled before a thread takes it
  cancel :
      (x : Executor) (ts rest : List Task) (s : Option String)
      → Pick (task s queued) ts rest
      → Step
          (record { executor = x; tasks = ts })
          (record { executor = complete x s; tasks = task s returning ∷ rest })
  stop :
      (x : Executor) (ts rest : List Task) (s : Option String)
      → Pick (task s running) ts rest
      → Step
          (record { executor = x; tasks = ts })
          (record { executor = end_run x; tasks = task s finished ∷ rest })
  done :
      (x : Executor) (ts rest : List Task) (s : Option String)
      → Pick (task s finished) ts rest
      → Step
          (record { executor = x; tasks = ts })
          (record { executor = complete x s; tasks = task s returning ∷ rest })
  give_back :
      (x y : Executor) (ts rest : List Task) (s : Option String)
      → Pick (task s returning) ts rest
      → release x ≡ some y
      → Step (record { executor = x; tasks = ts }) (record { executor = y; tasks = rest })

pub data Reach (s : System) : System → Type 0 where
  initial : Reach s s
  next : {t u : System} → Reach s t → Step t u → Reach s u
