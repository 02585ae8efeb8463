-- ===== src/Restart/System.antt =====
-- The supervisors that restart workers. On the event loop a coroutine runs alone between two
-- awaits, so a step is what one coroutine does between two awaits: `System` is the coordinator, the
-- time, and every supervisor that holds a launch slot or a permit.
use langbot_plugin_sdk.Prelude.{ℕ, suc, ◌+◌, ◌-◌, ◌≡◌, Bool, true, false, some, List, ◌∷◌, ok}
use langbot_plugin_sdk.Prelude.Pick.{Pick}
use langbot_plugin_sdk.Restart.{
  Coordinator, Gate, permit, wait_for, wait_change, gate, record_failure,
}
use langbot_plugin_sdk.Restart.Permit.{
  Permit, new_permit, mark_ready, mark_stable, record_permit_failure, abandon,
}

-- `holding`: has the semaphore's slot and is about to look at the circuit. `gated`: sleeps in the
-- gate, slot in hand. `permitted`: `acquire` has returned.
pub data Supervisor : Type 0 where
  holding gated : Supervisor
  permitted : Permit → Supervisor

pub record System : Type 0 where
  pub coordinator : Coordinator
  pub now : ℕ
  pub supervisors : List Supervisor

abbrev pub waits : Gate → Bool
waits (permit probe) = false
waits (wait_for t) = true
waits wait_change = true

abbrev pub sys : Coordinator → ℕ → List Supervisor → System
sys c t ss = record { coordinator = c; now = t; supervisors = ss }

pub data Step : System → System → Type 0 where
  tick : (c : Coordinator) (t d : ℕ) (ss : List Supervisor) → Step (sys c t ss) (sys c (t + d) ss)
  -- `await semaphore.acquire()`
  take_slot :
      (c : Coordinator) (t free : ℕ) (ss : List Supervisor)
      → c.launch_semaphore ≡ some (suc free)
      → Step (sys c t ss) (sys (record c { launch_semaphore = some free }) t (holding ∷ ss))
  -- the circuit is closed, or free for a probe
  admit :
      (c c' : Coordinator) (t : ℕ) (ss rest : List Supervisor) (probe : Bool)
      → Pick holding ss rest
      → gate c t ≡ (permit probe, c')
      → Step (sys c t ss) (sys c' t (permitted (new_permit probe) ∷ rest))
  sleep :
      (c c' : Coordinator) (t : ℕ) (ss rest : List Supervisor) (g : Gate)
      → Pick holding ss rest
      → gate c t ≡ (g, c')
      → waits g ≡ true
      → Step (sys c t ss) (sys (record c' { gate_waiters = c'.gate_waiters + 1 }) t (gated ∷ rest))
  -- the time is over, or the state has changed
  wake :
      (c : Coordinator) (t : ℕ) (ss rest : List Supervisor)
      → Pick gated ss rest
      → Step (sys c t ss) (sys (record c { gate_waiters = c.gate_waiters - 1 }) t (holding ∷ rest))
  -- `acquire` is cancelled in the gate: both `finally` blocks
  cancel :
      (c : Coordinator) (t free : ℕ) (ss rest : List Supervisor)
      → Pick gated ss rest
      → c.launch_semaphore ≡ some free
      → Step (sys c t ss) (
          sys
            (record c { gate_waiters = c.gate_waiters - 1; launch_semaphore = some (free + 1) })
            t
            rest)
  ready :
      (c c' : Coordinator) (t : ℕ) (ss rest : List Supervisor) (p p' : Permit)
      → Pick (permitted p) ss rest
      → mark_ready c p ≡ ok (c', p')
      → Step (sys c t ss) (sys c' t (permitted p' ∷ rest))
  stable :
      (c c' : Coordinator) (t : ℕ) (ss rest : List Supervisor) (p p' : Permit) (cancelled : Bool)
      → Pick (permitted p) ss rest
      → mark_stable c p cancelled ≡ ok (c', p')
      → Step (sys c t ss) (sys c' t (permitted p' ∷ rest))
  fail :
      (c c' : Coordinator) (t : ℕ) (ss rest : List Supervisor) (p p' : Permit) (cancelled : Bool)
      → Pick (permitted p) ss rest
      → record_permit_failure c t p cancelled ≡ ok (c', p')
      → Step (sys c t ss) (sys c' t (permitted p' ∷ rest))
  give_up :
      (c c' : Coordinator) (t : ℕ) (ss rest : List Supervisor) (p p' : Permit) (cancelled : Bool)
      → Pick (permitted p) ss rest
      → abandon c p cancelled ≡ ok (c', p')
      → Step (sys c t ss) (sys c' t (permitted p' ∷ rest))
  -- a worker that never held a permit fails its first launch
  unadmitted :
      (c : Coordinator) (t : ℕ) (ss : List Supervisor)
      → Step (sys c t ss) (sys (record_failure c t false) t ss)

pub data Reach (s : System) : System → Type 0 where
  initial : Reach s s
  next : {t u : System} → Reach s t → Step t u → Reach s u
