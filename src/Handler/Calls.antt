-- ===== src/Handler/Calls.antt =====
-- The calls of handler.py that wait for the peer, and the requests of the peer that run. Every
-- operation is the code of one task between two awaits; the tasks interleave in `System`. A payload
-- is its JSON text. A queue is held by its consumer also when `resp_queues` has it no more.
pub mod System
pub mod Sound
pub mod Preserved
pub mod Settled
pub mod View
pub mod Ordered
mod Tests
use langbot_plugin_sdk.Prelude.{
  ℕ, ◌+◌, ◌-◌, String, Bool, true, false, ◌&&◌, ◌||◌, not, Option, none, some, List, [], ◌∷◌, ◌++◌,
  length, drop, leb, ltb, if◌then◌else◌, Result, ok, raise, ◌==◌, nat_eq,
}
use langbot_plugin_sdk.Prelude.Dict
use langbot_plugin_sdk.Prelude.Dict.{Dict}
use langbot_plugin_sdk.Prelude.Int.{ℤ, pos, negsuc}

abbrev pub max_inflight_actions : ℕ
max_inflight_actions = 128

abbrev pub max_stream_queue_size : ℕ
max_stream_queue_size = 128

pub data ChunkStatus : Type 0 where
  continued ended : ChunkStatus

pub record Response : Type 0 where
  pub code : ℤ
  pub message : String
  pub payload : String
  pub chunk_status : ChunkStatus

pub data CallError : Type 0 where
  connection_closed timed_out consumer_too_slow : CallError
  failed_with : String → CallError

-- A future of `resp_waiters`.
pub data Waiter : Type 0 where
  waiting cancelled : Waiter
  answered : Response → Waiter
  failed : CallError → Waiter

pub data Item : Type 0 where
  response : Response → Item
  error : CallError → Item

-- A queue, and whether `resp_queues` has it.
pub record Stream : Type 0 where
  pub items : List Item
  pub registered : Bool

pub record Calls : Type 0 where
  pub seq_id_index : ℕ
  pub resp_waiters : Dict ℕ Waiter
  pub streams : Dict ℕ Stream
  pub action_tasks : List ℕ
  pub closed : Bool

-- `call_action` up to its first await: the number of the call is used up also if it raises.
unfoldable pub begin_call : Calls → Calls × Result CallError ℕ
begin_call c =
    let seq = c.seq_id_index + 1 in
    if c.closed then (record c { seq_id_index = seq }, raise connection_closed) else (
      record c { seq_id_index = seq; resp_waiters = Dict.set c.resp_waiters seq waiting },
      ok seq,
    )

unfoldable pub begin_stream : Calls → Calls × Result CallError ℕ
begin_stream c =
    let seq = c.seq_id_index + 1 in
    if c.closed then (record c { seq_id_index = seq }, raise connection_closed) else (
      record c {
        seq_id_index = seq;
        streams = Dict.set c.streams seq (record { items = []; registered = true });
      },
      ok seq,
    )

-- `waiter.set_result`, unless the future is done
abbrev pub answer : Waiter → Response → Waiter
answer waiting r = answered r
answer other r = other

-- `queue.put_nowait`; a full queue is emptied and gets an error in place of all that it held.
abbrev pub offer : Stream → Response → Stream
offer s r =
    if not s.registered
    then s
    else if ltb (length s.items) max_stream_queue_size
    then record s { items = s.items ++ response r ∷ [] }
    else record { items = error consumer_too_slow ∷ []; registered = false }

abbrev pub update {ℓ} : {V : Type ℓ} → Dict ℕ V → ℕ → (V → V) → Dict ℕ V
update d k f = elim (Dict.get d k) [ none ↦ d | some v ↦ Dict.set d k (f v) ]

-- `_route_response` with a response that is valid
unfoldable pub route_response : Calls → ℕ → Response → Calls
route_response c seq r = record c {
  resp_waiters = update c.resp_waiters seq (λ w. answer w r);
  streams = update c.streams seq (λ s. offer s r);
}

abbrev pub fail_waiter : CallError → Waiter → Waiter
fail_waiter e waiting = failed e
fail_waiter e other = other

-- The oldest entries of a full queue make room for the error.
abbrev pub fail_stream : CallError → Stream → Stream
fail_stream e s = if not s.registered then s else record s {
  items = drop (length s.items + 1 - max_stream_queue_size) s.items ++ error e ∷ [];
}

abbrev pub map_values {ℓ κ} : {K : Type ℓ} {V : Type κ} → (V → V) → Dict K V → Dict K V
map_values f [] = []
map_values f ((k, v) ∷ d) = (k, f v) ∷ map_values f d

unfoldable pub fail_pending : Calls → CallError → Calls
fail_pending c e = record c {
  resp_waiters = map_values (fail_waiter e) c.resp_waiters;
  streams = map_values (fail_stream e) c.streams;
}

abbrev pub cancel : Waiter → Waiter
cancel waiting = cancelled
cancel other = other

-- `wait_for` gives up on a future that is not done.
unfoldable pub time_out : Calls → ℕ → Calls
time_out c seq = record c { resp_waiters = update c.resp_waiters seq cancel }

-- `response.code != 0` is false
abbrev pub is_success : ℤ → Bool
is_success (pos n) = n == 0
is_success (negsuc n) = false

-- What a response means to its caller.
abbrev pub outcome : Response → Result CallError String
outcome r = if is_success r.code then ok r.payload else raise (failed_with r.message)

-- The end of `call_action`, once the future is done: its result, and `finally`.
unfoldable pub finish_call : Calls → ℕ → Calls × Option (Result CallError String)
finish_call c seq =
    let c' = record c {
      resp_waiters = Dict.remove c.resp_waiters seq;
      streams = Dict.remove c.streams seq;
    } in
    elim (Dict.get c.resp_waiters seq) [
      | none ↦ (c, none)
      | some waiting ↦ (c, none)
      | some cancelled ↦ (c', some (raise timed_out))
      | some (answered r) ↦ (c', some (outcome r))
      | some (failed e) ↦ (c', some (raise e))
    ]

-- The caller goes away, or its request could not be sent.
unfoldable pub drop_call : Calls → ℕ → Calls
drop_call c seq = record c {
  resp_waiters = Dict.remove c.resp_waiters seq;
  streams = Dict.remove c.streams seq;
}

-- What the consumer of a stream sees of one item: a payload, the end, or an error.
pub data Seen : Type 0 where
  yielded : String → Seen
  stopped : Seen
  raised : CallError → Seen

abbrev pub see : Item → Seen
see (error e) = raised e
see (response r) = elim (outcome r) [
  | raise e ↦ raised e
  | ok payload ↦ elim r.chunk_status [ continued ↦ yielded payload | ended ↦ stopped ]
]

abbrev pub goes_on : Seen → Bool
goes_on (yielded payload) = true
goes_on stopped = false
goes_on (raised e) = false

-- What `queue.get()` returns, if there is an item.
unfoldable pub take_from : Calls → ℕ → Stream → List Item → Calls × Option Seen
take_from c seq s [] = (c, none)
take_from c seq s (i ∷ items) = (
  record c {
    streams =
        if goes_on (see i)
        then Dict.set c.streams seq (record s { items = items })
        else Dict.remove c.streams seq;
  },
  some (see i),
)

-- One turn of the loop of `call_action_generator`; the queue is dropped when the loop ends.
unfoldable pub take_item : Calls → ℕ → Calls × Option Seen
unfolding take_from
take_item c seq = elim (Dict.get c.streams seq) [
  | none ↦ (c, none)
  | some s ↦ take_from c seq s s.items
]

-- The consumer of a stream goes away, or waits in vain.
unfoldable pub drop_stream : Calls → ℕ → Calls
drop_stream c seq = record c { streams = Dict.remove c.streams seq }

-- A request of the peer in `run`: refused when too many run, else a new task.
unfoldable pub accept_request : Calls → ℕ → Calls × Bool
accept_request c task =
    if leb max_inflight_actions (length c.action_tasks)
    then (c, false)
    else (record c { action_tasks = c.action_tasks ++ task ∷ [] }, true)

abbrev pub discard : List ℕ → ℕ → List ℕ
discard [] t = []
discard (u ∷ us) t = let rest = discard us t in if u == t then rest else u ∷ rest

unfoldable pub action_task_done : Calls → ℕ → Calls
action_task_done c task = record c { action_tasks = discard c.action_tasks task }

-- The end of `_cancel_action_tasks`, when the tasks that it cancelled are done
unfoldable pub clear_action_tasks : Calls → Calls
clear_action_tasks c = record c { action_tasks = [] }

-- `close` before it closes the transport, and the end of `run`; both then cancel the tasks.
unfoldable pub close : Calls → Calls
unfolding fail_pending
close c = if c.closed then c else fail_pending (record c { closed = true }) connection_closed

unfoldable pub end_run : Calls → Calls
unfolding fail_pending
end_run c = fail_pending (record c { closed = true }) connection_closed
