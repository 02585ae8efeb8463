-- ===== src/Handler/Calls/System.antt =====
-- The tasks that share a connection of handler.py, as a sequence of events: what a caller, a
-- consumer, the peer and the transport do, in any order.
use langbot_plugin_sdk.Prelude.{ℕ, List, [], ◌∷◌, false}
use langbot_plugin_sdk.Handler.Calls.{
  Calls, Response, connection_closed, begin_call, begin_stream, route_response, fail_pending,
  time_out, finish_call, drop_call, take_item, drop_stream, accept_request, action_task_done, close,
  clear_action_tasks, end_run,
}

pub data Event : Type 0 where
  calling streaming disconnecting closing ending clearing : Event
  routing : ℕ → Response → Event
  requesting completing timing_out finishing dropping_call taking dropping_stream : ℕ → Event

unfoldable pub step : Calls → Event → Calls
step c calling = (begin_call c).0
step c streaming = (begin_stream c).0
step c (requesting task) = (accept_request c task).0
step c (completing task) = action_task_done c task
step c disconnecting = fail_pending c connection_closed
step c closing = close c
step c ending = end_run c
step c clearing = clear_action_tasks c
step c (routing seq r) = route_response c seq r
step c (timing_out seq) = time_out c seq
step c (finishing seq) = (finish_call c seq).0
step c (dropping_call seq) = drop_call c seq
step c (taking seq) = (take_item c seq).0
step c (dropping_stream seq) = drop_stream c seq

unfoldable pub run : Calls → List Event → Calls
unfolding step
run c [] = c
run c (e ∷ es) = run (step c e) es

-- A new handler, whose first number is random.
abbrev pub new : ℕ → Calls
new seq = record {
  seq_id_index = seq;
  resp_waiters = [];
  streams = [];
  action_tasks = [];
  closed = false;
}
