-- ===== src/Handler/Calls/Tests.antt =====
-- Runs of the calls of the model of runtime/io/handler.py at concrete inputs.
use langbot_plugin_sdk.Prelude.{
  ℕ, ◌≤◌, ◌≡◌, ◌≢◌, refl, none, some, List, [], ◌∷◌, ◌++◌, map, length, arith, raise, true, false,
  nat_eq,
}
use langbot_plugin_sdk.Prelude.Dict
use langbot_plugin_sdk.Prelude.Int.{pos}
use langbot_plugin_sdk.Handler.Calls.{
  Calls, ChunkStatus, continued, ended, Response, Waiter, Item, Stream, connection_closed,
  begin_call, begin_stream, route_response, fail_pending, time_out, finish_call, drop_call,
  take_from, take_item, drop_stream, accept_request, action_task_done, close, clear_action_tasks,
  end_run, max_inflight_actions, max_stream_queue_size, see,
}
use langbot_plugin_sdk.Handler.Calls.System.{
  Event, calling, streaming, requesting, closing, clearing, routing, taking, step, run, new,
}
use langbot_plugin_sdk.Handler.Calls.Settled.{run_bounded, settled}
use langbot_plugin_sdk.Handler.Calls.Ordered.{consumed, routed, ordered}

program : Unit {0}
unfolding begin_call begin_stream route_response fail_pending time_out finish_call drop_call
    take_from take_item drop_stream clear_action_tasks accept_request action_task_done close end_run
    step run Dict.get Dict.set Dict.remove
program = tt

abbrev chunk : ChunkStatus → Response
chunk status = record { code = pos 0; message = "success"; payload = "{}"; chunk_status = status }

-- A stream and a call begin, the peer answers the call, and the connection is closed.
abbrev closes : List Event
closes = streaming ∷ calling ∷ routing 6 (chunk continued) ∷ requesting 9 ∷ closing ∷ clearing ∷ []

run_bounded_example :
    (length (run (new 4) closes).action_tasks ≤ max_inflight_actions)
    × ((seq : ℕ) (s : Stream)
        → Dict.get (run (new 4) closes).streams seq ≡ some s
        → length s.items ≤ max_stream_queue_size)
run_bounded_example = run_bounded 4 closes

settled_example :
    ((seq : ℕ) (w : Waiter)
      → Dict.get (run (new 4) closes).resp_waiters seq ≡ some w
      → (finish_call (run (new 4) closes) seq).1 ≢ none)
    × ((seq : ℕ) (s : Stream)
        → Dict.get (run (new 4) closes).streams seq ≡ some s
        → (take_item (run (new 4) closes) seq).1 ≢ none)
    × ((begin_call (run (new 4) closes)).1 ≡ raise connection_closed)
    × ((begin_stream (run (new 4) closes)).1 ≡ raise connection_closed)
unfolding program
settled_example = settled 4 closes refl

abbrev started : Calls
started = record {
  seq_id_index = 5;
  resp_waiters = [];
  streams = (5, record { items = []; registered = true }) ∷ [];
  action_tasks = [];
  closed = false;
}

-- Two responses arrive, one is read, and a call begins in between.
abbrev arrivals : List Event
arrivals = routing 5 (chunk continued) ∷ calling ∷ routing 5 (chunk ended) ∷ taking 5 ∷ []

ordered_example :
    map see [] ++ map see (routed 5 arrivals)
    ≡ consumed 5 started arrivals ++ map see (Item.response (chunk ended) ∷ [])
unfolding program
ordered_example =
    ordered 5 started arrivals (record { items = []; registered = true })
      (record { items = Item.response (chunk ended) ∷ []; registered = true }) (omega arith)
      (refl, (refl, (refl, (refl, tt)))) refl refl refl
