-- ===== src/Handler/Calls/Settled.antt =====
-- A connection of handler.py that is closed leaves nobody waiting.
use langbot_plugin_sdk.Prelude.{
  ℕ, ◌≤◌, ◌≡◌, ◌≢◌, inr, true, false, none, some, List, length, raise, nat_eq, arith,
}
use langbot_plugin_sdk.Prelude.Dict
use langbot_plugin_sdk.Prelude.Dict.{Dict, AllValues}
use langbot_plugin_sdk.Handler.Calls.{
  Calls, Waiter, Stream, connection_closed, begin_call, begin_stream, finish_call, take_item,
  take_from, max_inflight_actions, max_stream_queue_size,
}
use langbot_plugin_sdk.Handler.Calls.System.{Event, run, new}
use langbot_plugin_sdk.Handler.Calls.Sound.{is_waiting, has_error, IsWaiter, IsStream}
use langbot_plugin_sdk.Handler.Calls.Preserved.{run-IsSound, new-IsSound}

finish_call_done :
    (c : Calls) (seq : ℕ) (w : Waiter)
    → is_waiting w ≡ false
    → Dict.get c.resp_waiters seq ≡ some w
    → (finish_call c seq).1 ≢ none
unfolding finish_call
finish_call_done c seq w h e = ground (arith, h, e)

take_item_ready :
    (c : Calls) (seq : ℕ) (s : Stream)
    → has_error s.items ≡ true
    → Dict.get c.streams seq ≡ some s
    → (take_item c seq).1 ≢ none
unfolding take_item take_from
take_item_ready c seq s h e = ground (arith, h, e)

begin_closed :
    (c : Calls)
    → c.closed ≡ true
    → ((begin_call c).1 ≡ raise connection_closed) × ((begin_stream c).1 ≡ raise connection_closed)
unfolding begin_call begin_stream
begin_closed c closed = ground (arith, closed)

-- At any time the handler counts at most 128 requests of the peer, and no queue holds more than 128 responses,
-- however fast the peer sends and however slow the consumers are.
pub run_bounded :
    (first : ℕ) (es : List Event)
    → (length (run (new first) es).action_tasks ≤ max_inflight_actions)
      × ((seq : ℕ) (s : Stream)
          → Dict.get (run (new first) es).streams seq ≡ some s
          → length s.items ≤ max_stream_queue_size)
run_bounded first es =
    let v = run-IsSound (new first) es (new-IsSound first) in
    (
      v.tasks,
      λ seq s present.
          (Dict.AllValues-get (IsStream (run (new first) es).closed) (run (new first) es).streams
            seq v.streams present).short,
    )

-- Whenever a connection is closed, whatever happened before, nobody waits on it:
-- a call that is in flight has its result, a consumer of a stream gets an item, and no new call or
-- stream begins.
pub settled :
    (first : ℕ) (es : List Event)
    → (run (new first) es).closed ≡ true
    → ((seq : ℕ) (w : Waiter)
        → Dict.get (run (new first) es).resp_waiters seq ≡ some w
        → (finish_call (run (new first) es) seq).1 ≢ none)
      × ((seq : ℕ) (s : Stream)
          → Dict.get (run (new first) es).streams seq ≡ some s
          → (take_item (run (new first) es) seq).1 ≢ none)
      × ((begin_call (run (new first) es)).1 ≡ raise connection_closed)
      × ((begin_stream (run (new first) es)).1 ≡ raise connection_closed)
settled first es closed =
    let c = run (new first) es in
    let v = run-IsSound (new first) es (new-IsSound first) in
    (
      λ seq w e.
          finish_call_done c seq w
            ((Dict.AllValues-get (IsWaiter c.closed) c.resp_waiters seq v.waiters e).done closed) e,
      λ seq s e.
          take_item_ready c seq s
            ((Dict.AllValues-get (IsStream c.closed) c.streams seq v.streams e).ends (inr closed))
            e,
      (begin_closed c closed).0,
      (begin_closed c closed).1,
    )
