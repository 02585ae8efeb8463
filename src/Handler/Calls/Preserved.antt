-- ===== src/Handler/Calls/Preserved.antt =====
-- Every event of the calls of handler.py keeps what holds between two events.
use langbot_plugin_sdk.Prelude.{
  ℕ, ◌≡◌, ◌⊎◌, inl, inr, true, false, List, [], ◌∷◌, length, length-append, leb, nat_eq, arith,
  Bool-cases,
}
use langbot_plugin_sdk.Prelude.Dict
use langbot_plugin_sdk.Prelude.Dict.{Dict, AllValues}
use langbot_plugin_sdk.Handler.Calls.{
  clear_action_tasks, Calls, waiting, connection_closed, begin_call, begin_stream, route_response,
  fail_pending, time_out, finish_call, drop_call, drop_stream, accept_request, action_task_done,
  close, end_run, max_inflight_actions,
}
use langbot_plugin_sdk.Handler.Calls.System.{
  clearing, Event, calling, streaming, requesting, completing, disconnecting, closing, ending,
  routing, timing_out, finishing, dropping_call, taking, dropping_stream, step, run, new,
}
use langbot_plugin_sdk.Handler.Calls.Sound.{
  IsWaiter, IsStream, IsSound, offer-IsStream, update-AllValues, answer-IsWaiter, cancel-IsWaiter,
  length-discard-le, fail_pending-IsSound, with_streams, take_item-IsSound,
}

begin_call-IsSound : (c : Calls) → IsSound c → IsSound (begin_call c).0
unfolding begin_call
begin_call-IsSound c v = elim (Bool-cases c.closed) [
  | inl closed ↦
      rw (begin_call, closed)
        (record {
          waiters = rw closed at v.waiters;
          streams = rw closed at v.streams;
          tasks = v.tasks;
        })
  | inr open_ ↦
      rw (begin_call, open_)
        (record {
          waiters =
              Dict.AllValues-set (IsWaiter false) c.resp_waiters _ waiting
                (record { done = λ h. cc }) (rw open_ at v.waiters);
          streams = rw open_ at v.streams;
          tasks = v.tasks;
        })
]

begin_stream-IsSound : (c : Calls) → IsSound c → IsSound (begin_stream c).0
unfolding begin_stream
begin_stream-IsSound c v = elim (Bool-cases c.closed) [
  | inl closed ↦
      rw (begin_stream, closed)
        (record {
          waiters = rw closed at v.waiters;
          streams = rw closed at v.streams;
          tasks = v.tasks;
        })
  | inr open_ ↦
      rw (begin_stream, open_)
        (record {
          waiters = rw open_ at v.waiters;
          streams =
              Dict.AllValues-set (IsStream false) c.streams _
                (record { items = []; registered = true })
                (record { short = omega arith; ends = λ h. ground (arith, h) })
                (rw open_ at v.streams);
          tasks = v.tasks;
        })
]

drop_call-IsSound : (c : Calls) (seq : ℕ) → IsSound c → IsSound (drop_call c seq)
unfolding drop_call
drop_call-IsSound c seq v = record {
  waiters = Dict.AllValues-remove _ c.resp_waiters seq v.waiters;
  streams = Dict.AllValues-remove _ c.streams seq v.streams;
  tasks = v.tasks;
}

-- What `finish_call` leaves is the state before or after `finally`.
pub finish_call-drop :
    (c : Calls) (seq : ℕ) → ((finish_call c seq).0 ≡ c) ⊎ ((finish_call c seq).0 ≡ drop_call c seq)
unfolding finish_call drop_call
finish_call-drop c seq = ground arith

finish_call-IsSound : (c : Calls) (seq : ℕ) → IsSound c → IsSound (finish_call c seq).0
finish_call-IsSound c seq v = elim (finish_call-drop c seq) [
  | inl same ↦ rw same v
  | inr dropped ↦ rw dropped (drop_call-IsSound c seq v)
]

end_run-IsSound : (c : Calls) → IsSound c → IsSound (end_run c)
unfolding end_run fail_pending
end_run-IsSound c v = fail_pending-IsSound c connection_closed true c.action_tasks v.tasks v

close-end_run : (c : Calls) → (close c ≡ c) ⊎ (close c ≡ end_run c)
unfolding close end_run
close-end_run c = ground arith

step-IsSound : (c : Calls) (e : Event) → IsSound c → IsSound (step c e)
unfolding step clear_action_tasks route_response time_out drop_stream accept_request
    action_task_done fail_pending
step-IsSound c calling v = begin_call-IsSound c v
step-IsSound c streaming v = begin_stream-IsSound c v
step-IsSound c (requesting t) v =
    elim (Bool-cases (leb max_inflight_actions (length c.action_tasks))) [
      | inl full ↦ rw (step, accept_request, full) v
      | inr room ↦
          rw (step, accept_request, room)
            (record {
              waiters = v.waiters;
              streams = v.streams;
              tasks = ground (arith, room, length-append c.action_tasks (t ∷ []));
            })
    ]
step-IsSound c (completing t) v = record {
  waiters = v.waiters;
  streams = v.streams;
  tasks = omega (arith, v.tasks, length-discard-le c.action_tasks t);
}
step-IsSound c disconnecting v =
    fail_pending-IsSound c connection_closed c.closed c.action_tasks v.tasks v
step-IsSound c closing v = elim (close-end_run c) [
  | inl same ↦ rw same v
  | inr ended ↦ rw ended (end_run-IsSound c v)
]
step-IsSound c ending v = end_run-IsSound c v
step-IsSound c clearing v = record { waiters = v.waiters; streams = v.streams; tasks = omega arith }
step-IsSound c (routing seq r) v = record {
  waiters =
      update-AllValues _ c.resp_waiters seq _ (λ w h. answer-IsWaiter c.closed w r h) v.waiters;
  streams = update-AllValues _ c.streams seq _ (λ s h. offer-IsStream c.closed s r h) v.streams;
  tasks = v.tasks;
}
step-IsSound c (timing_out seq) v = record {
  waiters = update-AllValues _ c.resp_waiters seq _ (λ w h. cancel-IsWaiter c.closed w h) v.waiters;
  streams = v.streams;
  tasks = v.tasks;
}
step-IsSound c (finishing seq) v = finish_call-IsSound c seq v
step-IsSound c (dropping_call seq) v = drop_call-IsSound c seq v
step-IsSound c (taking seq) v = take_item-IsSound c seq v
step-IsSound c (dropping_stream seq) v =
    with_streams c _ v (Dict.AllValues-remove _ c.streams seq v.streams)

pub run-IsSound : (c : Calls) (es : List Event) → IsSound c → IsSound (run c es)
unfolding run
run-IsSound c [] v = v
run-IsSound c (e ∷ es) v = run-IsSound (step c e) es (step-IsSound c e v)

pub new-IsSound : (seq : ℕ) → IsSound (new seq)
new-IsSound seq = record { waiters = tt; streams = tt; tasks = omega arith }
