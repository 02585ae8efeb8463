-- ===== src/Handler/Calls/Sound.antt =====
-- What holds of the calls of handler.py between two events.
use langbot_plugin_sdk.Prelude.{
  ℕ, ◌+◌, ◌-◌, ◌≤◌, ◌≡◌, refl, ◌⊎◌, inl, inr, Bool, true, false, Option-cases, List, [], ◌∷◌, ◌++◌,
  length, drop, length-append, length-drop, nat_eq, arith, Bool-cases,
}
use langbot_plugin_sdk.Prelude.Dict
use langbot_plugin_sdk.Prelude.Dict.{Dict, AllValues}
use langbot_plugin_sdk.Handler.Calls.{
  Calls, Response, Waiter, waiting, answered, failed, cancelled, Item, Stream, CallError,
  fail_pending, take_item, take_from, max_inflight_actions, max_stream_queue_size, answer, offer,
  cancel, fail_waiter, fail_stream, update, map_values, see, goes_on, discard,
}

abbrev pub is_waiting : Waiter → Bool
is_waiting waiting = true
is_waiting other = false

abbrev pub has_error : List Item → Bool
has_error [] = false
has_error (Item.error e ∷ is) = true
has_error (Item.response r ∷ is) = has_error is

pub record IsWaiter (closed : Bool) (w : Waiter) : Type 0 where
  pub done : closed ≡ true → is_waiting w ≡ false

-- A queue has a bounded number of items, and an error among them if nothing else ends it.
pub record IsStream (closed : Bool) (s : Stream) : Type 0 where
  pub short : length s.items ≤ max_stream_queue_size
  pub ends : (s.registered ≡ false) ⊎ (closed ≡ true) → has_error s.items ≡ true

pub record IsSound (c : Calls) : Type 0 where
  pub waiters : AllValues (IsWaiter c.closed) c.resp_waiters
  pub streams : AllValues (IsStream c.closed) c.streams
  pub tasks : length c.action_tasks ≤ max_inflight_actions

has_error-append :
    (is : List Item) (js : List Item) → has_error is ≡ true → has_error (is ++ js) ≡ true
has_error-append [] js h = cc
has_error-append (Item.error e ∷ is) js h = refl
has_error-append (Item.response r ∷ is) js h = has_error-append is js h

has_error-snoc : (is : List Item) (e : CallError) → has_error (is ++ Item.error e ∷ []) ≡ true
has_error-snoc [] e = refl
has_error-snoc (Item.error x ∷ is) e = refl
has_error-snoc (Item.response r ∷ is) e = has_error-snoc is e

pub offer-IsStream :
    (closed : Bool) (s : Stream) (r : Response) → IsStream closed s → IsStream closed (offer s r)
offer-IsStream closed s r v = record {
  short = ground (arith, v.short, length-append s.items (Item.response r ∷ []));
  ends = λ h. ground (arith, h, v.ends, has_error-append s.items (Item.response r ∷ []));
}

fail_stream-IsStream :
    (closed : Bool) (s : Stream) (e : CallError)
    → IsStream closed s
    → IsStream true (fail_stream e s)
fail_stream-IsStream closed s e v =
    let kept : List Item = drop (length s.items + 1 - max_stream_queue_size) s.items in
    record {
      short = ground (
        arith,
        v.short,
        length-append kept (Item.error e ∷ []),
        length-drop (length s.items + 1 - max_stream_queue_size) s.items,
      );
      ends = λ h. ground (arith, v.ends, has_error-snoc kept e);
    }

pub update-AllValues :
    {V : Type 0} (P : V → Type 0) (d : Dict ℕ V) (k : ℕ) (f : V → V)
    → ((v : V) → P v → P (f v))
    → AllValues P d
    → AllValues P (update d k f)
update-AllValues P d k f keep h = elim (Option-cases (Dict.get d k)) [
  | inl absent ↦ rw (update, absent) h
  | inr (v, present) ↦
      rw (update, present)
        (Dict.AllValues-set P d k (f v) (keep v (Dict.AllValues-get P d k h present)) h)
]

map_values-AllValues :
    {V : Type 0} (P Q : V → Type 0) (d : Dict ℕ V) (f : V → V)
    → ((v : V) → P v → Q (f v))
    → AllValues P d
    → AllValues Q (map_values f d)
map_values-AllValues P Q [] f keep h = tt
map_values-AllValues P Q ((k, v) ∷ d) f keep h = (keep v h.0, map_values-AllValues P Q d f keep h.1)

pub answer-IsWaiter :
    (closed : Bool) (w : Waiter) (r : Response) → IsWaiter closed w → IsWaiter closed (answer w r)
answer-IsWaiter closed waiting r v = record { done = λ h. refl }
answer-IsWaiter closed cancelled r v = v
answer-IsWaiter closed (answered x) r v = v
answer-IsWaiter closed (failed e) r v = v

pub cancel-IsWaiter : (closed : Bool) (w : Waiter) → IsWaiter closed w → IsWaiter closed (cancel w)
cancel-IsWaiter closed waiting v = record { done = λ h. refl }
cancel-IsWaiter closed cancelled v = v
cancel-IsWaiter closed (answered x) v = v
cancel-IsWaiter closed (failed e) v = v

fail_waiter-IsWaiter :
    (closed c : Bool) (e : CallError) (w : Waiter)
    → IsWaiter closed w
    → IsWaiter c (fail_waiter e w)
fail_waiter-IsWaiter closed c e waiting v = record { done = λ h. refl }
fail_waiter-IsWaiter closed c e cancelled v = record { done = λ h. refl }
fail_waiter-IsWaiter closed c e (answered x) v = record { done = λ h. refl }
fail_waiter-IsWaiter closed c e (failed x) v = record { done = λ h. refl }

pub length-discard-le : (ts : List ℕ) (t : ℕ) → length (discard ts t) ≤ length ts
length-discard-le [] t = omega arith
length-discard-le (u ∷ ts) t = ground (arith, length-discard-le ts t)

IsStream-fewer : (closed : Bool) (s : Stream) → IsStream true s → IsStream closed s
IsStream-fewer closed s v = record { short = v.short; ends = λ h. v.ends (inr refl) }

-- After `_fail_pending` the handler is sound also if it is closed.
pub fail_pending-IsSound :
    (c : Calls) (e : CallError) (closed : Bool) (tasks : List ℕ)
    → length tasks ≤ max_inflight_actions
    → IsSound c
    → IsSound (record (fail_pending c e) { closed = closed; action_tasks = tasks })
unfolding fail_pending
fail_pending-IsSound c e closed tasks few v = record {
  waiters =
      map_values-AllValues _ _ c.resp_waiters (fail_waiter e)
        (λ w h. fail_waiter-IsWaiter c.closed closed e w h) v.waiters;
  streams =
      map_values-AllValues _ _ c.streams (fail_stream e)
        (λ s h. IsStream-fewer closed _ (fail_stream-IsStream c.closed s e h)) v.streams;
  tasks = few;
}

has_error-tail :
    (i : Item) (is : List Item)
    → goes_on (see i) ≡ true
    → has_error (i ∷ is) ≡ true
    → has_error is ≡ true
has_error-tail (Item.error e) is g h = cc
has_error-tail (Item.response r) is g h = h

pub with_streams :
    (c : Calls) (d : Dict ℕ Stream)
    → IsSound c
    → AllValues (IsStream c.closed) d
    → IsSound (record c { streams = d })
with_streams c d v h = record { waiters = v.waiters; streams = h; tasks = v.tasks }

take_from-IsSound :
    (c : Calls) (seq : ℕ) (s : Stream) (items : List Item)
    → IsSound c
    → IsStream c.closed (record s { items = items })
    → IsSound (take_from c seq s items).0
unfolding take_from
take_from-IsSound c seq s [] v w = v
take_from-IsSound c seq s (i ∷ items) v w = elim (Bool-cases (goes_on (see i))) [
  | inl on ↦
      rw (take_from, on)
        (with_streams c _ v (
          Dict.AllValues-set _ c.streams seq _
            (record {
              short = omega (arith, w.short);
              ends = λ h. has_error-tail i items on (w.ends h);
            })
            v.streams))
  | inr over ↦
      rw (take_from, over) (with_streams c _ v (Dict.AllValues-remove _ c.streams seq v.streams))
]

pub take_item-IsSound : (c : Calls) (seq : ℕ) → IsSound c → IsSound (take_item c seq).0
unfolding take_item
take_item-IsSound c seq v = elim (Option-cases (Dict.get c.streams seq)) [
  | inl absent ↦ rw (take_item, take_from, absent) v
  | inr (s, present) ↦
      rw (take_item, take_from, present)
        (take_from-IsSound c seq s s.items v
          (Dict.AllValues-get (IsStream c.closed) c.streams seq v.streams present))
]
