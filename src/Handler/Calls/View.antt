-- ===== src/Handler/Calls/View.antt =====
-- What the events of a connection of handler.py do to one of its streams.
use langbot_plugin_sdk.Prelude.{
  ℕ, ◌+◌, ◌≤◌, ◌≡◌, refl, ap, ◌∙◌, ◌⊎◌, inl, inr, Bool, true, false, Option, none, some,
  Option-cases, List, [], ◌∷◌, if◌then◌else◌, ◌==◌, nat_eq, nat_beq_iff, arith, All, Bool-cases,
}
use langbot_plugin_sdk.Prelude.Dict
use langbot_plugin_sdk.Prelude.Dict.{Dict}
use langbot_plugin_sdk.Handler.Calls.{
  clear_action_tasks, Calls, Response, Item, Stream, begin_call, begin_stream, route_response,
  fail_pending, time_out, finish_call, drop_call, take_item, take_from, drop_stream, accept_request,
  action_task_done, close, end_run, offer, update, map_values, see, goes_on,
}
use langbot_plugin_sdk.Handler.Calls.Preserved.{finish_call-drop}
use langbot_plugin_sdk.Handler.Calls.System.{
  clearing, Event, calling, streaming, requesting, completing, disconnecting, closing, ending,
  routing, timing_out, finishing, dropping_call, taking, dropping_stream, step, run,
}

get-update :
    {V : Type 0} (d : Dict ℕ V) (k : ℕ) (f : V → V) (j : ℕ)
    → Dict.get (update d k f) j ≡ (
        if k == j
        then (elim (Dict.get d j) [ none ↦ none | some v ↦ some (f v) ])
        else Dict.get d j)
get-update d k f j = elim (Option-cases (Dict.get d k)) [
  | inl absent ↦ rw (update, absent) (ground (arith, absent, nat_beq_iff k j))
  | inr (v, present) ↦
      rw (update, present) (Dict.get-set d k (f v) j ∙ ground (arith, present, nat_beq_iff k j))
]

get-map_values :
    {V : Type 0} (f : V → V) (d : Dict ℕ V) (j : ℕ)
    → Dict.get (map_values f d) j ≡ (elim (Dict.get d j) [ none ↦ none | some v ↦ some (f v) ])
unfolding Dict.get
get-map_values f [] j = refl
get-map_values f ((k, v) ∷ d) j = ground (arith, get-map_values f d j)

-- A number below the next one is not drawn again.
get-set_next :
    {V : Type 0} (d : Dict ℕ V) (index : ℕ) (v : V) (seq : ℕ)
    → seq ≤ index
    → Dict.get (Dict.set d (index + 1) v) seq ≡ Dict.get d seq
get-set_next d index v seq h =
    Dict.get-set d (index + 1) v seq ∙ ground (arith, nat_beq_iff (index + 1) seq)

-- What one event does to one stream, if the transport does not fail.
abbrev pub taken_from : Stream → List Item → Option Stream
taken_from s [] = some s
taken_from s (i ∷ items) = if goes_on (see i) then some (record s { items = items }) else none

abbrev pub next : ℕ → Event → Option Stream → Option Stream
next seq (routing k r) (some s) = if k == seq then some (offer s r) else some s
next seq (taking k) (some s) = if k == seq then taken_from s s.items else some s
next seq e o = o

-- The transport fails or is closed.
abbrev pub is_failing : Event → Bool
is_failing disconnecting = true
is_failing closing = true
is_failing ending = true
is_failing e = false

abbrev pub OneOf : ℕ → Event → Option Stream → Option Stream → Type 0
OneOf seq e o o' = (o' ≡ none) ⊎ (o' ≡ next seq e o)

view-take_from :
    (c : Calls) (k seq : ℕ) (s : Stream) (items : List Item)
    → Dict.get c.streams k ≡ some s
    → Dict.get (take_from c k s items).0.streams seq
      ≡ (if k == seq then taken_from s items else Dict.get c.streams seq)
unfolding take_from
view-take_from c k seq s [] e = ground (arith, e, nat_beq_iff k seq)
view-take_from c k seq s (i ∷ items) e = ground (
  arith,
  e,
  nat_beq_iff k seq,
  Dict.get-set c.streams k (record s { items = items }) seq,
  Dict.get-remove c.streams k seq,
)

view-take_item :
    (c : Calls) (k seq : ℕ)
    → Dict.get (take_item c k).0.streams seq ≡ next seq (taking k) (Dict.get c.streams seq)
unfolding take_item
view-take_item c k seq = elim (Option-cases (Dict.get c.streams k)) [
  | inl absent ↦ rw (take_item, absent) (untouched (Dict.get c.streams seq) refl absent)
  | inr (s, present) ↦
      rw (take_item, present)
        (view-take_from c k seq s s.items present ∙ touched s present (Dict.get c.streams seq) refl)
]
  where
    untouched :
        (o : Option Stream)
        → Dict.get c.streams seq ≡ o
        → Dict.get c.streams k ≡ none
        → o ≡ next seq (taking k) o
    untouched none e absent = refl
    untouched (some s) e absent = ground (arith, e, absent, nat_beq_iff k seq)

    touched :
        (s : Stream)
        → Dict.get c.streams k ≡ some s
        → (o : Option Stream) → Dict.get c.streams seq ≡ o
        → (if k == seq then taken_from s s.items else o) ≡ next seq (taking k) o
    touched s present none e = ground (arith, e, present, nat_beq_iff k seq)
    touched s present (some s') e = ground (arith, e, present, nat_beq_iff k seq)

get-remove_or :
    (d : Dict ℕ Stream) (k seq : ℕ)
    → (Dict.get (Dict.remove d k) seq ≡ none) ⊎ (Dict.get (Dict.remove d k) seq ≡ Dict.get d seq)
get-remove_or d k seq = elim (Bool-cases (k == seq)) [
  | inl same ↦ inl (Dict.get-remove d k seq ∙ rw same refl)
  | inr other ↦ inr (Dict.get-remove d k seq ∙ rw other refl)
]

next-routing :
    (k seq : ℕ) (r : Response) (o : Option Stream)
    → (if k == seq then (elim o [ none ↦ none | some s ↦ some (offer s r) ]) else o)
      ≡ next seq (routing k r) o
next-routing k seq r none = ground arith
next-routing k seq r (some s) = refl

pub step-view :
    (c : Calls) (e : Event) (seq : ℕ)
    → is_failing e ≡ false
    → seq ≤ c.seq_id_index
    → OneOf seq e (Dict.get c.streams seq) (Dict.get (step c e).streams seq)
unfolding step clear_action_tasks route_response accept_request action_task_done time_out drop_call
    drop_stream finish_call begin_call begin_stream
step-view c calling seq n h = inr (ground arith)
step-view c streaming seq n h = inr (
    ground (
      arith,
      get-set_next c.streams c.seq_id_index (record { items = []; registered = true }) seq h,
    ))
step-view c (requesting t) seq n h = inr (ground arith)
step-view c (completing t) seq n h = inr refl
step-view c disconnecting seq n h = cc
step-view c closing seq n h = cc
step-view c ending seq n h = cc
step-view c clearing seq n h = inr refl
step-view c (routing k r) seq n h =
    inr
      (get-update c.streams k (λ s. offer s r) seq ∙ next-routing k seq r (Dict.get c.streams seq))
step-view c (timing_out k) seq n h = inr refl
step-view c (finishing k) seq n h = elim (finish_call-drop c k) [
  | inl same ↦ inr (ap (λ c'. Dict.get c'.streams seq) same)
  | inr dropped ↦ rw dropped (get-remove_or c.streams k seq)
]
step-view c (dropping_call k) seq n h = get-remove_or c.streams k seq
step-view c (taking k) seq n h = inr (view-take_item c k seq)
step-view c (dropping_stream k) seq n h = get-remove_or c.streams k seq

take_from-index :
    (c : Calls) (k : ℕ) (s : Stream) (items : List Item)
    → (take_from c k s items).0.seq_id_index ≡ c.seq_id_index
unfolding take_from
take_from-index c k s [] = refl
take_from-index c k s (i ∷ items) = refl

pub step-index : (c : Calls) (e : Event) → c.seq_id_index ≤ (step c e).seq_id_index
unfolding step clear_action_tasks route_response fail_pending accept_request action_task_done
    time_out drop_call drop_stream finish_call begin_call begin_stream close end_run take_item
step-index c calling = ground arith
step-index c streaming = ground arith
step-index c (requesting t) = ground arith
step-index c (completing t) = omega arith
step-index c disconnecting = omega arith
step-index c closing = ground arith
step-index c ending = omega arith
step-index c clearing = omega arith
step-index c (routing k r) = omega arith
step-index c (timing_out k) = omega arith
step-index c (finishing k) = ground arith
step-index c (dropping_call k) = omega arith
step-index c (taking k) = elim (Option-cases (Dict.get c.streams k)) [
  | inl absent ↦ rw (step, take_item, absent) (omega arith)
  | inr (s, present) ↦ rw (step, take_item, present) (omega (arith, take_from-index c k s s.items))
]
step-index c (dropping_stream k) = omega arith

abbrev pub is_live : Option Stream → Bool
is_live none = false
is_live (some s) = s.registered

offer-dead : (s : Stream) (r : Response) → s.registered ≡ false → (offer s r).registered ≡ false
offer-dead s r h = ground (arith, h)

taken_from-dead :
    (s : Stream) (items : List Item) → s.registered ≡ false → is_live (taken_from s items) ≡ false
taken_from-dead s [] h = h
taken_from-dead s (i ∷ items) h = ground (arith, h)

-- A stream that is gone, or that `resp_queues` has no more, does not come back.
next-dead :
    (seq : ℕ) (e : Event) (o : Option Stream) → is_live o ≡ false → is_live (next seq e o) ≡ false
next-dead seq e none h = none_dead e
  where
    none_dead : (e : Event) → is_live (next seq e none) ≡ false
    none_dead e = ground arith
next-dead seq (routing k r) (some s) h = ground (arith, h, offer-dead s r)
next-dead seq (taking k) (some s) h = ground (arith, h, taken_from-dead s s.items)
next-dead seq e (some s) h = h

pub run-dead :
    (seq : ℕ) (c : Calls) (es : List Event)
    → All (λ e. is_failing e ≡ false) es
    → seq ≤ c.seq_id_index
    → is_live (Dict.get c.streams seq) ≡ false
    → is_live (Dict.get (run c es).streams seq) ≡ false
unfolding run
run-dead seq c [] n h dead = dead
run-dead seq c (e ∷ es) n h dead =
    run-dead seq (step c e) es n.1 (omega (arith, h, step-index c e))
      (elim (step-view c e seq n.0 h) [
        | inl gone ↦ ap is_live gone
        | inr same ↦ ap is_live same ∙ next-dead seq e (Dict.get c.streams seq) dead
      ])
