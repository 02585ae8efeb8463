-- ===== src/Handler/Calls/Ordered.antt =====
-- The order of the responses of one stream of handler.py.
use mathlib.Core.List.{append-nil, append_assoc, map-append}
use langbot_plugin_sdk.Prelude.{
  ℕ, ◌≤◌, ◌≡◌, ◌≢◌, refl, sym, ap, ◌∙◌, inl, inr, true, false, Option, none, some, List, [], ◌∷◌,
  ◌++◌, map, if◌then◌else◌, ◌==◌, nat_eq, nat_beq_iff, arith, All, Bool-cases,
}
use langbot_plugin_sdk.Prelude.Dict
use langbot_plugin_sdk.Prelude.Dict.{Dict}
use langbot_plugin_sdk.Handler.Calls.{
  Calls, Response, Item, Stream, take_item, take_from, offer, see, Seen,
}
use langbot_plugin_sdk.Handler.Calls.System.{Event, routing, taking, step, run}
use langbot_plugin_sdk.Handler.Calls.View.{
  taken_from, next, is_failing, is_live, step-index, run-dead, step-view,
}

-- The responses that the peer sent to the call `seq`, in order.
abbrev pub routed : ℕ → List Event → List Item
routed seq [] = []
routed seq (routing k r ∷ es) =
    let rest = routed seq es in if k == seq then Item.response r ∷ rest else rest
routed seq (e ∷ es) = routed seq es

abbrev to_list : Option Seen → List Seen
to_list none = []
to_list (some x) = x ∷ []

-- What the consumer of the stream `seq` gets from one event.
abbrev given : ℕ → Calls → Event → List Seen
given seq c (taking k) = if k == seq then to_list (take_item c k).1 else []
given seq c e = []

-- What the consumer of the stream `seq` gets, in order.
abbrev pub consumed : ℕ → Calls → List Event → List Seen
consumed seq c [] = []
consumed seq c (e ∷ es) = given seq c e ++ consumed seq (step c e) es

-- A response that arrives is the last that the consumer of a live stream gets.
offer-ordered :
    (s : Stream) (r : Response)
    → (offer s r).registered ≡ true
    → map see s.items ++ see (Item.response r) ∷ [] ≡ map see (offer s r).items
offer-ordered s r live = ground (arith, live, map-append see s.items (Item.response r ∷ []))

taken_from-ordered :
    (c : Calls) (seq : ℕ) (s s' : Stream) (items : List Item)
    → taken_from s items ≡ some s'
    → items ≡ s.items
    → map see items ≡ to_list (take_from c seq s items).1 ++ map see s'.items
unfolding take_from
taken_from-ordered c seq s s' [] e same = ground (arith, e, same)
taken_from-ordered c seq s s' (i ∷ items) e same = ground (arith, e)

some_inj : {x y : Stream} → some x ≡ some y → x ≡ y
some_inj e = cc

untouched :
    {s s' : Stream} (later : List Seen)
    → s ≡ s'
    → map see s.items ++ later ≡ map see s'.items ++ later
untouched later e = ap (λ x. map see x.items ++ later) e

get-same :
    (k seq : ℕ) {s : Stream} (d : Dict ℕ Stream)
    → (k == seq) ≡ true
    → Dict.get d seq ≡ some s
    → Dict.get d k ≡ some s
get-same k seq d same present = ground (arith, same, present, nat_beq_iff k seq)

take_item-ordered :
    (c : Calls) (k : ℕ) (s s' : Stream)
    → Dict.get c.streams k ≡ some s
    → taken_from s s.items ≡ some s'
    → map see s.items ≡ to_list (take_item c k).1 ++ map see s'.items
unfolding take_item
take_item-ordered c k s s' present after =
    rw (take_item, present) (taken_from-ordered c k s s' s.items after refl)

live-some :
    (o : Option Stream) → is_live o ≢ false → (s : Stream) × (o ≡ some s) × (s.registered ≡ true)
live-some none h = absurd (h refl)
live-some (some s) h = (s, refl, ground (arith, h))

lasts :
    (seq : ℕ) (c : Calls) (e : Event) (es : List Event) (s' : Stream)
    → seq ≤ c.seq_id_index
    → All (λ e. is_failing e ≡ false) (e ∷ es)
    → Dict.get (run (step c e) es).streams seq ≡ some s'
    → s'.registered ≡ true
    → (s : Stream) × (Dict.get (step c e).streams seq ≡ some s) × (s.registered ≡ true)
lasts seq c e es s' h n after live = live-some (Dict.get (step c e).streams seq) (λ dead.
    true-≢-false (
      sym live
      ∙ sym (ap is_live after)
      ∙ run-dead seq (step c e) es n.1 (omega (arith, h, step-index c e)) dead))
  where
    true-≢-false : true ≢ false
    true-≢-false e = cc

step-next :
    (seq : ℕ) (c : Calls) (e : Event) (s t : Stream)
    → is_failing e ≡ false
    → seq ≤ c.seq_id_index
    → Dict.get c.streams seq ≡ some s
    → Dict.get (step c e).streams seq ≡ some t
    → next seq e (some s) ≡ some t
step-next seq c e s t n h before there = elim (step-view c e seq n h) [
  | inl gone ↦ ground (arith, gone, there)
  | inr same ↦ ap (next seq e) (sym before) ∙ sym same ∙ there
]

step-ordered :
    (seq : ℕ) (c : Calls) (e : Event) (es : List Event) (s s' : Stream)
    → Dict.get c.streams seq ≡ some s
    → next seq e (some s) ≡ some s'
    → s'.registered ≡ true
    → map see s.items ++ map see (routed seq (e ∷ es))
      ≡ given seq c e ++ map see s'.items ++ map see (routed seq es)
step-ordered seq c (routing k r) es s s' present after live = elim (Bool-cases (k == seq)) [
  | inl same ↦
      let arrived : offer s r ≡ s' = some_inj (rw (next, same) at after) in
      rw (given, routed, same)
        (sym (append_assoc (map see s.items) (see (Item.response r) ∷ []) (map see (routed seq es)))
          ∙ ap (λ x. x ++ map see (routed seq es))
              (offer-ordered s r (ap (λ x. x.registered) arrived ∙ live)
                ∙ ap (λ x. map see x.items) arrived))
  | inr other ↦
      rw (given, routed, other)
        (untouched (map see (routed seq es)) (some_inj (rw (next, other) at after)))
]
step-ordered seq c (taking k) es s s' present after live = elim (Bool-cases (k == seq)) [
  | inl same ↦
      rw (given, same)
        (ap (λ x. x ++ map see (routed seq es))
          (take_item-ordered c k s s' (get-same k seq c.streams same present)
            (rw (next, same) at after)))
  | inr other ↦
      rw (given, other) (untouched (map see (routed seq es)) (some_inj (rw (next, other) at after)))
]
step-ordered seq c e es s s' present after live =
    untouched (map see (routed seq es)) (some_inj after)

-- While a stream of a call lasts and the transport does not fail, its consumer gets what the queue
-- held and then what the peer sends to the call, every item, once and in order: what it has got
-- with what the queue still holds is what the queue held with what was sent.
pub ordered :
    (seq : ℕ) (c : Calls) (es : List Event) (s s' : Stream)
    → seq ≤ c.seq_id_index
    → All (λ e. is_failing e ≡ false) es
    → Dict.get c.streams seq ≡ some s
    → Dict.get (run c es).streams seq ≡ some s'
    → s'.registered ≡ true
    → map see s.items ++ map see (routed seq es) ≡ consumed seq c es ++ map see s'.items
unfolding run
ordered seq c [] s s' h n before after live =
    append-nil (map see s.items) ∙ ap (λ x. map see x.items) (some_inj (sym before ∙ after))
ordered seq c (e ∷ es) s s' h n before after live =
    let (t, there, lasting) = lasts seq c e es s' h n after live in
    step-ordered seq c e es s t before (step-next seq c e s t n.0 h before there) lasting
    ∙ append_assoc (given seq c e) (map see t.items) (map see (routed seq es))
    ∙ ap (λ x. given seq c e ++ x)
        (ordered seq (step c e) es t s' (omega (arith, h, step-index c e)) n.1 there after live)
    ∙ sym (append_assoc (given seq c e) (consumed seq (step c e) es) (map see s'.items))
