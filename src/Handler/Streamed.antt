-- ===== src/Handler/Streamed.antt =====
-- What an action of one end of a connection yields, at the other end of handler.py: the responses of
-- `_handle_action`, as the queue and the consumer of `call_action_generator` get them.
use langbot_plugin_sdk.Prelude.{
  ℕ, ◌≤◌, ◌≡◌, refl, sym, ap, ◌∙◌, String, true, false, Option, none, some, List, [], ◌∷◌, ◌++◌,
  map, Result, ok, arith, All, nat_eq, ==_refl,
}
use langbot_plugin_sdk.Prelude.Dict
use langbot_plugin_sdk.Context.{Envelope}
use langbot_plugin_sdk.Handler.Dispatch.{
  Text, Exception, Request, Service, Message, generated, as_chunk, last_response,
  format_protocol_error, produce, responses, handle_action,
}
use langbot_plugin_sdk.Handler.Calls.{
  Calls, Response, Item, Stream, Seen, yielded, stopped, raised, failed_with, see, is_success,
}
use langbot_plugin_sdk.Handler.Calls.System.{Event, routing, run}
use langbot_plugin_sdk.Handler.Calls.View.{is_failing}
use langbot_plugin_sdk.Handler.Calls.Ordered.{routed, consumed, ordered}

-- A message at the other end is a response that is routed by its `seq_id`.
abbrev pub arrives : Message → Event
arrives m = routing m.0 m.1

routed-arrives :
    (seq_id : ℕ) (rs : List Response)
    → routed seq_id (map arrives (map (λ r. (seq_id, r)) rs)) ≡ map Item.response rs
routed-arrives seq_id [] = refl
routed-arrives seq_id (r ∷ rs) =
    rw (==_refl seq_id) (ap (λ is. Item.response r ∷ is) (routed-arrives seq_id rs))

module _ (string : Text → String) where
  abbrev pub last_seen : Option Exception → Seen
  last_seen none = stopped
  last_seen (some e) = raised (failed_with (string (format_protocol_error e)))

  see_chunk :
      (r : Response)
      → is_success r.code ≡ true
      → see (Item.response (as_chunk r)) ≡ yielded r.payload
  see_chunk r h = ground (arith, h)

  see_chunks :
      (rs : List Response) (end : Option Exception)
      → All (λ r. is_success r.code ≡ true) rs
      → map see (map Item.response (map as_chunk rs ++ last_response string end ∷ []))
        ≡ map (λ r. yielded r.payload) rs ++ last_seen end ∷ []
  see_chunks [] none h = refl
  see_chunks [] (some e) h = refl
  see_chunks (r ∷ rs) end h =
      ap (λ x. x ∷ map see (map Item.response (map as_chunk rs ++ last_response string end ∷ [])))
        (see_chunk r h.0)
      ∙ ap (λ s. yielded r.payload ∷ s) (see_chunks rs end h.1)

  -- An action yields successful responses and then ends or raises. At the other end the stream of that
  -- `seq_id` was empty, whatever happens there short of a failure of the connection, and what reaches
  -- the call is what the dispatch sends to it. Then as long as the stream lasts, what its consumer has
  -- got with what the queue still holds is: the payloads that the action yielded, in order, and then
  -- the end, or an error with the text of the exception.
  pub consumed-handle_action :
      (service : Service) (bound : Option Envelope) (seq_id : ℕ) (parsed : Result Exception Request)
      (rs : List Response) (end : Option Exception) (c : Calls) (es : List Event) (s s' : Stream)
      → produce service bound parsed ≡ ok (generated rs end)
      → All (λ r. is_success r.code ≡ true) rs
      → seq_id ≤ c.seq_id_index
      → Dict.get c.streams seq_id ≡ some s
      → s.items ≡ []
      → All (λ e. is_failing e ≡ false) es
      → routed seq_id es
        ≡ routed seq_id (map arrives (handle_action string service bound seq_id parsed))
      → Dict.get (run c es).streams seq_id ≡ some s'
      → s'.registered ≡ true
      → consumed seq_id c es ++ map see s'.items
        ≡ map (λ r. yielded r.payload) rs ++ last_seen end ∷ []
  unfolding handle_action
  consumed-handle_action service bound seq_id parsed rs end c es s s' produced h begun there empty
        unbroken sent lasting live =
      sym (ordered seq_id c es s s' begun unbroken there lasting live)
      ∙ ap (λ is. map see is ++ map see (routed seq_id es)) empty
      ∙ ap (map see) sent
      ∙ ap
          (λ p. map see (routed seq_id (map arrives (map (λ r. (seq_id, r)) (responses string p)))))
          produced
      ∙ ap (map see) (routed-arrives seq_id (map as_chunk rs ++ last_response string end ∷ []))
      ∙ see_chunks rs end h
