-- ===== src/Handler/Dispatch.antt =====
-- The dispatch of one request of the peer in handler.py: `_handle_action`, for a task that is not
-- cancelled and a connection that stays open. What an action does is what it returns or raises, given
-- the context of the request; pydantic's validation of a request is an argument, and `string` is the
-- string of a list of code points. A payload is its JSON text.
use langbot_plugin_sdk.Prelude.{
  ℕ, String, Option, none, some, List, [], ◌∷◌, ◌++◌, map, length, take, ltb, if◌then◌else◌, Result,
  ok, raise, ◌>>=◌,
}
use langbot_plugin_sdk.Prelude.Int.{pos}
use langbot_plugin_sdk.Context.{Envelope}
use langbot_plugin_sdk.Handler.{ContextError, validate_inbound_action_context}
use langbot_plugin_sdk.Handler.Calls.{continued, ended, Response}

abbrev pub Text : Type 0
Text = List ℕ

abbrev pub max_protocol_error_chars : ℕ
max_protocol_error_chars = 4096

-- An exception, by the name of its class and its text.
pub record Exception : Type 0 where
  pub class_name : Text
  pub message : Text

-- What an action returns: a response, or a generator of responses that ends or raises.
pub data Produced : Type 0 where
  returned : Response → Produced
  generated : List Response → Option Exception → Produced

pub record Request : Type 0 where
  pub action : String
  pub payload : String
  pub context : Option Envelope

-- A response with its `seq_id`
abbrev pub Message : Type 0
Message = ℕ × Response

-- The actions that are registered, and the texts of the exceptions of the dispatch.
pub record Service : Type 0 where
  pub actions : String → Option (Option Envelope → String → Result Exception Produced)
  pub action_not_found : String → Exception
  pub context_refused : ContextError → Exception

-- `"... [protocol error truncated]"`
abbrev truncation : Text
truncation =
    b'.' ∷ b'.' ∷ b'.' ∷ b' ' ∷ b'[' ∷ b'p' ∷ b'r' ∷ b'o' ∷ b't' ∷ b'o' ∷ b'c' ∷ b'o' ∷ b'l' ∷ b' '
    ∷ b'e' ∷ b'r' ∷ b'r' ∷ b'o' ∷ b'r' ∷ b' ' ∷ b't' ∷ b'r' ∷ b'u' ∷ b'n' ∷ b'c' ∷ b'a' ∷ b't'
    ∷ b'e' ∷ b'd' ∷ b']' ∷ []

unfoldable pub format_protocol_error : Exception → Text
format_protocol_error e =
    let message =
      if ltb max_protocol_error_chars (length e.message)
      then take max_protocol_error_chars e.message ++ truncation
      else e.message in
    e.class_name ++ b':' ∷ b' ' ∷ message

-- The response after the last chunk
abbrev pub end_response : Response
end_response = record { code = pos 0; message = "success"; payload = "{}"; chunk_status = ended }

abbrev pub as_chunk : Response → Response
as_chunk r = record r { chunk_status = continued }

-- The part of `_handle_action` that may raise before a response is sent.
unfoldable pub produce :
    Service → Option Envelope → Result Exception Request → Result Exception Produced
unfolding validate_inbound_action_context
produce service bound parsed = do
  request ← parsed
  run ← (elim (service.actions request.action) [
    | none ↦ raise (service.action_not_found request.action)
    | some run ↦ ok run
  ])
  context ← (elim (validate_inbound_action_context bound request.context) [
    | raise e ↦ raise (service.context_refused e)
    | ok context ↦ ok context
  ])
  run context request.payload

module _ (string : Text → String) where
  abbrev pub error_response : Exception → Response
  error_response e = record {
    code = pos 1;
    message = string (format_protocol_error e);
    payload = "{}";
    chunk_status = continued;
  }

  abbrev pub last_response : Option Exception → Response
  last_response none = end_response
  last_response (some e) = error_response e

  abbrev pub responses : Result Exception Produced → List Response
  responses (raise e) = error_response e ∷ []
  responses (ok (returned r)) = r ∷ []
  responses (ok (generated rs end)) = map as_chunk rs ++ last_response end ∷ []

  -- What `_handle_action` sends.
  unfoldable pub handle_action :
      Service → Option Envelope → ℕ → Result Exception Request → List Message
  unfolding produce
  handle_action service bound seq_id parsed =
      map (λ r. (seq_id, r)) (responses (produce service bound parsed))
