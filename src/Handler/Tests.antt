-- ===== src/Handler/Tests.antt =====
-- Runs of the model of runtime/io/handler.py at concrete inputs, with a code of four numbers for
-- each three bytes in the place of base64.
use langbot_plugin_sdk.Prelude.{
  ℕ, zero, suc, ◌+◌, ◌*◌, ◌/◌, ◌≤◌, ◌≡◌, ◌≢◌, refl, ◌⊎◌, inr, true, false, map, String, Option,
  none, some, List, [], ◌∷◌, ◌++◌, arith, length, ok, lstrip, rstrip, list_eq, nat_eq,
}
use langbot_plugin_sdk.Prelude.Dict
use langbot_plugin_sdk.Prelude.Int.{pos}
use langbot_plugin_sdk.Context.{Envelope, workspace, installation, same_workspace}
use langbot_plugin_sdk.Handler.{
  bind_action_context, validate_inbound_action_context, resolve_outbound_action_context,
}
use langbot_plugin_sdk.Handler.Bound.{Within, rebinds, isolated}
use langbot_plugin_sdk.Handler.Files.{
  Text, Bytes, text, integer, Chunk, Transfers, Base64, matches_key, matches_extension,
  file_storage_path, check_chunk, store_chunk, file_chunk, read_local_file, delete_local_file,
  cleanup_owned_transfers, max_active_file_transfers, Refusals, is_owned,
}
use langbot_plugin_sdk.Handler.Calls.{
  Calls, Stream, Response, ended, response, yielded, raised, failed_with, see, take_item, take_from,
  route_response, begin_call,
}
use langbot_plugin_sdk.Handler.Calls.System
use langbot_plugin_sdk.Handler.Calls.System.{Event, routing, taking, calling}
use langbot_plugin_sdk.Handler.Calls.Ordered.{consumed}
use langbot_plugin_sdk.Handler.Dispatch.{
  Exception, Request, Service, generated, produce, handle_action, as_chunk, error_response,
}
use langbot_plugin_sdk.Handler.Streamed.{consumed-handle_action}
use langbot_plugin_sdk.Handler.Transfer.{Naming, requests, send_file, deliver}
use langbot_plugin_sdk.Handler.SafeKey.{IsStrip, IsNaming}
use langbot_plugin_sdk.Handler.Delivered.{IsBase64, read_local_file-send_file}
use langbot_plugin_sdk.Handler.Owned.{
  Operation, receiving, deleting, refused_in, after, run, cleanup-run,
}

abbrev encode : Bytes → Text
encode [] = []
encode (a ∷ []) = a ∷ 0 ∷ 0 ∷ 1 ∷ []
encode (a ∷ b ∷ []) = a ∷ b ∷ 0 ∷ 2 ∷ []
encode (a ∷ b ∷ c ∷ t) = a ∷ b ∷ c ∷ 3 ∷ encode t

abbrev group : ℕ → ℕ → ℕ → ℕ → Bytes → Option Bytes
group a b c zero rest = none
group a b c (suc zero) rest = some (a ∷ rest)
group a b c (suc (suc zero)) rest = some (a ∷ b ∷ rest)
group a b c (suc (suc (suc k))) rest = some (a ∷ b ∷ c ∷ rest)

abbrev decode : Text → Option Bytes
decode [] = some []
decode (a ∷ b ∷ c ∷ k ∷ t) = elim (decode t) [ none ↦ none | some rest ↦ group a b c k rest ]
decode _ = none

abbrev code : Base64
code = record { encode = encode; decode = decode }

decode-encode : (t : Bytes) → decode (encode t) ≡ some t
decode-encode [] = refl
decode-encode (a ∷ []) = refl
decode-encode (a ∷ b ∷ []) = refl
decode-encode (a ∷ b ∷ c ∷ t) = rw (decode-encode t) refl

length-encode : (t : Bytes) → length (encode t) ≡ (length t + 2) / 3 * 4
length-encode [] = refl
length-encode (a ∷ []) = refl
length-encode (a ∷ b ∷ []) = refl
length-encode (a ∷ b ∷ c ∷ t) = omega (arith, length-encode t)

code-IsBase64 : IsBase64 code
code-IsBase64 = record { decode_encode = decode-encode; length_encode = length-encode }

abbrev strip : Text → Text
strip t = t

strip-IsStrip : IsStrip strip
strip-IsStrip = record { keeps = λ t h. refl }

abbrev zeros : ℕ → Text
zeros zero = []
zeros (suc n) = b'0' ∷ zeros n

abbrev names : Naming
names = record { sha256 = λ b. zeros 64; uuid = zeros 32 }

names-IsNaming : IsNaming names
names-IsNaming = record {
  sha256_chars = λ b. refl;
  sha256_length = λ b. refl;
  uuid_chars = refl;
  uuid_length = refl;
}

program : Unit {0}
unfolding bind_action_context validate_inbound_action_context resolve_outbound_action_context
    same_workspace rebinds matches_key matches_extension file_storage_path check_chunk store_chunk
    file_chunk read_local_file delete_local_file cleanup_owned_transfers requests send_file deliver
    after run Dict.get Dict.set Dict.remove lstrip rstrip
program = tt

abbrev bound : Envelope
bound = installation (record {
  instance_uuid = "i";
  workspace_uuid = "w";
  placement_generation = 1;
  installation_uuid = "p";
  runtime_revision = 1;
  artifact_digest = "d";
})

abbrev other : Envelope
other = workspace (record {
  instance_uuid = "i";
  workspace_uuid = "v";
  placement_generation = 1;
  installation_uuid = none;
})

-- An attempt to move to another Workspace, then a request without a context.
isolated_example :
    (validate_inbound_action_context (some (rebinds bound (other ∷ []))) none ≡ ok (some bound)
      → (e : Envelope) × (some bound ≡ some e)
        × Within e bound
        × ((c : Envelope) → none ≡ some c → Within c bound))
    × (resolve_outbound_action_context (some (rebinds bound (other ∷ []))) none ≡ ok (some bound)
        → (e : Envelope) × (some bound ≡ some e) × Within e bound)
isolated_example = isolated bound (other ∷ []) none (some bound)

stays_bound :
    validate_inbound_action_context (some (rebinds bound (other ∷ []))) none ≡ ok (some bound)
unfolding program
stays_bound = refl

abbrev receiver : Transfers
receiver = record {
  files = (b'k' ∷ [], 7 ∷ []) ∷ [];
  owned_transfer_files = [];
  max_file_bytes = some 5;
}

abbrev file_bytes : Bytes
file_bytes = 1 ∷ 2 ∷ 3 ∷ 4 ∷ []

abbrev key : Text
key = zeros 16 ++ b'-' ∷ (zeros 32 ++ b'.' ∷ b'b' ∷ [])

abbrev chunk : Chunk
chunk = record {
  file_key = text key;
  chunk_base64 = text (encode file_bytes);
  chunk_index = integer (pos 0);
  chunk_amount = integer (pos 1);
}

read_local_file-send_file_example :
    (s' : Transfers) × (deliver strip code receiver (chunk ∷ []) ≡ (s', ok tt))
    × (read_local_file strip s' key ≡ ok file_bytes)
    × ((k : Text) → k ≢ key → Dict.get s'.files k ≡ Dict.get receiver.files k)
unfolding program
read_local_file-send_file_example =
    read_local_file-send_file strip code code-IsBase64 (some 5) names file_bytes (b'.' ∷ b'b' ∷ [])
      key (chunk ∷ []) receiver strip-IsStrip names-IsNaming refl
      (record { room = inr (omega arith); fits = λ l e. ground (arith, e) })

abbrev everything : Refusals
everything k = true

abbrev nothing : Refusals
nothing k = false

-- The first deletion fails, the second does not.
abbrev operations : List Operation
operations =
    receiving chunk
    ∷ deleting (b'k' ∷ []) everything
    ∷ receiving chunk
    ∷ deleting (b'j' ∷ []) nothing
    ∷ []

cleanup-run_example :
    (length (run strip code receiver operations).owned_transfer_files ≤ max_active_file_transfers)
    × ((cleanup_owned_transfers nothing (run strip code receiver operations)).owned_transfer_files
        ≡ [])
    × ((k : Text) (content : Bytes)
        → Dict.get (cleanup_owned_transfers nothing (run strip code receiver operations)).files k
          ≡ some content
        → (Dict.get receiver.files k ≡ some content)
          ⊎ (((is_owned (run strip code receiver operations) k ≡ true) × (nothing k ≡ true))
              ⊎ (refused_in k operations ≡ true)))
cleanup-run_example = cleanup-run strip code receiver operations nothing refl

-- An action that yields two responses and then raises.
abbrev failure : Exception
failure = record { class_name = b'E' ∷ []; message = b'x' ∷ [] }

abbrev part : String → Response
part payload = record { code = pos 0; message = "success"; payload = payload; chunk_status = ended }

abbrev service : Service
service = record {
  actions =
      λ name. some (λ context payload. ok (generated (part "1" ∷ part "2" ∷ []) (some failure)));
  action_not_found = λ name. failure;
  context_refused = λ e. failure;
}

abbrev request : Request
request = record { action = "count"; payload = "{}"; context = none }

-- The other end has begun its seventh call, a stream.
abbrev waiting_end : Calls
waiting_end = record {
  seq_id_index = 7;
  resp_waiters = [];
  streams = (7, record { items = []; registered = true }) ∷ [];
  action_tasks = [];
  closed = false;
}

abbrev shown : Text → String
shown t = "E: x"

abbrev left_over : Stream
left_over = record {
  items = response (as_chunk (part "2")) ∷ response (error_response shown failure) ∷ [];
  registered = true;
}

-- The first response is read before the others arrive.
abbrev stream_events : List Event
stream_events =
    routing 7 (as_chunk (part "1"))
    ∷ taking 7
    ∷ routing 7 (as_chunk (part "2"))
    ∷ calling
    ∷ routing 7 (error_response shown failure)
    ∷ []

consumed-handle_action_example :
    consumed 7 waiting_end stream_events ++ map see left_over.items
    ≡ yielded "1" ∷ yielded "2" ∷ raised (failed_with "E: x") ∷ []
unfolding program produce handle_action take_item take_from route_response begin_call System.step
    System.run
consumed-handle_action_example =
    consumed-handle_action shown service (some bound) 7 (ok request) (part "1" ∷ part "2" ∷ [])
      (some failure) waiting_end stream_events (record { items = []; registered = true }) left_over
      refl (refl, (refl, tt)) (omega arith) refl refl (refl, (refl, (refl, (refl, (refl, tt)))))
      refl refl refl
