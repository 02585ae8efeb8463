-- ===== src/Connection/Tests.antt =====
-- Runs of the model of connection.py, stdio.py and ws.py at concrete inputs, with a small language
-- in the place of JSON: in braces, a tag, a number and a text.
use langbot_plugin_sdk.Prelude.{
  ℕ, zero, suc, ◌≤◌, ◌≡◌, refl, ◌⊎◌, true, false, Option, none, some, List, [], ◌∷◌, ◌++◌, arith,
  ok, raise,
}
use langbot_plugin_sdk.Prelude.Int.{pos}
use langbot_plugin_sdk.Connection.{
  Text, max_message_bytes, char_size, join, split_loop, split_char, make_room, split_utf8_chunks,
}
use langbot_plugin_sdk.Connection.Split.{IsCut, split_utf8_chunks-IsCut}
use langbot_plugin_sdk.Connection.Stdio.{
  Json, Value, object, start_frame, data_frame, end_frame, send, receive, receive_start, data_lines,
  receive_chunks, take_chunk,
}
use langbot_plugin_sdk.Connection.Accepted.{IsAccepted, receive_start-IsAccepted}
use langbot_plugin_sdk.Connection.WebSocket
use langbot_plugin_sdk.Connection.WebSocket.{receive-cases, receive-send-fragments}

abbrev unclosed : Text → Text
unclosed [] = []
unclosed (c ∷ []) = []
unclosed (c ∷ d ∷ t) = c ∷ unclosed (d ∷ t)

abbrev loads : Text → Option Value
loads (b ∷ zero ∷ n ∷ t) = some (object (start_frame n))
loads (b ∷ suc zero ∷ n ∷ t) = some (object (data_frame (unclosed t) n))
loads (b ∷ suc (suc zero) ∷ n ∷ t) = some (object end_frame)
loads _ = none

abbrev json : Json
json = record {
  loads = loads;
  start_line = λ n. b'{' ∷ 0 ∷ n ∷ b'}' ∷ [];
  data_line = λ t n. b'{' ∷ 1 ∷ n ∷ (t ++ b'}' ∷ []);
  end_line = b'{' ∷ 2 ∷ 0 ∷ b'}' ∷ [];
}

program : Unit {0}
unfolding char_size make_room split_char split_loop split_utf8_chunks data_lines send take_chunk
    receive_chunks receive_start receive WebSocket.send WebSocket.receive_fragments
    WebSocket.receive
program = tt

-- Three characters of three bytes each, in chunks of four bytes.
abbrev greeting : Text
greeting = 0x4f60 ∷ 0x597d ∷ 0x21 ∷ 0x4f60 ∷ []

cut_greeting :
    split_utf8_chunks greeting 4 ≡ ok ((0x4f60 ∷ []) ∷ (0x597d ∷ 0x21 ∷ []) ∷ (0x4f60 ∷ []) ∷ [])
unfolding program
cut_greeting = refl

split_utf8_chunks-IsCut_example :
    (chunks : List Text) × (split_utf8_chunks greeting 4 ≡ ok chunks) × IsCut 4 greeting chunks
split_utf8_chunks-IsCut_example = split_utf8_chunks-IsCut greeting 4 (omega arith)

abbrev greetings : List Text
greetings = greeting ∷ []

-- The lines of the greeting after the first.
abbrev greeting_lines : List Text
greeting_lines =
    data_lines json 0 ((0x4f60 ∷ []) ∷ (0x597d ∷ 0x21 ∷ []) ∷ (0x4f60 ∷ []) ∷ [])
    ++ json.end_line ∷ []

receive_start-IsAccepted_example :
    (total : ℕ) × (some (pos 10) ≡ some (pos total))
    × (total ≤ max_message_bytes)
    × IsAccepted total 0 greeting_lines greeting []
unfolding program
receive_start-IsAccepted_example =
    receive_start-IsAccepted json (some (pos 10)) greeting_lines greeting [] refl

receive-cases_example :
    (WebSocket.IsSmall greetings × (WebSocket.receive greetings ≡ (ok (join greetings), true)))
    ⊎ (¬ WebSocket.IsSmall greetings
        × ((e : WebSocket.WebSocketError) × (WebSocket.receive greetings ≡ (raise e, false))))
receive-cases_example = receive-cases greetings

receive-send-fragments_example :
    (fragments : List Text) × (WebSocket.send 4 greeting ≡ ok fragments)
    × (WebSocket.receive fragments ≡ (ok greeting, true))
unfolding program
receive-send-fragments_example =
    receive-send-fragments 4 greeting (omega arith) (omega arith) (omega arith)
