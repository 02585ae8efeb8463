-- ===== src/Connection/Stdio.antt =====
-- `StdioConnection.send` and `StdioConnection.receive` of runtime/io/connections/stdio.py. A pipe is
-- the list of the lines that were written and not read, each decoded and stripped; its end is the
-- end of the stream or of the process. `send` writes a newline after each text, so a text is read as
-- one line if it has no newline and no white space at its ends. The limit of `readline` is taken on
-- the text of the line without the white space at its ends. JSON is Python's `json`: `Json` is
-- the part of it that the connection uses.
use langbot_plugin_sdk.Prelude.{
  ℕ, ◌+◌, ◌*◌, ◌≡◌, Bool, true, false, ◌&&◌, ◌||◌, not, Option, none, some, List, [], ◌∷◌, ◌++◌,
  Result, ok, raise, ◌>>=◌, ◌>>◌, raise_if, ltb, leb, if◌then◌else◌, ◌==◌, nat_eq,
}
use langbot_plugin_sdk.Prelude.Int.{ℤ, pos, negsuc}
use langbot_plugin_sdk.Connection.{
  Text, max_message_bytes, max_message_fragments, text_size, join, split_utf8_chunks, is_empty,
}

-- The values of "type" that `receive` knows.
pub data Kind : Type 0 where
  chunk_start chunk_data chunk_end other_kind : Kind

-- The "data" of a chunk: a text, missing, or a value with no `encode`.
pub data Payload : Type 0 where
  missing not_text : Payload
  text : Text → Payload

-- A parsed line: an object with the entries that `receive` reads, or any other value. `total_size`
-- is what `int` makes of the entry, and `offset` the integer that the entry equals, if any.
pub record Frame : Type 0 where
  pub kind : Option Kind
  pub total_size : Option ℤ
  pub payload : Payload
  pub offset : Option ℤ

pub data Value : Type 0 where
  object : Frame → Value
  other_value : Value

pub record Json : Type 0 where
  pub loads : Text → Option Value
  pub start_line : ℕ → Text
  pub data_line : Text → ℕ → Text
  pub end_line : Text

-- `_DEFAULT_LIMIT` of controllers/stdio/server.py, also the default of asyncio's readers
abbrev pub max_line_bytes : ℕ
max_line_bytes = 65536

-- `readline` raises on a line of more bytes than the limit, its newline not counted.
abbrev pub is_overlong : Text → Bool
is_overlong line = ltb max_line_bytes (text_size line)

abbrev pub newline : ℕ
newline = 10

-- `line.startswith("{") and line.endswith("}")`
abbrev ends_braced : Text → Bool
ends_braced [] = false
ends_braced (c ∷ []) = c == b'}'
ends_braced (c ∷ d ∷ t) = ends_braced (d ∷ t)

abbrev pub is_braced : Text → Bool
is_braced [] = false
is_braced (c ∷ t) = c == b'{' && ends_braced (c ∷ t)

abbrev pub start_frame : ℕ → Frame
start_frame n = record {
  kind = some chunk_start;
  total_size = some (pos n);
  payload = missing;
  offset = none;
}

abbrev pub data_frame : Text → ℕ → Frame
data_frame t n = record {
  kind = some chunk_data;
  total_size = none;
  payload = text t;
  offset = some (pos n);
}

abbrev pub end_frame : Frame
end_frame = record { kind = some chunk_end; total_size = none; payload = missing; offset = none }

-- `json.loads` reads what `json.dumps` wrote, and an object is written in braces.
pub record IsJson (j : Json) : Type 0 where
  pub start_read : (n : ℕ) → j.loads (j.start_line n) ≡ some (object (start_frame n))
  pub data_read : (t : Text) (n : ℕ) → j.loads (j.data_line t n) ≡ some (object (data_frame t n))
  pub end_read : j.loads j.end_line ≡ some (object end_frame)
  pub start_braced : (n : ℕ) → is_braced (j.start_line n) ≡ true
  pub data_some : (t : Text) (n : ℕ) → is_empty (j.data_line t n) ≡ false
  pub end_some : is_empty j.end_line ≡ false

pub data StdioError : Type 0 where
  message_too_large too_many_fragments connection_closed : StdioError

-- `chunk_data.get("offset") == received_size`
abbrev is_offset : Option ℤ → ℕ → Bool
is_offset (some (pos n)) m = n == m
is_offset _ m = false

-- `chunk_data.get("data", "")`, as far as `encode` accepts it
abbrev payload_text : Payload → Result StdioError Text
payload_text missing = ok []
payload_text not_text = raise connection_closed
payload_text (text t) = ok t

module _ (j : Json) where
  -- The loop over the chunks of `send`.
  unfoldable pub data_lines : ℕ → List Text → List Text
  data_lines offset [] = []
  data_lines offset (t ∷ ts) = j.data_line t offset ∷ data_lines (offset + text_size t) ts

  -- The lines that `send` writes. `split_utf8_chunks` runs inside its `try`.
  unfoldable pub send : ℕ → Text → Result StdioError (List Text)
  send chunk_size message = do
    let message_size = text_size message
    raise_if (ltb max_message_bytes message_size) message_too_large
    raise_if (ltb (chunk_size * max_message_fragments) message_size) too_many_fragments
    if leb message_size chunk_size
        then ok (message ∷ [])
        else (elim (split_utf8_chunks message chunk_size) [
          | raise e ↦ raise connection_closed
          | ok chunks ↦ ok (j.start_line message_size ∷ (data_lines 0 chunks ++ j.end_line ∷ []))
        ])

  -- One chunk: its offset, its text and the declared size are checked in this order.
  unfoldable pub take_chunk : ℕ → ℕ → Frame → Result StdioError Text
  take_chunk total received f = do
    raise_if (not (is_offset f.offset received)) connection_closed
    piece ← payload_text f.payload
    raise_if (ltb total (received + text_size piece)) connection_closed
    ok piece

  -- The inner loop of `receive`, with its variables. The text and the lines that are left.
  unfoldable pub receive_chunks :
      ℕ → ℕ → ℕ → List Text → List Text → Result StdioError (Text × List Text)
  unfolding take_chunk
  receive_chunks total received fragments chunks [] = raise connection_closed
  receive_chunks total received fragments chunks (line ∷ lines) =
      let skip = receive_chunks total received (fragments + 1) chunks lines in
      let more = λ (piece : Text).
        receive_chunks total (received + text_size piece) (fragments + 1) (chunks ++ piece ∷ [])
          lines in
      if is_overlong line || ltb max_message_fragments (fragments + 1)
      then raise connection_closed
      else if is_empty line
      then skip
      else elim (j.loads line) [
        | none ↦ skip
        | some other_value ↦ raise connection_closed
        | some (object f) ↦ elim f.kind [
          | some chunk_data ↦ (do piece ← take_chunk total received f; more piece)
          | some chunk_end ↦
              if received == total then ok (join chunks, lines) else raise connection_closed
          | _ ↦ skip
        ]
      ]

  -- `int(msg_data.get("total_size", -1))` within the limit, then the inner loop.
  unfoldable pub receive_start : Option ℤ → List Text → Result StdioError (Text × List Text)
  unfolding receive_chunks
  receive_start none lines = raise connection_closed
  receive_start (some (negsuc n)) lines = raise connection_closed
  receive_start (some (pos n)) lines =
      if leb n max_message_bytes then receive_chunks n 0 0 [] lines else raise connection_closed

  -- The outer loop. Chunk lines outside a chunked message, and lines that are not in braces, are
  -- passed over.
  unfoldable pub receive : List Text → Result StdioError (Text × List Text)
  unfolding receive_start
  receive [] = raise connection_closed
  receive (line ∷ lines) =
      let again = receive lines in
      if is_overlong line
      then raise connection_closed
      else if not (is_braced line)
      then again
      else elim (j.loads line) [
        | none ↦ ok (line, lines)
        | some other_value ↦ ok (line, lines)
        | some (object f) ↦ elim f.kind [
          | none ↦ ok (line, lines)
          | some other_kind ↦ ok (line, lines)
          | some chunk_start ↦ receive_start f.total_size lines
          | some _ ↦ again
        ]
      ]
