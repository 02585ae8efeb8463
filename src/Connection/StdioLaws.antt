-- ===== src/Connection/StdioLaws.antt =====
-- What a pipe carries: the lines that `send` of stdio.py writes, as `receive` reads them. A chunk of
-- the default size of 16 KiB can be a line of up to 96 KiB, since JSON writes a control character as
-- six; such a line is longer than `readline` returns.
use langbot_plugin_sdk.Prelude.{◌≤◌, ◌≡◌, ◌≢◌, All, ◌⊎◌, true, Option, none, some, List}
use langbot_plugin_sdk.Connection.{Text, text_size}
use langbot_plugin_sdk.Connection.Stdio.{
  Json, newline, Kind, Frame, object, other_kind, is_braced, max_line_bytes,
}

-- No chunk of a longer message.
abbrev pub IsPlainKind : Option Kind → Type 0
IsPlainKind k = (k ≡ none) ⊎ (k ≡ some other_kind)

-- A message that `receive` returns as it is: one line, in braces, and no chunk.
abbrev pub IsPlain : Json → Text → Type 0
IsPlain j message =
    All (λ c. c ≢ newline) message
    × (is_braced message ≡ true)
    × ((f : Frame) → j.loads message ≡ some (object f) → IsPlainKind f.kind)

-- A line that `readline` returns.
abbrev pub Fits : Text → Type 0
Fits line = text_size line ≤ max_line_bytes
