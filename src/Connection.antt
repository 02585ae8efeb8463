-- ===== src/Connection.antt =====
-- src/langbot_plugin/runtime/io/connection.py: the limits of a message, and `split_utf8_chunks`. A
-- text is the list of its code points; none of them is a surrogate, which UTF-8 cannot encode.
pub mod Split
pub mod Stdio
pub mod StdioLaws
pub mod Accepted
pub mod WebSocket
mod Tests
use langbot_plugin_sdk.Prelude.{
  ℕ, ◌+◌, ◌*◌, ◌≡◌, Bool, true, false, ◌&&◌, List, [], ◌∷◌, ◌++◌, Result, ok, raise, ◌>>=◌, ◌>>◌,
  raise_if, ltb, leb, if◌then◌else◌, not,
}

abbrev pub Text : Type 0
Text = List ℕ

abbrev pub max_message_bytes : ℕ
max_message_bytes = 16 * 1024 * 1024

abbrev pub max_message_fragments : ℕ
max_message_fragments = 4096

-- `len(char.encode("utf-8"))`
unfoldable pub char_size : ℕ → ℕ
char_size c = if ltb c 0x80 then 1 else if ltb c 0x800 then 2 else if ltb c 0x10000 then 3 else 4

-- `len(text.encode("utf-8"))`
abbrev pub text_size : Text → ℕ
text_size [] = 0
text_size (c ∷ cs) = char_size c + text_size cs

-- `"".join(chunks)`
abbrev pub join : List Text → Text
join [] = []
join (t ∷ ts) = t ++ join ts

pub data SplitError : Type 0 where
  not_positive char_too_large : SplitError

-- The variables of the loop.
pub record Splitting : Type 0 where
  pub chunks : List Text
  pub current : Text
  pub current_size : ℕ

abbrev pub is_empty {ℓ} : {A : Type ℓ} → List A → Bool
is_empty [] = true
is_empty (x ∷ xs) = false

-- `if current: chunks.append("".join(current))`
abbrev pub flushed : Splitting → List Text
flushed s = if is_empty s.current then s.chunks else s.chunks ++ s.current ∷ []

-- A chunk with no room for a character of `size` bytes is closed.
unfoldable pub make_room : ℕ → Splitting → ℕ → Splitting
make_room max_bytes s size =
    if not (is_empty s.current) && ltb max_bytes (s.current_size + size)
    then record { chunks = s.chunks ++ s.current ∷ []; current = []; current_size = 0 }
    else s

abbrev pub add_char : Splitting → ℕ → Splitting
add_char s c = record s {
  current = s.current ++ c ∷ [];
  current_size = s.current_size + char_size c;
}

-- One turn of the loop.
unfoldable pub split_char : ℕ → Splitting → ℕ → Result SplitError Splitting
unfolding make_room
split_char max_bytes s c =
    if ltb max_bytes (char_size c)
    then raise char_too_large
    else ok (add_char (make_room max_bytes s (char_size c)) c)

unfoldable pub split_loop : ℕ → Splitting → Text → Result SplitError (List Text)
split_loop max_bytes s [] = ok (flushed s)
split_loop max_bytes s (c ∷ cs) = do s' ← split_char max_bytes s c; split_loop max_bytes s' cs

unfoldable pub split_utf8_chunks : Text → ℕ → Result SplitError (List Text)
unfolding split_loop
split_utf8_chunks message max_bytes =
    if leb max_bytes 0
    then raise not_positive
    else split_loop max_bytes (record { chunks = []; current = []; current_size = 0 }) message
