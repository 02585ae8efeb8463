-- ===== src/LogBuffer/Stream.antt =====
-- `PluginLogBuffer.attach_stream`: the stream's reads are a list; an empty one is the end of the
-- stream, and a list that ends before that stands for a read that raises or is cancelled.
use langbot_plugin_sdk.Prelude.{
  ℕ, ◌-◌, ◌*◌, Bool, true, false, ◌&&◌, ◌||◌, not, List, [], ◌∷◌, ◌++◌, length, take, ltb,
  if◌then◌else◌, ◌==◌, nat_eq,
}
use langbot_plugin_sdk.LogBuffer.{Text, Python, Buffer, add_line}

abbrev pub max_log_line_bytes : ℕ
max_log_line_bytes = 64 * 1024

abbrev pub is_empty {ℓ} : {A : Type ℓ} → List A → Bool
is_empty [] = true
is_empty (x ∷ xs) = false

-- A byte before the parts: in front of the first part.
abbrev pub add_byte : ℕ → List (List ℕ × Bool) → List (List ℕ × Bool)
add_byte c [] = (c ∷ [], false) ∷ []
add_byte c ((part, found) ∷ rest) = (c ∷ part, found) ∷ rest

-- The parts of a chunk that the inner loop goes through: each ends after a newline, the last one
-- possibly at the chunk's end. With each part, whether a newline was found.
unfoldable pub parts : List ℕ → List (List ℕ × Bool)
parts [] = []
parts (c ∷ cs) =
    let rest = parts cs in if c == b'\n' then (c ∷ [], true) ∷ rest else add_byte c rest

-- The variables of `attach_stream`, with the buffer.
pub record Draining : Type 0 where
  pub pending : List ℕ
  pub truncated : Bool
  pub buffer : Buffer

-- `pending.extend(part[:remaining])`, and the mark that bytes were left out
abbrev pub extend : Draining → List ℕ → Draining
extend s part = record s {
  pending = s.pending ++ take (max_log_line_bytes - length s.pending) part;
  truncated = ltb (max_log_line_bytes - length s.pending) (length part) || s.truncated;
}

-- "... [log line clipped at 65536 bytes]"
abbrev pub clipped : Text
clipped =
    46 ∷ 46 ∷ 46 ∷ 32 ∷ 91 ∷ 108 ∷ 111 ∷ 103 ∷ 32 ∷ 108 ∷ 105 ∷ 110 ∷ 101 ∷ 32 ∷ 99 ∷ 108 ∷ 105
    ∷ 112 ∷ 112 ∷ 101 ∷ 100 ∷ 32 ∷ 97 ∷ 116 ∷ 32 ∷ 54 ∷ 53 ∷ 53 ∷ 51 ∷ 54 ∷ 32 ∷ 98 ∷ 121 ∷ 116
    ∷ 101 ∷ 115 ∷ 93 ∷ []

module _ (p : Python) (clock : ℕ → ℕ) where
  unfoldable pub flush_line : Draining → Draining
  flush_line s = if is_empty s.pending && not s.truncated then s else record {
    pending = [];
    truncated = false;
    buffer =
        add_line p clock s.buffer (p.decode s.pending ++ (if s.truncated then clipped else []));
  }

  -- One turn of the inner loop.
  unfoldable pub take_part : Draining → List ℕ × Bool → Draining
  unfolding flush_line
  take_part s (part, found) = if found then flush_line (extend s part) else extend s part

  unfoldable pub take_parts : Draining → List (List ℕ × Bool) → Draining
  take_parts s [] = s
  take_parts s (q ∷ qs) = take_parts (take_part s q) qs

  -- The outer loop.
  unfoldable pub drain : Draining → List (List ℕ) → Draining
  unfolding take_parts parts
  drain s [] = s
  drain s (chunk ∷ chunks) =
      if is_empty chunk then flush_line s else drain (take_parts s (parts chunk)) chunks

  unfoldable pub attach_stream : Buffer → List (List ℕ) → Buffer
  unfolding drain
  attach_stream b chunks =
      (drain (record { pending = []; truncated = false; buffer = b }) chunks).buffer
