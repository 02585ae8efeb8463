-- ===== src/LogBuffer/Bounded.antt =====
-- The memory that the buffer of logbuffer.py and its reader hold.
use langbot_plugin_sdk.Prelude.{
  ℕ, ◌-◌, ◌≤◌, inl, inr, Bool, true, false, ◌&&◌, not, List, [], ◌∷◌, length, take, length-take,
  length-append, length-drop, arith, Bool-cases,
}
use langbot_plugin_sdk.Prelude.Deque.{last}
use langbot_plugin_sdk.LogBuffer.{Text, Python, Buffer, line_text, add_line}
use langbot_plugin_sdk.LogBuffer.Stream.{
  max_log_line_bytes, is_empty, Draining, extend, flush_line, take_part, take_parts, parts, drain,
}

-- A pending line is within 64 KB, and the buffer within its number of lines.
pub record IsBounded (s : Draining) : Type 0 where
  pub line : length s.pending ≤ max_log_line_bytes
  pub lines : length s.buffer.entries ≤ s.buffer.max_lines

length-last-le : {A : Type 0} → (n : ℕ) (xs : List A) → length (last n xs) ≤ n
length-last-le n xs = omega (arith, length-drop (length xs - n) xs)

extend-IsBounded : (s : Draining) (part : List ℕ) → IsBounded s → IsBounded (extend s part)
extend-IsBounded s part v = record {
  line =
      let room : ℕ = max_log_line_bytes - length s.pending in
      omega (arith, v.line, length-append s.pending (take room part), length-take room part);
  lines = v.lines;
}

module _ (p : Python) (clock : ℕ → ℕ) where
  add_line-le :
      (b : Buffer) (line : Text)
      → length b.entries ≤ b.max_lines
      → length (add_line p clock b line).entries ≤ (add_line p clock b line).max_lines
  unfolding add_line
  add_line-le b line h = elim (Bool-cases (p.is_blank (line_text line))) [
    | inl blank ↦ rw blank h
    | inr some_text ↦ rw some_text (length-last-le b.max_lines _)
  ]

  flush_line-IsBounded : (s : Draining) → IsBounded s → IsBounded (flush_line p clock s)
  unfolding flush_line
  flush_line-IsBounded s v = elim (Bool-cases (is_empty s.pending && not s.truncated)) [
    | inl nothing ↦ rw nothing v
    | inr line ↦ rw line (record { line = omega arith; lines = add_line-le s.buffer _ v.lines })
  ]

  take_parts-IsBounded :
      (s : Draining) (qs : List (List ℕ × Bool)) → IsBounded s → IsBounded (take_parts p clock s qs)
  unfolding take_parts take_part
  take_parts-IsBounded s [] v = v
  take_parts-IsBounded s ((part, true) ∷ qs) v =
      take_parts-IsBounded (flush_line p clock (extend s part)) qs
        (flush_line-IsBounded (extend s part) (extend-IsBounded s part v))
  take_parts-IsBounded s ((part, false) ∷ qs) v =
      take_parts-IsBounded (extend s part) qs (extend-IsBounded s part v)

  -- Whatever the plugin writes and however it is read, after every read the pending line has at most
  -- 64 KB and the buffer at most its number of lines.
  pub drain-IsBounded :
      (s : Draining) (chunks : List (List ℕ)) → IsBounded s → IsBounded (drain p clock s chunks)
  unfolding drain
  drain-IsBounded s [] v = v
  drain-IsBounded s (chunk ∷ chunks) v = elim (Bool-cases (is_empty chunk)) [
    | inl end ↦ rw end (flush_line-IsBounded s v)
    | inr more ↦ rw more (
        drain-IsBounded (take_parts p clock s (parts chunk)) chunks
          (take_parts-IsBounded s (parts chunk) v))
  ]
