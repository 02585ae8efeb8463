-- ===== src/Connection/Accepted.antt =====
-- What `receive` of stdio.py accepts as a chunked message, whatever a peer writes.
use langbot_plugin_sdk.Prelude.{
  ℕ, ◌+◌, ◌≤◌, ◌≡◌, refl, sym, ap, ◌∙◌, ◌⊎◌, inl, inr, Option, none, some, Option-cases, List, [],
  ◌∷◌, ◌++◌, arith, length, ok, bind_inverse, ◌||◌, ◌>>=◌, ltb, leb, ◌==◌, nat_eq, Bool-cases,
  leb→le,
}
use langbot_plugin_sdk.Prelude.Int.{ℤ, pos, negsuc}
use langbot_plugin_sdk.Connection.{
  Text, max_message_bytes, max_message_fragments, text_size, join, is_empty,
}
use langbot_plugin_sdk.Connection.Split.{text_size-join-snoc}
use langbot_plugin_sdk.Connection.Stdio.{
  Json, Frame, object, other_value, chunk_data, chunk_end, chunk_start, other_kind, take_chunk,
  receive_chunks, receive_start, is_overlong,
}

-- `message` is `total` bytes long and was read from `lines`, of which `rest` is left; with the
-- fragments before, the lines read are within the limit.
pub record IsAccepted (total fragments : ℕ) (lines : List Text) (message : Text) (rest : List Text)
    : Type 0 where
  pub sized : text_size message ≡ total
  pub read : length rest + 1 ≤ length lines
  pub few : fragments + length lines ≤ length rest + max_message_fragments

module _ (j : Json) where
  abbrev Continues : ℕ → ℕ → ℕ → List Text → List Text → Text × List Text → Type 0
  Continues total received fragments chunks lines out =
      receive_chunks j total received (fragments + 1) chunks lines ≡ ok out

  take_chunk-step :
      (total received fragments : ℕ) (chunks lines : List Text) (f : Frame) (out : Text × List Text)
      → (take_chunk j total received f >>= λ (piece : Text).
          receive_chunks j total
            (received + text_size piece)
            (fragments + 1)
            (chunks ++ piece ∷ [])
            lines)
        ≡ ok out
      → (piece : Text) × Continues total
          (received + text_size piece)
          fragments
          (chunks ++ piece ∷ [])
          lines
          out
  take_chunk-step total received fragments chunks lines f out e =
      let (piece, _, later) = bind_inverse (take_chunk j total received f) _ e in (piece, later)

  -- What one line can do: it is passed over, it gives a piece, or it ends the message.
  abbrev Advances : ℕ → ℕ → ℕ → List Text → List Text → Text × List Text → Type 0
  Advances total received fragments chunks lines out =
      Continues total received fragments chunks lines out
      ⊎ ((piece : Text) × Continues total (received + text_size piece) fragments
            (chunks ++ piece ∷ []) lines out)
      ⊎ (received ≡ total) × ((join chunks, lines) ≡ out)

  receive_chunks-step :
      (total received fragments : ℕ) (chunks : List Text) (line : Text) (lines : List Text)
      (out : Text × List Text)
      → receive_chunks j total received fragments chunks (line ∷ lines) ≡ ok out
      → (fragments + 1 ≤ max_message_fragments) × Advances total received fragments chunks lines out
  unfolding receive_chunks
  receive_chunks-step total received fragments chunks line lines out e =
      elim (Bool-cases (is_overlong line || ltb max_message_fragments (fragments + 1))) [
        | inl full ↦ ground (arith, e, full)
        | inr room ↦ (
          ground (arith, room),
          elim (Bool-cases (is_empty line)) [
            | inl empty ↦ inl (rw (room, empty) at e)
            | inr some_line ↦ elim (Option-cases (j.loads line)) [
              | inl l ↦ inl (rw (room, some_line, l) at e)
              | inr (other_value, l) ↦ ground (arith, room, some_line, l, e)
              | inr (object f, l) ↦ elim (Option-cases f.kind) [
                | inl k ↦ inl (rw (room, some_line, l, k) at e)
                | inr (chunk_start, k) ↦ inl (rw (room, some_line, l, k) at e)
                | inr (other_kind, k) ↦ inl (rw (room, some_line, l, k) at e)
                | inr (chunk_data, k) ↦ inr (
                    inl (
                      take_chunk-step total received fragments chunks lines f out
                        (rw (room, some_line, l, k) at e)))
                | inr (chunk_end, k) ↦ elim (Bool-cases (received == total)) [
                  | inl all ↦ inr (inr (ground (arith, room, some_line, l, k, all, e)))
                  | inr other ↦ ground (arith, room, some_line, l, k, other, e)
                ]
              ]
            ]
          ],
        )
      ]

  receive_chunks-IsAccepted :
      (total received fragments : ℕ) (chunks lines : List Text) (message : Text) (rest : List Text)
      → text_size (join chunks) ≡ received
      → receive_chunks j total received fragments chunks lines ≡ ok (message, rest)
      → IsAccepted total fragments lines message rest
  unfolding receive_chunks
  receive_chunks-IsAccepted total received fragments chunks [] message rest size e = ground arith
  receive_chunks-IsAccepted total received fragments chunks (line ∷ lines) message rest size e =
      let (room, step) =
        receive_chunks-step total received fragments chunks line lines (message, rest) e in
      elim step [
        | inl skipped ↦ later (
            receive_chunks-IsAccepted total received (fragments + 1) chunks lines message rest size
              skipped)
        | inr (inl (piece, taken)) ↦ later (
            receive_chunks-IsAccepted total (received + text_size piece) (fragments + 1)
              (chunks ++ piece ∷ []) lines message rest
              (text_size-join-snoc chunks piece ∙ ap (λ n. n + text_size piece) size) taken)
        | inr (inr (all, out)) ↦ record {
          sized = ap (λ p. text_size p.0) (sym out) ∙ size ∙ all;
          read = omega (arith, ap (λ p. length p.1) out);
          few = omega (arith, room, ap (λ p. length p.1) out);
        }
      ]
    where
      later :
          IsAccepted total (fragments + 1) lines message rest
          → IsAccepted total fragments (line ∷ lines) message rest
      later v = record { sized = v.sized; read = omega (arith, v.read); few = omega (arith, v.few) }

  -- A chunked message that is accepted has the size that its first line declared, a number from 0 to
  -- the limit on bytes, and it took at least one further line and no more than the limit on
  -- fragments, whatever the peer wrote.
  pub receive_start-IsAccepted :
      (declared : Option ℤ) (lines : List Text) (message : Text) (rest : List Text)
      → receive_start j declared lines ≡ ok (message, rest)
      → (total : ℕ) × (declared ≡ some (pos total))
        × (total ≤ max_message_bytes)
        × IsAccepted total 0 lines message rest
  unfolding receive_start
  receive_start-IsAccepted none lines message rest e = cc
  receive_start-IsAccepted (some (negsuc n)) lines message rest e = cc
  receive_start-IsAccepted (some (pos n)) lines message rest e =
      elim (Bool-cases (leb n max_message_bytes)) [
        | inl small ↦ (
          n,
          refl,
          leb→le _ _ small,
          receive_chunks-IsAccepted n 0 0 [] lines message rest refl (rw small at e),
        )
        | inr large ↦ ground (arith, large, e)
      ]
