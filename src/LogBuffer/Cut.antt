-- ===== src/LogBuffer/Cut.antt =====
-- `attach_stream` of logbuffer.py and the ways to cut its stream into reads.
use langbot_plugin_sdk.Prelude.{
  ℕ, ◌-◌, ◌≡◌, refl, sym, ap, ◌∙◌, inl, inr, Bool, true, false, List, [], ◌∷◌, ◌++◌, length, take,
  length-take, length-append, All, arith, ◌==◌, nat_eq, Bool-cases, zero, suc,
}
use mathlib.Core.List.{append_assoc}
use langbot_plugin_sdk.LogBuffer.{Python, Buffer}
use langbot_plugin_sdk.LogBuffer.Stream.{
  max_log_line_bytes, is_empty, add_byte, parts, Draining, extend, flush_line, take_part,
  take_parts, drain, attach_stream,
}

take-append : (n : ℕ) (xs ys : List ℕ) → take n (xs ++ ys) ≡ take n xs ++ take (n - length xs) ys
take-append n [] ys = grind arith
take-append zero (x ∷ xs) ys = grind arith
take-append (suc n) (x ∷ xs) ys = grind (arith, take-append n xs ys)

pair-eq {ℓ} :
    {A B : Type ℓ} {x x' : A} {y y' : B} → x ≡ x' → y ≡ y' → ◌≡◌ {A = A × B} (x, y) (x', y')
pair-eq h k = cc

-- Bytes that come in two parts are kept and left out as if they came in one.
extend-append : (s : Draining) (a b : List ℕ) → extend (extend s a) b ≡ extend s (a ++ b)
extend-append s a b =
    let room : ℕ = max_log_line_bytes - length s.pending in
    let room' : max_log_line_bytes - length (s.pending ++ take room a) ≡ room - length a =
      omega (arith, length-append s.pending (take room a), length-take room a) in
    rw (room', length-append a b, take-append room a b)
      (ap (λ q. record s { pending = q.0; truncated = q.1 })
        (pair-eq (append_assoc s.pending (take room a) (take (room - length a) b)) (ground arith)))

-- The bytes of a stream.
abbrev pub concat : List (List ℕ) → List ℕ
concat [] = []
concat (c ∷ cs) = c ++ concat cs

module _ (p : Python) (clock : ℕ → ℕ) where
  -- A reader that takes one byte at a time.
  step : Draining → ℕ → Draining
  step s c = take_part p clock s (c ∷ [], c == b'\n')

  feed : Draining → List ℕ → Draining
  feed s [] = s
  feed s (c ∷ cs) = feed (step s c) cs

  feed-append : (s : Draining) (a b : List ℕ) → feed s (a ++ b) ≡ feed (feed s a) b
  unfolding feed
  feed-append s [] b = refl
  feed-append s (c ∷ a) b = feed-append (step s c) a b

  take_part-cons :
      (s : Draining) (c : ℕ) (part : List ℕ) (found : Bool)
      → take_part p clock s (c ∷ part, found) ≡ take_part p clock (extend s (c ∷ [])) (part, found)
  unfolding take_part
  take_part-cons s c part true = ap (flush_line p clock) (sym (extend-append s (c ∷ []) part))
  take_part-cons s c part false = sym (extend-append s (c ∷ []) part)

  take_parts-add_byte :
      (s : Draining) (c : ℕ) (qs : List (List ℕ × Bool))
      → take_parts p clock s (add_byte c qs) ≡ take_parts p clock (extend s (c ∷ [])) qs
  unfolding take_parts take_part
  take_parts-add_byte s c [] = refl
  take_parts-add_byte s c ((part, found) ∷ rest) =
      ap (λ s'. take_parts p clock s' rest) (take_part-cons s c part found)

  take_parts-parts :
      (s : Draining) (chunk : List ℕ) → take_parts p clock s (parts chunk) ≡ feed s chunk
  unfolding take_parts parts feed step take_part
  take_parts-parts s [] = refl
  take_parts-parts s (c ∷ cs) = elim (Bool-cases (c == b'\n')) [
    | inl newline ↦ rw newline (take_parts-parts (take_part p clock s (c ∷ [], true)) cs)
    | inr other ↦
        rw other (take_parts-add_byte s c (parts cs) ∙ (take_parts-parts (extend s (c ∷ [])) cs))
  ]

  drain-feed :
      (s : Draining) (chunks : List (List ℕ))
      → All (λ c. is_empty c ≡ false) chunks
      → drain p clock s (chunks ++ [] ∷ []) ≡ flush_line p clock (feed s (concat chunks))
  unfolding drain feed
  drain-feed s [] some = refl
  drain-feed s (chunk ∷ chunks) (some, later) =
      rw (some, take_parts-parts s chunk, feed-append s chunk (concat chunks))
        (drain-feed (feed s chunk) chunks later)

  -- A stream that is read to its end leaves the same buffer however it is cut into reads that are not
  -- empty: the same lines, levels and clipping marks, in the same order.
  pub attach_stream-cut :
      (b : Buffer) (first second : List (List ℕ))
      → All (λ c. is_empty c ≡ false) first
      → All (λ c. is_empty c ≡ false) second
      → concat first ≡ concat second
      → attach_stream p clock b (first ++ [] ∷ []) ≡ attach_stream p clock b (second ++ [] ∷ [])
  unfolding attach_stream
  attach_stream-cut b first second f g same =
      let start : Draining = record { pending = []; truncated = false; buffer = b } in
      ap (λ s. s.buffer)
        (drain-feed start first f
          ∙ ap (λ bytes. flush_line p clock (feed start bytes)) same
          ∙ sym (drain-feed start second g))
