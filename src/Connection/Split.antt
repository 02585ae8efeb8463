-- ===== src/Connection/Split.antt =====
-- What `split_utf8_chunks` of connection.py returns.
use native.Mathlib.Nat.{le_of_mul-le-mul_right}
use mathlib.Core.List.{append-nil, append_assoc}
use langbot_plugin_sdk.Prelude.{
  ℕ, ◌+◌, ◌-◌, ◌*◌, ◌≤◌, ◌<◌, ◌≡◌, refl, sym, ap, ◌∙◌, inl, inr, true, false, List, [], ◌∷◌, ◌++◌,
  arith, length, All, All-append, length-append, Result, ok, ltb, Bool-cases, ltb→lt,
}
use langbot_plugin_sdk.Connection.{
  Text, max_message_bytes, max_message_fragments, char_size, text_size, join, SplitError, Splitting,
  is_empty, flushed, make_room, add_char, split_char, split_loop, split_utf8_chunks,
}

pub char_size_bounds : (c : ℕ) → (1 ≤ char_size c) × (char_size c ≤ 4)
unfolding char_size
char_size_bounds c = ground arith

pub text_size-append : (s t : Text) → text_size (s ++ t) ≡ text_size s + text_size t
text_size-append [] t = omega arith
text_size-append (c ∷ s) t = omega (arith, text_size-append s t)

pub join-append : (ss ts : List Text) → join (ss ++ ts) ≡ join ss ++ join ts
join-append [] ts = refl
join-append (s ∷ ss) ts = rw (join-append ss ts) (sym (append_assoc s (join ss) (join ts)))

pub text_size-join-snoc :
    (chunks : List Text) (piece : Text)
    → text_size (join (chunks ++ piece ∷ [])) ≡ text_size (join chunks) + text_size piece
text_size-join-snoc chunks piece =
    ap text_size (join-append chunks (piece ∷ []))
    ∙ text_size-append (join chunks) (piece ++ [])
    ∙ ap (λ t. text_size (join chunks) + text_size t) (append-nil piece)

pub record IsChunk (max_bytes : ℕ) (t : Text) : Type 0 where
  pub some_byte : 1 ≤ text_size t
  pub fits : text_size t ≤ max_bytes

-- No further character was sure to fit.
abbrev pub IsFull : ℕ → Text → Type 0
IsFull max_bytes t = max_bytes ≤ text_size t + 3

-- What holds of the loop's variables after the characters `read`.
record IsSplit (max_bytes : ℕ) (read : Text) (s : Splitting) : Type 0 where
  joined : join s.chunks ++ s.current ≡ read
  sized : s.current_size ≡ text_size s.current
  within : text_size s.current ≤ max_bytes
  closed : All (IsChunk max_bytes) s.chunks
  full : All (IsFull max_bytes) s.chunks

text_size_pos : (t : Text) → is_empty t ≡ false → 1 ≤ text_size t
text_size_pos [] h = cc
text_size_pos (c ∷ t) h = omega (arith, char_size_bounds c)

text_size_zero : (t : Text) → is_empty t ≡ true → text_size t ≡ 0
text_size_zero [] h = refl
text_size_zero (c ∷ t) h = cc

empty-eq : (t : Text) → is_empty t ≡ true → t ≡ []
empty-eq [] h = refl
empty-eq (c ∷ t) h = cc

make_room-closed :
    (m : ℕ) (read : Text) (s : Splitting) (c : ℕ)
    → IsSplit m read s
    → is_empty s.current ≡ false
    → m < s.current_size + char_size c
    → IsSplit m read
        (record { chunks = s.chunks ++ s.current ∷ []; current = []; current_size = 0 })
make_room-closed m read s c v some over = record {
  joined =
      append-nil _
      ∙ join-append s.chunks (s.current ∷ [])
      ∙ ap (λ t. join s.chunks ++ t) (append-nil s.current)
      ∙ v.joined;
  sized = refl;
  within = omega arith;
  closed =
      All-append (IsChunk m) s.chunks _ v.closed
        (record { some_byte = text_size_pos s.current some; fits = v.within }, tt);
  full = All-append (IsFull m) s.chunks _ v.full (omega (arith, v.sized, char_size_bounds c), tt);
}

make_room-IsSplit :
    (m : ℕ) (read : Text) (s : Splitting) (c : ℕ)
    → IsSplit m read s
    → char_size c ≤ m
    → IsSplit m read (make_room m s (char_size c))
      × (text_size (make_room m s (char_size c)).current + char_size c ≤ m)
unfolding make_room
make_room-IsSplit m read s c v small = elim (Bool-cases (is_empty s.current)) [
  | inl none ↦ rw none (v, omega (arith, text_size_zero s.current none))
  | inr some ↦ elim (Bool-cases (ltb m (s.current_size + char_size c))) [
    | inl over ↦ rw (some, over) (make_room-closed m read s c v some (ltb→lt _ _ over), omega arith)
    | inr room ↦ rw (some, room) (v, ground (arith, v.sized))
  ]
]

add_char-IsSplit :
    (m : ℕ) (read : Text) (s : Splitting) (c : ℕ)
    → IsSplit m read s
    → text_size s.current + char_size c ≤ m
    → IsSplit m (read ++ c ∷ []) (add_char s c)
add_char-IsSplit m read s c v room = record {
  joined = sym (append_assoc (join s.chunks) s.current (c ∷ [])) ∙ ap (λ t. t ++ c ∷ []) v.joined;
  sized = omega (arith, v.sized, text_size-append s.current (c ∷ []));
  within = omega (arith, text_size-append s.current (c ∷ []));
  closed = v.closed;
  full = v.full;
}

-- A list of full chunks is short.
length-full-le :
    (m : ℕ) (ts : List Text) → All (IsFull m) ts → length ts * (m - 3) ≤ text_size (join ts)
length-full-le m [] h = omega arith
length-full-le m (t ∷ ts) h =
    grind (arith, text_size-append t (join ts), length-full-le m ts h.1, h.0)

-- A way to cut `message`: nothing is lost or added, and no chunk is empty, too large, or one too
-- many.
pub record IsCut (max_bytes : ℕ) (message : Text) (chunks : List Text) : Type 0 where
  pub joined : join chunks ≡ message
  pub sized : All (IsChunk max_bytes) chunks
  pub few : (length chunks - 1) * (max_bytes - 3) ≤ text_size message

flushed-IsCut : (m : ℕ) (read : Text) (s : Splitting) → IsSplit m read s → IsCut m read (flushed s)
flushed-IsCut m read s v = elim (Bool-cases (is_empty s.current)) [
  | inl none ↦ rw none (record {
    joined =
        sym (append-nil (join s.chunks))
        ∙ ap (λ t. join s.chunks ++ t) (sym (empty-eq s.current none))
        ∙ v.joined;
    sized = v.closed;
    few = few (length s.chunks - 1) (omega arith);
  })
  | inr some ↦ rw some (record {
    joined =
        join-append s.chunks (s.current ∷ [])
        ∙ ap (λ t. join s.chunks ++ t) (append-nil s.current)
        ∙ v.joined;
    sized =
        All-append (IsChunk m) s.chunks _ v.closed
          (record { some_byte = text_size_pos s.current some; fits = v.within }, tt);
    few = few _ (omega (arith, length-append s.chunks (s.current ∷ [])));
  })
]
  where
    read_size : text_size (join s.chunks) ≤ text_size read
    read_size = omega (arith, ap text_size v.joined, text_size-append (join s.chunks) s.current)

    few : (n : ℕ) → n ≤ length s.chunks → n * (m - 3) ≤ text_size read
    few n h = grind (arith, read_size, length-full-le m s.chunks v.full)

split_char-ok :
    (m : ℕ) (s : Splitting) (c : ℕ)
    → char_size c ≤ m
    → split_char m s c ≡ ok (add_char (make_room m s (char_size c)) c)
unfolding split_char
split_char-ok m s c small = ground arith

split_loop-IsCut :
    (m : ℕ) (read : Text) (s : Splitting) (cs : Text)
    → 4 ≤ m
    → IsSplit m read s
    → (chunks : List Text) × (split_loop m s cs ≡ ok chunks) × IsCut m (read ++ cs) chunks
unfolding split_loop
split_loop-IsCut m read s [] wide v = (flushed s, refl, rw append-nil (flushed-IsCut m read s v))
split_loop-IsCut m read s (c ∷ cs) wide v =
    let small : char_size c ≤ m = omega (arith, char_size_bounds c) in
    let (roomy, room) = make_room-IsSplit m read s c v small in
    let added = add_char-IsSplit m read (make_room m s (char_size c)) c roomy room in
    let (chunks, e, cut) = split_loop-IsCut m (read ++ c ∷ []) _ cs wide added in
    (chunks, rw (split_char-ok m s c small) e, rw append_assoc at cut)

-- Room for four bytes, the longest code point, is enough for every text: the text is cut, no chunk
-- is empty or larger than `max_bytes`, the chunks joined are the text, and all chunks but one have
-- at least `max_bytes - 3` bytes on average.
pub split_utf8_chunks-IsCut :
    (message : Text) (max_bytes : ℕ)
    → 4 ≤ max_bytes
    → (chunks : List Text) × (split_utf8_chunks message max_bytes ≡ ok chunks)
      × IsCut max_bytes message chunks
unfolding split_utf8_chunks
split_utf8_chunks-IsCut message m wide =
    let empty : Splitting = record { chunks = []; current = []; current_size = 0 } in
    let start : IsSplit m [] empty = record {
      joined = refl;
      sized = refl;
      within = omega arith;
      closed = tt;
      full = tt;
    } in
    let (chunks, e, cut) = split_loop-IsCut m [] empty message wide start in
    (chunks, ground (arith, e), cut)

pub few_chunks : (k m n : ℕ) → 4 ≤ m → (n - 1) * (m - 3) ≤ k * (m - 3) → n ≤ k + 1
few_chunks k m n wide h = omega (arith, le_of_mul-le-mul_right h (omega arith))

-- With chunks of 16 KB a message within the byte limit is cut into at most 1,025 chunks, so with its
-- end marker it stays below the receiver's limit on fragments.
pub chunks_few :
    (message : Text) (chunks : List Text)
    → split_utf8_chunks message (16 * 1024) ≡ ok chunks
    → text_size message ≤ max_message_bytes
    → (length chunks ≤ 1025) × (length chunks + 1 ≤ max_message_fragments)
chunks_few message chunks returned small =
    let (cs, e, cut) = split_utf8_chunks-IsCut message (16 * 1024) (omega arith) in
    let same : length cs ≡ length chunks = ap length (ok_inj (sym e ∙ returned)) in
    omega (arith, cut.few, same)
  where
    ok_inj : {a b : List Text} → ◌≡◌ {A = Result SplitError (List Text)} (ok a) (ok b) → a ≡ b
    ok_inj h = cc
