-- ===== src/Connection/WebSocket.antt =====
-- `WebSocketConnection.send` and `WebSocketConnection.receive` of runtime/io/connections/ws.py. The
-- WebSocket library sends the fragments of a message and delivers them in their order: a message in
-- transit is the list of its fragments, each decoded. The library may end a fragmented message with
-- one more fragment, which is empty; it is left out here.
use mathlib.Core.List.{append-nil, append_assoc}
use langbot_plugin_sdk.Prelude.{
  ℕ, ◌+◌, ◌-◌, ◌*◌, ◌≤◌, ◌≡◌, refl, ap, ◌∙◌, ◌⊎◌, sym, inl, inr, Bool, true, false, List, [], ◌∷◌,
  ◌++◌, arith, length, Result, ok, raise, ◌>>◌, raise_if, ltb, leb, if◌then◌else◌, Bool-cases,
  ltb→lt, length-append,
}
use langbot_plugin_sdk.Connection.{
  Text, max_message_bytes, max_message_fragments, text_size, join, SplitError, split_utf8_chunks,
}
use langbot_plugin_sdk.Connection.Split.{
  join-append, text_size-join-snoc, text_size-append, split_utf8_chunks-IsCut, few_chunks,
}

pub data WebSocketError : Type 0 where
  message_too_large too_many_fragments connection_closed : WebSocketError
  not_split : SplitError → WebSocketError

-- The fragments that are sent. An error of `split_utf8_chunks` passes through.
unfoldable pub send : ℕ → Text → Result WebSocketError (List Text)
send chunk_size message = do
  let message_size = text_size message
  raise_if (ltb max_message_bytes message_size) message_too_large
  raise_if (ltb (chunk_size * max_message_fragments) message_size) too_many_fragments
  if leb message_size chunk_size
      then ok (message ∷ [])
      else (elim (split_utf8_chunks message chunk_size) [
        | raise e ↦ raise (not_split e)
        | ok chunks ↦ ok chunks
      ])

-- The loop of `receive` over the fragments, with `message_chunks`, `received_bytes` and whether the
-- connection is still open.
unfoldable pub receive_fragments : List Text → ℕ → List Text → Result WebSocketError Text × Bool
receive_fragments message_chunks received_bytes [] = (ok (join message_chunks), true)
receive_fragments message_chunks received_bytes (fragment ∷ fragments) =
    let message_chunks' = message_chunks ++ fragment ∷ [] in
    let received_bytes' = received_bytes + text_size fragment in
    let rest = receive_fragments message_chunks' received_bytes' fragments in
    if ltb max_message_fragments (length message_chunks')
    then (raise too_many_fragments, false)
    else if ltb max_message_bytes received_bytes'
    then (raise message_too_large, false)
    else rest

unfoldable pub receive : List Text → Result WebSocketError Text × Bool
unfolding receive_fragments
receive fragments = receive_fragments [] 0 fragments

abbrev pub IsSmall : List Text → Type 0
IsSmall fragments =
    (length fragments ≤ max_message_fragments) × (text_size (join fragments) ≤ max_message_bytes)

-- From the loop's variables on.
receive_fragments-cases :
    (chunks : List Text) (bytes : ℕ) (fragments : List Text)
    → bytes ≡ text_size (join chunks)
    → length chunks ≤ max_message_fragments
    → bytes ≤ max_message_bytes
    → (IsSmall (chunks ++ fragments)
        × (receive_fragments chunks bytes fragments ≡ (ok (join (chunks ++ fragments)), true)))
      ⊎ (¬ IsSmall (chunks ++ fragments)
          × ((e : WebSocketError) × (receive_fragments chunks bytes fragments ≡ (raise e, false))))
unfolding receive_fragments
receive_fragments-cases chunks bytes [] size few small =
    rw (append-nil chunks) (inl ((few, omega (arith, size, small)), refl))
receive_fragments-cases chunks bytes (t ∷ ts) size few small =
    elim (Bool-cases (ltb max_message_fragments (length (chunks ++ t ∷ [])))) [
      | inl many ↦ rw many (
          inr (
            (λ v. omega (
              arith,
              v.0,
              ltb→lt _ _ many,
              length-append chunks (t ∷ ts),
              length-append chunks (t ∷ []),
            )),
            (too_many_fragments, refl),
          ))
      | inr room ↦ elim (Bool-cases (ltb max_message_bytes (bytes + text_size t))) [
        | inl large ↦
            rw (room, large)
              (inr (
                (λ v. omega (arith, v.1, size, ltb→lt _ _ large, sizes)),
                (message_too_large, refl),
              ))
        | inr fits ↦
            rw (room, fits, sym (append_assoc chunks (t ∷ []) ts))
              (receive_fragments-cases (chunks ++ t ∷ []) (bytes + text_size t) ts
                (omega (arith, size, text_size-join-snoc chunks t)) (ground (arith, room))
                (ground (arith, fits)))
      ]
    ]
  where
    sizes :
        text_size (join (chunks ++ t ∷ ts))
        ≡ text_size (join chunks) + (text_size t + text_size (join ts))
    sizes = omega (
      arith,
      ap text_size (join-append chunks (t ∷ ts)),
      text_size-append (join chunks) (join (t ∷ ts)),
      text_size-append t (join ts),
    )

-- A message is returned exactly if it has at most 4,096 fragments and at most 16 MB, and then the
-- connection stays open; every other message is refused and closes the connection.
pub receive-cases :
    (fragments : List Text)
    → (IsSmall fragments × (receive fragments ≡ (ok (join fragments), true)))
      ⊎ (¬ IsSmall fragments × ((e : WebSocketError) × (receive fragments ≡ (raise e, false))))
unfolding receive
receive-cases fragments = receive_fragments-cases [] 0 fragments refl (omega arith) (omega arith)

-- The fragments that a sender within the limits writes are few enough for the receiver, which
-- returns the message and stays open.
pub receive-send-fragments :
    (chunk_size : ℕ) (message : Text)
    → 4 ≤ chunk_size
    → text_size message ≤ max_message_bytes
    → text_size message ≤ 4095 * (chunk_size - 3)
    → (fragments : List Text) × (send chunk_size message ≡ ok fragments)
      × (receive fragments ≡ (ok message, true))
unfolding send
receive-send-fragments chunk_size message wide small short =
    elim (Bool-cases (leb (text_size message) chunk_size)) [
      | inl whole ↦
          (message ∷ [], ground arith, returned (message ∷ []) (append-nil message) (omega arith))
      | inr large ↦
          let (chunks, e, cut) = split_utf8_chunks-IsCut message chunk_size wide in
          (
            chunks,
            ground (arith, e),
            returned chunks cut.joined
                (few_chunks 4095 chunk_size (length chunks) wide (omega (arith, cut.few, short))),
          )
    ]
  where
    returned :
        (fragments : List Text)
        → join fragments ≡ message
        → length fragments ≤ max_message_fragments
        → receive fragments ≡ (ok message, true)
    returned fragments joined few = elim (receive-cases fragments) [
      | inl (_, e) ↦ e ∙ ap (λ m. (ok m, true)) joined
      | inr (large, _) ↦ elim (large (few, omega (arith, ap text_size joined, small))) [ ]
    ]
