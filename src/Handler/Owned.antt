-- ===== src/Handler/Owned.antt =====
-- The files that a handler of handler.py answers for.
use mathlib.Core.Path.{subst}
use langbot_plugin_sdk.Prelude.{
  ℕ, ◌≤◌, ◌≡◌, refl, sym, ap, ◌∙◌, ◌⊎◌, inl, inr, Bool, true, false, ◌&&◌, ◌||◌, not, Result, none,
  some, List, [], ◌∷◌, length, if◌then◌else◌, ok, raise, bind_inverse, ◌==◌, nat_eq, list_eq,
  list_beq_iff, ==_refl, arith, Bool-cases,
}
use langbot_plugin_sdk.Prelude.Dict
use langbot_plugin_sdk.Prelude.Dict.{Dict}
use langbot_plugin_sdk.Handler.Files.{
  Text, Bytes, FileError, text, Chunk, Transfers, Base64, max_active_file_transfers, is_owned,
  remove_all, file_storage_path, check_chunk, file_chunk, delete_local_file,
  cleanup_owned_transfers, Refusals,
}
use langbot_plugin_sdk.Handler.Tracked.{
  holds, file_storage_path-key, IsTracked, store_chunk-IsTracked, delete-IsTracked,
}

-- What a peer makes a handler do with its files.
pub data Operation : Type 0 where
  receiving : Chunk → Operation
  deleting : Text → Refusals → Operation

-- Whether a deletion of the key was among the operations, and the system refused it.
abbrev pub refused_in : Text → List Operation → Bool
refused_in k [] = false
refused_in k (receiving c ∷ os) = refused_in k os
refused_in k (deleting file_key refused ∷ os) = (file_key == k && refused k) || refused_in k os

get-remove_all :
    (refused : Refusals) (files : Dict Text Bytes) (keys : List Text) (k : Text)
    → Dict.get (remove_all refused files keys) k
      ≡ (if holds k keys && not (refused k) then none else Dict.get files k)
get-remove_all refused files [] k = refl
get-remove_all refused files (key ∷ keys) k =
    get-remove_all refused (if refused key then files else Dict.remove files key) keys k
    ∙ elim (Bool-cases (key == k)) [
      | inl same ↦
          let alike : refused key ≡ refused k = ap refused ((list_beq_iff key k).0 same) in
          ground (arith, same, alike, Dict.get-remove files key k)
      | inr other ↦ ground (arith, other, Dict.get-remove files key k)
    ]

module _ (strip : Text → Text) (base64 : Base64) where
  check_chunk-key :
      (c : Chunk) (key : Text) (i : ℕ) (content : Bytes)
      → check_chunk strip base64 c ≡ ok (key, i, content)
      → file_storage_path strip (text key) ≡ ok key
  unfolding check_chunk
  check_chunk-key c key i content h =
      let (checked, e, later) = bind_inverse (file_storage_path strip c.file_key) _ h in
      let same : checked ≡ key = ground (arith, later) in
      subst (λ k. file_storage_path strip (text k) ≡ ok k) same
        (file_storage_path-key strip c.file_key checked e).1

  unfoldable pub after : Transfers → Operation → Transfers
  after s (receiving c) = (file_chunk strip base64 s c).0
  after s (deleting file_key refused) = (delete_local_file strip refused s file_key).0

  unfoldable pub run : Transfers → List Operation → Transfers
  unfolding after
  run s [] = s
  run s (o ∷ os) = run (after s o) os

  run-IsTracked :
      (stuck : Text → Bool) (s₀ s : Transfers) (os : List Operation)
      → ((k : Text) → refused_in k os ≡ true → stuck k ≡ true)
      → IsTracked strip stuck s₀ s
      → IsTracked strip stuck s₀ (run s os)
  unfolding run after file_chunk
  run-IsTracked stuck s₀ s [] known v = v
  run-IsTracked stuck s₀ s (receiving c ∷ os) known v =
      run-IsTracked stuck s₀ (after s (receiving c)) os known
        (received (check_chunk strip base64 c) refl)
    where
      received :
          (r : Result FileError (Text × ℕ × Bytes))
          → check_chunk strip base64 c ≡ r
          → IsTracked strip stuck s₀ (file_chunk strip base64 s c).0
      received (ok (key, i, content)) e =
          rw (file_chunk, e)
            (store_chunk-IsTracked strip stuck s₀ s key i content
              (check_chunk-key c key i content e) v)
      received (raise x) e = rw (file_chunk, e) v
  run-IsTracked stuck s₀ s (deleting file_key refused ∷ os) known v =
      run-IsTracked stuck s₀ (after s (deleting file_key refused)) os
        (λ k h. known k (ground (arith, h)))
        (delete-IsTracked strip stuck refused s₀ s file_key
          (λ h. known file_key (ground (arith, h, ==_refl file_key))) v)

  -- Whatever a peer sends and deletes over a connection that starts with no file of its own, the
  -- connection owns at most 128 files, and when it is cleaned up it owns none, and every file that is
  -- left was there before with the same content, or is one that the system refused to remove, in a
  -- deletion of the peer or in the cleanup.
  pub cleanup-run :
      (s : Transfers) (os : List Operation) (refused : Refusals)
      → s.owned_transfer_files ≡ []
      → let s' = cleanup_owned_transfers refused (run s os) in
        (length (run s os).owned_transfer_files ≤ max_active_file_transfers)
        × (s'.owned_transfer_files ≡ [])
        × ((k : Text) (content : Bytes)
            → Dict.get s'.files k ≡ some content
            → (Dict.get s.files k ≡ some content)
              ⊎ (((is_owned (run s os) k ≡ true) × (refused k ≡ true)) ⊎ (refused_in k os ≡ true)))
  unfolding cleanup_owned_transfers
  cleanup-run s os refused none_owned =
      let v : IsTracked strip (λ k. refused_in k os) s (run s os) =
        run-IsTracked (λ k. refused_in k os) s s os (λ k h. h)
          (record {
            valid = rw none_owned tt;
            bounded = rw none_owned (omega arith);
            kept = λ k content free e. inl e;
          }) in
      (
        v.bounded,
        refl,
        λ k content e.
            let left =
              sym (get-remove_all refused (run s os).files (run s os).owned_transfer_files k) ∙ e in
            elim (Bool-cases (is_owned (run s os) k)) [
              | inl owned ↦ elim (Bool-cases (refused k)) [
                | inl stuck ↦ inr (inl (owned, stuck))
                | inr removed ↦ ground (arith, left, owned, removed)
              ]
              | inr free ↦ elim (v.kept k content free (rw free at left)) [
                | inl earlier ↦ inl earlier
                | inr stuck ↦ inr (inr stuck)
              ]
            ],
      )
