-- ===== src/Handler/Tracked.antt =====
-- The keys that a handler of handler.py owns, against the files of its directory.
use mathlib.Core.Path.{subst}
use langbot_plugin_sdk.Prelude.{
  ℕ, ◌≤◌, ◌<◌, ◌≡◌, ◌≢◌, refl, sym, ap, ◌∙◌, ◌⊎◌, inl, inr, Bool, true, false, ◌&&◌, ◌||◌, not,
  some, List, [], ◌∷◌, ◌++◌, length, length-append, All, All-append, leb, ok, raise, Result-cases,
  ◌==◌, nat_eq, list_eq, list_beq_iff, arith, Bool-cases,
}
use langbot_plugin_sdk.Prelude.Dict
use langbot_plugin_sdk.Prelude.Dict.{Dict}
use langbot_plugin_sdk.Handler.Delivered.{with_owner-owned, get-set_other}
use langbot_plugin_sdk.Handler.Files.{
  Text, Bytes, FileError, Field, text, integer, Transfers, max_active_file_transfers, mem, discard,
  with_owner, is_owned, exceeds, before, file_storage_path, store_chunk, delete_local_file,
  Refusals,
}

abbrev pub holds : Text → List Text → Bool
holds key = mem λ k. k == key

discard_absent : (ks : List Text) (key : Text) → holds key ks ≡ false → discard ks key ≡ ks
discard_absent [] key h = refl
discard_absent (k ∷ ks) key h = ground (arith, h, discard_absent ks key)

holds-discard : (ks : List Text) (key k : Text) → k ≢ key → holds k (discard ks key) ≡ holds k ks
holds-discard [] key k h = refl
holds-discard (j ∷ ks) key k h = elim (Bool-cases (j == key)) [
  | inl same ↦ elim (Bool-cases (j == k)) [
    | inl this ↦ absurd (h (sym ((list_beq_iff j k).0 this) ∙ (list_beq_iff j key).0 same))
    | inr other ↦ rw (same, other) (holds-discard ks key k h)
  ]
  | inr different ↦ rw different (ap (λ b. j == k || b) (holds-discard ks key k h))
]

length-discard-le : (ks : List Text) (key : Text) → length (discard ks key) ≤ length ks
length-discard-le [] key = omega arith
length-discard-le (k ∷ ks) key = ground (arith, length-discard-le ks key)

All-discard : (P : Text → Type 0) (ks : List Text) (key : Text) → All P ks → All P (discard ks key)
All-discard P [] key h = tt
All-discard P (k ∷ ks) key h = elim (Bool-cases (k == key)) [
  | inl same ↦ rw same (All-discard P ks key h.1)
  | inr other ↦ rw other (h.0, All-discard P ks key h.1)
]

All-holds :
    (P : Text → Type 0) (ks : List Text) (key : Text) → All P ks → holds key ks ≡ true → P key
All-holds P [] key h e = cc
All-holds P (k ∷ ks) key h e = elim (Bool-cases (k == key)) [
  | inl same ↦ subst P ((list_beq_iff k key).0 same) h.0
  | inr other ↦ All-holds P ks key h.1 (rw other at e)
]

-- A key that is accepted is accepted as it is.
pub file_storage_path-key :
    (strip : Text → Text) (f : Field) (key : Text)
    → file_storage_path strip f ≡ ok key
    → (f ≡ text key) × (file_storage_path strip (text key) ≡ ok key)
unfolding file_storage_path
file_storage_path-key strip (text t) key h =
    let same : t ≡ key = ground (arith, h, list_beq_iff (strip t) t) in
    (ap text same, subst (λ k. file_storage_path strip (text k) ≡ ok key) same h)
file_storage_path-key strip (integer n) key h = ground (arith, h)
file_storage_path-key strip Field.other_value key h = ground (arith, h)
file_storage_path-key strip Field.missing key h = ground (arith, h)

-- Owned keys are names in the directory and few, and all other files were there at the start, or
-- are stuck in the directory.
pub record IsTracked (strip : Text → Text) (stuck : Text → Bool) (s₀ s : Transfers) : Type 0 where
  pub valid : All (λ k. file_storage_path strip (text k) ≡ ok k) s.owned_transfer_files
  pub bounded : length s.owned_transfer_files ≤ max_active_file_transfers
  pub kept :
      (k : Text) (content : Bytes)
      → is_owned s k ≡ false
      → Dict.get s.files k ≡ some content
      → (Dict.get s₀.files k ≡ some content) ⊎ (stuck k ≡ true)

holds-snoc : (ks : List Text) (key k : Text) → holds k (ks ++ key ∷ []) ≡ false → holds k ks ≡ false
holds-snoc [] key k h = refl
holds-snoc (j ∷ ks) key k h = ground (arith, h, holds-snoc ks key k)

with_owner-other :
    (s : Transfers) (key k : Text)
    → holds k (with_owner s key) ≡ false
    → (is_owned s k ≡ false) × (k ≢ key)
with_owner-other s key k h = (not_owned, other)
  where
    not_owned : is_owned s k ≡ false
    not_owned = elim (Bool-cases (is_owned s key)) [
      | inl owned ↦ rw owned at h
      | inr new ↦ holds-snoc s.owned_transfer_files key k (rw new at h)
    ]

    other : k ≢ key
    other e = cc (subst (λ j. holds j (with_owner s key) ≡ false) e h, with_owner-owned s key)

module _ (strip : Text → Text) (stuck : Text → Bool) where
  owned-IsTracked :
      (s₀ s : Transfers) (key : Text) (files : Dict Text Bytes)
      → file_storage_path strip (text key) ≡ ok key
      → (is_owned s key ≡ true) ⊎ (length s.owned_transfer_files < max_active_file_transfers)
      → ((k : Text) → k ≢ key → Dict.get files k ≡ Dict.get s.files k)
      → IsTracked strip stuck s₀ s
      → IsTracked strip stuck s₀
          (record s { owned_transfer_files = with_owner s key; files = files })
  owned-IsTracked s₀ s key files safe room same v = record {
    valid = elim (Bool-cases (is_owned s key)) [
      | inl owned ↦ rw owned v.valid
      | inr new ↦ rw new (All-append _ s.owned_transfer_files (key ∷ []) v.valid (safe, tt))
    ];
    bounded = ground (arith, v.bounded, room, length-append s.owned_transfer_files (key ∷ []));
    kept = λ k content free e.
        let (not_owned, other) = with_owner-other s key k free in
        v.kept k content not_owned (sym (same k other) ∙ e);
  }

  pub store_chunk-IsTracked :
      (s₀ s : Transfers) (key : Text) (i : ℕ) (content : Bytes)
      → file_storage_path strip (text key) ≡ ok key
      → IsTracked strip stuck s₀ s
      → IsTracked strip stuck s₀ (store_chunk s key i content).0
  unfolding store_chunk
  store_chunk-IsTracked s₀ s key i content safe v =
      elim (Bool-cases
        (not (is_owned s key) && leb max_active_file_transfers (length s.owned_transfer_files))) [
          | inl full ↦ rw full v
          | inr room ↦
              elim (Bool-cases (exceeds s.max_file_bytes (length (before s key i ++ content)))) [
                | inl large ↦
                    rw (room, large)
                      (owned-IsTracked s₀ s key s.files safe (ground (arith, room))
                        (λ k other. refl) v)
                | inr fits ↦
                    rw (room, fits)
                      (owned-IsTracked s₀ s key (Dict.set s.files key (before s key i ++ content))
                        safe (ground (arith, room))
                        (λ k other. get-set_other s.files key k (before s key i ++ content) other)
                        v)
              ]
        ]

  discard-IsTracked :
      (s₀ s : Transfers) (key : Text)
      → IsTracked strip stuck s₀ s
      → IsTracked strip stuck s₀ (record s {
        owned_transfer_files = discard s.owned_transfer_files key;
        files = Dict.remove s.files key;
      })
  discard-IsTracked s₀ s key v = record {
    valid = All-discard _ s.owned_transfer_files key v.valid;
    bounded = omega (arith, v.bounded, length-discard-le s.owned_transfer_files key);
    kept = λ k content free e. elim (Bool-cases (key == k)) [
      | inl same ↦ ground (arith, e, same, Dict.get-remove s.files key k)
      | inr other ↦
          v.kept k content
            (sym (
                holds-discard s.owned_transfer_files key k
                  (λ h. ground (arith, other, list_beq_iff key k, h)))
              ∙ free)
            (sym (Dict.get-remove s.files key k ∙ rw other refl) ∙ e)
    ];
  }

  -- A key is disowned and its file stays.
  disown-IsTracked :
      (s₀ s : Transfers) (key : Text)
      → stuck key ≡ true
      → IsTracked strip stuck s₀ s
      → IsTracked strip stuck s₀
          (record s { owned_transfer_files = discard s.owned_transfer_files key })
  disown-IsTracked s₀ s key h v = record {
    valid = All-discard _ s.owned_transfer_files key v.valid;
    bounded = omega (arith, v.bounded, length-discard-le s.owned_transfer_files key);
    kept = λ k content free e. elim (Bool-cases (key == k)) [
      | inl same ↦ inr (ap stuck (sym ((list_beq_iff key k).0 same)) ∙ h)
      | inr other ↦
          v.kept k content
            (sym (
                holds-discard s.owned_transfer_files key k
                  (λ h'. ground (arith, other, list_beq_iff key k, h')))
              ∙ free)
            e
    ];
  }

  pub delete-IsTracked :
      (refused : Refusals) (s₀ s : Transfers) (file_key : Text)
      → (refused file_key ≡ true → stuck file_key ≡ true)
      → IsTracked strip stuck s₀ s
      → IsTracked strip stuck s₀ (delete_local_file strip refused s file_key).0
  unfolding delete_local_file
  delete-IsTracked refused s₀ s file_key known v =
      elim (Result-cases (file_storage_path strip (text file_key))) [
        | inl (key, e) ↦
            let same : file_key ≡ key = cc (file_storage_path-key strip (text file_key) key e).0 in
            elim (Bool-cases (refused key)) [
              | inl fails ↦
                  rw (delete_local_file, e, same, fails)
                    (disown-IsTracked s₀ s key
                      (sym (ap stuck same) ∙ known (ap refused same ∙ fails)) v)
              | inr removed ↦
                  rw (delete_local_file, e, same, removed) (discard-IsTracked s₀ s key v)
            ]
        | inr (x, e) ↦
            rw (delete_local_file, e)
              (rw (discard_absent s.owned_transfer_files file_key (not_owned x e)) v)
      ]
    where
      not_owned :
          (x : FileError)
          → file_storage_path strip (text file_key) ≡ raise x
          → is_owned s file_key ≡ false
      not_owned x e = elim (Bool-cases (is_owned s file_key)) [
        | inl owned ↦ ground (arith, e, All-holds _ s.owned_transfer_files file_key v.valid owned)
        | inr free ↦ free
      ]
