-- ===== src/Handler/Files.antt =====
-- The files that a handler of handler.py receives, sends, reads and deletes. A text is the list of
-- its code points and a file the list of its bytes. The storage directory is a dictionary from the
-- keys, which are the names in it, to the files; `strip` is Python's `str.strip`, `Base64` its module
-- `base64`. A chunk is written under the lock, so each operation is one step.
use langbot_plugin_sdk.Prelude.{
  ℕ, ◌+◌, ◌*◌, ◌/◌, Bool, true, false, ◌&&◌, ◌||◌, not, Option, none, some, List, [], ◌∷◌, ◌++◌,
  length, leb, ltb, if◌then◌else◌, Result, ok, raise, ◌>>=◌, ◌>>◌, raise_if, ◌==◌, nat_eq, list_eq,
}
use langbot_plugin_sdk.Prelude.Dict
use langbot_plugin_sdk.Prelude.Dict.{Dict}
use langbot_plugin_sdk.Prelude.Int.{ℤ, pos}

abbrev pub Text : Type 0
Text = List ℕ

abbrev pub Bytes : Type 0
Bytes = List ℕ

abbrev pub file_chunk_length : ℕ
file_chunk_length = 1024 * 16

abbrev pub max_active_file_transfers : ℕ
max_active_file_transfers = 128

pub data FileError : Type 0 where
  missing_field invalid_key invalid_extension chunk_too_large invalid_position not_base64 :
      FileError
  capacity_reached file_too_large file_not_found not_removed : FileError

-- An entry of a request: a text, an integer, another value (a Boolean is one), or no entry.
pub data Field : Type 0 where
  text : Text → Field
  integer : ℤ → Field
  other_value missing : Field

-- The data of a FILE_CHUNK request.
pub record Chunk : Type 0 where
  pub file_key : Field
  pub chunk_base64 : Field
  pub chunk_index : Field
  pub chunk_amount : Field

pub record Transfers : Type 0 where
  pub files : Dict Text Bytes
  pub owned_transfer_files : List Text
  pub max_file_bytes : Option ℕ

pub record Base64 : Type 0 where
  pub encode : Bytes → Text
  pub decode : Text → Option Bytes

abbrev pub mem {ℓ} : {A : Type ℓ} → (A → Bool) → List A → Bool
mem p [] = false
mem p (x ∷ xs) = p x || mem p xs

abbrev pub every {ℓ} : {A : Type ℓ} → (A → Bool) → List A → Bool
every p [] = true
every p (x ∷ xs) = p x && every p xs

abbrev in_range : ℕ → ℕ → ℕ → Bool
in_range a b c = leb a c && leb c b

abbrev pub is_alphanumeric : ℕ → Bool
is_alphanumeric c = in_range b'A' b'Z' c || (in_range b'a' b'z' c || in_range b'0' b'9' c)

abbrev pub is_key_char : ℕ → Bool
is_key_char c = is_alphanumeric c || (c == b'.' || (c == b'_' || c == b'-'))

abbrev pub is_extension_char : ℕ → Bool
is_extension_char c = is_alphanumeric c || (c == b'_' || c == b'-')

-- `_SAFE_FILE_KEY_PATTERN.fullmatch`
unfoldable pub matches_key : Text → Bool
matches_key [] = false
matches_key (c ∷ t) = is_alphanumeric c && (every is_key_char t && leb (length t) 254)

-- `_SAFE_FILE_EXTENSION_PATTERN.fullmatch`
unfoldable pub matches_extension : Text → Bool
matches_extension [] = false
matches_extension (c ∷ t) = is_alphanumeric c && (every is_extension_char t && leb (length t) 31)

-- `".." in key`
abbrev pub has_dots : Text → Bool
has_dots [] = false
has_dots (c ∷ []) = false
has_dots (c ∷ d ∷ t) = c == b'.' && d == b'.' || has_dots (d ∷ t)

abbrev pub is_empty {ℓ} : {A : Type ℓ} → List A → Bool
is_empty [] = true
is_empty (x ∷ xs) = false

abbrev pub has_char : ℕ → Text → Bool
has_char c = mem λ d. d == c

-- `_file_storage_path`, whose path is the name that is returned, in the directory. A key with no
-- slash is no absolute path and its own base name.
unfoldable pub file_storage_path : (Text → Text) → Field → Result FileError Text
unfolding matches_key
file_storage_path strip (text file_key) = do
  let key = strip file_key
  raise_if
      (is_empty key
        || (not (key == file_key)
            || (has_char b'/' key
                || (has_char b'\\' key || (has_dots key || not (matches_key key))))))
      invalid_key
  ok key
file_storage_path strip missing = raise missing_field
file_storage_path strip field = raise invalid_key

abbrev given : Field → Result FileError (Unit {0})
given missing = raise missing_field
given field = ok tt

-- `chunk_base64`, if it is a text of the right length
abbrev base64_text : Field → Result FileError Text
base64_text (text t) =
    if ltb ((file_chunk_length + 2) / 3 * 4) (length t) then raise chunk_too_large else ok t
base64_text field = raise chunk_too_large

-- `chunk_index`, if the two positions are right
abbrev position : Field → Field → Result FileError ℕ
position (integer (pos index)) (integer (pos amount)) =
    if leb amount index then raise invalid_position else ok index
position index amount = raise invalid_position

module _ (strip : Text → Text) (base64 : Base64) where
  -- The part of `file_chunk` before the lock.
  unfoldable pub check_chunk : Chunk → Result FileError (Text × ℕ × Bytes)
  unfolding file_storage_path
  check_chunk data' = do
    key ← file_storage_path strip data'.file_key
    given data'.chunk_base64
    given data'.chunk_index
    given data'.chunk_amount
    chunk_base64 ← base64_text data'.chunk_base64
    chunk_index ← position data'.chunk_index data'.chunk_amount
    (elim (base64.decode chunk_base64) [
      | none ↦ raise not_base64
      | some chunk_bytes ↦
          if ltb file_chunk_length (length chunk_bytes)
          then raise chunk_too_large
          else ok (key, chunk_index, chunk_bytes)
    ])

abbrev pub is_owned : Transfers → Text → Bool
is_owned s key = mem (λ k. k == key) s.owned_transfer_files

abbrev pub exceeds : Option ℕ → ℕ → Bool
exceeds none size = false
exceeds (some limit) size = ltb limit size

-- `owned_transfer_files` with the key, a set
abbrev pub with_owner : Transfers → Text → List Text
with_owner s key =
    if is_owned s key then s.owned_transfer_files else s.owned_transfer_files ++ key ∷ []

-- The bytes before the chunk: none for the first chunk, or where there is no file.
abbrev pub before : Transfers → Text → ℕ → Bytes
before s key chunk_index =
    if chunk_index == 0
    then []
    else elim (Dict.get s.files key) [ some content ↦ content | none ↦ [] ]

-- The part of `file_chunk` under the lock. The key is owned also if the chunk is refused for its size.
unfoldable pub store_chunk : Transfers → Text → ℕ → Bytes → Transfers × Result FileError (Unit {0})
store_chunk s key chunk_index chunk_bytes =
    let owned = with_owner s key in
    let content = before s key chunk_index ++ chunk_bytes in
    if not (is_owned s key) && leb max_active_file_transfers (length s.owned_transfer_files)
    then (s, raise capacity_reached)
    else if exceeds s.max_file_bytes (length content)
    then (record s { owned_transfer_files = owned }, raise file_too_large)
    else (record s { owned_transfer_files = owned; files = Dict.set s.files key content }, ok tt)

unfoldable pub file_chunk :
    (Text → Text) → Base64 → Transfers → Chunk → Transfers × Result FileError (Unit {0})
unfolding check_chunk store_chunk
file_chunk strip base64 s data' = elim (check_chunk strip base64 data') [
  | raise e ↦ (s, raise e)
  | ok (key, chunk_index, chunk_bytes) ↦ store_chunk s key chunk_index chunk_bytes
]

unfoldable pub read_local_file : (Text → Text) → Transfers → Text → Result FileError Bytes
unfolding file_storage_path
read_local_file strip s file_key = do
  key ← file_storage_path strip (text file_key)
  (elim (Dict.get s.files key) [
    | none ↦ raise file_not_found
    | some content ↦
        if exceeds s.max_file_bytes (length content) then raise file_too_large else ok content
  ])

abbrev pub discard : List Text → Text → List Text
discard [] key = []
discard (k ∷ ks) key = let rest = discard ks key in if k == key then rest else k ∷ rest

-- The keys whose file the system refuses to remove, now: an `OSError` that is no `FileNotFoundError`.
abbrev pub Refusals : Type 0
Refusals = Text → Bool

-- A key that is refused is discarded too, and then raises; so is one whose file is not removed.
unfoldable pub delete_local_file :
    (Text → Text) → Refusals → Transfers → Text → Transfers × Result FileError (Unit {0})
unfolding file_storage_path
delete_local_file strip refused s file_key =
    let s' = record s { owned_transfer_files = discard s.owned_transfer_files file_key } in
    elim (file_storage_path strip (text file_key)) [
      | raise e ↦ (s', raise e)
      | ok key ↦
          if refused key
          then (s', raise not_removed)
          else (record s' { files = Dict.remove s.files key }, ok tt)
    ]

-- A file that is not removed is logged and stays.
abbrev pub remove_all : Refusals → Dict Text Bytes → List Text → Dict Text Bytes
remove_all refused files [] = files
remove_all refused files (key ∷ keys) =
    remove_all refused (if refused key then files else Dict.remove files key) keys

-- `_cleanup_owned_transfers`: every owned key is the name of a file, since it was checked before.
unfoldable pub cleanup_owned_transfers : Refusals → Transfers → Transfers
cleanup_owned_transfers refused s = record s {
  files = remove_all refused s.files s.owned_transfer_files;
  owned_transfer_files = [];
}
