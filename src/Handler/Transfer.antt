-- ===== src/Handler/Transfer.antt =====
-- `send_file` of handler.py, and its chunks at the handler that receives them.
use langbot_plugin_sdk.Prelude.{
  ℕ, zero, suc, ◌+◌, ◌-◌, ◌*◌, ◌/◌, ◌&&◌, not, Option, List, [], ◌∷◌, ◌++◌, length, take, drop, max,
  if◌then◌else◌, lstrip, rstrip, Result, ok, raise, ◌>>◌, raise_if, nat_eq, list_eq,
}
use langbot_plugin_sdk.Prelude.Int.{pos}
use langbot_plugin_sdk.Handler.Files.{
  Text, Bytes, FileError, text, integer, Chunk, Transfers, Base64, file_chunk_length,
  invalid_extension, file_too_large, is_empty, exceeds, matches_extension, file_chunk,
}

-- Python's hexadecimal SHA-256 digest of a file and the name of a new UUID.
pub record Naming : Type 0 where
  pub sha256 : Bytes → Text
  pub uuid : Text

-- `f".{extension}" if extension else ""`
abbrev pub suffix : Text → Text
suffix extension = if is_empty extension then [] else b'.' ∷ extension

abbrev pub key_name : Naming → Bytes → Text → Text
key_name n file_bytes extension =
    take 16 (n.sha256 file_bytes) ++ b'-' ∷ (n.uuid ++ suffix extension)

module _ (base64 : Base64) where
  -- The loop of `send_file`, from the index `i` on, with the number of chunks that are left.
  unfoldable pub requests : Text → ℕ → ℕ → Bytes → ℕ → ℕ → List Chunk
  requests file_key chunk_length amount file_bytes i zero = []
  requests file_key chunk_length amount file_bytes i (suc left) =
      record {
        file_key = text file_key;
        chunk_base64 =
            text (base64.encode (take chunk_length (drop (i * chunk_length) file_bytes)));
        chunk_index = integer (pos i);
        chunk_amount = integer (pos amount);
      }
      ∷ requests file_key chunk_length amount file_bytes (i + 1) left

  -- The key, and the requests that are sent if the peer answers each of them.
  unfoldable pub send_file : Option ℕ → Naming → Bytes → Text → Result FileError (Text × List Chunk)
  unfolding requests matches_extension
  send_file max_file_bytes n file_bytes file_extension = do
    raise_if (exceeds max_file_bytes (length file_bytes)) file_too_large
    let extension = rstrip b'.' (lstrip b'.' file_extension)
    raise_if (not (is_empty extension) && not (matches_extension extension)) invalid_extension
    let file_key = key_name n file_bytes extension
    let chunk_amount = max 1 ((length file_bytes + file_chunk_length - 1) / file_chunk_length)
    ok (file_key, requests file_key file_chunk_length chunk_amount file_bytes 0 chunk_amount)

-- The requests one after the other at the peer, up to the first that it refuses.
unfoldable pub deliver :
    (Text → Text) → Base64 → Transfers → List Chunk → Transfers × Result FileError (Unit {0})
deliver strip base64 s [] = (s, ok tt)
deliver strip base64 s (c ∷ cs) =
    let after = file_chunk strip base64 s c in
    let later = deliver strip base64 after.0 cs in
    elim after.1 [ ok done ↦ later | raise e ↦ (after.0, raise e) ]
