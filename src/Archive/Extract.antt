-- ===== src/Archive/Extract.antt =====
-- The loop that writes the files of a checked archive, in `_extract_verified_zip` of
-- runtime/plugin/artifact.py. What the archive holds of a member is the chunks that `read` returns,
-- or nothing where opening or reading raises; a file is its target and its bytes. The directory to
-- which the package is extracted is new, and is removed after an error.
use langbot_plugin_sdk.Prelude.{
  ℕ, ◌+◌, Bool, not, Option, none, some, List, [], ◌∷◌, ◌++◌, map, length, ltb, if◌then◌else◌,
  Result, ok, raise, ◌>>=◌, ◌>>◌, raise_if, ◌==◌, nat_eq, list_eq,
}
use langbot_plugin_sdk.Archive.{Target, member, ZipInfo}
use langbot_plugin_sdk.Archive.Check.{
  ArchiveError, unreadable, exists, size_changed, not_made, not_opened, not_written,
  entry_too_large, total_too_large, Entry, max_entry_bytes, max_total_bytes, check_members,
}

abbrev pub Bytes : Type 0
Bytes = List ℕ

abbrev pub File : Type 0
File = Target × Bytes

-- What the file system answers: whether it makes a directory with its parents, opens a file that is
-- not there, and writes so much of a file.
pub record Disk : Type 0 where
  pub makes : Target → Bool
  pub opens : Target → Bool
  pub writes : Target → ℕ → Bool

-- `target.parent`, and `[]` for the destination
abbrev pub parent : Target → Target
parent [] = []
parent (c ∷ []) = []
parent (c ∷ d ∷ t) = c ∷ parent (d ∷ t)

-- The bytes of the entry, and how many there are of all entries, after the chunks.
unfoldable pub copy_chunks : (ℕ → Bool) → Bytes → ℕ → List Bytes → Result ArchiveError (Bytes × ℕ)
copy_chunks writes content total [] = ok (content, total)
copy_chunks writes content total (chunk ∷ chunks) =
    if length chunk == 0 then ok (content, total) else do
      raise_if (ltb max_entry_bytes (length content + length chunk)) entry_too_large
      raise_if (ltb max_total_bytes (total + length chunk)) total_too_large
      raise_if (not (writes (length content + length chunk))) not_written
      copy_chunks writes (content ++ chunk) (total + length chunk) chunks

unfoldable pub extract_entries :
    Disk
    → (ZipInfo → Option (List Bytes))
    → List File
    → ℕ
    → List Entry
    → Result ArchiveError (List File)
unfolding copy_chunks
extract_entries disk read files total [] = ok files
extract_entries disk read files total (entry ∷ entries) =
    if entry.is_directory
    then (do
      raise_if (not (disk.makes entry.target)) not_made
      extract_entries disk read files total entries)
    else do
      raise_if (not (disk.makes (parent entry.target))) not_made
      raise_if (member entry.target (map (λ file. file.0) files)) exists
      raise_if (not (disk.opens entry.target)) not_opened
      elim (read entry.info) [
        | none ↦ raise unreadable
        | some chunks ↦ do
          out ← copy_chunks (disk.writes entry.target) [] total chunks
          raise_if (not (length out.0 == entry.info.file_size)) size_changed
          extract_entries disk read ((entry.target, out.0) ∷ files) out.1 entries
      ]

unfoldable pub extract_verified_zip :
    Disk → (ZipInfo → Option (List Bytes)) → List ZipInfo → Result ArchiveError (List File)
unfolding check_members extract_entries
extract_verified_zip disk read members = do
  entries ← check_members members
  extract_entries disk read [] 0 entries
