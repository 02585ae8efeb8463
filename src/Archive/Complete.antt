-- ===== src/Archive/Complete.antt =====
-- An archive that passes the tests and holds what it declares is extracted to a file system that
-- refuses nothing.
use langbot_plugin_sdk.Prelude.{
  ℕ, ◌+◌, ◌≤◌, ◌≡◌, refl, inl, inr, Bool, true, false, Option, some, List, [], ◌∷◌, ◌++◌, map,
  arith, All, Bool-cases, ltb, ok, length, length-append, ◌==◌, nat_eq, list_eq, ==_refl,
}
use mathlib.Core.List.{append-nil, append_assoc}
use langbot_plugin_sdk.Archive.{ZipInfo, member}
use langbot_plugin_sdk.Archive.Check.{max_entry_bytes, max_total_bytes, Entry, check_members}
use langbot_plugin_sdk.Archive.Extract.{
  Bytes, File, Disk, parent, copy_chunks, extract_entries, extract_verified_zip,
}
use langbot_plugin_sdk.Archive.Apart.{IsApart, AllApart}
use langbot_plugin_sdk.Archive.Loop.{uncompressed}
use langbot_plugin_sdk.Archive.Verified.{verified}
use langbot_plugin_sdk.Archive.Extracted.{joined, content_of, files_of}

-- Opening and reading a member do not raise, and return as many bytes as it declares.
unfoldable pub IsHonest : (ZipInfo → Option (List Bytes)) → ZipInfo → Type 0
IsHonest read info =
    (chunks : List Bytes) × (read info ≡ some chunks) × (length (joined chunks) ≡ info.file_size)

-- The file system makes the directory of the entry and opens and writes its file.
pub record Takes (disk : Disk) (e : Entry) : Type 0 where
  pub made : disk.makes e.target ≡ true
  pub made_parent : disk.makes (parent e.target) ≡ true
  pub opened : disk.opens e.target ≡ true
  pub written : (n : ℕ) → disk.writes e.target n ≡ true

copy_chunks_lem :
    (writes : ℕ → Bool) (content : Bytes) (total : ℕ) (chunks : List Bytes)
    → ((n : ℕ) → writes n ≡ true)
    → length content + length (joined chunks) ≤ max_entry_bytes
    → total + length (joined chunks) ≤ max_total_bytes
    → copy_chunks writes content total chunks
      ≡ ok (content ++ joined chunks, total + length (joined chunks))
unfolding copy_chunks
copy_chunks_lem writes content total [] w h k = ground (arith, append-nil content)
copy_chunks_lem writes content total (chunk ∷ chunks) w h k =
    elim (Bool-cases (length chunk == 0)) [
      | inl last ↦ ground (arith, last, append-nil content)
      | inr more ↦
          let room : length content + length chunk + length (joined chunks) ≤ max_entry_bytes =
            ground (arith, h, more, length-append chunk (joined chunks)) in
          let room' : total + length chunk + length (joined chunks) ≤ max_total_bytes =
            ground (arith, k, more, length-append chunk (joined chunks)) in
          let ih =
            copy_chunks_lem writes (content ++ chunk) (total + length chunk) chunks w
              (omega (arith, length-append content chunk)) (omega arith) in
          let fits : ltb max_entry_bytes (length content + length chunk) ≡ false =
            ground (arith, room) in
          let fits' : ltb max_total_bytes (total + length chunk) ≡ false = ground (arith, room') in
          rw (more, fits, fits', w (length content + length chunk))
            (ground (
              arith,
              ih,
              append_assoc content chunk (joined chunks),
              length-append chunk (joined chunks),
            ))
    ]

-- The entries that are still to be extracted have no file yet.
abbrev IsNew : List File → List Entry → Type 0
IsNew files entries = All (λ e. member e.target (map (λ file. file.0) files) ≡ false) entries

IsNew-next :
    (x : Entry) (content : Bytes) (files : List File) (entries : List Entry)
    → All (IsApart x) entries
    → IsNew files entries
    → IsNew ((x.target, content) ∷ files) entries
IsNew-next x content files [] a n = tt
IsNew-next x content files (e ∷ entries) a n =
    (ground (arith, a.0.0, n.0), IsNew-next x content files entries a.1 n.1)

extract_entries_lem :
    (disk : Disk) (read : ZipInfo → Option (List Bytes)) (files : List File) (total : ℕ)
    (entries : List Entry)
    → All (λ e. IsHonest read e.info) entries
    → All (Takes disk) entries
    → All (λ e. e.info.file_size ≤ max_entry_bytes) entries
    → AllApart entries
    → IsNew files entries
    → total + uncompressed entries ≤ max_total_bytes
    → extract_entries disk read files total entries ≡ ok (files_of read entries files)
unfolding extract_entries files_of AllApart uncompressed IsHonest
extract_entries_lem disk read files total [] h d s a n t = refl
extract_entries_lem disk read files total (x ∷ entries) h d s a n t =
    elim (Bool-cases x.is_directory) [
      | inl is_dir ↦
          rw (is_dir, d.0.made)
            (extract_entries_lem disk read files total entries h.1 d.1 s.1 a.1 n.1 (omega arith))
      | inr is_file ↦
          let (chunks, found, size) = h.0 in
          let small = s.0 in
          let content : content_of read x.info ≡ joined chunks = rw (content_of, found) refl in
          let copied =
            copy_chunks_lem (disk.writes x.target) [] total chunks d.0.written (omega arith)
              (omega arith) in
          let whole : (length (joined chunks) == x.info.file_size) ≡ true =
            rw size (==_refl x.info.file_size) in
          let ih =
            extract_entries_lem disk read ((x.target, joined chunks) ∷ files)
              (total + length (joined chunks)) entries h.1 d.1 s.1 a.1
              (IsNew-next x (joined chunks) files entries a.0 n.1) (omega arith) in
          rw (is_file, content, d.0.made_parent, n.0, d.0.opened, found, copied, whole) ih
    ]

-- An archive that passes the tests is extracted whole: where opening and reading its members does not
-- raise and returns as many bytes as they declare, and where the file system makes every directory
-- and opens and writes every file, the extraction writes every entry that is a file with exactly the
-- bytes that were read.
pub extract_complete :
    (disk : Disk) (read : ZipInfo → Option (List Bytes)) (members : List ZipInfo)
    (entries : List Entry)
    → check_members members ≡ ok entries
    → All (λ e. IsHonest read e.info) entries
    → All (Takes disk) entries
    → extract_verified_zip disk read members ≡ ok (files_of read entries [])
unfolding extract_verified_zip
extract_complete disk read members entries c h d =
    let v = verified members entries c in
    let total = v.total in
    rw c
      (extract_entries_lem disk read [] 0 entries h d v.small v.apart (fresh entries) (omega arith))
  where
    fresh : (es : List Entry) → IsNew [] es
    fresh [] = tt
    fresh (e ∷ es) = (refl, fresh es)
