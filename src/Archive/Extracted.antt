-- ===== src/Archive/Extracted.antt =====
-- What is extracted of an archive that passes the tests.
use mathlib.Core.List.{append-nil, append_assoc}
use langbot_plugin_sdk.Prelude.{
  ℕ, ◌+◌, ◌≤◌, ◌≡◌, ◌∙◌, sym, inl, inr, Bool, Option, none, some, List, [], ◌∷◌, ◌++◌, map, length,
  ◌==◌, arith, All, Bool-cases, Option-cases, Result-cases, if◌then◌else◌, ok, nat_eq, list_eq,
}
use langbot_plugin_sdk.Archive.{Target, ZipInfo}
use langbot_plugin_sdk.Archive.Check.{max_entry_bytes, max_total_bytes, Entry, check_members}
use langbot_plugin_sdk.Archive.Extract.{
  Bytes, File, Disk, copy_chunks, extract_entries, extract_verified_zip,
}
use langbot_plugin_sdk.Archive.Contained.{IsContained}
use langbot_plugin_sdk.Archive.Loop.{uncompressed}
use langbot_plugin_sdk.Archive.Verified.{verified}

-- A target, and the number of bytes of a file.
abbrev pub Sized : Type 0
Sized = Target × ℕ

abbrev pub sized : File → Sized
sized f = (f.0, length f.1)

-- The files that the entries declare, the last one first.
unfoldable pub declared : List Entry → List Sized → List Sized
declared [] files = files
declared (e ∷ entries) files =
    declared entries (if e.is_directory then files else (e.target, e.info.file_size) ∷ files)

-- The chunks up to the first that is empty.
abbrev pub joined : List Bytes → Bytes
joined [] = []
joined (chunk ∷ chunks) =
    let rest = joined chunks in if length chunk == 0 then [] else chunk ++ rest

abbrev pub content_of : (ZipInfo → Option (List Bytes)) → ZipInfo → Bytes
content_of read info = elim (read info) [ none ↦ [] | some chunks ↦ joined chunks ]

-- The files of the entries with the bytes that are read, the last one first.
unfoldable pub files_of : (ZipInfo → Option (List Bytes)) → List Entry → List File → List File
files_of read [] files = files
files_of read (e ∷ entries) files =
    files_of read entries
      (if e.is_directory then files else (e.target, content_of read e.info) ∷ files)

copy_chunks-joined :
    (writes : ℕ → Bool) (content : Bytes) (total : ℕ) (chunks : List Bytes) {out : Bytes × ℕ}
    → copy_chunks writes content total chunks ≡ ok out
    → out.0 ≡ content ++ joined chunks
unfolding copy_chunks
copy_chunks-joined writes content total [] e = ground (arith, e, append-nil content)
copy_chunks-joined writes content total (chunk ∷ chunks) {out} e =
    elim (Bool-cases (length chunk == 0)) [
      | inl last ↦ ground (arith, e, last, append-nil content)
      | inr more ↦ rw more (
          copy_chunks-joined writes (content ++ chunk) (total + length chunk) chunks {out = out}
            (ground (arith, e, more))
          ∙ append_assoc content chunk (joined chunks))
    ]

-- Extraction writes what is read, with the sizes that are declared.
extract_entries-files :
    (disk : Disk) (read : ZipInfo → Option (List Bytes)) (files : List File) (total : ℕ)
    (entries : List Entry) {out : List File}
    → extract_entries disk read files total entries ≡ ok out
    → (out ≡ files_of read entries files) × (map sized out ≡ declared entries (map sized files))
unfolding extract_entries files_of declared
extract_entries-files disk read files total [] e = ground (arith, e)
extract_entries-files disk read files total (x ∷ entries) {out} e =
    elim (Bool-cases x.is_directory) [
      | inl is_dir ↦
          rw is_dir
            (extract_entries-files disk read files total entries (ground (arith, e, is_dir)))
      | inr is_file ↦ elim (Option-cases (read x.info)) [
        | inl gone ↦ ground (arith, e, is_file, gone)
        | inr (chunks, found) ↦
            elim (Result-cases (copy_chunks (disk.writes x.target) [] total chunks)) [
              | inr (err, c) ↦ ground (arith, e, is_file, found, c)
              | inl (copied, c) ↦
                  let content : copied.0 ≡ content_of read x.info =
                    rw (content_of, found)
                      (copy_chunks-joined (disk.writes x.target) [] total chunks c) in
                  let size : length copied.0 ≡ x.info.file_size =
                    ground (arith, e, is_file, found, c) in
                  let later =
                    extract_entries-files disk read ((x.target, copied.0) ∷ files) copied.1 entries
                      (ground (arith, e, is_file, found, c)) in
                  (rw (is_file, sym content) later.0, rw (is_file, sym size) later.1)
            ]
      ]
    ]

pub bytes_of : List Sized → ℕ
bytes_of [] = 0
bytes_of (f ∷ files) = f.1 + bytes_of files

declared-All :
    (P : Sized → Type 0) (entries : List Entry) (files : List Sized)
    → All (λ e. P (e.target, e.info.file_size)) entries
    → All P files
    → All P (declared entries files)
unfolding declared
declared-All P [] files a h = h
declared-All P (x ∷ entries) files a h = elim (Bool-cases x.is_directory) [
  | inl is_dir ↦ rw is_dir (declared-All P entries files a.1 h)
  | inr is_file ↦ rw is_file (declared-All P entries _ a.1 (a.0, h))
]

bytes_of-declared :
    (entries : List Entry) (files : List Sized)
    → bytes_of (declared entries files) ≤ bytes_of files + uncompressed entries
unfolding declared bytes_of uncompressed
bytes_of-declared [] files = omega arith
bytes_of-declared (x ∷ entries) files = elim (Bool-cases x.is_directory) [
  | inl is_dir ↦ let ih = bytes_of-declared entries files in rw is_dir (omega arith)
  | inr is_file ↦
      let ih = bytes_of-declared entries ((x.target, x.info.file_size) ∷ files) in
      rw is_file (omega arith)
]

-- The limits that an extracted file keeps.
abbrev pub IsBounded : Sized → Type 0
IsBounded f = IsContained f.0 × (f.1 ≤ max_entry_bytes)

IsBounded-entries :
    (entries : List Entry)
    → All (λ e. IsContained e.target) entries
    → All (λ e. e.info.file_size ≤ max_entry_bytes) entries
    → All (λ e. IsBounded (e.target, e.info.file_size)) entries
IsBounded-entries [] c s = tt
IsBounded-entries (x ∷ entries) c s = ((c.0, s.0), IsBounded-entries entries c.1 s.1)

-- An extraction that does not raise has written, whatever the archive holds of the members and the
-- file system refuses, exactly the files of the entries that passed the tests, with the bytes that
-- were read and the sizes that are declared; each file is strictly below the destination and of at
-- most 16 MiB, and all are of at most 64 MiB.
pub extracted :
    (disk : Disk) (read : ZipInfo → Option (List Bytes)) (members : List ZipInfo)
    (files : List File)
    → extract_verified_zip disk read members ≡ ok files
    → (entries : List Entry) × (check_members members ≡ ok entries)
      × (files ≡ files_of read entries [])
      × (map sized files ≡ declared entries [])
      × All IsBounded (map sized files)
      × (bytes_of (map sized files) ≤ max_total_bytes)
unfolding extract_verified_zip bytes_of
extracted disk read members files e = elim (Result-cases (check_members members)) [
  | inr (err, c) ↦ ground (arith, c, e)
  | inl (entries, c) ↦
      let v = verified members entries c in
      let total = v.total in
      let (same, sizes) = extract_entries-files disk read [] 0 entries (ground (arith, c, e)) in
      let few = bytes_of-declared entries [] in
      let bounded =
        declared-All IsBounded entries [] (IsBounded-entries entries v.contained v.small) tt in
      (entries, c, same, sizes, rw sizes bounded, rw sizes (less entries few total))
]
  where
    less :
        (entries : List Entry)
        → bytes_of (declared entries []) ≤ bytes_of [] + uncompressed entries
        → uncompressed entries ≤ max_total_bytes
        → bytes_of (declared entries []) ≤ max_total_bytes
    less entries a b = omega arith
