-- ===== src/Archive/Check.antt =====
-- The loop over the members of an archive, in `_extract_verified_zip` of runtime/plugin/artifact.py.
-- A size of a member is not negative, as in the zip format. A ratio of sizes is compared in whole
-- numbers: the sizes that reach it are too small for a float to differ.
use langbot_plugin_sdk.Prelude.{
  ℕ, ◌+◌, ◌*◌, Bool, ◌&&◌, ◌||◌, not, some, List, [], ◌∷◌, ◌++◌, length, ltb, if◌then◌else◌, Result,
  ok, ◌>>=◌, ◌>>◌, raise_if, ◌==◌, nat_eq, list_eq, option_eq,
}
use langbot_plugin_sdk.Archive.{
  Target, member, any, portable, last_of, is_unsafe, normalized, parents, is_below, ZipInfo,
  file_type, link_type, regular_type, directory_type,
}

abbrev pub max_entries : ℕ
max_entries = 512

abbrev pub max_entry_bytes : ℕ
max_entry_bytes = 16 * 1024 * 1024

abbrev pub max_total_bytes : ℕ
max_total_bytes = 64 * 1024 * 1024

abbrev pub max_ratio : ℕ
max_ratio = 100

pub data ArchiveError : Type 0 where
  too_many_entries unsafe_name unsafe_path duplicate_path symbolic_link : ArchiveError
  non_regular bad_directory_type under_a_file directory_content over_a_path : ArchiveError
  entry_too_large ratio_too_high total_too_large aggregate_ratio : ArchiveError
  unreadable exists size_changed not_made not_opened not_written : ArchiveError

-- An element of `validated`: the member, its target, and whether it is a directory.
pub record Entry : Type 0 where
  pub info : ZipInfo
  pub target : Target
  pub is_directory : Bool

pub record Checked : Type 0 where
  pub validated : List Entry
  pub seen_paths : List Target
  pub regular_paths : List Target
  pub total_compressed : ℕ
  pub total_uncompressed : ℕ

abbrev pub unchecked : Checked
unchecked = record {
  validated = [];
  seen_paths = [];
  regular_paths = [];
  total_compressed = 0;
  total_uncompressed = 0;
}

unfoldable pub check_type : ZipInfo → Bool → Result ArchiveError (Unit {0})
unfolding file_type
check_type info is_directory = do
  let kind = file_type info.external_attr
  raise_if (kind == link_type) symbolic_link
  raise_if (not (kind == 0 || kind == regular_type || kind == directory_type)) non_regular
  raise_if (is_directory && not (kind == 0 || kind == directory_type)) bad_directory_type
  raise_if (not is_directory && not (kind == 0 || kind == regular_type)) non_regular

-- `compress_size == 0 or file_size / compress_size > 100`
abbrev pub exceeds_ratio : ℕ → ℕ → Bool
exceeds_ratio size compressed = compressed == 0 || ltb (max_ratio * compressed) size

unfoldable pub check_sizes : Checked → ZipInfo → Result ArchiveError (Unit {0})
check_sizes s info = do
  raise_if (ltb max_entry_bytes info.file_size) entry_too_large
  raise_if (not (info.file_size == 0) && exceeds_ratio info.file_size info.compress_size)
      ratio_too_high
  raise_if (ltb max_total_bytes (s.total_uncompressed + info.file_size)) total_too_large

abbrev pub add_directory : Checked → Entry → Result ArchiveError Checked
add_directory s entry = do
  raise_if (not (entry.info.file_size == 0)) directory_content
  ok (record s {
    validated = s.validated ++ (entry ∷ []);
    seen_paths = entry.target ∷ s.seen_paths;
  })

abbrev pub add_file : Checked → Entry → Result ArchiveError Checked
add_file s entry = do
  raise_if (any (λ path. is_below path entry.target) (entry.target ∷ s.seen_paths)) over_a_path
  check_sizes s entry.info
  ok (record {
    validated = s.validated ++ (entry ∷ []);
    seen_paths = entry.target ∷ s.seen_paths;
    regular_paths = entry.target ∷ s.regular_paths;
    total_compressed = s.total_compressed + entry.info.compress_size;
    total_uncompressed = s.total_uncompressed + entry.info.file_size;
  })

-- The entry of a member.
abbrev pub entry_of : ZipInfo → Entry
entry_of info = record {
  info = info;
  target = normalized (portable info.filename);
  is_directory = last_of info.filename == some 47 || last_of (portable info.filename) == some 47;
}

-- The tests that are common to files and directories.
unfoldable pub check_entry : Checked → Entry → Result ArchiveError (Unit {0})
unfolding portable is_unsafe parents check_type
check_entry s entry = do
  raise_if (entry.info.filename == [] || member 0 entry.info.filename) unsafe_name
  raise_if (is_unsafe (portable entry.info.filename)) unsafe_path
  raise_if (member entry.target s.seen_paths) duplicate_path
  check_type entry.info entry.is_directory
  raise_if (any (λ parent. member parent s.regular_paths) (parents entry.target)) under_a_file

-- One round of the loop.
unfoldable pub check_member : Checked → ZipInfo → Result ArchiveError Checked
unfolding portable normalized is_below check_entry check_sizes
check_member s info = do
  check_entry s (entry_of info)
  if (entry_of info).is_directory
      then add_directory s (entry_of info)
      else add_file s (entry_of info)

unfoldable pub check_each : Checked → List ZipInfo → Result ArchiveError Checked
unfolding check_member
check_each s [] = ok s
check_each s (info ∷ members) = do s' ← check_member s info; check_each s' members

-- What is done before the first file is written.
unfoldable pub check_members : List ZipInfo → Result ArchiveError (List Entry)
unfolding check_each
check_members members = do
  raise_if (ltb max_entries (length members)) too_many_entries
  s ← check_each unchecked members
  raise_if
      (not (s.total_uncompressed == 0) && exceeds_ratio s.total_uncompressed s.total_compressed)
      aggregate_ratio
  ok s.validated
