-- ===== src/Archive/Tests.antt =====
-- Runs of the model of the extraction of a package at concrete inputs.
use langbot_plugin_sdk.Prelude.{
  ℕ, zero, suc, map, ◌*◌, ◌^◌, ◌≤◌, ◌≡◌, refl, true, false, nat_eq, Option, some, List, [], ◌∷◌,
  All, ok, raise,
}
use langbot_plugin_sdk.Archive.{
  Name, ZipInfo, portable, split_path, norm_step, norm_parts, normalized, is_unsafe, parents,
  is_below, file_type, link_type,
}
use langbot_plugin_sdk.Archive.Check.{
  Entry, check_type, check_sizes, check_entry, check_member, check_each, check_members,
  max_total_bytes, unsafe_path, under_a_file, over_a_path, duplicate_path, symbolic_link,
  ratio_too_high, size_changed, not_opened,
}
use langbot_plugin_sdk.Archive.Extract.{
  Bytes, File, Disk, copy_chunks, extract_entries, extract_verified_zip,
}
use langbot_plugin_sdk.Archive.Verified.{IsVerified, verified}
use langbot_plugin_sdk.Archive.Extracted.{files_of, sized, declared, bytes_of, IsBounded, extracted}
use langbot_plugin_sdk.Archive.Complete.{IsHonest, Takes, extract_complete}

program : Unit {0}
unfolding portable split_path norm_step norm_parts normalized is_unsafe parents is_below file_type
    check_type check_sizes check_entry check_member check_each check_members copy_chunks
    extract_entries extract_verified_zip
program = tt

abbrev info_of : Name → ℕ → ℕ → ZipInfo
info_of name size compressed = record {
  filename = name;
  external_attr = 0;
  file_size = size;
  compress_size = compressed;
}

-- "a/./b", "c\" and "c/d"
abbrev members : List ZipInfo
members =
    info_of (97 ∷ 47 ∷ 46 ∷ 47 ∷ 98 ∷ []) 5 5
    ∷ info_of (99 ∷ 92 ∷ []) 0 0
    ∷ info_of (99 ∷ 47 ∷ 100 ∷ []) 3 2
    ∷ []

abbrev entries : List Entry
entries =
    record {
      info = info_of (97 ∷ 47 ∷ 46 ∷ 47 ∷ 98 ∷ []) 5 5;
      target = (97 ∷ []) ∷ (98 ∷ []) ∷ [];
      is_directory = false;
    }
    ∷ record { info = info_of (99 ∷ 92 ∷ []) 0 0; target = (99 ∷ []) ∷ []; is_directory = true }
    ∷ record {
      info = info_of (99 ∷ 47 ∷ 100 ∷ []) 3 2;
      target = (99 ∷ []) ∷ (100 ∷ []) ∷ [];
      is_directory = false;
    }
    ∷ []

checked : check_members members ≡ ok entries
unfolding program
checked = refl

verified_example : IsVerified members entries
verified_example = verified members entries checked

-- The declared bytes of every member, in one chunk.
abbrev zeros : ℕ → Bytes
zeros zero = []
zeros (suc n) = 0 ∷ zeros n

abbrev read : ZipInfo → Option (List Bytes)
read info = some (zeros info.file_size ∷ [])

-- A file system that refuses nothing.
abbrev disk : Disk
disk = record { makes = λ t. true; opens = λ t. true; writes = λ t n. true }

abbrev files : List File
files =
    ((99 ∷ []) ∷ (100 ∷ []) ∷ [], 0 ∷ 0 ∷ 0 ∷ [])
    ∷ ((97 ∷ []) ∷ (98 ∷ []) ∷ [], 0 ∷ 0 ∷ 0 ∷ 0 ∷ 0 ∷ [])
    ∷ []

extracted_files : extract_verified_zip disk read members ≡ ok files
unfolding program
extracted_files = refl

-- A file system that opens no file.
full_disk :
    extract_verified_zip (record disk { opens = λ t. false }) read members ≡ raise not_opened
unfolding program
full_disk = refl

extracted_example :
    (es : List Entry) × (check_members members ≡ ok es)
    × (files ≡ files_of read es [])
    × (map sized files ≡ declared es [])
    × All IsBounded (map sized files)
    × (bytes_of (map sized files) ≤ max_total_bytes)
extracted_example = extracted disk read members files extracted_files

honest : All (λ e. IsHonest read e.info) entries
unfolding IsHonest
honest =
    ((zeros 5 ∷ [], refl, refl), ((zeros 0 ∷ [], refl, refl), ((zeros 3 ∷ [], refl, refl), tt)))

takes : (e : Entry) → Takes disk e
takes e = record { made = refl; made_parent = refl; opened = refl; written = λ n. refl }

extract_complete_example : extract_verified_zip disk read members ≡ ok (files_of read entries [])
extract_complete_example =
    extract_complete disk read members entries checked honest (takes _, (takes _, (takes _, tt)))

-- "a/../b", "/b", "../b" and "c:b" are refused.
refused_paths :
    (check_members (info_of (97 ∷ 47 ∷ 46 ∷ 46 ∷ 47 ∷ 98 ∷ []) 1 1 ∷ []) ≡ raise unsafe_path)
    × (check_members (info_of (47 ∷ 98 ∷ []) 1 1 ∷ []) ≡ raise unsafe_path)
    × (check_members (info_of (46 ∷ 46 ∷ 92 ∷ 98 ∷ []) 1 1 ∷ []) ≡ raise unsafe_path)
    × (check_members (info_of (99 ∷ 58 ∷ 98 ∷ []) 1 1 ∷ []) ≡ raise unsafe_path)
unfolding program
refused_paths = (refl, refl, refl, refl)

-- "a/b" before and after "a", "a" twice, a link, and a member that is too well packed.
refused_members :
    (check_members (info_of (97 ∷ 47 ∷ 98 ∷ []) 1 1 ∷ info_of (97 ∷ []) 1 1 ∷ [])
      ≡ raise over_a_path)
    × (check_members (info_of (97 ∷ []) 1 1 ∷ info_of (97 ∷ 47 ∷ 98 ∷ []) 1 1 ∷ [])
        ≡ raise under_a_file)
    × (check_members (info_of (97 ∷ []) 1 1 ∷ info_of (97 ∷ []) 1 1 ∷ []) ≡ raise duplicate_path)
    × (check_members (record (info_of (97 ∷ []) 1 1) { external_attr = link_type * 2 ^ 28 } ∷ [])
        ≡ raise symbolic_link)
    × (check_members (info_of (97 ∷ []) 101 1 ∷ []) ≡ raise ratio_too_high)
unfolding program
refused_members = (refl, refl, refl, refl, refl)

-- A member of which the archive holds less than it declares.
short : extract_verified_zip disk (λ info. some ((1 ∷ []) ∷ [])) members ≡ raise size_changed
unfolding program
short = refl
