-- ===== src/Archive/Verified.antt =====
-- What the tests of an archive leave to be extracted, and what is extracted.
use langbot_plugin_sdk.Prelude.{
  ◌*◌, ◌≤◌, ◌≡◌, refl, inl, inr, List, arith, All, length, Result-cases, ok, nat_eq, list_eq,
}
use langbot_plugin_sdk.Archive.{ZipInfo}
use langbot_plugin_sdk.Archive.Check.{
  max_entries, max_entry_bytes, max_total_bytes, max_ratio, Entry, unchecked, check_each,
  check_members,
}
use langbot_plugin_sdk.Archive.Contained.{IsContained}
use langbot_plugin_sdk.Archive.Apart.{AllApart}
use langbot_plugin_sdk.Archive.Loop.{uncompressed, compressed, IsChecked, check_each-IsChecked}

-- The entries that may be extracted.
pub record IsVerified (members : List ZipInfo) (entries : List Entry) : Type 0 where
  pub whole : length entries ≡ length members
  pub few : length entries ≤ max_entries
  pub contained : All (λ e. IsContained e.target) entries
  pub apart : AllApart entries
  pub small : All (λ e. e.info.file_size ≤ max_entry_bytes) entries
  pub total : uncompressed entries ≤ max_total_bytes
  pub ratio : uncompressed entries ≤ max_ratio * compressed entries

unchecked-IsChecked : IsChecked unchecked
unfolding AllApart uncompressed compressed
unchecked-IsChecked = record {
  contained = tt;
  apart = tt;
  seen = tt;
  regular = tt;
  small = tt;
  summed = refl;
  packed = refl;
  within = omega arith;
}

-- An archive that passes the tests has, for each of its at most 512 members, an entry whose target
-- is strictly below the destination; no two targets are equal and no file is above another
-- target; no entry declares more than 16 MiB and all together at most 64 MiB, nor more than a
-- hundred times what the files take in the archive.
pub verified :
    (members : List ZipInfo) (entries : List Entry)
    → check_members members ≡ ok entries
    → IsVerified members entries
unfolding check_members
verified members entries e = elim (Result-cases (check_each unchecked members)) [
  | inr (err, c) ↦ ground (arith, c, e)
  | inl (s, c) ↦
      let (v, all) = check_each-IsChecked unchecked members unchecked-IsChecked c in
      let same : entries ≡ s.validated = ground (arith, c, e) in
      let summed = v.summed in
      let packed = v.packed in
      let within = v.within in
      let held : s.total_uncompressed ≤ max_ratio * s.total_compressed = ground (arith, c, e) in
      let room : length members ≤ max_entries = ground (arith, e) in
      rw same (record {
        whole = omega arith;
        few = omega arith;
        contained = v.contained;
        apart = v.apart;
        small = v.small;
        total = omega arith;
        ratio = omega arith;
      })
]
