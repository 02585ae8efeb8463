-- ===== src/Archive/Loop.antt =====
-- The state of the loop over the members of an archive.
use langbot_plugin_sdk.Prelude.{
  ℕ, suc, ◌+◌, ◌≤◌, ◌≡◌, inl, inr, true, false, List, [], ◌∷◌, ◌++◌, arith, All, All-append,
  All-map, length, length-append, Bool-cases, Result-cases, if◌then◌else◌, ok, nat_eq, list_eq,
  option_eq, list_beq_iff,
}
use langbot_plugin_sdk.Archive.{Target, member, any, parents, is_below, ZipInfo}
use langbot_plugin_sdk.Archive.Check.{
  max_entry_bytes, max_total_bytes, Entry, Checked, check_sizes, check_entry, entry_of,
  check_member, check_each,
}
use langbot_plugin_sdk.Archive.Contained.{IsContained, normalized-IsContained}
use langbot_plugin_sdk.Archive.Apart.{IsApart, AllApart, AllApart-snoc, IsApart-member}

unfoldable pub uncompressed : List Entry → ℕ
uncompressed [] = 0
uncompressed (e ∷ es) = e.info.file_size + uncompressed es

unfoldable pub compressed : List Entry → ℕ
compressed [] = 0
compressed (e ∷ es) = (if e.is_directory then 0 else e.info.compress_size) + compressed es

uncompressed-snoc :
    (es : List Entry) (e : Entry)
    → uncompressed (es ++ (e ∷ [])) ≡ uncompressed es + e.info.file_size
unfolding uncompressed
uncompressed-snoc [] e = omega arith
uncompressed-snoc (x ∷ es) e = omega (arith, uncompressed-snoc es e)

compressed-snoc :
    (es : List Entry) (e : Entry)
    → compressed (es ++ (e ∷ []))
      ≡ compressed es + (if e.is_directory then 0 else e.info.compress_size)
unfolding compressed
compressed-snoc [] e = omega arith
compressed-snoc (x ∷ es) e = omega (arith, compressed-snoc es e)

-- The state of the loop over the members.
pub record IsChecked (s : Checked) : Type 0 where
  pub contained : All (λ e. IsContained e.target) s.validated
  pub apart : AllApart s.validated
  pub seen : All (λ e. member e.target s.seen_paths ≡ true) s.validated
  pub regular :
      All (λ e. e.is_directory ≡ false → member e.target s.regular_paths ≡ true) s.validated
  pub small : All (λ e. e.info.file_size ≤ max_entry_bytes) s.validated
  pub summed : s.total_uncompressed ≡ uncompressed s.validated
  pub packed : s.total_compressed ≡ compressed s.validated
  pub within : s.total_uncompressed ≤ max_total_bytes

-- What a round that does not raise has tested, and what it returns.
data IsAdded (s : Checked) (info : ZipInfo) (s' : Checked) : Type 0 where
  directory :
      (entry_of info).is_directory ≡ true
      → info.file_size ≡ 0
      → s' ≡ record s {
        validated = s.validated ++ (entry_of info ∷ []);
        seen_paths = (entry_of info).target ∷ s.seen_paths;
      }
      → IsAdded s info s'
  file :
      (entry_of info).is_directory ≡ false
      → any (λ path. is_below path (entry_of info).target) s.seen_paths ≡ false
      → info.file_size ≤ max_entry_bytes
      → s.total_uncompressed + info.file_size ≤ max_total_bytes
      → s' ≡ record {
        validated = s.validated ++ (entry_of info ∷ []);
        seen_paths = (entry_of info).target ∷ s.seen_paths;
        regular_paths = (entry_of info).target ∷ s.regular_paths;
        total_compressed = s.total_compressed + info.compress_size;
        total_uncompressed = s.total_uncompressed + info.file_size;
      }
      → IsAdded s info s'

sizes_checked :
    (s : Checked) (info : ZipInfo) {u : Unit {0}}
    → check_sizes s info ≡ ok u
    → (info.file_size ≤ max_entry_bytes) × (s.total_uncompressed + info.file_size ≤ max_total_bytes)
unfolding check_sizes
sizes_checked s info e = (ground (arith, e), ground (arith, e))

entry_checked :
    (s : Checked) (info : ZipInfo) {u : Unit {0}}
    → check_entry s (entry_of info) ≡ ok u
    → IsContained (entry_of info).target
      × (member (entry_of info).target s.seen_paths ≡ false)
      × (any (λ parent. member parent s.regular_paths) (parents (entry_of info).target) ≡ false)
unfolding check_entry
entry_checked s info e = (
  normalized-IsContained info.filename (ground (arith, e)) (ground (arith, e)),
  ground (arith, e),
  ground (arith, e),
)

member-IsAdded :
    (s : Checked) (info : ZipInfo) {s' : Checked} {u : Unit {0}}
    → check_entry s (entry_of info) ≡ ok u
    → check_member s info ≡ ok s'
    → IsAdded s info s'
unfolding check_member
member-IsAdded s info {s'} c e = elim (Bool-cases (entry_of info).is_directory) [
  | inl is_dir ↦ directory is_dir (ground (arith, c, e, is_dir)) (ground (arith, c, e, is_dir))
  | inr is_file ↦ elim (Result-cases (check_sizes s info)) [
    | inr (err, t) ↦ ground (arith, c, e, is_file, t)
    | inl (u, t) ↦
        let (small, within) = sizes_checked s info t in
        file is_file (ground (arith, c, e, is_file, t)) small within
          (ground (arith, c, e, is_file, t))
  ]
]

IsApart-from :
    (xs : List Entry) (y : Entry) (seen regular : List Target)
    → All (λ x. IsContained x.target) xs
    → All (λ x. member x.target seen ≡ true) xs
    → All (λ x. x.is_directory ≡ false → member x.target regular ≡ true) xs
    → member y.target seen ≡ false
    → any (λ parent. member parent regular) (parents y.target) ≡ false
    → (y.is_directory ≡ false → any (λ path. is_below path y.target) seen ≡ false)
    → All (λ x. IsApart x y) xs
unfolding IsContained
IsApart-from [] y seen regular c k r new clear over = tt
IsApart-from (x ∷ xs) y seen regular c k r new clear over = (
  IsApart-member x y seen regular c.0.0 k.0 r.0 new clear over,
  IsApart-from xs y seen regular c.1 k.1 r.1 new clear over,
)

member_later : (x y : Target) (xs : List Target) → member x xs ≡ true → member x (y ∷ xs) ≡ true
member_later x y xs h = ground (arith, h)

member_first : (x : Target) (xs : List Target) → member x (x ∷ xs) ≡ true
member_first x xs = ground (arith, list_beq_iff x x)

module _ (s : Checked) (info : ZipInfo) (v : IsChecked s) where
  abbrev y : Entry
  y = entry_of info

  add_directory-IsChecked :
      IsContained (entry_of info).target
      → member (entry_of info).target s.seen_paths ≡ false
      → any (λ parent. member parent s.regular_paths) (parents (entry_of info).target) ≡ false
      → (entry_of info).is_directory ≡ true
      → info.file_size ≡ 0
      → IsChecked (record s {
        validated = s.validated ++ (entry_of info ∷ []);
        seen_paths = (entry_of info).target ∷ s.seen_paths;
      })
  add_directory-IsChecked inside new clear is_dir empty = record {
    contained = All-append _ s.validated _ v.contained (inside, tt);
    apart = AllApart-snoc s.validated y v.apart (
        IsApart-from s.validated y s.seen_paths s.regular_paths v.contained v.seen v.regular new
          clear (λ f. ground (arith, f, is_dir)));
    seen =
        All-append _ s.validated _
          (All-map (λ x. member_later x.target y.target s.seen_paths) s.validated v.seen)
          (member_first y.target s.seen_paths, tt);
    regular = All-append _ s.validated _ v.regular ((λ f. ground (arith, f, is_dir)), tt);
    small = All-append _ s.validated _ v.small (ground (arith, empty), tt);
    summed = let e = v.summed in let f = uncompressed-snoc s.validated y in omega arith;
    packed = ground (arith, v.packed, compressed-snoc s.validated y, is_dir);
    within = v.within;
  }

  add_file-IsChecked :
      IsContained (entry_of info).target
      → member (entry_of info).target s.seen_paths ≡ false
      → any (λ parent. member parent s.regular_paths) (parents (entry_of info).target) ≡ false
      → (entry_of info).is_directory ≡ false
      → any (λ path. is_below path (entry_of info).target) s.seen_paths ≡ false
      → info.file_size ≤ max_entry_bytes
      → s.total_uncompressed + info.file_size ≤ max_total_bytes
      → IsChecked (record {
        validated = s.validated ++ (entry_of info ∷ []);
        seen_paths = (entry_of info).target ∷ s.seen_paths;
        regular_paths = (entry_of info).target ∷ s.regular_paths;
        total_compressed = s.total_compressed + info.compress_size;
        total_uncompressed = s.total_uncompressed + info.file_size;
      })
  add_file-IsChecked inside new clear is_file over small within = record {
    contained = All-append _ s.validated _ v.contained (inside, tt);
    apart = AllApart-snoc s.validated y v.apart (
        IsApart-from s.validated y s.seen_paths s.regular_paths v.contained v.seen v.regular new
          clear (λ f. over));
    seen =
        All-append _ s.validated _
          (All-map (λ x. member_later x.target y.target s.seen_paths) s.validated v.seen)
          (member_first y.target s.seen_paths, tt);
    regular =
        All-append _ s.validated _
          (All-map (λ x h f. member_later x.target y.target s.regular_paths (h f)) s.validated
            v.regular)
          ((λ f. member_first y.target s.regular_paths), tt);
    small = All-append _ s.validated _ v.small (small, tt);
    summed = let e = v.summed in let f = uncompressed-snoc s.validated y in omega arith;
    packed = ground (arith, v.packed, compressed-snoc s.validated y, is_file);
    within = within;
  }

-- A round that does not raise keeps the state of the loop.
check_member-IsChecked :
    (s : Checked) (info : ZipInfo) {s' : Checked}
    → IsChecked s
    → check_member s info ≡ ok s'
    → IsChecked s' × (length s'.validated ≡ suc (length s.validated))
unfolding check_member
check_member-IsChecked s info {s'} v e = elim (Result-cases (check_entry s (entry_of info))) [
  | inr (err, c) ↦ ground (arith, c, e)
  | inl (u, c) ↦
      let (inside, new, clear) = entry_checked s info c in
      let longer = length-append s.validated (entry_of info ∷ []) in
      elim (member-IsAdded s info c e) [
        | directory is_dir empty eq ↦
            rw eq (add_directory-IsChecked s info v inside new clear is_dir empty, omega arith)
        | file is_file over small within eq ↦
            rw eq
              (add_file-IsChecked s info v inside new clear is_file over small within, omega arith)
      ]
]

pub check_each-IsChecked :
    (s : Checked) (members : List ZipInfo) {s' : Checked}
    → IsChecked s
    → check_each s members ≡ ok s'
    → IsChecked s' × (length s'.validated ≡ length s.validated + length members)
unfolding check_each
check_each-IsChecked s [] {s'} v e =
    let same : s ≡ s' = ground (arith, e) in rw⁻¹ same (v, omega arith)
check_each-IsChecked s (info ∷ members) v e = elim (Result-cases (check_member s info)) [
  | inr (err, c) ↦ ground (arith, c, e)
  | inl (next, c) ↦
      let (w, longer) = check_member-IsChecked s info v c in
      let (w', all) = check_each-IsChecked next members w (rw c at e) in (w', omega arith)
]
