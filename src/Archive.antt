-- ===== src/Archive.antt =====
-- The extraction of a plugin's package in runtime/plugin/artifact.py, on a POSIX host. A name is the
-- code points of a text; a target is its components below the destination. `Check` is the loop over
-- the members, `Extract` the loop that writes the files.
pub mod Check
pub mod Extract
pub mod Contained
pub mod Apart
pub mod Loop
pub mod Verified
pub mod Extracted
pub mod Complete
mod Tests
use langbot_plugin_sdk.Prelude.{
  ℕ, ◌/◌, ◌%◌, ◌^◌, Bool, true, false, ◌&&◌, ◌||◌, not, Option, none, some, List, [], ◌∷◌, map,
  if◌then◌else◌, ◌==◌, nat_eq, list_eq, option_eq, Eq,
}

abbrev pub Name : Type 0
Name = List ℕ

-- Components, the first one first.
abbrev pub Target : Type 0
Target = List Name

-- `x in xs`
abbrev pub member {ℓ} : {A : Type ℓ} ⦃e : Eq A⦄ → A → List A → Bool
member x [] = false
member x (y ∷ ys) = let rest = member x ys in if y == x then true else rest

abbrev pub any {ℓ} : {A : Type ℓ} → (A → Bool) → List A → Bool
any p [] = false
any p (x ∷ xs) = let rest = any p xs in if p x then true else rest

abbrev pub dot_dot : Name
dot_dot = 46 ∷ 46 ∷ []

-- `name.replace("\\", "/")`
unfoldable pub portable : Name → Name
portable name = map (λ c. if c == 92 then 47 else c) name

abbrev pub onto_first : ℕ → Target → Target
onto_first c [] = (c ∷ []) ∷ []
onto_first c (part ∷ parts) = (c ∷ part) ∷ parts

-- `name.split("/")`
unfoldable pub split_path : Name → Target
split_path [] = [] ∷ []
split_path (c ∷ name) =
    let rest = split_path name in if c == 47 then [] ∷ rest else onto_first c rest

abbrev pub first_of {ℓ} : {A : Type ℓ} → List A → Option A
first_of [] = none
first_of (x ∷ xs) = some x

abbrev pub last_of {ℓ} : {A : Type ℓ} → List A → Option A
last_of [] = none
last_of (x ∷ xs) = let rest = last_of xs in elim rest [ none ↦ some x | some y ↦ some y ]

abbrev pub pop {ℓ} : {A : Type ℓ} → List A → List A
pop [] = []
pop (x ∷ xs) = xs

-- The components that `normpath` has kept, the last one first, after one more.
unfoldable pub norm_step : Bool → Target → Name → Target
norm_step rooted kept part =
    if part == [] || part == 46 ∷ []
    then kept
    else if not (part == dot_dot) || (not rooted && kept == []) || first_of kept == some dot_dot
    then part ∷ kept
    else pop kept

unfoldable pub norm_parts : Bool → Target → Target → Target
unfolding norm_step
norm_parts rooted kept [] = kept
norm_parts rooted kept (part ∷ parts) = norm_parts rooted (norm_step rooted kept part) parts

abbrev pub reverse_onto {ℓ} : {A : Type ℓ} → List A → List A → List A
reverse_onto [] ys = ys
reverse_onto (x ∷ xs) ys = reverse_onto xs (x ∷ ys)

-- `normpath(name)` by its components: none for ".".
unfoldable pub normalized : Name → Target
unfolding norm_parts split_path
normalized name = reverse_onto (norm_parts (first_of name == some 47) [] (split_path name)) []

-- `first_component[1] == ":"`, which is of length 2 at least
abbrev pub has_drive : Target → Bool
has_drive [] = false
has_drive ([] ∷ parts) = false
has_drive ((c ∷ []) ∷ parts) = false
has_drive ((c ∷ d ∷ rest) ∷ parts) = d == 58

-- The tests of a member's path. A name that begins with a slash is refused by the first one, so
-- the others are on the components alone.
unfoldable pub is_unsafe : Name → Bool
unfolding normalized split_path
is_unsafe name =
    let parts = normalized name in
    first_of name == some 47
    || parts == []
    || first_of parts == some dot_dot
    || member dot_dot (split_path name)
    || has_drive parts

-- The proper parents of a target below the destination, in any order.
unfoldable pub parents : Target → List Target
parents [] = []
parents (part ∷ []) = []
parents (part ∷ next ∷ parts) =
    let rest = parents (next ∷ parts) in (part ∷ []) ∷ map (λ p. part ∷ p) rest

-- `path.startswith(target + "/")`
unfoldable pub is_below : Target → Target → Bool
is_below path [] = not (path == [])
is_below [] (part ∷ target) = false
is_below (first ∷ path) (part ∷ target) =
    let rest = is_below path target in if first == part then rest else false

-- `zipfile.ZipInfo`
pub record ZipInfo : Type 0 where
  pub filename : Name
  pub external_attr : ℕ
  pub file_size : ℕ
  pub compress_size : ℕ

-- The type bits of `(external_attr >> 16) & 0xFFFF`
unfoldable pub file_type : ℕ → ℕ
file_type external_attr = external_attr / 2 ^ 16 % 2 ^ 16 / 2 ^ 12

abbrev pub link_type : ℕ
link_type = 10

abbrev pub regular_type : ℕ
regular_type = 8

abbrev pub directory_type : ℕ
directory_type = 4
