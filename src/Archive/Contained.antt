-- ===== src/Archive/Contained.antt =====
-- A path that is not unsafe stays below the destination.
use langbot_plugin_sdk.Prelude.{
  ℕ, ◌≡◌, refl, inl, inr, Bool, false, ◌||◌, some, [], ◌∷◌, arith, All, Bool-cases, ◌==◌, nat_eq,
  list_eq, option_eq,
}
use langbot_plugin_sdk.Archive.{
  Name, Target, member, dot_dot, portable, onto_first, split_path, first_of, norm_step, norm_parts,
  reverse_onto, normalized, is_unsafe,
}

-- A component of a target: a name that is neither empty nor "." nor "..", without slash and NUL.
abbrev pub IsComponent : Name → Type 0
IsComponent part =
    ((part == []) ≡ false)
    × ((part == 46 ∷ []) ≡ false)
    × ((part == dot_dot) ≡ false)
    × (member 47 part ≡ false)
    × (member 0 part ≡ false)

-- A target that is a file or directory strictly below the destination.
unfoldable pub IsContained : Target → Type 0
IsContained target = ((target == []) ≡ false) × All IsComponent target

-- What a split leaves of a component: no slash, no NUL, and not "..".
abbrev IsPart : Name → Type 0
IsPart part = ((part == dot_dot) ≡ false) × (member 47 part ≡ false) × (member 0 part ≡ false)

abbrev IsFree : Name → Type 0
IsFree part = (member 47 part ≡ false) × (member 0 part ≡ false)

onto_first-IsFree :
    (c : ℕ) (parts : Target)
    → (c == 47) ≡ false
    → (c == 0) ≡ false
    → All IsFree parts
    → All IsFree (onto_first c parts)
onto_first-IsFree c [] h k a = ((ground (arith, h), ground (arith, k)), tt)
onto_first-IsFree c (part ∷ parts) h k a = ((ground (arith, h, a.0), ground (arith, k, a.0)), a.1)

split_path-IsFree : (name : Name) → member 0 name ≡ false → All IsFree (split_path name)
unfolding split_path
split_path-IsFree [] h = ((refl, refl), tt)
split_path-IsFree (c ∷ name) h =
    let ih = split_path-IsFree name (ground (arith, h)) in
    elim (Bool-cases (c == 47)) [
      | inl slash ↦ rw slash ((refl, refl), ih)
      | inr other ↦ rw other (onto_first-IsFree c (split_path name) other (ground (arith, h)) ih)
    ]

free_parts : (parts : Target) → All IsFree parts → member dot_dot parts ≡ false → All IsPart parts
free_parts [] a h = tt
free_parts (part ∷ parts) a h =
    ((ground (arith, h), a.0.0, a.0.1), free_parts parts a.1 (ground (arith, h)))

norm_parts-IsComponent :
    (rooted : Bool) (kept parts : Target)
    → All IsPart parts
    → All IsComponent kept
    → All IsComponent (norm_parts rooted kept parts)
unfolding norm_parts norm_step
norm_parts-IsComponent rooted kept [] a h = h
norm_parts-IsComponent rooted kept (part ∷ parts) a h =
    elim (Bool-cases (part == [] || part == 46 ∷ [])) [
      | inl skipped ↦ rw skipped (norm_parts-IsComponent rooted kept parts a.1 h)
      | inr kept_one ↦
          rw (kept_one, a.0.0)
            (norm_parts-IsComponent rooted (part ∷ kept) parts a.1
              ((ground (arith, kept_one), ground (arith, kept_one), a.0.0, a.0.1, a.0.2), h))
    ]

reverse_onto-All :
    (xs ys : Target)
    → All IsComponent xs
    → All IsComponent ys
    → All IsComponent (reverse_onto xs ys)
reverse_onto-All [] ys hx hy = hy
reverse_onto-All (x ∷ xs) ys hx hy = reverse_onto-All xs (x ∷ ys) hx.1 (hx.0, hy)

portable_free : (name : Name) → member 0 name ≡ false → member 0 (portable name) ≡ false
unfolding portable
portable_free [] h = refl
portable_free (c ∷ name) h = ground (arith, h, portable_free name)

pub normalized-IsContained :
    (name : Name)
    → member 0 name ≡ false
    → is_unsafe (portable name) ≡ false
    → IsContained (normalized (portable name))
unfolding is_unsafe normalized IsContained
normalized-IsContained name clean safe =
    let p = portable name in
    let free = split_path-IsFree p (portable_free name clean) in
    let parts = free_parts (split_path p) free (ground (arith, safe)) in
    (
      ground (arith, safe),
      reverse_onto-All _ []
          (norm_parts-IsComponent (first_of p == some 47) [] (split_path p) parts tt) tt,
    )
