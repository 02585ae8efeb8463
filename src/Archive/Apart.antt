-- ===== src/Archive/Apart.antt =====
-- No two entries of a checked archive are in each other's way.
use langbot_plugin_sdk.Prelude.{
  ◌≡◌, refl, inl, inr, Bool, true, false, List, [], ◌∷◌, ◌++◌, map, arith, All, Bool-cases, ◌==◌,
  nat_eq, list_eq, list_beq_iff,
}
use langbot_plugin_sdk.Archive.{Name, Target, member, any, parents, is_below}
use langbot_plugin_sdk.Archive.Check.{Entry}

-- Two entries have different targets, and a file has no entry below its target.
abbrev pub IsApart : Entry → Entry → Type 0
IsApart x y =
    ((x.target == y.target) ≡ false)
    × (x.is_directory ≡ false → is_below y.target x.target ≡ false)
    × (y.is_directory ≡ false → is_below x.target y.target ≡ false)

-- Every two entries of the list.
unfoldable pub AllApart : List Entry → Type 0
AllApart [] = Unit
AllApart (x ∷ xs) = All (IsApart x) xs × AllApart xs

pub AllApart-snoc :
    (xs : List Entry) (y : Entry)
    → AllApart xs
    → All (λ x. IsApart x y) xs
    → AllApart (xs ++ (y ∷ []))
unfolding AllApart
AllApart-snoc [] y h a = (tt, tt)
AllApart-snoc (x ∷ xs) y h a = (snoc xs h.0, AllApart-snoc xs y h.1 a.1)
  where
    snoc : (zs : List Entry) → All (IsApart x) zs → All (IsApart x) (zs ++ (y ∷ []))
    snoc [] b = (a.0, tt)
    snoc (z ∷ zs) b = (b.0, snoc zs b.1)

pub any-false :
    (p : Target → Bool) (x : Target) (xs : List Target)
    → any p xs ≡ false
    → member x xs ≡ true
    → p x ≡ false
any-false p x [] h k = cc
any-false p x (y ∷ xs) h k = elim (Bool-cases (y == x)) [
  | inl same ↦ ground (arith, h, list_beq_iff y x)
  | inr other ↦ any-false p x xs (ground (arith, h)) (ground (arith, k, other))
]

member-map :
    (part : Name) (x : Target) (xs : List Target)
    → member x xs ≡ true
    → member (part ∷ x) (map (λ p. part ∷ p) xs) ≡ true
member-map part x [] h = cc
member-map part x (y ∷ xs) h = elim (Bool-cases (y == x)) [
  | inl same ↦ ground (arith, same, list_beq_iff part part)
  | inr other ↦ ground (arith, h, other, list_beq_iff part part, member-map part x xs)
]

-- What a path is below is among its parents.
pub parents_lem :
    (path target : Target)
    → is_below path target ≡ true
    → (target == []) ≡ false
    → member target (parents path) ≡ true
unfolding parents is_below
parents_lem path [] h k = cc
parents_lem [] (part ∷ target) h k = cc
parents_lem (first ∷ []) (part ∷ []) h k = ground (arith, h)
parents_lem (first ∷ []) (part ∷ next ∷ target) h k = ground (arith, h)
parents_lem (first ∷ second ∷ path) (part ∷ []) h k = ground (arith, h, list_beq_iff first part)
parents_lem (first ∷ second ∷ path) (part ∷ next ∷ target) h k =
    let rest : is_below (second ∷ path) (next ∷ target) ≡ true = ground (arith, h) in
    let same : first ≡ part = (list_beq_iff first part).0 (ground (arith, h)) in
    let ih = parents_lem (second ∷ path) (next ∷ target) rest refl in
    let under = member-map first (next ∷ target) (parents (second ∷ path)) ih in
    ground (arith, same, under)

-- An entry against one that was checked before it.
pub IsApart-member :
    (x y : Entry) (seen regular : List Target)
    → (x.target == []) ≡ false
    → member x.target seen ≡ true
    → (x.is_directory ≡ false → member x.target regular ≡ true)
    → member y.target seen ≡ false
    → any (λ parent. member parent regular) (parents y.target) ≡ false
    → (y.is_directory ≡ false → any (λ path. is_below path y.target) seen ≡ false)
    → IsApart x y
IsApart-member x y seen regular named known file new clear over = (
  elim (Bool-cases (x.target == y.target)) [
    | inl same ↦ ground (arith, known, new, list_beq_iff x.target y.target)
    | inr other ↦ other
  ],
  λ f. elim (Bool-cases (is_below y.target x.target)) [
    | inl below ↦
        let none_there = any-false _ x.target _ clear (parents_lem y.target x.target below named) in
        ground (arith, file f, none_there)
    | inr beside ↦ beside
  ],
  λ f. any-false _ x.target seen (over f) known,
)
