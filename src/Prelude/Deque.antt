-- ===== src/Prelude/Deque.antt =====
-- Python's `deque` with a `maxlen`, as the list of its entries, the oldest first.
use langbot_plugin_sdk.Prelude.{
  ℕ, suc, zero, ◌+◌, ◌-◌, ◌≤◌, ◌≡◌, refl, sym, ap, ◌∙◌, List, [], ◌∷◌, ◌++◌, length, drop,
  length-append, length-drop, arith,
}

-- The entries that a deque of `n` entries keeps: the last ones.
abbrev pub last {ℓ} : {A : Type ℓ} → ℕ → List A → List A
last n xs = drop (length xs - n) xs

pub drop-nil : {A : Type 0} → (k : ℕ) → ◌≡◌ {A = List A} (drop k []) []
drop-nil zero = refl
drop-nil (suc k) = refl

pub drop-append :
    {A : Type 0} → (k : ℕ) (xs ys : List A) → k ≤ length xs → drop k (xs ++ ys) ≡ drop k xs ++ ys
drop-append zero xs ys h = refl
drop-append (suc k) [] ys h = ground arith
drop-append (suc k) (x ∷ xs) ys h = drop-append k xs ys (omega (arith, h))

pub drop-drop : {A : Type 0} → (j k : ℕ) (xs : List A) → drop j (drop k xs) ≡ drop (k + j) xs
drop-drop j zero xs = ground arith
drop-drop zero (suc k) [] = grind arith
drop-drop (suc j) (suc k) [] = grind arith
drop-drop j (suc k) (x ∷ xs) = drop-drop j k xs ∙ ap (λ n. drop n (x ∷ xs)) (sym (suc-add k j))
  where
    suc-add : (m n : ℕ) → suc m + n ≡ suc (m + n)
    suc-add m n = omega arith

-- A deque that was cut before keeps the same last entries.
pub last-last-snoc :
    {A : Type 0}
    → (n : ℕ) (xs : List A) (x : A) → last n (last n xs ++ x ∷ []) ≡ last n (xs ++ x ∷ [])
last-last-snoc n xs x =
    let cut : ℕ = length xs - n in
    let snoc : drop cut (xs ++ x ∷ []) ≡ drop cut xs ++ x ∷ [] =
      drop-append cut xs (x ∷ []) (omega arith) in
    ap (last n) (sym snoc)
    ∙ drop-drop _ cut (xs ++ x ∷ [])
    ∙ ap (λ k. drop k (xs ++ x ∷ []))
        (omega (arith, length-drop cut (xs ++ x ∷ []), length-append xs (x ∷ [])))
