-- ===== src/LogBuffer/Query.antt =====
-- What `get_logs` of logbuffer.py returns.
use langbot_plugin_sdk.Prelude.{
  ℕ, ◌-◌, ◌≤◌, ◌≡◌, ◌⊎◌, inl, inr, Bool, true, false, List, [], ◌∷◌, ◌++◌, length, drop, take,
  take-append-drop, length-drop, arith, Bool-cases, String, some, ltb, ltb→lt, lt→ltb, All, ap,
  zero, suc, ◌==◌, string_eq,
}
use langbot_plugin_sdk.Prelude.Int.{ℤ, pos, leb_ℤ}
use langbot_plugin_sdk.Prelude.Deque.{last}
use langbot_plugin_sdk.LogBuffer.{Python, Buffer, Entry, filter, level_no, at_level, get_logs}

-- The last entries of `xs`, all of them or as many as `limit`.
pub record IsRecent {ℓ} {A : Type ℓ} (limit : ℕ) (xs recent : List A) : Type ℓ where
  pub older : List A
  pub joined : older ++ recent ≡ xs
  pub within : length recent ≤ limit
  pub full : (older ≡ []) ⊎ (length recent ≡ limit)

last-IsRecent : {A : Type 0} → (limit : ℕ) (xs : List A) → IsRecent limit xs (last limit xs)
last-IsRecent limit xs = record {
  older = take (length xs - limit) xs;
  joined = take-append-drop (length xs - limit) xs;
  within = omega (arith, length-drop (length xs - limit) xs);
  full = elim (Bool-cases (ltb limit (length xs))) [
    | inl more ↦ inr (omega (arith, length-drop (length xs - limit) xs, ltb→lt _ _ more))
    | inr all ↦
        let none_older : length xs - limit ≡ 0 = ground (arith, all) in
        inl (ap (λ n. take n xs) none_older)
  ];
}

filter-All : {A : Type 0} → (f : A → Bool) (xs : List A) → All (λ x. f x ≡ true) (filter f xs)
filter-All f [] = tt
filter-All f (x ∷ xs) = elim (Bool-cases (f x)) [
  | inl pass ↦ rw pass (pass, filter-All f xs)
  | inr fail ↦ rw fail (filter-All f xs)
]

drop-All : {A : Type 0} → (P : A → Type 0) (n : ℕ) (xs : List A) → All P xs → All P (drop n xs)
drop-All P zero xs h = h
drop-All P (suc n) [] h = h
drop-All P (suc n) (x ∷ xs) h = drop-All P n xs h.1

-- With a positive limit and the name of a level, the result is the last entries at that level or
-- above, in their order: as many as the limit, or all of them.
pub get_logs-IsRecent :
    (p : Python) (b : Buffer) (limit : ℕ) (level : String) (min_no : ℤ)
    → 1 ≤ limit
    → (level == "") ≡ false
    → p.level_number level ≡ some min_no
    → let enough = λ (e : Entry). leb_ℤ min_no (level_no p e.level) in
      let logs = get_logs p b (pos limit) (some level) in
      All (λ e. enough e ≡ true) logs × IsRecent limit (filter enough b.entries) logs
unfolding get_logs at_level
get_logs-IsRecent p b limit level min_no some_limit named number =
    rw (lt→ltb 0 limit some_limit, named, number)
      (drop-All _ _ _ (filter-All _ b.entries), last-IsRecent limit _)
