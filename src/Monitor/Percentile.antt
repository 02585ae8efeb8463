-- ===== src/Monitor/Percentile.antt =====
-- The percentile that the monitor of runtime/event_loop_monitor.py reports.
use langbot_plugin_sdk.Prelude.{
  ℕ, suc, zero, ◌+◌, ◌*◌, ◌≤◌, ◌<◌, ◌≡◌, refl, inl, inr, Bool, true, List, [], ◌∷◌, length, drop,
  count, All, leb, if◌then◌else◌, arith, Bool-cases,
}
use langbot_plugin_sdk.Monitor.{Monitor, insert, sorted, first_or, p95_index, snapshot}

count-insert :
    (p : ℕ → Bool) (x : ℕ) (ys : List ℕ)
    → count p (insert x ys) ≡ (if p x then 1 else 0) + count p ys
unfolding insert
count-insert p x [] = refl
count-insert p x (y ∷ ys) =
    let ih = count-insert p x ys in
    elim (Bool-cases (leb x y)) [ inl le ↦ rw le refl | inr gt ↦ rw gt (omega arith) ]

count-sorted : (p : ℕ → Bool) (xs : List ℕ) → count p (sorted xs) ≡ count p xs
unfolding sorted
count-sorted p [] = refl
count-sorted p (x ∷ xs) =
    let ih = count-sorted p xs in let e = count-insert p x (sorted xs) in omega arith

IsOrdered : List ℕ → Type 0
IsOrdered [] = Unit
IsOrdered (x ∷ xs) = All (λ y. x ≤ y) xs × IsOrdered xs

insert_below :
    (b x : ℕ) (ys : List ℕ) → b ≤ x → All (λ y. b ≤ y) ys → All (λ y. b ≤ y) (insert x ys)
unfolding insert
insert_below b x [] h a = (h, tt)
insert_below b x (y ∷ ys) h a = elim (Bool-cases (leb x y)) [
  | inl le ↦ rw le (h, a)
  | inr gt ↦ rw gt (a.0, insert_below b x ys h a.1)
]

weaken : (b x : ℕ) (ys : List ℕ) → b ≤ x → All (λ y. x ≤ y) ys → All (λ y. b ≤ y) ys
weaken b x [] h a = tt
weaken b x (y ∷ ys) h a = (let k = a.0 in omega arith, weaken b x ys h a.1)

insert-IsOrdered : (x : ℕ) (ys : List ℕ) → IsOrdered ys → IsOrdered (insert x ys)
unfolding insert IsOrdered
insert-IsOrdered x [] h = (tt, tt)
insert-IsOrdered x (y ∷ ys) h = elim (Bool-cases (leb x y)) [
  | inl le ↦ let small : x ≤ y = ground (arith, le) in rw le ((small, weaken x y ys small h.0), h)
  | inr gt ↦
      let big : y ≤ x = ground (arith, gt) in
      rw gt (insert_below y x ys big h.0, insert-IsOrdered x ys h.1)
]

sorted-IsOrdered : (xs : List ℕ) → IsOrdered (sorted xs)
unfolding sorted IsOrdered
sorted-IsOrdered [] = tt
sorted-IsOrdered (x ∷ xs) = insert-IsOrdered x (sorted xs) (sorted-IsOrdered xs)

below_nth : (b k : ℕ) (ys : List ℕ) → k < length ys → All (λ y. b ≤ y) ys → b ≤ first_or (drop k ys)
below_nth b k [] h a = ground arith
below_nth b zero (y ∷ ys) h a = a.0
below_nth b (suc k) (y ∷ ys) h a = below_nth b k ys (omega arith) a.1

-- Of an ordered list the element at `k` has at least `k + 1` elements up to it.
count_nth :
    (k : ℕ) (ys : List ℕ)
    → IsOrdered ys
    → k < length ys
    → suc k ≤ count (λ y. leb y (first_or (drop k ys))) ys
unfolding IsOrdered
count_nth k [] o h = ground arith
count_nth zero (y ∷ ys) o h = ground arith
count_nth (suc k) (y ∷ ys) o h =
    let ih = count_nth k ys o.1 (omega arith) in
    let low = below_nth y k ys (omega arith) o.0 in ground (arith, ih, low)

length-count : (xs : List ℕ) → count (λ x. true) xs ≡ length xs
length-count [] = refl
length-count (x ∷ xs) = omega (arith, length-count xs)

-- Of the lags that the monitor holds, if any, at least 95 percent are up to the percentile that it
-- reports.
pub percentile :
    (m : Monitor)
    → 0 < length m.recent_lag
    → let low = count (λ lag. leb lag (snapshot m).recent_p95_lag) m.recent_lag in
      95 * length m.recent_lag ≤ 100 * low
unfolding snapshot
percentile m some_lag =
    let ys = sorted m.recent_lag in
    let size = count-sorted (λ x. true) m.recent_lag in
    let all = length-count ys in
    let all' = length-count m.recent_lag in
    let k = p95_index (length ys) in
    let found = count_nth k ys (sorted-IsOrdered m.recent_lag) (omega arith) in
    let same = count-sorted (λ y. leb y (first_or (drop k ys))) m.recent_lag in omega arith
