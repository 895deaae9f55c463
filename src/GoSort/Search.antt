-- ===== src/GoSort/Search.antt =====
-- sort.Search: where it ends on a boundary of its test and on a sorted list.
use dynamo_db.Prelude.{
  ℕ, zero, suc, ◌+◌, ◌-◌, ◌/◌, ◌≤◌, ◌<◌, ◌≡◌, refl, ◌⊎◌, inl, inr, Bool, true, false, List, [], ◌∷◌,
  arith, ltb, leb, length, get_or, if◌then◌else◌, Bool-cases,
}
use dynamo_db.GoSort.{nat_order, search_loop, search}
use dynamo_db.GoSort.Sorted.{IsSorted, IsAtMost}

-- The test fails just below `r` and holds at `r`, except at the ends of the range.
pub record IsBoundary (f : ℕ → Bool) (n : ℕ) (r : ℕ) : Type 0 where
  pub in_range : r ≤ n
  pub fails_below : (r ≡ 0) ⊎ (f (r - 1) ≡ false)
  pub holds_at : (r ≡ n) ⊎ (f r ≡ true)

search_loop-IsBoundary :
    (fuel : ℕ) (f : ℕ → Bool) (n i j : ℕ)
    → j ≤ i + fuel
    → i ≤ j
    → j ≤ n
    → (i ≡ 0) ⊎ (f (i - 1) ≡ false)
    → (j ≡ n) ⊎ (f j ≡ true)
    → IsBoundary f n (search_loop fuel f i j)
unfolding search_loop
search_loop-IsBoundary zero f n i j enough le top below at =
    let met : j ≡ i = omega arith in
    record { in_range = omega arith; fails_below = below; holds_at = rw met at at }
search_loop-IsBoundary (suc fuel) f n i j enough le top below at = elim (Bool-cases (ltb i j)) [
  | inl more ↦ rw more (elim (Bool-cases (f ((i + j) / 2))) [
    | inl holds ↦ rw holds (
        search_loop-IsBoundary fuel f n i ((i + j) / 2) (ground arith) (ground arith) (ground arith)
          below (inr holds))
    | inr fails ↦ rw fails (
        search_loop-IsBoundary fuel f n ((i + j) / 2 + 1) j (ground arith) (ground arith) top
          (inr (ground arith)) at)
  ])
  | inr done ↦ rw done (
      let met : j ≡ i = ground arith in
      record { in_range = omega arith; fails_below = below; holds_at = rw met at at })
]

pub search-IsBoundary : (n : ℕ) (f : ℕ → Bool) → IsBoundary f n (search n f)
unfolding search
search-IsBoundary n f =
    search_loop-IsBoundary n f n 0 n (omega arith) (omega arith) (omega arith) (inl refl) (inl refl)

-- The elements below `h`, counted: in a sorted list, the index of the first that is not.
abbrev pub count_below : ℕ → List ℕ → ℕ
count_below h [] = 0
count_below h (x ∷ xs) = if ltb x h then suc (count_below h xs) else count_below h xs

pub count_below_of_IsAtMost : (h x : ℕ) (xs : List ℕ) → h ≤ x → IsAtMost x xs → count_below h xs ≡ 0
count_below_of_IsAtMost h x [] le a = refl
count_below_of_IsAtMost h x (y ∷ ys) le a = ground (arith, count_below_of_IsAtMost h x ys le a.1)

count_below-le :
    (h r : ℕ) (xs : List ℕ)
    → IsSorted xs
    → (r ≡ length xs) ⊎ (leb h (get_or xs r 0) ≡ true)
    → count_below h xs ≤ r
count_below-le h r [] s at = omega arith
count_below-le h zero (x ∷ xs) s at = ground (arith, count_below_of_IsAtMost h x xs)
count_below-le h (suc r) (x ∷ xs) s at = ground (arith, count_below-le h r xs s.1)

get_or-IsAtMost :
    (x k : ℕ) (xs : List ℕ) → IsAtMost x xs → k < length xs → leb x (get_or xs k 0) ≡ true
get_or-IsAtMost x k [] a lt = absurd (omega arith)
get_or-IsAtMost x zero (y ∷ ys) a lt = a.0
get_or-IsAtMost x (suc k) (y ∷ ys) a lt = get_or-IsAtMost x k ys a.1 (omega arith)

lt-count_below :
    (h k : ℕ) (xs : List ℕ)
    → IsSorted xs
    → k < length xs
    → leb h (get_or xs k 0) ≡ false
    → k < count_below h xs
lt-count_below h k [] s lt fails = absurd (omega arith)
lt-count_below h zero (x ∷ xs) s lt fails = ground arith
lt-count_below h (suc k) (x ∷ xs) s lt fails =
    ground (arith, get_or-IsAtMost x k xs, lt-count_below h k xs s.1)

-- On a sorted list the binary search for the first element that is at least `h` returns the
-- number of the elements below `h`.
pub search-eq-count_below :
    (h : ℕ) (xs : List ℕ)
    → IsSorted xs
    → search (length xs) (λ i. leb h (get_or xs i 0)) ≡ count_below h xs
search-eq-count_below h xs s =
    let b = search-IsBoundary (length xs) (λ i. leb h (get_or xs i 0)) in
    ground (
      arith,
      b.in_range,
      b.fails_below,
      b.holds_at,
      count_below-le h (search (length xs) (λ i. leb h (get_or xs i 0))) xs s,
      lt-count_below h (search (length xs) (λ i. leb h (get_or xs i 0)) - 1) xs s,
    )
