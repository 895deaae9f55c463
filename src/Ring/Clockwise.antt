-- ===== src/Ring/Clockwise.antt =====
-- The specification of the ring's lookup: the next hash clockwise.
use dynamo_db.Prelude.{
  ℕ, suc, ◌≤◌, ◌<◌, ◌≡◌, refl, ap, ◌⊎◌, inl, inr, true, some, List, [], ◌∷◌, arith, ltb, ltb→lt,
  ==_refl, eqb_ℕ, length, get_elem?, nat_key, elem, Bool-cases, if◌then◌else◌,
}
use dynamo_db.GoSort.{nat_order}
use dynamo_db.GoSort.Sorted.{IsSorted, IsAtMost}
use dynamo_db.GoSort.Search.{count_below, count_below_of_IsAtMost}

-- `x` is the least of the hashes at or after `h`.
abbrev pub IsNext : List ℕ → ℕ → ℕ → Type 0
IsNext xs h x = (h ≤ x) × ((y : ℕ) → elem y xs ≡ true → h ≤ y → x ≤ y)

-- All hashes are before `h`, and `x` is the least of them.
abbrev pub IsWrapped : List ℕ → ℕ → ℕ → Type 0
IsWrapped xs h x = (y : ℕ) → elem y xs ≡ true → (y < h) × (x ≤ y)

pub record IsClockwise (xs : List ℕ) (h : ℕ) (x : ℕ) : Type 0 where
  pub on_ring : elem x xs ≡ true
  pub nearest : IsNext xs h x ⊎ IsWrapped xs h x

-- There is at most one such hash.
pub IsClockwise-unique : (xs : List ℕ) (h x y : ℕ) → IsClockwise xs h x → IsClockwise xs h y → x ≡ y
IsClockwise-unique xs h x y c d = both c.nearest d.nearest
  where
    both : IsNext xs h x ⊎ IsWrapped xs h x → IsNext xs h y ⊎ IsWrapped xs h y → x ≡ y
    both (inl p) (inl q) = omega (arith, p.1 y d.on_ring q.0, q.1 x c.on_ring p.0)
    both (inl p) (inr q) = omega (arith, q x c.on_ring)
    both (inr p) (inl q) = omega (arith, p y d.on_ring)
    both (inr p) (inr q) = omega (arith, p y d.on_ring, q x c.on_ring)

-- It depends on the hashes only, and stays when hashes other than it leave.
pub IsClockwise-subset :
    (xs ys : List ℕ) (h x : ℕ)
    → ((y : ℕ) → elem y ys ≡ true → elem y xs ≡ true)
    → elem x ys ≡ true
    → IsClockwise xs h x
    → IsClockwise ys h x
IsClockwise-subset xs ys h x sub here c = record { on_ring = here; nearest = go c.nearest }
  where
    go : IsNext xs h x ⊎ IsWrapped xs h x → IsNext ys h x ⊎ IsWrapped ys h x
    go (inl p) = inl (p.0, λ y e. p.1 y (sub y e))
    go (inr p) = inr (λ y e. p y (sub y e))

IsAtMost-elem : (x y : ℕ) (xs : List ℕ) → IsAtMost x xs → elem y xs ≡ true → x ≤ y
IsAtMost-elem x y [] a e = cc
IsAtMost-elem x y (z ∷ zs) a e = ground (arith, IsAtMost-elem x y zs)

-- Where the count of the smaller hashes points to.
abbrev PointsTo : List ℕ → ℕ → Type 0
PointsTo xs h =
    ((x : ℕ) × (get_elem? xs (count_below h xs) ≡ some x)
      × (elem x xs ≡ true)
      × IsNext xs h x
      × (count_below h xs < length xs))
    ⊎ ((count_below h xs ≡ length xs) × ((y : ℕ) → elem y xs ≡ true → y < h))

count_below-PointsTo : (h : ℕ) (xs : List ℕ) → IsSorted xs → PointsTo xs h
count_below-PointsTo h [] s = inr (refl, λ y e. cc)
count_below-PointsTo h (x ∷ xs) s = elim (Bool-cases (ltb x h)) [
  | inl less ↦ rw less (skip (ltb→lt x h less) (count_below-PointsTo h xs s.1))
  | inr more ↦
      rw (more, count_below_of_IsAtMost h x xs (ground arith) s.0)
        (inl (x, refl, ground (arith, ==_refl x), (ground arith, λ y e _. least y e), omega arith))
]
  where
    least : (y : ℕ) → elem y (x ∷ xs) ≡ true → x ≤ y
    least y e = ground (arith, IsAtMost-elem x y xs)

    skip :
        x < h
        → PointsTo xs h
        → ((z : ℕ) × (get_elem? xs (count_below h xs) ≡ some z)
            × (elem z (x ∷ xs) ≡ true)
            × IsNext (x ∷ xs) h z
            × (suc (count_below h xs) < suc (length xs)))
          ⊎ ((suc (count_below h xs) ≡ suc (length xs))
              × ((y : ℕ) → elem y (x ∷ xs) ≡ true → y < h))
    skip lt (inl (z, at, on, next, inside)) =
        inl (z, at, ground arith, (next.0, λ y e le. ground (arith, next.1 y)), omega arith)
    skip lt (inr (full, all)) = inr (ap suc full, λ y e. ground (arith, all y))

-- The index that wraps past the end leads clockwise.
pub IsClockwise-index :
    (h z : ℕ) (zs : List ℕ)
    → IsSorted (z ∷ zs)
    → (x : ℕ) × (get_elem?
          (z ∷ zs)
          (if eqb_ℕ (count_below h (z ∷ zs)) (length (z ∷ zs)) then 0 else count_below h (z ∷ zs))
        ≡ some x)
      × IsClockwise (z ∷ zs) h x
IsClockwise-index h z zs s = pick (count_below-PointsTo h (z ∷ zs) s)
  where
    pick :
        PointsTo (z ∷ zs) h
        → (x : ℕ) × (get_elem? (z ∷ zs) (
              if eqb_ℕ (count_below h (z ∷ zs)) (length (z ∷ zs))
              then 0
              else count_below h (z ∷ zs))
            ≡ some x)
          × IsClockwise (z ∷ zs) h x
    pick (inl (x, at, on, next, inside)) =
        (x, ground arith, record { on_ring = on; nearest = inl next })
    pick (inr (full, all)) = (
      z,
      ground arith,
      record {
        on_ring = ground (arith, ==_refl z);
        nearest = inr (λ y e. (all y e, ground (arith, IsAtMost-elem z y zs)));
      },
    )
