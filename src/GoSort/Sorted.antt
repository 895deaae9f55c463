-- ===== src/GoSort/Sorted.antt =====
-- sort.Ints: the order and the elements of what it leaves.
use dynamo_db.Prelude.{◌≡◌, refl, ◌∙◌, true, ◌||◌, List, [], ◌∷◌, arith, Key, ◌==◌, elem}
use mathlib.Core.Logic.{∥∥₁_elim}
use mathlib.Core.List
use mathlib.Core.List.{Perm, Permᴰ}
use dynamo_db.GoSort.{Order, place, sort}

module _ {ℓ} {A : Type ℓ} ⦃order : Order A⦄ where
  -- `x` is at most each element.
  abbrev pub IsAtMost : A → List A → Type 0
  IsAtMost x [] = Unit
  IsAtMost x (y ∷ ys) = (order.le x y ≡ true) × IsAtMost x ys

  abbrev pub IsSorted : List A → Type 0
  IsSorted [] = Unit
  IsSorted (x ∷ xs) = IsAtMost x xs × IsSorted xs

  IsAtMost-trans : (x y : A) (ys : List A) → order.le x y ≡ true → IsAtMost y ys → IsAtMost x ys
  IsAtMost-trans x y [] h a = tt
  IsAtMost-trans x y (z ∷ zs) h a = (order.trans x y z h a.0, IsAtMost-trans x y zs h a.1)

  place-IsAtMost :
      (x y : A) (ys : List A) → order.le y x ≡ true → IsAtMost y ys → IsAtMost y (place x ys)
  unfolding place
  place-IsAtMost x y [] h a = (h, tt)
  place-IsAtMost x y (z ∷ zs) h a = ground (arith, place-IsAtMost x y zs h a.1)

  place-IsSorted : (x : A) (xs : List A) → IsSorted xs → IsSorted (place x xs)
  unfolding place
  place-IsSorted x [] s = (tt, tt)
  place-IsSorted x (y ∷ ys) s = ground (
    arith,
    IsAtMost-trans x y ys,
    order.total x y,
    place-IsAtMost x y ys,
    place-IsSorted x ys s.1,
  )

  pub sort-IsSorted : (xs : List A) → IsSorted (sort xs)
  unfolding sort
  sort-IsSorted [] = tt
  sort-IsSorted (x ∷ xs) = place-IsSorted x (sort xs) (sort-IsSorted xs)

  place_comm : (x y : A) (xs : List A) → place x (place y xs) ≡ place y (place x xs)
  unfolding place
  place_comm x y [] = ground (arith, order.total x y, order.antisymm x y)
  place_comm x y (z ∷ zs) = ground (
    arith,
    order.total x y,
    order.antisymm x y,
    order.trans x y z,
    order.trans y x z,
    place_comm x y zs,
  )

module _ {ℓ} {A : Type ℓ} ⦃key : Key A⦄ ⦃order : Order A⦄ where
  elem-place : (a x : A) (xs : List A) → elem a (place x xs) ≡ (x == a || elem a xs)
  unfolding place
  elem-place a x [] = refl
  elem-place a x (y ∷ ys) = ground (arith, elem-place a x ys)

  pub elem-sort : (a : A) (xs : List A) → elem a (sort xs) ≡ elem a xs
  unfolding sort
  elem-sort a [] = refl
  elem-sort a (x ∷ xs) = ground (arith, elem-place a x (sort xs), elem-sort a xs)

module _ {ℓ} {A : Type ℓ} ⦃order : Order A⦄ where
  sort-Permᴰ : {xs ys : List A} → Permᴰ xs ys → sort xs ≡ sort ys
  unfolding sort
  sort-Permᴰ Permᴰ.nil = refl
  sort-Permᴰ (Permᴰ.cons e p) = rw (e, sort-Permᴰ p)
  sort-Permᴰ (Permᴰ.swap {b} {a'} {l = l} e e') = rw (e, ← e') (place_comm _ _ (sort l))
  sort-Permᴰ (Permᴰ.trans p q) = sort-Permᴰ p ∙ sort-Permᴰ q

  -- The result of a sort does not depend on the order in which the elements came.
  pub sort-Perm : IsSet A → {xs ys : List A} → Perm xs ys → sort xs ≡ sort ys
  sort-Perm is_set p = ∥∥₁_elim p (List.is_set is_set _ _) sort-Permᴰ
