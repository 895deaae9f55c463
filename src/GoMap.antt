-- ===== src/GoMap.antt =====
-- Go's `map[K]V` as an association list: `m[k]`, `m[k] = v`, `delete(m, k)`, `len(m)`, and the
-- keys that a `range` visits. Go fixes no order of the visit; what depends on it takes the order
-- as an argument.
use mathlib.Core.Logic.{∥∥₁_elim}
use mathlib.Core.List.{Perm, Permᴰ}
use dynamo_db.Prelude.{
  ◌∙◌, ◌≡◌, refl, Bool, true, false, not, ◌&&◌, ◌||◌, Option, none, some, List, [], ◌∷◌, map, arith,
  Key, ◌==◌, ==_iff, elem, IsDistinct, if◌then◌else◌,
}

abbrev pub GoMap {ℓ} : Type ℓ → Type ℓ → Type ℓ
GoMap K V = List (K × V)

-- The order of a `range`: every key, each once.
abbrev pub IsOrder {ℓ} : {A : Type ℓ} → (List A → List A) → Type ℓ
IsOrder order = (xs : List _) → Perm (order xs) xs

pub Bool-IsSet : IsSet Bool
Bool-IsSet = hlevel

module _ {ℓ} {K : Type ℓ} ⦃key : Key K⦄ where
  elem-Permᴰ : (k : K) {xs ys : List K} → Permᴰ xs ys → elem k xs ≡ elem k ys
  elem-Permᴰ k Permᴰ.nil = refl
  elem-Permᴰ k (Permᴰ.cons e p) = rw (e, elem-Permᴰ k p)
  elem-Permᴰ k (Permᴰ.swap {l} e e') = rw (e, e') (ground arith)
  elem-Permᴰ k (Permᴰ.trans p q) = elem-Permᴰ k p ∙ elem-Permᴰ k q

  pub elem-order :
      (order : List K → List K)
      → IsOrder order
      → (k : K) (xs : List K) → elem k (order xs) ≡ elem k xs
  elem-order order visits k xs = ∥∥₁_elim (visits xs) (Bool-IsSet _ _) (elem-Permᴰ k)

-- the `ok` of `v, ok := m[k]`
abbrev pub is_some {ℓ} : {V : Type ℓ} → Option V → Bool
is_some none = false
is_some (some v) = true

module _ {ℓ} {K V : Type ℓ} where
  -- the map that holds nothing
  abbrev pub empty : GoMap K V
  empty = []

  abbrev pub keys : GoMap K V → List K
  keys m = map (λ e. e.0) m

module _ {ℓ} {K V : Type ℓ} ⦃key : Key K⦄ where
  -- `v, ok := m[k]`
  unfoldable pub lookup : K → GoMap K V → Option V
  lookup k [] = none
  lookup k ((held, value) ∷ rest) = if held == k then some value else lookup k rest

  -- `m[k]`, with the zero value of the type where the key is missing
  unfoldable pub lookup_or : V → K → GoMap K V → V
  lookup_or zero_value k m = elim (lookup k m) [ none ↦ zero_value | some v ↦ v ]

  -- `m[k] = v`
  unfoldable pub insert : K → V → GoMap K V → GoMap K V
  insert k v [] = (k, v) ∷ []
  insert k v ((held, old) ∷ rest) =
      if held == k then (k, v) ∷ rest else (held, old) ∷ insert k v rest

  -- `delete(m, k)`
  unfoldable pub delete : K → GoMap K V → GoMap K V
  delete k [] = []
  delete k ((j, v) ∷ m) = let rest = delete k m in if j == k then rest else (j, v) ∷ rest

  pub lookup-insert :
      (k q : K) (new : V) (m : GoMap K V)
      → lookup q (insert k new m) ≡ (if k == q then some new else lookup q m)
  unfolding insert lookup
  lookup-insert k q new ((held, old) ∷ rest) =
      ground (arith, ==_iff held k, ==_iff held q, ==_iff k q, lookup-insert k q new rest)
  lookup-insert k q new [] = refl

  pub lookup-delete :
      (k j : K) (m : GoMap K V) → lookup j (delete k m) ≡ (if k == j then none else lookup j m)
  unfolding lookup delete
  lookup-delete k j [] = ground arith
  lookup-delete k j ((i, w) ∷ m) =
      ground (arith, ==_iff k j, ==_iff i k, ==_iff i j, lookup-delete k j m)

  pub lookup_or-insert :
      (zero_value : V) (k j : K) (v : V) (m : GoMap K V)
      → lookup_or zero_value j (insert k v m) ≡ (if k == j then v else lookup_or zero_value j m)
  unfolding lookup_or
  lookup_or-insert zero_value k j v m = ground (arith, lookup-insert k j v m)

  pub lookup_or-delete :
      (zero_value : V) (k j : K) (m : GoMap K V)
      → lookup_or zero_value j (delete k m)
        ≡ (if k == j then zero_value else lookup_or zero_value j m)
  unfolding lookup_or
  lookup_or-delete zero_value k j m = ground (arith, lookup-delete k j m)

  pub elem-keys : (k : K) (m : GoMap K V) → elem k (keys m) ≡ is_some (lookup k m)
  unfolding lookup
  elem-keys k [] = refl
  elem-keys k ((j, v) ∷ m) = ground (arith, elem-keys k m)

  elem-keys-insert :
      (k j : K) (v : V) (m : GoMap K V) → elem j (keys (insert k v m)) ≡ (k == j || elem j (keys m))
  elem-keys-insert k j v m =
      ground (arith, elem-keys j (insert k v m), elem-keys j m, lookup-insert k j v m)

  elem-keys-delete :
      (k j : K) (m : GoMap K V) → elem j (keys (delete k m)) ≡ (not (k == j) && elem j (keys m))
  elem-keys-delete k j m =
      ground (arith, elem-keys j (delete k m), elem-keys j m, lookup-delete k j m)

  pub insert-IsDistinct :
      (k : K) (v : V) (m : GoMap K V) → IsDistinct (keys m) → IsDistinct (keys (insert k v m))
  unfolding insert
  insert-IsDistinct k v [] d = (refl, tt)
  insert-IsDistinct k v ((j, w) ∷ m) d =
      ground (arith, ==_iff j k, ==_iff k j, elem-keys-insert k j v m, insert-IsDistinct k v m d.1)

  pub delete-IsDistinct :
      (k : K) (m : GoMap K V) → IsDistinct (keys m) → IsDistinct (keys (delete k m))
  unfolding delete
  delete-IsDistinct k [] d = tt
  delete-IsDistinct k ((j, w) ∷ m) d =
      ground (arith, elem-keys-delete k j m, delete-IsDistinct k m d.1)

  pub ruleset map_laws = (lookup-insert, lookup-delete)
