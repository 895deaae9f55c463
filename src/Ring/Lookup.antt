-- ===== src/Ring/Lookup.antt =====
-- partition/consistent_hash.go: GetNode against the next hash clockwise.
use dynamo_db.Prelude.{
  ℕ, ◌≡◌, refl, sym, ◌∙◌, ap, ◌⊎◌, inl, inr, String, true, false, none, some, List, [], ◌∷◌, arith,
  eqb_ℕ, length, get_elem?, ℤ, negsuc, nat_key, int_key, elem, ==_refl, Option-cases,
}
use dynamo_db.GoMap.{GoMap, lookup, lookup_or}
use dynamo_db.GoSort.{nat_order}
use dynamo_db.GoSort.Sorted.{IsSorted}
use dynamo_db.GoSort.Search.{search-eq-count_below}
use dynamo_db.Ring.{ConsistentHash, start_index, node_at, hash_key, get_node}
use dynamo_db.Ring.Invariant.{IsWellFormed}
use dynamo_db.Ring.Clockwise.{
  IsClockwise, IsClockwise-unique, IsClockwise-subset, IsClockwise-index,
}

pub start_index-IsClockwise :
    (xs : List ℕ) (h x : ℕ)
    → IsSorted xs
    → elem x xs ≡ true
    → (y : ℕ) × (get_elem? xs (start_index xs h) ≡ some y) × IsClockwise xs h y
start_index-IsClockwise [] h x s on = cc
start_index-IsClockwise (z ∷ zs) h x s on =
    unfold start_index in rw (search-eq-count_below h (z ∷ zs) s) (IsClockwise-index h z zs s)

pub ring-cases :
    (ring : GoMap ℕ ℤ)
    → ((eqb_ℕ (length ring) 0 ≡ true) × ((h : ℕ) → lookup h ring ≡ none))
      ⊎ ((h : ℕ) × (n : ℤ) × (eqb_ℕ (length ring) 0 ≡ false) × (lookup h ring ≡ some n))
unfolding lookup
ring-cases [] = inl (refl, λ h. refl)
ring-cases ((h, n) ∷ ring) = inr (h, n, ground arith, ground (arith, ==_refl h))

pub node_at-eq-some :
    (ch : ConsistentHash) (i x : ℕ) (n : ℤ)
    → get_elem? ch.sorted_hashes i ≡ some x
    → lookup x ch.ring ≡ some n
    → node_at ch i ≡ some n
unfolding node_at lookup_or
node_at-eq-some ch i x n at owner = ground arith

module _ (md5 : String → List ℕ) where
  -- The key's owner `n`, and the place `x` on the ring where it was found.
  pub record IsOwnerAt (ch : ConsistentHash) (key : String) (x : ℕ) (n : ℤ) : Type 0 where
    pub result : get_node md5 key ch ≡ some n
    pub owned : lookup x ch.ring ≡ some n
    pub clockwise : IsClockwise ch.sorted_hashes (hash_key md5 key) x

  pub on_ring :
      (ch : ConsistentHash) (h : ℕ) (n : ℤ)
      → IsWellFormed md5 ch
      → lookup h ch.ring ≡ some n
      → elem h ch.sorted_hashes ≡ true
  on_ring ch h n v e = ground (arith, v.in_step h)

  pub in_map :
      (ch : ConsistentHash) (h : ℕ)
      → IsWellFormed md5 ch
      → elem h ch.sorted_hashes ≡ true
      → (n : ℤ) × (lookup h ch.ring ≡ some n)
  in_map ch h v e = elim (Option-cases (lookup h ch.ring)) [
    | inl missing ↦ absurd (ground (arith, v.in_step h))
    | inr found ↦ found
  ]

  -- On a well-formed ring that holds no hash the answer is -1. On any other it is the node that
  -- owns the next hash clockwise from the key's: the search neither fails nor reads out of range.
  pub get_node-clockwise :
      (ch : ConsistentHash) (key : String)
      → IsWellFormed md5 ch
      → (((h : ℕ) → lookup h ch.ring ≡ none) × (get_node md5 key ch ≡ some (negsuc 0)))
        ⊎ ((x : ℕ) × (n : ℤ) × IsOwnerAt ch key x n)
  unfolding get_node
  get_node-clockwise ch key v = elim (ring-cases ch.ring) [
    | inl (nothing, missing) ↦ inl (missing, rw nothing)
    | inr (h, m, more, e) ↦
        let (x, at, c) =
          start_index-IsClockwise ch.sorted_hashes (hash_key md5 key) h v.sorted
            (on_ring ch h m v e) in
        let (n, owner) = in_map ch x v c.on_ring in
        inr (
          x,
          n,
          record {
            result = rw more (node_at-eq-some ch _ x n at owner);
            owned = owner;
            clockwise = c;
          },
        )
  ]

  -- Where the ring holds the hash `x` of owner `n` clockwise from the key, `n` is the answer.
  pub IsOwnerAt-intro :
      (ch : ConsistentHash) (key : String) (x : ℕ) (n : ℤ)
      → IsWellFormed md5 ch
      → lookup x ch.ring ≡ some n
      → IsClockwise ch.sorted_hashes (hash_key md5 key) x
      → get_node md5 key ch ≡ some n
  IsOwnerAt-intro ch key x n v owner c = elim (get_node-clockwise ch key v) [
    | inl (missing, _) ↦ cc (missing x)
    | inr (y, m, o) ↦
        let same = IsClockwise-unique ch.sorted_hashes (hash_key md5 key) y x o.clockwise c in
        o.result ∙ cc (ap (λ z. lookup z ch.ring) same, o.owned)
  ]

  -- GetNode depends only on which node owns which hash.
  pub get_node_congr :
      (ch ch' : ConsistentHash) (key : String)
      → IsWellFormed md5 ch
      → IsWellFormed md5 ch'
      → ((h : ℕ) → lookup h ch'.ring ≡ lookup h ch.ring)
      → get_node md5 key ch' ≡ get_node md5 key ch
  get_node_congr ch ch' key v v' same = elim (get_node-clockwise ch key v) [
    | inl (missing, result) ↦ elim (get_node-clockwise ch' key v') [
      | inl (_, result') ↦ result' ∙ sym result
      | inr (y, m, o) ↦ cc (missing y, same y, o.owned)
    ]
    | inr (x, n, o) ↦
        IsOwnerAt-intro ch' key x n v' (same x ∙ o.owned) (
          IsClockwise-subset ch.sorted_hashes ch'.sorted_hashes (hash_key md5 key) x
            (λ y e. ground (arith, v.in_step y, v'.in_step y, same y))
            (ground (arith, v'.in_step x, same x, o.owned)) o.clockwise)
        ∙ sym o.result
  ]

  -- The answer of a ring that is not empty is a member of the cluster.
  pub get_node-member :
      (ch : ConsistentHash) (key : String) (n : ℤ)
      → IsWellFormed md5 ch
      → get_node md5 key ch ≡ some n
      → (n ≡ negsuc 0) ⊎ (lookup_or false n ch.physical_nodes ≡ true)
  get_node-member ch key n v e = elim (get_node-clockwise ch key v) [
    | inl (_, result) ↦ inl (cc)
    | inr (x, m, o) ↦ inr (v.members x n (cc (o.owned, o.result)))
  ]
