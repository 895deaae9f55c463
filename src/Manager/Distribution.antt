-- ===== src/Manager/Distribution.antt =====
-- partition/partition_manager.go: the counts of GetPartitionDistribution.
use dynamo_db.Prelude.{
  eqb_ℕ, length, ℕ, ◌+◌, ◌≡◌, refl, String, Bool, true, false, none, some, List, [], ◌∷◌, arith, ℤ,
  nat_key, int_key, ==_iff, elem, IsDistinct, ◌⊎◌, pos, inl, inr, if◌then◌else◌,
}
use dynamo_db.GoMap.{GoMap, empty, lookup, lookup_or, insert, lookup_or-insert}
use dynamo_db.Ring.Replicas.{IsPreference}
use dynamo_db.Manager.{
  PartitionManager, get_partition_owners, count_owners, count_keys, get_partition_distribution,
}
use dynamo_db.Manager.Valid.{IsValid}
use dynamo_db.Manager.Owners.{get_partition_owners_total}

-- Owners that are distinct are counted once each.
lookup_or-count_owners :
    (n : ℤ) (owners : List ℤ) (d : GoMap ℤ ℕ)
    → IsDistinct owners
    → lookup_or 0 n (count_owners owners d) ≡ lookup_or 0 n d + (if elem n owners then 1 else 0)
unfolding count_owners
lookup_or-count_owners n [] d h = omega arith
lookup_or-count_owners n (m ∷ owners) d h = ground (
  arith,
  ==_iff m n,
  lookup_or-insert 0 m n (lookup_or 0 m d + 1) d,
  lookup_or-count_owners n owners (insert m (lookup_or 0 m d + 1) d) h.1,
)

module _ (md5 : String → List ℕ) (pm : PartitionManager) where
  -- `n` is in the list that GetPartitionOwners has for the key.
  pub is_listed : ℤ → String → Bool
  is_listed n key = elim (get_partition_owners md5 key pm) [
    | none ↦ false
    | some owners ↦ elem n owners
  ]

  -- The keys of the sample for which `n` is listed, counted one by one.
  abbrev pub count_listed : ℤ → List String → ℕ
  count_listed n [] = 0
  count_listed n (key ∷ test_keys) = count_listed n test_keys + (if is_listed n key then 1 else 0)

  module _ (v : IsValid md5 pm) where
    is_listed_lem :
        (key : String)
        → (owners : List ℤ) × (get_partition_owners md5 key pm ≡ some owners)
          × IsDistinct owners
          × ((n : ℤ) → is_listed n key ≡ elem n owners)
    unfolding is_listed
    is_listed_lem key =
        let (owners, e, cases) = get_partition_owners_total md5 pm v key in
        (owners, e, distinct owners cases, λ n. ground (arith, e))
      where
        distinct :
            (owners : List ℤ)
            → ((pm.enabled ≡ false) × (owners ≡ [])
                ⊎ (c : ℕ) × (pm.enabled ≡ true)
                  × (pm.replication_factor ≡ pos c)
                  × IsPreference pm.hash_ring c owners
                  × (eqb_ℕ (length owners) 0 ≡ eqb_ℕ (length pm.hash_ring.ring) 0))
            → IsDistinct owners
        distinct owners (inl (off, nobody)) = rw nobody tt
        distinct owners (inr (c, on, factor, p, same)) = p.distinct

    count_keys_lem :
        (test_keys : List String) (d : GoMap ℤ ℕ)
        → (d' : GoMap ℤ ℕ) × (count_keys md5 pm test_keys d ≡ some d')
          × ((n : ℤ) → lookup_or 0 n d' ≡ lookup_or 0 n d + count_listed n test_keys)
    unfolding count_keys
    count_keys_lem [] d = (d, refl, λ n. omega arith)
    count_keys_lem (key ∷ test_keys) d =
        let (owners, e, distinct, mine) = is_listed_lem key in
        let (d', e', counts) = count_keys_lem test_keys (count_owners owners d) in
        (
          d',
          ground (arith, e, e'),
          λ n. ground (arith, counts n, lookup_or-count_owners n owners d distinct, mine n),
        )

    -- The distribution of a valid manager is returned and has, for every node, the number of the
    -- sample's keys for which GetPartitionOwners lists it. An empty
    -- list, which IsOwner takes for all nodes, counts for nobody.
    pub get_partition_distribution_counts :
        (test_keys : List String)
        → (d : GoMap ℤ ℕ) × (get_partition_distribution md5 test_keys pm ≡ some d)
          × ((n : ℤ) → lookup_or 0 n d ≡ count_listed n test_keys)
    unfolding get_partition_distribution lookup_or lookup
    get_partition_distribution_counts test_keys =
        let (d, e, counts) = count_keys_lem test_keys empty in (d, e, λ n. omega (arith, counts n))
