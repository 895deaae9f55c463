-- ===== src/Manager/Owners.antt =====
-- partition/partition_manager.go: who owns a key.
use dynamo_db.Prelude.{
  ℕ, ◌<◌, ◌≡◌, ◌↔◌, refl, ◌⊎◌, String, Bool, true, false, some, List, [], ◌∷◌, arith, eqb_ℕ, length,
  ℤ, pos, negsuc, ◌≤ℤ◌, nat_key, int_key, ==_iff, elem, Bool-cases, inl, inr, if◌then◌else◌,
}
use dynamo_db.GoMap.{lookup}
use dynamo_db.Ring.{get_node}
use dynamo_db.Ring.Replicas.{IsPreference, get_nodes-IsPreference, get_nodes-head, get_nodes-empty}
use dynamo_db.Manager.{
  PartitionManager, get_partition_owners, is_owner, is_primary_owner, find_owner, is_primary_of,
}
use dynamo_db.Manager.Valid.{IsValid}

find_owner-eq-elem : (n : ℤ) (owners : List ℤ) → find_owner n owners ≡ elem n owners
unfolding find_owner
find_owner-eq-elem n [] = refl
find_owner-eq-elem n (m ∷ owners) = ground (arith, find_owner-eq-elem n owners)

ℤ-pos : (z : ℤ) → pos 1 ≤ℤ z → (c : ℕ) × (z ≡ pos c) × (0 < c)
ℤ-pos (pos c) h = (c, refl, omega arith)
ℤ-pos (negsuc c) h = absurd (omega arith)

module _ (md5 : String → List ℕ) (pm : PartitionManager) (v : IsValid md5 pm) where
  -- GetPartitionOwners of a valid manager returns. With partitioning off the list is empty, which
  -- callers read as "all nodes". With it on, the list is a preference list for the replication
  -- factor, and it is empty exactly where the ring is.
  pub get_partition_owners_total :
      (key : String)
      → (owners : List ℤ) × (get_partition_owners md5 key pm ≡ some owners)
        × ((pm.enabled ≡ false) × (owners ≡ [])
            ⊎ (c : ℕ) × (pm.enabled ≡ true)
              × (pm.replication_factor ≡ pos c)
              × IsPreference pm.hash_ring c owners
              × (eqb_ℕ (length owners) 0 ≡ eqb_ℕ (length pm.hash_ring.ring) 0))
  unfolding get_partition_owners
  get_partition_owners_total key = elim (Bool-cases pm.enabled) [
    | inl on ↦
        let (c, factor, asked) = ℤ-pos pm.replication_factor v.positive in
        let (owners, e, p) = get_nodes-IsPreference md5 pm.hash_ring v.well_formed key c in
        (
          owners,
          ground (arith, on, e, factor),
          inr (
            c,
            on,
            factor,
            p,
            get_nodes-empty md5 pm.hash_ring v.well_formed key c owners asked e,
          ),
        )
    | inr off ↦ ([], ground (arith, off), inl (off, refl))
  ]

  -- IsOwner of a valid manager answers for every node: it says yes exactly to the owners of the
  -- key, and to everybody where there is no owner.
  pub is_owner_iff :
      (n : ℤ) (key : String)
      → (owners : List ℤ) × (b : Bool) × (get_partition_owners md5 key pm ≡ some owners)
        × (is_owner md5 n key pm ≡ some b)
        × ((b ≡ true) ↔ ((owners ≡ []) ⊎ (elem n owners ≡ true)))
  unfolding is_owner
  is_owner_iff n key =
      let (owners, e, _) = get_partition_owners_total key in
      (
        owners,
        if eqb_ℕ (length owners) 0 then true else find_owner n owners,
        e,
        ground (arith, e),
        ask owners,
      )
    where
      ask :
          (owners : List ℤ)
          → ((if eqb_ℕ (length owners) 0 then true else find_owner n owners) ≡ true)
            ↔ ((owners ≡ []) ⊎ (elem n owners ≡ true))
      ask [] = (λ _. inl refl, λ _. refl)
      ask (m ∷ owners) = (
        λ h. inr (ground (arith, find_owner-eq-elem n (m ∷ owners))),
        λ h. ground (arith, find_owner-eq-elem n (m ∷ owners)),
      )

  -- In a valid manager with partitioning on and a ring that is not empty, IsPrimaryOwner says yes
  -- to GetNode's answer and to no other node.
  pub is_primary_owner_iff :
      (n m : ℤ) (h : ℕ) (key : String)
      → pm.enabled ≡ true
      → lookup h pm.hash_ring.ring ≡ some m
      → (is_primary_owner md5 n key pm ≡ some true) ↔ (get_node md5 key pm.hash_ring ≡ some n)
  unfolding is_primary_owner get_partition_owners is_primary_of
  is_primary_owner_iff n m h key on owned =
      let (c, factor, asked) = ℤ-pos pm.replication_factor v.positive in
      let (primary, replicas, e, same) =
        get_nodes-head md5 pm.hash_ring v.well_formed key c h m asked owned in
      (
        λ yes_to_n. ground (arith, on, factor, e, same, ==_iff primary n),
        λ answer. ground (arith, on, factor, e, same, ==_iff primary n),
      )
