-- ===== src/Manager/Tests.antt =====
-- The theorems on the partition manager, applied to a small cluster.
use dynamo_db.Prelude.{
  eqb_ℕ, length, ℕ, ◌≡◌, ◌↔◌, refl, ◌⊎◌, Bool, true, false, some, List, [], ◌∷◌, arith, ℤ, pos,
  nat_key, int_key, elem,
}
use dynamo_db.GoMap.{GoMap, lookup_or}
use dynamo_db.Ring.{get_node}
use dynamo_db.Ring.Replicas.{IsPreference}
use dynamo_db.Ring.Samples.{
  by_length, as_listed, as_listed-IsOrder, two_nodes, two_nodes-IsWellFormed, two_nodes-lookup,
}
use dynamo_db.Manager.{
  PartitionManager, new_partition_manager, get_partition_owners, is_owner, is_primary_owner,
  get_partition_distribution,
}
use dynamo_db.Manager.Valid.{IsValid, Call, adds, removes, enables, replicates, run, run-IsValid}
use dynamo_db.Manager.Owners.{get_partition_owners_total, is_owner_iff, is_primary_owner_iff}
use dynamo_db.Manager.Distribution.{count_listed, get_partition_distribution_counts}

-- Nodes 1 and 10, one copy of every key.
abbrev small : PartitionManager
small = record { hash_ring = two_nodes; replication_factor = pos 1; enabled = true }

small-IsValid : IsValid by_length small
small-IsValid = record { well_formed = two_nodes-IsWellFormed; positive = omega arith }

abbrev history : List Call
history =
    adds (pos 1)
    ∷ adds (pos 10)
    ∷ replicates (pos 0)
    ∷ removes (pos 1)
    ∷ enables false
    ∷ adds (pos 2)
    ∷ []

run-IsValid_example :
    IsValid by_length (run by_length as_listed history (new_partition_manager true (pos 2)))
run-IsValid_example = run-IsValid by_length as_listed as_listed-IsOrder true (pos 2) history

get_partition_owners_total_example :
    (owners : List ℤ) × (get_partition_owners by_length "apple" small ≡ some owners)
    × ((true ≡ false) × (owners ≡ [])
        ⊎ (c : ℕ) × (true ≡ true)
          × (pos 1 ≡ pos c)
          × IsPreference two_nodes c owners
          × (eqb_ℕ (length owners) 0 ≡ eqb_ℕ (length two_nodes.ring) 0))
get_partition_owners_total_example =
    get_partition_owners_total by_length small small-IsValid "apple"

is_owner_iff_example :
    (owners : List ℤ) × (b : Bool) × (get_partition_owners by_length "apple" small ≡ some owners)
    × (is_owner by_length (pos 10) "apple" small ≡ some b)
    × ((b ≡ true) ↔ ((owners ≡ []) ⊎ (elem (pos 10) owners ≡ true)))
is_owner_iff_example = is_owner_iff by_length small small-IsValid (pos 10) "apple"

is_primary_owner_iff_example :
    (is_primary_owner by_length (pos 10) "apple" small ≡ some true)
    ↔ (get_node by_length "apple" two_nodes ≡ some (pos 10))
is_primary_owner_iff_example =
    is_primary_owner_iff by_length small small-IsValid (pos 10) (pos 10) 9 "apple" refl
      two_nodes-lookup

get_partition_distribution_counts_example :
    (d : GoMap ℤ ℕ) × (get_partition_distribution by_length ("apple" ∷ "blueberry" ∷ []) small
      ≡ some d)
    × ((n : ℤ) → lookup_or 0 n d ≡ count_listed by_length small n ("apple" ∷ "blueberry" ∷ []))
get_partition_distribution_counts_example =
    get_partition_distribution_counts by_length small small-IsValid ("apple" ∷ "blueberry" ∷ [])
