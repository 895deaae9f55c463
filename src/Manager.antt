-- ===== src/Manager.antt =====
-- partition/partition_manager.go: which nodes store a key. Each method holds the manager's lock for
-- its whole body, so a call is one step.
pub mod Valid
pub mod Owners
pub mod Distribution
mod Tests
use dynamo_db.Prelude.{
  ℕ, zero, suc, ◌+◌, String, text_append, Bool, true, false, Option, none, some, List, [], ◌∷◌,
  leb_ℤ, ltb_ℤ, eqb_ℤ, eqb_ℕ, length, ℤ, pos, negsuc, nat_key, int_key, ◌==◌, show, if◌then◌else◌,
}
use dynamo_db.GoMap.{GoMap, empty, lookup_or, insert}
use dynamo_db.Ring
use dynamo_db.Ring.{ConsistentHash, RingInfo, new_consistent_hash, get_nodes, get_ring_info}

pub record PartitionManager : Type 0 where
  pub hash_ring : ConsistentHash
  pub replication_factor : ℤ
  pub enabled : Bool

-- `ring_info` is there only where partitioning is enabled.
pub record PartitionStats : Type 0 where
  pub enabled : Bool
  pub replication_factor : ℤ
  pub ring_info : Option RingInfo

unfoldable pub new_partition_manager : Bool → ℤ → PartitionManager
new_partition_manager enabled factor = record {
  hash_ring = new_consistent_hash (pos 160);
  replication_factor = if ltb_ℤ factor (pos 1) then pos 3 else factor;
  enabled = enabled;
}

unfoldable pub set_enabled : Bool → PartitionManager → PartitionManager
set_enabled enabled pm = record pm { enabled = enabled }

unfoldable pub is_enabled : PartitionManager → Bool
is_enabled pm = pm.enabled

unfoldable pub set_replication_factor : ℤ → PartitionManager → PartitionManager
set_replication_factor factor pm = record pm {
  replication_factor = if ltb_ℤ factor (pos 1) then pos 1 else factor;
}

unfoldable pub get_replication_factor : PartitionManager → ℤ
get_replication_factor pm = pm.replication_factor

unfoldable pub get_all_nodes : (List ℤ → List ℤ) → PartitionManager → List ℤ
get_all_nodes order pm = Ring.get_all_nodes order pm.hash_ring

unfoldable pub get_partition_stats : (List ℤ → List ℤ) → PartitionManager → PartitionStats
get_partition_stats order pm = record {
  enabled = pm.enabled;
  replication_factor = pm.replication_factor;
  ring_info = if pm.enabled then some (get_ring_info order pm.hash_ring) else none;
}

-- `for _, owner := range owners { if owner == nodeID { return true } }; return false`
unfoldable pub find_owner : ℤ → List ℤ → Bool
find_owner node_id [] = false
find_owner node_id (owner ∷ owners) = if owner == node_id then true else find_owner node_id owners

unfoldable pub is_primary_of : ℤ → List ℤ → Bool
is_primary_of node_id [] = node_id == pos 1
is_primary_of node_id (primary ∷ replicas) = primary == node_id

-- `for _, owner := range owners { distribution[owner]++ }`
unfoldable pub count_owners : List ℤ → GoMap ℤ ℕ → GoMap ℤ ℕ
count_owners [] distribution = distribution
count_owners (owner ∷ owners) distribution =
    count_owners owners (insert owner (lookup_or 0 owner distribution + 1) distribution)

unfoldable pub owner_names : ℕ → List ℤ → String
owner_names i [] = ""
owner_names i (node_id ∷ owners) =
    text_append
      (if eqb_ℕ i 0
        then text_append "Node " (text_append (show node_id) " (primary)")
        else text_append ", Node " (text_append (show node_id) " (replica)"))
      (owner_names (i + 1) owners)

unfoldable pub describe : String → Bool → List ℤ → String
describe key false owners =
    text_append "Key '" (text_append key "': Full replication to all nodes (partitioning disabled)")
describe key true [] = text_append "Key '" (text_append key "': No nodes available (empty cluster)")
describe key true (owner ∷ owners) =
    text_append "Key '"
      (text_append key (text_append "': Stored on " (owner_names 0 (owner ∷ owners))))

module _ (md5 : String → List ℕ) where
  unfoldable pub add_node : ℤ → PartitionManager → PartitionManager
  add_node node_id pm =
      if pm.enabled then record pm { hash_ring = Ring.add_node md5 node_id pm.hash_ring } else pm

  unfoldable pub remove_node : (List ℕ → List ℕ) → ℤ → PartitionManager → PartitionManager
  remove_node order node_id pm =
      if pm.enabled
      then record pm { hash_ring = Ring.remove_node md5 order node_id pm.hash_ring }
      else pm

  unfoldable pub get_partition_owners : String → PartitionManager → Option (List ℤ)
  get_partition_owners key pm =
      if pm.enabled then get_nodes md5 key pm.replication_factor pm.hash_ring else some []

  unfoldable pub is_owner : ℤ → String → PartitionManager → Option Bool
  is_owner node_id key pm = elim (get_partition_owners key pm) [
    | none ↦ none
    | some owners ↦ some (if eqb_ℕ (length owners) 0 then true else find_owner node_id owners)
  ]

  unfoldable pub is_primary_owner : ℤ → String → PartitionManager → Option Bool
  is_primary_owner node_id key pm = elim (get_partition_owners key pm) [
    | none ↦ none
    | some owners ↦ some (is_primary_of node_id owners)
  ]

  -- The loop over the sample keys, from the counts so far.
  unfoldable pub count_keys : PartitionManager → List String → GoMap ℤ ℕ → Option (GoMap ℤ ℕ)
  count_keys pm [] distribution = some distribution
  count_keys pm (key ∷ test_keys) distribution = elim (get_partition_owners key pm) [
    | none ↦ none
    | some owners ↦ count_keys pm test_keys (count_owners owners distribution)
  ]

  unfoldable pub get_partition_distribution : List String → PartitionManager → Option (GoMap ℤ ℕ)
  get_partition_distribution test_keys pm = count_keys pm test_keys empty

  unfoldable pub describe_partition : String → PartitionManager → Option String
  describe_partition key pm = elim (get_partition_owners key pm) [
    | none ↦ none
    | some owners ↦ some (describe key pm.enabled owners)
  ]
