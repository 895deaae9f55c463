-- ===== src/Ring/Tests.antt =====
-- The theorems on the ring, applied to small rings.
use dynamo_db.Ring.Hash.{hash_key-eq}
use dynamo_db.Prelude.{
  ℕ, zero, suc, ◌+◌, ◌*◌, ◌^◌, ◌<◌, get_or, [], String, ◌≡◌, ◌⊎◌, false, none, some, List, ◌∷◌,
  arith, ℤ, pos, negsuc, nat_key, int_key, elem,
}
use dynamo_db.GoMap.{lookup, lookup_or}
use dynamo_db.GoSort.{nat_order, int_order}
use dynamo_db.GoSort.Sorted.{IsSorted}
use dynamo_db.Ring.{hash_key, add_node, remove_node, get_node, get_nodes, get_all_nodes}
use dynamo_db.Ring.Lookup.{get_node-clockwise, IsOwnerAt}
use dynamo_db.Ring.Replicas.{IsPreference, get_nodes-IsPreference, get_nodes-head}
use dynamo_db.Ring.Disruption.{add_node-moves, remove_node-keeps, remove_node-add_node}
use dynamo_db.Ring.Members.{get_all_nodes-members}
use dynamo_db.Ring.Samples.{
  by_length, as_listed, as_listed-IsOrder, one_node, one_node-IsWellFormed, two_nodes,
  two_nodes-IsWellFormed, two_nodes-OwnsItsHashes, two_nodes-apple, two_nodes-lookup,
  one_node-fresh, one_node-free,
}

get_node-clockwise_example :
    (((h : ℕ) → lookup h two_nodes.ring ≡ none)
      × (get_node by_length "blueberry" two_nodes ≡ some (negsuc 0)))
    ⊎ ((x : ℕ) × (n : ℤ) × IsOwnerAt by_length two_nodes "blueberry" x n)
get_node-clockwise_example =
    get_node-clockwise by_length two_nodes "blueberry" two_nodes-IsWellFormed

get_nodes-IsPreference_example :
    (r : List ℤ) × (get_nodes by_length "blueberry" (pos 2) two_nodes ≡ some r)
    × IsPreference two_nodes 2 r
get_nodes-IsPreference_example =
    get_nodes-IsPreference by_length two_nodes two_nodes-IsWellFormed "blueberry" 2

get_nodes-head_example :
    (primary : ℤ) × (replicas : List ℤ) × (get_nodes by_length "blueberry" (pos 2) two_nodes
      ≡ some (primary ∷ replicas))
    × (get_node by_length "blueberry" two_nodes ≡ some primary)
get_nodes-head_example =
    get_nodes-head by_length two_nodes two_nodes-IsWellFormed "blueberry" 2 9 (pos 10) (omega arith)
      two_nodes-lookup

add_node-moves_example :
    (get_node by_length "blueberry" (add_node by_length (pos 10) one_node)
      ≡ get_node by_length "blueberry" one_node)
    ⊎ (get_node by_length "blueberry" (add_node by_length (pos 10) one_node) ≡ some (pos 10))
add_node-moves_example =
    add_node-moves by_length (pos 10) one_node "blueberry" one_node-IsWellFormed

remove_node-keeps_example :
    get_node by_length "apple" (remove_node by_length as_listed (pos 10) two_nodes) ≡ some (pos 1)
remove_node-keeps_example =
    remove_node-keeps by_length as_listed as_listed-IsOrder (pos 10) (pos 1) two_nodes "apple"
      two_nodes-IsWellFormed two_nodes-OwnsItsHashes (ground arith) two_nodes-apple

remove_node-add_node_example :
    get_node by_length "blueberry"
      (remove_node by_length as_listed (pos 10) (add_node by_length (pos 10) one_node))
    ≡ get_node by_length "blueberry" one_node
remove_node-add_node_example =
    remove_node-add_node by_length as_listed as_listed-IsOrder (pos 10) one_node "blueberry"
      one_node-IsWellFormed one_node-fresh one_node-free

get_all_nodes-members_example :
    IsSorted (get_all_nodes as_listed two_nodes)
    × ((n : ℤ)
        → elem n (get_all_nodes as_listed two_nodes) ≡ lookup_or false n two_nodes.physical_nodes)
get_all_nodes-members_example =
    get_all_nodes-members by_length as_listed as_listed-IsOrder two_nodes two_nodes-IsWellFormed

abbrev short_digest : String → List ℕ
short_digest key = 1 ∷ 2 ∷ 255 ∷ []

short_digest-bytes : (i : ℕ) → get_or (short_digest "k") i 0 < 256
short_digest-bytes zero = omega arith
short_digest-bytes (suc zero) = omega arith
short_digest-bytes (suc (suc zero)) = omega arith
short_digest-bytes (suc (suc (suc i))) = omega arith

hash_key-eq_example :
    (hash_key short_digest "k"
      ≡ 1 * 2 ^ 56
        + 2 * 2 ^ 48
        + 255 * 2 ^ 40
        + 0 * 2 ^ 32
        + 0 * 2 ^ 24
        + 0 * 2 ^ 16
        + 0 * 2 ^ 8
        + 0)
    × (hash_key short_digest "k" < 2 ^ 64)
hash_key-eq_example = hash_key-eq short_digest "k" short_digest-bytes
