-- ===== src/Ring/Samples.antt =====
-- Small rings for the tests: one virtual node for each node, and a digest by length.
use mathlib.Core.List.Perm
use Prim.Native.String.{len}
use dynamo_db.Prelude.{
  ℕ, ◌≡◌, refl, String, true, false, none, some, List, [], ◌∷◌, arith, pos, show, show_ℕ, nat_key,
  int_key,
}
use dynamo_db.GoMap.{IsOrder, lookup, lookup_or, insert}
use dynamo_db.GoSort.{nat_order, sort, place, search}
use dynamo_db.Ring.{
  ConsistentHash, positive_or, new_consistent_hash, vnode_key, hash_bytes, hash_key, vnode_hash,
  add_vnodes, add_node, get_node, start_index, node_at,
}
use dynamo_db.Ring.Vnodes.{is_vnode}
use dynamo_db.Ring.Disruption.{OwnsItsHashes}
use dynamo_db.Ring.Invariant.{IsWellFormed, new-IsWellFormed, add_node-IsWellFormed}

-- Eight bytes, of which the last is the length of the text: the key's hash is its length.
abbrev pub by_length : String → List ℕ
by_length text = 0 ∷ 0 ∷ 0 ∷ 0 ∷ 0 ∷ 0 ∷ 0 ∷ len text ∷ []

-- A visit in the order of the list.
abbrev pub as_listed {ℓ} : {A : Type ℓ} → List A → List A
as_listed xs = xs

pub as_listed-IsOrder {ℓ} : {A : Type ℓ} → IsOrder (as_listed {A = A})
as_listed-IsOrder xs = Perm.refl xs

-- A visit that comes by the second key first.
abbrev pub second_first {ℓ} : {A : Type ℓ} → List A → List A
second_first [] = []
second_first (x ∷ []) = x ∷ []
second_first (x ∷ y ∷ xs) = y ∷ x ∷ xs

pub second_first-IsOrder {ℓ} : {A : Type ℓ} → IsOrder (second_first {A = A})
second_first-IsOrder [] = Perm.refl []
second_first-IsOrder (x ∷ []) = Perm.refl (x ∷ [])
second_first-IsOrder (x ∷ y ∷ xs) = Perm.swap x y xs

-- Node 1 at hash 8.
abbrev pub one_node : ConsistentHash
one_node = add_node by_length (pos 1) (new_consistent_hash (pos 1))

pub one_node-IsWellFormed : IsWellFormed by_length one_node
one_node-IsWellFormed =
    add_node-IsWellFormed by_length (pos 1) _ (new-IsWellFormed by_length (pos 1))

-- Node 1 at hash 8, and node 10 at hash 9.
abbrev pub two_nodes : ConsistentHash
two_nodes = add_node by_length (pos 10) one_node

pub two_nodes-IsWellFormed : IsWellFormed by_length two_nodes
two_nodes-IsWellFormed = add_node-IsWellFormed by_length (pos 10) one_node one_node-IsWellFormed

two_nodes-hash : (h : ℕ) → is_vnode by_length (pos 10) 1 0 h ≡ true → h ≡ 9
unfolding is_vnode vnode_hash hash_key hash_bytes vnode_key add_node add_vnodes new_consistent_hash
    positive_or lookup_or lookup insert sort place get_node start_index search node_at show show_ℕ
two_nodes-hash h e = ground (arith, e)

pub two_nodes-apple : get_node by_length "apple" two_nodes ≡ some (pos 1)
unfolding is_vnode vnode_hash hash_key hash_bytes vnode_key add_node add_vnodes new_consistent_hash
    positive_or lookup_or lookup insert sort place get_node start_index search node_at show show_ℕ
two_nodes-apple = refl

pub two_nodes-lookup : lookup 9 two_nodes.ring ≡ some (pos 10)
unfolding is_vnode vnode_hash hash_key hash_bytes vnode_key add_node add_vnodes new_consistent_hash
    positive_or lookup_or lookup insert sort place get_node start_index search node_at show show_ℕ
two_nodes-lookup = refl

pub one_node-fresh : lookup_or false (pos 10) one_node.physical_nodes ≡ false
unfolding is_vnode vnode_hash hash_key hash_bytes vnode_key add_node add_vnodes new_consistent_hash
    positive_or lookup_or lookup insert sort place get_node start_index search node_at show show_ℕ
one_node-fresh = refl

pub two_nodes-OwnsItsHashes : OwnsItsHashes by_length (pos 10) two_nodes
unfolding is_vnode vnode_hash hash_key hash_bytes vnode_key add_node add_vnodes new_consistent_hash
    positive_or lookup_or lookup insert sort place get_node start_index search node_at show show_ℕ
two_nodes-OwnsItsHashes h e = ground (arith, two_nodes-hash h e)

pub one_node-free :
    (h : ℕ)
    → is_vnode by_length (pos 10) one_node.virtual_nodes 0 h ≡ true
    → lookup h one_node.ring ≡ none
unfolding is_vnode vnode_hash hash_key hash_bytes vnode_key add_node add_vnodes new_consistent_hash
    positive_or lookup_or lookup insert sort place get_node start_index search node_at show show_ℕ
one_node-free h e = ground (arith, two_nodes-hash h e)
