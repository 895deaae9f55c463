-- ===== src/Ring.antt =====
-- partition/consistent_hash.go: the hash ring with virtual nodes.
--
-- `md5` stands for crypto/md5.Sum of the text's bytes: sixteen bytes. `order` gives the order in
-- which one `range` visits the keys of a map. A node ID is Go's `int`; a hash is a `uint64`, a
-- number below 2 ^ 64. An index out of range is a panic, `none`.
pub mod Clockwise
pub mod Lookup
pub mod Disruption
pub mod Collect
pub mod Replicas
pub mod Members
pub mod Hash
pub mod Samples
mod Tests
pub mod Vnodes
pub mod Invariant
use Prim.Native.Nat.{bit_or}
use dynamo_db.Prelude.{
  ℕ, zero, suc, ◌+◌, ◌*◌, ◌%◌, ◌^◌, String, text_append, Bool, true, false, Option, none, some,
  List, [], ◌∷◌, ◌++◌, ltb, leb, eqb_ℕ, length, get_elem?, get_or, ℤ, pos, negsuc, leb_ℤ, ltb_ℤ,
  nat_key, int_key, show_ℕ, show, if◌then◌else◌,
}
use dynamo_db.GoMap.{GoMap, empty, keys, lookup, lookup_or, insert, delete}
use dynamo_db.GoSort.{nat_order, int_order, sort, search}

pub record ConsistentHash : Type 0 where
  pub ring : GoMap ℕ ℤ
  pub sorted_hashes : List ℕ
  pub virtual_nodes : ℕ
  pub physical_nodes : GoMap ℤ Bool

pub record RingInfo : Type 0 where
  pub total_hashes : ℕ
  pub physical_nodes : ℕ
  pub virtual_per_node : ℕ
  pub node_ids : List ℤ

unfoldable pub positive_or : ℕ → ℤ → ℕ
positive_or default (pos zero) = default
positive_or default (pos (suc k)) = suc k
positive_or default (negsuc k) = default

unfoldable pub new_consistent_hash : ℤ → ConsistentHash
new_consistent_hash n = record {
  ring = empty;
  sorted_hashes = [];
  virtual_nodes = positive_or 160 n;
  physical_nodes = empty;
}

-- fmt.Sprintf("node-%d-%d", nodeID, i)
unfoldable pub vnode_key : ℤ → ℕ → String
vnode_key node_id i = text_append "node-" (text_append (show node_id) (text_append "-" (show_ℕ i)))

-- The loop over `hash[0]` to `hash[7]`; the shift drops what leaves the 64 bits.
unfoldable pub hash_bytes : ℕ → ℕ → List ℕ → ℕ → ℕ
hash_bytes zero i digest result = result
hash_bytes (suc rounds) i digest result =
    hash_bytes rounds (i + 1) digest (bit_or ((result * 256) % 2 ^ 64) (get_or digest i 0))

-- The first hash that is at least the key's, by binary search, or index 0 past the last.
unfoldable pub start_index : List ℕ → ℕ → ℕ
start_index sorted_hashes hash =
    let idx = search (length sorted_hashes) (λ i. leb hash (get_or sorted_hashes i 0)) in
    if eqb_ℕ idx (length sorted_hashes) then 0 else idx

-- `ch.ring[ch.sortedHashes[i]]`
unfoldable pub node_at : ConsistentHash → ℕ → Option ℤ
node_at ch i = elim (get_elem? ch.sorted_hashes i) [
  | none ↦ none
  | some hash ↦ some (lookup_or (pos 0) hash ch.ring)
]

-- One round of the loop of GetNodes: a node that was not seen is appended.
unfoldable pub collect : ℤ → List ℤ × GoMap ℤ Bool → List ℤ × GoMap ℤ Bool
collect node_id (result, seen) =
    if lookup_or false node_id seen
    then (result, seen)
    else (result ++ node_id ∷ [], insert node_id true seen)

-- `rounds` is what is left of `len(ch.sortedHashes)` rounds.
unfoldable pub collect_loop :
    ConsistentHash → ℕ → ℤ → ℕ → ℕ → List ℤ × GoMap ℤ Bool → Option (List ℤ)
collect_loop ch idx count zero i state = some state.0
collect_loop ch idx count (suc rounds) i state =
    let round : Option (List ℤ) = elim (node_at ch ((idx + i) % length ch.sorted_hashes)) [
      | none ↦ none
      | some node_id ↦ collect_loop ch idx count rounds (i + 1) (collect node_id state)
    ] in
    if ltb_ℤ (pos (length state.0)) count then round else some state.0

unfoldable pub get_all_nodes : (List ℤ → List ℤ) → ConsistentHash → List ℤ
get_all_nodes order ch = sort (order (keys ch.physical_nodes))

unfoldable pub get_ring_info : (List ℤ → List ℤ) → ConsistentHash → RingInfo
get_ring_info order ch = record {
  total_hashes = length ch.sorted_hashes;
  physical_nodes = length ch.physical_nodes;
  virtual_per_node = ch.virtual_nodes;
  node_ids = get_all_nodes order ch;
}

module _ (md5 : String → List ℕ) where
  unfoldable pub hash_key : String → ℕ
  hash_key key = hash_bytes 8 0 (md5 key) 0

  unfoldable pub vnode_hash : ℤ → ℕ → ℕ
  vnode_hash node_id i = hash_key (vnode_key node_id i)

  -- The loop of AddNode, from index `i`.
  unfoldable pub add_vnodes : ℤ → ℕ → ℕ → ConsistentHash → ConsistentHash
  add_vnodes node_id zero i ch = ch
  add_vnodes node_id (suc rounds) i ch =
      let hash = vnode_hash node_id i in
      add_vnodes node_id rounds (i + 1) (record ch {
        ring = insert hash node_id ch.ring;
        sorted_hashes = ch.sorted_hashes ++ hash ∷ [];
      })

  unfoldable pub add_node : ℤ → ConsistentHash → ConsistentHash
  add_node node_id ch =
      if lookup_or false node_id ch.physical_nodes
      then ch
      else let added =
          add_vnodes node_id ch.virtual_nodes 0
            (record ch { physical_nodes = insert node_id true ch.physical_nodes }) in
        record added { sorted_hashes = sort added.sorted_hashes }

  -- The loop of RemoveNode, from index `i`.
  unfoldable pub remove_vnodes : ℤ → ℕ → ℕ → GoMap ℕ ℤ → GoMap ℕ ℤ
  remove_vnodes node_id zero i ring = ring
  remove_vnodes node_id (suc rounds) i ring =
      remove_vnodes node_id rounds (i + 1) (delete (vnode_hash node_id i) ring)

  unfoldable pub remove_node : (List ℕ → List ℕ) → ℤ → ConsistentHash → ConsistentHash
  remove_node order node_id ch =
      if lookup_or false node_id ch.physical_nodes
      then (let ring = remove_vnodes node_id ch.virtual_nodes 0 ch.ring in
          record ch {
            physical_nodes = delete node_id ch.physical_nodes;
            ring = ring;
            sorted_hashes = sort (order (keys ring));
          })
      else ch

  unfoldable pub get_node : String → ConsistentHash → Option ℤ
  get_node key ch =
      if eqb_ℕ (length ch.ring) 0
      then some (negsuc 0)
      else node_at ch (start_index ch.sorted_hashes (hash_key key))

  -- `make([]int, 0, replicaCount)` panics on a negative capacity.
  unfoldable pub get_nodes : String → ℤ → ConsistentHash → Option (List ℤ)
  get_nodes key replica_count ch =
      if eqb_ℕ (length ch.ring) 0
      then some []
      else let count =
          if ltb_ℤ (pos (length ch.physical_nodes)) replica_count
          then pos (length ch.physical_nodes)
          else replica_count in
        if ltb_ℤ count (pos 0)
        then none
        else collect_loop ch (start_index ch.sorted_hashes (hash_key key)) count
            (length ch.sorted_hashes) 0 ([], empty)
