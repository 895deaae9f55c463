-- ===== src/Ring/Members.antt =====
-- partition/consistent_hash.go: the members, by GetAllNodes, AddNode and RemoveNode.
use mathlib.Core.Bool.{not, ◌&&◌}
use dynamo_db.Prelude.{
  ℕ, ◌≡◌, ◌∙◌, inl, inr, String, true, false, ◌||◌, List, arith, ℤ, nat_key, int_key, ◌==◌, ==_iff,
  elem, Bool-cases,
}
use dynamo_db.GoMap.{IsOrder, elem-order, lookup_or, elem-keys, lookup_or-insert, lookup_or-delete}
use dynamo_db.GoSort.{int_order}
use dynamo_db.GoSort.Sorted.{IsSorted, sort-IsSorted, elem-sort}
use dynamo_db.Ring.{ConsistentHash, add_node, remove_node, get_all_nodes}
use dynamo_db.Ring.Invariant.{IsWellFormed, add_node-frame, remove_node-frame}

module _ (md5 : String → List ℕ) where
  -- On a well-formed ring GetAllNodes' list is sorted and holds the members and nothing else, in
  -- whatever order the map was visited.
  pub get_all_nodes-members :
      (order : List ℤ → List ℤ)
      → IsOrder order
      → (ch : ConsistentHash) → IsWellFormed md5 ch
      → IsSorted (get_all_nodes order ch)
        × ((n : ℤ) → elem n (get_all_nodes order ch) ≡ lookup_or false n ch.physical_nodes)
  unfolding get_all_nodes lookup_or
  get_all_nodes-members order visits ch v = (
    sort-IsSorted _,
    λ n.
        elem-sort n _
        ∙ elem-order order visits n _
        ∙ ground (arith, elem-keys n ch.physical_nodes, v.present n),
  )

  -- After AddNode the members are the old ones and the node; after RemoveNode all the others.
  pub membership :
      (order : List ℕ → List ℕ)
      → IsOrder order
      → (n m : ℤ) (ch : ConsistentHash)
      → (lookup_or false m (add_node md5 n ch).physical_nodes
          ≡ (n == m || lookup_or false m ch.physical_nodes))
        × (lookup_or false m (remove_node md5 order n ch).physical_nodes
            ≡ (not (n == m) && lookup_or false m ch.physical_nodes))
  membership order visits n m ch = elim (Bool-cases (lookup_or false n ch.physical_nodes)) [
    | inl member ↦ (
      unfold add_node in rw member (ground (arith, ==_iff n m)),
      ground (
        arith,
        (remove_node-frame md5 order visits n ch member).1,
        lookup_or-delete false n m ch.physical_nodes,
      ),
    )
    | inr absent ↦ (
      ground (
        arith,
        (add_node-frame md5 n ch absent).1,
        lookup_or-insert false n m true ch.physical_nodes,
      ),
      unfold remove_node in rw absent (ground (arith, ==_iff n m)),
    )
  ]
