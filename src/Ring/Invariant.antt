-- ===== src/Ring/Invariant.antt =====
-- partition/consistent_hash.go: what AddNode and RemoveNode keep of the ring, the sorted hashes and
-- the members.
use mathlib.Core.HLevel.{hedberg}
use native.Mathlib.Decide.{ℕ_discrete}
use dynamo_db.Prelude.{
  ℕ, ◌≡◌, ◌≢◌, refl, ◌∙◌, String, true, false, ◌||◌, none, some, List, ℤ, nat_key, int_key, ==_iff,
  elem, IsDistinct, arith, if◌then◌else◌, inl, inr, Bool-cases,
}
use dynamo_db.GoMap.{
  IsOrder, elem-order, keys, is_some, lookup, lookup_or, insert, delete, lookup-insert,
  lookup-delete, elem-keys, insert-IsDistinct, delete-IsDistinct,
}
use dynamo_db.GoSort.{nat_order}
use dynamo_db.GoSort.Sorted.{IsSorted, sort-IsSorted, sort-Perm, elem-sort}
use dynamo_db.Ring.{ConsistentHash, new_consistent_hash, add_node, remove_vnodes, remove_node}
use dynamo_db.Ring.Vnodes.{
  is_vnode, lookup-add_vnodes, elem-add_vnodes, add_vnodes-frame, add_vnodes-IsDistinct,
  lookup-remove_vnodes, remove_vnodes-IsDistinct,
}

module _ (md5 : String → List ℕ) where
  pub record IsWellFormed (ch : ConsistentHash) : Type 0 where
    -- binary search needs the order
    pub sorted : IsSorted ch.sorted_hashes
    -- the list and the map have the same hashes
    pub in_step : (h : ℕ) → elem h ch.sorted_hashes ≡ is_some (lookup h ch.ring)
    -- the owner of a hash is a member, and the hash is that of one of its virtual nodes
    pub members :
        (h : ℕ) (n : ℤ) → lookup h ch.ring ≡ some n → lookup_or false n ch.physical_nodes ≡ true
    pub placed :
        (h : ℕ) (n : ℤ) → lookup h ch.ring ≡ some n → is_vnode md5 n ch.virtual_nodes 0 h ≡ true
    -- both maps hold a key once, and the set holds no `false`
    pub distinct : IsDistinct (keys ch.ring)
    pub distinct_nodes : IsDistinct (keys ch.physical_nodes)
    pub present : (n : ℤ) → lookup n ch.physical_nodes ≢ some false

  pub new-IsWellFormed : (n : ℤ) → IsWellFormed (new_consistent_hash n)
  unfolding new_consistent_hash lookup
  new-IsWellFormed n = record {
    sorted = tt;
    in_step = λ h. refl;
    members = λ h m e. cc;
    placed = λ h m e. cc;
    distinct = tt;
    distinct_nodes = tt;
    present = λ m e. cc;
  }

  module _ (n : ℤ) (ch : ConsistentHash) (fresh : lookup_or false n ch.physical_nodes ≡ false) where
    pub lookup-add_node :
        (h : ℕ)
        → lookup h (add_node md5 n ch).ring
          ≡ (if is_vnode md5 n ch.virtual_nodes 0 h then some n else lookup h ch.ring)
    unfolding add_node
    lookup-add_node h = rw fresh (lookup-add_vnodes md5 n ch.virtual_nodes 0 _ h)

    pub elem-add_node :
        (h : ℕ)
        → elem h (add_node md5 n ch).sorted_hashes
          ≡ (elem h ch.sorted_hashes || is_vnode md5 n ch.virtual_nodes 0 h)
    unfolding add_node
    elem-add_node h = rw fresh (elem-sort h _ ∙ elem-add_vnodes md5 n ch.virtual_nodes 0 _ h)

    pub add_node-frame :
        ((add_node md5 n ch).virtual_nodes ≡ ch.virtual_nodes)
        × ((add_node md5 n ch).physical_nodes ≡ insert n true ch.physical_nodes)
    unfolding add_node
    add_node-frame = rw fresh (add_vnodes-frame md5 n ch.virtual_nodes 0 _)

    add_node_fresh-IsWellFormed : IsWellFormed ch → IsWellFormed (add_node md5 n ch)
    unfolding lookup_or
    add_node_fresh-IsWellFormed v = record {
      sorted = unfold add_node in rw fresh (sort-IsSorted _);
      in_step = λ h. ground (arith, elem-add_node h, lookup-add_node h, v.in_step h);
      members = λ h m e. ground (
        arith,
        lookup-add_node h,
        add_node-frame.1,
        lookup-insert n m true ch.physical_nodes,
        ==_iff n m,
        v.members h m,
      );
      placed = λ h m e. ground (arith, lookup-add_node h, add_node-frame.0, v.placed h m);
      distinct =
          unfold add_node in rw fresh (add_vnodes-IsDistinct md5 n ch.virtual_nodes 0 _ v.distinct);
      distinct_nodes = rw add_node-frame.1 (insert-IsDistinct n true _ v.distinct_nodes);
      present = λ m e.
          ground (arith, add_node-frame.1, lookup-insert n m true ch.physical_nodes, v.present m);
    }

  -- AddNode keeps the ring well formed: the hashes stay sorted and in step with the map, and every
  -- hash is that of a virtual node of its owner, who is a member.
  pub add_node-IsWellFormed :
      (n : ℤ) (ch : ConsistentHash) → IsWellFormed ch → IsWellFormed (add_node md5 n ch)
  add_node-IsWellFormed n ch v = elim (Bool-cases (lookup_or false n ch.physical_nodes)) [
    | inl member ↦ unfold add_node in rw member v
    | inr fresh ↦ add_node_fresh-IsWellFormed n ch fresh v
  ]

  module _ (order : List ℕ → List ℕ) (visits : IsOrder order) (n : ℤ) (ch : ConsistentHash)
      (member : lookup_or false n ch.physical_nodes ≡ true) where
    pub lookup-remove_node :
        (h : ℕ)
        → lookup h (remove_node md5 order n ch).ring
          ≡ (if is_vnode md5 n ch.virtual_nodes 0 h then none else lookup h ch.ring)
    unfolding remove_node
    lookup-remove_node h = rw member (lookup-remove_vnodes md5 n ch.virtual_nodes 0 ch.ring h)

    pub elem-remove_node :
        (h : ℕ)
        → elem h (remove_node md5 order n ch).sorted_hashes
          ≡ is_some (lookup h (remove_node md5 order n ch).ring)
    unfolding remove_node
    elem-remove_node h = rw member (elem-sort h _ ∙ elem-order order visits h _ ∙ elem-keys h _)

    pub remove_node-frame :
        ((remove_node md5 order n ch).virtual_nodes ≡ ch.virtual_nodes)
        × ((remove_node md5 order n ch).physical_nodes ≡ delete n ch.physical_nodes)
    unfolding remove_node
    remove_node-frame = rw member (refl, refl)

    remove_node_member-IsWellFormed : IsWellFormed ch → IsWellFormed (remove_node md5 order n ch)
    unfolding lookup_or
    remove_node_member-IsWellFormed v = record {
      sorted = unfold remove_node in rw member (sort-IsSorted _);
      in_step = elem-remove_node;
      members = λ h m e. ground (
        arith,
        lookup-remove_node h,
        remove_node-frame.1,
        lookup-delete n m ch.physical_nodes,
        ==_iff n m,
        v.members h m,
        v.placed h m,
      );
      placed = λ h m e. ground (arith, lookup-remove_node h, remove_node-frame.0, v.placed h m);
      distinct =
          unfold remove_node in
          rw member (remove_vnodes-IsDistinct md5 n ch.virtual_nodes 0 _ v.distinct);
      distinct_nodes = rw remove_node-frame.1 (delete-IsDistinct n _ v.distinct_nodes);
      present = λ m e.
          ground (arith, remove_node-frame.1, lookup-delete n m ch.physical_nodes, v.present m);
    }

  -- RemoveNode keeps the ring well formed, in whatever order it visits what is left of the ring.
  pub remove_node-IsWellFormed :
      (order : List ℕ → List ℕ)
      → IsOrder order
      → (n : ℤ) (ch : ConsistentHash) → IsWellFormed ch
      → IsWellFormed (remove_node md5 order n ch)
  remove_node-IsWellFormed order visits n ch v =
      elim (Bool-cases (lookup_or false n ch.physical_nodes)) [
        | inl member ↦ remove_node_member-IsWellFormed order visits n ch member v
        | inr absent ↦ unfold remove_node in rw absent v
      ]

  -- What RemoveNode leaves does not depend on the order in which it visits the ring.
  pub remove_node-order :
      (order order' : List ℕ → List ℕ)
      → IsOrder order
      → IsOrder order'
      → (n : ℤ) (ch : ConsistentHash) → remove_node md5 order n ch ≡ remove_node md5 order' n ch
  unfolding remove_node
  remove_node-order order order' visits visits' n ch =
      rw
        (sort-Perm (hedberg ℕ_discrete)
          (visits (keys (remove_vnodes md5 n ch.virtual_nodes 0 ch.ring))))
        (rw (
          sort-Perm (hedberg ℕ_discrete)
            (visits' (keys (remove_vnodes md5 n ch.virtual_nodes 0 ch.ring)))))
