-- ===== src/Ring/Vnodes.antt =====
-- What the loops of AddNode and RemoveNode do to the ring, for one node's virtual nodes.
use dynamo_db.Prelude.{
  ℕ, zero, suc, ◌+◌, ◌≡◌, refl, String, Bool, false, ◌||◌, none, some, List, [], ◌∷◌, ◌++◌, ℤ,
  nat_key, ◌==◌, elem, elem-append, IsDistinct, arith, if◌then◌else◌,
}
use dynamo_db.GoMap.{
  GoMap, keys, lookup, insert, delete, lookup-insert, lookup-delete, insert-IsDistinct,
  delete-IsDistinct,
}
use dynamo_db.Ring.{ConsistentHash, vnode_hash, add_vnodes, remove_vnodes}

module _ (md5 : String → List ℕ) where
  -- `h` is the hash of a virtual node of `n`, from index `i`, `rounds` of them.
  unfoldable pub is_vnode : ℤ → ℕ → ℕ → ℕ → Bool
  is_vnode n zero i h = false
  is_vnode n (suc rounds) i h = vnode_hash md5 n i == h || is_vnode n rounds (i + 1) h

  pub lookup-add_vnodes :
      (n : ℤ) (rounds i : ℕ) (ch : ConsistentHash) (h : ℕ)
      → lookup h (add_vnodes md5 n rounds i ch).ring
        ≡ (if is_vnode n rounds i h then some n else lookup h ch.ring)
  unfolding is_vnode add_vnodes
  lookup-add_vnodes n zero i ch h = refl
  lookup-add_vnodes n (suc rounds) i ch h =
      let hash = vnode_hash md5 n i in
      ground (
        arith,
        lookup-add_vnodes n rounds (i + 1)
            (record ch {
              ring = insert hash n ch.ring;
              sorted_hashes = ch.sorted_hashes ++ hash ∷ [];
            })
            h,
        lookup-insert hash h n ch.ring,
      )

  pub elem-add_vnodes :
      (n : ℤ) (rounds i : ℕ) (ch : ConsistentHash) (h : ℕ)
      → elem h (add_vnodes md5 n rounds i ch).sorted_hashes
        ≡ (elem h ch.sorted_hashes || is_vnode n rounds i h)
  unfolding is_vnode add_vnodes
  elem-add_vnodes n zero i ch h = ground arith
  elem-add_vnodes n (suc rounds) i ch h =
      let hash = vnode_hash md5 n i in
      ground (
        arith,
        elem-add_vnodes n rounds (i + 1)
            (record ch {
              ring = insert hash n ch.ring;
              sorted_hashes = ch.sorted_hashes ++ hash ∷ [];
            })
            h,
        elem-append h ch.sorted_hashes (hash ∷ []),
      )

  pub add_vnodes-frame :
      (n : ℤ) (rounds i : ℕ) (ch : ConsistentHash)
      → ((add_vnodes md5 n rounds i ch).virtual_nodes ≡ ch.virtual_nodes)
        × ((add_vnodes md5 n rounds i ch).physical_nodes ≡ ch.physical_nodes)
  unfolding add_vnodes
  add_vnodes-frame n zero i ch = (refl, refl)
  add_vnodes-frame n (suc rounds) i ch = add_vnodes-frame n rounds (i + 1) _

  pub add_vnodes-IsDistinct :
      (n : ℤ) (rounds i : ℕ) (ch : ConsistentHash)
      → IsDistinct (keys ch.ring)
      → IsDistinct (keys (add_vnodes md5 n rounds i ch).ring)
  unfolding add_vnodes
  add_vnodes-IsDistinct n zero i ch d = d
  add_vnodes-IsDistinct n (suc rounds) i ch d =
      add_vnodes-IsDistinct n rounds (i + 1) _ (insert-IsDistinct (vnode_hash md5 n i) n ch.ring d)

  pub lookup-remove_vnodes :
      (n : ℤ) (rounds i : ℕ) (ring : GoMap ℕ ℤ) (h : ℕ)
      → lookup h (remove_vnodes md5 n rounds i ring)
        ≡ (if is_vnode n rounds i h then none else lookup h ring)
  unfolding is_vnode remove_vnodes
  lookup-remove_vnodes n zero i ring h = refl
  lookup-remove_vnodes n (suc rounds) i ring h =
      let hash = vnode_hash md5 n i in
      ground (
        arith,
        lookup-remove_vnodes n rounds (i + 1) (delete hash ring) h,
        lookup-delete hash h ring,
      )

  pub remove_vnodes-IsDistinct :
      (n : ℤ) (rounds i : ℕ) (ring : GoMap ℕ ℤ)
      → IsDistinct (keys ring)
      → IsDistinct (keys (remove_vnodes md5 n rounds i ring))
  unfolding remove_vnodes
  remove_vnodes-IsDistinct n zero i ring d = d
  remove_vnodes-IsDistinct n (suc rounds) i ring d =
      remove_vnodes-IsDistinct n rounds (i + 1) _ (delete-IsDistinct (vnode_hash md5 n i) ring d)
