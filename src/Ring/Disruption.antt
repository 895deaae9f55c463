-- ===== src/Ring/Disruption.antt =====
-- partition/consistent_hash.go: which keys a change of the membership moves.
use dynamo_db.Prelude.{
  ℕ, ◌≡◌, ◌≢◌, refl, sym, ◌∙◌, ◌⊎◌, inl, inr, String, true, false, none, some, List, arith, ℤ,
  nat_key, int_key, Bool-cases, ==_refl,
}
use dynamo_db.GoMap.{IsOrder, insert, lookup, lookup_or, lookup_or-insert}
use dynamo_db.Ring.{ConsistentHash, add_node, remove_node, get_node, hash_key}
use dynamo_db.Ring.Vnodes.{is_vnode}
use dynamo_db.Ring.Invariant.{
  IsWellFormed, add_node-IsWellFormed, remove_node-IsWellFormed, lookup-add_node, elem-add_node,
  lookup-remove_node, add_node-frame,
}
use dynamo_db.Ring.Lookup.{get_node-clockwise, IsOwnerAt-intro, get_node_congr}
use dynamo_db.Ring.Clockwise.{IsClockwise-subset}

module _ (md5 : String → List ℕ) where
  add_node_fresh-moves :
      (n : ℤ) (ch : ConsistentHash) (key : String)
      → IsWellFormed md5 ch
      → lookup_or false n ch.physical_nodes ≡ false
      → (get_node md5 key (add_node md5 n ch) ≡ get_node md5 key ch)
        ⊎ (get_node md5 key (add_node md5 n ch) ≡ some n)
  add_node_fresh-moves n ch key v fresh =
      elim (get_node-clockwise md5 (add_node md5 n ch) key (add_node-IsWellFormed md5 n ch v)) [
        | inl (missing, result) ↦ inl (elim (get_node-clockwise md5 ch key v) [
          | inl (_, result') ↦ result ∙ sym result'
          | inr (x, m, o) ↦ ground (arith, missing x, lookup-add_node md5 n ch fresh x, o.owned)
        ])
        | inr (x, m, o) ↦ elim (Bool-cases (is_vnode md5 n ch.virtual_nodes 0 x)) [
          | inl mine ↦ inr (ground (arith, o.result, o.owned, lookup-add_node md5 n ch fresh x))
          | inr old ↦ inl (
              o.result
              ∙ sym (
                  IsOwnerAt-intro md5 ch key x m v
                    (ground (arith, o.owned, lookup-add_node md5 n ch fresh x))
                    (IsClockwise-subset _ ch.sorted_hashes (hash_key md5 key) x
                      (λ y e. ground (arith, elem-add_node md5 n ch fresh y))
                      (ground (arith, elem-add_node md5 n ch fresh x, o.clockwise.on_ring))
                      o.clockwise)))
        ]
      ]

  -- Adding a node to a well-formed ring moves a key to the new node or not at all.
  pub add_node-moves :
      (n : ℤ) (ch : ConsistentHash) (key : String)
      → IsWellFormed md5 ch
      → (get_node md5 key (add_node md5 n ch) ≡ get_node md5 key ch)
        ⊎ (get_node md5 key (add_node md5 n ch) ≡ some n)
  add_node-moves n ch key v = elim (Bool-cases (lookup_or false n ch.physical_nodes)) [
    | inl member ↦ inl (unfold add_node in rw member refl)
    | inr fresh ↦ add_node_fresh-moves n ch key v fresh
  ]

  -- The node's virtual nodes are all on the ring under its own name: none was taken over by a node
  -- with the same hash.
  abbrev pub OwnsItsHashes : ℤ → ConsistentHash → Type 0
  OwnsItsHashes n ch =
      (h : ℕ) → is_vnode md5 n ch.virtual_nodes 0 h ≡ true → lookup h ch.ring ≡ some n

  module _ (order : List ℕ → List ℕ) (visits : IsOrder order) where
    remove_member-keeps :
        (n m : ℤ) (ch : ConsistentHash) (key : String)
        → IsWellFormed md5 ch
        → OwnsItsHashes n ch
        → n ≢ m
        → get_node md5 key ch ≡ some m
        → lookup_or false n ch.physical_nodes ≡ true
        → get_node md5 key (remove_node md5 order n ch) ≡ some m
    remove_member-keeps n m ch key v owns other e member = elim (get_node-clockwise md5 ch key v) [
      | inl (missing, result) ↦ elim (get_node-clockwise md5 smaller key v') [
        | inl (_, result') ↦ result' ∙ sym result ∙ e
        | inr (x, k, o) ↦ cc (o.owned, gone x missing)
      ]
      | inr (x, k, o) ↦
          let stays = kept x k o.owned (cc (o.result, e)) in
          IsOwnerAt-intro md5 smaller key x m v' (stays ∙ cc (o.owned, o.result, e)) (
            IsClockwise-subset ch.sorted_hashes _ (hash_key md5 key) x
              (λ y on. ground (
                arith,
                v.in_step y,
                v'.in_step y,
                lookup-remove_node md5 order visits n ch member y,
              ))
              (ground (arith, v'.in_step x, stays, o.owned)) o.clockwise)
    ]
      where
        smaller : ConsistentHash
        smaller = remove_node md5 order n ch

        v' : IsWellFormed md5 smaller
        v' = remove_node-IsWellFormed md5 order visits n ch v

        gone : (x : ℕ) → ((h : ℕ) → lookup h ch.ring ≡ none) → lookup x smaller.ring ≡ none
        gone x missing =
            ground (arith, lookup-remove_node md5 order visits n ch member x, missing x)

        kept :
            (x : ℕ) (k : ℤ)
            → lookup x ch.ring ≡ some k
            → k ≡ m
            → lookup x smaller.ring ≡ lookup x ch.ring
        kept x k owned same =
            ground (arith, lookup-remove_node md5 order visits n ch member x, owns x, other)

    -- Removing a node, whose virtual nodes are all on the well-formed ring under its own name,
    -- moves no key that another node owns.
    pub remove_node-keeps :
        (n m : ℤ) (ch : ConsistentHash) (key : String)
        → IsWellFormed md5 ch
        → OwnsItsHashes n ch
        → n ≢ m
        → get_node md5 key ch ≡ some m
        → get_node md5 key (remove_node md5 order n ch) ≡ some m
    remove_node-keeps n m ch key v owns other e =
        elim (Bool-cases (lookup_or false n ch.physical_nodes)) [
          | inl member ↦ remove_member-keeps n m ch key v owns other e member
          | inr absent ↦ unfold remove_node in rw absent e
        ]

    -- Removing a node that was just added to a well-formed ring puts every key back where it was,
    -- if the node was no member before and none of its hashes was on the ring.
    pub remove_node-add_node :
        (n : ℤ) (ch : ConsistentHash) (key : String)
        → IsWellFormed md5 ch
        → lookup_or false n ch.physical_nodes ≡ false
        → ((h : ℕ) → is_vnode md5 n ch.virtual_nodes 0 h ≡ true → lookup h ch.ring ≡ none)
        → get_node md5 key (remove_node md5 order n (add_node md5 n ch)) ≡ get_node md5 key ch
    remove_node-add_node n ch key v fresh apart =
        get_node_congr md5 ch _ key v
          (remove_node-IsWellFormed md5 order visits n _ (add_node-IsWellFormed md5 n ch v))
          λ h. ground (
            arith,
            lookup-remove_node md5 order visits n (add_node md5 n ch) member h,
            lookup-add_node md5 n ch fresh h,
            frame.0,
            apart h,
          )
      where
        frame :
            ((add_node md5 n ch).virtual_nodes ≡ ch.virtual_nodes)
            × ((add_node md5 n ch).physical_nodes ≡ insert n true ch.physical_nodes)
        frame = add_node-frame md5 n ch fresh

        member : lookup_or false n (add_node md5 n ch).physical_nodes ≡ true
        member =
            ground (arith, frame.1, lookup_or-insert false n n true ch.physical_nodes, ==_refl n)
