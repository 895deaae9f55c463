-- ===== src/Replicas/Pending.antt =====
-- node/rpc_handlers.go: what is stored once the pending goroutines of Delete have run.
use dynamo_db.Prelude.{
  ℕ, zero, suc, ◌≡◌, refl, ◌∙◌, sym, String, Bool, true, false, ◌&&◌, ◌||◌, none, some, inl, inr,
  Bool-cases, List, [], ◌∷◌, arith, ℤ, int_key, text_key, ◌==◌, if◌then◌else◌,
}
use dynamo_db.Node.{Node, update_clock, get_node_address}
use dynamo_db.Node.Rpc.{view}
use dynamo_db.Manager.Valid.{IsValid}
use dynamo_db.GoMap.{lookup, insert, is_some}
use dynamo_db.Node.Fixed.{fixed, delete_local-fixed, propagate_delete-keeps, replace-keeps}
use dynamo_db.Node.Storage.{
  DeleteArgs, DeleteReply, Network, Cluster, about, begin_delete, delete_local, target_nodes,
}
use dynamo_db.Node.Replication.{stored, executed_on, reached, target_nodes_total}
use dynamo_db.Node.Deletion.{propagate_delete_lem, stored-delete, reached-delete_local}
use dynamo_db.Replicas.{
  Propagation, propagations, join_pending, is_pending, finish, finish_at, finish_all,
}

module _ (net : Network) where
  -- Whether a pending goroutine deletes the key of the node.
  unfoldable pub erased : List Propagation → ℤ → String → Bool
  erased [] j k = false
  erased (p ∷ pending) j k =
      executed_on net (get_node_address p.target p.node) j && p.args.key == k || erased pending j k

  pub finish_all_lem :
      (pending : List Propagation) (cluster : Cluster) (j : ℤ) (k : String)
      → stored (finish_all net pending cluster) j k
        ≡ (if erased pending j k then none else stored cluster j k)
  unfolding finish_all erased
  finish_all_lem [] cluster j k = refl
  finish_all_lem (p ∷ pending) cluster j k = ground (
    arith,
    finish_all_lem pending (finish net p cluster) j k,
    propagate_delete_lem net p.node p.args p.target cluster j k,
  )

  -- A goroutine that runs leaves what is stored once all have run.
  pub finish_at-finish_all :
      (i : ℕ) (pending : List Propagation) (cluster : Cluster) (j : ℤ) (k : String)
      → let s = finish_at net i pending cluster in
        (if erased s.pending j k then none else stored s.cluster j k)
        ≡ (if erased pending j k then none else stored cluster j k)
  unfolding finish_at erased
  finish_at-finish_all i [] cluster j k = refl
  finish_at-finish_all zero (p ∷ pending) cluster j k =
      ground (arith, propagate_delete_lem net p.node p.args p.target cluster j k)
  finish_at-finish_all (suc i) (p ∷ pending) cluster j k =
      ground (arith, finish_at-finish_all i pending cluster j k)

  pub erased-is_pending :
      (pending : List Propagation) (j : ℤ) (k : String)
      → is_pending k pending ≡ false
      → erased pending j k ≡ false
  unfolding is_pending erased
  erased-is_pending [] j k quiet = refl
  erased-is_pending (p ∷ pending) j k quiet = ground (arith, quiet, erased-is_pending pending j k)

  pub erased-join_pending :
      (pending more : List Propagation) (j : ℤ) (k : String)
      → erased (join_pending pending more) j k ≡ (erased pending j k || erased more j k)
  unfolding join_pending erased
  erased-join_pending [] more j k = refl
  erased-join_pending (p ∷ pending) more j k = ground (arith, erased-join_pending pending more j k)

  pub erased-propagations :
      (n : Node) (args : DeleteArgs) (targets : List ℤ) (j : ℤ) (k : String)
      → erased (propagations n args targets) j k ≡ (reached net n j targets && args.key == k)
  unfolding propagations erased reached
  erased-propagations n args [] j k = refl
  erased-propagations n args (target ∷ targets) j k =
      ground (arith, erased-propagations n args targets j k)

  -- A Delete by a client at a node of the cluster, whose partition manager is valid, replies with
  -- whether the node has the key, deletes it there, and has goroutines for the targets if so.
  pub begin_delete-starts :
      (md5 : String → List ℕ) (args : DeleteArgs) (n : Node) (cluster : Cluster)
      → IsValid md5 n.partition_mgr
      → lookup n.id cluster ≡ some n
      → args.is_replica ≡ false
      → (targets : List ℤ) × (after : Cluster) × (reply : DeleteReply) × (begin_delete md5 args n
            cluster
          ≡ some (after, reply, targets))
        × (reply.success ≡ is_some (lookup args.key n.data_store))
        × (is_some (lookup args.key n.data_store) ≡ true
            → target_nodes md5 args.key n ≡ some targets)
        × ((j : ℤ) (k : String)
            → (stored after j k ≡ (if n.id == j && args.key == k then none else stored cluster j k))
              × (erased (propagations (delete_local args n).0 args targets) j k ≡ (
                  is_some (lookup args.key n.data_store)
                  && reached net n j targets
                  && args.key == k)))
  unfolding begin_delete delete_local update_clock erased propagations
  begin_delete-starts md5 args n cluster valid here client =
      let (targets, e) = target_nodes_total md5 args.key n valid in
      elim (Bool-cases (is_some (lookup args.key n.data_store))) [
        | inl has ↦ (
          targets,
          insert n.id (delete_local args n).0 cluster,
          record { success = true; message = about "Deleted key " args.key " from Node " n.id },
          ground (arith, client, has, e),
          sym has,
          λ _. e,
          λ j k. (
            stored-delete n.id j args n cluster k here,
            erased-propagations (delete_local args n).0 args targets j k
                ∙ ground (arith, has, reached-delete_local net args n j targets),
          ),
        )
        | inr lacks ↦ (
          [],
          insert n.id (delete_local args n).0 cluster,
          record { success = false; message = about "Key " args.key " not found on Node " n.id },
          ground (arith, client, lacks),
          sym lacks,
          λ has. absurd (ground (arith, has, lacks)),
          λ j k. (stored-delete n.id j args n cluster k here, ground (arith, lacks)),
        )
      ]

  pub begin_delete-fixed :
      (md5 : String → List ℕ) (args : DeleteArgs) (n : Node) (cluster after : Cluster)
      (reply : DeleteReply) (targets : List ℤ)
      → lookup n.id cluster ≡ some n
      → begin_delete md5 args n cluster ≡ some (after, reply, targets)
      → (j : ℤ) → view fixed j after ≡ view fixed j cluster
  unfolding begin_delete
  begin_delete-fixed md5 args n cluster after reply targets here e j =
      let kept =
        replace-keeps fixed j n.id n (delete_local args n).0 cluster here
          (delete_local-fixed args n) in
      ground (arith, kept, e)

  pub finish_at-fixed :
      (i : ℕ) (pending : List Propagation) (cluster : Cluster) (j : ℤ)
      → view fixed j (finish_at net i pending cluster).cluster ≡ view fixed j cluster
  unfolding finish_at
  finish_at-fixed i [] cluster j = refl
  finish_at-fixed zero (p ∷ pending) cluster j =
      propagate_delete-keeps fixed j delete_local-fixed net p.node p.args p.target cluster
  finish_at-fixed (suc i) (p ∷ pending) cluster j = finish_at-fixed i pending cluster j
