-- ===== src/Node/Deletion.antt =====
-- node/rpc_handlers.go: which nodes of the cluster have lost a key after a Delete.
use mathlib.Core.Logic.{∥∥₁_elim}
use mathlib.Core.List.{Permᴰ}
use dynamo_db.Prelude.{
  ℕ, ◌≡◌, refl, ◌∙◌, sym, String, true, false, ◌&&◌, ◌||◌, none, some, List, [], ◌∷◌, arith, ℤ,
  int_key, text_key, ◌==◌, ==_iff, Option-cases, Bool-cases, inl, inr, if◌then◌else◌,
}
use dynamo_db.GoMap.{IsOrder, lookup, insert, lookup-insert, lookup-delete, is_some, Bool-IsSet}
use dynamo_db.Manager.Valid.{IsValid}
use dynamo_db.Node.{Node, update_clock, get_node_address}
use dynamo_db.Node.Storage.{
  about, DeleteArgs, DeleteReply, Network, Cluster, delete_local, delete_replica, propagate_delete,
  propagate_all, target_nodes, delete_key, begin_delete,
}
use dynamo_db.Node.Replication.{stored, executed_on, reached, target_nodes_total}

reached-Permᴰ :
    (net : Network) (n : Node) (j : ℤ) {xs ys : List ℤ}
    → Permᴰ xs ys
    → reached net n j xs ≡ reached net n j ys
unfolding reached
reached-Permᴰ net n j Permᴰ.nil = refl
reached-Permᴰ net n j (Permᴰ.cons e p) = rw (e, reached-Permᴰ net n j p)
reached-Permᴰ net n j (Permᴰ.swap {l} e e') = rw (e, e') (ground arith)
reached-Permᴰ net n j (Permᴰ.trans p q) = reached-Permᴰ net n j p ∙ reached-Permᴰ net n j q

pub reached-order :
    (net : Network) (n : Node) (j : ℤ) (order : List ℤ → List ℤ)
    → IsOrder order
    → (targets : List ℤ) → reached net n j (order targets) ≡ reached net n j targets
reached-order net n j order visits targets =
    ∥∥₁_elim (visits targets) (Bool-IsSet _ _) (reached-Permᴰ net n j)

pub stored-delete :
    (peer j : ℤ) (args : DeleteArgs) (n : Node) (cluster : Cluster) (k : String)
    → lookup peer cluster ≡ some n
    → stored (insert peer (delete_local args n).0 cluster) j k
      ≡ (if peer == j && args.key == k then none else stored cluster j k)
unfolding stored delete_local update_clock
stored-delete peer j args n cluster k e = ground (
  arith,
  e,
  ==_iff peer j,
  lookup-insert peer j (delete_local args n).0 cluster,
  lookup-delete args.key k n.data_store,
)

stored-missing :
    (peer j : ℤ) (cluster : Cluster) (k : String)
    → lookup peer cluster ≡ none
    → (peer == j) ≡ true
    → stored cluster j k ≡ none
unfolding stored
stored-missing peer j cluster k gone same = ground (arith, gone, ==_iff peer j)

pub stored-delete_missing :
    (args : DeleteArgs) (n : Node) (cluster : Cluster) (j : ℤ) (k : String)
    → lookup n.id cluster ≡ some n
    → is_some (lookup args.key n.data_store) ≡ false
    → stored (insert n.id (delete_local args n).0 cluster) j k ≡ stored cluster j k
unfolding stored
stored-delete_missing args n cluster j k here missing =
    ground
      (arith, stored-delete n.id j args n cluster k here, ==_iff n.id j, ==_iff args.key k, here)

pub propagate_delete_lem :
    (net : Network) (n : Node) (args : DeleteArgs) (node_id : ℤ) (cluster : Cluster) (j : ℤ)
    (k : String)
    → stored (propagate_delete net n args node_id cluster) j k ≡ (
        if executed_on net (get_node_address node_id n) j && args.key == k
        then none
        else stored cluster j k)
unfolding propagate_delete executed_on delete_replica delete_local update_clock
propagate_delete_lem net n args node_id cluster j k =
    let at = get_node_address node_id n in
    elim (Option-cases (net.listener at)) [
      | inl nobody ↦ ground (arith, nobody)
      | inr (peer, listens) ↦ elim (Option-cases (lookup peer cluster)) [
        | inl gone ↦ ground (arith, listens, stored-missing peer j cluster k gone)
        | inr (m, e) ↦ ground (
          arith,
          listens,
          e,
          stored-delete peer j (record args { is_replica = true }) m cluster k e,
        )
      ]
    ]

propagate_all-erases :
    (net : Network) (n : Node) (args : DeleteArgs) (targets : List ℤ) (cluster : Cluster) (j : ℤ)
    (k : String)
    → stored (propagate_all net n args targets cluster) j k
      ≡ (if reached net n j targets && args.key == k then none else stored cluster j k)
unfolding propagate_all reached
propagate_all-erases net n args [] cluster j k = ground arith
propagate_all-erases net n args (node_id ∷ targets) cluster j k = ground (
  arith,
  propagate_delete_lem net n args node_id cluster j k,
  propagate_all-erases net n args targets (propagate_delete net n args node_id cluster) j k,
)

pub reached-delete_local :
    (net : Network) (args : DeleteArgs) (n : Node) (j : ℤ) (targets : List ℤ)
    → reached net (delete_local args n).0 j targets ≡ reached net n j targets
unfolding delete_local update_clock get_node_address reached
reached-delete_local net args n j [] = refl
reached-delete_local net args n j (node_id ∷ targets) =
    rw (reached-delete_local net args n j targets) refl

abbrev after_delete : Network → (List ℤ → List ℤ) → DeleteArgs → Node → Cluster → List ℤ → Cluster
after_delete net order args n cluster targets =
    let after = (delete_local args n).0 in
    propagate_all net after args (order targets) (insert n.id after cluster)

abbrev deleted_reply : DeleteArgs → Node → DeleteReply
deleted_reply args n = record {
  success = true;
  message = about "Deleted key " args.key " from Node " n.id;
}

abbrev not_found_reply : DeleteArgs → Node → DeleteReply
not_found_reply args n = record {
  success = false;
  message = about "Key " args.key " not found on Node " n.id;
}

delete_key-found :
    (md5 : String → List ℕ) (net : Network) (order : List ℤ → List ℤ) (args : DeleteArgs) (n : Node)
    (cluster : Cluster) (targets : List ℤ)
    → args.is_replica ≡ false
    → is_some (lookup args.key n.data_store) ≡ true
    → target_nodes md5 args.key n ≡ some targets
    → delete_key md5 net order args n cluster
      ≡ some (after_delete net order args n cluster targets, deleted_reply args n)
unfolding delete_key delete_local update_clock
delete_key-found md5 net order args n cluster targets client found e =
    ground (arith, client, found, e)

delete_key-missing :
    (md5 : String → List ℕ) (net : Network) (order : List ℤ → List ℤ) (args : DeleteArgs) (n : Node)
    (cluster : Cluster)
    → args.is_replica ≡ false
    → is_some (lookup args.key n.data_store) ≡ false
    → delete_key md5 net order args n cluster
      ≡ some (insert n.id (delete_local args n).0 cluster, not_found_reply args n)
unfolding delete_key delete_local update_clock
delete_key-missing md5 net order args n cluster client missing = ground (arith, client, missing)

-- A Delete by a client at a node of the cluster, whose partition manager is valid, returns, and
-- with success exactly where the node itself has the key. Then, in whatever order the goroutines
-- run, it and every node on which one of the calls to its targets was executed have lost the key;
-- without success, no node has. Nothing else is changed in any store.
pub delete_key-erases :
    (md5 : String → List ℕ) (net : Network) (order : List ℤ → List ℤ) (args : DeleteArgs) (n : Node)
    (cluster : Cluster)
    → IsOrder order
    → IsValid md5 n.partition_mgr
    → lookup n.id cluster ≡ some n
    → args.is_replica ≡ false
    → (targets : List ℤ) × (final : Cluster) × (reply : DeleteReply) × (target_nodes md5 args.key n
        ≡ some targets)
      × (delete_key md5 net order args n cluster ≡ some (final, reply))
      × (reply.success ≡ is_some (lookup args.key n.data_store))
      × ((j : ℤ) (k : String)
          → stored final j k ≡ (
              if (reply.success && (n.id == j || reached net n j targets)) && args.key == k
              then none
              else stored cluster j k))
delete_key-erases md5 net order args n cluster visits v here client =
    let (targets, e) = target_nodes_total md5 args.key n v in
    let after = (delete_local args n).0 in
    elim (Bool-cases (is_some (lookup args.key n.data_store))) [
      | inl found ↦ (
        targets,
        after_delete net order args n cluster targets,
        deleted_reply args n,
        e,
        delete_key-found md5 net order args n cluster targets client found e,
        sym found,
        λ j k. ground (
          arith,
          propagate_all-erases net after args (order targets) (insert n.id after cluster) j k,
          reached-delete_local net args n j (order targets),
          reached-order net n j order visits targets,
          stored-delete n.id j args n cluster k here,
        ),
      )
      | inr missing ↦ (
        targets,
        insert n.id after cluster,
        not_found_reply args n,
        e,
        delete_key-missing md5 net order args n cluster client missing,
        sym missing,
        λ j k. stored-delete_missing args n cluster j k here missing,
      )
    ]

-- A Delete is its start, with its goroutines after it.
delete_key-begin_delete :
    (md5 : String → List ℕ) (net : Network) (order : List ℤ → List ℤ) (args : DeleteArgs) (n : Node)
    (cluster : Cluster)
    → order [] ≡ []
    → delete_key md5 net order args n cluster ≡ elim (begin_delete md5 args n cluster) [
      | none ↦ none
      | some (started, reply, targets) ↦
          some (propagate_all net (delete_local args n).0 args (order targets) started, reply)
    ]
unfolding delete_key begin_delete propagate_all
delete_key-begin_delete md5 net order args n cluster still = elim (Bool-cases args.is_replica) [
  | inl replica ↦ ground (arith, replica, still)
  | inr client ↦ elim (Option-cases (target_nodes md5 args.key n)) [
    | inl panics ↦ ground (arith, client, panics, still)
    | inr (targets, e) ↦ ground (arith, client, e, still)
  ]
]
