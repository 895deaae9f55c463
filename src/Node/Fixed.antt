-- ===== src/Node/Fixed.antt =====
-- node/rpc_handlers.go: what Put, Get and Delete leave alone at every node.
use dynamo_db.Prelude.{
  ℕ, ◌≡◌, refl, ◌∙◌, String, true, some, List, [], ◌∷◌, arith, ℤ, int_key, ==_iff, Option-cases,
  Bool-cases, inl, inr,
}
use dynamo_db.GoMap.{lookup, insert}
use dynamo_db.Manager.{PartitionManager}
use dynamo_db.Node.{Node, Config, get_node_address, increment_clock, update_clock}
use dynamo_db.Node.Storage.{
  PutArgs, PutReply, DeleteArgs, DeleteReply, GetArgs, Network, Cluster, put_local, put_replica,
  call_put, replicate, delete_local, delete_replica, propagate_delete, propagate_all, target_nodes,
  replicate_to_partition_nodes, put, get, delete_key,
}
use dynamo_db.Node.Rpc.{view, view-insert, view-eq-some}

-- What is set when a node starts and stays.
pub record Fixed : Type 0 where
  pub id : ℤ
  pub config : Config
  pub partition_mgr : PartitionManager

abbrev pub fixed : Node → Fixed
fixed n = record { id = n.id; config = n.config; partition_mgr = n.partition_mgr }

module _ {A : Type 0} (part : Node → A) (j : ℤ) where
  -- A node of the cluster is replaced by one with the same part.
  pub replace-keeps :
      (id : ℤ) (n m : Node) (cluster : Cluster)
      → lookup id cluster ≡ some n
      → part m ≡ part n
      → view part j (insert id m cluster) ≡ view part j cluster
  replace-keeps id n m cluster here same = ground (
    arith,
    view-insert part j id m cluster,
    view-eq-some part id n cluster here,
    same,
    ==_iff id j,
  )

  module _ (puts : (args : PutArgs) (n : Node) → part (put_local args n) ≡ part n) where
    call_put-keeps :
        (net : Network) (at : String) (args : PutArgs) (cluster : Cluster)
        → view part j (call_put net at args cluster).0 ≡ view part j cluster
    unfolding call_put put_replica
    call_put-keeps net at args cluster = elim (Option-cases (net.listener at)) [
      | inl nobody ↦ ground (arith, nobody)
      | inr (peer, listens) ↦ elim (Option-cases (lookup peer cluster)) [
        | inl gone ↦ ground (arith, listens, gone)
        | inr (n, e) ↦
            ground
              (arith, listens, e, replace-keeps peer n (put_local args n) cluster e (puts args n))
      ]
    ]

    pub replicate-keeps :
        (net : Network) (n : Node) (args : PutArgs) (targets : List ℤ) (cluster : Cluster)
        → view part j (replicate net n args targets cluster).0 ≡ view part j cluster
    unfolding replicate
    replicate-keeps net n args [] cluster = refl
    replicate-keeps net n args (node_id ∷ targets) cluster =
        replicate-keeps net n args targets
          (call_put net (get_node_address node_id n) args cluster).0
        ∙ call_put-keeps net (get_node_address node_id n) args cluster

    pub replicate_to_partition_nodes-keeps :
        (md5 : String → List ℕ) (net : Network) (n : Node) (args : PutArgs)
        (cluster final : Cluster) (results : List String)
        → replicate_to_partition_nodes md5 net n args cluster ≡ some (final, results)
        → view part j final ≡ view part j cluster
    unfolding replicate_to_partition_nodes
    replicate_to_partition_nodes-keeps md5 net n args cluster final results e =
        elim (Option-cases (target_nodes md5 args.key n)) [
          | inl panics ↦ ground (arith, panics, e)
          | inr (targets, f) ↦ ground (
            arith,
            f,
            e,
            replicate-keeps net n (record args { is_replica = true }) targets cluster,
          )
        ]

    pub put-keeps :
        (md5 : String → List ℕ) (net : Network) (args : PutArgs) (n : Node)
        (cluster final : Cluster) (reply : PutReply)
        → lookup n.id cluster ≡ some n
        → put md5 net args n cluster ≡ some (final, reply)
        → view part j final ≡ view part j cluster
    unfolding put
    put-keeps md5 net args n cluster final reply here e =
        let after = put_local args n in
        let stored = insert n.id after cluster in
        let kept = replace-keeps n.id n after cluster here (puts args n) in
        elim (Bool-cases args.is_replica) [
          | inl replica ↦ ground (arith, replica, e, kept)
          | inr client ↦
              elim (Option-cases (replicate_to_partition_nodes md5 net after args stored)) [
                | inl panics ↦ ground (arith, client, panics, e)
                | inr ((last, results), f) ↦ ground (
                  arith,
                  client,
                  f,
                  e,
                  kept,
                  replicate_to_partition_nodes-keeps md5 net after args stored last results f,
                )
              ]
        ]

  module _ (deletes : (args : DeleteArgs) (n : Node) → part (delete_local args n).0 ≡ part n) where
    pub propagate_delete-keeps :
        (net : Network) (n : Node) (args : DeleteArgs) (node_id : ℤ) (cluster : Cluster)
        → view part j (propagate_delete net n args node_id cluster) ≡ view part j cluster
    unfolding propagate_delete delete_replica
    propagate_delete-keeps net n args node_id cluster =
        elim (Option-cases (net.listener (get_node_address node_id n))) [
          | inl nobody ↦ ground (arith, nobody)
          | inr (peer, listens) ↦ elim (Option-cases (lookup peer cluster)) [
            | inl gone ↦ ground (arith, listens, gone)
            | inr (m, e) ↦
                let sent = record args { is_replica = true } in
                ground (
                  arith,
                  listens,
                  e,
                  replace-keeps peer m (delete_local sent m).0 cluster e (deletes sent m),
                )
          ]
        ]

    propagate_all-keeps :
        (net : Network) (n : Node) (args : DeleteArgs) (targets : List ℤ) (cluster : Cluster)
        → view part j (propagate_all net n args targets cluster) ≡ view part j cluster
    unfolding propagate_all
    propagate_all-keeps net n args [] cluster = refl
    propagate_all-keeps net n args (node_id ∷ targets) cluster =
        propagate_all-keeps net n args targets (propagate_delete net n args node_id cluster)
        ∙ propagate_delete-keeps net n args node_id cluster

    pub delete_key-keeps :
        (md5 : String → List ℕ) (net : Network) (order : List ℤ → List ℤ) (args : DeleteArgs)
        (n : Node) (cluster final : Cluster) (reply : DeleteReply)
        → lookup n.id cluster ≡ some n
        → delete_key md5 net order args n cluster ≡ some (final, reply)
        → view part j final ≡ view part j cluster
    unfolding delete_key
    delete_key-keeps md5 net order args n cluster final reply here e =
        let after = (delete_local args n).0 in
        let stored = insert n.id after cluster in
        let kept = replace-keeps n.id n after cluster here (deletes args n) in
        elim (Bool-cases args.is_replica) [
          | inl replica ↦ ground (arith, replica, e, kept)
          | inr client ↦ elim (Bool-cases (delete_local args n).1) [
            | inl found ↦ elim (Option-cases (target_nodes md5 args.key n)) [
              | inl panics ↦ ground (arith, client, found, panics, e)
              | inr (targets, f) ↦ ground (
                arith,
                client,
                found,
                f,
                e,
                kept,
                propagate_all-keeps net after args (order targets) stored,
              )
            ]
            | inr missing ↦ ground (arith, client, missing, e, kept)
          ]
        ]

pub put_local-fixed : (args : PutArgs) (n : Node) → fixed (put_local args n) ≡ fixed n
unfolding put_local update_clock
put_local-fixed args n = refl

pub delete_local-fixed : (args : DeleteArgs) (n : Node) → fixed (delete_local args n).0 ≡ fixed n
unfolding delete_local update_clock
delete_local-fixed args n = refl

pub get-fixed : (args : GetArgs) (n : Node) → fixed (get args n).0 ≡ fixed n
unfolding get increment_clock
get-fixed args n = refl
