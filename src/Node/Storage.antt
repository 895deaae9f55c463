-- ===== src/Node/Storage.antt =====
-- node/rpc_handlers.go: Put, Get and Delete, with the calls that they make to other nodes.
--
-- `Network` is what the package net/rpc does in one handler: which node listens at an address
-- (`none`: Dial fails), whether a call is executed there, and whether its answer comes back. Other
-- handlers run before or after, not in between.
use dynamo_db.Prelude.{
  ℕ, String, text_append, Bool, true, false, Option, none, some, List, [], ◌∷◌, ℤ, pos, int_key,
  text_key, ◌==◌, show, if◌then◌else◌,
}
use dynamo_db.GoMap.{GoMap, lookup, insert, delete, is_some}
use dynamo_db.Manager.{is_enabled, get_partition_owners}
use dynamo_db.Node.{Node, increment_clock, update_clock, get_node_address, get_other_nodes}

pub record PutArgs : Type 0 where
  pub key : String
  pub value : List ℕ
  pub timestamp : ℤ
  pub is_replica : Bool

pub record PutReply : Type 0 where
  pub success : Bool
  pub message : String
  pub replicated : Bool

pub record GetArgs : Type 0 where
  pub key : String

pub record GetReply : Type 0 where
  pub value : List ℕ
  pub found : Bool
  pub timestamp : ℤ
  pub message : String

pub record DeleteArgs : Type 0 where
  pub key : String
  pub timestamp : ℤ
  pub is_replica : Bool

pub record DeleteReply : Type 0 where
  pub success : Bool
  pub message : String

-- What becomes of a call on a connection.
pub record Network : Type 0 where
  pub listener : String → Option ℤ
  pub executes : String → Bool
  pub answers : String → Bool

-- The nodes of the cluster by their IDs.
abbrev pub Cluster : Type 0
Cluster = GoMap ℤ Node

-- fmt.Sprintf("%s'%s'%s%d", before, key, middle, id)
abbrev pub about : String → String → String → ℤ → String
about before key middle id =
    text_append before
      (text_append "'" (text_append key (text_append "'" (text_append middle (show id)))))

-- strings.Join(parts, ", ")
unfoldable pub join : List String → String
join [] = ""
join (part ∷ []) = part
join (part ∷ next ∷ parts) = text_append part (text_append ", " (join (next ∷ parts)))

-- The part of Put that the node does on its own: the clock and the store.
unfoldable pub put_local : PutArgs → Node → Node
put_local args n =
    let (clocked, time) = update_clock args.timestamp n in
    record clocked {
      data_store =
          insert args.key (record { value = args.value; timestamp = args.timestamp })
            clocked.data_store;
    }

-- The handler, for a call with `IsReplica`: it calls no other node.
unfoldable pub put_replica : PutArgs → Node → Node × PutReply
put_replica args n = (
  put_local args n,
  record {
    success = true;
    message = about "Replicated key " args.key " on Node " n.id;
    replicated = false;
  },
)

-- `rpc.Dial`, `client.Call("Node.Put", …)` with `IsReplica`: the cluster after it, and whether
-- there was no error.
unfoldable pub call_put : Network → String → PutArgs → Cluster → Cluster × Bool
call_put net at args cluster = elim (net.listener at) [
  | none ↦ (cluster, false)
  | some peer ↦ elim (lookup peer cluster) [
    | none ↦ (cluster, false)
    | some n ↦ (
      (if net.executes at then insert peer (put_replica args n).0 cluster else cluster),
      (if net.executes at then net.answers at else false),
    )
  ]
]

unfoldable pub result_line : ℤ → Bool → String
result_line node_id ok =
    text_append "Node " (text_append (show node_id) (if ok then " (ok)" else " (failed)"))

-- The loop over the targets of replicateToPartitionNodes. `n` is the calling node.
unfoldable pub replicate : Network → Node → PutArgs → List ℤ → Cluster → Cluster × List String
replicate net n args [] cluster = (cluster, [])
replicate net n args (node_id ∷ targets) cluster =
    let (after, ok) = call_put net (get_node_address node_id n) args cluster in
    let (final, results) = replicate net n args targets after in
    (final, result_line node_id ok ∷ results)

-- `if nodeID != n.ID { targetNodes = append(targetNodes, nodeID) }`
unfoldable pub others : ℤ → List ℤ → List ℤ
others id [] = []
others id (node_id ∷ owners) =
    let rest = others id owners in if node_id == id then rest else node_id ∷ rest

unfoldable pub get_reply : GetArgs → Node → GetReply
get_reply args n = elim (lookup args.key n.data_store) [
  | none ↦ record {
    value = [];
    found = false;
    timestamp = pos 0;
    message = about "Key " args.key " not found on Node " n.id;
  }
  | some item ↦ record {
    value = item.value;
    found = true;
    timestamp = item.timestamp;
    message = about "Found key " args.key " on Node " n.id;
  }
]

unfoldable pub get : GetArgs → Node → Node × GetReply
get args n = ((increment_clock n).0, get_reply args n)

-- The part of Delete that the node does on its own, and whether the key was there.
unfoldable pub delete_local : DeleteArgs → Node → Node × Bool
delete_local args n =
    let (clocked, time) = update_clock args.timestamp n in
    (
      record clocked { data_store = delete args.key clocked.data_store },
      is_some (lookup args.key n.data_store),
    )

unfoldable pub delete_replica : DeleteArgs → Node → Node × DeleteReply
delete_replica args n =
    let (after, found) = delete_local args n in
    (
      after,
      record {
        success = found;
        message = text_append (about "Deleted key " args.key " from Node " n.id) " (replica)";
      },
    )

-- propagateDelete, in its own goroutine: the handler does not wait for it and drops its result.
unfoldable pub propagate_delete : Network → Node → DeleteArgs → ℤ → Cluster → Cluster
propagate_delete net n args node_id cluster =
    let at = get_node_address node_id n in
    elim (net.listener at) [
      | none ↦ cluster
      | some peer ↦ elim (lookup peer cluster) [
        | none ↦ cluster
        | some m ↦
            if net.executes at
            then insert peer (delete_replica (record args { is_replica = true }) m).0 cluster
            else cluster
      ]
    ]

-- The goroutines of Delete, in the order in which they run.
unfoldable pub propagate_all : Network → Node → DeleteArgs → List ℤ → Cluster → Cluster
propagate_all net n args [] cluster = cluster
propagate_all net n args (node_id ∷ targets) cluster =
    propagate_all net n args targets (propagate_delete net n args node_id cluster)

module _ (md5 : String → List ℕ) where
  -- The nodes that get a copy: the other owners, or all other nodes. `none` is GetNodes' panic.
  unfoldable pub target_nodes : String → Node → Option (List ℤ)
  target_nodes key n =
      if is_enabled n.partition_mgr
      then elim (get_partition_owners md5 key n.partition_mgr) [
        | none ↦ none
        | some owners ↦ some (others n.id owners)
      ]
      else some (get_other_nodes n)

  unfoldable pub replicate_to_partition_nodes :
      Network → Node → PutArgs → Cluster → Option (Cluster × List String)
  replicate_to_partition_nodes net n args cluster = elim (target_nodes args.key n) [
    | none ↦ none
    | some targets ↦ some (replicate net n (record args { is_replica = true }) targets cluster)
  ]

  -- Put on the node `n` of the cluster.
  unfoldable pub put : Network → PutArgs → Node → Cluster → Option (Cluster × PutReply)
  put net args n cluster =
      let after = put_local args n in
      let stored = insert n.id after cluster in
      if args.is_replica
      then some (stored, (put_replica args n).1)
      else elim (replicate_to_partition_nodes net after args stored) [
        | none ↦ none
        | some (final, replicated_to) ↦ some (
          final,
          record {
            success = true;
            message =
                text_append (about "Stored key " args.key " on Node " n.id)
                  (text_append ", replicated to: " (join replicated_to));
            replicated = true;
          },
        )
      ]

  -- Delete on the node `n` of the cluster, with its goroutines, which run in the order `order`
  -- after the reply, for which the handler does not wait.
  unfoldable pub delete_key :
      Network → (List ℤ → List ℤ) → DeleteArgs → Node → Cluster → Option (Cluster × DeleteReply)
  delete_key net order args n cluster =
      let (after, found) = delete_local args n in
      let stored = insert n.id after cluster in
      if args.is_replica
      then some (stored, (delete_replica args n).1)
      else if found
      then elim (target_nodes args.key n) [
        | none ↦ none
        | some targets ↦ some (
          propagate_all net after args (order targets) stored,
          record { success = true; message = about "Deleted key " args.key " from Node " n.id },
        )
      ]
      else some (
        stored,
        record { success = false; message = about "Key " args.key " not found on Node " n.id },
      )

  -- Delete up to its reply: the cluster then, the reply, and the nodes for which goroutines have
  -- been started.
  unfoldable pub begin_delete :
      DeleteArgs → Node → Cluster → Option (Cluster × DeleteReply × List ℤ)
  begin_delete args n cluster =
      let (after, found) = delete_local args n in
      let stored = insert n.id after cluster in
      if args.is_replica
      then some (stored, (delete_replica args n).1, [])
      else if found
      then elim (target_nodes args.key n) [
        | none ↦ none
        | some targets ↦ some (
          stored,
          record { success = true; message = about "Deleted key " args.key " from Node " n.id },
          targets,
        )
      ]
      else some (
        stored,
        record { success = false; message = about "Key " args.key " not found on Node " n.id },
        [],
      )
