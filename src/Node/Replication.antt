-- ===== src/Node/Replication.antt =====
-- node/rpc_handlers.go: which nodes of the cluster have a key after a Put.
use dynamo_db.Prelude.{
  ℕ, ◌≡◌, refl, String, text_append, Bool, true, false, ◌&&◌, ◌||◌, Option, none, some, List, [],
  ◌∷◌, arith, ℤ, int_key, text_key, ◌==◌, ==_iff, Option-cases, Bool-cases, inl, inr, if◌then◌else◌,
}
use dynamo_db.GoMap.{lookup, insert, lookup-insert, is_some}
use dynamo_db.Manager.{is_enabled}
use dynamo_db.Manager.Valid.{IsValid}
use dynamo_db.Manager.Owners.{get_partition_owners_total}
use dynamo_db.Node.{Node, StoredItem, update_clock, get_node_address, get_other_nodes}
use dynamo_db.Node.Storage.{
  about, join, PutArgs, PutReply, Network, Cluster, put_local, put_replica, call_put, replicate,
  others, target_nodes, replicate_to_partition_nodes, put,
}

-- What the node `j` has under the key.
unfoldable pub stored : Cluster → ℤ → String → Option StoredItem
stored cluster j k = elim (lookup j cluster) [ none ↦ none | some m ↦ lookup k m.data_store ]

-- A call to the address is executed on the node `j`.
unfoldable pub executed_on : Network → String → ℤ → Bool
executed_on net at j = elim (net.listener at) [
  | none ↦ false
  | some peer ↦ peer == j && net.executes at
]

-- One of the calls to the targets is executed on the node `j`.
unfoldable pub reached : Network → Node → ℤ → List ℤ → Bool
reached net n j [] = false
reached net n j (node_id ∷ targets) =
    executed_on net (get_node_address node_id n) j || reached net n j targets

-- What a Put stores.
abbrev pub item_of : PutArgs → StoredItem
item_of args = record { value = args.value; timestamp = args.timestamp }

stored-insert :
    (peer j : ℤ) (args : PutArgs) (n : Node) (cluster : Cluster) (k : String)
    → lookup peer cluster ≡ some n
    → stored (insert peer (put_local args n) cluster) j k
      ≡ (if peer == j && args.key == k then some (item_of args) else stored cluster j k)
unfolding stored put_local update_clock
stored-insert peer j args n cluster k e = ground (
  arith,
  e,
  ==_iff peer j,
  lookup-insert peer j (put_local args n) cluster,
  lookup-insert args.key k (item_of args) n.data_store,
)

member-insert :
    (peer j : ℤ) (m n : Node) (cluster : Cluster)
    → lookup peer cluster ≡ some n
    → is_some (lookup j (insert peer m cluster)) ≡ is_some (lookup j cluster)
member-insert peer j m n cluster e =
    ground (arith, e, ==_iff peer j, lookup-insert peer j m cluster)

call_put_lem :
    (net : Network) (at : String) (args : PutArgs) (cluster : Cluster) (j : ℤ) (k : String)
    → (stored (call_put net at args cluster).0 j k ≡ (
        if (executed_on net at j && is_some (lookup j cluster)) && args.key == k
        then some (item_of args)
        else stored cluster j k))
      × (is_some (lookup j (call_put net at args cluster).0) ≡ is_some (lookup j cluster))
unfolding call_put executed_on put_replica
call_put_lem net at args cluster j k = elim (Option-cases (net.listener at)) [
  | inl nobody ↦ ground (arith, nobody)
  | inr (peer, listens) ↦ elim (Option-cases (lookup peer cluster)) [
    | inl gone ↦ ground (arith, listens, gone, ==_iff peer j)
    | inr (n, e) ↦ ground (
      arith,
      listens,
      e,
      ==_iff peer j,
      stored-insert peer j args n cluster k e,
      member-insert peer j (put_local args n) n cluster e,
    )
  ]
]

pub replicate-stores :
    (net : Network) (n : Node) (args : PutArgs) (targets : List ℤ) (cluster : Cluster) (j : ℤ)
    (k : String)
    → stored (replicate net n args targets cluster).0 j k ≡ (
        if (reached net n j targets && is_some (lookup j cluster)) && args.key == k
        then some (item_of args)
        else stored cluster j k)
unfolding replicate reached
replicate-stores net n args [] cluster j k = ground arith
replicate-stores net n args (node_id ∷ targets) cluster j k =
    let at = get_node_address node_id n in
    let after = (call_put net at args cluster).0 in
    ground
      (arith, call_put_lem net at args cluster j k, replicate-stores net n args targets after j k)

pub target_nodes_total :
    (md5 : String → List ℕ) (key : String) (n : Node)
    → IsValid md5 n.partition_mgr
    → (targets : List ℤ) × (target_nodes md5 key n ≡ some targets)
unfolding target_nodes is_enabled
target_nodes_total md5 key n v = elim (Bool-cases n.partition_mgr.enabled) [
  | inl on ↦
      let (owners, e, _) = get_partition_owners_total md5 n.partition_mgr v key in
      (others n.id owners, ground (arith, on, e))
  | inr off ↦ (get_other_nodes n, ground (arith, off))
]

reached-put_local :
    (net : Network) (args : PutArgs) (n : Node) (j : ℤ) (targets : List ℤ)
    → reached net (put_local args n) j targets ≡ reached net n j targets
unfolding put_local update_clock get_node_address reached
reached-put_local net args n j [] = refl
reached-put_local net args n j (node_id ∷ targets) =
    rw (reached-put_local net args n j targets) refl

target_nodes-put_local :
    (md5 : String → List ℕ) (key : String) (args : PutArgs) (n : Node)
    → target_nodes md5 key (put_local args n) ≡ target_nodes md5 key n
unfolding put_local update_clock target_nodes get_other_nodes
target_nodes-put_local md5 key args n = refl

abbrev after_put : Network → PutArgs → Node → Cluster → List ℤ → Cluster × List String
after_put net args n cluster targets =
    let after = put_local args n in
    replicate net after (record args { is_replica = true }) targets (insert n.id after cluster)

abbrev put_reply : PutArgs → Node → List String → PutReply
put_reply args n replicated_to = record {
  success = true;
  message =
      text_append (about "Stored key " args.key " on Node " n.id)
        (text_append ", replicated to: " (join replicated_to));
  replicated = true;
}

put-client :
    (md5 : String → List ℕ) (net : Network) (args : PutArgs) (n : Node) (cluster : Cluster)
    (targets : List ℤ)
    → args.is_replica ≡ false
    → target_nodes md5 args.key n ≡ some targets
    → put md5 net args n cluster
      ≡ some (
        (after_put net args n cluster targets).0,
        put_reply args n (after_put net args n cluster targets).1,
      )
unfolding put replicate_to_partition_nodes
put-client md5 net args n cluster targets client e =
    ground (arith, client, target_nodes-put_local md5 args.key args n, e)

-- A Put by a client at a node of the cluster, whose partition manager is valid, returns with
-- success. Then the node itself and every other node on which one of the calls to its targets was
-- executed have the new value and time under the key, and nothing else is changed in any store.
pub put-stores :
    (md5 : String → List ℕ) (net : Network) (args : PutArgs) (n : Node) (cluster : Cluster)
    → IsValid md5 n.partition_mgr
    → lookup n.id cluster ≡ some n
    → args.is_replica ≡ false
    → (targets : List ℤ) × (final : Cluster) × (reply : PutReply) × (target_nodes md5 args.key n
        ≡ some targets)
      × (put md5 net args n cluster ≡ some (final, reply))
      × (reply.success ≡ true)
      × ((j : ℤ) (k : String)
          → stored final j k ≡ (
              if (n.id == j || reached net n j targets && is_some (lookup j cluster))
                && args.key == k
              then some (item_of args)
              else stored cluster j k))
put-stores md5 net args n cluster v here client =
    let (targets, e) = target_nodes_total md5 args.key n v in
    let after = put_local args n in
    let sent = record args { is_replica = true } in
    (
      targets,
      (after_put net args n cluster targets).0,
      put_reply args n (after_put net args n cluster targets).1,
      e,
      put-client md5 net args n cluster targets client e,
      refl,
      λ j k. ground (
        arith,
        replicate-stores net after sent targets (insert n.id after cluster) j k,
        reached-put_local net args n j targets,
        stored-insert n.id j args n cluster k here,
        member-insert n.id j after n cluster here,
      ),
    )
