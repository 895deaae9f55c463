-- ===== src/Mutex/Put.antt =====
-- node/rpc_handlers.go: which nodes of the cluster have a key after a MutexPut.
use dynamo_db.Prelude.{
  ℕ, ◌≡◌, refl, sym, ◌∙◌, ap, String, Bool, true, false, ◌&&◌, ◌||◌, some, List, [], ◌∷◌, arith, ℤ,
  int_key, text_key, ◌==◌, ==_iff, ==_refl, if◌then◌else◌, Option-cases, inl, inr,
}
use dynamo_db.GoMap.{lookup, insert, lookup-insert, is_some}
use dynamo_db.Manager.Valid.{IsValid}
use dynamo_db.Node.{Node, StoredItem, update_clock, get_node_address, get_other_nodes}
use dynamo_db.Node.Storage.{
  Network, Cluster, PutArgs, replicate, target_nodes, replicate_to_partition_nodes,
}
use dynamo_db.Node.Replication.{stored, reached, replicate-stores, target_nodes_total}
use dynamo_db.Node.Rpc.{modify, view, view-insert, view-eq-some}
use dynamo_db.Mutex.{
  request_critical_section, release_critical_section, Schedule, execute_in_critical_section,
  MutexPutArgs, MutexPutReply, store_item, mutex_put_reply, store_and_replicate, mutex_put,
}
use dynamo_db.Mutex.Stores.{stored-eq, member-eq, request-data, release-data, data_of}
use dynamo_db.Mutex.Request.{request_critical_section-true}

-- What a MutexPut stores.
abbrev pub mutex_item : MutexPutArgs → StoredItem
mutex_item args = record { value = args.value; timestamp = args.timestamp }

stored-modify :
    (args : MutexPutArgs) (id : ℤ) (cluster : Cluster) (j : ℤ) (k : String)
    → is_some (lookup id cluster) ≡ true
    → (stored (modify id (store_item args) cluster) j k
        ≡ (if id == j && args.key == k then some (mutex_item args) else stored cluster j k))
      × (is_some (lookup j (modify id (store_item args) cluster)) ≡ is_some (lookup j cluster))
unfolding stored modify store_item
stored-modify args id cluster j k member = elim (Option-cases (lookup id cluster)) [
  | inl gone ↦ ground (arith, gone, member)
  | inr (n, e) ↦ ground (
    arith,
    e,
    ==_iff id j,
    lookup-insert id j (store_item args n) cluster,
    lookup-insert args.key k (mutex_item args) n.data_store,
  )
]

-- The cluster when the function of MutexPut has run.
abbrev sent_args : MutexPutArgs → PutArgs
sent_args args = record {
  key = args.key;
  value = args.value;
  timestamp = args.timestamp;
  is_replica = true;
}

abbrev unset_reply : MutexPutReply
unset_reply = record { success = false; message = "Mutex manager not initialized" }

module _ (net : Network) (schedule : Schedule) (args : MutexPutArgs) (n : Node) (cluster : Cluster)
    (here : lookup n.id cluster ≡ some n) where
  abbrev clocked : Node
  clocked = (update_clock args.timestamp n).0

  abbrev entered : Cluster
  entered =
      (request_critical_section schedule.request_net schedule.request_order schedule.in_time clocked
        (insert n.id clocked cluster)).0

  abbrev written : List ℤ → Cluster
  written targets =
      (replicate net clocked (sent_args args) targets (modify n.id (store_item args) entered)).0

  abbrev final : List ℤ → Cluster
  final targets =
      release_critical_section schedule.notice_net schedule.notice_order n.id (written targets)

  clocked-data : view data_of n.id (insert n.id clocked cluster) ≡ some (data_of clocked)
  clocked-data = ground (arith, view-insert data_of n.id n.id clocked cluster, ==_refl n.id)

  entered-data : (j : ℤ) → view data_of j entered ≡ view data_of j cluster
  unfolding update_clock
  entered-data j =
      request-data schedule.request_net schedule.request_order schedule.in_time clocked
        (insert n.id clocked cluster) j clocked-data
      ∙ ground (
        arith,
        view-insert data_of j n.id clocked cluster,
        view-eq-some data_of n.id n cluster here,
        ==_iff n.id j,
      )

  entered-member : (j : ℤ) → is_some (lookup j entered) ≡ is_some (lookup j cluster)
  entered-member j = member-eq entered j ∙ ap is_some (entered-data j) ∙ sym (member-eq cluster j)

  reached-clocked :
      (j : ℤ) (targets : List ℤ) → reached net clocked j targets ≡ reached net n j targets
  unfolding update_clock get_node_address reached
  reached-clocked j [] = refl
  reached-clocked j (node_id ∷ targets) = rw (reached-clocked j targets) refl

  final-stored :
      (targets : List ℤ) (j : ℤ) (k : String)
      → stored (final targets) j k ≡ (
          if (n.id == j || reached net n j targets && is_some (lookup j cluster)) && args.key == k
          then some (mutex_item args)
          else stored cluster j k)
  final-stored targets j k = ground (
    arith,
    stored-eq (final targets) j k,
    release-data schedule.notice_net schedule.notice_order n.id (written targets) j,
    stored-eq (written targets) j k,
    replicate-stores net clocked (sent_args args) targets (modify n.id (store_item args) entered) j
        k,
    stored-modify args n.id entered j k,
    entered-member j,
    entered-member n.id,
    here,
    stored-eq entered j k,
    entered-data j,
    stored-eq cluster j k,
    reached-clocked j targets,
  )

  target_nodes-clocked :
      (md5 : String → List ℕ) → target_nodes md5 args.key clocked ≡ target_nodes md5 args.key n
  unfolding update_clock target_nodes get_other_nodes
  target_nodes-clocked md5 = refl

  store_and_replicate-eq :
      (md5 : String → List ℕ) (targets : List ℤ)
      → target_nodes md5 args.key n ≡ some targets
      → store_and_replicate md5 net args clocked entered ≡ some (written targets)
  unfolding store_and_replicate replicate_to_partition_nodes update_clock
  store_and_replicate-eq md5 targets e = ground (arith, target_nodes-clocked md5, e)

  clocked-id : clocked.id ≡ n.id
  unfolding update_clock
  clocked-id = refl

  mutex_put-eq :
      (md5 : String → List ℕ) (targets : List ℤ)
      → target_nodes md5 args.key n ≡ some targets
      → mutex_put md5 net schedule true args n cluster
        ≡ some (final targets, mutex_put_reply args true)
  unfolding mutex_put execute_in_critical_section
  mutex_put-eq md5 targets e = ground (
    arith,
    request_critical_section-true schedule.request_net schedule.request_order schedule.in_time
        clocked (insert n.id clocked cluster),
    store_and_replicate-eq md5 targets e,
    clocked-id,
  )

  mutex_put-unset :
      (md5 : String → List ℕ)
      → mutex_put md5 net schedule false args n cluster
        ≡ some (insert n.id clocked cluster, unset_reply)
  unfolding mutex_put
  mutex_put-unset md5 = refl

  unset-stored :
      (j : ℤ) (k : String) → stored (insert n.id clocked cluster) j k ≡ stored cluster j k
  unfolding update_clock
  unset-stored j k = ground (
    arith,
    stored-eq (insert n.id clocked cluster) j k,
    stored-eq cluster j k,
    view-insert data_of j n.id clocked cluster,
    view-eq-some data_of n.id n cluster here,
    ==_iff n.id j,
  )

-- A MutexPut at a node of the cluster, whose partition manager is valid, always returns: with
-- success where the node has a mutex manager, and with an error where it has none. With success the
-- node itself and every node of the cluster on which one of the calls to its targets was executed
-- have the new value and time under the key. Nothing else is changed in any store, whatever the
-- networks of the request and of the release do with their messages, apart from the network of the
-- copies, and in whatever order they are sent.
pub mutex_put-stores :
    (md5 : String → List ℕ) (net : Network) (schedule : Schedule) (has_manager : Bool)
    (args : MutexPutArgs) (n : Node) (cluster : Cluster)
    → IsValid md5 n.partition_mgr
    → lookup n.id cluster ≡ some n
    → (targets : List ℤ) × (after : Cluster) × (reply : MutexPutReply) × (target_nodes md5 args.key
          n
        ≡ some targets)
      × (mutex_put md5 net schedule has_manager args n cluster ≡ some (after, reply))
      × (reply.success ≡ has_manager)
      × ((j : ℤ) (k : String)
          → stored after j k ≡ (
              if has_manager
              then (if (n.id == j || reached net n j targets && is_some (lookup j cluster))
                    && args.key == k
                  then some (mutex_item args)
                  else stored cluster j k)
              else stored cluster j k))
unfolding mutex_put_reply
mutex_put-stores md5 net schedule true args n cluster v here =
    let (targets, e) = target_nodes_total md5 args.key n v in
    (
      targets,
      final net schedule args n cluster here targets,
      mutex_put_reply args true,
      e,
      mutex_put-eq net schedule args n cluster here md5 targets e,
      refl,
      final-stored net schedule args n cluster here targets,
    )
mutex_put-stores md5 net schedule false args n cluster v here =
    let (targets, e) = target_nodes_total md5 args.key n v in
    (
      targets,
      insert n.id (update_clock args.timestamp n).0 cluster,
      unset_reply,
      e,
      mutex_put-unset net schedule args n cluster here md5,
      refl,
      unset-stored net schedule args n cluster here,
    )
