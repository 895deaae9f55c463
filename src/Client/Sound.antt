-- ===== src/Client/Sound.antt =====
-- client/client.go: calls that return and leave the cluster sound.
use dynamo_db.Prelude.{
  ℕ, ◌≡◌, refl, sym, ap, subst, ◌∙◌, inl, inr, String, Bool, false, Option, none, some, List, [],
  ◌∷◌, arith, ℤ, int_key, text_key, if◌then◌else◌, Option-cases, Bool-cases,
}
use dynamo_db.GoMap.{lookup, IsOrder}
use dynamo_db.Manager.{describe_partition}
use dynamo_db.Manager.Valid.{IsValid}
use dynamo_db.Manager.Owners.{get_partition_owners_total}
use dynamo_db.Node.{Node, NodeConfig}
use dynamo_db.Node.Fixed.{fixed, put-keeps, put_local-fixed, delete_key-keeps, delete_local-fixed}
use dynamo_db.Node.Handlers.{PartitionInfoReply, info_message, get_partition_info}
use dynamo_db.Node.Storage.{Network, Cluster, PutArgs, DeleteArgs, put, delete_key}
use dynamo_db.Node.Replication.{put-stores}
use dynamo_db.Node.Deletion.{delete_key-erases}
use dynamo_db.Node.Rpc.{call, Preserves, call-keeps}
use dynamo_db.Mutex.{Schedule, MutexPutArgs, mutex_put}
use dynamo_db.Mutex.Put.{mutex_put-stores}
use dynamo_db.Mutex.Fixed.{mutex_put-fixed}
use dynamo_db.Replicas.Linked.{AreAlike, alike-lookup}
use dynamo_db.Client.{Outcome, cannot_connect, rpc_error, connect_to_node, call_cluster, ask_node}

-- Every node is under its own ID and has a valid partition manager.
pub record IsSound (md5 : String → List ℕ) (cluster : Cluster) : Type 0 where
  pub own : (j : ℤ) (n : Node) → lookup j cluster ≡ some n → n.id ≡ j
  pub valid : (j : ℤ) (n : Node) → lookup j cluster ≡ some n → IsValid md5 n.partition_mgr

module _ (md5 : String → List ℕ) where
  pub alike-IsSound : (c d : Cluster) → AreAlike c d → IsSound md5 d → IsSound md5 c
  alike-IsSound c d alike s = record {
    own = λ j m here.
        let (n, there, same) = alike-lookup j m c d alike here in
        ap (λ f. f.id) same ∙ s.own j n there;
    valid = λ j m here.
        let (n, there, same) = alike-lookup j m c d alike here in
        subst (λ f. IsValid md5 f.partition_mgr) (sym same) (s.valid j n there);
  }

  -- It returns, and the cluster is sound then.
  abbrev pub Safe : {R : Type 0} → Option (Cluster × R) → Type 0
  Safe {R} result =
      (after : Cluster) × (reply : R) × (result ≡ some (after, reply)) × IsSound md5 after

  abbrev pub SafeHandler : {R : Type 0} → (Node → Cluster → Option (Cluster × R)) → Type 0
  SafeHandler handler =
      (n : Node) (cluster : Cluster)
      → IsSound md5 cluster
      → lookup n.id cluster ≡ some n
      → IsValid md5 n.partition_mgr
      → Safe (handler n cluster)

  module _ (net : Network) (cluster : Cluster) (sound : IsSound md5 cluster) where
    pub call-IsSound :
        {R : Type 0} (at : String) (handler : Node → Node × R)
        → ((j : ℤ) → Preserves fixed j handler)
        → IsSound md5 (call net at handler cluster).0
    call-IsSound at handler keeps =
        alike-IsSound _ cluster (λ j. call-keeps fixed j net at handler cluster (keeps j)) sound

    pub call_cluster-Safe :
        {R : Type 0} (at : String) (handler : Node → Cluster → Option (Cluster × R))
        → SafeHandler handler
        → Safe (call_cluster net at handler cluster)
    unfolding call_cluster
    call_cluster-Safe at handler safe = elim (Option-cases (net.listener at)) [
      | inl nobody ↦ (cluster, none, ground (arith, nobody), sound)
      | inr (peer, listens) ↦ elim (Option-cases (lookup peer cluster)) [
        | inl gone ↦ (cluster, none, ground (arith, listens, gone), sound)
        | inr (n, here) ↦ elim (Bool-cases (net.executes at)) [
          | inl executed ↦
              let own = ap (λ i. lookup i cluster) (sound.own peer n here) ∙ here in
              let (after, reply, e, s) = safe n cluster sound own (sound.valid peer n here) in
              (
                after,
                if net.answers at then some reply else none,
                ground (arith, listens, here, executed, e),
                s,
              )
          | inr lost ↦ (cluster, none, ground (arith, listens, here, lost), sound)
        ]
      ]
    ]

    pub ask_node-Safe :
        {R : Type 0} (nodes : List NodeConfig) (node_id : ℤ)
        (handler : Node → Cluster → Option (Cluster × R)) (print : R → Outcome)
        → SafeHandler handler
        → Safe (ask_node net nodes node_id handler print cluster)
    unfolding ask_node
    ask_node-Safe nodes node_id handler print safe =
        elim (Option-cases (connect_to_node net nodes node_id)) [
          | inl down ↦ (cluster, cannot_connect node_id, ground (arith, down), sound)
          | inr (at, up) ↦
              let (after, reply, e, s) = call_cluster-Safe at handler safe in
              elim (Option-cases reply) [
                | inl lost ↦ (after, rpc_error node_id, ground (arith, up, e, lost), s)
                | inr (r, back) ↦ (after, print r, ground (arith, up, e, back), s)
              ]
        ]

  -- The handlers that call other nodes, or may panic.
  pub put-Safe :
      (net : Network) (args : PutArgs) → args.is_replica ≡ false → SafeHandler (put md5 net args)
  put-Safe net args client n cluster sound here valid =
      let (targets, final, reply, e, returns, success, stores) =
        put-stores md5 net args n cluster valid here client in
      (
        final,
        reply,
        returns,
        alike-IsSound final cluster
            (λ j. put-keeps fixed j put_local-fixed md5 net args n cluster final reply here returns)
            sound,
      )

  pub delete_key-Safe :
      (net : Network) (order : List ℤ → List ℤ) (args : DeleteArgs)
      → IsOrder order
      → args.is_replica ≡ false
      → SafeHandler (delete_key md5 net order args)
  delete_key-Safe net order args visits client n cluster sound here valid =
      let (targets, final, reply, e, returns, success, stores) =
        delete_key-erases md5 net order args n cluster visits valid here client in
      (
        final,
        reply,
        returns,
        alike-IsSound final cluster
            (λ j.
              delete_key-keeps fixed j delete_local-fixed md5 net order args n cluster final reply
                here returns)
            sound,
      )

  pub mutex_put-Safe :
      (net : Network) (schedule : Schedule) (has_manager : Bool) (args : MutexPutArgs)
      → SafeHandler (mutex_put md5 net schedule has_manager args)
  mutex_put-Safe net schedule has_manager args n cluster sound here valid =
      let (targets, after, reply, e, returns, success, stores) =
        mutex_put-stores md5 net schedule has_manager args n cluster valid here in
      (
        after,
        reply,
        returns,
        alike-IsSound after cluster
            (λ j.
              mutex_put-fixed j md5 net args schedule has_manager n cluster after reply here
                returns)
            sound,
      )

  info_message_total :
      (key : String) (n : Node) (owners : List ℤ)
      → IsValid md5 n.partition_mgr
      → (message : String) × (info_message md5 key n owners ≡ some message)
  unfolding info_message
  info_message_total key n [] valid = (_, refl)
  info_message_total key n (primary ∷ replicas) valid =
      let (owners, e, kind) = get_partition_owners_total md5 n.partition_mgr valid key in
      elim (Option-cases (describe_partition md5 key n.partition_mgr)) [
        | inl panics ↦ absurd (unfold describe_partition in ground (arith, e, panics))
        | inr total ↦ total
      ]

  pub get_partition_info_total :
      (key : String) (n : Node)
      → IsValid md5 n.partition_mgr
      → (reply : PartitionInfoReply) × (get_partition_info md5 key n ≡ some reply)
  unfolding get_partition_info
  get_partition_info_total key n valid =
      let (owners, e, kind) = get_partition_owners_total md5 n.partition_mgr valid key in
      let (message, f) = info_message_total key n owners valid in
      elim (Option-cases (get_partition_info md5 key n)) [
        | inl panics ↦ absurd (ground (arith, e, f, panics))
        | inr total ↦ total
      ]
