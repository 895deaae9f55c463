-- ===== src/Client/Commands.antt =====
-- client/client.go: the commands return and leave the cluster sound.
use dynamo_db.Prelude.{
  ℕ, refl, inl, inr, String, Bool, false, Option, none, some, List, [], ◌∷◌, arith, ℤ, pos, int_key,
  text_key, Option-cases,
}
use dynamo_db.GoMap.{IsOrder}
use dynamo_db.Node.{Node, NodeConfig}
use dynamo_db.Node.Fixed.{get-fixed}
use dynamo_db.Node.Handlers.{PartitionInfoReply, get_partition_info}
use dynamo_db.Node.Storage.{Network, Cluster, PutArgs, GetArgs, DeleteArgs, put, get, delete_key}
use dynamo_db.Node.Rpc.{call}
use dynamo_db.Mutex.{Schedule, MutexPutArgs, mutex_put}
use dynamo_db.Client.{
  usage, invalid_node_id, cannot_read, no_leader, cannot_connect, rpc_error, answered, partition,
  print_get, connect_to_node, find_leader, handle_put, handle_get, handle_delete,
  handle_partition_info, handle_mutex_put,
}
use dynamo_db.Client.Sound.{
  IsSound, Safe, call-IsSound, call_cluster-Safe, ask_node-Safe, put-Safe, delete_key-Safe,
  mutex_put-Safe, get_partition_info_total,
}

module _ (md5 : String → List ℕ) (atoi : String → Option ℤ) (read_file : String → Option (List ℕ))
    (write_file : String → List ℕ → Bool) (net : Network) (nodes : List NodeConfig)
    (cluster : Cluster) (sound : IsSound md5 cluster) where
  pub handle_put-Safe :
      (now : ℤ) (parts : List String)
      → Safe md5 (handle_put md5 atoi read_file write_file net nodes now parts cluster)
  unfolding handle_put
  handle_put-Safe now [] = (cluster, usage, refl, sound)
  handle_put-Safe now (command ∷ []) = (cluster, usage, refl, sound)
  handle_put-Safe now (command ∷ id ∷ []) = (cluster, usage, refl, sound)
  handle_put-Safe now (command ∷ id ∷ key ∷ []) = (cluster, usage, refl, sound)
  handle_put-Safe now (command ∷ id ∷ key ∷ filename ∷ parts) = elim (Option-cases (atoi id)) [
    | inl invalid ↦ (cluster, invalid_node_id, ground (arith, invalid), sound)
    | inr (node_id, number) ↦ elim (Option-cases (read_file filename)) [
      | inl unread ↦ (cluster, cannot_read, ground (arith, number, unread), sound)
      | inr (bytes, file) ↦
          let args : PutArgs = record {
            key = key;
            value = bytes;
            timestamp = now;
            is_replica = false;
          } in
          let (after, outcome, e, s) =
            ask_node-Safe md5 net cluster sound nodes node_id (put md5 net args)
              (λ reply. answered reply.success reply.message) (put-Safe md5 net args refl) in
          (after, outcome, ground (arith, number, file, e), s)
    ]
  ]

  pub handle_get-Safe :
      (parts : List String)
      → Safe md5 (handle_get md5 atoi read_file write_file net nodes parts cluster)
  unfolding handle_get
  handle_get-Safe [] = (cluster, usage, refl, sound)
  handle_get-Safe (command ∷ []) = (cluster, usage, refl, sound)
  handle_get-Safe (command ∷ id ∷ []) = (cluster, usage, refl, sound)
  handle_get-Safe (command ∷ id ∷ key ∷ parts) = elim (Option-cases (atoi id)) [
    | inl invalid ↦ (cluster, invalid_node_id, ground (arith, invalid), sound)
    | inr (node_id, number) ↦ elim (Option-cases (connect_to_node net nodes node_id)) [
      | inl down ↦ (cluster, cannot_connect node_id, ground (arith, number, down), sound)
      | inr (at, up) ↦
          let args : GetArgs = record { key = key } in
          let kept = call-IsSound md5 net cluster sound at (get args) (λ j. get-fixed args) in
          let (after, reply) = call net at (get args) cluster in
          elim (Option-cases reply) [
            | inl lost ↦ (after, rpc_error node_id, ground (arith, number, up, lost), kept)
            | inr (r, back) ↦
                (after, print_get write_file node_id key r, ground (arith, number, up, back), kept)
          ]
    ]
  ]

  pub handle_delete-Safe :
      (order : List ℤ → List ℤ) (parts : List String)
      → IsOrder order
      → Safe md5 (handle_delete md5 atoi read_file write_file net nodes order parts cluster)
  unfolding handle_delete
  handle_delete-Safe order [] visits = (cluster, usage, refl, sound)
  handle_delete-Safe order (command ∷ []) visits = (cluster, usage, refl, sound)
  handle_delete-Safe order (command ∷ id ∷ []) visits = (cluster, usage, refl, sound)
  handle_delete-Safe order (command ∷ id ∷ key ∷ parts) visits = elim (Option-cases (atoi id)) [
    | inl invalid ↦ (cluster, invalid_node_id, ground (arith, invalid), sound)
    | inr (node_id, number) ↦
        let args : DeleteArgs = record { key = key; timestamp = pos 0; is_replica = false } in
        let (after, outcome, e, s) =
          ask_node-Safe md5 net cluster sound nodes node_id (delete_key md5 net order args)
            (λ reply. answered reply.success reply.message)
            (delete_key-Safe md5 net order args visits refl) in
        (after, outcome, ground (arith, number, e), s)
  ]

  pub handle_partition_info-Safe :
      (parts : List String)
      → Safe md5 (handle_partition_info md5 atoi read_file write_file net nodes parts cluster)
  unfolding handle_partition_info
  handle_partition_info-Safe [] = (cluster, usage, refl, sound)
  handle_partition_info-Safe (command ∷ []) = (cluster, usage, refl, sound)
  handle_partition_info-Safe (command ∷ id ∷ []) = (cluster, usage, refl, sound)
  handle_partition_info-Safe (command ∷ id ∷ key ∷ parts) = elim (Option-cases (atoi id)) [
    | inl invalid ↦ (cluster, invalid_node_id, ground (arith, invalid), sound)
    | inr (node_id, number) ↦
        let handler : Node → Cluster → Option (Cluster × PartitionInfoReply) = λ n c.
          elim (get_partition_info md5 key n) [ none ↦ none | some reply ↦ some (c, reply) ] in
        let (after, outcome, e, s) =
          ask_node-Safe md5 net cluster sound nodes node_id handler partition
            (λ n c kept here valid.
              let (reply, f) = get_partition_info_total md5 key n valid in
              (c, reply, ground (arith, f), kept)) in
        (after, outcome, ground (arith, number, e), s)
  ]

  pub handle_mutex_put-Safe :
      (schedule : Schedule) (has_manager : Bool) (now : ℤ) (parts : List String)
      → Safe md5 (
          handle_mutex_put md5 atoi read_file write_file net nodes schedule has_manager now parts
            cluster)
  unfolding handle_mutex_put
  handle_mutex_put-Safe schedule has_manager now [] = (cluster, usage, refl, sound)
  handle_mutex_put-Safe schedule has_manager now (command ∷ []) = (cluster, usage, refl, sound)
  handle_mutex_put-Safe schedule has_manager now (command ∷ key ∷ []) =
      (cluster, usage, refl, sound)
  handle_mutex_put-Safe schedule has_manager now (command ∷ key ∷ filename ∷ parts) =
      elim (Option-cases (read_file filename)) [
        | inl unread ↦ (cluster, cannot_read, ground (arith, unread), sound)
        | inr (bytes, file) ↦ elim (Option-cases (find_leader net nodes nodes cluster)) [
          | inl nobody ↦ (cluster, no_leader, ground (arith, file, nobody), sound)
          | inr ((leader_id, at), found) ↦
              let args : MutexPutArgs = record { key = key; value = bytes; timestamp = now } in
              let (after, reply, e, s) =
                call_cluster-Safe md5 net cluster sound at
                  (mutex_put md5 net schedule has_manager args)
                  (mutex_put-Safe md5 net schedule has_manager args) in
              elim (Option-cases reply) [
                | inl lost ↦ (after, rpc_error leader_id, ground (arith, file, found, e, lost), s)
                | inr (r, back) ↦
                    (after, answered r.success r.message, ground (arith, file, found, e, back), s)
              ]
        ]
      ]
