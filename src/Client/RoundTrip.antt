-- ===== src/Client/RoundTrip.antt =====
-- client/client.go: the commands put and get at one node.
use dynamo_db.Prelude.{
  Bool, ℕ, ◌≡◌, refl, inl, inr, String, true, false, Option, some, List, ◌∷◌, arith, ℤ, int_key,
  text_key, ==_refl, Option-cases,
}
use dynamo_db.GoMap.{lookup, insert}
use dynamo_db.Manager.Valid.{IsValid}
use dynamo_db.Node.{Node, NodeConfig, StoredItem}
use dynamo_db.Node.Storage.{Network, Cluster, PutArgs, get, get_reply}
use dynamo_db.Node.Replication.{stored}
use dynamo_db.Node.Rpc.{call}
use dynamo_db.Client.{
  output_file, save_file, answered, downloaded, ask_node, print_get, handle_put, handle_get,
}
use dynamo_db.Client.Calls.{IsUp, put-answered}

-- A node that has the key.
holder :
    (id : ℤ) (key : String) (item : StoredItem) (cluster : Cluster)
    → stored cluster id key ≡ some item
    → (n : Node) × (lookup id cluster ≡ some n) × (lookup key n.data_store ≡ some item)
unfolding stored
holder id key item cluster e = elim (Option-cases (lookup id cluster)) [
  | inl gone ↦ absurd (ground (arith, gone, e))
  | inr (n, here) ↦ (n, here, ground (arith, here, e))
]

print_get_lem :
    (write_file : String → List ℕ → Bool) (node_id : ℤ) (key : String) (item : StoredItem)
    (n : Node)
    → write_file (output_file key) item.value ≡ true
    → lookup key n.data_store ≡ some item
    → print_get write_file node_id key (get_reply (record { key = key }) n)
      ≡ downloaded node_id key item.value
unfolding print_get save_file get_reply
print_get_lem write_file node_id key item n writes e = ground (arith, e, writes)

module _ (md5 : String → List ℕ) (atoi : String → Option ℤ) (read_file : String → Option (List ℕ))
    (write_file : String → List ℕ → Bool) (net : Network) (nodes : List NodeConfig) (id : String)
    (node_id : ℤ) (number : atoi id ≡ some node_id) where
  handle_get-downloads :
      (command key : String) (parts : List String) (n m : Node) (item : StoredItem)
      (before cluster : Cluster)
      → IsUp net nodes node_id n before
      → lookup node_id cluster ≡ some m
      → lookup key m.data_store ≡ some item
      → write_file (output_file key) item.value ≡ true
      → handle_get md5 atoi read_file write_file net nodes (command ∷ id ∷ key ∷ parts) cluster
        ≡ some (
          insert node_id (get (record { key = key }) m).0 cluster,
          downloaded node_id key item.value,
        )
  unfolding handle_get call get
  handle_get-downloads command key parts n m item before cluster up here has writes = ground (
    arith,
    number,
    up.connects,
    up.listens,
    here,
    up.executed,
    up.is_answered,
    print_get_lem write_file node_id key item m writes has,
  )

  handle_put-answered :
      (now : ℤ) (command key filename : String) (parts : List String) (bytes : List ℕ) (n : Node)
      (cluster : Cluster)
      → read_file filename ≡ some bytes
      → IsUp net nodes node_id n cluster
      → IsValid md5 n.partition_mgr
      → (after : Cluster) × (message : String) × (handle_put md5 atoi read_file write_file net nodes
            now
            (command ∷ id ∷ key ∷ filename ∷ parts)
            cluster
          ≡ some (after, answered true message))
        × (stored after node_id key ≡ some (record { value = bytes; timestamp = now }))
  unfolding handle_put ask_node
  handle_put-answered now command key filename parts bytes n cluster file up v =
      let args : PutArgs = record {
        key = key;
        value = bytes;
        timestamp = now;
        is_replica = false;
      } in
      let (final, reply, others, e, success, stores) =
        put-answered net nodes node_id n cluster up md5 args v refl in
      (
        final,
        reply.message,
        ground (arith, number, file, up.connects, e, success),
        ground (arith, stores node_id key, ==_refl node_id, ==_refl key),
      )

  -- Where a node can be reached and has a valid partition manager, a put of a file at the node
  -- succeeds, and a get of the key at the same node then saves the bytes of the file, if
  -- os.WriteFile can write them.
  pub handle_put-handle_get :
      (now : ℤ) (put_command get_command key filename : String) (put_parts get_parts : List String)
      (bytes : List ℕ) (n : Node) (cluster : Cluster)
      → read_file filename ≡ some bytes
      → write_file (output_file key) bytes ≡ true
      → IsUp net nodes node_id n cluster
      → IsValid md5 n.partition_mgr
      → (after : Cluster) × (message : String) × (final : Cluster) × (handle_put md5 atoi read_file
            write_file net nodes now
            (put_command ∷ id ∷ key ∷ filename ∷ put_parts)
            cluster
          ≡ some (after, answered true message))
        × (handle_get md5 atoi read_file write_file net nodes
              (get_command ∷ id ∷ key ∷ get_parts)
              after
            ≡ some (final, downloaded node_id key bytes))
  handle_put-handle_get now put_command get_command key filename put_parts get_parts bytes n cluster
        file writes up v =
      let (after, message, e, has) =
        handle_put-answered now put_command key filename put_parts bytes n cluster file up v in
      let (m, here, held) =
        holder node_id key (record { value = bytes; timestamp = now }) after has in
      (
        after,
        message,
        insert node_id (get (record { key = key }) m).0 after,
        e,
        handle_get-downloads get_command key get_parts n m
            (record { value = bytes; timestamp = now }) cluster after up here held writes,
      )
