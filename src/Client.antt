-- ===== src/Client.antt =====
-- client/client.go: the commands that read and write keys, and the search for the leader.
--
-- The text that a command prints is an `Outcome`, and so is the file that it writes. `atoi` and
-- `read_file` are strconv.Atoi and os.ReadFile, where `none` is an error, and `now` is the time. A
-- connection is its address. The command quorum-get is in `Client/QuorumGet`, and deadlock-test in
-- `Client/DeadlockTest`.
pub mod QuorumGet
pub mod Calls
pub mod Quorum
pub mod Repair
pub mod ReadRepair
pub mod RoundTrip
pub mod Leader
pub mod DeadlockTest
pub mod Help
pub mod Prompt
pub mod Sound
pub mod Reads
pub mod Commands
pub mod Session
mod Tests
use dynamo_db.Prelude.{
  ℕ, String, text_append, Bool, true, false, not, ◌||◌, Option, none, some, List, [], ◌∷◌, map, ℤ,
  pos, int_key, ◌==◌, ltb_ℤ, if◌then◌else◌, ◌⊎◌, inl, inr,
}
use dynamo_db.GoMap.{lookup}
use dynamo_db.Node.{Node, NodeConfig, address}
use dynamo_db.Node.Handlers.{StatusReply, status, list_keys, PartitionInfoReply, get_partition_info}
use dynamo_db.Node.Storage.{
  Network, Cluster, PutArgs, PutReply, GetArgs, GetReply, DeleteArgs, DeleteReply, put, get,
  delete_key,
}
use dynamo_db.Node.Rpc.{call, dials}
use dynamo_db.Mutex.{Schedule, MutexPutArgs, MutexPutReply, mutex_put}

-- What is printed about one node.
pub data StatusLine : Type 0 where
  offline status_error : ℤ → StatusLine
  online : StatusReply → StatusLine

pub data Outcome : Type 0 where
  usage invalid_node_id cannot_read cannot_save no_leader too_few_nodes not_found : Outcome
  cannot_connect rpc_error : ℤ → Outcome
  -- SUCCESS or FAILED, with the message of the reply
  answered : Bool → String → Outcome
  -- the node, the output file without its ending, and its bytes
  downloaded : ℤ → String → List ℕ → Outcome
  listed : List String → Outcome
  statuses : List StatusLine → Outcome
  partition : PartitionInfoReply → Outcome

unfoldable pub connect_to_node : Network → List NodeConfig → ℤ → Option String
connect_to_node net [] node_id = none
connect_to_node net (nc ∷ ncs) node_id =
    if nc.id == node_id
    then (if dials net (address nc.ip nc.port) then some (address nc.ip nc.port) else none)
    else connect_to_node net ncs node_id

-- A call of a handler that calls other nodes; `none` is a panic of it.
unfoldable pub call_cluster :
    {R : Type 0}
    → Network
    → String
    → (Node → Cluster → Option (Cluster × R))
    → Cluster
    → Option (Cluster × Option R)
call_cluster net at handler cluster = elim (net.listener at) [
  | none ↦ some (cluster, none)
  | some peer ↦ elim (lookup peer cluster) [
    | none ↦ some (cluster, none)
    | some n ↦
        if net.executes at
        then elim (handler n cluster) [
          | none ↦ none
          | some (after, reply) ↦ some (after, if net.answers at then some reply else none)
        ]
        else some (cluster, none)
  ]
]

-- One call at a node, and what is printed about its reply.
unfoldable pub ask_node :
    {R : Type 0}
    → Network
    → List NodeConfig
    → ℤ
    → (Node → Cluster → Option (Cluster × R))
    → (R → Outcome)
    → Cluster
    → Option (Cluster × Outcome)
ask_node net nodes node_id handler print cluster = elim (connect_to_node net nodes node_id) [
  | none ↦ some (cluster, cannot_connect node_id)
  | some at ↦ elim (call_cluster net at handler cluster) [
    | none ↦ none
    | some (after, none) ↦ some (after, rpc_error node_id)
    | some (after, some reply) ↦ some (after, print reply)
  ]
]

-- outputFile
abbrev pub output_file : String → String
output_file key = text_append key "_downloaded.txt"

-- `write_file`: whether os.WriteFile succeeds.
unfoldable pub save_file : (String → List ℕ → Bool) → ℤ → String → List ℕ → Outcome
save_file write_file node_id key bytes =
    if write_file (output_file key) bytes then downloaded node_id key bytes else cannot_save

unfoldable pub print_get : (String → List ℕ → Bool) → ℤ → String → GetReply → Outcome
print_get write_file node_id key reply =
    if reply.found then save_file write_file node_id key reply.value else not_found

-- The search for the leader, over the nodes that are left.
unfoldable pub find_leader :
    Network → List NodeConfig → List NodeConfig → Cluster → Option (ℤ × String)
find_leader net nodes [] cluster = none
find_leader net nodes (nc ∷ ncs) cluster = elim (connect_to_node net nodes nc.id) [
  | none ↦ find_leader net nodes ncs cluster
  | some at ↦ elim (call net at (λ n. (n, status n)) cluster).1 [
    | none ↦ find_leader net nodes ncs cluster
    | some reply ↦ if reply.is_leader then some (nc.id, at) else find_leader net nodes ncs cluster
  ]
]

unfoldable pub show_node_status : Network → List NodeConfig → Cluster → ℤ → StatusLine
show_node_status net nodes cluster node_id = elim (connect_to_node net nodes node_id) [
  | none ↦ offline node_id
  | some at ↦ elim (call net at (λ n. (n, status n)) cluster).1 [
    | none ↦ status_error node_id
    | some reply ↦ online reply
  ]
]

module _ (md5 : String → List ℕ) (atoi : String → Option ℤ) (read_file : String → Option (List ℕ))
    (write_file : String → List ℕ → Bool) (net : Network) (nodes : List NodeConfig) where
  unfoldable pub handle_put : ℤ → List String → Cluster → Option (Cluster × Outcome)
  handle_put now (command ∷ id ∷ key ∷ filename ∷ parts) cluster = elim (atoi id) [
    | none ↦ some (cluster, invalid_node_id)
    | some node_id ↦ elim (read_file filename) [
      | none ↦ some (cluster, cannot_read)
      | some bytes ↦
          let args : PutArgs = record {
            key = key;
            value = bytes;
            timestamp = now;
            is_replica = false;
          } in
          ask_node net nodes node_id (put md5 net args)
            (λ reply. answered reply.success reply.message) cluster
    ]
  ]
  handle_put now _ cluster = some (cluster, usage)

  unfoldable pub handle_get : List String → Cluster → Option (Cluster × Outcome)
  handle_get (command ∷ id ∷ key ∷ parts) cluster = elim (atoi id) [
    | none ↦ some (cluster, invalid_node_id)
    | some node_id ↦ elim (connect_to_node net nodes node_id) [
      | none ↦ some (cluster, cannot_connect node_id)
      | some at ↦
          let (after, reply) = call net at (get (record { key = key })) cluster in
          elim reply [
            | none ↦ some (after, rpc_error node_id)
            | some r ↦ some (after, print_get write_file node_id key r)
          ]
    ]
  ]
  handle_get _ cluster = some (cluster, usage)

  -- `order`: that of the goroutines of the handler.
  unfoldable pub handle_delete :
      (List ℤ → List ℤ) → List String → Cluster → Option (Cluster × Outcome)
  handle_delete order (command ∷ id ∷ key ∷ parts) cluster = elim (atoi id) [
    | none ↦ some (cluster, invalid_node_id)
    | some node_id ↦
        let args : DeleteArgs = record { key = key; timestamp = pos 0; is_replica = false } in
        ask_node net nodes node_id (delete_key md5 net order args)
          (λ reply. answered reply.success reply.message) cluster
  ]
  handle_delete order _ cluster = some (cluster, usage)

  -- `order`: in which the handler's `range` visits the store.
  unfoldable pub handle_list : (List String → List String) → List String → Cluster → Outcome
  handle_list order (command ∷ id ∷ parts) cluster = elim (atoi id) [
    | none ↦ invalid_node_id
    | some node_id ↦ elim (connect_to_node net nodes node_id) [
      | none ↦ cannot_connect node_id
      | some at ↦ elim (call net at (λ n. (n, list_keys order n)) cluster).1 [
        | none ↦ rpc_error node_id
        | some ks ↦ listed ks
      ]
    ]
  ]
  handle_list order _ cluster = usage

  unfoldable pub handle_status : List String → Cluster → Outcome
  handle_status (command ∷ id ∷ parts) cluster = elim (atoi id) [
    | none ↦ invalid_node_id
    | some node_id ↦ statuses (show_node_status net nodes cluster node_id ∷ [])
  ]
  handle_status _ cluster = statuses (map (λ nc. show_node_status net nodes cluster nc.id) nodes)

  unfoldable pub handle_partition_info : List String → Cluster → Option (Cluster × Outcome)
  handle_partition_info (command ∷ id ∷ key ∷ parts) cluster = elim (atoi id) [
    | none ↦ some (cluster, invalid_node_id)
    | some node_id ↦
        ask_node net nodes node_id
          (λ n c. elim (get_partition_info md5 key n) [
            | none ↦ none
            | some reply ↦ some (c, reply)
          ])
          partition cluster
  ]
  handle_partition_info _ cluster = some (cluster, usage)

  unfoldable pub handle_mutex_put :
      Schedule → Bool → ℤ → List String → Cluster → Option (Cluster × Outcome)
  handle_mutex_put schedule has_manager now (command ∷ key ∷ filename ∷ parts) cluster =
      elim (read_file filename) [
        | none ↦ some (cluster, cannot_read)
        | some bytes ↦ elim (find_leader net nodes nodes cluster) [
          | none ↦ some (cluster, no_leader)
          | some (leader_id, at) ↦
              let args : MutexPutArgs = record { key = key; value = bytes; timestamp = now } in
              elim (call_cluster net at (mutex_put md5 net schedule has_manager args) cluster) [
                | none ↦ none
                | some (after, none) ↦ some (after, rpc_error leader_id)
                | some (after, some reply) ↦ some (after, answered reply.success reply.message)
              ]
        ]
      ]
  handle_mutex_put schedule has_manager now _ cluster = some (cluster, usage)
