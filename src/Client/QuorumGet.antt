-- ===== src/Client/QuorumGet.antt =====
-- client/client.go: the command quorum-get, which reads two nodes and repairs an older version.
use dynamo_db.Prelude.{
  ℕ, String, Bool, false, not, ◌||◌, Option, none, some, List, [], ◌∷◌, ℤ, int_key, ltb_ℤ,
  if◌then◌else◌, ◌⊎◌, inl, inr,
}
use dynamo_db.Node.{NodeConfig}
use dynamo_db.Node.Storage.{Network, Cluster, PutArgs, GetReply, put, get}
use dynamo_db.Node.Rpc.{call}
use dynamo_db.Client.{
  Outcome, too_few_nodes, usage, not_found, cannot_connect, rpc_error, save_file, connect_to_node,
  call_cluster,
}

-- What is read at one node: an error, or the reply.
unfoldable pub read_one :
    Network → List NodeConfig → String → ℤ → Cluster → Cluster × (Outcome ⊎ GetReply)
read_one net nodes key node_id cluster = elim (connect_to_node net nodes node_id) [
  | none ↦ (cluster, inl (cannot_connect node_id))
  | some at ↦
      let (after, reply) = call net at (get (record { key = key })) cluster in
      (after, elim reply [ none ↦ inl (rpc_error node_id) | some r ↦ inr r ])
]

-- The loop over `nodeIDs`, which an error ends.
unfoldable pub read_all :
    Network
    → List NodeConfig
    → String
    → List ℤ
    → Cluster
    → Cluster × (Outcome ⊎ List (ℤ × GetReply))
read_all net nodes key [] cluster = (cluster, inr [])
read_all net nodes key (node_id ∷ node_ids) cluster =
    let (after, result) = read_one net nodes key node_id cluster in
    elim result [
      | inl error ↦ (after, inl error)
      | inr reply ↦
          let (final, results) = read_all net nodes key node_ids after in
          (
            final,
            elim results [ inl error ↦ inl error | inr replies ↦ inr ((node_id, reply) ∷ replies) ],
          )
    ]

-- `selectedNode` and `selected`, from the replies of the two nodes.
unfoldable pub choose : List (ℤ × GetReply) → Option (ℤ × GetReply)
choose (first ∷ second ∷ replies) =
    if first.1.found
    then (if second.1.found
        then if ltb_ℤ first.1.timestamp second.1.timestamp then some second else some first
        else some first)
    else if second.1.found
    then some second
    else none
choose _ = none

unfoldable pub needs_repair : GetReply → GetReply → Bool
needs_repair selected reply = not reply.found || ltb_ℤ reply.timestamp selected.timestamp

-- The first two nodes of the configuration.
unfoldable pub quorum_ids : List NodeConfig → Option (List ℤ)
quorum_ids (first ∷ second ∷ ncs) = some (first.id ∷ second.id ∷ [])
quorum_ids _ = none

module _ (md5 : String → List ℕ) (net : Network) (nodes : List NodeConfig) where
  -- One repair; its errors are only printed.
  unfoldable pub repair_node : PutArgs → ℤ → Cluster → Option Cluster
  repair_node args node_id cluster = elim (connect_to_node net nodes node_id) [
    | none ↦ some cluster
    | some at ↦ elim (call_cluster net at (put md5 net args) cluster) [
      | none ↦ none
      | some (after, reply) ↦ some after
    ]
  ]

  unfoldable pub repair_all : PutArgs → GetReply → List (ℤ × GetReply) → Cluster → Option Cluster
  repair_all args selected [] cluster = some cluster
  repair_all args selected ((node_id, reply) ∷ replies) cluster =
      if needs_repair selected reply
      then elim (repair_node args node_id cluster) [
        | none ↦ none
        | some after ↦ repair_all args selected replies after
      ]
      else repair_all args selected replies cluster

  abbrev pub repair_args : String → GetReply → PutArgs
  repair_args key selected = record {
    key = key;
    value = selected.value;
    timestamp = selected.timestamp;
    is_replica = false;
  }

  -- The version that is chosen, the repair, and the output.
  unfoldable pub deliver :
      (String → List ℕ → Bool) → String → List (ℤ × GetReply) → Cluster → Option (Cluster × Outcome)
  deliver write_file key replies cluster = elim (choose replies) [
    | none ↦ some (cluster, not_found)
    | some (selected_node, selected) ↦
        elim (repair_all (repair_args key selected) selected replies cluster) [
          | none ↦ none
          | some after ↦ some (after, save_file write_file selected_node key selected.value)
        ]
  ]

  unfoldable pub quorum_get :
      (String → List ℕ → Bool) → String → List ℤ → Cluster → Option (Cluster × Outcome)
  quorum_get write_file key node_ids cluster =
      let (after, results) = read_all net nodes key node_ids cluster in
      elim results [
        | inl error ↦ some (after, error)
        | inr replies ↦ deliver write_file key replies after
      ]

  unfoldable pub handle_quorum_get :
      (String → List ℕ → Bool) → List String → Cluster → Option (Cluster × Outcome)
  handle_quorum_get write_file (command ∷ key ∷ parts) cluster = elim (quorum_ids nodes) [
    | none ↦ some (cluster, too_few_nodes)
    | some node_ids ↦ quorum_get write_file key node_ids cluster
  ]
  handle_quorum_get write_file _ cluster = some (cluster, usage)
