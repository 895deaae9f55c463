-- ===== src/Node/Handlers.antt =====
-- node/rpc_handlers.go: the handlers of the election, of the mutual exclusion, of the status and of
-- the partition information. A reply starts as Go's zero value. A DAG handler is in `Node/Dag`.
use dynamo_db.Prelude.{
  ℕ, String, Bool, true, false, Option, none, some, List, [], ◌∷◌, ◌++◌, ℤ, pos, int_key, ◌==◌,
  ltb_ℤ, length, if◌then◌else◌,
}
use dynamo_db.GoMap.{keys}
use dynamo_db.Manager.{is_enabled, get_replication_factor, get_partition_owners, describe_partition}
use dynamo_db.Node.{Node, update_clock, set_leader, get_clock}

pub record ElectionArgs : Type 0 where
  pub candidate_id : ℤ
  pub timestamp : ℤ

pub record ElectionReply : Type 0 where
  pub acknowledged : Bool
  pub node_id : ℤ

pub record CoordinatorArgs : Type 0 where
  pub leader_id : ℤ
  pub timestamp : ℤ

pub record HeartbeatArgs : Type 0 where
  pub leader_id : ℤ
  pub timestamp : ℤ

-- A higher ID only prints that it "will start my own election".
unfoldable pub election : ElectionArgs → Node → Node × ElectionReply
election args n =
    ((update_clock args.timestamp n).0, record { acknowledged = true; node_id = n.id })

-- The reply is `Acknowledged`.
unfoldable pub coordinator : CoordinatorArgs → Node → Node × Bool
coordinator args n = (set_leader args.leader_id (update_clock args.timestamp n).0, true)

-- The reply is `Alive`.
unfoldable pub heartbeat : HeartbeatArgs → Node → Node × Bool
heartbeat args n = ((update_clock args.timestamp n).0, true)

pub record CsRequestArgs : Type 0 where
  pub node_id : ℤ
  pub timestamp : ℤ

pub record CsReleaseArgs : Type 0 where
  pub node_id : ℤ
  pub timestamp : ℤ

-- The node has a request of its own, and that one is older, or as old and of the smaller ID.
unfoldable pub should_defer : CsRequestArgs → Node → Bool
should_defer args n =
    if n.requesting_cs
    then if ltb_ℤ n.request_time args.timestamp
      then true
      else if args.timestamp == n.request_time
      then if ltb_ℤ n.id args.node_id then true else false
      else false
    else false

-- The reply is `Granted`.
unfoldable pub request_cs : CsRequestArgs → Node → Node × Bool
request_cs args n =
    let clocked = (update_clock args.timestamp n).0 in
    if should_defer args clocked
    then (
      record clocked {
        deferred_queue =
            clocked.deferred_queue
            ++ record { node_id = args.node_id; timestamp = args.timestamp } ∷ [];
      },
      false,
    )
    else (clocked, true)

-- The reply is `Acknowledged`.
unfoldable pub release_cs : CsReleaseArgs → Node → Node × Bool
release_cs args n = ((update_clock args.timestamp n).0, true)

pub record StatusReply : Type 0 where
  pub node_id : ℤ
  pub is_leader : Bool
  pub leader_id : ℤ
  pub lamport_clock : ℤ
  pub data_count : ℕ
  pub is_alive : Bool

unfoldable pub status : Node → StatusReply
status n = record {
  node_id = n.id;
  is_leader = n.is_leader;
  leader_id = n.leader_id;
  lamport_clock = get_clock n;
  data_count = length n.data_store;
  is_alive = true;
}

-- The keys, in the order in which the `range` visits the store.
unfoldable pub list_keys : (List String → List String) → Node → List String
list_keys order n = order (keys n.data_store)

pub record PartitionInfoReply : Type 0 where
  pub key : String
  pub owners : List ℤ
  pub primary : ℤ
  pub replicas : List ℤ
  pub is_partitioned : Bool
  pub replication_factor : ℤ
  pub message : String

-- Primary and replicas from the list of owners; an empty list leaves the zero values.
unfoldable pub primary_of : List ℤ → ℤ
primary_of [] = pos 0
primary_of (primary ∷ replicas) = primary

unfoldable pub replicas_of : List ℤ → List ℤ
replicas_of [] = []
replicas_of (primary ∷ replicas) = replicas

module _ (md5 : String → List ℕ) where
  unfoldable pub info_message : String → Node → List ℤ → Option String
  info_message key n [] = some "All nodes store this key (no partitioning)"
  info_message key n (primary ∷ replicas) = describe_partition md5 key n.partition_mgr

  unfoldable pub get_partition_info : String → Node → Option PartitionInfoReply
  get_partition_info key n = elim (get_partition_owners md5 key n.partition_mgr) [
    | none ↦ none
    | some owners ↦ elim (info_message key n owners) [
      | none ↦ none
      | some message ↦ some (record {
        key = key;
        owners = owners;
        primary = primary_of owners;
        replicas = replicas_of owners;
        is_partitioned = is_enabled n.partition_mgr;
        replication_factor = get_replication_factor n.partition_mgr;
        message = message;
      })
    ]
  ]
