-- ===== src/Node.antt =====
-- node/node.go: a node's state, its Lamport clock, its leader, and its view of the cluster.
-- A timestamp is an `int64`, whose increment wraps. The locks of a node guard single fields for
-- single reads and writes, so a method is one step. What PrintStatus prints is a list of lines.
pub mod Storage
pub mod Handlers
pub mod Dag
pub mod Clock
pub mod Leader
pub mod Exclusion
pub mod Replication
pub mod Deletion
pub mod Rpc
pub mod Fixed
pub mod Samples
mod Tests
use dynamo_db.Prelude.{
  ℕ, zero, suc, ◌+◌, ◌^◌, ◌-◌, String, text_append, Bool, true, false, Option, none, some, List, [],
  ◌∷◌, ◌++◌, length, map, eqb_ℕ, ℤ, pos, negsuc, ltb_ℤ, eqb_ℤ, int_key, ◌==◌, not, show,
  if◌then◌else◌,
}
use dynamo_db.GoMap.{GoMap, empty}
use dynamo_db.Manager
use dynamo_db.Manager.{PartitionManager, new_partition_manager}
use dynamo_db.Deadlock.{DagManager}

pub record NodeConfig : Type 0 where
  pub id : ℤ
  pub ip : String
  pub port : ℤ

pub record PartitionConfig : Type 0 where
  pub enabled : Bool
  pub replication_factor : ℤ

pub record Config : Type 0 where
  pub nodes : List NodeConfig
  pub heartbeat_interval : ℤ
  pub election_timeout : ℤ
  pub deadlock_timeout : ℤ
  pub partition : PartitionConfig

pub record StoredItem : Type 0 where
  pub value : List ℕ
  pub timestamp : ℤ

pub record DeferredRequest : Type 0 where
  pub node_id : ℤ
  pub timestamp : ℤ

-- `deadlock_mgr` is `none` until main.go sets it. The manager of the mutual exclusion is no part of
-- the record: MutexPut, in `Mutex`, takes whether there is one.
pub record Node : Type 0 where
  pub id : ℤ
  pub ip : String
  pub port : ℤ
  pub config : Config
  pub data_store : GoMap String StoredItem
  pub lamport_clock : ℤ
  pub leader_id : ℤ
  pub is_leader : Bool
  pub requesting_cs : Bool
  pub request_time : ℤ
  pub reply_count : ℤ
  pub deferred_queue : List DeferredRequest
  pub deadlock_mgr : Option DagManager
  pub partition_mgr : PartitionManager

-- The first entry with the ID, or Go's zero value.
unfoldable pub find_config : ℤ → List NodeConfig → NodeConfig
find_config id [] = record { id = pos 0; ip = ""; port = pos 0 }
find_config id (nc ∷ ncs) = if nc.id == id then nc else find_config id ncs

-- The largest `int64`, and the one that follows it.
abbrev pub max_int64 : ℕ
max_int64 = 2 ^ 63 - 1

-- `x++` on an `int64`.
unfoldable pub increment : ℤ → ℤ
increment (pos n) = if eqb_ℕ n max_int64 then negsuc max_int64 else pos (n + 1)
increment (negsuc zero) = pos 0
increment (negsuc (suc n)) = negsuc n

unfoldable pub increment_clock : Node → Node × ℤ
increment_clock n =
    let time = increment n.lamport_clock in (record n { lamport_clock = time }, time)

unfoldable pub update_clock : ℤ → Node → Node × ℤ
update_clock received n =
    let latest = if ltb_ℤ n.lamport_clock received then received else n.lamport_clock in
    let time = increment latest in (record n { lamport_clock = time }, time)

unfoldable pub get_clock : Node → ℤ
get_clock n = n.lamport_clock

unfoldable pub set_leader : ℤ → Node → Node
set_leader leader_id n = record n { leader_id = leader_id; is_leader = leader_id == n.id }

unfoldable pub get_leader : Node → ℤ
get_leader n = n.leader_id

unfoldable pub am_i_leader : Node → Bool
am_i_leader n = n.is_leader

-- fmt.Sprintf("%s:%d", ip, port)
unfoldable pub address : String → ℤ → String
address ip port = text_append ip (text_append ":" (show port))

unfoldable pub get_address : Node → String
get_address n = address n.ip n.port

unfoldable pub print_status : Node → List String
print_status n =
    "===================================="
      ∷ text_append "         NODE " (text_append (show n.id) " STATUS")
      ∷ "===================================="
      ∷ text_append "Address: " (get_address n)
      ∷ (if n.is_leader
          then "Role: LEADER" ∷ []
          else "Role: FOLLOWER" ∷ text_append "Leader: Node " (show n.leader_id) ∷ [])
    ++ text_append "Lamport Clock: " (show (get_clock n))
      ∷ text_append "Stored Items: " (show (pos (length n.data_store)))
      ∷ "===================================="
      ∷ []

unfoldable pub address_of : ℤ → List NodeConfig → String
address_of node_id [] = ""
address_of node_id (nc ∷ ncs) =
    if nc.id == node_id then address nc.ip nc.port else address_of node_id ncs

unfoldable pub get_node_address : ℤ → Node → String
get_node_address node_id n = address_of node_id n.config.nodes

unfoldable pub ids_other_than : ℤ → List NodeConfig → List ℤ
ids_other_than id [] = []
ids_other_than id (nc ∷ ncs) =
    let rest = ids_other_than id ncs in if nc.id == id then rest else nc.id ∷ rest

unfoldable pub get_other_nodes : Node → List ℤ
get_other_nodes n = ids_other_than n.id n.config.nodes

unfoldable pub ids_above : ℤ → List NodeConfig → List ℤ
ids_above id [] = []
ids_above id (nc ∷ ncs) =
    let rest = ids_above id ncs in if ltb_ℤ id nc.id then nc.id ∷ rest else rest

unfoldable pub get_higher_nodes : Node → List ℤ
get_higher_nodes n = ids_above n.id n.config.nodes

unfoldable pub get_all_node_ids : Node → List ℤ
get_all_node_ids n = map (λ nc. nc.id) n.config.nodes

module _ (md5 : String → List ℕ) where
  -- The loop that puts every configured node on the ring.
  unfoldable pub add_all_nodes : List NodeConfig → PartitionManager → PartitionManager
  add_all_nodes [] pm = pm
  add_all_nodes (nc ∷ ncs) pm = add_all_nodes ncs (Manager.add_node md5 nc.id pm)

  -- The partition manager of a configuration, the same for every node.
  unfoldable pub initial_partition_mgr : Config → PartitionManager
  initial_partition_mgr config =
      let factor = config.partition.replication_factor in
      add_all_nodes config.nodes (
        new_partition_manager config.partition.enabled
          (if eqb_ℤ factor (pos 0) then pos 3 else factor))

  unfoldable pub new_node : ℤ → Config → Node
  new_node id config =
      let nc = find_config id config.nodes in
      record {
        id = id;
        ip = nc.ip;
        port = nc.port;
        config = config;
        data_store = empty;
        lamport_clock = pos 0;
        leader_id = negsuc 0;
        is_leader = false;
        requesting_cs = false;
        request_time = pos 0;
        reply_count = pos 0;
        deferred_queue = [];
        deadlock_mgr = none;
        partition_mgr = initial_partition_mgr config;
      }
