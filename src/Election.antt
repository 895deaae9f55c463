-- ===== src/Election.antt =====
-- election/bully.go: the election of a leader, the announcement, and the monitor of the leader.
--
-- The goroutines of an election run in some order, and some of them end after the timeout: the
-- order, and whether an answer is there in time, are arguments. What StartHeartbeatMonitor does
-- between two sleeps is one `monitor`; the sleeps only pass time. A `Turn` is what a node's
-- goroutines do at once, and the loops of all nodes are a list of turns, in any order; a monitor
-- ends with its node's `stops`, when its loop takes what StopHeartbeatMonitor sends; the node goes
-- on answering.
pub mod Calls
pub mod Winner
pub mod Monitor
pub mod Settled
pub mod Startup
pub mod Failover
mod Tests
use dynamo_db.Prelude.{
  elem, ℕ, String, Bool, true, false, ◌||◌, not, Option, none, some, List, [], ◌∷◌, length, eqb_ℕ,
  ℤ, pos, negsuc, int_key, ◌==◌, if◌then◌else◌,
}
use dynamo_db.Node.{
  Node, set_leader, get_leader, am_i_leader, get_node_address, get_other_nodes, get_higher_nodes,
}
use dynamo_db.GoMap.{lookup}
use dynamo_db.Node.Storage.{Network, Cluster}
use dynamo_db.Node.Handlers.{
  ElectionArgs, ElectionReply, CoordinatorArgs, HeartbeatArgs, election, coordinator, heartbeat,
}
use dynamo_db.Node.Rpc.{call, dials, modify, increment_at}

-- `sendElectionMessage`: whether the node has acknowledged.
unfoldable pub send_election_message : Network → Node → ℤ → Cluster → Cluster × Bool
send_election_message net n node_id cluster =
    let at = get_node_address node_id n in
    if dials net at
    then (let (ticked, time) = increment_at n.id cluster in
        let (after, reply) =
          call net at (election (record { candidate_id = n.id; timestamp = time })) ticked in
        (after, elim reply [ none ↦ false | some r ↦ r.acknowledged ]))
    else (cluster, false)

-- The goroutines of an election, one after the other: whether one got an answer in time.
unfoldable pub ask_higher : Network → Node → (ℤ → Bool) → List ℤ → Cluster → Bool → Cluster × Bool
ask_higher net n in_time [] cluster got_response = (cluster, got_response)
ask_higher net n in_time (node_id ∷ node_ids) cluster got_response =
    let (after, answered) = send_election_message net n node_id cluster in
    ask_higher net n in_time node_ids after
      (if in_time node_id then answered || got_response else got_response)

unfoldable pub send_coordinator_message : Network → Node → ℤ → Cluster → Cluster
send_coordinator_message net n node_id cluster =
    let at = get_node_address node_id n in
    if dials net at
    then (let (ticked, time) = increment_at n.id cluster in
        (call net at (coordinator (record { leader_id = n.id; timestamp = time })) ticked).0)
    else cluster

unfoldable pub announce : Network → Node → List ℤ → Cluster → Cluster
announce net n [] cluster = cluster
announce net n (node_id ∷ node_ids) cluster =
    announce net n node_ids (send_coordinator_message net n node_id cluster)

-- `order` is that of the goroutines.
unfoldable pub become_leader : Network → (List ℤ → List ℤ) → Node → Cluster → Cluster
become_leader net order n cluster =
    announce net n (order (get_other_nodes n)) (modify n.id (set_leader n.id) cluster)

-- How the goroutines of one election run.
pub record Schedule : Type 0 where
  pub ask_order : List ℤ → List ℤ
  pub in_time : ℤ → Bool
  pub announce_order : List ℤ → List ℤ

-- StartElection on the node `n` of the cluster. The flag is false again when it returns, so that it
-- only tells whether another call of the node has not returned yet.
unfoldable pub start_election : Network → Schedule → Bool → Node → Cluster → Cluster
start_election net schedule election_in_progress n cluster =
    if election_in_progress
    then cluster
    else let higher_nodes = get_higher_nodes n in
      if eqb_ℕ (length higher_nodes) 0
      then become_leader net schedule.announce_order n cluster
      else let (after, received_response) =
          ask_higher net n schedule.in_time (schedule.ask_order higher_nodes) cluster false in
        if received_response then after else become_leader net schedule.announce_order n after

unfoldable pub send_heartbeat : Network → Node → ℤ → Cluster → Cluster
send_heartbeat net n node_id cluster =
    let at = get_node_address node_id n in
    if dials net at
    then (let (ticked, time) = increment_at n.id cluster in
        (call net at (heartbeat (record { leader_id = n.id; timestamp = time })) ticked).0)
    else cluster

unfoldable pub send_heartbeats : Network → Node → List ℤ → Cluster → Cluster
send_heartbeats net n [] cluster = cluster
send_heartbeats net n (node_id ∷ node_ids) cluster =
    send_heartbeats net n node_ids (send_heartbeat net n node_id cluster)

-- `in_time`: the answer comes before the timeout.
unfoldable pub check_leader_alive : Network → Bool → Node → Cluster → Cluster × Bool
check_leader_alive net in_time n cluster =
    let leader_id = get_leader n in
    if leader_id == negsuc 0
    then (cluster, false)
    else if leader_id == n.id
    then (cluster, true)
    else let at = get_node_address leader_id n in
      if dials net at
      then (let (ticked, time) = increment_at n.id cluster in
          let (after, reply) =
            call net at (heartbeat (record { leader_id = leader_id; timestamp = time })) ticked in
          (after, elim reply [ none ↦ false | some alive ↦ if in_time then alive else false ]))
      else (cluster, false)

-- One round of the monitor of the node `n` of the cluster.
unfoldable pub monitor :
    Network → Schedule → (List ℤ → List ℤ) → Bool → Bool → Node → Cluster → Cluster
monitor net schedule beat_order in_time election_in_progress n cluster =
    if am_i_leader n
    then send_heartbeats net n (beat_order (get_other_nodes n)) cluster
    else let (after, alive) = check_leader_alive net in_time n cluster in
      if alive then after else start_election net schedule election_in_progress n after

-- After the wait for the other nodes.
unfoldable pub trigger_election_on_startup : Network → Schedule → Bool → Node → Cluster → Cluster
trigger_election_on_startup net schedule election_in_progress n cluster =
    if get_leader n == negsuc 0
    then start_election net schedule election_in_progress n cluster
    else cluster

-- What the loop of a monitor reads in one round.
pub record Round : Type 0 where
  pub schedule : Schedule
  pub beat_order : List ℤ → List ℤ
  pub in_time : Bool
  pub election_in_progress : Bool

-- What the goroutines of the nodes do in turn: a round of a monitor, the election on start-up, and
-- the end of a monitor by StopHeartbeatMonitor.
pub data Turn : Type 0 where
  monitors : ℤ → Round → Turn
  starts_up : ℤ → Schedule → Bool → Turn
  stops : ℤ → Turn

-- `stopped`: the nodes whose monitors have ended.
unfoldable pub take_turn : Network → Turn → List ℤ × Cluster → List ℤ × Cluster
take_turn net (monitors id r) (stopped, cluster) = elim (lookup id cluster) [
  | none ↦ (stopped, cluster)
  | some n ↦ (
    stopped,
    if elem id stopped
        then cluster
        else monitor net r.schedule r.beat_order r.in_time r.election_in_progress n cluster,
  )
]
take_turn net (starts_up id schedule in_progress) (stopped, cluster) = elim (lookup id cluster) [
  | none ↦ (stopped, cluster)
  | some n ↦ (stopped, trigger_election_on_startup net schedule in_progress n cluster)
]
take_turn net (stops id) (stopped, cluster) = (id ∷ stopped, cluster)

unfoldable pub take_turns : Network → List Turn → List ℤ × Cluster → List ℤ × Cluster
take_turns net [] s = s
take_turns net (turn ∷ turns) s = take_turns net turns (take_turn net turn s)
