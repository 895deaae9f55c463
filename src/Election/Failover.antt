-- ===== src/Election/Failover.antt =====
-- election/bully.go: a node that takes its leader for dead and wins the election settles the
-- cluster.
use dynamo_db.Prelude.{
  elem, ◌≡◌, ◌≢◌, sym, ap, subst, ◌∙◌, true, false, some, List, ◌∷◌, arith, ℤ, negsuc, int_key,
}
use dynamo_db.GoMap.{lookup, IsOrder}
use dynamo_db.Node.{Node, am_i_leader, get_node_address}
use dynamo_db.Node.Storage.{Network, Cluster}
use dynamo_db.Node.Rpc.{is_answered, is_answered-members}
use dynamo_db.Election.{
  Round, Turn, monitors, monitor, check_leader_alive, start_election, take_turn, take_turns,
}
use dynamo_db.Election.Winner.{is_won, is_told}
use dynamo_db.Election.Monitor.{
  is_leader_alive, check_leader_alive-keeps, check_leader_alive_lem, is_won-members,
}
use dynamo_db.Election.Settled.{
  standing, StandAlike, IsSettled, AreInTime, standing-lookup, standing-members, address-fixed,
  ticks-standing, beats-standing, take_turns-IsSettled,
}
use dynamo_db.Election.Startup.{start_election-IsSettled}

module _ (net : Network) (r : Round) (n : Node) (cluster : Cluster) where
  abbrev checked : Cluster
  checked = (check_leader_alive net r.in_time n cluster).0

  checked-alike : StandAlike checked cluster
  checked-alike j =
      check_leader_alive-keeps standing j ticks-standing beats-standing net n r.in_time cluster

  monitor-starts :
      (follower : n.is_leader ≡ false) (dead : is_leader_alive net r.in_time n cluster ≡ false)
      (idle : r.election_in_progress ≡ false)
      → monitor net r.schedule r.beat_order r.in_time r.election_in_progress n cluster
        ≡ start_election net r.schedule false n checked
  unfolding monitor am_i_leader
  monitor-starts follower dead idle =
      ground (arith, follower, dead, idle, (check_leader_alive_lem net n r.in_time cluster).0)

  monitor-IsSettled :
      (asks : IsOrder r.schedule.ask_order) (announces : IsOrder r.schedule.announce_order)
      (won : is_won net r.schedule n cluster ≡ true)
      (own : (j : ℤ) (m : Node) → lookup j cluster ≡ some m → m.id ≡ j)
      (told : (j : ℤ) (m : Node) → lookup j cluster ≡ some m → is_told net n j ≡ true)
      (answers : (j : ℤ) (m : Node)
        → lookup j cluster ≡ some m
        → is_answered net (get_node_address n.id m) cluster ≡ true)
      → IsSettled net n.id (start_election net r.schedule false n checked)
  monitor-IsSettled asks announces won own told answers =
      start_election-IsSettled net r.schedule n checked asks announces
        (is_won-members net r.schedule n checked cluster
            (standing-members checked cluster checked-alike)
          ∙ won)
        (λ j m here.
          let (o, there, same) = standing-lookup j m checked cluster checked-alike here in
          ap (λ s. s.fixed.id) same ∙ own j o there)
        (λ j m here.
          let (o, there, same) = standing-lookup j m checked cluster checked-alike here in
          told j o there)
        (λ j m here.
          let (o, there, same) = standing-lookup j m checked cluster checked-alike here in
          ap (λ at. is_answered net at checked) (address-fixed n.id m o same)
          ∙ is_answered-members net (get_node_address n.id o) checked cluster
              (standing-members checked cluster checked-alike)
          ∙ answers j o there)

-- A node that does not lead, takes the leader that it has for dead, wins the election that it
-- starts and is told to every node of the cluster settles it: after any turns of the monitors and
-- of further start-ups, in any order and with any monitors stopped, every node takes it for the
-- leader, and it alone takes itself for it. Its own monitor is not stopped at first, no other
-- election of it runs, every node is under its own ID and reaches it at the address that it has of
-- it, its ID is not -1, and the later heartbeats are answered in time.
pub failover-settles :
    (net : Network) (r : Round) (turns : List Turn) (stopped : List ℤ) (cluster : Cluster)
    (n : Node)
    → n.id ≢ negsuc 0
    → IsOrder r.schedule.ask_order
    → IsOrder r.schedule.announce_order
    → lookup n.id cluster ≡ some n
    → elem n.id stopped ≡ false
    → n.is_leader ≡ false
    → is_leader_alive net r.in_time n cluster ≡ false
    → r.election_in_progress ≡ false
    → is_won net r.schedule n cluster ≡ true
    → ((j : ℤ) (m : Node) → lookup j cluster ≡ some m → m.id ≡ j)
    → ((j : ℤ) (m : Node) → lookup j cluster ≡ some m → is_told net n j ≡ true)
    → ((j : ℤ) (m : Node)
        → lookup j cluster ≡ some m
        → is_answered net (get_node_address n.id m) cluster ≡ true)
    → AreInTime turns
    → IsSettled net n.id (take_turns net (monitors n.id r ∷ turns) (stopped, cluster)).1
unfolding take_turns take_turn
failover-settles net r turns stopped cluster n named asks announces here runs follower dead idle won
      own told answers soon =
    let after = take_turn net (monitors n.id r) (stopped, cluster) in
    let turned : after.1 ≡ start_election net r.schedule false n (checked net r n cluster) =
      ground (arith, here, runs, monitor-starts net r n cluster follower dead idle) in
    take_turns-IsSettled net n.id named turns after.0 after.1 soon (
      subst (IsSettled net n.id) (sym turned)
        (monitor-IsSettled net r n cluster asks announces won own told answers))
