-- ===== src/Election/Tests.antt =====
-- The theorems on the election, applied to a cluster of two nodes of which none leads yet.
use dynamo_db.Prelude.{
  refl, List, [], ◌∷◌, arith, ℤ, show, not, ◌≡◌, true, false, ◌&&◌, pos, ◌==◌, int_key,
  if◌then◌else◌,
}
use dynamo_db.Node.Samples.{member, network, pair, pair-all, two, two-all}
use dynamo_db.Node.Rpc.{view}
use dynamo_db.Ring.Samples.{as_listed, as_listed-IsOrder, second_first, second_first-IsOrder}
use dynamo_db.Election.{
  Round, Turn, monitors, starts_up, stops, take_turns, Schedule, start_election, monitor,
}
use dynamo_db.Election.Winner.{is_won, is_told, leader_of, leads, start_election-elects}
use dynamo_db.Election.Settled.{IsSettled}
use dynamo_db.Node.{Node}
use dynamo_db.Node.Storage.{Cluster}
use dynamo_db.Election.Failover.{failover-settles}
use dynamo_db.Election.Startup.{startup-settles}
use dynamo_db.Election.Calls.{someone_answers}
use dynamo_db.Node.{
  get_higher_nodes, ids_above, get_node_address, address_of, address, get_other_nodes,
  ids_other_than,
}
use dynamo_db.GoMap.{lookup}
use dynamo_db.Node.Rpc.{is_answered}
use dynamo_db.Node.Replication.{reached, executed_on}
use dynamo_db.Election.Monitor.{is_leader_alive, monitor-elects}

abbrev at_once : Schedule
at_once = record { ask_order = as_listed; in_time = λ id. true; announce_order = second_first }

start_election-elects_example :
    let n = member (pos 2) in
    let after = start_election network at_once false n pair in
    let changed = not false && is_won network at_once n pair && is_told network n (pos 1) in
    (view leader_of (pos 1) after
      ≡ (if changed then view (λ m. n.id) (pos 1) pair else view leader_of (pos 1) pair))
    × (view leads (pos 1) after
        ≡ (if changed then view (λ m. n.id == m.id) (pos 1) pair else view leads (pos 1) pair))
start_election-elects_example =
    start_election-elects network at_once false (member (pos 2)) pair as_listed-IsOrder
      second_first-IsOrder (pos 1)

monitor-elects_example :
    let n = member (pos 2) in
    let after = monitor network at_once as_listed true false n pair in
    let starts = not n.is_leader && not (is_leader_alive network true n pair) in
    let wins = not false && is_won network at_once n pair && is_told network n (pos 1) in
    let changed = starts && wins in
    (view leader_of (pos 1) after
      ≡ (if changed then view (λ m. n.id) (pos 1) pair else view leader_of (pos 1) pair))
    × (view leads (pos 1) after
        ≡ (if changed then view (λ m. n.id == m.id) (pos 1) pair else view leads (pos 1) pair))
monitor-elects_example =
    monitor-elects network at_once as_listed true false (member (pos 2)) pair as_listed-IsOrder
      second_first-IsOrder (pos 1)

abbrev round : Round
round = record {
  schedule = at_once;
  beat_order = as_listed;
  in_time = true;
  election_in_progress = false;
}

abbrev turns : List Turn
turns =
    monitors (pos 1) round
    ∷ monitors (pos 2) round
    ∷ starts_up (pos 1) at_once false
    ∷ stops (pos 1)
    ∷ monitors (pos 1) round
    ∷ []

second_wins : is_won network at_once (member (pos 2)) pair ≡ true
unfolding someone_answers get_higher_nodes ids_above
second_wins = refl

second_told :
    (is_told network (member (pos 2)) (pos 1) ≡ true)
    × (is_told network (member (pos 2)) (pos 2) ≡ true)
unfolding lookup reached executed_on get_node_address address_of address get_other_nodes
    ids_other_than show
second_told = (refl, refl)

second_answers : (i : ℤ) → is_answered network (get_node_address (pos 2) (member i)) pair ≡ true
unfolding is_answered get_node_address address_of address lookup show
second_answers i = refl

startup-settles_example :
    IsSettled network
      (pos 2)
      (take_turns network (starts_up (pos 2) at_once false ∷ turns) ([], pair)).1
unfolding lookup
startup-settles_example =
    startup-settles network (pos 2) at_once turns [] pair (member (pos 2)) (λ e. ground (arith, e))
      as_listed-IsOrder second_first-IsOrder refl refl second_wins
      (pair-all (λ j m. m.id ≡ j) refl refl)
      (pair-all (λ j m. is_told network (member (pos 2)) j ≡ true) second_told.0 second_told.1)
      (pair-all (λ j m. is_answered network (get_node_address (pos 2) m) pair ≡ true)
        (second_answers (pos 1)) (second_answers (pos 2)))
      (refl, (refl, (tt, (tt, (refl, tt)))))

-- Node 1 leads, and its answer comes late.
abbrev led_by_first : ℤ → Node
led_by_first id = record (member id) { leader_id = pos 1; is_leader = pos 1 == id }

abbrev led : Cluster
led = two (led_by_first (pos 1)) (led_by_first (pos 2))

abbrev late : Round
late = record round { in_time = false }

second_takes_over :
    (is_leader_alive network false (led_by_first (pos 2)) led ≡ false)
    × (is_won network at_once (led_by_first (pos 2)) led ≡ true)
unfolding is_leader_alive someone_answers get_higher_nodes ids_above
second_takes_over = (refl, refl)

takeover_told :
    (is_told network (led_by_first (pos 2)) (pos 1) ≡ true)
    × (is_told network (led_by_first (pos 2)) (pos 2) ≡ true)
unfolding lookup reached executed_on get_node_address address_of address get_other_nodes
    ids_other_than show
takeover_told = (refl, refl)

takeover_answers :
    (i : ℤ) → is_answered network (get_node_address (pos 2) (led_by_first i)) led ≡ true
unfolding is_answered get_node_address address_of address lookup show
takeover_answers i = refl

failover-settles_example :
    IsSettled network (pos 2) (take_turns network (monitors (pos 2) late ∷ turns) ([], led)).1
unfolding lookup
failover-settles_example =
    failover-settles network late turns [] led (led_by_first (pos 2)) (λ e. ground (arith, e))
      as_listed-IsOrder second_first-IsOrder refl refl refl second_takes_over.0 refl
      second_takes_over.1
      (two-all (led_by_first (pos 1)) (led_by_first (pos 2)) (λ j m. m.id ≡ j) refl refl)
      (two-all (led_by_first (pos 1)) (led_by_first (pos 2))
        (λ j m. is_told network (led_by_first (pos 2)) j ≡ true) takeover_told.0 takeover_told.1)
      (two-all (led_by_first (pos 1)) (led_by_first (pos 2))
        (λ j m. is_answered network (get_node_address (pos 2) m) led ≡ true)
        (takeover_answers (pos 1)) (takeover_answers (pos 2)))
      (refl, (refl, (tt, (tt, (refl, tt)))))
