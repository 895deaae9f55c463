-- ===== src/Election/Monitor.antt =====
-- election/bully.go: when the monitor takes the leader for dead, and what it does then.
use dynamo_db.Prelude.{
  ◌≡◌, refl, ap, ◌∙◌, inl, inr, String, Bool, false, ◌&&◌, ◌||◌, not, none, some, List, arith, ℤ,
  pos, negsuc, int_key, ◌==◌, if◌then◌else◌, Bool-cases,
}
use dynamo_db.GoMap.{IsOrder}
use dynamo_db.Node.{
  Node, increment_clock, update_clock, get_leader, am_i_leader, get_node_address, get_other_nodes,
  get_higher_nodes,
}
use dynamo_db.Node.Storage.{Network, Cluster}
use dynamo_db.Node.Handlers.{HeartbeatArgs, heartbeat}
use dynamo_db.Node.Rpc.{
  call, dials, increment_at, view, Preserves, call-keeps, increment_at-keeps, is_answered,
  SameMembers, is_answered-members, call-members, increment_at-members,
}
use dynamo_db.Election.{Schedule, start_election, check_leader_alive, monitor}
use dynamo_db.Election.Calls.{send_heartbeats-keeps, undialed, someone_answers-members}
use dynamo_db.Election.Winner.{is_won, is_told, leader_of, leads, start_election-elects}

-- The leader that the node has is itself or answers a heartbeat in time.
unfoldable pub is_leader_alive : Network → Bool → Node → Cluster → Bool
is_leader_alive net in_time n cluster =
    not (n.leader_id == negsuc 0)
    && (n.leader_id == n.id || in_time && is_answered net (get_node_address n.leader_id n) cluster)

alive_lem :
    (net : Network) (at : String) (args : HeartbeatArgs) (in_time : Bool) (cluster : Cluster)
    → (elim (call net at (heartbeat args) cluster).1 [
      | none ↦ false
      | some alive ↦ if in_time then alive else false
    ])
      ≡ (in_time && is_answered net at cluster)
unfolding call is_answered heartbeat
alive_lem net at args in_time cluster = ground arith

heartbeats :
    (net : Network) (n : Node) (in_time : Bool) (cluster : Cluster)
    → (n.leader_id == negsuc 0) ≡ false
    → (n.leader_id == n.id) ≡ false
    → ((check_leader_alive net in_time n cluster).1
        ≡ (in_time && is_answered net (get_node_address n.leader_id n) cluster))
      × SameMembers (check_leader_alive net in_time n cluster).0 cluster
unfolding check_leader_alive get_leader
heartbeats net n in_time cluster known other =
    let at = get_node_address n.leader_id n in
    let ticked = increment_at n.id cluster in
    let args : HeartbeatArgs = record { leader_id = n.leader_id; timestamp = ticked.1 } in
    elim (Bool-cases (dials net at)) [
      | inl up ↦
          rw (known, other, up)
            (
              alive_lem net at args in_time ticked.0
                  ∙ ap (λ b. in_time && b)
                      (is_answered-members net at ticked.0 cluster
                        (increment_at-members n.id cluster)),
              λ j.
                  call-members net at (heartbeat args) ticked.0 j
                  ∙ increment_at-members n.id cluster j,
            )
      | inr down ↦
          rw (known, other, down) (ground (arith, undialed net at (pos 0) cluster down), λ j. refl)
    ]

pub check_leader_alive_lem :
    (net : Network) (n : Node) (in_time : Bool) (cluster : Cluster)
    → ((check_leader_alive net in_time n cluster).1 ≡ is_leader_alive net in_time n cluster)
      × SameMembers (check_leader_alive net in_time n cluster).0 cluster
unfolding is_leader_alive
check_leader_alive_lem net n in_time cluster = elim (Bool-cases (n.leader_id == negsuc 0)) [
  | inl none_known ↦ unfold check_leader_alive get_leader in rw none_known (refl, λ j. refl)
  | inr known ↦ elim (Bool-cases (n.leader_id == n.id)) [
    | inl own ↦ unfold check_leader_alive get_leader in rw (known, own) (refl, λ j. refl)
    | inr other ↦
        let (alive, same) = heartbeats net n in_time cluster known other in
        (ground (arith, alive, known, other), same)
  ]
]

module _ {A : Type 0} (part : Node → A) (j : ℤ)
    (ticks : (m : Node) → part (increment_clock m).0 ≡ part m)
    (beats : (args : HeartbeatArgs) → Preserves part j (heartbeat args)) where
  pub check_leader_alive-keeps :
      (net : Network) (n : Node) (in_time : Bool) (cluster : Cluster)
      → view part j (check_leader_alive net in_time n cluster).0 ≡ view part j cluster
  unfolding check_leader_alive get_leader
  check_leader_alive-keeps net n in_time cluster =
      let at = get_node_address n.leader_id n in
      let ticked = increment_at n.id cluster in
      let args : HeartbeatArgs = record { leader_id = n.leader_id; timestamp = ticked.1 } in
      ground (
        arith,
        call-keeps part j net at (heartbeat args) ticked.0 (beats args),
        increment_at-keeps part j n.id cluster ticks,
      )

pub is_won-members :
    (net : Network) (schedule : Schedule) (n : Node) (c d : Cluster)
    → SameMembers c d
    → is_won net schedule n c ≡ is_won net schedule n d
is_won-members net schedule n c d same =
    ap not (someone_answers-members net n schedule.in_time c d (get_higher_nodes n) same)

module _ (j : ℤ) (net : Network) (schedule : Schedule) (in_time in_progress : Bool) (n : Node)
    (cluster : Cluster) where
  -- A part that only an election changes, to `value` where it `wins`.
  monitor-part :
      {A : Type 0} (part value : Node → A)
      → ((m : Node) → part (increment_clock m).0 ≡ part m)
      → ((args : HeartbeatArgs) → Preserves part j (heartbeat args))
      → ((m : Node) → value (increment_clock m).0 ≡ value m)
      → ((args : HeartbeatArgs) → Preserves value j (heartbeat args))
      → (beat_order : List ℤ → List ℤ)
      → let checked = (check_leader_alive net in_time n cluster).0 in
        let wins = λ (c : Cluster). not in_progress && is_won net schedule n c && is_told net n j in
        view part j (start_election net schedule in_progress n checked)
          ≡ (if wins checked then view value j checked else view part j checked)
        → view part j (monitor net schedule beat_order in_time in_progress n cluster) ≡ (
            if not n.is_leader && not (is_leader_alive net in_time n cluster) && wins cluster
            then view value j cluster
            else view part j cluster)
  unfolding monitor am_i_leader
  monitor-part part value ticks beats vticks vbeats beat_order elected =
      let (alive, same) = check_leader_alive_lem net n in_time cluster in
      let won =
        is_won-members net schedule n (check_leader_alive net in_time n cluster).0 cluster same in
      let kept = check_leader_alive-keeps part j ticks beats net n in_time cluster in
      let valued = check_leader_alive-keeps value j vticks vbeats net n in_time cluster in
      elim (Bool-cases n.is_leader) [
        | inl leader ↦ ground (
          arith,
          leader,
          send_heartbeats-keeps part j ticks beats net n (beat_order (get_other_nodes n)) cluster,
        )
        | inr follower ↦ ground (arith, follower, elected, alive, won, kept, valued)
      ]

-- In one round of the monitor, leaders change exactly where the node is not the leader, takes its
-- own for dead, has no other election running, and wins the one that it starts: then the node
-- itself and every node on which one of its announcements is executed take it for the leader, each
-- of them itself exactly if the announced ID is its own. A leader is alive if it is the node itself
-- or answers in time, whether or not it takes itself for the leader.
pub monitor-elects :
    (net : Network) (schedule : Schedule) (beat_order : List ℤ → List ℤ)
    (in_time in_progress : Bool) (n : Node) (cluster : Cluster)
    → IsOrder schedule.ask_order
    → IsOrder schedule.announce_order
    → (j : ℤ)
    → let after = monitor net schedule beat_order in_time in_progress n cluster in
      let starts = not n.is_leader && not (is_leader_alive net in_time n cluster) in
      let wins = not in_progress && is_won net schedule n cluster && is_told net n j in
      let changed = starts && wins in
      (view leader_of j after
        ≡ (if changed then view (λ m. n.id) j cluster else view leader_of j cluster))
      × (view leads j after
          ≡ (if changed then view (λ m. n.id == m.id) j cluster else view leads j cluster))
unfolding increment_clock heartbeat update_clock
monitor-elects net schedule beat_order in_time in_progress n cluster asks announces j =
    let checked = check_leader_alive net in_time n cluster in
    let elected = start_election-elects net schedule in_progress n checked.0 asks announces j in
    (
      monitor-part j net schedule in_time in_progress n cluster leader_of (λ m. n.id) (λ m. refl)
          (λ args m. refl) (λ m. refl) (λ args m. refl) beat_order elected.0,
      monitor-part j net schedule in_time in_progress n cluster leads (λ m. n.id == m.id)
          (λ m. refl) (λ args m. refl) (λ m. refl) (λ args m. refl) beat_order elected.1,
    )
