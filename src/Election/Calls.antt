-- ===== src/Election/Calls.antt =====
-- election/bully.go: what the messages of an election do to the nodes.
use dynamo_db.Prelude.{
  ◌≡◌, refl, sym, ◌∙◌, inl, inr, String, Bool, true, false, ◌&&◌, ◌||◌, none, some, List, [], ◌∷◌,
  arith, ℤ, pos, int_key, if◌then◌else◌, Bool-cases, Option-cases,
}
use dynamo_db.GoMap.{lookup}
use dynamo_db.Node.{Node, increment_clock, get_node_address}
use dynamo_db.Node.Storage.{Network, Cluster}
use dynamo_db.Node.Handlers.{
  ElectionArgs, CoordinatorArgs, HeartbeatArgs, election, coordinator, heartbeat,
}
use dynamo_db.Node.Replication.{executed_on, reached}
use dynamo_db.Node.Rpc.{
  call, dials, increment_at, view, Preserves, call-keeps, increment_at-keeps, view-call,
  is_answered, SameMembers, is_answered-members, call-members, increment_at-members,
}
use dynamo_db.Election.{
  send_election_message, ask_higher, send_coordinator_message, announce, send_heartbeat,
  send_heartbeats,
}

-- Where Dial fails no call is executed, and none is answered.
pub undialed :
    (net : Network) (at : String) (j : ℤ) (cluster : Cluster)
    → dials net at ≡ false
    → (executed_on net at j ≡ false) × (is_answered net at cluster ≡ false)
unfolding dials executed_on is_answered
undialed net at j cluster down = ground (arith, down)

election-acknowledged : (args : ElectionArgs) (n : Node) → (election args n).1.acknowledged ≡ true
unfolding election
election-acknowledged args n = refl

-- An election message to a node that answers is acknowledged.
acknowledged :
    (net : Network) (at : String) (args : ElectionArgs) (cluster : Cluster)
    → (elim (call net at (election args) cluster).1 [ none ↦ false | some r ↦ r.acknowledged ])
      ≡ is_answered net at cluster
unfolding call is_answered election
acknowledged net at args cluster = ground arith

module _ {A : Type 0} (part : Node → A) (j : ℤ)
    (ticks : (n : Node) → part (increment_clock n).0 ≡ part n) where
  module _ (keeps : (args : ElectionArgs) → Preserves part j (election args)) where
    send_election_message-keeps :
        (net : Network) (n : Node) (node_id : ℤ) (cluster : Cluster)
        → view part j (send_election_message net n node_id cluster).0 ≡ view part j cluster
    unfolding send_election_message
    send_election_message-keeps net n node_id cluster =
        let at = get_node_address node_id n in
        let ticked = increment_at n.id cluster in
        let args : ElectionArgs = record { candidate_id = n.id; timestamp = ticked.1 } in
        elim (Bool-cases (dials net at)) [
          | inl up ↦ rw up (
              call-keeps part j net at (election args) ticked.0 (keeps args)
              ∙ increment_at-keeps part j n.id cluster ticks)
          | inr down ↦ rw down refl
        ]

    pub ask_higher-keeps :
        (net : Network) (n : Node) (in_time : ℤ → Bool) (node_ids : List ℤ) (cluster : Cluster)
        (got : Bool)
        → view part j (ask_higher net n in_time node_ids cluster got).0 ≡ view part j cluster
    unfolding ask_higher
    ask_higher-keeps net n in_time [] cluster got = refl
    ask_higher-keeps net n in_time (node_id ∷ node_ids) cluster got =
        ask_higher-keeps net n in_time node_ids (send_election_message net n node_id cluster).0 _
        ∙ send_election_message-keeps net n node_id cluster

  -- An announcement gives the part a value that further announcements leave alone.
  module _ (value : Node → A) (value_ticks : (n : Node) → value (increment_clock n).0 ≡ value n)
      (n : Node)
      (gives : (time : ℤ) (m : Node)
        → part (coordinator (record { leader_id = n.id; timestamp = time }) m).0 ≡ value m)
      (stays : (time : ℤ) (m : Node)
        → value (coordinator (record { leader_id = n.id; timestamp = time }) m).0 ≡ value m) where
    view-gives :
        (time : ℤ) (cluster : Cluster)
        → view
            (λ m. part (coordinator (record { leader_id = n.id; timestamp = time }) m).0)
            j
            cluster
          ≡ view value j cluster
    unfolding view
    view-gives time cluster = elim (Option-cases (lookup j cluster)) [
      | inl gone ↦ ground (arith, gone)
      | inr (m, e) ↦ ground (arith, e, gives time m)
    ]

    send_coordinator_message-view :
        (net : Network) (node_id : ℤ) (cluster : Cluster)
        → (view part j (send_coordinator_message net n node_id cluster) ≡ (
            if executed_on net (get_node_address node_id n) j
            then view value j cluster
            else view part j cluster))
          × (view value j (send_coordinator_message net n node_id cluster) ≡ view value j cluster)
    unfolding send_coordinator_message
    send_coordinator_message-view net node_id cluster =
        let at = get_node_address node_id n in
        let ticked = increment_at n.id cluster in
        let args : CoordinatorArgs = record { leader_id = n.id; timestamp = ticked.1 } in
        let old = increment_at-keeps part j n.id cluster ticks in
        let valued = increment_at-keeps value j n.id cluster value_ticks in
        elim (Bool-cases (dials net at)) [
          | inl up ↦ rw up (
            ground (
              arith,
              view-call part j net at (coordinator args) ticked.0,
              view-gives ticked.1 ticked.0,
              old,
              valued,
            ),
            call-keeps value j net at (coordinator args) ticked.0 (stays ticked.1) ∙ valued,
          )
          | inr down ↦ rw down (ground (arith, undialed net at j cluster down), refl)
        ]

    pub announce-view :
        (net : Network) (node_ids : List ℤ) (cluster : Cluster)
        → view part j (announce net n node_ids cluster)
          ≡ (if reached net n j node_ids then view value j cluster else view part j cluster)
    unfolding announce reached
    announce-view net [] cluster = refl
    announce-view net (node_id ∷ node_ids) cluster = ground (
      arith,
      announce-view net node_ids (send_coordinator_message net n node_id cluster),
      send_coordinator_message-view net node_id cluster,
    )

  module _ (keeps : (args : HeartbeatArgs) → Preserves part j (heartbeat args)) where
    send_heartbeat-keeps :
        (net : Network) (n : Node) (node_id : ℤ) (cluster : Cluster)
        → view part j (send_heartbeat net n node_id cluster) ≡ view part j cluster
    unfolding send_heartbeat
    send_heartbeat-keeps net n node_id cluster =
        let at = get_node_address node_id n in
        let ticked = increment_at n.id cluster in
        let args : HeartbeatArgs = record { leader_id = n.id; timestamp = ticked.1 } in
        elim (Bool-cases (dials net at)) [
          | inl up ↦ rw up (
              call-keeps part j net at (heartbeat args) ticked.0 (keeps args)
              ∙ increment_at-keeps part j n.id cluster ticks)
          | inr down ↦ rw down refl
        ]

    pub send_heartbeats-keeps :
        (net : Network) (n : Node) (node_ids : List ℤ) (cluster : Cluster)
        → view part j (send_heartbeats net n node_ids cluster) ≡ view part j cluster
    unfolding send_heartbeats
    send_heartbeats-keeps net n [] cluster = refl
    send_heartbeats-keeps net n (node_id ∷ node_ids) cluster =
        send_heartbeats-keeps net n node_ids (send_heartbeat net n node_id cluster)
        ∙ send_heartbeat-keeps net n node_id cluster

-- One of the nodes answers in time.
unfoldable pub someone_answers : Network → Node → (ℤ → Bool) → Cluster → List ℤ → Bool
someone_answers net n in_time cluster [] = false
someone_answers net n in_time cluster (node_id ∷ node_ids) =
    (in_time node_id && is_answered net (get_node_address node_id n) cluster)
    || someone_answers net n in_time cluster node_ids

pub someone_answers-members :
    (net : Network) (n : Node) (in_time : ℤ → Bool) (c d : Cluster) (node_ids : List ℤ)
    → SameMembers c d
    → someone_answers net n in_time c node_ids ≡ someone_answers net n in_time d node_ids
unfolding someone_answers
someone_answers-members net n in_time c d [] same = refl
someone_answers-members net n in_time c d (node_id ∷ node_ids) same = ground (
  arith,
  is_answered-members net (get_node_address node_id n) c d same,
  someone_answers-members net n in_time c d node_ids same,
)

send_election_message-answered :
    (net : Network) (n : Node) (node_id : ℤ) (cluster : Cluster)
    → ((send_election_message net n node_id cluster).1
        ≡ is_answered net (get_node_address node_id n) cluster)
      × SameMembers (send_election_message net n node_id cluster).0 cluster
unfolding send_election_message
send_election_message-answered net n node_id cluster =
    let at = get_node_address node_id n in
    let ticked = increment_at n.id cluster in
    let args : ElectionArgs = record { candidate_id = n.id; timestamp = ticked.1 } in
    elim (Bool-cases (dials net at)) [
      | inl up ↦ rw up (
        acknowledged net at args ticked.0
            ∙ is_answered-members net at ticked.0 cluster (increment_at-members n.id cluster),
        λ j. call-members net at (election args) ticked.0 j ∙ increment_at-members n.id cluster j,
      )
      | inr down ↦ rw down (sym (undialed net at (pos 0) cluster down).1, λ j. refl)
    ]

pub ask_higher-answers :
    (net : Network) (n : Node) (in_time : ℤ → Bool) (node_ids : List ℤ) (cluster : Cluster)
    (got : Bool)
    → (ask_higher net n in_time node_ids cluster got).1
      ≡ (got || someone_answers net n in_time cluster node_ids)
unfolding ask_higher someone_answers
ask_higher-answers net n in_time [] cluster got = ground arith
ask_higher-answers net n in_time (node_id ∷ node_ids) cluster got =
    let sent = send_election_message net n node_id cluster in
    let (answered, same) = send_election_message-answered net n node_id cluster in
    ground (
      arith,
      ask_higher-answers net n in_time node_ids sent.0
          (if in_time node_id then sent.1 || got else got),
      someone_answers-members net n in_time sent.0 cluster node_ids same,
      answered,
    )
