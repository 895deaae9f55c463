-- ===== src/Election/Settled.antt =====
-- election/bully.go: a cluster that has agreed on a leader that answers, round after round.
use dynamo_db.Prelude.{
  ◌≡◌, ◌≢◌, refl, ap, ◌∙◌, inl, inr, Bool, true, some, List, [], ◌∷◌, arith, ℤ, negsuc, int_key,
  ◌==◌, ==_iff, Option-cases, Bool-cases,
}
use dynamo_db.GoMap.{lookup}
use dynamo_db.Node.{
  Node, increment_clock, update_clock, get_leader, am_i_leader, get_node_address, get_other_nodes,
}
use dynamo_db.Node.Fixed.{Fixed, fixed}
use dynamo_db.Node.Storage.{Network, Cluster}
use dynamo_db.Node.Handlers.{HeartbeatArgs, heartbeat}
use dynamo_db.Node.Rpc.{view, is_answered, SameMembers, is_answered-members}
use dynamo_db.Election.{
  Schedule, Turn, monitors, starts_up, stops, monitor, trigger_election_on_startup, take_turn,
  take_turns,
}
use dynamo_db.Election.Calls.{send_heartbeats-keeps}
use dynamo_db.Election.Monitor.{is_leader_alive, check_leader_alive-keeps, check_leader_alive_lem}

-- Where a node stands in the cluster.
pub record Standing : Type 0 where
  pub fixed : Fixed
  pub leader_id : ℤ
  pub is_leader : Bool

abbrev pub standing : Node → Standing
standing n = record { fixed = fixed n; leader_id = n.leader_id; is_leader = n.is_leader }

abbrev pub StandAlike : Cluster → Cluster → Type 0
StandAlike c d = (j : ℤ) → view standing j c ≡ view standing j d

-- Every node takes `h` for the leader, and no other node takes itself for it; a call to `h` is
-- answered.
pub record IsSettled (net : Network) (h : ℤ) (cluster : Cluster) : Type 0 where
  pub own : (j : ℤ) (n : Node) → lookup j cluster ≡ some n → n.id ≡ j
  pub agrees : (j : ℤ) (n : Node) → lookup j cluster ≡ some n → n.leader_id ≡ h
  pub leads : (j : ℤ) (n : Node) → lookup j cluster ≡ some n → n.is_leader ≡ (h == j)
  pub answers :
      (j : ℤ) (n : Node)
      → lookup j cluster ≡ some n
      → is_answered net (get_node_address h n) cluster ≡ true

pub standing-lookup :
    (j : ℤ) (m : Node) (c d : Cluster)
    → StandAlike c d
    → lookup j c ≡ some m
    → (n : Node) × (lookup j d ≡ some n) × (standing m ≡ standing n)
unfolding view
standing-lookup j m c d alike here = elim (Option-cases (lookup j d)) [
  | inl gone ↦ absurd (ground (arith, alike j, here, gone))
  | inr (n, there) ↦ (n, there, ground (arith, alike j, here, there))
]

pub standing-members : (c d : Cluster) → StandAlike c d → SameMembers c d
unfolding view
standing-members c d alike j = ground (arith, alike j)

pub address-fixed :
    (h : ℤ) (m n : Node) → standing m ≡ standing n → get_node_address h m ≡ get_node_address h n
unfolding get_node_address
address-fixed h m n same = rw (ap (λ s. s.fixed.config) same) refl

pub alike-IsSettled :
    (net : Network) (h : ℤ) (c d : Cluster) → StandAlike c d → IsSettled net h d → IsSettled net h c
alike-IsSettled net h c d alike s = record {
  own = λ j m here.
      let (n, there, same) = standing-lookup j m c d alike here in
      ap (λ k. k.fixed.id) same ∙ s.own j n there;
  agrees = λ j m here.
      let (n, there, same) = standing-lookup j m c d alike here in
      ap (λ k. k.leader_id) same ∙ s.agrees j n there;
  leads = λ j m here.
      let (n, there, same) = standing-lookup j m c d alike here in
      ap (λ k. k.is_leader) same ∙ s.leads j n there;
  answers = λ j m here.
      let (n, there, same) = standing-lookup j m c d alike here in
      ap (λ at. is_answered net at c) (address-fixed h m n same)
      ∙ is_answered-members net (get_node_address h n) c d (standing-members c d alike)
      ∙ s.answers j n there;
}

pub ticks-standing : (n : Node) → standing (increment_clock n).0 ≡ standing n
unfolding increment_clock
ticks-standing n = refl

pub beats-standing : (args : HeartbeatArgs) (n : Node) → standing (heartbeat args n).0 ≡ standing n
unfolding heartbeat update_clock
beats-standing args n = refl

module _ (net : Network) (h : ℤ) (named : h ≢ negsuc 0) (id : ℤ) (n : Node) (cluster : Cluster)
    (settled : IsSettled net h cluster) (here : lookup id cluster ≡ some n) where
  settled-alive : is_leader_alive net true n cluster ≡ true
  unfolding is_leader_alive
  settled-alive =
      let agrees = settled.agrees id n here in
      let answers = settled.answers id n here in
      ground (
        arith,
        agrees,
        ap (λ l. is_answered net (get_node_address l n) cluster) agrees ∙ answers,
        named,
        ==_iff h (negsuc 0),
        ==_iff n.leader_id (negsuc 0),
      )

  settled-monitor :
      (schedule : Schedule) (beat_order : List ℤ → List ℤ) (in_progress : Bool)
      → StandAlike (monitor net schedule beat_order true in_progress n cluster) cluster
  unfolding monitor am_i_leader
  settled-monitor schedule beat_order in_progress j = elim (Bool-cases n.is_leader) [
    | inl leader ↦ ground (
      arith,
      leader,
      send_heartbeats-keeps standing j ticks-standing beats-standing net n
          (beat_order (get_other_nodes n)) cluster,
    )
    | inr follower ↦ ground (
      arith,
      follower,
      (check_leader_alive_lem net n true cluster).0,
      settled-alive,
      check_leader_alive-keeps standing j ticks-standing beats-standing net n true cluster,
    )
  ]

  settled-startup :
      (schedule : Schedule) (in_progress : Bool)
      → trigger_election_on_startup net schedule in_progress n cluster ≡ cluster
  unfolding trigger_election_on_startup get_leader
  settled-startup schedule in_progress =
      ground (arith, settled.agrees id n here, named, ==_iff n.leader_id (negsuc 0))

-- The answers to the heartbeats of a monitor come in time.
abbrev pub IsInTime : Turn → Type 0
IsInTime (monitors id r) = r.in_time ≡ true
IsInTime _ = Unit

abbrev pub AreInTime : List Turn → Type 0
AreInTime [] = Unit
AreInTime (turn ∷ turns) = IsInTime turn × AreInTime turns

module _ (net : Network) (h : ℤ) (named : h ≢ negsuc 0) where
  take_turn-alike :
      (turn : Turn) (stopped : List ℤ) (cluster : Cluster)
      → IsInTime turn
      → IsSettled net h cluster
      → StandAlike (take_turn net turn (stopped, cluster)).1 cluster
  unfolding take_turn
  take_turn-alike (stops id) stopped cluster soon s j = refl
  take_turn-alike (starts_up id schedule in_progress) stopped cluster soon s j =
      elim (Option-cases (lookup id cluster)) [
        | inl gone ↦ ground (arith, gone)
        | inr (n, here) ↦
            ground
              (arith, here, settled-startup net h named id n cluster s here schedule in_progress)
      ]
  take_turn-alike (monitors id r) stopped cluster soon s j =
      elim (Option-cases (lookup id cluster)) [
        | inl gone ↦ ground (arith, gone)
        | inr (n, here) ↦
            let kept =
              settled-monitor net h named id n cluster s here r.schedule r.beat_order
                r.election_in_progress j in
            ground (arith, here, soon, kept)
      ]

  -- A settled cluster stays settled.
  pub take_turns-IsSettled :
      (turns : List Turn) (stopped : List ℤ) (cluster : Cluster)
      → AreInTime turns
      → IsSettled net h cluster
      → IsSettled net h (take_turns net turns (stopped, cluster)).1
  unfolding take_turns
  take_turns-IsSettled [] stopped cluster soon s = s
  take_turns-IsSettled (turn ∷ turns) stopped cluster soon s =
      let after = take_turn net turn (stopped, cluster) in
      take_turns-IsSettled turns after.0 after.1 soon.1
        (alike-IsSettled net h after.1 cluster (take_turn-alike turn stopped cluster soon.0 s) s)
