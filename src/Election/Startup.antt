-- ===== src/Election/Startup.antt =====
-- election/bully.go: a node that starts up and wins its election settles the cluster.
use dynamo_db.Prelude.{
  ◌≡◌, ◌≢◌, refl, sym, ap, subst, ◌∙◌, inl, inr, Bool, true, false, ◌&&◌, some, List, ◌∷◌, arith, ℤ,
  negsuc, int_key, ◌==◌, ==_refl, if◌then◌else◌, Option-cases,
}
use dynamo_db.GoMap.{lookup, IsOrder}
use dynamo_db.Node.{
  Node, increment_clock, update_clock, get_leader, address_of, get_node_address, set_leader,
}
use dynamo_db.Node.Fixed.{fixed}
use dynamo_db.Node.Storage.{Network, Cluster}
use dynamo_db.Node.Handlers.{election, coordinator}
use dynamo_db.Node.Rpc.{view, is_answered, SameMembers, is_answered-members}
use dynamo_db.Election.{
  Schedule, Turn, starts_up, trigger_election_on_startup, start_election, take_turn, take_turns,
}
use dynamo_db.Election.Winner.{
  is_won, is_told, leader_of, leads, start_election-view, start_election-elects,
}
use dynamo_db.Election.Settled.{IsSettled, AreInTime, take_turns-IsSettled}

-- A part of a node that the winner of an election sets.
set-lookup :
    {A : Type 0} (part value : Node → A) (j : ℤ) (m o : Node) (c d : Cluster) (set : Bool)
    → view part j c ≡ (if set then view value j d else view part j d)
    → set ≡ true
    → lookup j c ≡ some m
    → lookup j d ≡ some o
    → part m ≡ value o
unfolding view
set-lookup part value j m o c d set e is_set here there = ground (arith, e, is_set, here, there)

fixed-lookup :
    (j : ℤ) (m : Node) (c d : Cluster)
    → view fixed j c ≡ view fixed j d
    → lookup j c ≡ some m
    → (n : Node) × (lookup j d ≡ some n) × (fixed m ≡ fixed n)
unfolding view
fixed-lookup j m c d alike here = elim (Option-cases (lookup j d)) [
  | inl gone ↦ absurd (ground (arith, alike, here, gone))
  | inr (n, there) ↦ (n, there, ground (arith, alike, here, there))
]

fixed-members : (c d : Cluster) → ((j : ℤ) → view fixed j c ≡ view fixed j d) → SameMembers c d
unfolding view
fixed-members c d alike j = ground (arith, alike j)

module _ (net : Network) (schedule : Schedule) (n : Node) (cluster : Cluster)
    (asks : IsOrder schedule.ask_order) (announces : IsOrder schedule.announce_order) where
  start_election-fixed :
      (j : ℤ) → view fixed j (start_election net schedule false n cluster) ≡ view fixed j cluster
  unfolding increment_clock election coordinator set_leader update_clock
  start_election-fixed j =
      let e =
        start_election-view fixed fixed n j (λ m. refl) (λ m. refl) (λ args m. refl)
          (λ args m. refl) (λ time m. refl) (λ time m. refl) (λ m. refl) (λ m. refl) net schedule
          cluster asks announces in
      ground (arith, e)

  pub start_election-IsSettled :
      (won : is_won net schedule n cluster ≡ true)
      (own : (j : ℤ) (m : Node) → lookup j cluster ≡ some m → m.id ≡ j)
      (told : (j : ℤ) (m : Node) → lookup j cluster ≡ some m → is_told net n j ≡ true)
      (answers : (j : ℤ) (m : Node)
        → lookup j cluster ≡ some m
        → is_answered net (get_node_address n.id m) cluster ≡ true)
      → IsSettled net n.id (start_election net schedule false n cluster)
  unfolding get_node_address
  start_election-IsSettled won own told answers =
      let after = start_election net schedule false n cluster in
      let elects = start_election-elects net schedule false n cluster asks announces in
      record {
        own = λ j m here.
            let (o, there, same) = fixed-lookup j m after cluster (start_election-fixed j) here in
            ap (λ k. k.id) same ∙ own j o there;
        agrees = λ j m here.
            let (o, there, same) = fixed-lookup j m after cluster (start_election-fixed j) here in
            set-lookup leader_of (λ k. n.id) j m o after cluster
              (is_won net schedule n cluster && is_told net n j) (elects j).0
              (rw (won, told j o there) refl) here there;
        leads = λ j m here.
            let (o, there, same) = fixed-lookup j m after cluster (start_election-fixed j) here in
            set-lookup leads (λ k. n.id == k.id) j m o after cluster
              (is_won net schedule n cluster && is_told net n j) (elects j).1
              (rw (won, told j o there) refl) here there
            ∙ ap (λ k. n.id == k) (own j o there);
        answers = λ j m here.
            let (o, there, same) = fixed-lookup j m after cluster (start_election-fixed j) here in
            is_answered-members net (get_node_address n.id m) after cluster
              (fixed-members after cluster start_election-fixed)
            ∙ ap (λ f. is_answered net (address_of n.id f.config.nodes) cluster) same
            ∙ answers j o there;
      }

starts_up-elects :
    (net : Network) (h : ℤ) (schedule : Schedule) (stopped : List ℤ) (cluster : Cluster) (n : Node)
    → lookup h cluster ≡ some n
    → n.leader_id ≡ negsuc 0
    → (take_turn net (starts_up h schedule false) (stopped, cluster)).1
      ≡ start_election net schedule false n cluster
unfolding take_turn trigger_election_on_startup get_leader
starts_up-elects net h schedule stopped cluster n here unknown =
    ground (arith, here, unknown, ==_refl (negsuc 0))

-- A node that knows no leader, starts up and wins its election, being told to every node of the
-- cluster, settles the cluster: after any turns of the monitors and of further start-ups, in any
-- order and with any monitors stopped, every node takes it for the leader, and it alone takes
-- itself for it. Every node is under its own ID and reaches the winner at the address that it has
-- of it, the winner's ID is not -1, and the heartbeats are answered in time.
pub startup-settles :
    (net : Network) (h : ℤ) (schedule : Schedule) (turns : List Turn) (stopped : List ℤ)
    (cluster : Cluster) (n : Node)
    → h ≢ negsuc 0
    → IsOrder schedule.ask_order
    → IsOrder schedule.announce_order
    → lookup h cluster ≡ some n
    → n.leader_id ≡ negsuc 0
    → is_won net schedule n cluster ≡ true
    → ((j : ℤ) (m : Node) → lookup j cluster ≡ some m → m.id ≡ j)
    → ((j : ℤ) (m : Node) → lookup j cluster ≡ some m → is_told net n j ≡ true)
    → ((j : ℤ) (m : Node)
        → lookup j cluster ≡ some m
        → is_answered net (get_node_address h m) cluster ≡ true)
    → AreInTime turns
    → IsSettled net h (take_turns net (starts_up h schedule false ∷ turns) (stopped, cluster)).1
unfolding take_turns
startup-settles net h schedule turns stopped cluster n named asks announces here unknown won own
      told answers soon =
    let after = take_turn net (starts_up h schedule false) (stopped, cluster) in
    let same = own h n here in
    let elected : IsSettled net h (start_election net schedule false n cluster) =
      subst (λ k. IsSettled net k (start_election net schedule false n cluster)) same
        (start_election-IsSettled net schedule n cluster asks announces won own told (λ i o there.
          ap (λ k. is_answered net (get_node_address k o) cluster) same ∙ answers i o there)) in
    take_turns-IsSettled net h named turns after.0 after.1 soon (
      subst (IsSettled net h) (sym (starts_up-elects net h schedule stopped cluster n here unknown))
        elected)
