-- ===== src/Election/Winner.antt =====
-- election/bully.go: who is leader for whom after an election.
use mathlib.Core.Logic.{∥∥₁_elim}
use mathlib.Core.List.{Permᴰ}
use dynamo_db.Prelude.{
  ◌≡◌, refl, ◌∙◌, inl, inr, Bool, true, false, ◌&&◌, ◌||◌, not, List, [], ◌∷◌, arith, length, eqb_ℕ,
  ℤ, int_key, ◌==◌, if◌then◌else◌, Bool-cases, Option-cases,
}
use dynamo_db.GoMap.{IsOrder, Bool-IsSet, lookup}
use dynamo_db.Node.{
  Node, increment_clock, update_clock, set_leader, get_other_nodes, get_higher_nodes,
}
use dynamo_db.Node.Storage.{Network, Cluster}
use dynamo_db.Node.Handlers.{ElectionArgs, election, coordinator}
use dynamo_db.Node.Replication.{reached}
use dynamo_db.Node.Deletion.{reached-order}
use dynamo_db.Node.Rpc.{modify, view, Preserves, modify-keeps, view-modify}
use dynamo_db.Election.{Schedule, ask_higher, become_leader, start_election}
use dynamo_db.Election.Calls.{ask_higher-keeps, ask_higher-answers, announce-view, someone_answers}

someone_answers-Permᴰ :
    (net : Network) (n : Node) (in_time : ℤ → Bool) (cluster : Cluster) {xs ys : List ℤ}
    → Permᴰ xs ys
    → someone_answers net n in_time cluster xs ≡ someone_answers net n in_time cluster ys
unfolding someone_answers
someone_answers-Permᴰ net n in_time cluster Permᴰ.nil = refl
someone_answers-Permᴰ net n in_time cluster (Permᴰ.cons e p) =
    rw (e, someone_answers-Permᴰ net n in_time cluster p)
someone_answers-Permᴰ net n in_time cluster (Permᴰ.swap {l} e e') = rw (e, e') (ground arith)
someone_answers-Permᴰ net n in_time cluster (Permᴰ.trans p q) =
    someone_answers-Permᴰ net n in_time cluster p ∙ someone_answers-Permᴰ net n in_time cluster q

someone_answers-order :
    (net : Network) (n : Node) (in_time : ℤ → Bool) (cluster : Cluster) (order : List ℤ → List ℤ)
    → IsOrder order
    → (xs : List ℤ)
    → someone_answers net n in_time cluster (order xs) ≡ someone_answers net n in_time cluster xs
someone_answers-order net n in_time cluster order visits xs =
    ∥∥₁_elim (visits xs) (Bool-IsSet _ _) (someone_answers-Permᴰ net n in_time cluster)

-- No higher node answers in time.
abbrev pub is_won : Network → Schedule → Node → Cluster → Bool
is_won net schedule n cluster =
    not (someone_answers net n schedule.in_time cluster (get_higher_nodes n))

-- The node itself, and every node on which one of its announcements is executed.
abbrev pub is_told : Network → Node → ℤ → Bool
is_told net n j = n.id == j || reached net n j (get_other_nodes n)

empty-answers :
    (net : Network) (n : Node) (in_time : ℤ → Bool) (cluster : Cluster) (xs : List ℤ)
    → eqb_ℕ (length xs) 0 ≡ true
    → someone_answers net n in_time cluster xs ≡ false
unfolding someone_answers
empty-answers net n in_time cluster [] e = refl
empty-answers net n in_time cluster (x ∷ xs) e = ground (arith, e)

-- A part of the state that messages leave alone and an announcement sets.
module _ {A : Type 0} (part value : Node → A) (n : Node) (j : ℤ)
    (ticks : (m : Node) → part (increment_clock m).0 ≡ part m)
    (value_ticks : (m : Node) → value (increment_clock m).0 ≡ value m)
    (asked : (args : ElectionArgs) → Preserves part j (election args))
    (value_asked : (args : ElectionArgs) → Preserves value j (election args))
    (gives : (time : ℤ) (m : Node)
      → part (coordinator (record { leader_id = n.id; timestamp = time }) m).0 ≡ value m)
    (stays : (time : ℤ) (m : Node)
      → value (coordinator (record { leader_id = n.id; timestamp = time }) m).0 ≡ value m)
    (sets : (m : Node) → part (set_leader n.id m) ≡ value m)
    (keeps : (m : Node) → value (set_leader n.id m) ≡ value m) where
  view-sets :
      (cluster : Cluster) → view (λ m. part (set_leader n.id m)) j cluster ≡ view value j cluster
  unfolding view
  view-sets cluster = elim (Option-cases (lookup j cluster)) [
    | inl gone ↦ ground (arith, gone)
    | inr (m, e) ↦ ground (arith, e, sets m)
  ]

  become_leader-view :
      (net : Network) (order : List ℤ → List ℤ) (cluster : Cluster)
      → IsOrder order
      → view part j (become_leader net order n cluster)
        ≡ (if is_told net n j then view value j cluster else view part j cluster)
  unfolding become_leader
  become_leader-view net order cluster visits =
      let led = modify n.id (set_leader n.id) cluster in
      ground (
        arith,
        announce-view part j ticks value value_ticks n gives stays net (order (get_other_nodes n))
            led,
        reached-order net n j order visits (get_other_nodes n),
        modify-keeps value j n.id (set_leader n.id) cluster keeps,
        view-modify part j n.id (set_leader n.id) cluster,
        view-sets cluster,
      )

  pub start_election-view :
      (net : Network) (schedule : Schedule) (cluster : Cluster)
      → IsOrder schedule.ask_order
      → IsOrder schedule.announce_order
      → view part j (start_election net schedule false n cluster) ≡ (
          if is_won net schedule n cluster && is_told net n j
          then view value j cluster
          else view part j cluster)
  unfolding start_election
  start_election-view net schedule cluster asks announces =
      let higher = get_higher_nodes n in
      let asked_all = ask_higher net n schedule.in_time (schedule.ask_order higher) cluster false in
      elim (Bool-cases (eqb_ℕ (length higher) 0)) [
        | inl none_higher ↦ rw none_higher (
            ground (
              arith,
              become_leader-view net schedule.announce_order cluster announces,
              empty-answers net n schedule.in_time cluster higher none_higher,
            ))
        | inr some_higher ↦ rw some_higher (
            ground (
              arith,
              become_leader-view net schedule.announce_order asked_all.0 announces,
              ask_higher-answers net n schedule.in_time (schedule.ask_order higher) cluster false,
              someone_answers-order net n schedule.in_time cluster schedule.ask_order asks higher,
              ask_higher-keeps part j ticks asked net n schedule.in_time (schedule.ask_order higher)
                  cluster false,
              ask_higher-keeps value j value_ticks value_asked net n schedule.in_time
                  (schedule.ask_order higher) cluster false,
            ))
      ]

abbrev pub leader_of : Node → ℤ
leader_of m = m.leader_id

abbrev pub leads : Node → Bool
leads m = m.is_leader

pub start_election-leader :
    (n : Node) (j : ℤ) (net : Network) (schedule : Schedule) (cluster : Cluster)
    → IsOrder schedule.ask_order
    → IsOrder schedule.announce_order
    → view leader_of j (start_election net schedule false n cluster) ≡ (
        if is_won net schedule n cluster && is_told net n j
        then view (λ m. n.id) j cluster
        else view leader_of j cluster)
unfolding increment_clock election coordinator set_leader update_clock
start_election-leader n j =
    start_election-view leader_of (λ m. n.id) n j (λ m. refl) (λ m. refl) (λ args m. refl)
      (λ args m. refl) (λ time m. refl) (λ time m. refl) (λ m. refl) (λ m. refl)

pub start_election-leads :
    (n : Node) (j : ℤ) (net : Network) (schedule : Schedule) (cluster : Cluster)
    → IsOrder schedule.ask_order
    → IsOrder schedule.announce_order
    → view leads j (start_election net schedule false n cluster) ≡ (
        if is_won net schedule n cluster && is_told net n j
        then view (λ m. n.id == m.id) j cluster
        else view leads j cluster)
unfolding increment_clock election coordinator set_leader update_clock
start_election-leads n j =
    start_election-view leads (λ m. n.id == m.id) n j (λ m. refl) (λ m. refl) (λ args m. refl)
      (λ args m. refl) (λ time m. refl) (λ time m. refl) (λ m. refl) (λ m. refl)

-- In every order of its goroutines, an election is won exactly where no configured node with a
-- higher ID answers in time. Then the node itself and every node on which one of its announcements
-- is executed take it for the leader, each of them itself exactly if the announced ID is its own.
-- An election that is lost, or started while another of the node runs, leaves everybody's leader
-- alone.
pub start_election-elects :
    (net : Network) (schedule : Schedule) (in_progress : Bool) (n : Node) (cluster : Cluster)
    → IsOrder schedule.ask_order
    → IsOrder schedule.announce_order
    → (j : ℤ)
    → let after = start_election net schedule in_progress n cluster in
      let changed = not in_progress && is_won net schedule n cluster && is_told net n j in
      (view leader_of j after
        ≡ (if changed then view (λ m. n.id) j cluster else view leader_of j cluster))
      × (view leads j after
          ≡ (if changed then view (λ m. n.id == m.id) j cluster else view leads j cluster))
unfolding start_election
start_election-elects net schedule true n cluster asks announces j = (refl, refl)
start_election-elects net schedule false n cluster asks announces j = (
  start_election-leader n j net schedule cluster asks announces,
  start_election-leads n j net schedule cluster asks announces,
)
