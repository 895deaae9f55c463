-- ===== src/Client/DeadlockTest/Safe.antt =====
-- client/client.go: the command deadlock-test returns at any leader.
use dynamo_db.Prelude.{
  ℕ, ◌≡◌, refl, inl, inr, String, Bool, ◌&&◌, not, some, List, [], ◌∷◌, arith, ℤ, text_append,
  int_key, text_key, Option-cases, Bool-cases,
}
use dynamo_db.GoMap.{insert, is_some, IsOrder}
use dynamo_db.Deadlock.Detect.{detect_cycle_iff}
use dynamo_db.Node.{Node, NodeConfig, increment_clock}
use dynamo_db.Node.Dag.{dag_lock, dag_unlock, dag_detect, dag_resolve, dag_reset, DagDetectReply}
use dynamo_db.Node.Fixed.{fixed, replace-keeps}
use dynamo_db.Node.Storage.{Network, Cluster}
use dynamo_db.Client.{find_leader}
use dynamo_db.Client.Sound.{IsSound, alike-IsSound, Safe, call_cluster-Safe}
use dynamo_db.Client.DeadlockTest.{
  Request, reset, show_graph, lock, detect, resolve, unlock, Reply, detect_reply, serve, perform,
  run_steps, Visits, deadlock_steps, usage, no_leader, tested, handle_deadlock_test,
}

-- The visits of the searches come in some order.
abbrev pub IsFair : Request → Type 0
IsFair (detect order) = IsOrder order
IsFair _ = Unit

abbrev AreFair : List (Bool × Request) → Type 0
AreFair [] = Unit
AreFair (step ∷ steps) = IsFair step.1 × AreFair steps

Serves : Request → Node → Type 0
Serves request n =
    (m : Node) × (reply : Reply) × (serve request n ≡ some (m, reply)) × (fixed m ≡ fixed n)

dag_detect_total :
    (order : List ℤ → List ℤ) (n : Node)
    → IsOrder order
    → (m : Node) × (reply : DagDetectReply) × (dag_detect order n ≡ some (m, reply))
      × (fixed m ≡ fixed n)
dag_detect_total order n visits = elim (Option-cases (dag_detect order n)) [
  | inl panics ↦ elim (Option-cases n.deadlock_mgr) [
    | inl unset ↦ absurd (unfold dag_detect in ground (arith, panics, unset))
    | inr (dm, set) ↦
        let (dm', found, cycle, e, waits, cyclic, free) = detect_cycle_iff order visits dm in
        absurd (unfold dag_detect in ground (arith, panics, set, e))
  ]
  | inr ((m, reply), e) ↦ (m, reply, e, unfold dag_detect in ground (arith, e))
]

serve-Serves : (request : Request) (n : Node) → IsFair request → Serves request n
unfolding Serves serve
serve-Serves reset n fair = (_, _, refl, unfold dag_reset in ground arith)
serve-Serves show_graph n fair = (_, _, refl, refl)
serve-Serves (lock id resource) n fair =
    (_, _, refl, unfold dag_lock increment_clock in ground arith)
serve-Serves (detect order) n fair =
    let (m, reply, e, same) = dag_detect_total order n fair in
    (m, detect_reply reply, ground (arith, e), same)
serve-Serves (resolve held waiting id) n fair = (_, _, refl, unfold dag_resolve in ground arith)
serve-Serves (unlock order id resource) n fair =
    (_, _, refl, unfold dag_unlock increment_clock in ground arith)

module _ (md5 : String → List ℕ) (net : Network) where
  perform-Safe :
      (at : String) (request : Request) (cluster : Cluster)
      → IsFair request
      → IsSound md5 cluster
      → Safe md5 (perform net at request cluster)
  unfolding perform Serves
  perform-Safe at request cluster fair sound =
      call_cluster-Safe md5 net cluster sound at _ (λ n c s here valid.
        let (m, reply, e, same) = serve-Serves request n fair in
        (
          insert n.id m c,
          reply,
          ground (arith, e),
          alike-IsSound md5 (insert n.id m c) c (λ j. replace-keeps fixed j n.id n m c here same) s,
        ))

  run_steps-Safe :
      (at : String) (steps : List (Bool × Request)) (cluster : Cluster)
      → AreFair steps
      → IsSound md5 cluster
      → Safe md5 (run_steps net at steps cluster)
  unfolding run_steps
  run_steps-Safe at [] cluster fair sound = (cluster, [], refl, sound)
  run_steps-Safe at ((needed, request) ∷ steps) cluster fair sound =
      let (after, reply, e, s) = perform-Safe at request cluster fair.0 sound in
      elim (Bool-cases (needed && not (is_some reply))) [
        | inl failed ↦ (after, reply ∷ [], ground (arith, e, failed), s)
        | inr goes ↦
            let (final, replies, f, t) = run_steps-Safe at steps after fair.1 s in
            (final, reply ∷ replies, ground (arith, e, goes, f), t)
      ]

  -- The test returns at any leader, in every order of the visits of its two searches.
  pub handle_deadlock_test-Safe :
      (nodes : List NodeConfig) (visits : Visits) (parts : List String) (cluster : Cluster)
      → IsOrder visits.first_detect
      → IsOrder visits.second_detect
      → IsSound md5 cluster
      → Safe md5 (handle_deadlock_test net nodes visits parts cluster)
  unfolding handle_deadlock_test deadlock_steps
  handle_deadlock_test-Safe nodes visits [] cluster first second sound =
      (cluster, usage, refl, sound)
  handle_deadlock_test-Safe nodes visits (command ∷ []) cluster first second sound =
      (cluster, usage, refl, sound)
  handle_deadlock_test-Safe nodes visits (command ∷ resource ∷ parts) cluster first second sound =
      elim (Option-cases (find_leader net nodes nodes cluster)) [
        | inl nobody ↦ (cluster, no_leader, ground (arith, nobody), sound)
        | inr ((leader_id, at), found) ↦
            let steps =
              deadlock_steps visits (text_append resource "_A") (text_append resource "_B") in
            let (after, replies, e, s) =
              run_steps-Safe at steps cluster
                (
                  tt,
                  (
                    tt,
                    (
                      tt,
                      (tt, (tt, (tt, (tt, (first, (tt, (tt, (second, (tt, (tt, (tt, tt))))))))))),
                    ),
                  ),
                )
                sound in
            (after, tested leader_id replies, ground (arith, found, e), s)
      ]
