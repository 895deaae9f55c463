-- ===== src/Client/DeadlockTest.antt =====
-- client/client.go: the command deadlock-test, a fixed list of calls at the leader.
--
-- What it prints is the list of the replies. The pauses between the calls only pass time.
pub mod Steps
pub mod Run
pub mod Script
pub mod Safe
use dynamo_db.Prelude.{
  String, text_append, Bool, true, false, not, ◌&&◌, Option, none, some, List, [], ◌∷◌, ℤ, pos,
  int_key, if◌then◌else◌,
}
use dynamo_db.GoMap.{insert, is_some}
use dynamo_db.Node.{Node, NodeConfig}
use dynamo_db.Node.Storage.{Network, Cluster}
use dynamo_db.Node.Dag.{
  DagLockArgs, DagLockReply, DagUnlockReply, DagDetectReply, DagGraphReply, DagResolveReply,
  dag_lock, dag_unlock, dag_detect, dag_graph, dag_resolve, dag_reset,
}
use dynamo_db.Client.{call_cluster, find_leader}

-- A call, with the orders of the visits of maps that its handler makes.
pub data Request : Type 0 where
  reset show_graph : Request
  lock : ℤ → String → Request
  detect : (List ℤ → List ℤ) → Request
  resolve : (List String → List String) → (List ℤ → List ℤ) → ℤ → Request
  unlock : (List ℤ → List ℤ) → ℤ → String → Request

pub data Reply : Type 0 where
  reset_reply : Bool → Reply
  graph_reply : DagGraphReply → Reply
  lock_reply : DagLockReply → Reply
  detect_reply : DagDetectReply → Reply
  resolve_reply : DagResolveReply → Reply
  unlock_reply : DagUnlockReply → Reply

-- The handler of a call; `none` is a search that did not return.
unfoldable pub serve : Request → Node → Option (Node × Reply)
serve reset n = let (m, reply) = dag_reset n in some (m, reset_reply reply)
serve show_graph n = some (n, graph_reply (dag_graph n))
serve (lock id resource) n =
    let (m, reply) = dag_lock (record { node_id = id; resource = resource }) n in
    some (m, lock_reply reply)
serve (detect order) n = elim (dag_detect order n) [
  | none ↦ none
  | some (m, reply) ↦ some (m, detect_reply reply)
]
serve (resolve order_held order_waiting id) n =
    let (m, reply) = dag_resolve order_held order_waiting id n in some (m, resolve_reply reply)
serve (unlock order id resource) n =
    let (m, reply) = dag_unlock order (record { node_id = id; resource = resource }) n in
    some (m, unlock_reply reply)

unfoldable pub perform : Network → String → Request → Cluster → Option (Cluster × Option Reply)
perform net at request cluster =
    call_cluster net at
      (λ n c. elim (serve request n) [
        | none ↦ none
        | some (m, reply) ↦ some (insert n.id m c, reply)
      ])
      cluster

-- The calls in turn; an error of one that is needed ends the test.
unfoldable pub run_steps :
    Network → String → List (Bool × Request) → Cluster → Option (Cluster × List (Option Reply))
run_steps net at [] cluster = some (cluster, [])
run_steps net at ((needed, request) ∷ steps) cluster = elim (perform net at request cluster) [
  | none ↦ none
  | some (after, reply) ↦
      if needed && not (is_some reply)
      then some (after, reply ∷ [])
      else elim (run_steps net at steps after) [
        | none ↦ none
        | some (final, replies) ↦ some (final, reply ∷ replies)
      ]
]

-- The orders of the visits of the calls.
pub record Visits : Type 0 where
  pub first_detect : List ℤ → List ℤ
  pub second_detect : List ℤ → List ℤ
  pub resolve_held : List String → List String
  pub resolve_waiting : List ℤ → List ℤ
  pub unlock_a : List ℤ → List ℤ
  pub unlock_b : List ℤ → List ℤ

unfoldable pub deadlock_steps : Visits → String → String → List (Bool × Request)
deadlock_steps visits a b =
    (false, reset)
    ∷ (true, lock (pos 1) a)
    ∷ (true, lock (pos 2) b)
    ∷ (false, show_graph)
    ∷ (true, lock (pos 1) b)
    ∷ (true, lock (pos 2) a)
    ∷ (false, show_graph)
    ∷ (true, detect visits.first_detect)
    ∷ (true, resolve visits.resolve_held visits.resolve_waiting (pos 2))
    ∷ (true, lock (pos 1) b)
    ∷ (false, detect visits.second_detect)
    ∷ (false, unlock visits.unlock_a (pos 1) a)
    ∷ (false, unlock visits.unlock_b (pos 1) b)
    ∷ (false, show_graph)
    ∷ []

pub data TestOutcome : Type 0 where
  usage no_leader : TestOutcome
  tested : ℤ → List (Option Reply) → TestOutcome

unfoldable pub handle_deadlock_test :
    Network → List NodeConfig → Visits → List String → Cluster → Option (Cluster × TestOutcome)
handle_deadlock_test net nodes visits (command ∷ resource ∷ parts) cluster =
    elim (find_leader net nodes nodes cluster) [
      | none ↦ some (cluster, no_leader)
      | some (leader_id, at) ↦
          elim (run_steps net at
            (deadlock_steps visits (text_append resource "_A") (text_append resource "_B"))
            cluster) [
              | none ↦ none
              | some (after, replies) ↦ some (after, tested leader_id replies)
            ]
    ]
handle_deadlock_test net nodes visits _ cluster = some (cluster, usage)
