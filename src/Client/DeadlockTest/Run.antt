-- ===== src/Client/DeadlockTest/Run.antt =====
-- client/client.go: the calls of the command deadlock-test, one after the other.
use dynamo_db.Prelude.{
  ◌≡◌, refl, ◌∙◌, String, Bool, true, false, ◌&&◌, Option, none, some, List, [], ◌∷◌, map, length,
  arith, ℤ, int_key, text_key, ==_refl, eqb_ℕ,
}
use dynamo_db.GoMap.{GoMap, lookup, insert, lookup-insert}
use dynamo_db.Deadlock
use dynamo_db.Deadlock.{Message, DagManager, detect_cycle, get_wait_for_graph, get_held_resources}
use dynamo_db.Node.{Node, increment_clock}
use dynamo_db.Node.Storage.{Network, Cluster}
use dynamo_db.Node.Dag.{
  DagLockArgs, detect_message, dag_lock, dag_unlock, dag_detect, dag_graph, dag_resolve, dag_reset,
}
use dynamo_db.Client.{call_cluster}
use dynamo_db.Client.DeadlockTest.{
  Request, reset, show_graph, lock, detect, resolve, unlock, Reply, reset_reply, graph_reply,
  lock_reply, detect_reply, resolve_reply, unlock_reply, serve, perform, run_steps,
}
use dynamo_db.Client.DeadlockTest.Steps.{manager}

pub record Maps : Type 0 where
  pub held : GoMap String ℤ
  pub waits : GoMap ℤ (List ℤ)
  pub asked : GoMap ℤ String

abbrev pub with_logs : Maps → List Message → DagManager
with_logs s l = manager s.held s.waits s.asked l

-- The node's lock manager has the maps.
abbrev pub Has : Maps → Node → Type 0
Has s m = (l : List Message) × (m.deadlock_mgr ≡ some (with_logs s l))

-- Granted, found, done; and for the graph, that nothing is held and nobody waits.
abbrev pub says : Reply → Bool
says (reset_reply done) = done
says (graph_reply r) = eqb_ℕ (length r.held_resources) 0 && eqb_ℕ (length r.wait_for_graph) 0
says (lock_reply r) = r.granted
says (detect_reply r) = r.has_cycle
says (resolve_reply r) = r.success
says (unlock_reply r) = r.acknowledged

abbrev pub heard : Option Reply → Bool
heard none = false
heard (some reply) = says reply

abbrev pub Serves : Request → Maps → Maps → Bool → Type 0
Serves request s s' b =
    (m : Node)
    → Has s m
    → (m' : Node) × (reply : Reply) × (serve request m ≡ some (m', reply))
      × Has s' m'
      × (m'.id ≡ m.id)
      × (says reply ≡ b)

pub serve-lock :
    (id : ℤ) (r : String) (s s' : Maps) (g : Bool) (w : ℤ)
    → ((l : List Message)
        → (l' : List Message) × (Deadlock.lock id r (with_logs s l) ≡ (with_logs s' l', g, w)))
    → Serves (lock id r) s s' g
unfolding serve dag_lock increment_clock
serve-lock id r s s' g w step m (l, e) =
    let args : DagLockArgs = record { node_id = id; resource = r } in
    let (l', f) = step l in
    (
      (dag_lock args m).0,
      lock_reply (dag_lock args m).1,
      refl,
      (l', ground (arith, e, f)),
      ground (arith, e, f),
      ground (arith, e, f),
    )

pub serve-unlock :
    (order : List ℤ → List ℤ) (id : ℤ) (r : String) (s s' : Maps)
    → ((l : List Message)
        → (l' : List Message) × (Deadlock.unlock order id r (with_logs s l) ≡ with_logs s' l'))
    → Serves (unlock order id r) s s' true
unfolding serve dag_unlock increment_clock
serve-unlock order id r s s' step m (l, e) =
    let args : DagLockArgs = record { node_id = id; resource = r } in
    let (l', f) = step l in
    (
      (dag_unlock order args m).0,
      unlock_reply (dag_unlock order args m).1,
      refl,
      (l', ground (arith, e, f)),
      ground (arith, e, f),
      ground (arith, e, f),
    )

pub serve-resolve :
    (order_held : List String → List String) (order_waiting : List ℤ → List ℤ) (id : ℤ)
    (s s' : Maps)
    → ((l : List Message)
        → (l' : List Message) × (Deadlock.resolve order_held order_waiting id (with_logs s l)
            ≡ with_logs s' l'))
    → Serves (resolve order_held order_waiting id) s s' true
unfolding serve dag_resolve
serve-resolve order_held order_waiting id s s' step m (l, e) =
    let (l', f) = step l in
    (
      (dag_resolve order_held order_waiting id m).0,
      resolve_reply (dag_resolve order_held order_waiting id m).1,
      refl,
      (l', ground (arith, e, f)),
      ground (arith, e, f),
      ground (arith, e, f),
    )

pub serve-reset : (s : Maps) → Serves reset s (record { held = []; waits = []; asked = [] }) true
unfolding serve dag_reset Deadlock.reset
serve-reset s m (l, e) = (
  (dag_reset m).0,
  reset_reply (dag_reset m).1,
  refl,
  ([], ground (arith, e)),
  ground (arith, e),
  ground (arith, e),
)

pub serve-graph :
    (s : Maps) → Serves show_graph s s (eqb_ℕ (length s.held) 0 && eqb_ℕ (length s.waits) 0)
unfolding serve dag_graph get_wait_for_graph get_held_resources
serve-graph s m (l, e) = (m, graph_reply (dag_graph m), refl, (l, e), refl, ground (arith, e))

pub serve-detect :
    (order : List ℤ → List ℤ) (s s' : Maps) (found : Bool)
    → ((l : List Message)
        → (cycle : List ℤ) × (l' : List Message) × (detect_cycle order (with_logs s l)
            ≡ some (with_logs s' l', found, cycle)))
    → Serves (detect order) s s' found
unfolding serve dag_detect
serve-detect order s s' found step m (l, e) =
    let (cycle, l', f) = step l in
    (
      record m { deadlock_mgr = some (with_logs s' l') },
      detect_reply
          (record { has_cycle = found; cycle = cycle; message = detect_message found cycle }),
      ground (arith, e, f),
      (l', refl),
      refl,
      refl,
    )

module _ (net : Network) (at : String) (id : ℤ) (listens : net.listener at ≡ some id)
    (executed : net.executes at ≡ true) (is_answered : net.answers at ≡ true) where
  -- The steps run at a node with the maps `s` leave it with `s'`, and the replies say `said`.
  abbrev pub Runs : List (Bool × Request) → Maps → Maps → List Bool → Type 0
  Runs steps s s' said =
      (m : Node) (cluster : Cluster)
      → lookup id cluster ≡ some m
      → m.id ≡ id
      → Has s m
      → (final : Cluster) × (m' : Node) × (replies : List (Option Reply)) × (run_steps net at steps
            cluster
          ≡ some (final, replies))
        × (map heard replies ≡ said)
        × (lookup id final ≡ some m')
        × Has s' m'

  pub run-nil : (s : Maps) → Runs [] s s []
  unfolding run_steps
  run-nil s m cluster here own has = (cluster, m, [], refl, refl, here, has)

  perform-served :
      (request : Request) (m m' : Node) (reply : Reply) (cluster : Cluster)
      → lookup id cluster ≡ some m
      → m.id ≡ id
      → serve request m ≡ some (m', reply)
      → perform net at request cluster ≡ some (insert id m' cluster, some reply)
  unfolding perform call_cluster
  perform-served request m m' reply cluster here own e =
      ground (arith, listens, here, executed, is_answered, e, own)

  pub run-cons :
      (needed : Bool) (request : Request) (steps : List (Bool × Request)) (s s' t : Maps) (b : Bool)
      (said : List Bool)
      → Serves request s s' b
      → Runs steps s' t said
      → Runs ((needed, request) ∷ steps) s t (b ∷ said)
  unfolding run_steps
  run-cons needed request steps s s' t b said serves runs m cluster here own has =
      let (m', reply, e, has', same, says_b) = serves m has in
      let after = insert id m' cluster in
      let (final, k, replies, f, heard_all, there, held) =
        runs m' after (ground (arith, ==_refl id, lookup-insert id id m' cluster)) (same ∙ own)
          has' in
      (
        final,
        k,
        some reply ∷ replies,
        ground (arith, perform-served request m m' reply cluster here own e, f),
        ground (arith, says_b, heard_all),
        there,
        held,
      )
