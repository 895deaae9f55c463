-- ===== src/Deadlock.antt =====
-- deadlock/dag.go: the wait-for graph of the coordinator. Each method holds the lock `mu` for its
-- whole body, so a call is one step. A log line is a value of `Message`, with the arguments of its
-- Sprintf; `order` is the order in which a `range` visits the keys of a map.
pub mod Graph
pub mod Dfs
pub mod Locks
pub mod Resolve
pub mod Detect
mod Tests
use dynamo_db.Prelude.{
  ℕ, zero, suc, ◌+◌, String, Bool, true, false, not, Option, none, some, List, [], ◌∷◌, ◌++◌,
  length, ltb, eqb_ℕ, ℤ, pos, int_key, text_key, ◌==◌, if◌then◌else◌,
}
use dynamo_db.GoMap.{GoMap, empty, keys, lookup, lookup_or, insert, delete}

pub data Message : Type 0 where
  granted already_held : String → ℤ → Message
  must_wait : String → ℤ → ℤ → Message
  released released_by_abort : String → ℤ → Message
  cleared : ℤ → String → Message
  deadlock_detected : List ℤ → Message
  no_deadlock : Message
  resolving aborted : ℤ → Message

pub record DagManager : Type 0 where
  pub held_resources : GoMap String ℤ
  pub waiting_for : GoMap ℤ (List ℤ)
  pub waiting_resource : GoMap ℤ String
  pub logs : List Message

unfoldable pub new_dag_manager : DagManager
new_dag_manager = record {
  held_resources = empty;
  waiting_for = empty;
  waiting_resource = empty;
  logs = [];
}

unfoldable pub log : Message → DagManager → DagManager
log message dm = record dm { logs = dm.logs ++ message ∷ [] }

-- Returns whether the lock is granted, and the node to wait for.
unfoldable pub lock : ℤ → String → DagManager → DagManager × Bool × ℤ
lock node_id resource dm = elim (lookup resource dm.held_resources) [
  | none ↦ (
    log (granted resource node_id)
        (record dm { held_resources = insert resource node_id dm.held_resources }),
    true,
    pos 0,
  )
  | some holder ↦
      if holder == node_id then (log (already_held resource node_id) dm, true, pos 0) else (
        log (must_wait resource holder node_id) (record dm {
          waiting_for =
              insert node_id (lookup_or [] node_id dm.waiting_for ++ holder ∷ []) dm.waiting_for;
          waiting_resource = insert node_id resource dm.waiting_resource;
        }),
        false,
        holder,
      )
]

-- The visit of one waiting node in Unlock.
unfoldable pub clear_waiter : String → ℤ → DagManager → DagManager
clear_waiter resource node dm = elim (lookup node dm.waiting_resource) [
  | none ↦ dm
  | some waits ↦
      if waits == resource
      then log (cleared node resource) (record dm {
        waiting_resource = delete node dm.waiting_resource;
        waiting_for = delete node dm.waiting_for;
      })
      else dm
]

unfoldable pub clear_waiters : String → List ℤ → DagManager → DagManager
clear_waiters resource [] dm = dm
clear_waiters resource (node ∷ nodes) dm =
    clear_waiters resource nodes (clear_waiter resource node dm)

unfoldable pub unlock : (List ℤ → List ℤ) → ℤ → String → DagManager → DagManager
unlock order node_id resource dm = elim (lookup resource dm.held_resources) [
  | none ↦ dm
  | some holder ↦
      if holder == node_id
      then clear_waiters resource (order (keys dm.waiting_resource)) (
          log (released resource node_id)
            (record dm { held_resources = delete resource dm.held_resources }))
      else dm
]

-- The maps `visited` and `recStack`, which all calls of a search share.
pub record Search : Type 0 where
  pub visited : GoMap ℤ Bool
  pub rec_stack : GoMap ℤ Bool

-- The loop over the neighbours. `visit` is the recursive call, and `none` is out of fuel; a cycle
-- that is not empty ends the loop.
unfoldable pub scan :
    (ℤ → Search → Option (List ℤ × Search)) → List ℤ → List ℤ → Search → Option (List ℤ × Search)
scan visit path [] s = some ([], s)
scan visit path (neighbor ∷ rest) s = elim (lookup_or false neighbor s.visited) [
  | true ↦ elim (lookup_or false neighbor s.rec_stack) [
    | true ↦ some (path ++ neighbor ∷ [], s)
    | false ↦ scan visit path rest s
  ]
  | false ↦ elim (visit neighbor s) [
    | none ↦ none
    | some (x ∷ cycle, s') ↦ some (x ∷ cycle, s')
    | some ([], s') ↦ scan visit path rest s'
  ]
]

unfoldable pub enter : ℤ → Search → Search
enter node s = record {
  visited = insert node true s.visited;
  rec_stack = insert node true s.rec_stack;
}

-- `recStack[node] = false; return nil`, unless the loop has found a cycle.
unfoldable pub leave : ℤ → Option (List ℤ × Search) → Option (List ℤ × Search)
leave node none = none
leave node (some (x ∷ cycle, s)) = some (x ∷ cycle, s)
leave node (some ([], s)) = some ([], record s { rec_stack = insert node false s.rec_stack })

-- `dfs(node, visited, recStack, path)`, with a bound on the depth of the calls.
unfoldable pub dfs : ℕ → GoMap ℤ (List ℤ) → List ℤ → ℤ → Search → Option (List ℤ × Search)
dfs zero waiting_for path node s = none
dfs (suc fuel) waiting_for path node s = leave node (
    scan (dfs fuel waiting_for (path ++ node ∷ [])) (path ++ node ∷ [])
      (lookup_or [] node waiting_for) (enter node s))

-- The loop over the nodes of the graph. The fuel is one more than the nodes that have edges, and
-- every call but the deepest enters such a node for the first time.
unfoldable pub search_from : GoMap ℤ (List ℤ) → List ℤ → Search → Option (List ℤ)
search_from waiting_for [] s = some []
search_from waiting_for (node ∷ nodes) s = elim (lookup_or false node s.visited) [
  | true ↦ search_from waiting_for nodes s
  | false ↦ elim (dfs (suc (length waiting_for)) waiting_for [] node s) [
    | none ↦ none
    | some (x ∷ cycle, s') ↦ some (x ∷ cycle)
    | some ([], s') ↦ search_from waiting_for nodes s'
  ]
]

unfoldable pub report : DagManager → List ℤ → DagManager × Bool × List ℤ
report dm [] = (log no_deadlock dm, false, [])
report dm (x ∷ cycle) = (log (deadlock_detected (x ∷ cycle)) dm, true, x ∷ cycle)

unfoldable pub detect_cycle : (List ℤ → List ℤ) → DagManager → Option (DagManager × Bool × List ℤ)
detect_cycle order dm =
    elim (search_from dm.waiting_for (order (keys dm.waiting_for))
      (record { visited = empty; rec_stack = empty })) [
        | none ↦ none
        | some cycle ↦ some (report dm cycle)
      ]

-- The visit of one held resource in Resolve.
unfoldable pub release_held : ℤ → String → DagManager → DagManager
release_held abort_node_id resource dm = elim (lookup resource dm.held_resources) [
  | none ↦ dm
  | some holder ↦
      if holder == abort_node_id
      then log (released_by_abort resource abort_node_id)
          (record dm { held_resources = delete resource dm.held_resources })
      else dm
]

unfoldable pub release_all : ℤ → List String → DagManager → DagManager
release_all abort_node_id [] dm = dm
release_all abort_node_id (resource ∷ resources) dm =
    release_all abort_node_id resources (release_held abort_node_id resource dm)

-- `newWaitList`: the waits for other nodes.
unfoldable pub without : ℤ → List ℤ → List ℤ
without abort_node_id [] = []
without abort_node_id (w ∷ wait_list) =
    let rest = without abort_node_id wait_list in if w == abort_node_id then rest else w ∷ rest

-- The visit of one node of the graph in Resolve.
unfoldable pub drop_edges : ℤ → ℤ → GoMap ℤ (List ℤ) → GoMap ℤ (List ℤ)
drop_edges abort_node_id node waiting_for = elim (lookup node waiting_for) [
  | none ↦ waiting_for
  | some wait_list ↦
      if eqb_ℕ (length (without abort_node_id wait_list)) 0
      then delete node waiting_for
      else insert node (without abort_node_id wait_list) waiting_for
]

unfoldable pub drop_all_edges : ℤ → List ℤ → GoMap ℤ (List ℤ) → GoMap ℤ (List ℤ)
drop_all_edges abort_node_id [] waiting_for = waiting_for
drop_all_edges abort_node_id (node ∷ nodes) waiting_for =
    drop_all_edges abort_node_id nodes (drop_edges abort_node_id node waiting_for)

unfoldable pub resolve :
    (List String → List String) → (List ℤ → List ℤ) → ℤ → DagManager → DagManager
resolve order_held order_waiting abort_node_id dm =
    let freed =
      release_all abort_node_id (order_held (keys dm.held_resources))
        (log (resolving abort_node_id) dm) in
    let own_gone = delete abort_node_id freed.waiting_for in
    log (aborted abort_node_id) (record freed {
      waiting_for = drop_all_edges abort_node_id (order_waiting (keys own_gone)) own_gone;
      waiting_resource = delete abort_node_id freed.waiting_resource;
    })

-- The getters return copies.
unfoldable pub get_wait_for_graph : DagManager → GoMap ℤ (List ℤ)
get_wait_for_graph dm = dm.waiting_for

unfoldable pub get_held_resources : DagManager → GoMap String ℤ
get_held_resources dm = dm.held_resources

unfoldable pub get_logs : DagManager → List Message
get_logs dm = dm.logs

unfoldable pub clear_logs : DagManager → DagManager
clear_logs dm = record dm { logs = [] }

unfoldable pub reset : DagManager → DagManager
reset dm = record {
  held_resources = empty;
  waiting_for = empty;
  waiting_resource = empty;
  logs = [];
}
