-- ===== src/Node/Dag.antt =====
-- node/rpc_handlers.go: the handlers that pass a request on to the deadlock manager. Where main.go
-- has set none, the reply keeps Go's zero values but for the message.
use dynamo_db.Prelude.{
  String, text_append, Bool, true, false, Option, none, some, List, [], ◌∷◌, ℤ, pos, show,
  if◌then◌else◌,
}
use dynamo_db.GoMap.{GoMap, empty}
use dynamo_db.Deadlock.{
  Message, lock, unlock, detect_cycle, resolve, reset, get_wait_for_graph, get_held_resources,
  get_logs,
}
use dynamo_db.Node.{Node, increment_clock}

pub record DagLockArgs : Type 0 where
  pub node_id : ℤ
  pub resource : String

pub record DagLockReply : Type 0 where
  pub granted : Bool
  pub waiting_for : ℤ
  pub message : String

pub record DagUnlockReply : Type 0 where
  pub acknowledged : Bool
  pub message : String

pub record DagDetectReply : Type 0 where
  pub has_cycle : Bool
  pub cycle : List ℤ
  pub message : String

pub record DagGraphReply : Type 0 where
  pub wait_for_graph : GoMap ℤ (List ℤ)
  pub held_resources : GoMap String ℤ
  pub message : String

pub record DagResolveReply : Type 0 where
  pub success : Bool
  pub message : String

abbrev not_initialized : String
not_initialized = "Deadlock manager not initialized"

-- "Resource '%s' granted to Node %d" and the like
abbrev pub resource_line : String → String → ℤ → String
resource_line resource middle id =
    text_append "Resource '" (text_append resource (text_append "'" (text_append middle (show id))))

unfoldable pub lock_message : DagLockArgs → Bool → ℤ → String
lock_message args granted wait_for =
    if granted
    then resource_line args.resource " granted to Node " args.node_id
    else text_append "Node " (
        text_append (show args.node_id) (
          text_append " waiting for Node " (
            text_append (show wait_for)
              (text_append " to release '" (text_append args.resource "'")))))

unfoldable pub dag_lock : DagLockArgs → Node → Node × DagLockReply
dag_lock args n =
    let ticked = (increment_clock n).0 in
    elim ticked.deadlock_mgr [
      | none ↦ (ticked, record { granted = false; waiting_for = pos 0; message = not_initialized })
      | some dm ↦
          let (dm', granted, wait_for) = lock args.node_id args.resource dm in
          (
            record ticked { deadlock_mgr = some dm' },
            record {
              granted = granted;
              waiting_for = wait_for;
              message = lock_message args granted wait_for;
            },
          )
    ]

unfoldable pub dag_unlock : (List ℤ → List ℤ) → DagLockArgs → Node → Node × DagUnlockReply
dag_unlock order args n =
    let ticked = (increment_clock n).0 in
    elim ticked.deadlock_mgr [
      | none ↦ (ticked, record { acknowledged = false; message = not_initialized })
      | some dm ↦ (
        record ticked { deadlock_mgr = some (unlock order args.node_id args.resource dm) },
        record {
          acknowledged = true;
          message = resource_line args.resource " released by Node " args.node_id;
        },
      )
    ]

-- The numbers of a list with %v, less the brackets.
unfoldable pub show_ids : List ℤ → String
show_ids [] = ""
show_ids (id ∷ []) = show id
show_ids (id ∷ next ∷ ids) = text_append (show id) (text_append " " (show_ids (next ∷ ids)))

unfoldable pub detect_message : Bool → List ℤ → String
detect_message has_cycle cycle =
    if has_cycle
    then text_append "DEADLOCK DETECTED! Cycle: [" (text_append (show_ids cycle) "]")
    else "No deadlock detected"

-- `none` is a search that did not return.
unfoldable pub dag_detect : (List ℤ → List ℤ) → Node → Option (Node × DagDetectReply)
dag_detect order n = elim n.deadlock_mgr [
  | none ↦ some (n, record { has_cycle = false; cycle = []; message = not_initialized })
  | some dm ↦ elim (detect_cycle order dm) [
    | none ↦ none
    | some (dm', has_cycle, cycle) ↦ some (
      record n { deadlock_mgr = some dm' },
      record { has_cycle = has_cycle; cycle = cycle; message = detect_message has_cycle cycle },
    )
  ]
]

unfoldable pub dag_graph : Node → DagGraphReply
dag_graph n = elim n.deadlock_mgr [
  | none ↦ record { wait_for_graph = empty; held_resources = empty; message = not_initialized }
  | some dm ↦ record {
    wait_for_graph = get_wait_for_graph dm;
    held_resources = get_held_resources dm;
    message = "Wait-For Graph retrieved";
  }
]

unfoldable pub dag_resolve :
    (List String → List String) → (List ℤ → List ℤ) → ℤ → Node → Node × DagResolveReply
dag_resolve order_held order_waiting abort_node_id n = elim n.deadlock_mgr [
  | none ↦ (n, record { success = false; message = not_initialized })
  | some dm ↦ (
    record n { deadlock_mgr = some (resolve order_held order_waiting abort_node_id dm) },
    record {
      success = true;
      message = text_append "Deadlock resolved by aborting Node " (show abort_node_id);
    },
  )
]

-- The reply is `Acknowledged`.
unfoldable pub dag_reset : Node → Node × Bool
dag_reset n = elim n.deadlock_mgr [
  | none ↦ (n, false)
  | some dm ↦ (record n { deadlock_mgr = some (reset dm) }, true)
]

unfoldable pub dag_logs : Node → List Message
dag_logs n = elim n.deadlock_mgr [ none ↦ [] | some dm ↦ get_logs dm ]
