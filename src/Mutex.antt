-- ===== src/Mutex.antt =====
-- mutex/ricart_agrawala.go: the manager of the mutual exclusion, and MutexPut of
-- node/rpc_handlers.go, which runs in it.
--
-- Of the manager's own fields only the node and the timeout are read, so its state is the node's.
-- The goroutines of a request run in some order, and some of them end after the overall timeout:
-- the order, and whether an answer is there in time, are arguments. A timeout only passes time.
pub mod Protocol
pub mod Frame
pub mod Request
pub mod Release
pub mod Fixed
pub mod Stores
pub mod Put
mod Tests
use dynamo_db.Prelude.{
  ℕ, zero, suc, ◌+◌, ◌-◌, String, text_append, Bool, true, false, Option, none, some, List, [], ◌∷◌,
  ◌++◌, map, length, leb, eqb_ℕ, ltb, ℤ, pos, int_key, text_key, if◌then◌else◌,
}
use dynamo_db.GoMap.{lookup, insert}
use dynamo_db.Node.{
  Node, StoredItem, DeferredRequest, increment_clock, update_clock, get_node_address,
  get_other_nodes,
}
use dynamo_db.Node.Storage.{Network, Cluster, PutArgs, replicate_to_partition_nodes}
use dynamo_db.Node.Handlers.{CsRequestArgs, CsReleaseArgs, request_cs, release_cs}
use dynamo_db.Node.Rpc.{call, dials, modify, increment_at}

-- The block under `MutexLock` at the start of a request.
unfoldable pub begin_request : Node → Node
begin_request n =
    let (ticked, time) = increment_clock (record n { requesting_cs = true }) in
    record ticked { request_time = time; reply_count = pos 0 }

-- What the goroutines have counted, and the nodes that they took for dead.
pub record Tally : Type 0 where
  pub granted_count : ℕ
  pub dead_nodes : List ℤ

unfoldable pub can_enter : Tally → ℕ → Bool
can_enter tally expected = leb expected (tally.granted_count + length tally.dead_nodes)

-- Granted, and alive.
unfoldable pub send_cs_request : Network → Node → ℤ → ℤ → Cluster → Cluster × Bool × Bool
send_cs_request net n node_id timestamp cluster =
    let (after, reply) =
      call net (get_node_address node_id n)
        (request_cs (record { node_id = n.id; timestamp = timestamp })) cluster in
    elim reply [ none ↦ (after, false, false) | some granted ↦ (after, granted, true) ]

-- What one goroutine counts.
unfoldable pub count : ℤ → Bool → Bool → Tally → Tally
count node_id granted false tally = record tally { dead_nodes = tally.dead_nodes ++ node_id ∷ [] }
count node_id true true tally = record tally { granted_count = tally.granted_count + 1 }
count node_id false true tally = tally

-- The goroutines of a request, one after the other; what is not there in time is not counted.
unfoldable pub ask_all :
    Network → Node → (ℤ → Bool) → ℤ → List ℤ → Cluster → Tally → Cluster × Tally
ask_all net n in_time timestamp [] cluster tally = (cluster, tally)
ask_all net n in_time timestamp (node_id ∷ node_ids) cluster tally =
    let (after, granted, alive) = send_cs_request net n node_id timestamp cluster in
    ask_all net n in_time timestamp node_ids after
      (if in_time node_id then count node_id granted alive tally else tally)

-- With replies missing it waits for the timeout and lets the node in all the same.
unfoldable pub wait_for_deferred_replies : ℕ → Bool
wait_for_deferred_replies zero = true
wait_for_deferred_replies (suc remaining) = true

-- The request of the node `n` of the cluster.
unfoldable pub request_critical_section :
    Network → (List ℤ → List ℤ) → (ℤ → Bool) → Node → Cluster → Cluster × Bool
request_critical_section net order in_time n cluster =
    let started = begin_request n in
    let before = insert n.id started cluster in
    let others = get_other_nodes started in
    let expected = length others in
    if eqb_ℕ expected 0
    then (before, true)
    else let (after, tally) =
        ask_all net started in_time started.request_time (order others) before
          (record { granted_count = 0; dead_nodes = [] }) in
      (
        after,
        if can_enter tally expected
            then true
            else wait_for_deferred_replies
                (expected - tally.granted_count - length tally.dead_nodes),
      )

-- The block under `MutexLock` at the start of a release.
unfoldable pub release_node : Node → Node
release_node n = record n { requesting_cs = false; deferred_queue = [] }

-- The goroutines of a release.
pub data Notice : Type 0 where
  deferred_reply release_notice : ℤ → Notice

unfoldable pub notices : Node → List Notice
notices n =
    map (λ deferred. deferred_reply deferred.node_id) n.deferred_queue
    ++ map (λ node_id. release_notice node_id) (get_other_nodes n)

-- A deferred reply is a call of RequestCS.
unfoldable pub send_deferred_reply : Network → Node → ℤ → Cluster → Cluster
send_deferred_reply net n node_id cluster =
    let at = get_node_address node_id n in
    if dials net at
    then (let (ticked, time) = increment_at n.id cluster in
        (call net at (request_cs (record { node_id = n.id; timestamp = time })) ticked).0)
    else cluster

unfoldable pub send_release_notification : Network → Node → ℤ → Cluster → Cluster
send_release_notification net n node_id cluster =
    let at = get_node_address node_id n in
    if dials net at
    then (let (ticked, time) = increment_at n.id cluster in
        (call net at (release_cs (record { node_id = n.id; timestamp = time })) ticked).0)
    else cluster

unfoldable pub send_notice : Network → Node → Notice → Cluster → Cluster
send_notice net n (deferred_reply node_id) = send_deferred_reply net n node_id
send_notice net n (release_notice node_id) = send_release_notification net n node_id

unfoldable pub send_all : Network → Node → List Notice → Cluster → Cluster
send_all net n [] cluster = cluster
send_all net n (notice ∷ rest) cluster = send_all net n rest (send_notice net n notice cluster)

-- The release of the node `id`, whose goroutines run in the given order.
unfoldable pub release_critical_section :
    Network → (List Notice → List Notice) → ℤ → Cluster → Cluster
release_critical_section net order id cluster = elim (lookup id cluster) [
  | none ↦ cluster
  | some n ↦ send_all net n (order (notices n)) (insert id (release_node n) cluster)
]

-- How the goroutines of one execution run, and what becomes of the messages of its request and of
-- its release, whatever becomes of the calls that its body makes.
pub record Schedule : Type 0 where
  pub request_net : Network
  pub notice_net : Network
  pub request_order : List ℤ → List ℤ
  pub in_time : ℤ → Bool
  pub notice_order : List Notice → List Notice

-- `body` is what `fn` does to the cluster, `none` a panic.
unfoldable pub execute_in_critical_section :
    Schedule → (Cluster → Option Cluster) → Node → Cluster → Option (Cluster × Bool)
execute_in_critical_section schedule body n cluster =
    let (entered, success) =
      request_critical_section schedule.request_net schedule.request_order schedule.in_time n
        cluster in
    if success
    then elim (body entered) [
      | none ↦ none
      | some after ↦
          some (release_critical_section schedule.notice_net schedule.notice_order n.id after, true)
    ]
    else some (entered, false)

pub record MutexPutArgs : Type 0 where
  pub key : String
  pub value : List ℕ
  pub timestamp : ℤ

pub record MutexPutReply : Type 0 where
  pub success : Bool
  pub message : String

unfoldable pub store_item : MutexPutArgs → Node → Node
store_item args n = record n {
  data_store =
      insert args.key (record { value = args.value; timestamp = args.timestamp }) n.data_store;
}

unfoldable pub mutex_put_reply : MutexPutArgs → Bool → MutexPutReply
mutex_put_reply args true = record {
  success = true;
  message =
      text_append "Key '"
        (text_append args.key "' stored with mutual exclusion (Ricart-Agrawala) and replicated");
}
mutex_put_reply args false = record {
  success = false;
  message = "Failed to acquire critical section";
}

module _ (md5 : String → List ℕ) where
  -- The function that MutexPut executes in the critical section.
  unfoldable pub store_and_replicate : Network → MutexPutArgs → Node → Cluster → Option Cluster
  store_and_replicate net args n cluster =
      let sent : PutArgs = record {
        key = args.key;
        value = args.value;
        timestamp = args.timestamp;
        is_replica = false;
      } in
      elim (replicate_to_partition_nodes md5 net n sent (modify n.id (store_item args) cluster)) [
        | none ↦ none
        | some (after, results) ↦ some after
      ]

  -- MutexPut on the node `n` of the cluster. `has_manager`: main.go has set `MutexMgr`.
  unfoldable pub mutex_put :
      Network → Schedule → Bool → MutexPutArgs → Node → Cluster → Option (Cluster × MutexPutReply)
  mutex_put net schedule has_manager args n cluster =
      let clocked = (update_clock args.timestamp n).0 in
      let before = insert n.id clocked cluster in
      if has_manager
      then elim (execute_in_critical_section schedule (store_and_replicate net args clocked) clocked
          before) [
            | none ↦ none
            | some (after, success) ↦ some (after, mutex_put_reply args success)
          ]
      else some (before, record { success = false; message = "Mutex manager not initialized" })
