-- ===== src/Replicas.antt =====
-- node/rpc_handlers.go: histories of Put, MutexPut, Delete and Get at the nodes of a cluster.
--
-- The calls of clients come one after the other. Delete replies without waiting for its goroutines,
-- each of which runs at any step after that, or never. A call at a node that is not in the cluster
-- fails; one whose handler panics is `none`.
pub mod Pending
pub mod Linked
pub mod Serves
pub mod Refinement
mod Tests
use dynamo_db.Prelude.{
  ℕ, zero, suc, String, Bool, true, false, ◌||◌, Option, none, some, List, [], ◌∷◌, ℤ, int_key,
  text_key, ◌==◌, if◌then◌else◌,
}
use dynamo_db.GoMap.{GoMap, lookup, insert, delete, is_some}
use dynamo_db.Node.{Node, StoredItem}
use dynamo_db.Node.Storage.{
  Network, Cluster, GetReply, DeleteArgs, put, get, delete_local, begin_delete, propagate_delete,
}
use dynamo_db.Mutex.{Schedule, mutex_put}

-- The node that is called, the key and the rest of the arguments.
pub data Operation : Type 0 where
  put_at : ℤ → String → List ℕ → ℤ → Operation
  mutex_put_at : ℤ → Schedule → String → List ℕ → ℤ → Operation
  delete_at : ℤ → String → ℤ → Operation
  get_at : ℤ → String → Operation

-- A call of a client, or the goroutine at that place of the pending ones.
pub data Step : Type 0 where
  calls : Operation → Step
  propagates : ℕ → Step

-- `done`: the success of the reply.
pub data Answer : Type 0 where
  no_node : Answer
  done : Bool → Answer
  found : Option StoredItem → Answer

unfoldable pub item_found : GetReply → Option StoredItem
item_found reply =
    if reply.found then some (record { value = reply.value; timestamp = reply.timestamp }) else none

abbrev pub node_of : Operation → ℤ
node_of (put_at id key value time) = id
node_of (mutex_put_at id schedule key value time) = id
node_of (delete_at id key time) = id
node_of (get_at id key) = id

abbrev pub key_of : Operation → String
key_of (put_at id key value time) = key
key_of (mutex_put_at id schedule key value time) = key
key_of (delete_at id key time) = key
key_of (get_at id key) = key

-- A goroutine of Delete that has not run yet: propagateDelete at `node` for `target`.
pub record Propagation : Type 0 where
  pub node : Node
  pub args : DeleteArgs
  pub target : ℤ

pub record State : Type 0 where
  pub cluster : Cluster
  pub pending : List Propagation

unfoldable pub propagations : Node → DeleteArgs → List ℤ → List Propagation
propagations n args [] = []
propagations n args (target ∷ targets) =
    record { node = n; args = args; target = target } ∷ propagations n args targets

unfoldable pub join_pending : List Propagation → List Propagation → List Propagation
join_pending [] more = more
join_pending (p ∷ pending) more = p ∷ join_pending pending more

-- Whether a goroutine that deletes the key is pending.
unfoldable pub is_pending : String → List Propagation → Bool
is_pending key [] = false
is_pending key (p ∷ pending) = p.args.key == key || is_pending key pending

unfoldable pub calls_of : List Step → List Operation
calls_of [] = []
calls_of (calls op ∷ steps) = op ∷ calls_of steps
calls_of (propagates i ∷ steps) = calls_of steps

module _ (net : Network) where
  abbrev pub finish : Propagation → Cluster → Cluster
  finish p cluster = propagate_delete net p.node p.args p.target cluster

  -- The goroutine at the place runs.
  unfoldable pub finish_at : ℕ → List Propagation → Cluster → State
  finish_at i [] cluster = record { cluster = cluster; pending = [] }
  finish_at zero (p ∷ pending) cluster = record { cluster = finish p cluster; pending = pending }
  finish_at (suc i) (p ∷ pending) cluster =
      let s = finish_at i pending cluster in record { cluster = s.cluster; pending = p ∷ s.pending }

  -- All of them run.
  unfoldable pub finish_all : List Propagation → Cluster → Cluster
  finish_all [] cluster = cluster
  finish_all (p ∷ pending) cluster = finish_all pending (finish p cluster)

module _ (md5 : String → List ℕ) (net : Network) where
  -- The handler, at the node that is called.
  unfoldable pub operate : Operation → Node → State → Option (State × Answer)
  operate (put_at id key value time) n s =
      elim (put md5 net (record { key = key; value = value; timestamp = time; is_replica = false })
        n s.cluster) [
          | none ↦ none
          | some (after, reply) ↦ some (record s { cluster = after }, done reply.success)
        ]
  operate (mutex_put_at id schedule key value time) n s =
      elim (mutex_put md5 net schedule true (record { key = key; value = value; timestamp = time })
        n s.cluster) [
          | none ↦ none
          | some (after, reply) ↦ some (record s { cluster = after }, done reply.success)
        ]
  operate (delete_at id key time) n s =
      let args : DeleteArgs = record { key = key; timestamp = time; is_replica = false } in
      elim (begin_delete md5 args n s.cluster) [
        | none ↦ none
        | some (after, reply, targets) ↦ some (
          record {
            cluster = after;
            pending = join_pending s.pending (propagations (delete_local args n).0 args targets);
          },
          done reply.success,
        )
      ]
  operate (get_at id key) n s =
      let (after, reply) = get (record { key = key }) n in
      some (record s { cluster = insert n.id after s.cluster }, found (item_found reply))

  unfoldable pub run : List Step → State → Option (State × List Answer)
  run [] s = some (s, [])
  run (propagates i ∷ steps) s = run steps (finish_at net i s.pending s.cluster)
  run (calls op ∷ steps) s = elim (lookup (node_of op) s.cluster) [
    | none ↦ elim (run steps s) [
      | none ↦ none
      | some (final, answers) ↦ some (final, no_node ∷ answers)
    ]
    | some n ↦ elim (operate op n s) [
      | none ↦ none
      | some (after, answer) ↦ elim (run steps after) [
        | none ↦ none
        | some (final, answers) ↦ some (final, answer ∷ answers)
      ]
    ]
  ]

  -- Whether every call on a key comes when no goroutine is pending that deletes that key.
  unfoldable pub is_quiet : List Step → State → Bool
  is_quiet [] s = true
  is_quiet (propagates i ∷ steps) s = is_quiet steps (finish_at net i s.pending s.cluster)
  is_quiet (calls op ∷ steps) s = elim (lookup (node_of op) s.cluster) [
    | none ↦ is_quiet steps s
    | some n ↦ elim (operate op n s) [
      | none ↦ false
      | some (after, answer) ↦
          if is_pending (key_of op) s.pending then false else is_quiet steps after
    ]
  ]

-- What a single map does with the operations.
abbrev pub Contents : Type 0
Contents = GoMap String StoredItem

unfoldable pub apply : Operation → Contents → Contents × Answer
apply (put_at id key value time) m =
    (insert key (record { value = value; timestamp = time }) m, done true)
apply (mutex_put_at id schedule key value time) m =
    (insert key (record { value = value; timestamp = time }) m, done true)
apply (delete_at id key time) m = (delete key m, done (is_some (lookup key m)))
apply (get_at id key) m = (m, found (lookup key m))

-- `known`: the nodes that can be called.
unfoldable pub apply_all : (ℤ → Bool) → List Operation → Contents → Contents × List Answer
apply_all known [] m = (m, [])
apply_all known (op ∷ ops) m =
    if known (node_of op)
    then (let (after, answer) = apply op m in
        let (final, answers) = apply_all known ops after in (final, answer ∷ answers))
    else (let (final, answers) = apply_all known ops m in (final, no_node ∷ answers))
