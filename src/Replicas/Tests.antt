-- ===== src/Replicas/Tests.antt =====
-- The theorem on histories, applied to a cluster of two nodes.
use dynamo_db.Prelude.{
  ◌≡◌, ◌≢◌, refl, sym, inl, inr, String, Bool, true, some, List, [], ◌∷◌, elem, show_ℕ, arith, ℤ,
  pos, int_key, text_key, ==_iff, show, Option-cases,
}
use dynamo_db.GoMap.{lookup, insert, delete, is_some}
use dynamo_db.Manager.Valid.{IsValid}
use dynamo_db.Node.Storage.{
  put, replicate_to_partition_nodes, replicate, target_nodes, others, call_put, put_local,
  put_replica, get, get_reply, begin_delete, delete_local, delete_replica, propagate_delete,
}
use dynamo_db.Manager.{is_enabled}
use dynamo_db.Node.{
  update_clock, increment_clock, Node, get_node_address, address_of, address, get_other_nodes,
  ids_other_than,
}
use dynamo_db.Node.Samples.{member, network, two, two-all}
use dynamo_db.Node.Storage.{Cluster}
use dynamo_db.Node.Replication.{stored, executed_on}
use dynamo_db.GoMap.{lookup_or}
use dynamo_db.GoSort.{sort, place, search}
use dynamo_db.Manager.{PartitionManager, get_partition_owners}
use dynamo_db.Ring.{
  get_nodes, collect_loop, collect, get_node, start_index, node_at, vnode_hash, hash_key,
  hash_bytes, vnode_key, add_node, add_vnodes, new_consistent_hash, positive_or,
}
use dynamo_db.Ring.Samples.{one_node, one_node-IsWellFormed, by_length, as_listed}
use dynamo_db.Mutex.{Schedule}
use dynamo_db.Replicas.{
  operate, propagations, join_pending, is_pending, finish_at, Step, calls, propagates, put_at,
  delete_at, get_at, State, calls_of, is_quiet, finish_all, run, Contents, apply_all,
}
use dynamo_db.Replicas.Linked.{IsLinked, is_home}
use dynamo_db.Replicas.Serves.{Holds}
use dynamo_db.Replicas.Refinement.{run-refines}

-- Only node 1 is on the ring, so it keeps every key.
abbrev alone : PartitionManager
alone = record { hash_ring = one_node; replication_factor = pos 1; enabled = true }

alone-IsValid : IsValid by_length alone
alone-IsValid = record { well_formed = one_node-IsWellFormed; positive = omega arith }

abbrev sharing : ℤ → Node
sharing id = record (member id) { partition_mgr = alone }

abbrev cluster : Cluster
cluster = two (sharing (pos 1)) (sharing (pos 2))

abbrev IsPeer : ℤ → ℤ → Type 0
IsPeer j i =
    (elem i (get_other_nodes (sharing j)) ≡ true)
    × (executed_on network (get_node_address i (sharing j)) i ≡ true)

peers : IsPeer (pos 1) (pos 2) × IsPeer (pos 2) (pos 1)
unfolding lookup executed_on get_node_address address_of address get_other_nodes ids_other_than show
peers = ((refl, refl), (refl, refl))

all-peers :
    (j : ℤ)
    → (pos 1 ≢ j → IsPeer j (pos 1))
    → (pos 2 ≢ j → IsPeer j (pos 2))
    → (i : ℤ) → is_some (lookup i cluster) ≡ true
    → j ≢ i
    → IsPeer j i
all-peers j first second i known apart = elim (Option-cases (lookup i cluster)) [
  | inl gone ↦ absurd (ground (arith, known, gone))
  | inr (m, there) ↦
      two-all (sharing (pos 1)) (sharing (pos 2)) (λ k o. j ≢ k → IsPeer j k)
        (λ e. first (λ same. e (sym same))) (λ e. second (λ same. e (sym same))) i m there apart
]

both-linked :
    (i j : ℤ) (n : Node)
    → lookup j cluster ≡ some n
    → is_some (lookup i cluster) ≡ true
    → j ≢ i
    → (elem i (get_other_nodes n) ≡ true) × (executed_on network (get_node_address i n) i ≡ true)
both-linked i =
    two-all (sharing (pos 1)) (sharing (pos 2))
      (λ k m.
        is_some (lookup i cluster) ≡ true
        → k ≢ i
        → (elem i (get_other_nodes m) ≡ true)
          × (executed_on network (get_node_address i m) i ≡ true))
      (all-peers (pos 1) (λ e. absurd (e refl)) (λ e. peers.0) i)
      (all-peers (pos 2) (λ e. peers.1) (λ e. absurd (e refl)) i)

cluster-IsLinked : IsLinked by_length network alone cluster
cluster-IsLinked = record {
  valid = alone-IsValid;
  own = two-all (sharing (pos 1)) (sharing (pos 2)) (λ j n. n.id ≡ j) refl refl;
  shared = two-all (sharing (pos 1)) (sharing (pos 2)) (λ j n. n.partition_mgr ≡ alone) refl refl;
  listed = λ j i n here known apart. (both-linked i j n here known apart).0;
  linked = λ j i n here known apart. (both-linked i j n here known apart).1;
}

abbrev contents : Contents
contents = ("k", record { value = 5 ∷ []; timestamp = pos 3 }) ∷ []

abbrev home : ℤ → String → Bool
home j key = is_home by_length j key alone

cluster-Holds : Holds home contents cluster
unfolding stored lookup
cluster-Holds j k known keeps = ground (arith, known, ==_iff (pos 1) j, ==_iff (pos 2) j)

first-home : (home (pos 1) "a" ≡ true) × (home (pos 1) "k" ≡ true)
unfolding is_home get_partition_owners get_nodes collect_loop collect get_node start_index search
    node_at vnode_hash hash_key hash_bytes vnode_key add_node add_vnodes new_consistent_hash
    positive_or lookup_or lookup insert sort place show show_ℕ
first-home = (refl, refl)

abbrev at_once : Schedule
at_once = record {
  request_net = network;
  notice_net = network;
  request_order = as_listed;
  in_time = λ id. true;
  notice_order = as_listed;
}

-- The goroutine of the Delete runs after the next call.
abbrev history : List Step
history =
    calls (put_at (pos 2) "a" (1 ∷ []) (pos 7))
    ∷ calls (delete_at (pos 1) "k" (pos 9))
    ∷ calls (get_at (pos 1) "a")
    ∷ propagates 0
    ∷ []

abbrev at_first : State
at_first = record { cluster = cluster; pending = [] }

history-quiet : is_quiet by_length network history at_first ≡ true
unfolding is_quiet operate put replicate_to_partition_nodes replicate target_nodes others call_put
    put_local put_replica get get_reply begin_delete delete_local delete_replica propagations
    join_pending is_pending finish_at propagate_delete is_enabled get_partition_owners get_nodes
    collect_loop collect get_node start_index search node_at vnode_hash hash_key hash_bytes
    vnode_key add_node add_vnodes new_consistent_hash positive_or lookup_or lookup insert delete
    sort place show show_ℕ get_node_address address_of address get_other_nodes ids_other_than
    update_clock increment_clock
history-quiet = refl

run-refines_example :
    let (after, answers) =
      apply_all (λ j. is_some (lookup j cluster)) (calls_of history) contents in
    (final : State) × (run by_length network history at_first ≡ some (final, answers))
    × Holds home after (finish_all network final.pending final.cluster)
    × IsLinked by_length network alone final.cluster
run-refines_example =
    run-refines by_length network alone history contents cluster
      (unfold calls_of in (tt, ((first-home.1), (first-home.0, tt)))) history-quiet cluster-IsLinked
      cluster-Holds
