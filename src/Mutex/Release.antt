-- ===== src/Mutex/Release.antt =====
-- mutex/ricart_agrawala.go: what a deferred reply does to the node that waits for it.
use dynamo_db.Prelude.{
  ◌≡◌, ◌≢◌, ap, ◌∙◌, inl, String, true, some, [], ◌∷◌, ◌++◌, arith, ℤ, pos, ◌<ℤ◌, ◌≤ℤ◌, int_key,
  ==_iff, ==_refl,
}
use dynamo_db.GoMap.{lookup, insert, lookup-insert}
use dynamo_db.Node.{Node, max_int64, increment, increment_clock, get_node_address}
use dynamo_db.Node.Clock.{increment_lem}
use dynamo_db.Node.Storage.{Network, Cluster}
use dynamo_db.Node.Handlers.{CsRequestArgs, request_cs}
use dynamo_db.Node.Exclusion.{request_cs-defers, request_cs-kept}
use dynamo_db.Node.Rpc.{call, dials, increment_at, view, view-insert}
use dynamo_db.Mutex.{send_deferred_reply}

-- A call that is executed at the node `m`.
executed :
    {R : Type 0} (net : Network) (at : String) (handler : Node → Node × R) (peer : ℤ) (m : Node)
    (cluster : Cluster)
    → net.listener at ≡ some peer
    → net.executes at ≡ true
    → lookup peer cluster ≡ some m
    → (call net at handler cluster).0 ≡ insert peer (handler m).0 cluster
unfolding call
executed net at handler peer m cluster listens runs e = ground (arith, listens, runs, e)

incremented :
    (id : ℤ) (n : Node) (cluster : Cluster)
    → lookup id cluster ≡ some n
    → increment_at id cluster ≡ (insert id (increment_clock n).0 cluster, increment n.lamport_clock)
unfolding increment_at increment_clock
incremented id n cluster e = ground (arith, e)

sent :
    (net : Network) (n m : Node) (peer : ℤ) (cluster : Cluster)
    → lookup n.id cluster ≡ some n
    → lookup peer cluster ≡ some m
    → n.id ≢ peer
    → net.listener (get_node_address peer n) ≡ some peer
    → net.executes (get_node_address peer n) ≡ true
    → send_deferred_reply net n peer cluster
      ≡ insert peer
          (request_cs (record { node_id = n.id; timestamp = increment n.lamport_clock }) m).0
          (insert n.id (increment_clock n).0 cluster)
unfolding send_deferred_reply dials
sent net n m peer cluster own other apart listens runs =
    let ticked = insert n.id (increment_clock n).0 cluster in
    let there : lookup peer ticked ≡ some m = ground (
      arith,
      lookup-insert n.id peer (increment_clock n).0 cluster,
      ==_iff n.id peer,
      other,
      apart,
    ) in
    ground (
      arith,
      listens,
      incremented n.id n cluster own,
      executed net (get_node_address peer n)
          (request_cs (record { node_id = n.id; timestamp = increment n.lamport_clock })) peer m
          ticked listens runs there,
    )

sent-view :
    {A : Type 0} (part : Node → A) (net : Network) (n m : Node) (peer : ℤ) (cluster : Cluster)
    → lookup n.id cluster ≡ some n
    → lookup peer cluster ≡ some m
    → n.id ≢ peer
    → net.listener (get_node_address peer n) ≡ some peer
    → net.executes (get_node_address peer n) ≡ true
    → view part peer (send_deferred_reply net n peer cluster)
      ≡ some
          (part (request_cs (record { node_id = n.id; timestamp = increment n.lamport_clock }) m).0)
sent-view part net n m peer cluster own other apart listens runs =
    let m' = (request_cs (record { node_id = n.id; timestamp = increment n.lamport_clock }) m).0 in
    ap (view part peer) (sent net n m peer cluster own other apart listens runs)
    ∙ ground (
      arith,
      view-insert part peer peer m' (insert n.id (increment_clock n).0 cluster),
      ==_refl peer,
    )

-- A deferred reply is a new request to the node that waits. That node, which asked before the
-- sender's clock, does not take it for a grant: it defers the sender, goes on waiting with the same
-- request, and has the sender in its own queue.
pub deferred_reply-requeues :
    (net : Network) (n m : Node) (peer : ℤ) (cluster : Cluster)
    → lookup n.id cluster ≡ some n
    → lookup peer cluster ≡ some m
    → n.id ≢ peer
    → net.listener (get_node_address peer n) ≡ some peer
    → net.executes (get_node_address peer n) ≡ true
    → m.requesting_cs ≡ true
    → m.request_time ≤ℤ n.lamport_clock
    → n.lamport_clock <ℤ pos max_int64
    → let after = send_deferred_reply net n peer cluster in
      (view (λ k. k.requesting_cs) peer after ≡ some true)
      × (view (λ k. k.request_time) peer after ≡ some m.request_time)
      × (view (λ k. k.deferred_queue) peer after
          ≡ some (
              m.deferred_queue
              ++ record { node_id = n.id; timestamp = increment n.lamport_clock } ∷ []))
deferred_reply-requeues net n m peer cluster own other apart listens runs waits earlier small =
    let args : CsRequestArgs = record { node_id = n.id; timestamp = increment n.lamport_clock } in
    let (defers, queues) = request_cs-defers args m in
    let deferred =
      defers.1 (waits, inl (ground (arith, earlier, increment_lem n.lamport_clock small))) in
    let kept = request_cs-kept args m in
    (
      sent-view (λ k. k.requesting_cs) net n m peer cluster own other apart listens runs
          ∙ ap some (kept.0 ∙ waits),
      sent-view (λ k. k.request_time) net n m peer cluster own other apart listens runs
          ∙ ap some kept.1,
      sent-view (λ k. k.deferred_queue) net n m peer cluster own other apart listens runs
          ∙ ap some (ground (arith, queues, deferred)),
    )
