-- ===== src/Mutex/Fixed.antt =====
-- mutex/ricart_agrawala.go: what a request, a release and a whole MutexPut leave alone at every
-- node.
use dynamo_db.Prelude.{
  ℕ, ◌≡◌, refl, ◌∙◌, ap, String, Bool, false, none, some, List, arith, ℤ, int_key, ==_iff, ==_refl,
  Option-cases, Bool-cases, inl, inr,
}
use dynamo_db.GoMap.{lookup, insert}
use dynamo_db.Node.{Node, increment_clock, update_clock}
use dynamo_db.Node.Storage.{Network, Cluster, PutArgs, replicate_to_partition_nodes}
use dynamo_db.Node.Handlers.{CsRequestArgs, CsReleaseArgs, request_cs, release_cs}
use dynamo_db.Node.Fixed.{fixed, replace-keeps, replicate_to_partition_nodes-keeps, put_local-fixed}
use dynamo_db.Node.Rpc.{modify, view, Preserves, view-insert, modify-keeps}
use dynamo_db.Mutex.{
  begin_request, request_critical_section, release_node, Notice, notices, send_all,
  release_critical_section, Schedule, execute_in_critical_section, MutexPutArgs, MutexPutReply,
  store_item, store_and_replicate, mutex_put,
}
use dynamo_db.Mutex.Frame.{send_all-keeps}
use dynamo_db.Mutex.Request.{request_critical_section-keeps}

release-eq :
    (net : Network) (order : List Notice → List Notice) (id : ℤ) (n : Node) (cluster : Cluster)
    → lookup id cluster ≡ some n
    → release_critical_section net order id cluster
      ≡ send_all net n (order (notices n)) (insert id (release_node n) cluster)
unfolding release_critical_section
release-eq net order id n cluster e = ground (arith, e)

release-missing :
    (net : Network) (order : List Notice → List Notice) (id : ℤ) (cluster : Cluster)
    → lookup id cluster ≡ none
    → release_critical_section net order id cluster ≡ cluster
unfolding release_critical_section
release-missing net order id cluster e = ground (arith, e)

module _ {A : Type 0} (part : Node → A) (j : ℤ)
    (asks : (args : CsRequestArgs) → Preserves part j (request_cs args)) where
  pub request-keeps :
      ((n : Node) → part (begin_request n) ≡ part n)
      → (net : Network) (order : List ℤ → List ℤ) (in_time : ℤ → Bool) (n : Node)
        (cluster : Cluster)
      → view part n.id cluster ≡ some (part n)
      → view part j (request_critical_section net order in_time n cluster).0 ≡ view part j cluster
  request-keeps begins net order in_time n cluster here = ground (
    arith,
    request_critical_section-keeps part j asks net order in_time n cluster,
    view-insert part j n.id (begin_request n) cluster,
    begins n,
    ==_iff n.id j,
  )

  pub release-keeps :
      ((args : CsReleaseArgs) → Preserves part j (release_cs args))
      → ((n : Node) → part (increment_clock n).0 ≡ part n)
      → ((n : Node) → part (release_node n) ≡ part n)
      → (net : Network) (order : List Notice → List Notice) (id : ℤ) (cluster : Cluster)
      → view part j (release_critical_section net order id cluster) ≡ view part j cluster
  release-keeps releases ticks ends net order id cluster = elim (Option-cases (lookup id cluster)) [
    | inl gone ↦ ap (view part j) (release-missing net order id cluster gone)
    | inr (n, e) ↦
        ap (view part j) (release-eq net order id n cluster e)
        ∙ send_all-keeps part j asks releases ticks net n (order (notices n))
            (insert id (release_node n) cluster)
        ∙ replace-keeps part j id n (release_node n) cluster e (ends n)
  ]

request_cs-fixed : (args : CsRequestArgs) (n : Node) → fixed (request_cs args n).0 ≡ fixed n
unfolding request_cs update_clock
request_cs-fixed args n = ground arith

release_cs-fixed : (args : CsReleaseArgs) (n : Node) → fixed (release_cs args n).0 ≡ fixed n
unfolding release_cs update_clock
release_cs-fixed args n = refl

increment_clock-fixed : (n : Node) → fixed (increment_clock n).0 ≡ fixed n
unfolding increment_clock
increment_clock-fixed n = refl

begin_request-fixed : (n : Node) → fixed (begin_request n) ≡ fixed n
unfolding begin_request increment_clock
begin_request-fixed n = refl

release_node-fixed : (n : Node) → fixed (release_node n) ≡ fixed n
unfolding release_node
release_node-fixed n = refl

store_item-fixed : (args : MutexPutArgs) (n : Node) → fixed (store_item args n) ≡ fixed n
unfolding store_item
store_item-fixed args n = refl

update_clock-fixed : (time : ℤ) (n : Node) → fixed (update_clock time n).0 ≡ fixed n
unfolding update_clock
update_clock-fixed time n = refl

module _ (j : ℤ) (md5 : String → List ℕ) (net : Network) (args : MutexPutArgs) where
  store_and_replicate-fixed :
      (n : Node) (cluster after : Cluster)
      → store_and_replicate md5 net args n cluster ≡ some after
      → view fixed j after ≡ view fixed j cluster
  unfolding store_and_replicate
  store_and_replicate-fixed n cluster after e =
      let sent : PutArgs = record {
        key = args.key;
        value = args.value;
        timestamp = args.timestamp;
        is_replica = false;
      } in
      let written = modify n.id (store_item args) cluster in
      let kept = modify-keeps fixed j n.id (store_item args) cluster (store_item-fixed args) in
      elim (Option-cases (replicate_to_partition_nodes md5 net n sent written)) [
        | inl panics ↦ ground (arith, panics, e)
        | inr ((last, results), f) ↦ ground (
          arith,
          f,
          e,
          kept,
          replicate_to_partition_nodes-keeps fixed j put_local-fixed md5 net n sent written last
              results f,
        )
      ]

  execute-fixed :
      (schedule : Schedule) (k n : Node) (cluster after : Cluster) (success : Bool)
      → view fixed n.id cluster ≡ some (fixed n)
      → execute_in_critical_section schedule (store_and_replicate md5 net args k) n cluster
        ≡ some (after, success)
      → view fixed j after ≡ view fixed j cluster
  unfolding execute_in_critical_section
  execute-fixed schedule k n cluster after success here e =
      let (entered, ok) =
        request_critical_section schedule.request_net schedule.request_order schedule.in_time n
          cluster in
      let kept =
        request-keeps fixed j request_cs-fixed begin_request-fixed schedule.request_net
          schedule.request_order schedule.in_time n cluster here in
      elim (Option-cases (store_and_replicate md5 net args k entered)) [
        | inl panics ↦ ground (arith, panics, e, kept)
        | inr (written, f) ↦ ground (
          arith,
          f,
          e,
          kept,
          store_and_replicate-fixed k entered written f,
          release-keeps fixed j request_cs-fixed release_cs-fixed increment_clock-fixed
              release_node-fixed schedule.notice_net schedule.notice_order n.id written,
        )
      ]

  pub mutex_put-fixed :
      (schedule : Schedule) (has_manager : Bool) (n : Node) (cluster after : Cluster)
      (reply : MutexPutReply)
      → lookup n.id cluster ≡ some n
      → mutex_put md5 net schedule has_manager args n cluster ≡ some (after, reply)
      → view fixed j after ≡ view fixed j cluster
  unfolding mutex_put update_clock
  mutex_put-fixed schedule has_manager n cluster after reply here e =
      let clocked = (update_clock args.timestamp n).0 in
      let before = insert n.id clocked cluster in
      let kept =
        replace-keeps fixed j n.id n clocked cluster here (update_clock-fixed args.timestamp n) in
      let own : view fixed n.id before ≡ some (fixed clocked) =
        ground (arith, view-insert fixed n.id n.id clocked cluster, ==_refl n.id) in
      elim (Bool-cases has_manager) [
        | inl set ↦
            elim (Option-cases (
              execute_in_critical_section schedule (store_and_replicate md5 net args clocked)
                clocked before)) [
                  | inl panics ↦ ground (arith, set, panics, e)
                  | inr ((last, ok), f) ↦ ground (
                    arith,
                    set,
                    f,
                    e,
                    kept,
                    execute-fixed schedule clocked clocked before last ok own f,
                  )
                ]
        | inr unset ↦ ground (arith, unset, e, kept)
      ]
