-- ===== src/Client/Calls.antt =====
-- client/client.go: calls at a node that can be reached.
use dynamo_db.Prelude.{
  ℕ, ◌≡◌, ◌≢◌, ap, ◌∙◌, inr, String, Bool, true, false, ◌&&◌, ◌||◌, Option, some, List, arith, ℤ,
  int_key, text_key, ◌==◌, ==_iff, if◌then◌else◌,
}
use dynamo_db.GoMap.{lookup, insert, lookup-insert, is_some}
use dynamo_db.Manager.Valid.{IsValid}
use dynamo_db.Node.{Node, NodeConfig, increment_clock}
use dynamo_db.Node.Storage.{Network, Cluster, PutArgs, put, get, get_reply}
use dynamo_db.Node.Replication.{stored, reached, item_of, put-stores}
use dynamo_db.Node.Rpc.{call}
use dynamo_db.Client.{connect_to_node, call_cluster}
use dynamo_db.Client.QuorumGet.{read_one}

-- A call at the node `id`, which is `n` in the cluster, is executed and answered.
pub record IsUp (net : Network) (nodes : List NodeConfig) (id : ℤ) (n : Node) (cluster : Cluster)
    : Type 0 where
  pub at : String
  pub connects : connect_to_node net nodes id ≡ some at
  pub listens : net.listener at ≡ some id
  pub executed : net.executes at ≡ true
  pub is_answered : net.answers at ≡ true
  pub here : lookup id cluster ≡ some n
  pub own : n.id ≡ id

module _ (net : Network) (nodes : List NodeConfig) (id : ℤ) (n : Node) (cluster : Cluster)
    (up : IsUp net nodes id n cluster) where
  pub call-answered :
      {R : Type 0} (handler : Node → Node × R)
      → call net up.at handler cluster ≡ (insert id (handler n).0 cluster, some (handler n).1)
  unfolding call
  call-answered handler = ground (arith, up.listens, up.here, up.executed, up.is_answered)

  pub call_cluster-answered :
      {R : Type 0} (handler : Node → Cluster → Option (Cluster × R)) (after : Cluster) (reply : R)
      → handler n cluster ≡ some (after, reply)
      → call_cluster net up.at handler cluster ≡ some (after, some reply)
  unfolding call_cluster
  call_cluster-answered handler after reply e =
      ground (arith, up.listens, up.here, up.executed, e, up.is_answered)

  pub read_one-answered :
      (key : String)
      → read_one net nodes key id cluster ≡ (
        insert id (get (record { key = key }) n).0 cluster,
        inr (get_reply (record { key = key }) n),
      )
  unfolding read_one get
  read_one-answered key = ground (arith, up.connects, call-answered (get (record { key = key })))

  -- A Put changes one key, at the node and perhaps at others.
  pub put-answered :
      (md5 : String → List ℕ) (args : PutArgs)
      → IsValid md5 n.partition_mgr
      → args.is_replica ≡ false
      → (final : Cluster) × (reply : _) × (others : ℤ → Bool) × (call_cluster net up.at
            (put md5 net args)
            cluster
          ≡ some (final, some reply))
        × (reply.success ≡ true)
        × ((j : ℤ) (k : String)
            → stored final j k ≡ (
                if (id == j || others j) && args.key == k
                then some (item_of args)
                else stored cluster j k))
  put-answered md5 args v client =
      let (targets, final, reply, e, returns, success, stores) =
        put-stores md5 net args n cluster v (ap (λ i. lookup i cluster) up.own ∙ up.here) client in
      (
        final,
        reply,
        (λ j. reached net n j targets && is_some (lookup j cluster)),
        call_cluster-answered (put md5 net args) final reply returns,
        success,
        λ j k. rw⁻¹ up.own (stores j k),
      )

  pub stored-read :
      (key : String) (j : ℤ) (k : String)
      → stored (insert id (get (record { key = key }) n).0 cluster) j k ≡ stored cluster j k
  unfolding stored get increment_clock
  stored-read key j k =
      ground (arith, up.here, ==_iff id j, lookup-insert id j (increment_clock n).0 cluster)

  -- After the read it is up, and so is another node.
  pub read-IsUp :
      (key : String)
      → IsUp net nodes id
          (get (record { key = key }) n).0
          (insert id (get (record { key = key }) n).0 cluster)
  unfolding get increment_clock
  read-IsUp key = record {
    at = up.at;
    connects = up.connects;
    listens = up.listens;
    executed = up.executed;
    is_answered = up.is_answered;
    here =
        ground (arith, ==_iff id id, lookup-insert id id (get (record { key = key }) n).0 cluster);
    own = up.own;
  }

  pub insert-IsUp : (j : ℤ) (m : Node) → j ≢ id → IsUp net nodes id n (insert j m cluster)
  insert-IsUp j m apart = record {
    at = up.at;
    connects = up.connects;
    listens = up.listens;
    executed = up.executed;
    is_answered = up.is_answered;
    here = ground (arith, apart, ==_iff j id, lookup-insert j id m cluster, up.here);
    own = up.own;
  }
