-- ===== src/Mutex/Stores.antt =====
-- mutex/ricart_agrawala.go: its messages leave every store alone.
use dynamo_db.Prelude.{
  ◌≡◌, refl, String, Bool, Option, none, some, List, arith, ℤ, int_key, text_key,
}
use dynamo_db.GoMap.{GoMap, lookup, is_some}
use dynamo_db.Node.{Node, StoredItem, increment_clock, update_clock}
use dynamo_db.Node.Storage.{Network, Cluster}
use dynamo_db.Node.Handlers.{CsRequestArgs, CsReleaseArgs, request_cs, release_cs}
use dynamo_db.Node.Replication.{stored}
use dynamo_db.Node.Rpc.{view}
use dynamo_db.Mutex.{
  begin_request, request_critical_section, release_node, Notice, release_critical_section,
}
use dynamo_db.Mutex.Fixed.{request-keeps, release-keeps}

abbrev pub data_of : Node → GoMap String StoredItem
data_of n = n.data_store

-- What stands at a key of a view of a store.
abbrev pub at_key : String → Option (GoMap String StoredItem) → Option StoredItem
at_key k none = none
at_key k (some d) = lookup k d

pub stored-eq :
    (cluster : Cluster) (j : ℤ) (k : String)
    → stored cluster j k ≡ at_key k (view data_of j cluster)
unfolding stored view
stored-eq cluster j k = ground arith

pub member-eq :
    (cluster : Cluster) (j : ℤ) → is_some (lookup j cluster) ≡ is_some (view data_of j cluster)
unfolding view
member-eq cluster j = ground arith

request_cs-data : (args : CsRequestArgs) (n : Node) → data_of (request_cs args n).0 ≡ data_of n
unfolding request_cs update_clock
request_cs-data args n = ground arith

release_cs-data : (args : CsReleaseArgs) (n : Node) → data_of (release_cs args n).0 ≡ data_of n
unfolding release_cs update_clock
release_cs-data args n = refl

increment_clock-data : (n : Node) → data_of (increment_clock n).0 ≡ data_of n
unfolding increment_clock
increment_clock-data n = refl

begin_request-data : (n : Node) → data_of (begin_request n) ≡ data_of n
unfolding begin_request increment_clock
begin_request-data n = refl

release_node-data : (n : Node) → data_of (release_node n) ≡ data_of n
unfolding release_node
release_node-data n = refl

pub request-data :
    (net : Network) (order : List ℤ → List ℤ) (in_time : ℤ → Bool) (n : Node) (cluster : Cluster)
    (j : ℤ)
    → view data_of n.id cluster ≡ some (data_of n)
    → view data_of j (request_critical_section net order in_time n cluster).0
      ≡ view data_of j cluster
request-data net order in_time n cluster j =
    request-keeps data_of j request_cs-data begin_request-data net order in_time n cluster

pub release-data :
    (net : Network) (order : List Notice → List Notice) (id : ℤ) (cluster : Cluster) (j : ℤ)
    → view data_of j (release_critical_section net order id cluster) ≡ view data_of j cluster
release-data net order id cluster j =
    release-keeps data_of j request_cs-data release_cs-data increment_clock-data release_node-data
      net order id cluster
