-- ===== src/Node/Tests.antt =====
-- The theorems on a node, applied to two nodes that both want to enter.
use mathlib.Core.Bool.{not}
use dynamo_db.Prelude.{
  ◌≡◌, refl, String, text_key, ◌&&◌, ◌||◌, true, false, none, some, List, [], ◌∷◌, arith, ℤ, pos,
  negsuc, ◌<ℤ◌, int_key, ◌==◌, if◌then◌else◌,
}
use dynamo_db.Node.{max_int64, update_clock}
use dynamo_db.Node.Handlers.{CsRequestArgs, CoordinatorArgs, request_cs}
use dynamo_db.GoMap.{lookup, is_some}
use dynamo_db.Ring.Samples.{by_length, second_first, second_first-IsOrder}
use dynamo_db.Node.Samples.{member, network, pair, pair-lookup, member-IsValid}
use dynamo_db.Node.Storage.{
  PutArgs, PutReply, DeleteArgs, DeleteReply, Cluster, target_nodes, put, delete_key,
}
use dynamo_db.Node.Replication.{stored, reached, item_of, put-stores}
use dynamo_db.Node.Deletion.{delete_key-erases}
use dynamo_db.Node.Clock.{update_clock-passes, update_clock-wraps}
use dynamo_db.Node.Exclusion.{own_request, request_cs-exclusive}

abbrev late_request : CsRequestArgs
late_request = record { node_id = pos 2; timestamp = pos 7 }

abbrev announcement : CoordinatorArgs
announcement = record { leader_id = pos 2; timestamp = pos 9 }

request_cs-exclusive_example :
    (request_cs (own_request (member (pos 1))) (member (pos 2))).1
    ≡ not (request_cs (own_request (member (pos 2))) (member (pos 1))).1
request_cs-exclusive_example =
    request_cs-exclusive (member (pos 1)) (member (pos 2)) refl refl (λ e. ground (arith, e))

update_clock-passes_example :
    (pos 6 <ℤ (update_clock (pos 9) (member (pos 1))).1)
    × (pos 9 <ℤ (update_clock (pos 9) (member (pos 1))).1)
    × ((update_clock (pos 9) (member (pos 1))).0.lamport_clock
        ≡ (update_clock (pos 9) (member (pos 1))).1)
update_clock-passes_example =
    update_clock-passes (pos 9) (member (pos 1)) (omega arith) (omega arith)

update_clock-wraps_example :
    (update_clock (pos max_int64) (member (pos 1))).0.lamport_clock ≡ negsuc max_int64
update_clock-wraps_example = update_clock-wraps (member (pos 1)) (omega arith)

abbrev store_args : PutArgs
store_args = record { key = "k"; value = 7 ∷ []; timestamp = pos 8; is_replica = false }

abbrev erase_args : DeleteArgs
erase_args = record { key = "k"; timestamp = pos 9; is_replica = false }

put-stores_example :
    (targets : List ℤ) × (final : Cluster) × (reply : PutReply) × (target_nodes by_length "k"
        (member (pos 1))
      ≡ some targets)
    × (put by_length network store_args (member (pos 1)) pair ≡ some (final, reply))
    × (reply.success ≡ true)
    × ((j : ℤ) (k : String)
        → stored final j k ≡ (
            if (pos 1 == j || reached network (member (pos 1)) j targets && is_some (lookup j pair))
              && "k" == k
            then some (item_of store_args)
            else stored pair j k))
put-stores_example =
    put-stores by_length network store_args (member (pos 1)) pair (member-IsValid (pos 1))
      pair-lookup refl

delete_key-erases_example :
    (targets : List ℤ) × (final : Cluster) × (reply : DeleteReply) × (target_nodes by_length "k"
        (member (pos 1))
      ≡ some targets)
    × (delete_key by_length network second_first erase_args (member (pos 1)) pair
        ≡ some (final, reply))
    × (reply.success ≡ is_some (lookup "k" (member (pos 1)).data_store))
    × ((j : ℤ) (k : String)
        → stored final j k ≡ (
            if (reply.success && (pos 1 == j || reached network (member (pos 1)) j targets))
              && "k" == k
            then none
            else stored pair j k))
delete_key-erases_example =
    delete_key-erases by_length network second_first erase_args (member (pos 1)) pair
      second_first-IsOrder (member-IsValid (pos 1)) pair-lookup refl
