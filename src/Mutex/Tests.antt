-- ===== src/Mutex/Tests.antt =====
-- The theorems on the mutual exclusion, applied to a cluster of two nodes.
use dynamo_db.Prelude.{
  ℕ, ◌≡◌, ◌≢◌, refl, Bool, nat_key, String, true, false, ◌&&◌, ◌||◌, some, List, [], ◌∷◌, ◌++◌,
  arith, ℤ, pos, int_key, text_key, ◌==◌, if◌then◌else◌, show,
}
use dynamo_db.GoMap.{lookup, is_some}
use dynamo_db.Node.{
  new_node, increment, increment_clock, update_clock, get_other_nodes, ids_other_than,
  get_node_address, address_of, address,
}
use dynamo_db.Node.Samples.{member, network, pair, pair-lookup, member-IsValid}
use dynamo_db.Node.Rpc.{view}
use dynamo_db.Node.Handlers.{request_cs, should_defer}
use dynamo_db.Node.Storage.{target_nodes}
use dynamo_db.Node.Replication.{stored, reached}
use dynamo_db.Ring.Samples.{by_length, as_listed}
use dynamo_db.Mutex.{
  begin_request, can_enter, request_critical_section, send_deferred_reply, Schedule, MutexPutArgs,
  MutexPutReply, mutex_put,
}
use dynamo_db.Mutex.Request.{request_critical_section-enters}
use dynamo_db.Mutex.Release.{deferred_reply-requeues}
use dynamo_db.Mutex.Put.{mutex_item, mutex_put-stores}
use dynamo_db.Mutex.Protocol.{
  Event, idle, begins, asks, enters, Request, run, act, act_call, start_calls, AreSerial, if_idle,
  if_asking, inside,
}
use dynamo_db.Mutex.Protocol.Exclusion.{mutual_exclusion}

-- Node 1 asks first, gets the answer of node 2, and enters; node 2 asks in the meantime.
abbrev events : List (ℕ × Event)
events =
    (0, begins (pos 1))
    ∷ (0, begins (pos 2))
    ∷ (0, asks (pos 1) (pos 2))
    ∷ (0, asks (pos 2) (pos 1))
    ∷ (0, enters (pos 1))
    ∷ []

abbrev entered : Request
entered = record { time = pos 1; unasked = []; granting = pos 2 ∷ []; refusing = []; dead = [] }

both_idle : (b : Bool) → (if b then idle else idle) ≡ idle
both_idle true = refl
both_idle false = refl

events-AreSerial : AreSerial events (start_calls by_length (member (pos 1)).config)
unfolding act_call act if_idle if_asking start_calls begin_request new_node get_other_nodes
    ids_other_than request_cs should_defer update_clock increment increment_clock can_enter
events-AreSerial = ((λ c. refl), (λ c. both_idle (c == 0), (tt, (tt, (tt, tt)))))

first-inside :
    (run events (start_calls by_length (member (pos 1)).config)).phase (pos 1) 0 ≡ inside entered
unfolding run act_call act if_idle if_asking start_calls begin_request new_node get_other_nodes
    ids_other_than request_cs should_defer update_clock increment increment_clock can_enter
first-inside = refl

mutual_exclusion_example : (pos 1 ≡ pos 1) × (◌≡◌ {A = ℕ} 0 0)
mutual_exclusion_example =
    mutual_exclusion by_length (member (pos 1)).config events (pos 1) (pos 1) 0 0 entered entered
      events-AreSerial (omega arith) refl refl first-inside first-inside refl refl

request_critical_section-enters_example :
    let (after, entered) =
      request_critical_section network as_listed (λ id. false) (member (pos 1)) pair in
    (entered ≡ true)
    × (view (λ m. m.requesting_cs) (pos 1) after ≡ some true)
    × ((j : ℤ)
        → pos 1 ≢ j
        → view (λ m. m.requesting_cs) j after ≡ view (λ m. m.requesting_cs) j pair)
request_critical_section-enters_example =
    request_critical_section-enters network as_listed (λ id. false) (member (pos 1)) pair

deferred_reply-requeues_example :
    let after = send_deferred_reply network (member (pos 1)) (pos 2) pair in
    (view (λ k. k.requesting_cs) (pos 2) after ≡ some true)
    × (view (λ k. k.request_time) (pos 2) after ≡ some (pos 5))
    × (view (λ k. k.deferred_queue) (pos 2) after
        ≡ some ([] ++ record { node_id = pos 1; timestamp = increment (pos 6) } ∷ []))
unfolding get_node_address address_of address lookup show
deferred_reply-requeues_example =
    deferred_reply-requeues network (member (pos 1)) (member (pos 2)) (pos 2) pair pair-lookup refl
      (λ e. ground (arith, e)) refl refl refl (omega arith) (omega arith)

abbrev in_order : Schedule
in_order = record {
  request_net = record network { executes = λ at. false };
  notice_net = network;
  request_order = as_listed;
  in_time = λ id. true;
  notice_order = as_listed;
}

abbrev locked_args : MutexPutArgs
locked_args = record { key = "k"; value = 7 ∷ []; timestamp = pos 8 }

mutex_put-stores_example :
    (targets : List ℤ) × (after : _) × (reply : MutexPutReply) × (target_nodes by_length "k"
        (member (pos 1))
      ≡ some targets)
    × (mutex_put by_length network in_order true locked_args (member (pos 1)) pair
        ≡ some (after, reply))
    × (reply.success ≡ true)
    × ((j : ℤ) (k : String)
        → stored after j k ≡ (
            if (pos 1 == j || reached network (member (pos 1)) j targets && is_some (lookup j pair))
              && "k" == k
            then some (mutex_item locked_args)
            else stored pair j k))
mutex_put-stores_example =
    mutex_put-stores by_length network in_order true locked_args (member (pos 1)) pair
      (member-IsValid (pos 1)) pair-lookup
