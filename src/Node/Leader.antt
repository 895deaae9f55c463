-- ===== src/Node/Leader.antt =====
-- node/node.go: who leads, and whom an election asks.
use mathlib.Core.Bool.{not, ◌&&◌}
use dynamo_db.Prelude.{
  ◌≡◌, ◌↔◌, refl, true, List, [], ◌∷◌, arith, ℤ, ltb_ℤ, int_key, ◌==◌, ==_iff, elem, map,
}
use dynamo_db.Node.{
  Node, NodeConfig, set_leader, get_leader, am_i_leader, ids_above, ids_other_than,
  get_higher_nodes, get_other_nodes, get_all_node_ids, update_clock,
}
use dynamo_db.Node.Handlers.{CoordinatorArgs, coordinator}

-- Two nodes that take the same announcement agree on the leader, and each of them takes itself for
-- it exactly if the announced ID is its own.
pub coordinator-agrees :
    (args : CoordinatorArgs) (a b : Node)
    → (get_leader (coordinator args a).0 ≡ get_leader (coordinator args b).0)
      × ((am_i_leader (coordinator args a).0 ≡ true) ↔ (a.id ≡ args.leader_id))
      × ((am_i_leader (coordinator args b).0 ≡ true) ↔ (b.id ≡ args.leader_id))
unfolding coordinator set_leader get_leader am_i_leader update_clock
coordinator-agrees args a b = (
  refl,
  (
    λ h. ground (arith, ==_iff args.leader_id a.id),
    λ h. ground (arith, ==_iff args.leader_id a.id),
  ),
  (
    λ h. ground (arith, ==_iff args.leader_id b.id),
    λ h. ground (arith, ==_iff args.leader_id b.id),
  ),
)

elem-ids_above :
    (id m : ℤ) (ncs : List NodeConfig)
    → elem m (ids_above id ncs) ≡ (elem m (map (λ nc. nc.id) ncs) && ltb_ℤ id m)
unfolding ids_above
elem-ids_above id m [] = refl
elem-ids_above id m (nc ∷ ncs) = ground (arith, elem-ids_above id m ncs, ==_iff nc.id m)

elem-ids_other_than :
    (id m : ℤ) (ncs : List NodeConfig)
    → elem m (ids_other_than id ncs) ≡ (elem m (map (λ nc. nc.id) ncs) && not (m == id))
unfolding ids_other_than
elem-ids_other_than id m [] = refl
elem-ids_other_than id m (nc ∷ ncs) =
    ground (arith, elem-ids_other_than id m ncs, ==_iff nc.id m, ==_iff nc.id id, ==_iff m id)

-- An election asks the configured nodes with a higher ID, and all messages to "the others" go to
-- the configured nodes but this one.
pub peers_iff :
    (n : Node) (m : ℤ)
    → (elem m (get_higher_nodes n) ≡ (elem m (get_all_node_ids n) && ltb_ℤ n.id m))
      × (elem m (get_other_nodes n) ≡ (elem m (get_all_node_ids n) && not (m == n.id)))
unfolding get_higher_nodes get_other_nodes get_all_node_ids
peers_iff n m = (elem-ids_above n.id m n.config.nodes, elem-ids_other_than n.id m n.config.nodes)
