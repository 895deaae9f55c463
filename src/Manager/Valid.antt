-- ===== src/Manager/Valid.antt =====
-- partition/partition_manager.go: the calls that change the manager, and histories of them.
use dynamo_db.Prelude.{
  ℕ, String, Bool, true, false, List, [], ◌∷◌, arith, ℤ, pos, ◌≤ℤ◌, if◌then◌else◌,
}
use dynamo_db.GoMap.{IsOrder}
use dynamo_db.Ring.Invariant.{
  IsWellFormed, new-IsWellFormed, add_node-IsWellFormed, remove_node-IsWellFormed,
}
use dynamo_db.Manager.{
  PartitionManager, new_partition_manager, set_enabled, set_replication_factor, add_node,
  remove_node,
}

-- The calls that change the manager.
pub data Call : Type 0 where
  adds removes : ℤ → Call
  enables : Bool → Call
  replicates : ℤ → Call

module _ (md5 : String → List ℕ) where
  pub record IsValid (pm : PartitionManager) : Type 0 where
    pub well_formed : IsWellFormed md5 pm.hash_ring
    pub positive : pos 1 ≤ℤ pm.replication_factor

  IsValid-if :
      (b : Bool) (x y : PartitionManager) → IsValid x → IsValid y → IsValid (if b then x else y)
  IsValid-if true x y h k = h
  IsValid-if false x y h k = k

  module _ (order : List ℕ → List ℕ) where
    unfoldable pub call : Call → PartitionManager → PartitionManager
    call (adds n) = add_node md5 n
    call (removes n) = remove_node md5 order n
    call (enables b) = set_enabled b
    call (replicates k) = set_replication_factor k

    pub run : List Call → PartitionManager → PartitionManager
    run [] pm = pm
    run (c ∷ cs) pm = run cs (call c pm)

    pub call-IsValid :
        IsOrder order → (c : Call) (pm : PartitionManager) → IsValid pm → IsValid (call c pm)
    unfolding call add_node remove_node set_enabled set_replication_factor
    call-IsValid visits (adds n) pm v =
        IsValid-if pm.enabled _ _
          (record {
            well_formed = add_node-IsWellFormed md5 n pm.hash_ring v.well_formed;
            positive = v.positive;
          })
          v
    call-IsValid visits (removes n) pm v =
        IsValid-if pm.enabled _ _
          (record {
            well_formed = remove_node-IsWellFormed md5 order visits n pm.hash_ring v.well_formed;
            positive = v.positive;
          })
          v
    call-IsValid visits (enables b) pm v = record {
      well_formed = v.well_formed;
      positive = v.positive;
    }
    call-IsValid visits (replicates k) pm v = record {
      well_formed = v.well_formed;
      positive = ground arith;
    }

    run_from-IsValid :
        IsOrder order → (cs : List Call) (pm : PartitionManager) → IsValid pm → IsValid (run cs pm)
    unfolding run
    run_from-IsValid visits [] pm v = v
    run_from-IsValid visits (c ∷ cs) pm v =
        run_from-IsValid visits cs (call c pm) (call-IsValid visits c pm v)

    -- From a new manager, after any history of AddNode, RemoveNode, SetEnabled and
    -- SetReplicationFactor, the ring is well formed and the factor is at least 1.
    pub run-IsValid :
        IsOrder order
        → (enabled : Bool) (factor : ℤ) (cs : List Call)
        → IsValid (run cs (new_partition_manager enabled factor))
    unfolding new_partition_manager
    run-IsValid visits enabled factor cs =
        run_from-IsValid visits cs _
          (record { well_formed = new-IsWellFormed md5 (pos 160); positive = ground arith })
