-- ===== src/Node/Clock.antt =====
-- node/node.go: the Lamport clock.
use dynamo_db.Prelude.{◌≡◌, arith, ℤ, pos, negsuc, ltb_ℤ, ◌<ℤ◌, ◌≤ℤ◌, Bool-cases, inl, inr}
use dynamo_db.Node.{Node, max_int64, increment, update_clock}

pub increment_lem : (t : ℤ) → t <ℤ pos max_int64 → t <ℤ increment t
unfolding increment
increment_lem (pos n) h = ground arith
increment_lem (negsuc n) h = ground arith

-- Below the largest `int64`, a clock that is updated passes both its old value and the time that
-- was received, and the value returned is the clock's.
pub update_clock-passes :
    (received : ℤ) (n : Node)
    → received <ℤ pos max_int64
    → n.lamport_clock <ℤ pos max_int64
    → (n.lamport_clock <ℤ (update_clock received n).1)
      × (received <ℤ (update_clock received n).1)
      × ((update_clock received n).0.lamport_clock ≡ (update_clock received n).1)
unfolding update_clock
update_clock-passes received n h k = elim (Bool-cases (ltb_ℤ n.lamport_clock received)) [
  | inl later ↦ ground (arith, later, increment_lem received h)
  | inr earlier ↦ ground (arith, earlier, increment_lem n.lamport_clock k)
]

-- A received time that is the largest `int64`, on a clock that is an `int64`, turns the clock of
-- every node negative.
pub update_clock-wraps :
    (n : Node)
    → n.lamport_clock ≤ℤ pos max_int64
    → (update_clock (pos max_int64) n).0.lamport_clock ≡ negsuc max_int64
unfolding update_clock increment
update_clock-wraps n h = ground arith
