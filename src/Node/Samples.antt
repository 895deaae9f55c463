-- ===== src/Node/Samples.antt =====
-- A cluster of two nodes for the tests.
use dynamo_db.Prelude.{
  ◌⊎◌, inl, inr, sym, subst, ==_iff, Bool-cases, ◌≡◌, refl, false, true, none, some, [], ◌∷◌, arith,
  ℤ, pos, negsuc, int_key, text_key, ◌==◌, if◌then◌else◌,
}
use dynamo_db.GoMap.{lookup}
use dynamo_db.Manager.{new_partition_manager}
use dynamo_db.Manager.Valid.{IsValid}
use dynamo_db.Node.{Node}
use dynamo_db.Node.Storage.{Network, Cluster}
use dynamo_db.Ring.Invariant.{new-IsWellFormed}
use dynamo_db.Ring.Samples.{by_length}

-- A node of a cluster of two that asked to enter at time 5.
abbrev pub member : ℤ → Node
member id = record {
  id = id;
  ip = "127.0.0.1";
  port = pos 9000;
  config = record {
    nodes =
        record { id = pos 1; ip = "127.0.0.1"; port = pos 9000 }
        ∷ record { id = pos 2; ip = "127.0.0.1"; port = pos 9001 }
        ∷ [];
    heartbeat_interval = pos 2;
    election_timeout = pos 5;
    deadlock_timeout = pos 10;
    partition = record { enabled = false; replication_factor = pos 2 };
  };
  data_store = ("k", record { value = 5 ∷ []; timestamp = pos 3 }) ∷ [];
  lamport_clock = pos 6;
  leader_id = negsuc 0;
  is_leader = false;
  requesting_cs = true;
  request_time = pos 5;
  reply_count = pos 0;
  deferred_queue = [];
  deadlock_mgr = none;
  partition_mgr = new_partition_manager false (pos 2);
}

-- Both nodes listen, and every call is executed and answered.
abbrev pub network : Network
network = record {
  listener = λ at. if at == "127.0.0.1:9001" then some (pos 2) else some (pos 1);
  executes = λ at. true;
  answers = λ at. true;
}

abbrev pub pair : Cluster
pair = (pos 1, member (pos 1)) ∷ (pos 2, member (pos 2)) ∷ []

pub pair-lookup : lookup (pos 1) pair ≡ some (member (pos 1))
unfolding lookup
pair-lookup = refl

pub member-IsValid : (id : ℤ) → IsValid by_length (member id).partition_mgr
unfolding new_partition_manager
member-IsValid id = record {
  well_formed = new-IsWellFormed by_length (pos 160);
  positive = omega arith;
}

-- Nodes under the IDs 1 and 2.
abbrev pub two : Node → Node → Cluster
two a b = (pos 1, a) ∷ (pos 2, b) ∷ []

two-cases :
    (a b : Node) (j : ℤ) (n : Node)
    → lookup j (two a b) ≡ some n
    → ((j ≡ pos 1) × (n ≡ a)) ⊎ ((j ≡ pos 2) × (n ≡ b))
unfolding lookup
two-cases a b j n e = elim (Bool-cases (pos 1 == j)) [
  | inl first ↦ inl (sym ((==_iff (pos 1) j).0 first), ground (arith, first, e))
  | inr other ↦ elim (Bool-cases (pos 2 == j)) [
    | inl second ↦ inr (sym ((==_iff (pos 2) j).0 second), ground (arith, other, second, e))
    | inr neither ↦ absurd (ground (arith, other, neither, e))
  ]
]

module _ (a b : Node) (P : ℤ → Node → Type 0) (first : P (pos 1) a) (second : P (pos 2) b) where
  pub two-all : (j : ℤ) (n : Node) → lookup j (two a b) ≡ some n → P j n
  two-all j n e = elim (two-cases a b j n e) [
    | inl (i, same) ↦ subst (λ k. P k n) (sym i) (subst (P (pos 1)) (sym same) first)
    | inr (i, same) ↦ subst (λ k. P k n) (sym i) (subst (P (pos 2)) (sym same) second)
  ]

-- What holds of both nodes of the pair.
pub pair-all :
    (P : ℤ → Node → Type 0)
    → P (pos 1) (member (pos 1))
    → P (pos 2) (member (pos 2))
    → (j : ℤ) (n : Node) → lookup j pair ≡ some n
    → P j n
pair-all = two-all (member (pos 1)) (member (pos 2))
