-- ===== src/Deadlock/Tests.antt =====
-- The theorems on the wait-for graph, applied to two nodes that wait for each other.
use mathlib.Core.List.Perm
use dynamo_db.Prelude.{
  ◌&&◌, ◌≡◌, ◌↔◌, String, Bool, true, false, none, some, List, [], ◌∷◌, ℤ, pos, int_key, text_key,
  ◌==◌, if◌then◌else◌,
}
use dynamo_db.GoMap.{IsOrder, lookup}
use dynamo_db.Deadlock.{DagManager, lock, unlock, detect_cycle, resolve}
use dynamo_db.Deadlock.Graph.{Waits, IsCyclic}
use dynamo_db.Deadlock.Detect.{detect_cycle_iff}
use dynamo_db.Deadlock.Locks.{IsLocked, lock-IsLocked, waits_on, held_by, unlock-frees}
use dynamo_db.Deadlock.Resolve.{IsResolved, resolve-IsResolved, resolve-not-Waits}

abbrev as_listed {ℓ} : {A : Type ℓ} → List A → List A
as_listed xs = xs

as_listed-IsOrder {ℓ} : {A : Type ℓ} → IsOrder (as_listed {A = A})
as_listed-IsOrder xs = Perm.refl xs

-- Node 1 holds "A" and waits for "B", which node 2 holds while it waits for "A".
abbrev crossed : DagManager
crossed = record {
  held_resources = ("A", pos 1) ∷ ("B", pos 2) ∷ [];
  waiting_for = (pos 1, pos 2 ∷ []) ∷ (pos 2, pos 1 ∷ []) ∷ [];
  waiting_resource = (pos 1, "B") ∷ (pos 2, "A") ∷ [];
  logs = [];
}

detect_cycle_iff_example :
    (dm' : DagManager) × (found : Bool) × (cycle : List ℤ) × (detect_cycle as_listed crossed
      ≡ some (dm', found, cycle))
    × ((found ≡ true) ↔ ((x : ℤ) × Waits crossed.waiting_for x x))
    × (found ≡ true → IsCyclic crossed.waiting_for cycle)
    × (found ≡ false → cycle ≡ [])
detect_cycle_iff_example = detect_cycle_iff as_listed as_listed-IsOrder crossed

lock-IsLocked_example :
    IsLocked
      (pos 3)
      "A"
      crossed
      (lock (pos 3) "A" crossed).0
      (lock (pos 3) "A" crossed).1
      (lock (pos 3) "A" crossed).2
lock-IsLocked_example = lock-IsLocked (pos 3) "A" crossed

unlock-frees_example :
    ((q : String)
      → lookup q (unlock as_listed (pos 1) "A" crossed).held_resources ≡ (
          if held_by (pos 1) "A" crossed && "A" == q
          then none
          else lookup q crossed.held_resources))
    × ((m : ℤ)
        → lookup m (unlock as_listed (pos 1) "A" crossed).waiting_for ≡ (
            if held_by (pos 1) "A" crossed && waits_on "A" m crossed
            then none
            else lookup m crossed.waiting_for))
    × ((m : ℤ)
        → lookup m (unlock as_listed (pos 1) "A" crossed).waiting_resource ≡ (
            if held_by (pos 1) "A" crossed && waits_on "A" m crossed
            then none
            else lookup m crossed.waiting_resource))
    × (held_by (pos 1) "A" crossed ≡ false → unlock as_listed (pos 1) "A" crossed ≡ crossed)
unlock-frees_example = unlock-frees as_listed as_listed-IsOrder (pos 1) "A" crossed

resolve-IsResolved_example :
    IsResolved (pos 2) crossed (resolve as_listed as_listed (pos 2) crossed)
resolve-IsResolved_example =
    resolve-IsResolved as_listed as_listed-IsOrder as_listed as_listed-IsOrder (pos 2) crossed

resolve-not-Waits_example :
    ¬ Waits (resolve as_listed as_listed (pos 2) crossed).waiting_for (pos 1) (pos 2)
resolve-not-Waits_example =
    resolve-not-Waits as_listed as_listed-IsOrder as_listed as_listed-IsOrder (pos 2) (pos 1)
      crossed
