-- ===== src/Client/DeadlockTest/Steps.antt =====
-- client/client.go: what each call of the command deadlock-test does to the leader's locks.
use mathlib.Core.List.{Permᴰ}
use mathlib.Core.Logic.{∥∥₁_elim}
use dynamo_db.Prelude.{
  ℕ, ◌≡◌, ◌≢◌, refl, ◌∙◌, inl, inr, String, true, false, some, List, [], ◌∷◌, ◌++◌, length, arith,
  ℤ, pos, int_key, text_key, Key, ==_iff, elem, ◌⊎◌,
}
use dynamo_db.GoMap.{GoMap, IsOrder, lookup, lookup_or, insert, delete, elem-order}
use dynamo_db.Deadlock.{
  Message, granted, must_wait, released, released_by_abort, resolving, aborted, cleared,
  deadlock_detected, no_deadlock, DagManager, log, clear_waiter, clear_waiters, detect_cycle,
  search_from, dfs, scan, enter, leave, report, release_held, release_all, without, drop_edges,
  drop_all_edges, reset,
}
use dynamo_db.Deadlock

-- A lock manager with the given maps.
abbrev pub manager : GoMap String ℤ → GoMap ℤ (List ℤ) → GoMap ℤ String → List Message → DagManager
manager held waits asked logs = record {
  held_resources = held;
  waiting_for = waits;
  waiting_resource = asked;
  logs = logs;
}

length-Permᴰ {ℓ} : {A : Type ℓ} {xs ys : List A} → Permᴰ xs ys → length xs ≡ length ys
length-Permᴰ Permᴰ.nil = refl
length-Permᴰ (Permᴰ.cons e p) = ground (arith, length-Permᴰ p)
length-Permᴰ (Permᴰ.swap e e') = refl
length-Permᴰ (Permᴰ.trans p q) = length-Permᴰ p ∙ length-Permᴰ q

ℕ-IsSet : IsSet ℕ
ℕ-IsSet = hlevel

length-order {ℓ} :
    {A : Type ℓ} (order : List A → List A)
    → IsOrder order
    → (xs : List A) → length (order xs) ≡ length xs
length-order order visits xs = ∥∥₁_elim (visits xs) (ℕ-IsSet _ _) length-Permᴰ

module _ {K : Type 0} ⦃key : Key K⦄ where
  no_key : (ys : List K) → length ys ≡ 0 → ys ≡ []
  no_key [] l = refl
  no_key (y ∷ ys) l = absurd (omega (arith, l))

  one_key : (a : K) (ys : List K) → length ys ≡ 1 → elem a ys ≡ true → ys ≡ a ∷ []
  one_key a [] l e = absurd (omega (arith, l))
  one_key a (y ∷ []) l e = ground (arith, e, ==_iff y a)
  one_key a (y ∷ z ∷ ys) l e = absurd (omega (arith, l))

  two_keys :
      (a b : K) (ys : List K)
      → length ys ≡ 2
      → elem a ys ≡ true
      → elem b ys ≡ true
      → a ≢ b
      → (ys ≡ a ∷ b ∷ []) ⊎ (ys ≡ b ∷ a ∷ [])
  two_keys a b [] l e f other = absurd (omega (arith, l))
  two_keys a b (y ∷ []) l e f other = absurd (omega (arith, l))
  two_keys a b (y ∷ z ∷ []) l e f other =
      ground (arith, e, f, ==_iff y a, ==_iff y b, ==_iff z a, ==_iff z b, other)
  two_keys a b (y ∷ z ∷ x ∷ ys) l e f other = absurd (omega (arith, l))

  pub no-order : (order : List K → List K) → IsOrder order → order [] ≡ []
  no-order order visits = no_key (order []) (length-order order visits [])

  pub one-order : (order : List K → List K) → IsOrder order → (a : K) → order (a ∷ []) ≡ a ∷ []
  one-order order visits a =
      one_key a (order (a ∷ [])) (length-order order visits (a ∷ []))
        (elem-order order visits a (a ∷ []) ∙ ground (arith, ==_iff a a))

  pub two-order :
      (order : List K → List K)
      → IsOrder order
      → (a b : K) → a ≢ b
      → (order (a ∷ b ∷ []) ≡ a ∷ b ∷ []) ⊎ (order (a ∷ b ∷ []) ≡ b ∷ a ∷ [])
  two-order order visits a b other =
      two_keys a b (order (a ∷ b ∷ [])) (length-order order visits (a ∷ b ∷ []))
        (elem-order order visits a (a ∷ b ∷ []) ∙ ground (arith, ==_iff a a))
        (elem-order order visits b (a ∷ b ∷ []) ∙ ground (arith, ==_iff b b)) other

module _ (a b : String) (other : a ≢ b) (logs : List Message) where
  abbrev held : GoMap String ℤ
  held = (a, pos 1) ∷ (b, pos 2) ∷ []

  abbrev circle : GoMap ℤ (List ℤ)
  circle = (pos 1, pos 2 ∷ []) ∷ (pos 2, pos 1 ∷ []) ∷ []

  abbrev asked : GoMap ℤ String
  asked = (pos 1, b) ∷ (pos 2, a) ∷ []

  -- Two locks that are granted, and two that are refused.
  pub lock_first :
      Deadlock.lock (pos 1) a (manager [] [] [] logs)
      ≡ (manager ((a, pos 1) ∷ []) [] [] (logs ++ granted a (pos 1) ∷ []), true, pos 0)
  unfolding Deadlock.lock log lookup insert
  lock_first = refl

  pub lock_second :
      Deadlock.lock (pos 2) b (manager ((a, pos 1) ∷ []) [] [] logs)
      ≡ (manager held [] [] (logs ++ granted b (pos 2) ∷ []), true, pos 0)
  unfolding Deadlock.lock log lookup insert
  lock_second = ground (arith, other, ==_iff a b)

  pub lock_third : Deadlock.lock (pos 1) b (manager held [] [] logs) ≡ (
    manager held
        ((pos 1, pos 2 ∷ []) ∷ [])
        ((pos 1, b) ∷ [])
        (logs ++ must_wait b (pos 2) (pos 1) ∷ []),
    false,
    pos 2,
  )
  unfolding Deadlock.lock log lookup insert lookup_or
  lock_third = ground (arith, other, ==_iff a b, ==_iff b b)

  pub lock_fourth :
      Deadlock.lock (pos 2) a (manager held ((pos 1, pos 2 ∷ []) ∷ []) ((pos 1, b) ∷ []) logs)
      ≡ (manager held circle asked (logs ++ must_wait a (pos 1) (pos 2) ∷ []), false, pos 1)
  unfolding Deadlock.lock log lookup insert lookup_or
  lock_fourth = ground (arith, ==_iff a a)

  -- The search finds the circle, whichever node it comes by first.
  pub detect_circle :
      (order : List ℤ → List ℤ)
      → IsOrder order
      → (cycle : List ℤ) × (l : List Message) × (detect_cycle order (manager held circle asked logs)
          ≡ some (manager held circle asked l, true, cycle))
  unfolding detect_cycle search_from dfs scan enter leave report log lookup insert lookup_or
  detect_circle order visits =
      elim (two-order order visits (pos 1) (pos 2) (λ e. ground (arith, e))) [
        | inl e ↦
            let cycle = pos 1 ∷ pos 2 ∷ pos 1 ∷ [] in
            (cycle, logs ++ deadlock_detected cycle ∷ [], rw (detect_cycle, e) refl)
        | inr e ↦
            let cycle = pos 2 ∷ pos 1 ∷ pos 2 ∷ [] in
            (cycle, logs ++ deadlock_detected cycle ∷ [], rw (detect_cycle, e) refl)
      ]

  -- Node 2 loses its lock, and nobody waits any more.
  pub resolve_second :
      (order_held : List String → List String) (order_waiting : List ℤ → List ℤ)
      → IsOrder order_held
      → IsOrder order_waiting
      → Deadlock.resolve order_held order_waiting (pos 2) (manager held circle asked logs)
        ≡ manager ((a, pos 1) ∷ []) [] ((pos 1, b) ∷ []) (
            ((logs ++ resolving (pos 2) ∷ []) ++ released_by_abort b (pos 2) ∷ [])
            ++ aborted (pos 2) ∷ [])
  unfolding Deadlock.resolve release_all release_held without drop_all_edges drop_edges log lookup
      insert delete
  resolve_second order_held order_waiting holds waits =
      let one = one-order order_waiting waits (pos 1) in
      elim (two-order order_held holds a b other) [
        | inl e ↦ ground (arith, e, one, other, ==_iff a b, ==_iff a a, ==_iff b b)
        | inr e ↦ ground (arith, e, one, other, ==_iff a b, ==_iff a a, ==_iff b b)
      ]

  pub lock_fifth : Deadlock.lock (pos 1) b (manager ((a, pos 1) ∷ []) [] ((pos 1, b) ∷ []) logs) ≡ (
    manager ((a, pos 1) ∷ (b, pos 1) ∷ []) [] ((pos 1, b) ∷ []) (logs ++ granted b (pos 1) ∷ []),
    true,
    pos 0,
  )
  unfolding Deadlock.lock log lookup insert
  lock_fifth = ground (arith, other, ==_iff a b)

  pub detect_none :
      (order : List ℤ → List ℤ) (h : GoMap String ℤ) (w : GoMap ℤ String)
      → IsOrder order
      → detect_cycle order (manager h [] w logs)
        ≡ some (manager h [] w (logs ++ no_deadlock ∷ []), false, [])
  unfolding detect_cycle search_from report log
  detect_none order h w visits = rw (detect_cycle, no-order order visits) refl

  pub unlock_first :
      (order : List ℤ → List ℤ)
      → IsOrder order
      → Deadlock.unlock order
          (pos 1)
          a
          (manager ((a, pos 1) ∷ (b, pos 1) ∷ []) [] ((pos 1, b) ∷ []) logs)
        ≡ manager ((b, pos 1) ∷ []) [] ((pos 1, b) ∷ []) (logs ++ released a (pos 1) ∷ [])
  unfolding Deadlock.unlock clear_waiters clear_waiter log lookup delete
  unlock_first order visits =
      ground (arith, one-order order visits (pos 1), other, ==_iff a b, ==_iff b a, ==_iff a a)

  pub unlock_second :
      (order : List ℤ → List ℤ)
      → IsOrder order
      → Deadlock.unlock order (pos 1) b (manager ((b, pos 1) ∷ []) [] ((pos 1, b) ∷ []) logs)
        ≡ manager [] [] [] ((logs ++ released b (pos 1) ∷ []) ++ cleared (pos 1) b ∷ [])
  unfolding Deadlock.unlock clear_waiters clear_waiter log lookup delete
  unlock_second order visits = ground (arith, one-order order visits (pos 1), ==_iff b b)
