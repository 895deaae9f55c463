-- ===== src/Deadlock/Resolve.antt =====
-- deadlock/dag.go: what Resolve takes from the aborted node, and what it leaves to the others.
use mathlib.Core.Bool.{not, ◌&&◌, ◌||◌}
use dynamo_db.Prelude.{
  ◌≡◌, refl, inl, inr, String, true, false, none, List, [], ◌∷◌, arith, length, eqb_ℕ, ℤ, int_key,
  text_key, ◌==◌, elem, ==_iff, ==_refl, Option-cases, if◌then◌else◌,
}
use dynamo_db.GoMap.{
  IsOrder, elem-order, keys, lookup, lookup_or, delete, lookup-insert, lookup-delete,
  lookup_or-delete, elem-keys,
}
use dynamo_db.Deadlock.{
  DagManager, log, resolving, release_held, release_all, without, drop_edges, drop_all_edges,
  resolve,
}
use dynamo_db.Deadlock.Graph.{Graph, Waits, last-Edge}
use dynamo_db.Deadlock.Locks.{held_by}

elem-without : (a m : ℤ) (ws : List ℤ) → elem m (without a ws) ≡ (not (m == a) && elem m ws)
unfolding without
elem-without a m [] = ground (arith)
elem-without a m (w ∷ ws) = ground (arith, ==_iff w a, ==_iff w m, ==_iff m a, elem-without a m ws)

release_held_lem :
    (a : ℤ) (k r : String) (dm : DagManager)
    → lookup r (release_held a k dm).held_resources
      ≡ (if k == r && held_by a r dm then none else lookup r dm.held_resources)
unfolding release_held log
release_held_lem a k r dm = ground (arith, ==_iff k r, lookup-delete k r dm.held_resources)

release_held-frame :
    (a : ℤ) (k : String) (dm : DagManager)
    → ((release_held a k dm).waiting_for ≡ dm.waiting_for)
      × ((release_held a k dm).waiting_resource ≡ dm.waiting_resource)
unfolding release_held log
release_held-frame a k dm = ground arith

release_all_lem :
    (a : ℤ) (ks : List String) (r : String) (dm : DagManager)
    → (lookup r (release_all a ks dm).held_resources
        ≡ (if elem r ks && held_by a r dm then none else lookup r dm.held_resources))
      × ((release_all a ks dm).waiting_for ≡ dm.waiting_for)
      × ((release_all a ks dm).waiting_resource ≡ dm.waiting_resource)
unfolding release_all
release_all_lem a [] r dm = (refl, refl, refl)
release_all_lem a (k ∷ ks) r dm = ground (
  arith,
  release_held_lem a k r dm,
  release_held-frame a k dm,
  release_all_lem a ks r (release_held a k dm),
)

length-zero : (ws : List ℤ) → eqb_ℕ (length ws) 0 ≡ true → ws ≡ []
length-zero [] e = refl
length-zero (w ∷ ws) e = absurd (ground arith)

drop_edges_lem :
    (a k n : ℤ) (g : Graph)
    → lookup_or [] n (drop_edges a k g)
      ≡ (if k == n then without a (lookup_or [] n g) else lookup_or [] n g)
unfolding drop_edges lookup_or without
drop_edges_lem a k n g = elim (Option-cases (lookup k g)) [
  | inl missing ↦ ground (arith, missing, ==_iff k n)
  | inr (ws, e) ↦ ground (
    arith,
    e,
    ==_iff k n,
    length-zero (without a ws),
    lookup-delete k n g,
    lookup-insert k n (without a ws) g,
  )
]

drop_all_edges_lem :
    (a : ℤ) (ks : List ℤ) (n m : ℤ) (g : Graph)
    → elem m (lookup_or [] n (drop_all_edges a ks g))
      ≡ ((not (elem n ks) || not (m == a)) && elem m (lookup_or [] n g))
unfolding drop_all_edges
drop_all_edges_lem a [] n m g = refl
drop_all_edges_lem a (k ∷ ks) n m g = ground (
  arith,
  drop_edges_lem a k n g,
  drop_all_edges_lem a ks n m (drop_edges a k g),
  elem-without a m (lookup_or [] n g),
)

elem-missing : (n m : ℤ) (g : Graph) → elem n (keys g) ≡ false → elem m (lookup_or [] n g) ≡ false
unfolding lookup_or
elem-missing n m g e = ground (arith, elem-keys n g)

-- What Resolve leaves.
pub record IsResolved (a : ℤ) (dm dm' : DagManager) : Type 0 where
  -- the aborted node's resources are free, and the others' holders are the same
  pub held :
      (r : String)
      → lookup r dm'.held_resources ≡ (if held_by a r dm then none else lookup r dm.held_resources)
  -- of the edges those stay that touch the aborted node at neither end
  pub edges :
      (n m : ℤ)
      → elem m (lookup_or [] n dm'.waiting_for)
        ≡ ((not (n == a) && not (m == a)) && elem m (lookup_or [] n dm.waiting_for))
  pub requests :
      (n : ℤ)
      → lookup n dm'.waiting_resource ≡ (if a == n then none else lookup n dm.waiting_resource)

module _ (order_held : List String → List String) (visits_held : IsOrder order_held)
    (order_waiting : List ℤ → List ℤ) (visits_waiting : IsOrder order_waiting) where
  -- Resolve, whatever the order of its two loops, frees what the aborted node holds and no more,
  -- keeps exactly the edges that touch the aborted node at neither end, and forgets its request
  -- alone.
  pub resolve-IsResolved :
      (a : ℤ) (dm : DagManager) → IsResolved a dm (resolve order_held order_waiting a dm)
  unfolding resolve log
  resolve-IsResolved a dm = record {
    held = λ r. ground (
      arith,
      (release_all_lem a resources r (log (resolving a) dm)).0,
      elem-order order_held visits_held r (keys dm.held_resources),
      elem-keys r dm.held_resources,
    );
    edges = λ n m. ground (
      arith,
      drop_all_edges_lem a (order_waiting (keys gone)) n m gone,
      elem-order order_waiting visits_waiting n (keys gone),
      elem-missing n m gone,
      lookup_or-delete [] a n freed.waiting_for,
      kept.1,
      ==_iff a n,
      ==_iff n a,
    );
    requests = λ n. ground (arith, kept.2, lookup-delete a n freed.waiting_resource);
  }
    where
      resources : List String
      resources = order_held (keys dm.held_resources)

      freed : DagManager
      freed = release_all a resources (log (resolving a) dm)

      gone : Graph
      gone = delete a freed.waiting_for

      kept :
          (lookup "" freed.held_resources
            ≡ (if elem "" resources && held_by a "" dm then none else lookup "" dm.held_resources))
          × (freed.waiting_for ≡ dm.waiting_for)
          × (freed.waiting_resource ≡ dm.waiting_resource)
      kept = release_all_lem a resources "" (log (resolving a) dm)

  -- After Resolve nobody waits for the aborted node, directly or through others; so it is on no
  -- cycle.
  pub resolve-not-Waits :
      (a n : ℤ) (dm : DagManager) → ¬ Waits (resolve order_held order_waiting a dm).waiting_for n a
  resolve-not-Waits a n dm w =
      let (k, e) = last-Edge _ w in ground (arith, (resolve-IsResolved a dm).edges k a, ==_refl a)
