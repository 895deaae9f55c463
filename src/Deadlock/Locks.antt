-- ===== src/Deadlock/Locks.antt =====
-- deadlock/dag.go: who holds a resource, and who waits, after Lock and Unlock.
use mathlib.Core.Bool.{not, ◌&&◌}
use dynamo_db.Prelude.{
  ◌≡◌, ◌≢◌, ◌↔◌, refl, ap, ◌∙◌, ◌⊎◌, inl, inr, String, Bool, true, false, ◌||◌, none, some, List,
  [], ◌∷◌, ◌++◌, arith, ℤ, pos, int_key, text_key, ◌==◌, elem, elem-append, ==_iff, ==_refl,
  Option-cases, Bool-cases, if◌then◌else◌,
}
use dynamo_db.GoMap.{
  IsOrder, elem-order, keys, lookup, lookup_or, delete, lookup-insert, lookup-delete,
  lookup_or-insert, elem-keys,
}
use dynamo_db.Deadlock.{DagManager, released, log, lock, clear_waiter, clear_waiters, unlock}

-- What a Lock that returned `granted` and `waits` has done.
pub record IsLocked (n : ℤ) (r : String) (dm dm' : DagManager) (granted : Bool) (waits : ℤ)
    : Type 0 where
  -- granted where the resource was free or the node's own, and then the node holds it
  pub free :
      (granted ≡ true)
      ↔ ((lookup r dm.held_resources ≡ none) ⊎ (lookup r dm.held_resources ≡ some n))
  pub holds : granted ≡ true → lookup r dm'.held_resources ≡ some n
  -- refused where another node holds it, which stays, and an edge to the holder is added
  pub waits_for :
      granted ≡ false
      → (lookup r dm.held_resources ≡ some waits)
        × (lookup r dm'.held_resources ≡ some waits)
        × (waits ≢ n)
  pub edges :
      (a b : ℤ)
      → elem b (lookup_or [] a dm'.waiting_for)
        ≡ (elem b (lookup_or [] a dm.waiting_for) || (not granted && (n == a && waits == b)))
  pub others : (q : String) → r ≢ q → lookup q dm'.held_resources ≡ lookup q dm.held_resources

-- Lock grants a resource that is free or the node's own, and then the node holds it. Otherwise the
-- holder stays, and exactly the edge from the node to the holder is added. No other resource
-- changes.
pub lock-IsLocked :
    (n : ℤ) (r : String) (dm : DagManager)
    → IsLocked n r dm (lock n r dm).0 (lock n r dm).1 (lock n r dm).2
unfolding lock log
lock-IsLocked n r dm = record {
  free = (λ e. ground (arith), λ e. ground (arith, ==_iff n n));
  holds = λ e. ground (arith, ==_refl r, lookup-insert r r n dm.held_resources, ==_iff n n);
  waits_for = λ e. ground (arith);
  edges = λ a b. elim (Option-cases (lookup r dm.held_resources)) [
    | inl unheld ↦ ground (arith, unheld)
    | inr (holder, e) ↦
        let old = lookup_or [] n dm.waiting_for in
        ground (
          arith,
          e,
          lookup_or-insert [] n a (old ++ holder ∷ []) dm.waiting_for,
          elem-append b old (holder ∷ []),
          ==_iff n a,
        )
  ];
  others = λ q other. ground (arith, lookup-insert r q n dm.held_resources, ==_iff r q);
}

-- The holder of `r` is `a`.
abbrev pub held_by : ℤ → String → DagManager → Bool
held_by a r dm = elim (lookup r dm.held_resources) [ none ↦ false | some holder ↦ holder == a ]

-- The node's last request that was refused was for `r`.
abbrev pub waits_on : String → ℤ → DagManager → Bool
waits_on r m dm = elim (lookup m dm.waiting_resource) [ none ↦ false | some q ↦ q == r ]

clear_waiter-frame :
    (r : String) (k : ℤ) (dm : DagManager)
    → (clear_waiter r k dm).held_resources ≡ dm.held_resources
unfolding clear_waiter log
clear_waiter-frame r k dm = ground arith

clear_waiter_lem :
    (r : String) (k m : ℤ) (dm : DagManager)
    → (lookup m (clear_waiter r k dm).waiting_for
        ≡ (if k == m && waits_on r m dm then none else lookup m dm.waiting_for))
      × (lookup m (clear_waiter r k dm).waiting_resource
          ≡ (if k == m && waits_on r m dm then none else lookup m dm.waiting_resource))
unfolding clear_waiter log
clear_waiter_lem r k m dm =
    ground
      (arith, ==_iff k m, lookup-delete k m dm.waiting_for, lookup-delete k m dm.waiting_resource)

clear_waiters_lem :
    (r : String) (ks : List ℤ) (m : ℤ) (dm : DagManager)
    → ((clear_waiters r ks dm).held_resources ≡ dm.held_resources)
      × (lookup m (clear_waiters r ks dm).waiting_for
          ≡ (if elem m ks && waits_on r m dm then none else lookup m dm.waiting_for))
      × (lookup m (clear_waiters r ks dm).waiting_resource
          ≡ (if elem m ks && waits_on r m dm then none else lookup m dm.waiting_resource))
unfolding clear_waiters
clear_waiters_lem r [] m dm = (refl, refl, refl)
clear_waiters_lem r (k ∷ ks) m dm = ground (
  arith,
  clear_waiter-frame r k dm,
  clear_waiter_lem r k m dm,
  clear_waiters_lem r ks m (clear_waiter r k dm),
)

-- The state in which Unlock begins to clear the waiting nodes.
abbrev freed_by : ℤ → String → DagManager → DagManager
freed_by n r dm = record dm {
  held_resources = delete r dm.held_resources;
  logs = dm.logs ++ released r n ∷ [];
}

held_by-eq-some :
    (n : ℤ) (r : String) (dm : DagManager)
    → held_by n r dm ≡ true
    → lookup r dm.held_resources ≡ some n
held_by-eq-some n r dm e = elim (Option-cases (lookup r dm.held_resources)) [
  | inl free ↦ ground (arith, free, e)
  | inr (holder, held) ↦ ground (arith, held, e, ==_iff holder n)
]

held_by-ne-some :
    (n : ℤ) (r : String) (dm : DagManager)
    → held_by n r dm ≡ false
    → lookup r dm.held_resources ≢ some n
held_by-ne-some n r dm e held = ground (arith, held, e, ==_refl n)

module _ (order : List ℤ → List ℤ) (visits : IsOrder order) where
  unlock-eq :
      (n : ℤ) (r : String) (dm : DagManager)
      → lookup r dm.held_resources ≡ some n
      → unlock order n r dm ≡ clear_waiters r (order (keys dm.waiting_resource)) (freed_by n r dm)
  unfolding unlock log
  unlock-eq n r dm held = ground (arith, held, ==_iff n n)

  unlock-clears :
      (n : ℤ) (r : String) (dm : DagManager)
      → lookup r dm.held_resources ≡ some n
      → ((q : String)
          → lookup q (unlock order n r dm).held_resources
            ≡ (if r == q then none else lookup q dm.held_resources))
        × ((m : ℤ)
            → lookup m (unlock order n r dm).waiting_for
              ≡ (if waits_on r m dm then none else lookup m dm.waiting_for))
        × ((m : ℤ)
            → lookup m (unlock order n r dm).waiting_resource
              ≡ (if waits_on r m dm then none else lookup m dm.waiting_resource))
  unlock-clears n r dm held = rw (unlock-eq n r dm held) (
    λ q. ap (lookup q) (cleared_frame (pos 0)).0 ∙ lookup-delete r q dm.held_resources,
    λ m. ground (arith, (cleared_frame m).1, visited m, elem-keys m dm.waiting_resource),
    λ m. ground (arith, (cleared_frame m).2, visited m, elem-keys m dm.waiting_resource),
  )
    where
      freed : DagManager
      freed = freed_by n r dm

      ks : List ℤ
      ks = order (keys dm.waiting_resource)

      visited : (m : ℤ) → elem m ks ≡ elem m (keys dm.waiting_resource)
      visited m = elem-order order visits m (keys dm.waiting_resource)

      cleared_frame :
          (m : ℤ)
          → ((clear_waiters r ks freed).held_resources ≡ delete r dm.held_resources)
            × (lookup m (clear_waiters r ks freed).waiting_for
                ≡ (if elem m ks && waits_on r m dm then none else lookup m dm.waiting_for))
            × (lookup m (clear_waiters r ks freed).waiting_resource
                ≡ (if elem m ks && waits_on r m dm then none else lookup m dm.waiting_resource))
      cleared_frame m = unfold log in clear_waiters_lem r ks m freed

  unlock-ignored :
      (n : ℤ) (r : String) (dm : DagManager)
      → lookup r dm.held_resources ≢ some n
      → unlock order n r dm ≡ dm
  unfolding unlock
  unlock-ignored n r dm other = ground (arith, ==_iff n n)

  -- Unlock by the holder frees the resource and no other, clears all the edges of the nodes whose
  -- last refused request was for it, and leaves the edges and requests of all other nodes alone. By
  -- anybody else it changes nothing.
  pub unlock-frees :
      (n : ℤ) (r : String) (dm : DagManager)
      → ((q : String)
          → lookup q (unlock order n r dm).held_resources
            ≡ (if held_by n r dm && r == q then none else lookup q dm.held_resources))
        × ((m : ℤ)
            → lookup m (unlock order n r dm).waiting_for
              ≡ (if held_by n r dm && waits_on r m dm then none else lookup m dm.waiting_for))
        × ((m : ℤ)
            → lookup m (unlock order n r dm).waiting_resource
              ≡ (if held_by n r dm && waits_on r m dm then none else lookup m dm.waiting_resource))
        × (held_by n r dm ≡ false → unlock order n r dm ≡ dm)
  unlock-frees n r dm = elim (Bool-cases (held_by n r dm)) [
    | inl mine ↦
        let clears = unlock-clears n r dm (held_by-eq-some n r dm mine) in
        (
          λ q. rw mine (clears.0 q),
          λ m. rw mine (clears.1 m),
          λ m. rw mine (clears.2 m),
          λ other. ground (arith, mine, other),
        )
    | inr other ↦
        let same = unlock-ignored n r dm (held_by-ne-some n r dm other) in
        (
          λ q. rw other (rw same refl),
          λ m. rw other (rw same refl),
          λ m. rw other (rw same refl),
          λ e. same,
        )
  ]
