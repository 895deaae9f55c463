-- ===== src/Deadlock/Detect.antt =====
-- deadlock/dag.go: DetectCycle against the cycles of the graph.
use dynamo_db.Prelude.{
  suc, ◌≡◌, ◌↔◌, refl, sym, ap, ◌∙◌, subst, ◌⊎◌, inl, inr, Bool, true, false, Option, some, List,
  [], ◌∷◌, arith, length, ℤ, int_key, elem, elem-cases, ==_refl, Bool-cases,
}
use dynamo_db.GoMap.{IsOrder, elem-order, empty, keys, lookup, lookup_or}
use dynamo_db.Deadlock.{
  DagManager, deadlock_detected, no_deadlock, log, Search, dfs, search_from, report, detect_cycle,
}
use dynamo_db.Deadlock.Graph.{
  Graph, Waits, direct, through, IsCyclic, IsFinished, Waits-of_IsCyclic, not-Waits_of_IsFinished,
}
use dynamo_db.Deadlock.Dfs.{unvisited-le-length, IsState, dfs-Done, key_of_Edge}

length-keys : (g : Graph) → length (keys g) ≡ length g
length-keys [] = refl
length-keys (_ ∷ g) = ap suc (length-keys g)

module _ (g : Graph) where
  abbrev Searched : List ℤ → List ℤ → Option (List ℤ) → Type 0
  Searched finished nodes r =
      ((x : ℤ) × (rest : List ℤ) × (r ≡ some (x ∷ rest)) × IsCyclic g (x ∷ rest))
      ⊎ ((more : List ℤ) × (r ≡ some [])
          × IsFinished g more
          × ((n : ℤ) → elem n finished ≡ true → elem n more ≡ true)
          × ((n : ℤ) → elem n nodes ≡ true → elem n more ≡ true))

  Searched-cons :
      (finished between nodes : List ℤ) (node : ℤ) (r : Option (List ℤ))
      → ((n : ℤ) → elem n finished ≡ true → elem n between ≡ true)
      → elem node between ≡ true
      → Searched between nodes r
      → Searched finished (node ∷ nodes) r
  Searched-cons finished between nodes node r sub here (inl cyclic) = inl cyclic
  Searched-cons finished between nodes node r sub here (inr (more, e, f, old, all)) = inr (
    more,
    e,
    f,
    λ n e'. old n (sub n e'),
    λ n e'. elim (elem-cases n node nodes e') [
      | inl same ↦ old n (rw same here)
      | inr later ↦ all n later
    ],
  )

  search_from-Searched :
      (nodes finished : List ℤ) (s : Search)
      → IsState g finished [] s
      → Searched finished nodes (search_from g nodes s)
  unfolding search_from
  search_from-Searched [] finished s h = inr (finished, refl, h.ordered, (λ n e. e), λ n e. cc)
  search_from-Searched (node ∷ nodes) finished s h =
      elim (Bool-cases (lookup_or false node s.visited)) [
        | inl old ↦ subst (Searched finished (node ∷ nodes)) (sym (skips old)) (
            Searched-cons finished finished nodes node _ (λ n e. e) (ground (arith, h.visits node))
              (search_from-Searched nodes finished s h))
        | inr new ↦
            elim (dfs-Done g (suc (length g)) [] node finished s h
              (omega (arith, unvisited-le-length (keys g) s.visited, length-keys g)) new tt) [
                | inl (x, c, s', e, cyclic) ↦ inl (x, c, ground arith, cyclic)
                | inr (s', between, e, h', old, all) ↦
                    subst (Searched finished (node ∷ nodes)) (sym (goes_on new s' e)) (
                      Searched-cons finished between nodes node _ old
                        (all node (ground (arith, ==_refl node)))
                        (search_from-Searched nodes between s' h'))
              ]
      ]
    where
      skips :
          lookup_or false node s.visited ≡ true
          → search_from g (node ∷ nodes) s ≡ search_from g nodes s
      skips old = ground arith

      goes_on :
          lookup_or false node s.visited ≡ false
          → (s' : Search) → dfs (suc (length g)) g [] node s ≡ some ([], s')
          → search_from g (node ∷ nodes) s ≡ search_from g nodes s'
      goes_on new s' e = ground arith

  start-IsState : IsState g [] [] (record { visited = empty; rec_stack = empty })
  unfolding lookup_or lookup
  start-IsState = record {
    visits = λ n. refl;
    stacks = λ n. refl;
    ordered = tt;
    apart = λ n e. refl;
  }

  first-key : {n m : ℤ} → Waits g n m → elem n (keys g) ≡ true
  first-key (direct e) = key_of_Edge g _ _ e
  first-key (through e w) = key_of_Edge g _ _ e

-- In whatever order it visits the graph, DetectCycle returns within its fuel. It reports a deadlock
-- exactly where some node waits for itself, directly or through others, and what it returns then is
-- a walk of the graph that comes back to a node that it has passed; otherwise it returns no nodes.
pub detect_cycle_iff :
    (order : List ℤ → List ℤ)
    → IsOrder order
    → (dm : DagManager)
    → (dm' : DagManager) × (found : Bool) × (cycle : List ℤ) × (detect_cycle order dm
        ≡ some (dm', found, cycle))
      × ((found ≡ true) ↔ ((x : ℤ) × Waits dm.waiting_for x x))
      × (found ≡ true → IsCyclic dm.waiting_for cycle)
      × (found ≡ false → cycle ≡ [])
unfolding detect_cycle report
detect_cycle_iff order visits dm =
    elim (search_from-Searched dm.waiting_for (order (keys dm.waiting_for)) []
      (record { visited = empty; rec_stack = empty }) (start-IsState dm.waiting_for)) [
        | inl (x, rest, e, cyclic) ↦ (
          log (deadlock_detected (x ∷ rest)) dm,
          true,
          x ∷ rest,
          ground (arith, e),
          (λ _. Waits-of_IsCyclic dm.waiting_for (x ∷ rest) cyclic, λ _. refl),
          (λ _. cyclic),
          λ e'. cc,
        )
        | inr (more, e, ordered, old, all) ↦ (
          log no_deadlock dm,
          false,
          [],
          ground (arith, e),
          (
            λ e'. cc,
            λ w. absurd (
                not-Waits_of_IsFinished dm.waiting_for more w.0 ordered
                  (all w.0 (
                    elem-order order visits w.0 (keys dm.waiting_for)
                    ∙ first-key dm.waiting_for w.1))
                  w.1),
          ),
          (λ e'. cc),
          λ _. refl,
        )
      ]
