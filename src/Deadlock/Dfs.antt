-- ===== src/Deadlock/Dfs.antt =====
-- deadlock/dag.go: the depth-first search of DetectCycle, its fuel, what it finds and what it
-- marks.
use dynamo_db.Prelude.{
  ℕ, zero, suc, ◌≤◌, ◌<◌, ◌≡◌, refl, sym, ap, ◌∙◌, subst, ◌⊎◌, inl, inr, Bool, true, false, ◌||◌,
  Option, some, List, [], ◌∷◌, ◌++◌, arith, length, ℤ, int_key, elem, elem-append, elem-cases,
  ==_iff, ==_refl, Bool-cases, if◌then◌else◌,
}
use dynamo_db.GoMap.{GoMap, keys, lookup_or, insert, lookup_or-insert, elem-keys}
use dynamo_db.Deadlock.{Search, scan, enter, leave, dfs}
use dynamo_db.Deadlock.Graph.{Graph, Edge, IsWalk, IsCyclic, IsWalk-concat, IsFinished}

-- The nodes of the list that are not visited.
abbrev pub unvisited : List ℤ → GoMap ℤ Bool → ℕ
unvisited [] visited = 0
unvisited (n ∷ ns) visited =
    if lookup_or false n visited then unvisited ns visited else suc (unvisited ns visited)

pub unvisited-le-length : (ns : List ℤ) (visited : GoMap ℤ Bool) → unvisited ns visited ≤ length ns
unvisited-le-length [] visited = omega arith
unvisited-le-length (n ∷ ns) visited = ground (arith, unvisited-le-length ns visited)

unvisited_mono :
    (ns : List ℤ) (before after : GoMap ℤ Bool)
    → ((n : ℤ) → lookup_or false n before ≡ true → lookup_or false n after ≡ true)
    → unvisited ns after ≤ unvisited ns before
unvisited_mono [] before after h = omega arith
unvisited_mono (n ∷ ns) before after h = ground (arith, h n, unvisited_mono ns before after h)

unvisited-insert :
    (ns : List ℤ) (node : ℤ) (visited : GoMap ℤ Bool)
    → elem node ns ≡ true
    → lookup_or false node visited ≡ false
    → unvisited ns (insert node true visited) < unvisited ns visited
unvisited-insert [] node visited e new = cc
unvisited-insert (n ∷ ns) node visited e new = ground (
  arith,
  ==_iff n node,
  ==_iff node n,
  lookup_or-insert false node n true visited,
  unvisited-insert ns node visited,
  unvisited_mono ns visited (insert node true visited)
      (λ m h. ground (arith, lookup_or-insert false node m true visited)),
)

module _ (g : Graph) where
  -- `finished` are the nodes that calls have left, and `path` those of the calls under way.
  pub record IsState (finished : List ℤ) (path : List ℤ) (s : Search) : Type 0 where
    pub visits : (n : ℤ) → lookup_or false n s.visited ≡ (elem n finished || elem n path)
    pub stacks : (n : ℤ) → lookup_or false n s.rec_stack ≡ elem n path
    pub ordered : IsFinished g finished
    pub apart : (n : ℤ) → elem n finished ≡ true → elem n path ≡ false

  -- A call returns a cycle, or has finished all that it was to finish.
  abbrev pub Done : List ℤ → List ℤ → List ℤ → Option (List ℤ × Search) → Type 0
  Done finished path want r =
      ((x : ℤ) × (rest : List ℤ) × (s : Search) × (r ≡ some (x ∷ rest, s)) × IsCyclic g (x ∷ rest))
      ⊎ ((s : Search) × (more : List ℤ) × (r ≡ some ([], s))
          × IsState more path s
          × ((n : ℤ) → elem n finished ≡ true → elem n more ≡ true)
          × ((n : ℤ) → elem n want ≡ true → elem n more ≡ true))

  enter-IsState :
      (finished path : List ℤ) (node : ℤ) (s : Search)
      → IsState finished path s
      → lookup_or false node s.visited ≡ false
      → IsState finished (path ++ node ∷ []) (enter node s)
  unfolding enter
  enter-IsState finished path node s h new = record {
    visits = λ n. ground (
      arith,
      lookup_or-insert false node n true s.visited,
      elem-append n path (node ∷ []),
      h.visits n,
    );
    stacks = λ n. ground (
      arith,
      lookup_or-insert false node n true s.rec_stack,
      elem-append n path (node ∷ []),
      h.stacks n,
    );
    ordered = h.ordered;
    apart = λ n e.
        ground (arith, elem-append n path (node ∷ []), h.apart n, h.visits node, ==_iff node n);
  }

  leave-Done :
      (finished path : List ℤ) (node : ℤ) (s : Search) (r : Option (List ℤ × Search))
      → IsState finished path s
      → lookup_or false node s.visited ≡ false
      → Done finished (path ++ node ∷ []) (lookup_or [] node g) r
      → Done finished path (node ∷ []) (leave node r)
  unfolding leave
  leave-Done finished path node s r h new (inl (x, rest, s', e, cyclic)) =
      inl (x, rest, s', rw e, cyclic)
  leave-Done finished path node s r h new (inr (s', more, e, h', old, all)) = inr (
    record s' { rec_stack = insert node false s'.rec_stack },
    node ∷ more,
    rw e,
    record {
      visits = λ n. ground (arith, elem-append n path (node ∷ []), h'.visits n);
      stacks = λ n. ground (
        arith,
        lookup_or-insert false node n false s'.rec_stack,
        elem-append n path (node ∷ []),
        h'.stacks n,
        h.visits node,
        ==_iff node n,
      );
      ordered = (
        all,
        ground (arith, h'.apart node, elem-append node path (node ∷ []), ==_refl node),
        h'.ordered,
      );
      apart = λ n e'.
          ground (arith, h'.apart n, elem-append n path (node ∷ []), h.visits node, ==_iff node n);
    },
    λ n e'. ground (arith, old n),
    λ n e'. ground arith,
  )

  -- What the loop over the neighbours may assume of the recursive call.
  abbrev Visits : ℕ → List ℤ → (ℤ → Search → Option (List ℤ × Search)) → Type 0
  Visits fuel path visit =
      (neighbor : ℤ) (finished : List ℤ) (s : Search)
      → IsState finished path s
      → unvisited (keys g) s.visited < fuel
      → lookup_or false neighbor s.visited ≡ false
      → IsWalk g (path ++ neighbor ∷ [])
      → Done finished path (neighbor ∷ []) (visit neighbor s)

  visited_mono :
      (finished more path : List ℤ) (s s' : Search)
      → IsState finished path s
      → IsState more path s'
      → ((n : ℤ) → elem n finished ≡ true → elem n more ≡ true)
      → unvisited (keys g) s'.visited ≤ unvisited (keys g) s.visited
  visited_mono finished more path s s' h h' old =
      unvisited_mono (keys g) s.visited s'.visited
        λ n e. ground (arith, h.visits n, h'.visits n, old n)

  -- After the neighbour is finished, the rest of the list.
  Done-cons :
      (finished between path rest : List ℤ) (neighbor : ℤ) (r : Option (List ℤ × Search))
      → ((n : ℤ) → elem n finished ≡ true → elem n between ≡ true)
      → elem neighbor between ≡ true
      → Done between path rest r
      → Done finished path (neighbor ∷ rest) r
  Done-cons finished between path rest neighbor r sub here (inl cyclic) = inl cyclic
  Done-cons finished between path rest neighbor r sub here (inr (s, more, e, h, old, all)) = inr (
    s,
    more,
    e,
    h,
    λ n e'. old n (sub n e'),
    λ n e'. elim (elem-cases n neighbor rest e') [
      | inl same ↦ old n (rw same here)
      | inr later ↦ all n later
    ],
  )

  nonempty : (p : List ℤ) (n : ℤ) → (x : ℤ) × (rest : List ℤ) × (p ++ n ∷ [] ≡ x ∷ rest)
  nonempty [] n = (n, [], refl)
  nonempty (x ∷ p) n = (x, p ++ n ∷ [], refl)

  Done-cycle :
      (finished path want : List ℤ) (n : ℤ) (s : Search) (r : Option (List ℤ × Search))
      → r ≡ some (path ++ n ∷ [], s)
      → IsWalk g (path ++ n ∷ [])
      → elem n path ≡ true
      → Done finished path want r
  Done-cycle finished path want n s r e walk under_way =
      let (x, rest, shape) = nonempty path n in
      inl (
        x,
        rest,
        s,
        e ∙ ap (λ c. some (c, s)) shape,
        subst (IsCyclic g) shape (record { walk = walk; back = (path, n, refl, under_way) }),
      )

  scan-Done :
      (fuel : ℕ) (path : List ℤ) (visit : ℤ → Search → Option (List ℤ × Search))
      → Visits fuel path visit
      → (neighbors finished : List ℤ) (s : Search) → IsState finished path s
      → ((n : ℤ) → elem n neighbors ≡ true → IsWalk g (path ++ n ∷ []))
      → ((n : ℤ) → elem n neighbors ≡ true → unvisited (keys g) s.visited < fuel)
      → Done finished path neighbors (scan visit path neighbors s)
  unfolding scan
  scan-Done fuel path visit each [] finished s h walk room =
      inr (s, finished, refl, h, (λ n e. e), λ n e. cc)
  scan-Done fuel path visit each (neighbor ∷ rest) finished s h walk room =
      elim (Bool-cases (lookup_or false neighbor s.visited)) [
        | inl old ↦ elim (Bool-cases (lookup_or false neighbor s.rec_stack)) [
          | inl under_way ↦
              Done-cycle finished path (neighbor ∷ rest) neighbor s _ (ground arith)
                (walk neighbor here) (sym (h.stacks neighbor) ∙ under_way)
          | inr left ↦ subst (Done finished path (neighbor ∷ rest)) (sym (skips old left)) (
              Done-cons finished finished path rest neighbor _ (λ n e. e)
                (ground (arith, h.visits neighbor, h.stacks neighbor))
                (scan-Done fuel path visit each rest finished s h (λ n e. walk n (later n e))
                  (λ n e. room n (later n e))))
        ]
        | inr new ↦
            elim (each neighbor finished s h (room neighbor here) new (walk neighbor here)) [
              | inl (x, c, s', e, cyclic) ↦ inl (x, c, s', ground arith, cyclic)
              | inr (s', between, e, h', old, all) ↦
                  subst (Done finished path (neighbor ∷ rest)) (sym (goes_on new s' e)) (
                    Done-cons finished between path rest neighbor _ old
                      (all neighbor (ground (arith, ==_refl neighbor)))
                      (scan-Done fuel path visit each rest between s' h'
                        (λ n e'. walk n (later n e'))
                        (λ n e'. omega (
                          arith,
                          room n (later n e'),
                          visited_mono finished between path s s' h h' old,
                        ))))
            ]
      ]
    where
      here : elem neighbor (neighbor ∷ rest) ≡ true
      here = ground (arith, ==_refl neighbor)

      later : (n : ℤ) → elem n rest ≡ true → elem n (neighbor ∷ rest) ≡ true
      later n e = ground arith

      skips :
          lookup_or false neighbor s.visited ≡ true
          → lookup_or false neighbor s.rec_stack ≡ false
          → scan visit path (neighbor ∷ rest) s ≡ scan visit path rest s
      skips old left = ground arith

      goes_on :
          lookup_or false neighbor s.visited ≡ false
          → (s' : Search) → visit neighbor s ≡ some ([], s')
          → scan visit path (neighbor ∷ rest) s ≡ scan visit path rest s'
      goes_on new s' e = ground arith

  -- A node with an edge is among the keys of the map.
  pub key_of_Edge : (n m : ℤ) → Edge g n m → elem n (keys g) ≡ true
  unfolding lookup_or
  key_of_Edge n m e = ground (arith, elem-keys n g)

  -- A call on a node that was not visited returns, and returns a cycle or has finished the node.
  pub dfs-Done :
      (fuel : ℕ) (path : List ℤ) (node : ℤ) (finished : List ℤ) (s : Search)
      → IsState finished path s
      → unvisited (keys g) s.visited < fuel
      → lookup_or false node s.visited ≡ false
      → IsWalk g (path ++ node ∷ [])
      → Done finished path (node ∷ []) (dfs fuel g path node s)
  unfolding dfs
  dfs-Done zero path node finished s h room new walk = absurd (omega arith)
  dfs-Done (suc fuel) path node finished s h room new walk =
      leave-Done finished path node s _ h new (
        scan-Done fuel (path ++ node ∷ []) (dfs fuel g (path ++ node ∷ []))
          (λ neighbor more s' h' room' new' walk'.
            dfs-Done fuel (path ++ node ∷ []) neighbor more s' h' room' new' walk')
          (lookup_or [] node g) finished (enter node s) (enter-IsState finished path node s h new)
          (λ n e. IsWalk-concat g path node n walk e)
          (λ n e.
            unfold enter in
            omega (arith, unvisited-insert (keys g) node s.visited (key_of_Edge node n e) new)))
