-- ===== src/Deadlock/Graph.antt =====
-- deadlock/dag.go: the wait-for graph, its walks and its cycles.
use dynamo_db.Prelude.{
  ◌≡◌, sym, subst, inl, inr, true, false, List, [], ◌∷◌, ◌++◌, arith, ℤ, int_key, elem, elem-cases,
}
use dynamo_db.GoMap.{GoMap, lookup_or}

abbrev pub Graph : Type 0
Graph = GoMap ℤ (List ℤ)

-- `n` waits for `m`.
abbrev pub Edge : Graph → ℤ → ℤ → Type 0
Edge g n m = elem m (lookup_or [] n g) ≡ true

-- `n` waits for `m`, directly or through others.
pub data Waits (g : Graph) : ℤ → ℤ → Type 0 where
  direct : {n m : ℤ} → Edge g n m → Waits g n m
  through : {n m k : ℤ} → Edge g n m → Waits g m k → Waits g n k

module _ (g : Graph) where
  -- Each node of the list waits for the next.
  abbrev pub IsWalk : List ℤ → Type 0
  IsWalk [] = Unit
  IsWalk (n ∷ []) = Unit
  IsWalk (n ∷ m ∷ ns) = Edge g n m × IsWalk (m ∷ ns)

  -- A walk that comes back to a node that it has passed.
  pub record IsCyclic (ns : List ℤ) : Type 0 where
    pub walk : IsWalk ns
    pub back : (start : List ℤ) × (x : ℤ) × (ns ≡ start ++ x ∷ []) × (elem x start ≡ true)

  pub IsWalk-concat :
      (p : List ℤ) (n m : ℤ) → IsWalk (p ++ n ∷ []) → Edge g n m → IsWalk ((p ++ n ∷ []) ++ m ∷ [])
  IsWalk-concat [] n m w e = (e, tt)
  IsWalk-concat (a ∷ []) n m w e = (w.0, (e, tt))
  IsWalk-concat (a ∷ b ∷ p) n m w e = (w.0, IsWalk-concat (b ∷ p) n m w.1 e)

  Waits-of_walk : (a : ℤ) (p : List ℤ) (x : ℤ) → IsWalk (a ∷ p ++ x ∷ []) → Waits g a x
  Waits-of_walk a [] x w = direct w.0
  Waits-of_walk a (b ∷ p) x w = through w.0 (Waits-of_walk b p x w.1)

  Waits-of_pass :
      (start : List ℤ) (x : ℤ) → IsWalk (start ++ x ∷ []) → elem x start ≡ true → Waits g x x
  Waits-of_pass [] x w e = cc
  Waits-of_pass (a ∷ []) x w e = elim (elem-cases x a [] e) [
    | inl same ↦ direct (subst (λ z. Edge g z x) (sym same) w.0)
    | inr nowhere ↦ cc
  ]
  Waits-of_pass (a ∷ b ∷ start) x w e = elim (elem-cases x a (b ∷ start) e) [
    | inl same ↦ subst (λ z. Waits g z x) (sym same) (Waits-of_walk a (b ∷ start) x w)
    | inr later ↦ Waits-of_pass (b ∷ start) x w.1 later
  ]

  -- On such a walk some node waits for itself.
  pub Waits-of_IsCyclic : (ns : List ℤ) → IsCyclic ns → (x : ℤ) × Waits g x x
  Waits-of_IsCyclic ns c =
      let (start, x, e, passed) = c.back in (x, Waits-of_pass start x (rw e at c.walk) passed)

  -- Nodes in the order in which a search finished them, the latest first: each waits only for nodes
  -- that were finished before, and stands once.
  abbrev pub IsFinished : List ℤ → Type 0
  IsFinished [] = Unit
  IsFinished (n ∷ ns) =
      ((m : ℤ) → Edge g n m → elem m ns ≡ true) × (elem n ns ≡ false) × IsFinished ns

  Edge-elem :
      (ns : List ℤ) (n m : ℤ) → IsFinished ns → Edge g n m → elem n ns ≡ true → elem m ns ≡ true
  Edge-elem [] n m f h e = cc
  Edge-elem (x ∷ ns) n m f h e = elim (elem-cases n x ns e) [
    | inl same ↦ ground (arith, f.0 m (subst (λ z. Edge g z m) same h))
    | inr later ↦ ground (arith, Edge-elem ns n m f.2 h later)
  ]

  Waits-elem :
      (ns : List ℤ) → IsFinished ns → {n m : ℤ} → Waits g n m → elem n ns ≡ true → elem m ns ≡ true
  Waits-elem ns f (direct h) e = Edge-elem ns _ _ f h e
  Waits-elem ns f (through h w) e = Waits-elem ns f w (Edge-elem ns _ _ f h e)

  Waits-later :
      (ns : List ℤ)
      → IsFinished ns
      → {n m : ℤ} → Waits g n m
      → ((k : ℤ) → Edge g n k → elem k ns ≡ true)
      → elem m ns ≡ true
  Waits-later ns f (direct h) all = all _ h
  Waits-later ns f (through h w) all = Waits-elem ns f w (all _ h)

  -- No finished node waits for itself.
  pub not-Waits_of_IsFinished :
      (ns : List ℤ) (n : ℤ) → IsFinished ns → elem n ns ≡ true → ¬ Waits g n n
  not-Waits_of_IsFinished [] n f e w = cc
  not-Waits_of_IsFinished (x ∷ ns) n f e w = elim (elem-cases n x ns e) [
    | inl same ↦
        cc (same, f.1, Waits-later ns f.2 w (λ k h. f.0 k (subst (λ z. Edge g z k) same h)))
    | inr later ↦ not-Waits_of_IsFinished ns n f.2 later w
  ]

  -- Whom nobody waits for directly, nobody waits for.
  pub last-Edge : {n m : ℤ} → Waits g n m → (k : ℤ) × Edge g k m
  last-Edge (direct {n} e) = (n, e)
  last-Edge (through e w) = last-Edge w
