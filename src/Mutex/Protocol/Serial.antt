-- ===== src/Mutex/Protocol/Serial.antt =====
-- mutex/ricart_agrawala.go: where no node begins a call while another of its calls runs, the calls
-- of all numbers go on as if each node had one call.
use dynamo_db.Prelude.{
  ℕ, ◌+◌, ◌≤◌, ◌≡◌, refl, sym, ap, subst, ◌∙◌, inl, inr, false, arith, ℤ, int_key, nat_key, ◌==◌,
  ==_iff, Bool-cases, if◌then◌else◌,
}
use dynamo_db.Node.{Config, max_int64}
use dynamo_db.Mutex.{release_node}
use dynamo_db.Mutex.Protocol.{
  idle, forced, System, Calls, numbered, act_call, IsSerial, set, ask, lose, fail, at_phase,
  at_node, enter_phase, act, cost, if_asking, if_entered, Event, begins, asks, loses, fails, enters,
  gives_up, leaves, requests, hears, ticks,
}
use dynamo_db.Mutex.Protocol.Invariant.{Inv}
use dynamo_db.Mutex.Protocol.Moves.{Inv-later}
use dynamo_db.Mutex.Protocol.Events.{act-Inv}
use dynamo_db.Mutex.Protocol.Local.{owner, look, alone, act-look, if_apart, act-phase}

module _ (e : Event) (c : ℕ) (g : Calls) (i : ℤ) where
  act_call-here : (act_call c e g).phase i c ≡ (act e (numbered c g)).phase i
  unfolding act_call
  act_call-here =
      ap (λ b. if b then (act e (numbered c g)).phase i else g.phase i c) ((==_iff c c).1 refl)

  act_call-apart : (d : ℕ) → (d == c) ≡ false → (act_call c e g).phase i d ≡ g.phase i d
  unfolding act_call
  act_call-apart d other = if_apart (d == c) _ _ other

  act_call-still :
      (d : ℕ)
      → (act e (numbered c g)).phase i ≡ g.phase i c
      → (act_call c e g).phase i d ≡ g.phase i d
  act_call-still d still = elim (Bool-cases (d == c)) [
    | inl here ↦
        let at : c ≡ d = sym ((==_iff d c).0 here) in
        subst (λ k. (act_call c e g).phase i k ≡ g.phase i k) at (act_call-here ∙ still)
    | inr other ↦ act_call-apart d other
  ]

-- The calls are those of a system with one call of each node, the current one.
pub record Follows (g : Calls) (s : System) : Type 0 where
  pub same : g.nodes ≡ s.nodes
  pub current : ℤ → ℕ
  pub active : (i : ℤ) → s.phase i ≡ g.phase i (current i)
  pub over : (i : ℤ) (c : ℕ) → (c == current i) ≡ false → g.phase i c ≡ idle

module _ {g : Calls} {s : System} (f : Follows g s) where
  acted-look :
      (e : Event)
      → look (owner e) (act e (numbered (f.current (owner e)) g)) ≡ look (owner e) (act e s)
  acted-look e =
      let i = owner e in
      let seen : look i (numbered (f.current i) g) ≡ look i s =
        ap (λ nodes. (nodes, g.phase i (f.current i))) f.same
        ∙ ap (λ p. (s.nodes, p)) (sym (f.active i)) in
      act-look e (numbered (f.current i) g)
      ∙ ap (λ v. look i (act e (alone v))) seen
      ∙ sym (act-look e s)

  -- An event of a current call.
  current-Follows :
      (e : Event) (c : ℕ) → f.current (owner e) ≡ c → Follows (act_call c e g) (act e s)
  unfolding act_call
  current-Follows e c at =
      let acted : look (owner e) (act e (numbered c g)) ≡ look (owner e) (act e s) =
        subst (λ d. look (owner e) (act e (numbered d g)) ≡ look (owner e) (act e s)) at
          (acted-look e) in
      record {
        same = ap (λ v. v.0) acted;
        current = f.current;
        active = λ i. elim (Bool-cases (owner e == i)) [
          | inl own ↦
              subst (λ j. (act e s).phase j ≡ (act_call c e g).phase j (f.current j))
                ((==_iff (owner e) i).0 own)
                (sym (ap (λ v. v.1) acted)
                  ∙ sym (ap ((act_call c e g).phase (owner e)) at ∙ act_call-here e c g (owner e)))
          | inr apart ↦
              act-phase e s i apart
              ∙ f.active i
              ∙ sym (act_call-still e c g i (f.current i) (act-phase e (numbered c g) i apart))
        ];
        over = λ i d other. elim (Bool-cases (owner e == i)) [
          | inl own ↦
              let here : f.current i ≡ c = ap f.current (sym ((==_iff (owner e) i).0 own)) ∙ at in
              act_call-apart e c g i d (ap (λ k. d == k) (sym here) ∙ other) ∙ f.over i d other
          | inr apart ↦
              act_call-still e c g i d (act-phase e (numbered c g) i apart) ∙ f.over i d other
        ];
      }

  -- An event that leaves the phases.
  kept-Follows :
      (e : Event) (c : ℕ) (t : System)
      → (act e (numbered c g)).phase ≡ (numbered c g).phase
      → (act e (numbered c g)).nodes ≡ t.nodes
      → t.phase ≡ s.phase
      → Follows (act_call c e g) t
  unfolding act_call
  kept-Follows e c t still nodes kept =
      let phases : (i : ℤ) (d : ℕ) → (act_call c e g).phase i d ≡ g.phase i d =
        λ i d. act_call-still e c g i d (ap (λ p. p i) still) in
      record {
        same = nodes;
        current = f.current;
        active = λ i. ap (λ p. p i) kept ∙ f.active i ∙ sym (phases i (f.current i));
        over = λ i d other. phases i d ∙ f.over i d other;
      }

  -- A node without a call may have any of its calls for the current one.
  idle-Follows :
      (i : ℤ) (c : ℕ) → ((d : ℕ) → g.phase i d ≡ idle) → (h : Follows g s) × (h.current i ≡ c)
  idle-Follows i c none_runs = (
    record {
      same = f.same;
      current = set i c f.current;
      active = λ j. elim (Bool-cases (i == j)) [
        | inl own ↦
            f.active j
            ∙ subst (λ k. g.phase k (f.current k) ≡ g.phase k (set i c f.current k))
                ((==_iff i j).0 own)
                (none_runs (f.current i) ∙ sym (none_runs (set i c f.current i)))
        | inr apart ↦ f.active j ∙ ap (g.phase j) (sym (if_apart (i == j) c (f.current j) apart))
      ];
      over = λ j d other. elim (Bool-cases (i == j)) [
        | inl own ↦ subst (λ k. g.phase k d ≡ idle) ((==_iff i j).0 own) (none_runs d)
        | inr apart ↦
            f.over j d (ap (λ k. d == k) (sym (if_apart (i == j) c (f.current j) apart)) ∙ other)
      ];
    },
    ap (λ b. if b then c else f.current i) ((==_iff i i).1 refl),
  )

module _ {g : Calls} {s : System} (f : Follows g s) where
  abbrev Goes : Config → ℕ → ℕ → Event → Type 0
  Goes config spent c e = (t : System) × Inv config (spent + cost e) t × Follows (act_call c e g) t

  -- An event of a call that is over does nothing.
  skip :
      (config : Config) (spent : ℕ) (c : ℕ) (e : Event)
      → Inv config spent s
      → act e (numbered c g) ≡ numbered c g
      → Goes config spent c e
  skip config spent c e v nothing = (
    s,
    Inv-later v (spent + cost e) (omega arith),
    kept-Follows f e c s (ap (λ t. t.phase) nothing) (ap (λ t. t.nodes) nothing ∙ f.same) refl,
  )

  -- An event of another call than the current one.
  aside :
      (config : Config) (spent : ℕ) (c : ℕ) (e : Event)
      → IsSerial e g
      → Inv config spent s
      → spent + cost e ≤ max_int64
      → g.phase (owner e) c ≡ idle
      → Goes config spent c e
  unfolding act if_asking if_entered
  aside config spent c (begins i) serial v small rests = (
    act (begins i) s,
    act-Inv (begins i) config spent s v small,
    current-Follows (idle-Follows f i c serial).0 (begins i) c (idle-Follows f i c serial).1,
  )
  aside config spent c (asks i j) serial v small rests =
      skip config spent c (asks i j) v
        (let s = numbered c g in ap (λ p. if_asking p (λ r. ask i j r s) s) rests)
  aside config spent c (loses i j) serial v small rests =
      skip config spent c (loses i j) v
        (let s = numbered c g in ap (λ p. if_asking p (λ r. lose i j r s) s) rests)
  aside config spent c (fails i j) serial v small rests =
      skip config spent c (fails i j) v
        (let s = numbered c g in ap (λ p. if_asking p (λ r. fail i j r s) s) rests)
  aside config spent c (enters i) serial v small rests = skip config spent c (enters i) v (
      let s = numbered c g in
      ap (λ p. if_asking p (λ r. at_phase i (enter_phase (g.nodes i) r) s) s) rests)
  aside config spent c (gives_up i) serial v small rests =
      skip config spent c (gives_up i) v
        (let s = numbered c g in ap (λ p. if_asking p (λ r. at_phase i (forced r) s) s) rests)
  aside config spent c (leaves i) serial v small rests = skip config spent c (leaves i) v (
      let s = numbered c g in
      ap (λ p. if_entered p (at_phase i idle (at_node i (release_node (g.nodes i)) s)) s) rests)
  aside config spent c (requests i j time) serial v small rests = (
    act (requests i j time) s,
    act-Inv (requests i j time) config spent s v small,
    kept-Follows f (requests i j time) c (act (requests i j time) s) refl
        (ap (λ nodes. (act (requests i j time) (alone (nodes, idle))).nodes) f.same) refl,
  )
  aside config spent c (hears j time) serial v small rests = (
    act (hears j time) s,
    act-Inv (hears j time) config spent s v small,
    kept-Follows f (hears j time) c (act (hears j time) s) refl
        (ap (λ nodes. (act (hears j time) (alone (nodes, idle))).nodes) f.same) refl,
  )
  aside config spent c (ticks i) serial v small rests = (
    act (ticks i) s,
    act-Inv (ticks i) config spent s v small,
    kept-Follows f (ticks i) c (act (ticks i) s) refl
        (ap (λ nodes. (act (ticks i) (alone (nodes, idle))).nodes) f.same) refl,
  )

-- An event of any call leaves the invariant of the current ones.
pub act_call-Goes :
    (config : Config) (spent : ℕ) (c : ℕ) (e : Event) (g : Calls) (s : System) (f : Follows g s)
    → IsSerial e g
    → Inv config spent s
    → spent + cost e ≤ max_int64
    → Goes f config spent c e
act_call-Goes config spent c e g s f serial v small = elim (Bool-cases (c == f.current (owner e))) [
  | inl here ↦ (
    act e s,
    act-Inv e config spent s v small,
    current-Follows f e c (sym ((==_iff c (f.current (owner e))).0 here)),
  )
  | inr other ↦ aside f config spent c e serial v small (f.over (owner e) c other)
]
