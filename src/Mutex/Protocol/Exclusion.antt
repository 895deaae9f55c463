-- ===== src/Mutex/Protocol/Exclusion.antt =====
-- mutex/ricart_agrawala.go: who can be in the critical section together.
use dynamo_db.Prelude.{
  ℕ, ◌+◌, ◌≤◌, ◌≡◌, ◌≢◌, refl, sym, ap, subst, ◌∙◌, ◌⊎◌, inl, inr, String, true, false, List, [],
  ◌∷◌, arith, length, elem, map, ℤ, ◌<ℤ◌, int_key, nat_key, ◌==◌, ==_iff, Bool-cases,
}
use dynamo_db.Node.{Node, Config, max_int64, new_node, get_other_nodes, get_all_node_ids}
use dynamo_db.Node.Leader.{peers_iff}
use dynamo_db.Mutex.{can_enter}
use dynamo_db.Mutex.Protocol.{
  Request, inside, System, Calls, numbered, act_call, run, start_calls, Event, cost, span,
  AreSerial,
}
use dynamo_db.Mutex.Protocol.Serial.{Follows, act_call-Goes}
use dynamo_db.Mutex.Protocol.Invariant.{request_of, IsEntered, IsPhase, IsBehind, Inv}

run-Inv :
    (es : List (ℕ × Event)) (config : Config) (spent : ℕ) (g : Calls) (s : System)
    → AreSerial es g
    → Inv config spent s
    → Follows g s
    → spent + span es ≤ max_int64
    → (t : System) × Inv config (spent + span es) t × Follows (run es g) t
unfolding run
run-Inv [] config spent g s serial v f small = (s, subst (λ n. Inv config n s) (omega arith) v, f)
run-Inv ((c, e) ∷ es) config spent g s serial v f small =
    let (t, w, h) = act_call-Goes config spent c e g s f serial.0 v (omega (arith, small)) in
    let (u, x, k) =
      run-Inv es config (spent + cost e) (act_call c e g) t serial.1 w h (omega (arith, small)) in
    (u, subst (λ n. Inv config n u) (omega arith) x, k)

abbrev start_system : (String → List ℕ) → Config → System
start_system md5 config = numbered 0 (start_calls md5 config)

start-Inv : (md5 : String → List ℕ) (config : Config) → Inv config 0 (start_system md5 config)
unfolding start_calls new_node
start-Inv md5 config = record {
  each = λ i. record {
    own_id = refl;
    own_config = refl;
    started = omega arith;
    bounded = omega arith;
    phased = refl;
    entered = tt;
  };
  pair = λ i j other g. cc;
}

empty_of_length : (j : ℤ) (xs : List ℤ) → length xs ≡ 0 → elem j xs ≡ false
empty_of_length j [] e = refl
empty_of_length j (x ∷ xs) e = absurd (omega (arith, e))

elem-others :
    (n : Node) (config : Config) (j : ℤ)
    → n.config ≡ config
    → n.id ≢ j
    → elem j (map (λ nc. nc.id) config.nodes) ≡ true
    → elem j (get_other_nodes n) ≡ true
unfolding get_all_node_ids
elem-others n config j e other known = ground (arith, peers_iff n j, ==_iff j n.id, e)

all_replied :
    (n : Node) (r : Request)
    → IsEntered n (inside r)
    → (length r.unasked ≡ 0) × (length r.refusing ≡ 0)
unfolding can_enter
all_replied n r entered = ground (arith, entered.0.counted, entered.1)

module _ {config : Config} {spent : ℕ} {s : System} (v : Inv config spent s) where
  -- A node that entered by the count of replies has a grant of everyone that it did not take for
  -- dead.
  granted_by :
      (i j : ℤ) (r : Request)
      → i ≢ j
      → s.phase i ≡ inside r
      → elem j (map (λ nc. nc.id) config.nodes) ≡ true
      → elem j r.dead ≡ false
      → elem j r.granting ≡ true
  granted_by i j r other e known alive =
      let w = v.each i in
      let entered : IsEntered (s.nodes i) (inside r) = subst (IsEntered (s.nodes i)) e w.entered in
      let (none_unasked, none_refusing) = all_replied (s.nodes i) r entered in
      ground (
        arith,
        entered.0.covered j (
            elem-others (s.nodes i) config j w.own_config (λ same. other (sym w.own_id ∙ same))
              known),
        empty_of_length j r.unasked none_unasked,
        empty_of_length j r.refusing none_refusing,
        alive,
      )

  -- Both requests are before the other.
  both_before :
      (i j : ℤ) (r q : Request)
      → i ≢ j
      → s.phase i ≡ inside r
      → s.phase j ≡ inside q
      → elem j r.granting ≡ true
      → (r.time <ℤ q.time) ⊎ ((r.time ≡ q.time) × (i <ℤ j))
  both_before i j r q other e f granted =
      let behind : IsBehind i r.time j (s.nodes j) =
        subst
          (λ p.
            elem j (request_of p).granting ≡ true → IsBehind i (request_of p).time j (s.nodes j))
          e (v.pair i j other) granted in
      let own : IsPhase (s.nodes j) (inside q) = subst (IsPhase (s.nodes j)) f (v.each j).phased in
      ground (arith, behind.1 own.0, own)

  exclusive :
      (i j : ℤ) (r q : Request)
      → elem i (map (λ nc. nc.id) config.nodes) ≡ true
      → elem j (map (λ nc. nc.id) config.nodes) ≡ true
      → s.phase i ≡ inside r
      → s.phase j ≡ inside q
      → elem j r.dead ≡ false
      → elem i q.dead ≡ false
      → i ≡ j
  exclusive i j r q known_i known_j e f alive_j alive_i = elim (Bool-cases (i == j)) [
    | inl same ↦ (==_iff i j).0 same
    | inr apart ↦
        let other : i ≢ j = λ same. ground (arith, ==_iff i j, same, apart) in
        let before = both_before i j r q other e f (granted_by i j r other e known_j alive_j) in
        let after =
          both_before j i q r (λ same. other (sym same)) f e
            (granted_by j i q (λ same. other (sym same)) f known_i alive_i) in
        absurd (ground (arith, before, after))
  ]

start-Follows :
    (md5 : String → List ℕ) (config : Config)
    → Follows (start_calls md5 config) (start_system md5 config)
unfolding start_calls
start-Follows md5 config = record {
  same = refl;
  current = λ i. 0;
  active = λ i. refl;
  over = λ i c other. refl;
}

-- A call that is in the critical section is the current one of its node.
inside-current :
    (g : Calls) (s : System) (f : Follows g s) (i : ℤ) (c : ℕ) (r : Request)
    → g.phase i c ≡ inside r
    → c ≡ f.current i
inside-current g s f i c r e = elim (Bool-cases (c == f.current i)) [
  | inl here ↦ (==_iff c (f.current i)).0 here
  | inr other ↦ absurd (ground (arith, e, f.over i c other))
]

-- In whatever order the calls of the nodes of a cluster that has just started ask, grant, defer,
-- enter and leave, while messages come late or are lost, as long as no node begins a call while
-- another of its calls runs, and no clock can pass the largest `int64`: two calls are never in the
-- critical section together by the count of their replies, unless the node of one took that of the
-- other for dead.
pub mutual_exclusion :
    (md5 : String → List ℕ) (config : Config) (es : List (ℕ × Event)) (i j : ℤ) (c d : ℕ)
    (r q : Request)
    → AreSerial es (start_calls md5 config)
    → span es ≤ max_int64
    → elem i (map (λ nc. nc.id) config.nodes) ≡ true
    → elem j (map (λ nc. nc.id) config.nodes) ≡ true
    → (run es (start_calls md5 config)).phase i c ≡ inside r
    → (run es (start_calls md5 config)).phase j d ≡ inside q
    → elem j r.dead ≡ false
    → elem i q.dead ≡ false
    → (i ≡ j) × (c ≡ d)
mutual_exclusion md5 config es i j c d r q serial small known_i known_j e h alive_j alive_i =
    let g = run es (start_calls md5 config) in
    let (t, v, f) =
      run-Inv es config 0 (start_calls md5 config) (start_system md5 config) serial
        (start-Inv md5 config) (start-Follows md5 config) (omega (arith, small)) in
    let at_c = inside-current g t f i c r e in
    let at_d = inside-current g t f j d q h in
    let same : i ≡ j =
      exclusive v i j r q known_i known_j (f.active i ∙ sym (ap (g.phase i) at_c) ∙ e)
        (f.active j ∙ sym (ap (g.phase j) at_d) ∙ h) alive_j alive_i in
    (same, at_c ∙ ap f.current same ∙ sym at_d)
