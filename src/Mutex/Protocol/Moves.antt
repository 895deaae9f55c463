-- ===== src/Mutex/Protocol/Moves.antt =====
-- mutex/ricart_agrawala.go: what holds of the nodes and between them is kept by every event.
use dynamo_db.Prelude.{
  ℕ, ◌+◌, ◌≤◌, ◌≡◌, ◌≢◌, subst, inl, inr, Bool, true, false, ◌||◌, List, [], ◌∷◌, arith, length,
  elem, ℤ, pos, ◌≤ℤ◌, int_key, ◌==◌, ==_iff, Bool-cases,
}
use dynamo_db.Node.{Node, Config, get_other_nodes}
use dynamo_db.Mutex.{can_enter}
use dynamo_db.Mutex.Protocol.{
  Request, Phase, asking, inside, System, set, remove, tally_of, take_reply, take_none, at_node,
  at_phase, enter_phase,
}
use dynamo_db.Mutex.Protocol.Invariant.{
  request_of, IsPhase, IsCounted, IsEntered, IsNode, IsBehind, Inv, set-cases, IsTouched,
  touch-IsNode, touch-IsBehind,
}

not-granted :
    (p : Phase) → (request_of p).granting ≡ [] → (j : ℤ) → ¬ (elem j (request_of p).granting ≡ true)
not-granted p none_granted j g = ground (arith, none_granted, g)

module _ {config : Config} {spent : ℕ} {s : System} (v : Inv config spent s) where
  pub Inv-later : (spent' : ℕ) → spent ≤ spent' → Inv config spent' s
  Inv-later spent' h = record {
    each = λ i.
        let w = v.each i in
        record {
          own_id = w.own_id;
          own_config = w.own_config;
          started = w.started;
          bounded = ground (arith, w.bounded);
          phased = w.phased;
          entered = w.entered;
        };
    pair = v.pair;
  }

  pub at_node-Inv :
      (spent' : ℕ) (j : ℤ) (n : Node)
      → spent ≤ spent'
      → IsTouched (s.nodes j) n
      → n.lamport_clock ≤ℤ pos spent'
      → Inv config spent' (at_node j n s)
  at_node-Inv spent' j n h t b = record {
    each = λ i.
        set-cases (λ k m. IsNode config spent' k m (s.phase k)) j n s.nodes i
          (touch-IsNode config spent spent' j (s.nodes j) n (s.phase j) t b (v.each j))
          (λ other. (Inv-later spent' h).each i);
    pair = λ i k other granted.
        set-cases
          (λ k m.
            i ≢ k
            → elem k (request_of (s.phase i)).granting ≡ true
            → IsBehind i (request_of (s.phase i)).time k m)
          j n s.nodes k
          (λ o g. touch-IsBehind i (request_of (s.phase i)).time j (s.nodes j) n t (v.pair i j o g))
          (λ e o g. v.pair i k o g) other granted;
  }

  pub at_phase-Inv :
      (i : ℤ) (p : Phase)
      → IsNode config spent i (s.nodes i) p
      → ((k : ℤ)
          → i ≢ k
          → elem k (request_of p).granting ≡ true
          → IsBehind i (request_of p).time k (s.nodes k))
      → Inv config spent (at_phase i p s)
  at_phase-Inv i p w b = record {
    each = λ k.
        set-cases (λ k q. IsNode config spent k (s.nodes k) q) i p s.phase k w (λ other. v.each k);
    pair = λ k j.
        set-cases
          (λ k q.
            k ≢ j
            → elem j (request_of q).granting ≡ true
            → IsBehind k (request_of q).time j (s.nodes j))
          i p s.phase k (b j) (λ other. v.pair k j);
  }

  -- A node that has granted nothing yet changes its own state and phase.
  pub at_both-Inv :
      (spent' : ℕ) (i : ℤ) (n : Node) (p : Phase)
      → spent ≤ spent'
      → IsNode config spent' i n p
      → (request_of p).granting ≡ []
      → ((time k : ℤ) → IsBehind k time i (s.nodes i) → IsBehind k time i n)
      → Inv config spent' (at_phase i p (at_node i n s))
  at_both-Inv spent' i n p h w none_granted b = record {
    each = λ k. elim (Bool-cases (i == k)) [
      | inl same ↦ rw same (subst (λ z. IsNode config spent' z n p) ((==_iff i k).0 same) w)
      | inr other ↦ rw other ((Inv-later spent' h).each k)
    ];
    pair = λ k j.
        set-cases
          (λ k q.
            k ≢ j
            → elem j (request_of q).granting ≡ true
            → IsBehind k (request_of q).time j (set i n s.nodes j))
          i p s.phase k (λ o g. absurd (not-granted p none_granted j g))
          (λ away.
            set-cases
              (λ j m.
                k ≢ j
                → elem j (request_of (s.phase k)).granting ≡ true
                → IsBehind k (request_of (s.phase k)).time j m)
              i n s.nodes j (λ o g. b (request_of (s.phase k)).time k (v.pair k i o g))
              (λ apart. v.pair k j));
  }

-- A goroutine that has run moves its node from one list to another.
length-remove : (j : ℤ) (xs : List ℤ) → elem j xs ≡ true → length (remove j xs) + 1 ≡ length xs
length-remove j [] h = cc
length-remove j (x ∷ xs) h = ground (arith, length-remove j xs)

elem-remove : (j k : ℤ) (xs : List ℤ) → elem k xs ≡ true → (k == j || elem k (remove j xs)) ≡ true
elem-remove j k [] h = cc
elem-remove j k (x ∷ xs) h = ground (arith, elem-remove j k xs, ==_iff x j, ==_iff x k, ==_iff k j)

module _ (n : Node) (j : ℤ) (r : Request) (v : IsCounted n r)
    (unasked : elem j r.unasked ≡ true) where
  take_reply-IsCounted : (granted : Bool) → IsCounted n (take_reply j granted r)
  take_reply-IsCounted true = record {
    covered =
        λ k h. ground (arith, v.covered k h, elem-remove j k r.unasked, ==_iff j k, ==_iff k j);
    counted = omega (arith, v.counted, length-remove j r.unasked unasked);
  }
  take_reply-IsCounted false = record {
    covered =
        λ k h. ground (arith, v.covered k h, elem-remove j k r.unasked, ==_iff j k, ==_iff k j);
    counted = omega (arith, v.counted, length-remove j r.unasked unasked);
  }

  take_none-IsCounted : IsCounted n (take_none j r)
  take_none-IsCounted = record {
    covered =
        λ k h. ground (arith, v.covered k h, elem-remove j k r.unasked, ==_iff j k, ==_iff k j);
    counted = omega (arith, v.counted, length-remove j r.unasked unasked);
  }

-- A node's own part, when only the lists of its request change.
module _ {config : Config} {spent : ℕ} {i : ℤ} {n : Node} {r : Request}
    (v : IsNode config spent i n (asking r)) where
  pub phase-IsNode : (p : Phase) → IsPhase n p → IsEntered n p → IsNode config spent i n p
  phase-IsNode p h e = record {
    own_id = v.own_id;
    own_config = v.own_config;
    started = v.started;
    bounded = v.bounded;
    phased = h;
    entered = e;
  }

  pub take_reply-IsNode :
      (j : ℤ) (granted : Bool)
      → elem j r.unasked ≡ true
      → IsNode config spent i n (asking (take_reply j granted r))
  take_reply-IsNode j true h = phase-IsNode _ v.phased (take_reply-IsCounted n j r v.entered h true)
  take_reply-IsNode j false h =
      phase-IsNode _ v.phased (take_reply-IsCounted n j r v.entered h false)

  pub take_none-IsNode :
      (j : ℤ) → elem j r.unasked ≡ true → IsNode config spent i n (asking (take_none j r))
  take_none-IsNode j h = phase-IsNode _ v.phased (take_none-IsCounted n j r v.entered h)

  pub enter-IsNode : IsNode config spent i n (enter_phase n r)
  enter-IsNode = elim (Bool-cases (can_enter (tally_of r) (length (get_other_nodes n)))) [
    | inl yes_enter ↦ rw yes_enter (phase-IsNode (inside r) v.phased (v.entered, yes_enter))
    | inr not_yet ↦ rw not_yet v
  ]
