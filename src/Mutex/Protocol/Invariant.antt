-- ===== src/Mutex/Protocol/Invariant.antt =====
-- mutex/ricart_agrawala.go: what holds of every node and between every two nodes while requests
-- run.
use dynamo_db.Prelude.{
  ℕ, ◌+◌, ◌≤◌, ◌≡◌, ◌≢◌, sym, ap, ◌∙◌, subst, ◌⊎◌, inl, inr, true, false, ◌||◌, arith, length, elem,
  ℤ, pos, ◌<ℤ◌, ◌≤ℤ◌, int_key, ◌==◌, ==_iff, Bool-cases,
}
use dynamo_db.Node.{
  Node, Config, max_int64, increment, increment_clock, update_clock, get_other_nodes,
}
use dynamo_db.Node.Handlers.{CsRequestArgs, request_cs, should_defer}
use dynamo_db.Node.Exclusion.{request_cs-grants, request_cs-kept}
use dynamo_db.Mutex.{can_enter}
use dynamo_db.Mutex.Protocol.{
  Request, no_request, Phase, idle, asking, inside, forced, System, set, tally_of, request_args,
}

abbrev pub request_of : Phase → Request
request_of idle = no_request
request_of (asking r) = r
request_of (inside r) = r
request_of (forced r) = r

-- The locals of a request agree with the node's fields.
abbrev pub IsPhase : Node → Phase → Type 0
IsPhase n idle = n.requesting_cs ≡ false
IsPhase n (asking r) =
    (n.requesting_cs ≡ true) × (n.request_time ≡ r.time) × (r.time ≤ℤ n.lamport_clock)
IsPhase n (inside r) =
    (n.requesting_cs ≡ true) × (n.request_time ≡ r.time) × (r.time ≤ℤ n.lamport_clock)
IsPhase n (forced r) =
    (n.requesting_cs ≡ true) × (n.request_time ≡ r.time) × (r.time ≤ℤ n.lamport_clock)

-- Each of the others is in one of the request's lists, which are together no longer than it needs.
pub record IsCounted (n : Node) (r : Request) : Type 0 where
  pub covered :
      (j : ℤ)
      → elem j (get_other_nodes n) ≡ true
      → (elem j r.unasked || elem j r.granting || elem j r.refusing || elem j r.dead) ≡ true
  pub counted :
      length r.unasked + length r.granting + length r.refusing + length r.dead
      ≡ length (get_other_nodes n)

abbrev pub IsEntered : Node → Phase → Type 0
IsEntered n (asking r) = IsCounted n r
IsEntered n (inside r) =
    IsCounted n r × (can_enter (tally_of r) (length (get_other_nodes n)) ≡ true)
IsEntered n _ = Unit

-- What holds of one node, whose time is at most `spent`.
pub record IsNode (config : Config) (spent : ℕ) (i : ℤ) (n : Node) (p : Phase) : Type 0 where
  pub own_id : n.id ≡ i
  pub own_config : n.config ≡ config
  pub started : pos 0 ≤ℤ n.lamport_clock
  pub bounded : n.lamport_clock ≤ℤ pos spent
  pub phased : IsPhase n p
  pub entered : IsEntered n p

-- The request of `i` comes before that of the node `n` with the ID `j`.
abbrev pub IsBefore : ℤ → ℤ → ℤ → Node → Type 0
IsBefore i time j n = (time <ℤ n.request_time) ⊎ ((time ≡ n.request_time) × (i <ℤ j))

-- What holds of a node that granted the request of `i`.
abbrev pub IsBehind : ℤ → ℤ → ℤ → Node → Type 0
IsBehind i time j n = (time <ℤ n.lamport_clock) × (n.requesting_cs ≡ true → IsBefore i time j n)

pub record Inv (config : Config) (spent : ℕ) (s : System) : Type 0 where
  pub each : (i : ℤ) → IsNode config spent i (s.nodes i) (s.phase i)
  pub pair :
      (i j : ℤ)
      → i ≢ j
      → elem j (request_of (s.phase i)).granting ≡ true
      → IsBehind i (request_of (s.phase i)).time j (s.nodes j)

-- To prove something of `set i x f` everywhere.
pub set-cases {ℓ κ} :
    {A : Type ℓ} (P : ℤ → A → Type κ) (i : ℤ) (x : A) (f : ℤ → A) (k : ℤ)
    → P i x
    → ((i == k) ≡ false → P k (f k))
    → P k (set i x f k)
set-cases P i x f k here there = elim (Bool-cases (i == k)) [
  | inl same ↦ rw same (subst (λ z. P z x) ((==_iff i k).0 same) here)
  | inr other ↦ rw other (there other)
]

-- The node after a message: a later time, and no change of its own request.
pub record IsTouched (n n' : Node) : Type 0 where
  pub same_id : n'.id ≡ n.id
  pub same_config : n'.config ≡ n.config
  pub same_requesting : n'.requesting_cs ≡ n.requesting_cs
  pub same_time : n'.request_time ≡ n.request_time
  pub not_earlier : n.lamport_clock ≤ℤ n'.lamport_clock

others-config : (n n' : Node) → IsTouched n n' → get_other_nodes n' ≡ get_other_nodes n
unfolding get_other_nodes
others-config n n' t = ground (arith, t.same_id, t.same_config)

touch-IsPhase : (n n' : Node) (p : Phase) → IsTouched n n' → IsPhase n p → IsPhase n' p
touch-IsPhase n n' idle t v = ground arith
touch-IsPhase n n' (asking r) t v = ground arith
touch-IsPhase n n' (inside r) t v = ground arith
touch-IsPhase n n' (forced r) t v = ground arith

touch-IsCounted : (n n' : Node) (r : Request) → IsTouched n n' → IsCounted n r → IsCounted n' r
touch-IsCounted n n' r t v = record {
  covered = λ j h. v.covered j (ap (elem j) (sym (others-config n n' t)) ∙ h);
  counted = v.counted ∙ ap length (sym (others-config n n' t));
}

touch-IsEntered : (n n' : Node) (p : Phase) → IsTouched n n' → IsEntered n p → IsEntered n' p
touch-IsEntered n n' idle t v = tt
touch-IsEntered n n' (asking r) t v = touch-IsCounted n n' r t v
touch-IsEntered n n' (inside r) t v = (
  touch-IsCounted n n' r t v.0,
  ap (λ xs. can_enter (tally_of r) (length xs)) (others-config n n' t) ∙ v.1,
)
touch-IsEntered n n' (forced r) t v = tt

pub touch-IsNode :
    (config : Config) (spent spent' : ℕ) (i : ℤ) (n n' : Node) (p : Phase)
    → IsTouched n n'
    → n'.lamport_clock ≤ℤ pos spent'
    → IsNode config spent i n p
    → IsNode config spent' i n' p
touch-IsNode config spent spent' i n n' p t h v = record {
  own_id = t.same_id ∙ v.own_id;
  own_config = t.same_config ∙ v.own_config;
  started = ground (arith, v.started, t.not_earlier);
  bounded = h;
  phased = touch-IsPhase n n' p t v.phased;
  entered = touch-IsEntered n n' p t v.entered;
}

pub touch-IsBehind :
    (i time j : ℤ) (n n' : Node) → IsTouched n n' → IsBehind i time j n → IsBehind i time j n'
touch-IsBehind i time j n n' t b = (ground (arith, t.not_earlier, b.0), λ e. ground (arith, b.1))

request_cs-clock :
    (args : CsRequestArgs) (n : Node)
    → (request_cs args n).0.lamport_clock ≡ (update_clock args.timestamp n).0.lamport_clock
unfolding request_cs
request_cs-clock args n = ground arith

-- Besides the clock, RequestCS changes only the queue.
request_cs-fields :
    (args : CsRequestArgs) (n : Node)
    → IsTouched (update_clock args.timestamp n).0 (request_cs args n).0
unfolding request_cs
request_cs-fields args n = ground arith

-- A message raises the time of the node at most to one more than its own and the message's.
module _ (n : Node) (time : ℤ) (spent : ℕ) (started : pos 0 ≤ℤ n.lamport_clock)
    (bounded : n.lamport_clock ≤ℤ pos spent) (small : spent + 1 ≤ max_int64)
    (sent : time ≤ℤ pos spent) where
  pub update_clock-touches :
      IsTouched n (update_clock time n).0
      × ((update_clock time n).0.lamport_clock ≤ℤ pos (spent + 1))
      × (time <ℤ (update_clock time n).0.lamport_clock)
  unfolding update_clock increment
  update_clock-touches = ground arith

  pub request_cs-touches :
      (i : ℤ)
      → IsTouched n (request_cs (request_args i time) n).0
        × ((request_cs (request_args i time) n).0.lamport_clock ≤ℤ pos (spent + 1))
        × (time <ℤ (request_cs (request_args i time) n).0.lamport_clock)
  request_cs-touches i =
      let (touched, high, later) = update_clock-touches in
      let fields = request_cs-fields (request_args i time) n in
      (
        record {
          same_id = fields.same_id ∙ touched.same_id;
          same_config = fields.same_config ∙ touched.same_config;
          same_requesting = fields.same_requesting ∙ touched.same_requesting;
          same_time = fields.same_time ∙ touched.same_time;
          not_earlier = ground (arith, fields.not_earlier, touched.not_earlier);
        },
        ground (arith, request_cs-clock (request_args i time) n),
        ground (arith, request_cs-clock (request_args i time) n),
      )

  pub increment_clock-touches :
      IsTouched n (increment_clock n).0 × ((increment_clock n).0.lamport_clock ≤ℤ pos (spent + 1))
  unfolding increment_clock increment
  increment_clock-touches = ground arith

not_deferred-IsBefore :
    (i time j : ℤ) (n : Node)
    → n.id ≡ j
    → i ≢ j
    → n.requesting_cs ≡ true
    → should_defer (request_args i time) n ≡ false
    → IsBefore i time j n
unfolding should_defer
not_deferred-IsBefore i time j n own other wants granted =
    ground (arith, ==_iff time n.request_time)

-- A node that grants a request at once has none of its own, or a later one.
pub request_cs-IsBefore :
    (i time j : ℤ) (n : Node)
    → n.id ≡ j
    → i ≢ j
    → (request_cs (request_args i time) n).1 ≡ true
    → (request_cs (request_args i time) n).0.requesting_cs ≡ true
    → IsBefore i time j (request_cs (request_args i time) n).0
request_cs-IsBefore i time j n own other granted wants =
    let (requesting, own_time) = request_cs-kept (request_args i time) n in
    let before =
      not_deferred-IsBefore i time j n own other (sym requesting ∙ wants)
        (ground (arith, request_cs-grants (request_args i time) n, granted)) in
    ground (arith, before, own_time)
