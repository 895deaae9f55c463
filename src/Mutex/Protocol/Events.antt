-- ===== src/Mutex/Protocol/Events.antt =====
-- mutex/ricart_agrawala.go: every event keeps what holds of the nodes, while the clocks do not
-- wrap.
use dynamo_db.Prelude.{
  ℕ, ◌+◌, ◌≤◌, ◌≡◌, ◌≢◌, refl, sym, ap, subst, ◌∙◌, inl, inr, Bool, true, false, ◌∷◌, arith, elem,
  ℤ, pos, pos_part, ◌<ℤ◌, int_key, Bool-cases,
}
use dynamo_db.Node.{Node, Config, max_int64, increment_clock, update_clock}
use dynamo_db.Node.Handlers.{request_cs}
use dynamo_db.Mutex.{begin_request, release_node}
use dynamo_db.Mutex.Protocol.{
  Request, Phase, idle, asking, inside, forced, System, set, request_args, take_reply, take_none,
  at_node, at_phase, enter_phase, ask, lose, fail, begin, act, cost, if_idle, if_asking, if_entered,
  Event, begins, asks, loses, fails, enters, gives_up, leaves, requests, hears, ticks,
}
use dynamo_db.Mutex.Protocol.Invariant.{
  request_of, IsNode, IsBehind, Inv, set-cases, update_clock-touches, request_cs-touches,
  increment_clock-touches, request_cs-IsBefore,
}
use dynamo_db.Mutex.Protocol.Moves.{
  Inv-later, at_node-Inv, at_phase-Inv, at_both-Inv, phase-IsNode, take_reply-IsNode,
  take_none-IsNode, enter-IsNode,
}

module _ {config : Config} {spent : ℕ} {s : System} (v : Inv config spent s) where
  -- A message with a timestamp that is not past `spent`, or past it by `extra`.
  hears-Inv :
      (j : ℤ) (time : ℤ)
      → spent + (pos_part time + 1) ≤ max_int64
      → Inv config (spent + (pos_part time + 1)) (act (hears j time) s)
  unfolding act
  hears-Inv j time small =
      let w = v.each j in
      let (t, high, later) =
        update_clock-touches (s.nodes j) time (spent + pos_part time) w.started
          (ground (arith, w.bounded)) (omega (arith, small)) (ground arith) in
      at_node-Inv v (spent + (pos_part time + 1)) j (update_clock time (s.nodes j)).0 (omega arith)
        t (ground (arith, high))

  requests-Inv :
      (i j : ℤ) (time : ℤ)
      → spent + (pos_part time + 1) ≤ max_int64
      → Inv config (spent + (pos_part time + 1)) (act (requests i j time) s)
  unfolding act
  requests-Inv i j time small =
      let w = v.each j in
      let (t, high, later) =
        request_cs-touches (s.nodes j) time (spent + pos_part time) w.started
          (ground (arith, w.bounded)) (omega (arith, small)) (ground arith) i in
      at_node-Inv v (spent + (pos_part time + 1)) j (request_cs (request_args i time) (s.nodes j)).0
        (omega arith) t (ground (arith, high))

  ticks-Inv : (i : ℤ) → spent + 1 ≤ max_int64 → Inv config (spent + 1) (act (ticks i) s)
  unfolding act
  ticks-Inv i small =
      let w = v.each i in
      let (t, high) =
        increment_clock-touches (s.nodes i) (pos 0) spent w.started w.bounded small (omega arith) in
      at_node-Inv v (spent + 1) i (increment_clock (s.nodes i)).0 (omega arith) t high

  -- The call of the goroutine of `i` for `j`, executed.
  called-Inv :
      (i j : ℤ) (r : Request)
      → s.phase i ≡ asking r
      → spent + 1 ≤ max_int64
      → Inv config (spent + 1) (at_node j (request_cs (request_args i r.time) (s.nodes j)).0 s)
        × (r.time <ℤ (request_cs (request_args i r.time) (s.nodes j)).0.lamport_clock)
  called-Inv i j r e small =
      let w = v.each j in
      let here : IsNode config spent i (s.nodes i) (asking r) =
        subst (IsNode config spent i (s.nodes i)) e (v.each i) in
      let (t, high, later) =
        request_cs-touches (s.nodes j) r.time spent w.started w.bounded small
          (ground (arith, here.phased, here.bounded)) i in
      (
        at_node-Inv v (spent + 1) j (request_cs (request_args i r.time) (s.nodes j)).0 (omega arith)
            t high,
        later,
      )

  -- What was true of a request's grants before one more.
  old-IsBehind :
      (i k : ℤ) (r : Request)
      → s.phase i ≡ asking r
      → i ≢ k
      → elem k r.granting ≡ true
      → IsBehind i r.time k (s.nodes k)
  old-IsBehind i k r e =
      subst
        (λ p.
          i ≢ k
          → elem k (request_of p).granting ≡ true
          → IsBehind i (request_of p).time k (s.nodes k))
        e (v.pair i k)

  own-IsNode :
      (i : ℤ) (r : Request) → s.phase i ≡ asking r → IsNode config spent i (s.nodes i) (asking r)
  own-IsNode i r e = subst (IsNode config spent i (s.nodes i)) e (v.each i)

module _ {config : Config} {spent : ℕ} {s : System} (v : Inv config spent s) where
  ask_granted-Inv :
      (i j : ℤ) (r : Request)
      → s.phase i ≡ asking r
      → spent + 1 ≤ max_int64
      → elem j r.unasked ≡ true
      → (granted : Bool) → (request_cs (request_args i r.time) (s.nodes j)).1 ≡ granted
      → Inv config (spent + 1) (
          at_phase i
            (asking (take_reply j granted r))
            (at_node j (request_cs (request_args i r.time) (s.nodes j)).0 s))
  ask_granted-Inv i j r e small h granted g =
      let n = (request_cs (request_args i r.time) (s.nodes j)).0 in
      let (called, later) = called-Inv v i j r e small in
      at_phase-Inv called i (asking (take_reply j granted r))
        (take_reply-IsNode (own-IsNode called i r e) j granted h) (new_grants granted g)
    where
      new_grants :
          (granted : Bool)
          → (request_cs (request_args i r.time) (s.nodes j)).1 ≡ granted
          → (k : ℤ) → i ≢ k
          → elem k (take_reply j granted r).granting ≡ true
          → IsBehind i
              (take_reply j granted r).time
              k
              (set j (request_cs (request_args i r.time) (s.nodes j)).0 s.nodes k)
      new_grants true g k =
          set-cases (λ k m. i ≢ k → elem k (j ∷ r.granting) ≡ true → IsBehind i r.time k m) j
            (request_cs (request_args i r.time) (s.nodes j)).0 s.nodes k
            (λ o _. (
              (called-Inv v i j r e small).1,
              request_cs-IsBefore i r.time j (s.nodes j) (v.each j).own_id o g,
            ))
            (λ other o m. old-IsBehind v i k r e o (ground (arith, other, m)))
      new_grants false g k = λ o m. old-IsBehind (called-Inv v i j r e small).0 i k r e o m

  ask-Inv :
      (i j : ℤ) (r : Request)
      → s.phase i ≡ asking r
      → spent + 1 ≤ max_int64
      → Inv config (spent + 1) (ask i j r s)
  ask-Inv i j r e small = elim (Bool-cases (elem j r.unasked)) [
    | inl here ↦ rw here (ask_granted-Inv i j r e small here _ refl)
    | inr gone ↦ rw gone (Inv-later v (spent + 1) (omega arith))
  ]

  lose-Inv :
      (i j : ℤ) (r : Request)
      → s.phase i ≡ asking r
      → spent + 1 ≤ max_int64
      → Inv config (spent + 1) (lose i j r s)
  lose-Inv i j r e small = elim (Bool-cases (elem j r.unasked)) [
    | inl here ↦
        let called = (called-Inv v i j r e small).0 in
        rw here (
          at_phase-Inv called i (asking (take_none j r))
            (take_none-IsNode (own-IsNode called i r e) j here)
            (λ k o m. old-IsBehind called i k r e o m))
    | inr gone ↦ rw gone (Inv-later v (spent + 1) (omega arith))
  ]

  fail-Inv : (i j : ℤ) (r : Request) → s.phase i ≡ asking r → Inv config (spent + 1) (fail i j r s)
  fail-Inv i j r e =
      let waited = Inv-later v (spent + 1) (omega arith) in
      elim (Bool-cases (elem j r.unasked)) [
        | inl here ↦ rw here (
            at_phase-Inv waited i (asking (take_none j r))
              (take_none-IsNode (own-IsNode waited i r e) j here)
              (λ k o m. old-IsBehind v i k r e o m))
        | inr gone ↦ rw gone waited
      ]

  enter_phase-request : (n : Node) (r : Request) → request_of (enter_phase n r) ≡ r
  enter_phase-request n r = ground arith

  enter-Inv :
      (i : ℤ) (r : Request)
      → s.phase i ≡ asking r
      → Inv config (spent + 1) (at_phase i (enter_phase (s.nodes i) r) s)
  enter-Inv i r e =
      let waited = Inv-later v (spent + 1) (omega arith) in
      at_phase-Inv waited i (enter_phase (s.nodes i) r) (enter-IsNode (own-IsNode waited i r e))
        (λ k o m.
          subst (λ q. IsBehind i q.time k (s.nodes k)) (sym (enter_phase-request (s.nodes i) r))
            (old-IsBehind v i k r e o
              (ap (λ q. elem k q.granting) (sym (enter_phase-request (s.nodes i) r)) ∙ m)))

  give_up-Inv :
      (i : ℤ) (r : Request)
      → s.phase i ≡ asking r
      → Inv config (spent + 1) (at_phase i (forced r) s)
  give_up-Inv i r e =
      let waited = Inv-later v (spent + 1) (omega arith) in
      let own = own-IsNode waited i r e in
      at_phase-Inv waited i (forced r) (phase-IsNode own (forced r) own.phased tt)
        (λ k o m. old-IsBehind v i k r e o m)

  leave-Inv :
      (i : ℤ) → Inv config (spent + 1) (at_phase i idle (at_node i (release_node (s.nodes i)) s))
  unfolding release_node
  leave-Inv i =
      let w = v.each i in
      at_both-Inv v (spent + 1) i (release_node (s.nodes i)) idle (omega arith)
        (record {
          own_id = w.own_id;
          own_config = w.own_config;
          started = w.started;
          bounded = ground (arith, w.bounded);
          phased = refl;
          entered = tt;
        })
        refl (λ time k b. (b.0, λ h. cc))

  begin-Inv :
      (i : ℤ)
      → s.phase i ≡ idle
      → spent + 1 ≤ max_int64
      → Inv config (spent + 1) (begin i (begin_request (s.nodes i)) s)
  unfolding begin_request increment_clock
  begin-Inv i e small =
      let w = v.each i in
      let (t, high) =
        increment_clock-touches (s.nodes i) (pos 0) spent w.started w.bounded small (omega arith) in
      at_both-Inv v (spent + 1) i (begin_request (s.nodes i)) _ (omega arith)
        (record {
          own_id = w.own_id;
          own_config = w.own_config;
          started = ground (arith, w.started, t.not_earlier);
          bounded = high;
          phased = (refl, refl, omega arith);
          entered = record { covered = λ j h. ground (arith, h); counted = omega arith };
        })
        refl
        (λ time k b.
          (ground (arith, b.0, t.not_earlier), λ h. inl (ground (arith, b.0, t.not_earlier))))

-- An event keeps the invariant, whether it happens or not.
module _ {config : Config} {spent : ℕ} {s : System} (kept : Inv config spent s) where
  if_idle-Inv :
      (p : Phase) (now : System)
      → (p ≡ idle → Inv config spent now)
      → Inv config spent (if_idle p now s)
  unfolding if_idle
  if_idle-Inv idle now h = h refl
  if_idle-Inv (asking r) now h = kept
  if_idle-Inv (inside r) now h = kept
  if_idle-Inv (forced r) now h = kept

  if_asking-Inv :
      (p : Phase) (now : Request → System)
      → ((r : Request) → p ≡ asking r → Inv config spent (now r))
      → Inv config spent (if_asking p now s)
  unfolding if_asking
  if_asking-Inv (asking r) now h = h r refl
  if_asking-Inv idle now h = kept
  if_asking-Inv (inside r) now h = kept
  if_asking-Inv (forced r) now h = kept

  if_entered-Inv :
      (p : Phase) (now : System) → Inv config spent now → Inv config spent (if_entered p now s)
  unfolding if_entered
  if_entered-Inv (inside r) now h = h
  if_entered-Inv (forced r) now h = h
  if_entered-Inv idle now h = kept
  if_entered-Inv (asking r) now h = kept

pub act-Inv :
    (e : Event) (config : Config) (spent : ℕ) (s : System)
    → Inv config spent s
    → spent + cost e ≤ max_int64
    → Inv config (spent + cost e) (act e s)
unfolding act
act-Inv (hears j time) config spent s v small = hears-Inv v j time small
act-Inv (requests i j time) config spent s v small = requests-Inv v i j time small
act-Inv (ticks i) config spent s v small = ticks-Inv v i small
act-Inv (begins i) config spent s v small =
    if_idle-Inv (Inv-later v (spent + 1) (omega arith)) (s.phase i) _ (λ e. begin-Inv v i e small)
act-Inv (asks i j) config spent s v small =
    if_asking-Inv (Inv-later v (spent + 1) (omega arith)) (s.phase i) _
      (λ r e. ask-Inv v i j r e small)
act-Inv (loses i j) config spent s v small =
    if_asking-Inv (Inv-later v (spent + 1) (omega arith)) (s.phase i) _
      (λ r e. lose-Inv v i j r e small)
act-Inv (fails i j) config spent s v small =
    if_asking-Inv (Inv-later v (spent + 1) (omega arith)) (s.phase i) _ (λ r e. fail-Inv v i j r e)
act-Inv (enters i) config spent s v small =
    if_asking-Inv (Inv-later v (spent + 1) (omega arith)) (s.phase i) _ (λ r e. enter-Inv v i r e)
act-Inv (gives_up i) config spent s v small =
    if_asking-Inv (Inv-later v (spent + 1) (omega arith)) (s.phase i) _ (λ r e. give_up-Inv v i r e)
act-Inv (leaves i) config spent s v small =
    if_entered-Inv (Inv-later v (spent + 1) (omega arith)) (s.phase i) _ (leave-Inv v i)
