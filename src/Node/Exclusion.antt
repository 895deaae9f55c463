-- ===== src/Node/Exclusion.antt =====
-- node/rpc_handlers.go: the rule of Ricart and Agrawala by which a node grants or defers a request.
use mathlib.Core.Bool.{not}
use dynamo_db.Prelude.{
  ◌≡◌, ◌≢◌, ◌↔◌, refl, ◌⊎◌, Bool, true, false, List, [], ◌∷◌, ◌++◌, arith, ◌<ℤ◌, int_key, ==_iff,
  if◌then◌else◌,
}
use dynamo_db.Node.{Node, DeferredRequest, update_clock}
use dynamo_db.Node.Handlers.{CsRequestArgs, should_defer, request_cs}

-- The request that a node sends while it wants to enter.
abbrev pub own_request : Node → CsRequestArgs
own_request n = record { node_id = n.id; timestamp = n.request_time }

-- The node that asks has the later request: by its time, or by its ID where the times are the same.
abbrev pub IsLater : CsRequestArgs → Node → Type 0
IsLater args n =
    (n.request_time <ℤ args.timestamp)
    ⊎ ((args.timestamp ≡ n.request_time) × (n.id <ℤ args.node_id))

not_iff :
    {granted deferred : Bool} {P : Type 0}
    → granted ≡ not deferred
    → (deferred ≡ true) ↔ P
    → (granted ≡ false) ↔ P
not_iff {granted} {deferred} e h = (λ g. h.0 (ground arith), λ p. ground (arith, h.1 p))

-- A pair whose second part is the outcome of the test that chose it.
if-granted :
    (deferred : Bool) (later now : Node)
    → (if◌then◌else◌ {A = Node × Bool} deferred (later, false) (now, true)).1 ≡ not deferred
if-granted true later now = refl
if-granted false later now = refl

if-queue :
    (deferred : Bool) (n : Node) (queue : List DeferredRequest)
    → (if◌then◌else◌ {A = Node × Bool} deferred
        (record n { deferred_queue = queue }, false)
        (n, true)).0.deferred_queue
      ≡ (if not deferred then n.deferred_queue else queue)
if-queue true n queue = refl
if-queue false n queue = refl

pub request_cs-grants :
    (args : CsRequestArgs) (n : Node) → (request_cs args n).1 ≡ not (should_defer args n)
unfolding request_cs should_defer update_clock
request_cs-grants args n = if-granted (should_defer args n) _ _

request_cs-queue :
    (args : CsRequestArgs) (n : Node)
    → (request_cs args n).0.deferred_queue ≡ (
        if not (should_defer args n)
        then n.deferred_queue
        else n.deferred_queue ++ record { node_id = args.node_id; timestamp = args.timestamp } ∷ [])
unfolding request_cs should_defer update_clock
request_cs-queue args n = if-queue (should_defer args n) _ _

pub should_defer_iff :
    (args : CsRequestArgs) (n : Node)
    → (should_defer args n ≡ true) ↔ ((n.requesting_cs ≡ true) × IsLater args n)
unfolding should_defer
should_defer_iff args n = (
  λ h. ground (arith, ==_iff args.timestamp n.request_time),
  λ h. ground (arith, ==_iff args.timestamp n.request_time),
)

should_defer-exclusive :
    (a b : Node)
    → a.requesting_cs ≡ true
    → b.requesting_cs ≡ true
    → a.id ≢ b.id
    → should_defer (own_request a) b ≡ not (should_defer (own_request b) a)
unfolding should_defer
should_defer-exclusive a b wants_a wants_b other =
    ground (arith, ==_iff a.request_time b.request_time, ==_iff b.request_time a.request_time)

-- Of two nodes with different IDs that both want to enter, exactly one grants the other's request.
pub request_cs-exclusive :
    (a b : Node)
    → a.requesting_cs ≡ true
    → b.requesting_cs ≡ true
    → a.id ≢ b.id
    → (request_cs (own_request a) b).1 ≡ not (request_cs (own_request b) a).1
request_cs-exclusive a b wants_a wants_b other = rw (
  request_cs-grants (own_request a) b,
  request_cs-grants (own_request b) a,
  should_defer-exclusive a b wants_a wants_b other,
)

-- A request is deferred exactly where the node has an earlier one of its own. Then it is remembered
-- at the end of the queue, and otherwise the queue is left alone.
pub request_cs-defers :
    (args : CsRequestArgs) (n : Node)
    → (((request_cs args n).1 ≡ false) ↔ ((n.requesting_cs ≡ true) × IsLater args n))
      × ((request_cs args n).0.deferred_queue ≡ (
          if (request_cs args n).1
          then n.deferred_queue
          else n.deferred_queue
            ++ record { node_id = args.node_id; timestamp = args.timestamp } ∷ []))
request_cs-defers args n = (
  not_iff (request_cs-grants args n) (should_defer_iff args n),
  rw (request_cs-grants args n) (request_cs-queue args n),
)

-- RequestCS leaves the node's own request alone.
pub request_cs-kept :
    (args : CsRequestArgs) (n : Node)
    → ((request_cs args n).0.requesting_cs ≡ n.requesting_cs)
      × ((request_cs args n).0.request_time ≡ n.request_time)
unfolding request_cs update_clock
request_cs-kept args n = ground arith
