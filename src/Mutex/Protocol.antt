-- ===== src/Mutex/Protocol.antt =====
-- mutex/ricart_agrawala.go: the nodes of a cluster while they ask for the critical section, are in
-- it and leave it, interleaved in any order.
--
-- What a lock guards, or one handler does, is one event; an event whose call is elsewhere in its
-- code does not happen. The messages after a request and those of other handlers may come at any
-- time and with any timestamp. A node may run several calls of ExecuteInCriticalSection at once:
-- they have their local variables each (`Calls`, by the node and the number of the call), and share
-- the node. `System` has of each node the calls of one number.
pub mod Invariant
pub mod Moves
pub mod Events
pub mod Local
pub mod Serial
pub mod Exclusion
use dynamo_db.Prelude.{
  ℕ, ◌+◌, ◌≡◌, String, Bool, true, false, List, [], ◌∷◌, length, elem, ℤ, pos, pos_part, int_key,
  nat_key, ◌==◌, if◌then◌else◌,
}
use dynamo_db.Node.{Node, Config, new_node, increment_clock, update_clock, get_other_nodes}
use dynamo_db.Node.Handlers.{CsRequestArgs, request_cs}
use dynamo_db.Mutex.{Tally, begin_request, can_enter, release_node}

-- The local variables of RequestCriticalSection: its goroutines that have not run, and the nodes
-- that granted, that deferred, and that did not answer.
pub record Request : Type 0 where
  pub time : ℤ
  pub unasked : List ℤ
  pub granting : List ℤ
  pub refusing : List ℤ
  pub dead : List ℤ

abbrev pub no_request : Request
no_request = record { time = pos 0; unasked = []; granting = []; refusing = []; dead = [] }

-- Where a node's call stands: `inside` by the count of replies, `forced` in by the timeout.
pub data Phase : Type 0 where
  idle : Phase
  asking inside forced : Request → Phase

pub record System : Type 0 where
  pub nodes : ℤ → Node
  pub phase : ℤ → Phase

pub data Event : Type 0 where
  -- the block at the start of a request
  begins : ℤ → Event
  -- a goroutine's call: answered in time, executed with the answer lost, and not executed
  asks loses fails : ℤ → ℤ → Event
  enters gives_up leaves : ℤ → Event
  -- a late request or a deferred reply, executed at the second node
  requests : ℤ → ℤ → ℤ → Event
  -- another handler that takes a timestamp, and a message that is sent
  hears : ℤ → ℤ → Event
  ticks : ℤ → Event

abbrev pub set {ℓ} : {A : Type ℓ} → ℤ → A → (ℤ → A) → ℤ → A
set i x f k = if i == k then x else f k

-- The list without the first occurrence.
abbrev pub remove : ℤ → List ℤ → List ℤ
remove j [] = []
remove j (x ∷ xs) = if x == j then xs else x ∷ remove j xs

abbrev pub tally_of : Request → Tally
tally_of r = record { granted_count = length r.granting; dead_nodes = r.dead }

abbrev pub request_args : ℤ → ℤ → CsRequestArgs
request_args i time = record { node_id = i; timestamp = time }

-- What the goroutine for the node `j` does with the reply.
abbrev pub take_reply : ℤ → Bool → Request → Request
take_reply j true r = record r { unasked = remove j r.unasked; granting = j ∷ r.granting }
take_reply j false r = record r { unasked = remove j r.unasked; refusing = j ∷ r.refusing }

abbrev pub take_none : ℤ → Request → Request
take_none j r = record r { unasked = remove j r.unasked; dead = j ∷ r.dead }

-- The state of the node `j` is changed, or the phase of the node `i`.
abbrev pub at_node : ℤ → Node → System → System
at_node j n s = record s { nodes = set j n s.nodes }

abbrev pub at_phase : ℤ → Phase → System → System
at_phase i p s = record s { phase = set i p s.phase }

abbrev pub enter_phase : Node → Request → Phase
enter_phase n r = if can_enter (tally_of r) (length (get_other_nodes n)) then inside r else asking r

-- The calls of one goroutine, if it has not run.
abbrev pub ask : ℤ → ℤ → Request → System → System
ask i j r s =
    let (n, granted) = request_cs (request_args i r.time) (s.nodes j) in
    if elem j r.unasked then at_phase i (asking (take_reply j granted r)) (at_node j n s) else s

abbrev pub lose : ℤ → ℤ → Request → System → System
lose i j r s =
    if elem j r.unasked
    then at_phase i (asking (take_none j r))
        (at_node j (request_cs (request_args i r.time) (s.nodes j)).0 s)
    else s

abbrev pub fail : ℤ → ℤ → Request → System → System
fail i j r s = if elem j r.unasked then at_phase i (asking (take_none j r)) s else s

abbrev pub begin : ℤ → Node → System → System
begin i n s =
    at_phase i (asking (record no_request { time = n.request_time; unasked = get_other_nodes n }))
      (at_node i n s)

-- An event that the phase of its node allows happens; `now` is what it does.
unfoldable pub if_idle : Phase → System → System → System
if_idle idle now s = now
if_idle _ now s = s

unfoldable pub if_asking : Phase → (Request → System) → System → System
if_asking (asking r) now s = now r
if_asking _ now s = s

unfoldable pub if_entered : Phase → System → System → System
if_entered (inside r) now s = now
if_entered (forced r) now s = now
if_entered _ now s = s

unfoldable pub act : Event → System → System
act (begins i) s = if_idle (s.phase i) (begin i (begin_request (s.nodes i)) s) s
act (asks i j) s = if_asking (s.phase i) (λ r. ask i j r s) s
act (loses i j) s = if_asking (s.phase i) (λ r. lose i j r s) s
act (fails i j) s = if_asking (s.phase i) (λ r. fail i j r s) s
act (enters i) s = if_asking (s.phase i) (λ r. at_phase i (enter_phase (s.nodes i) r) s) s
act (gives_up i) s = if_asking (s.phase i) (λ r. at_phase i (forced r) s) s
act (leaves i) s =
    if_entered (s.phase i) (at_phase i idle (at_node i (release_node (s.nodes i)) s)) s
act (requests i j time) s = at_node j (request_cs (request_args i time) (s.nodes j)).0 s
act (hears j time) s = at_node j (update_clock time (s.nodes j)).0 s
act (ticks i) s = at_node i (increment_clock (s.nodes i)).0 s

-- The calls of all nodes, by the node and the number of the call.
pub record Calls : Type 0 where
  pub nodes : ℤ → Node
  pub phase : ℤ → ℕ → Phase

abbrev pub numbered : ℕ → Calls → System
numbered c s = record { nodes = s.nodes; phase = λ i. s.phase i c }

-- The event happens to the call of this number; a number is begun with again once its call is over.
unfoldable pub act_call : ℕ → Event → Calls → Calls
act_call c e s =
    let after = act e (numbered c s) in
    record { nodes = after.nodes; phase = λ i d. if d == c then after.phase i else s.phase i d }

unfoldable pub run : List (ℕ × Event) → Calls → Calls
run [] s = s
run ((c, e) ∷ es) s = run es (act_call c e s)

unfoldable pub start_calls : (String → List ℕ) → Config → Calls
start_calls md5 config = record { nodes = λ id. new_node md5 id config; phase = λ id c. idle }

-- By how much an event raises the latest time at most.
abbrev pub cost : Event → ℕ
cost (requests i j time) = pos_part time + 1
cost (hears j time) = pos_part time + 1
cost e = 1

abbrev pub span : List (ℕ × Event) → ℕ
span [] = 0
span ((c, e) ∷ es) = cost e + span es

-- A node begins a call only where none of its calls runs.
abbrev pub IsSerial : Event → Calls → Type 0
IsSerial (begins i) s = (c : ℕ) → s.phase i c ≡ idle
IsSerial _ s = Unit

abbrev pub AreSerial : List (ℕ × Event) → Calls → Type 0
AreSerial [] s = Unit
AreSerial ((c, e) ∷ es) s = IsSerial e s × AreSerial es (act_call c e s)
