-- ===== src/Client/Tests.antt =====
-- The theorems on the client's commands, applied to a cluster of two nodes.
use dynamo_db.Prelude.{
  Bool, ℕ, ◌≡◌, refl, sym, ap, ◌∙◌, inl, inr, Bool-cases, String, true, false, Option, none, some,
  List, [], ◌∷◌, arith, ℤ, map, pos, int_key, text_key, ◌==◌, ==_iff, if◌then◌else◌, show,
}
use dynamo_db.GoMap.{lookup, insert, is_some}
use dynamo_db.Node.{
  Node, NodeConfig, address, address_of, get_node_address, get_other_nodes, ids_other_than,
  get_higher_nodes, ids_above, set_leader, update_clock, increment_clock, increment,
}
use dynamo_db.Node.Storage.{Network, Cluster}
use dynamo_db.Node.Replication.{stored, reached, executed_on}
use dynamo_db.Node.Rpc.{call, dials, modify, increment_at}
use dynamo_db.Node.Handlers.{StatusReply, status, coordinator}
use dynamo_db.Election.{Schedule, start_election, become_leader, announce, send_coordinator_message}
use dynamo_db.Election.Calls.{someone_answers}
use dynamo_db.Election.Winner.{is_won, is_told}
use dynamo_db.Client.Leader.{IsListed, IsNamed, find_leader-elected}
use dynamo_db.Deadlock.{Message, new_dag_manager}
use dynamo_db.Node.Samples.{member, pair, network, member-IsValid, pair-all}
use dynamo_db.Ring.Samples.{by_length, second_first, second_first-IsOrder}
use dynamo_db.Client.{
  find_leader, Outcome, answered, downloaded, connect_to_node, handle_put, handle_get,
}
use dynamo_db.Client.QuorumGet.{quorum_ids, handle_quorum_get}
use dynamo_db.Client.Calls.{IsUp}
use dynamo_db.Client.Quorum.{IsRead}
use dynamo_db.Client.ReadRepair.{handle_quorum_get-IsRead}
use dynamo_db.Client.DeadlockTest.{Reply, Visits, tested, handle_deadlock_test}
use dynamo_db.Client.DeadlockTest.Steps.{manager}
use dynamo_db.Client.DeadlockTest.Run.{heard}
use dynamo_db.Client.DeadlockTest.Script.{IsVisits, expected, handle_deadlock_test-detects}
use dynamo_db.Ring.Samples.{as_listed}
use dynamo_db.Manager.Valid.{IsValid}
use dynamo_db.Client.Sound.{IsSound}
use dynamo_db.Client.Prompt.{Choices, Response, session}
use dynamo_db.Client.Session.{IsFair, Splits, session-returns}
use dynamo_db.Client.RoundTrip.{handle_put-handle_get}

abbrev any_file : String → List ℕ → Bool
any_file name bytes = true

-- The second node does not have the key.
abbrev empty_member : Node
empty_member = record (member (pos 2)) { data_store = [] }

abbrev behind : Cluster
behind = (pos 1, member (pos 1)) ∷ (pos 2, empty_member) ∷ []

abbrev both : List NodeConfig
both = (member (pos 1)).config.nodes

first-IsUp : IsUp network both (pos 1) (member (pos 1)) behind
unfolding connect_to_node address dials show lookup
first-IsUp = record {
  at = "127.0.0.1:9000";
  connects = refl;
  listens = refl;
  executed = refl;
  is_answered = refl;
  here = refl;
  own = refl;
}

second-IsUp : IsUp network both (pos 2) empty_member behind
unfolding connect_to_node address dials show lookup
second-IsUp = record {
  at = "127.0.0.1:9001";
  connects = refl;
  listens = refl;
  executed = refl;
  is_answered = refl;
  here = refl;
  own = refl;
}

both-ids : quorum_ids both ≡ some (pos 1 ∷ pos 2 ∷ [])
unfolding quorum_ids
both-ids = refl

handle_quorum_get-IsRead_example :
    (after : Cluster) × (result : Outcome) × (handle_quorum_get by_length network both any_file
        ("quorum-get" ∷ "k" ∷ [])
        behind
      ≡ some (after, result))
    × IsRead any_file "k"
        (pos 1)
        (pos 2)
        (stored behind (pos 1) "k")
        (stored behind (pos 2) "k")
        behind
        after
        result
handle_quorum_get-IsRead_example =
    handle_quorum_get-IsRead by_length network both any_file "quorum-get" "k" [] (pos 1) (pos 2)
      (member (pos 1)) empty_member behind both-ids (λ e. ground (arith, e)) first-IsUp second-IsUp
      (member-IsValid (pos 1)) (member-IsValid (pos 2))

abbrev number : String → Option ℤ
number text = if text == "1" then some (pos 1) else none

abbrev files : String → Option (List ℕ)
files name = if name == "f.txt" then some (7 ∷ 8 ∷ []) else none

handle_put-handle_get_example :
    (after : Cluster) × (message : String) × (final : Cluster) × (handle_put by_length number files
        any_file network both
        (pos 9)
        ("put" ∷ "1" ∷ "k" ∷ "f.txt" ∷ [])
        behind
      ≡ some (after, answered true message))
    × (handle_get by_length number files any_file network both ("get" ∷ "1" ∷ "k" ∷ []) after
        ≡ some (final, downloaded (pos 1) "k" (7 ∷ 8 ∷ [])))
handle_put-handle_get_example =
    handle_put-handle_get by_length number files any_file network both "1" (pos 1) refl (pos 9)
      "put" "get" "k" "f.txt" [] [] (7 ∷ 8 ∷ []) (member (pos 1)) behind refl refl first-IsUp
      (member-IsValid (pos 1))

abbrev leader : Node
leader = record (member (pos 1)) {
  leader_id = pos 1;
  is_leader = true;
  deadlock_mgr = some new_dag_manager;
}

abbrev led : Cluster
led = (pos 1, leader) ∷ (pos 2, member (pos 2)) ∷ []

leader-IsUp : IsUp network both (pos 1) leader led
unfolding connect_to_node address dials show lookup
leader-IsUp = record {
  at = "127.0.0.1:9000";
  connects = refl;
  listens = refl;
  executed = refl;
  is_answered = refl;
  here = refl;
  own = refl;
}

leader-found : find_leader network both both led ≡ some (pos 1, leader-IsUp.at)
unfolding find_leader connect_to_node address dials show lookup call status leader-IsUp
leader-found = refl

abbrev any_visits : Visits
any_visits = record {
  first_detect = second_first;
  second_detect = second_first;
  resolve_held = second_first;
  resolve_waiting = second_first;
  unlock_a = second_first;
  unlock_b = second_first;
}

any_visits-IsVisits : IsVisits any_visits
any_visits-IsVisits = record {
  first_detect = second_first-IsOrder;
  second_detect = second_first-IsOrder;
  resolve_held = second_first-IsOrder;
  resolve_waiting = second_first-IsOrder;
  unlock_a = second_first-IsOrder;
  unlock_b = second_first-IsOrder;
}

handle_deadlock_test-detects_example :
    (final : Cluster) × (m' : Node) × (replies : List (Option Reply)) × (logs : List Message)
    × (handle_deadlock_test network both any_visits ("deadlock-test" ∷ "r" ∷ []) led
        ≡ some (final, tested (pos 1) replies))
    × (map heard replies ≡ expected)
    × (lookup (pos 1) final ≡ some m')
    × (m'.deadlock_mgr ≡ some (manager [] [] [] logs))
handle_deadlock_test-detects_example =
    handle_deadlock_test-detects network both any_visits "deadlock-test" "r" [] (pos 1) leader
      new_dag_manager led any_visits-IsVisits leader-IsUp leader-found refl

abbrev at_once : Schedule
at_once = record { ask_order = second_first; in_time = λ id. true; announce_order = second_first }

listener-at :
    (id i : ℤ) (from at : String)
    → from ≡ at
    → network.listener from ≡ some i
    → i ≡ id
    → network.listener at ≡ some id
listener-at id i from at same listens is = ap network.listener (sym same) ∙ listens ∙ ap some is

both-IsListed : IsListed network both
unfolding connect_to_node address dials show
both-IsListed id at e = elim (Bool-cases (pos 1 == id)) [
  | inl first ↦
      listener-at id (pos 1) "127.0.0.1:9000" at (ground (arith, first, e)) refl
        ((==_iff (pos 1) id).0 first)
  | inr other ↦ elim (Bool-cases (pos 2 == id)) [
    | inl second ↦
        listener-at id (pos 2) "127.0.0.1:9001" at (ground (arith, other, second, e)) refl
          ((==_iff (pos 2) id).0 second)
    | inr neither ↦ absurd (ground (arith, other, neither, e))
  ]
]

pair-IsNamed : IsNamed pair
unfolding lookup
pair-IsNamed j m e = ground (arith, e, ==_iff (pos 1) j, ==_iff (pos 2) j)

pair-told : (j : ℤ) → is_some (lookup j pair) ≡ true → is_told network (member (pos 2)) j ≡ true
unfolding lookup reached executed_on get_node_address address_of address get_other_nodes
    ids_other_than show
pair-told j known = ground (arith, known, ==_iff (pos 1) j, ==_iff (pos 2) j)

pair-won : is_won network at_once (member (pos 2)) pair ≡ true
unfolding someone_answers get_higher_nodes ids_above
pair-won = refl

pair-connects : connect_to_node network both (pos 2) ≡ some "127.0.0.1:9001"
unfolding connect_to_node address dials show
pair-connects = refl

abbrev after_election : Cluster
after_election = start_election network at_once false (member (pos 2)) pair

pair-answers :
    (reply : StatusReply) × ((call network "127.0.0.1:9001" (λ m. (m, status m)) after_election).1
      ≡ some reply)
unfolding call start_election become_leader announce send_coordinator_message coordinator set_leader
    update_clock increment_at increment_clock increment modify get_higher_nodes ids_above
    get_other_nodes ids_other_than get_node_address address_of address dials show lookup insert
    status
pair-answers = (_, refl)

find_leader-elected_example :
    find_leader network both both after_election ≡ some (pos 2, "127.0.0.1:9001")
find_leader-elected_example =
    find_leader-elected network both at_once (member (pos 2)) pair "127.0.0.1:9001" pair-answers.0
      second_first-IsOrder second_first-IsOrder both-IsListed pair-IsNamed pair-won pair-told refl
      pair-connects pair-answers.1

-- No call is executed.
abbrev cut_off : Network
cut_off = record network { executes = λ at. false }

abbrev choices : Choices
choices = record {
  net = network;
  read_file = files;
  write_file = any_file;
  now = pos 9;
  delete_order = second_first;
  list_order = as_listed;
  schedule = record {
    request_net = network;
    notice_net = network;
    request_order = as_listed;
    in_time = λ id. true;
    notice_order = as_listed;
  };
  has_manager = true;
  visits = any_visits;
}

choices-IsFair : (net : Network) → IsFair (record choices { net = net })
choices-IsFair net = record {
  deletes = second_first-IsOrder;
  first_detect = second_first-IsOrder;
  second_detect = second_first-IsOrder;
}

-- The words of the lines of the session.
abbrev words : String → List String
words line =
    if line == "put 1 a f.txt"
    then "put" ∷ "1" ∷ "a" ∷ "f.txt" ∷ []
    else if line == "delete 2 a"
    then "delete" ∷ "2" ∷ "a" ∷ []
    else if line == "mutex-put b f.txt"
    then "mutex-put" ∷ "b" ∷ "f.txt" ∷ []
    else line ∷ []

words-Splits : Splits (λ line. line) words
words-Splits line full e = ground (arith, e)

pair-IsSound : IsSound by_length pair
pair-IsSound = record {
  own = pair-all (λ j n. n.id ≡ j) refl refl;
  valid =
      pair-all (λ j n. IsValid by_length n.partition_mgr) (member-IsValid (pos 1))
        (member-IsValid (pos 2));
}

session-returns_example :
    (after : Cluster) × (responses : List Response) × (session by_length number both
        (λ line. line)
        words
        ((choices, "put 1 a f.txt")
          ∷ (choices, "")
          ∷ (record choices { net = cut_off }, "delete 2 a")
          ∷ (choices, "mutex-put b f.txt")
          ∷ (choices, "status")
          ∷ (choices, "exit")
          ∷ [])
        pair
      ≡ some (after, responses))
    × IsSound by_length after
session-returns_example =
    session-returns by_length number both (λ line. line) words
      ((choices, "put 1 a f.txt")
        ∷ (choices, "")
        ∷ (record choices { net = cut_off }, "delete 2 a")
        ∷ (choices, "mutex-put b f.txt")
        ∷ (choices, "status")
        ∷ (choices, "exit")
        ∷ [])
      pair words-Splits
      (
        choices-IsFair network,
        (
          choices-IsFair network,
          (
            choices-IsFair cut_off,
            (choices-IsFair network, (choices-IsFair network, (choices-IsFair network, tt))),
          ),
        ),
      )
      pair-IsSound
