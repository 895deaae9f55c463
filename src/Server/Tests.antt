-- ===== src/Server/Tests.antt =====
-- The start of two servers, and the theorems on what they are then.
use dynamo_db.Prelude.{arith}
use dynamo_db.Ring.Samples.{as_listed, as_listed-IsOrder, second_first, second_first-IsOrder}
use dynamo_db.Node.{get_higher_nodes, ids_above}
use dynamo_db.Election
use dynamo_db.Election.{Round, Turn, monitors, starts_up, stops, take_turns}
use dynamo_db.Election.Settled.{IsSettled}
use dynamo_db.Server.Leader.{start_all-settles}
use dynamo_db.Server.Booted.{unlisted-starts}
use dynamo_db.Prelude.{
  ℕ, ◌≡◌, refl, String, Bool, true, false, Option, none, some, List, [], ◌∷◌, ℤ, pos, int_key,
  text_key, ◌==◌, elem, map, inr, ◌⊎◌, if◌then◌else◌, show, show_ℕ,
}
use dynamo_db.GoMap.{lookup, insert, delete, empty, is_some}
use dynamo_db.Ring.Samples.{by_length}
use dynamo_db.Node.{
  Node, Config, find_config, address, get_address, get_node_address, address_of, get_other_nodes,
  ids_other_than, update_clock, increment_clock, get_all_node_ids, add_all_nodes,
  initial_partition_mgr, new_node,
}
use dynamo_db.Node.Storage.{Cluster}
use dynamo_db.Node.Samples.{network, two, two-all}
use dynamo_db.Node.Storage.{
  put, replicate_to_partition_nodes, replicate, target_nodes, others, call_put, put_local,
  put_replica, get, get_reply, begin_delete, delete_local, delete_replica, propagate_delete,
}
use dynamo_db.Replicas.{
  operate, propagations, join_pending, is_pending, finish_at, Step, calls, propagates, put_at,
  delete_at, get_at, State, calls_of, is_quiet, finish_all, run, apply_all,
}
use dynamo_db.Manager
use dynamo_db.Manager.{new_partition_manager, is_enabled}
use dynamo_db.Replicas.Linked.{is_home}
use dynamo_db.Replicas.Serves.{Holds}
use dynamo_db.Server.{boot_node, load_config, serve_node, start_server, start_all}
use dynamo_db.Server.History.{IsOnline, start_all-refines}

abbrev config : Config
config = record {
  nodes =
      record { id = pos 1; ip = "127.0.0.1"; port = pos 9000 }
      ∷ record { id = pos 2; ip = "127.0.0.1"; port = pos 9001 }
      ∷ [];
  heartbeat_interval = pos 2;
  election_timeout = pos 5;
  deadlock_timeout = pos 10;
  partition = record { enabled = false; replication_factor = pos 0 };
}

abbrev file_at : String → String ⊎ List ℕ
file_at path = inr (1 ∷ [])

abbrev decoded : List ℕ → String ⊎ Config
decoded bytes = inr config

abbrev number_of : String → Option ℤ
number_of text = if text == "1" then some (pos 1) else if text == "2" then some (pos 2) else none

abbrev registered : Node → Option String
registered n = none

abbrev free : String → Option String
free at = none

abbrev booted : ℤ → Node
booted id = boot_node by_length id config

abbrev started : Cluster
started = two (booted (pos 1)) (booted (pos 2))

abbrev processes : List (List String)
processes = ("main" ∷ "1" ∷ []) ∷ ("main" ∷ "2" ∷ []) ∷ []

config_loaded : load_config file_at decoded "config.json" ≡ inr config
unfolding load_config
config_loaded = refl

both_start :
    start_all file_at decoded by_length number_of registered free processes empty ≡ some started
unfolding start_all start_server serve_node load_config boot_node new_node insert
both_start = refl

-- Without an ID there is no server.
without_id-ends :
    (start_server file_at decoded by_length number_of registered free ("main" ∷ [])).1 ≡ none
unfolding start_server
without_id-ends = refl

started-IsOnline : IsOnline config network started
unfolding boot_node new_node get_address address find_config show
started-IsOnline = record {
  listed =
      two-all (booted (pos 1)) (booted (pos 2))
        (λ j n. elem j (map (λ nc. nc.id) config.nodes) ≡ true) refl refl;
  listens =
      two-all (booted (pos 1)) (booted (pos 2)) (λ j n. network.listener (get_address n) ≡ some j)
        refl refl;
  executes =
      two-all (booted (pos 1)) (booted (pos 2)) (λ j n. network.executes (get_address n) ≡ true)
        refl refl;
}

-- The goroutine of the Delete runs after the next call.
abbrev history : List Step
history =
    calls (put_at (pos 1) "a" (1 ∷ []) (pos 7))
    ∷ calls (delete_at (pos 2) "a" (pos 9))
    ∷ calls (get_at (pos 3) "a")
    ∷ calls (get_at (pos 1) "b")
    ∷ propagates 0
    ∷ []

abbrev at_first : State
at_first = record { cluster = started; pending = [] }

history-quiet : is_quiet by_length network history at_first ≡ true
unfolding is_quiet operate put replicate_to_partition_nodes replicate target_nodes others call_put
    put_local put_replica get get_reply begin_delete delete_local delete_replica propagations
    join_pending is_pending finish_at propagate_delete is_enabled initial_partition_mgr
    add_all_nodes Manager.add_node new_partition_manager lookup insert delete show show_ℕ
    get_node_address address_of address get_other_nodes ids_other_than update_clock increment_clock
    boot_node new_node find_config get_all_node_ids
history-quiet = refl

abbrev home : ℤ → String → Bool
home j key = is_home by_length j key (initial_partition_mgr by_length config)

home-all : (j : ℤ) (key : String) → home j key ≡ true
unfolding is_home initial_partition_mgr add_all_nodes Manager.add_node new_partition_manager
home-all j key = refl

start_all-refines_example :
    let (contents, answers) =
      apply_all (λ j. is_some (lookup j started)) (calls_of history) empty in
    (final : State) × (run by_length network history at_first ≡ some (final, answers))
    × Holds home contents (finish_all network final.pending final.cluster)
start_all-refines_example =
    start_all-refines file_at decoded by_length number_of registered free config processes started
      network history config_loaded both_start started-IsOnline
      (unfold calls_of in
        (tt, (home-all (pos 2) "a", (home-all (pos 3) "a", (home-all (pos 1) "b", tt)))))
      history-quiet

abbrev at_once : Election.Schedule
at_once = record { ask_order = as_listed; in_time = λ id. true; announce_order = second_first }

abbrev round : Round
round = record {
  schedule = at_once;
  beat_order = as_listed;
  in_time = true;
  election_in_progress = false;
}

abbrev turns : List Turn
turns = monitors (pos 2) round ∷ monitors (pos 1) round ∷ starts_up (pos 1) at_once false ∷ []

start_all-settles_example :
    IsSettled network
      (pos 2)
      (take_turns network (starts_up (pos 2) at_once false ∷ turns) ([], started)).1
unfolding lookup get_higher_nodes ids_above boot_node new_node
start_all-settles_example =
    start_all-settles file_at decoded by_length number_of registered free config processes started
      network (pos 2) (booted (pos 2)) at_once turns config_loaded both_start started-IsOnline refl
      refl (λ e. ground (arith, e)) refl as_listed-IsOrder second_first-IsOrder
      (refl, (refl, (tt, tt)))

unlisted-starts_example :
    ((start_server file_at decoded by_length
        (λ text. some (pos 7))
        registered
        free
        ("main" ∷ "7" ∷ [])).1
      ≡ some (record { node = booted (pos 7); address = ":0" }))
    × (get_node_address (pos 7) (booted (pos 1)) ≡ "")
unlisted-starts_example =
    unlisted-starts file_at decoded by_length (λ text. some (pos 7)) registered free "main" "7" []
      (pos 7) (pos 1) config refl config_loaded refl refl refl
