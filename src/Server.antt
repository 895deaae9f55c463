-- ===== src/Server.antt =====
-- main.go: a server process, from its arguments to its end, and LoadConfig of node/node.go.
--
-- What a process prints is a list of lines. `read_file`, `unmarshal`, `register` and `listen` are
-- os.ReadFile, json.Unmarshal, rpc.Register and net.Listen, each with the text of its error; `atoi`
-- is strconv.Atoi, where `none` is an error. The goroutines that a process starts are the `Turn`s
-- of `Election`, and those of its listener the calls of `Node/Rpc`.
pub mod Booted
pub mod History
pub mod Leader
mod Tests
use dynamo_db.Prelude.{
  ℕ, String, false, text_append, Option, none, some, List, [], ◌∷◌, ◌++◌, ℤ, int_key, ◌⊎◌, inl, inr,
  show,
}
use dynamo_db.GoMap.{insert}
use dynamo_db.Deadlock.{new_dag_manager}
use dynamo_db.Node.{Node, Config, get_address, new_node}
use dynamo_db.Node.Storage
use dynamo_db.Election.{Schedule, Turn, starts_up, stops}

-- A process that waits for its end: its node, with both managers, and the address it listens on.
pub record Server : Type 0 where
  pub node : Node
  pub address : String

abbrev rule : String
rule = "===================================="

unfoldable pub banner : Node → String → List String
banner n address =
    rule
    ∷ text_append "    DISTRIBUTED SYSTEM - NODE " (show n.id)
    ∷ rule
    ∷ text_append "Address: " address
    ∷ "Algorithms:"
    ∷ "  1. Bully Algorithm (Leader Election)"
    ∷ "  2. Ricart-Agrawala (Mutual Exclusion)"
    ∷ "  3. DAG Wait-For Graph (Deadlock Detection)"
    ∷ "Status: RUNNING"
    ∷ rule
    ∷ ""
    ∷ []

-- fmt.Println and fmt.Printf of "[Node %d] %s"
abbrev node_line : Node → String → String
node_line n text = text_append "[Node " (text_append (show n.id) (text_append "] " text))

unfoldable pub ready : Node → List String
ready n =
    text_append "[Node " (text_append (show n.id) " ] Ready and waiting for connections...")
    ∷ text_append "[Node " (text_append (show n.id) " ] Press Ctrl+C to stop")
    ∷ ""
    ∷ []

-- The goroutine that waits for the other nodes and asks for a leader. The monitor's rounds are
-- `monitors`.
unfoldable pub first_turn : Schedule → Server → Turn
first_turn schedule s = starts_up s.node.id schedule false

-- SIGINT or SIGTERM: what is printed, and what becomes of the monitor.
unfoldable pub shut_down : Server → List String × Turn
shut_down s =
    ("" ∷ node_line s.node "Shutting down..." ∷ node_line s.node "Stopped" ∷ [], stops s.node.id)

-- The lines up to the wait for a signal, and the server that then runs; without one, the
-- process has ended with the status 1.
unfoldable pub serve_node :
    (Node → Option String) → (String → Option String) → Node → List String × Option Server
serve_node register listen n = elim (register n) [
  | some err ↦ (text_append "Failed to register RPC: " err ∷ [], none)
  | none ↦ elim (listen (get_address n)) [
    | some err ↦ (
      text_append "Failed to start listener on "
            (text_append (get_address n) (text_append ": " err))
          ∷ [],
      none,
    )
    | none ↦
        (banner n (get_address n) ++ ready n, some (record { node = n; address = get_address n }))
  ]
]

-- The node with its managers.
unfoldable pub boot_node : (String → List ℕ) → ℤ → Config → Node
boot_node md5 id config = record (new_node md5 id config) { deadlock_mgr = some new_dag_manager }

module _ (read_file : String → String ⊎ List ℕ) (unmarshal : List ℕ → String ⊎ Config) where
  unfoldable pub load_config : String → String ⊎ Config
  load_config path = elim (read_file path) [
    | inl err ↦ inl (text_append "failed to read config file: " err)
    | inr data_read ↦ elim (unmarshal data_read) [
      | inl err ↦ inl (text_append "failed to parse config: " err)
      | inr config ↦ inr config
    ]
  ]

  module _ (md5 : String → List ℕ) (atoi : String → Option ℤ) (register : Node → Option String)
      (listen : String → Option String) where
    unfoldable pub start_server : List String → List String × Option Server
    start_server (program ∷ id ∷ args) = elim (atoi id) [
      | none ↦ (text_append "Invalid node ID: " id ∷ [], none)
      | some node_id ↦ elim (load_config "config.json") [
        | inl err ↦ (text_append "Failed to load config: " err ∷ [], none)
        | inr config ↦ serve_node register listen (boot_node md5 node_id config)
      ]
    ]
    start_server _ = (
      "Usage: go run main.go <node_id>" ∷ "Example: go run main.go 1" ∷ "" ∷ "Node IDs: 1, 2, or 3"
          ∷ [],
      none,
    )

    -- The processes of a cluster, started one after the other; `none`: one of them has ended.
    unfoldable pub start_all : List (List String) → Storage.Cluster → Option Storage.Cluster
    start_all [] cluster = some cluster
    start_all (args ∷ processes) cluster = elim (start_server args).1 [
      | none ↦ none
      | some s ↦ start_all processes (insert s.node.id s.node cluster)
    ]
