-- ===== src/Client/Prompt.antt =====
-- client/client.go: the main function, which reads a command from each line until `exit`.
--
-- `trim_space` and `fields` are strings.TrimSpace and strings.Fields. Where the input has ended,
-- ReadString gives the empty line again and again, and its error is dropped.
use dynamo_db.Prelude.{
  ℕ, String, text_append, Bool, true, false, ◌||◌, Option, none, some, List, [], ◌∷◌, ℤ, text_key,
  ◌==◌, if◌then◌else◌, ◌⊎◌, inl, inr,
}
use dynamo_db.Node.{NodeConfig, Config}
use dynamo_db.Node.Storage.{Network, Cluster}
use dynamo_db.Mutex.{Schedule}
use dynamo_db.Client.{
  Outcome, handle_put, handle_get, handle_delete, handle_status, handle_list, handle_partition_info,
  handle_mutex_put,
}
use dynamo_db.Client.QuorumGet.{handle_quorum_get}
use dynamo_db.Client.DeadlockTest.{Visits, TestOutcome, handle_deadlock_test}
use dynamo_db.Client.Help.{greeting, print_help}
use dynamo_db.Server.{load_config}

-- The network, the files, the time and the orders of the goroutines and visits while a command
-- runs; `has_manager`: main.go has set the leader's `MutexMgr`.
pub record Choices : Type 0 where
  pub net : Network
  pub read_file : String → Option (List ℕ)
  pub write_file : String → List ℕ → Bool
  pub now : ℤ
  pub delete_order : List ℤ → List ℤ
  pub list_order : List String → List String
  pub schedule : Schedule
  pub has_manager : Bool
  pub visits : Visits

-- What is printed about a command.
pub data Response : Type 0 where
  printed : Outcome → Response
  tested : TestOutcome → Response
  goodbye : Response
  help : List String → Response
  unknown_command : String → Response

-- The current directory first, then its parent.
unfoldable pub find_client_config :
    (String → String ⊎ List ℕ) → (List ℕ → String ⊎ Config) → String ⊎ Config
find_client_config read_file unmarshal = elim (load_config read_file unmarshal "config.json") [
  | inl err ↦ load_config read_file unmarshal "../config.json"
  | inr config ↦ inr config
]

-- What is printed before the first prompt, and the configuration; without one, the client has ended
-- with the status 1.
unfoldable pub start_client :
    (String → String ⊎ List ℕ) → (List ℕ → String ⊎ Config) → List String × Option Config
start_client read_file unmarshal = elim (find_client_config read_file unmarshal) [
  | inl err ↦ (
    text_append "Failed to load config: " err
        ∷ "Make sure config.json is in the current or parent directory"
        ∷ [],
    none,
  )
  | inr config ↦ (greeting, some config)
]

unfoldable pub with_response :
    {R : Type 0} → (R → Response) → Option (Cluster × R) → Option (Cluster × Response)
with_response respond none = none
with_response respond (some (after, reply)) = some (after, respond reply)

-- os.Exit
unfoldable pub ends : Response → Bool
ends goodbye = true
ends _ = false

module _ (md5 : String → List ℕ) (atoi : String → Option ℤ) (nodes : List NodeConfig) where
  -- The switch on the first word of the line; `parts` has it too.
  unfoldable pub run_command :
      Choices → String → List String → Cluster → Option (Cluster × Response)
  run_command c command parts cluster =
      if command == "put"
      then with_response printed
          (handle_put md5 atoi c.read_file c.write_file c.net nodes c.now parts cluster)
      else if command == "get"
      then with_response printed
          (handle_get md5 atoi c.read_file c.write_file c.net nodes parts cluster)
      else if command == "quorum-get"
      then with_response printed (handle_quorum_get md5 c.net nodes c.write_file parts cluster)
      else if command == "delete"
      then with_response printed
          (handle_delete md5 atoi c.read_file c.write_file c.net nodes c.delete_order parts cluster)
      else if command == "status"
      then some (
        cluster,
        printed (handle_status md5 atoi c.read_file c.write_file c.net nodes parts cluster),
      )
      else if command == "list"
      then some (
        cluster,
        printed
            (handle_list md5 atoi c.read_file c.write_file c.net nodes c.list_order parts cluster),
      )
      else if command == "partition-info"
      then with_response printed
          (handle_partition_info md5 atoi c.read_file c.write_file c.net nodes parts cluster)
      else if command == "mutex-put"
      then with_response printed (
          handle_mutex_put md5 atoi c.read_file c.write_file c.net nodes c.schedule c.has_manager
            c.now parts cluster)
      else if command == "deadlock-test"
      then with_response tested (handle_deadlock_test c.net nodes c.visits parts cluster)
      else if command == "help"
      then some (cluster, help print_help)
      else if command == "exit" || command == "quit"
      then some (cluster, goodbye)
      else some (cluster, unknown_command command)

  -- The lines that are read, each with what happens while its command runs. `none`: `parts[0]` or a
  -- handler panics.
  unfoldable pub session :
      (String → String)
      → (String → List String)
      → List (Choices × String)
      → Cluster
      → Option (Cluster × List Response)
  session trim_space fields [] cluster = some (cluster, [])
  session trim_space fields ((c, line) ∷ inputs) cluster =
      let input = trim_space line in
      if input == "" then session trim_space fields inputs cluster else elim (fields input) [
        | [] ↦ none
        | command ∷ parts ↦ elim (run_command c command (command ∷ parts) cluster) [
          | none ↦ none
          | some (after, response) ↦
              if ends response
              then some (after, response ∷ [])
              else elim (session trim_space fields inputs after) [
                | none ↦ none
                | some (final, responses) ↦ some (final, response ∷ responses)
              ]
        ]
      ]
