-- ===== src/Client/Help.antt =====
-- client/client.go: the constant text of the greeting and of the command help.
use dynamo_db.Prelude.{String, List, [], ◌∷◌}

unfoldable pub greeting : List String
greeting =
    "====================================" ∷ "   DISTRIBUTED SYSTEM CLIENT"
    ∷ "====================================" ∷ "" ∷ "Commands:"
    ∷ "  put <node_id> <key> <filename>  - Store file (replicated)"
    ∷ "  get <node_id> <key>             - Retrieve file"
    ∷ "  delete <node_id> <key>          - Delete key"
    ∷ "  partition-info <node_id> <key>  - Show partition ownership"
    ∷ "  status                          - Show all nodes status"
    ∷ "  status <node_id>                - Show specific node status"
    ∷ "  list <node_id>                  - List keys on node"
    ∷ "  mutex-put <key> <filename>      - Put with mutual exclusion"
    ∷ "  deadlock-test <resource>         - Test DAG deadlock detection"
    ∷ "  help                            - Show this help"
    ∷ "  exit                            - Quit" ∷ "" ∷ "====================================" ∷ ""
    ∷ []

unfoldable pub print_help : List String
print_help =
    "====================================" ∷ "         AVAILABLE COMMANDS"
    ∷ "====================================" ∷ "" ∷ "Basic Operations:"
    ∷ "  put <node_id> <key> <filename>" ∷ "      Store a file (auto-replicates to all nodes)" ∷ ""
    ∷ "  get <node_id> <key>" ∷ "      Retrieve a file from any node" ∷ ""
    ∷ "  delete <node_id> <key>" ∷ "      Delete a key from specific node" ∷ "" ∷ "Status:"
    ∷ "  status" ∷ "      Show status of all nodes" ∷ "" ∷ "  status <node_id>"
    ∷ "      Show status of specific node" ∷ "" ∷ "  list <node_id>"
    ∷ "      List all keys on specific node" ∷ "" ∷ "Partitioning:"
    ∷ "  partition-info <node_id> <key>" ∷ "      Show partition ownership info for a key"
    ∷ "      (shows which nodes store this key)" ∷ "" ∷ "Advanced (Algorithms Demo):"
    ∷ "  mutex-put <key> <filename>" ∷ "      Store with mutual exclusion (Ricart-Agrawala)"
    ∷ "      Requests critical section from all nodes before writing" ∷ ""
    ∷ "  deadlock-test <resource>" ∷ "      Test DAG deadlock detection (Wait-For Graph)"
    ∷ "      Creates circular dependency, detects cycle, resolves" ∷ "" ∷ "Other:"
    ∷ "  help    - Show this help" ∷ "  exit    - Quit the client" ∷ ""
    ∷ "====================================" ∷ []
