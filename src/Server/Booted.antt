-- ===== src/Server/Booted.antt =====
-- main.go: the state in which a server starts.
use dynamo_db.Prelude.{
  show, ℕ, ◌≡◌, refl, sym, ap, ◌∙◌, String, true, false, Option, none, some, List, [], ◌∷◌, arith,
  ℤ, pos, int_key, ◌==◌, ==_iff, elem, map, inl, inr, ◌⊎◌, Bool-cases, Option-cases,
}
use dynamo_db.Manager
use dynamo_db.Manager.{PartitionManager, new_partition_manager}
use dynamo_db.Manager.Valid.{IsValid, call, call-IsValid, adds}
use dynamo_db.Ring.Invariant.{new-IsWellFormed}
use mathlib.Core.List.Perm
use dynamo_db.Node.{
  Node, NodeConfig, Config, find_config, address, address_of, get_address, get_node_address,
  add_all_nodes, initial_partition_mgr, new_node,
}
use dynamo_db.Server.{Server, boot_node, load_config, serve_node, start_server}

-- The ring with the nodes of the configuration on it.
module _ (md5 : String → List ℕ) where
  add_all_nodes-IsValid :
      (ncs : List NodeConfig) (pm : PartitionManager)
      → IsValid md5 pm
      → IsValid md5 (add_all_nodes md5 ncs pm)
  unfolding add_all_nodes call
  add_all_nodes-IsValid [] pm v = v
  add_all_nodes-IsValid (nc ∷ ncs) pm v =
      add_all_nodes-IsValid ncs (Manager.add_node md5 nc.id pm)
        (call-IsValid md5 (λ xs. xs) (λ xs. Perm.refl xs) (adds nc.id) pm v)

  pub initial_partition_mgr-IsValid :
      (config : Config) → IsValid md5 (initial_partition_mgr md5 config)
  unfolding initial_partition_mgr new_partition_manager
  initial_partition_mgr-IsValid config =
      add_all_nodes-IsValid config.nodes _
        (record { well_formed = new-IsWellFormed md5 (pos 160); positive = ground arith })

-- The entry of a configured ID is the one whose address the other nodes dial.
pub find_config-address :
    (id : ℤ) (ncs : List NodeConfig)
    → elem id (map (λ nc. nc.id) ncs) ≡ true
    → address_of id ncs ≡ address (find_config id ncs).ip (find_config id ncs).port
unfolding address_of find_config
find_config-address id [] known = absurd (ground (arith, known))
find_config-address id (nc ∷ ncs) known = elim (Bool-cases (nc.id == id)) [
  | inl here ↦ rw here refl
  | inr there ↦
      rw there (find_config-address id ncs (ground (arith, known, there, ==_iff nc.id id)))
]

-- What a server's configuration and its ID make of it.
pub record IsBooted (md5 : String → List ℕ) (config : Config) (s : Server) : Type 0 where
  pub fresh : s.node ≡ boot_node md5 s.node.id config
  pub at_own : s.address ≡ get_address s.node

serve_node-keeps :
    (register : Node → Option String) (listen : String → Option String) (n : Node) (s : Server)
    → (serve_node register listen n).1 ≡ some s
    → (s.node ≡ n) × (s.address ≡ get_address n)
unfolding serve_node
serve_node-keeps register listen n s e = ground (arith, e)

module _ (read_file : String → String ⊎ List ℕ) (unmarshal : List ℕ → String ⊎ Config)
    (md5 : String → List ℕ) (atoi : String → Option ℤ) (register : Node → Option String)
    (listen : String → Option String) where
  pub start_server-IsBooted :
      (args : List String) (config : Config) (s : Server)
      → load_config read_file unmarshal "config.json" ≡ inr config
      → (start_server read_file unmarshal md5 atoi register listen args).1 ≡ some s
      → IsBooted md5 config s
  unfolding start_server boot_node new_node
  start_server-IsBooted [] config s file e = absurd (ground (arith, e))
  start_server-IsBooted (program ∷ []) config s file e = absurd (ground (arith, e))
  start_server-IsBooted (program ∷ id ∷ args) config s file e = elim (Option-cases (atoi id)) [
    | inl invalid ↦ absurd (ground (arith, e, invalid))
    | inr (node_id, named) ↦
        let (node, address) =
          serve_node-keeps register listen (boot_node md5 node_id config) s
            (ground (arith, e, named, file)) in
        record {
          fresh = node ∙ ap (λ k. boot_node md5 k config) (sym (ap (λ n. n.id) node));
          at_own = address ∙ ap get_address (sym node);
        }
  ]

unlisted-config :
    (id : ℤ) (ncs : List NodeConfig)
    → elem id (map (λ nc. nc.id) ncs) ≡ false
    → (address_of id ncs ≡ "") × (find_config id ncs ≡ record { id = pos 0; ip = ""; port = pos 0 })
unfolding address_of find_config
unlisted-config id [] unlisted = (refl, refl)
unlisted-config id (nc ∷ ncs) unlisted =
    let rest = unlisted-config id ncs (ground (arith, unlisted)) in
    ground (arith, unlisted, rest.0, rest.1, ==_iff nc.id id, ==_iff id nc.id)

unlisted-address :
    (md5 : String → List ℕ) (id : ℤ) (config : Config)
    → elem id (map (λ nc. nc.id) config.nodes) ≡ false
    → get_address (boot_node md5 id config) ≡ ":0"
unfolding boot_node new_node get_address address show
unlisted-address md5 id config unlisted =
    ap (λ nc. address nc.ip nc.port) (unlisted-config id config.nodes unlisted).1

serve_node-starts :
    (register : Node → Option String) (listen : String → Option String) (n : Node) (at : String)
    → register n ≡ none
    → get_address n ≡ at
    → listen at ≡ none
    → (serve_node register listen n).1 ≡ some (record { node = n; address = at })
unfolding serve_node
serve_node-starts register listen n at registers here listens =
    ground (arith, registers, here, listens, ap listen here)

-- A server whose ID has no entry in the configuration starts all the same, where it registers and
-- ":0", which is any free port, can be listened on; and any server of the configuration has no
-- address for it.
pub unlisted-starts :
    (read_file : String → String ⊎ List ℕ) (unmarshal : List ℕ → String ⊎ Config)
    (md5 : String → List ℕ) (atoi : String → Option ℤ) (register : Node → Option String)
    (listen : String → Option String) (program text : String) (args : List String) (id other : ℤ)
    (config : Config)
    → atoi text ≡ some id
    → load_config read_file unmarshal "config.json" ≡ inr config
    → elem id (map (λ nc. nc.id) config.nodes) ≡ false
    → register (boot_node md5 id config) ≡ none
    → listen ":0" ≡ none
    → ((start_server read_file unmarshal md5 atoi register listen (program ∷ text ∷ args)).1
        ≡ some (record { node = boot_node md5 id config; address = ":0" }))
      × (get_node_address id (boot_node md5 other config) ≡ "")
unfolding start_server boot_node new_node get_node_address
unlisted-starts read_file unmarshal md5 atoi register listen program text args id other config named
      file unlisted registers listens =
    let n = boot_node md5 id config in
    let served =
      serve_node-starts register listen n ":0" registers (unlisted-address md5 id config unlisted)
        listens in
    (ground (arith, named, file, served), (unlisted-config id config.nodes unlisted).0)
