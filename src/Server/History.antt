-- ===== src/Server/History.antt =====
-- main.go: a cluster whose servers have all just started, and the calls of clients to it.
use dynamo_db.Prelude.{
  ℕ, ◌≡◌, ◌≢◌, sym, ap, subst, ◌∙◌, String, true, Option, some, List, [], ◌∷◌, arith, ℤ, int_key,
  text_key, ◌==◌, ==_iff, elem, map, inl, inr, ◌⊎◌, Bool-cases, Option-cases,
}
use dynamo_db.GoMap.{lookup, insert, lookup-insert, empty, is_some}
use dynamo_db.Node.{
  Node, Config, address, address_of, get_address, get_node_address, get_other_nodes,
  get_all_node_ids, initial_partition_mgr, new_node,
}
use dynamo_db.Node.Leader.{peers_iff}
use dynamo_db.Node.Storage.{Network, Cluster}
use dynamo_db.Node.Replication.{stored, executed_on}
use dynamo_db.Replicas.{Step, State, calls_of, is_quiet, finish_all, run, apply_all}
use dynamo_db.Replicas.Linked.{IsLinked, is_home}
use dynamo_db.Replicas.Serves.{Holds, AreFair}
use dynamo_db.Replicas.Refinement.{run-refines}
use dynamo_db.Server.{Server, boot_node, load_config, start_server, start_all}
use dynamo_db.Server.Booted.{
  IsBooted, start_server-IsBooted, initial_partition_mgr-IsValid, find_config-address,
}

-- Every node of the cluster is under its ID and as its server has started it.
abbrev pub AreBooted : (String → List ℕ) → Config → Cluster → Type 0
AreBooted md5 config cluster =
    (j : ℤ) (n : Node) → lookup j cluster ≡ some n → n ≡ boot_node md5 j config

-- Every node has an entry in the configuration, and is reached where it listens.
pub record IsOnline (config : Config) (net : Network) (cluster : Cluster) : Type 0 where
  pub listed :
      (j : ℤ) (n : Node)
      → lookup j cluster ≡ some n
      → elem j (map (λ nc. nc.id) config.nodes) ≡ true
  pub listens :
      (j : ℤ) (n : Node) → lookup j cluster ≡ some n → net.listener (get_address n) ≡ some j
  pub executes :
      (j : ℤ) (n : Node) → lookup j cluster ≡ some n → net.executes (get_address n) ≡ true

module _ (read_file : String → String ⊎ List ℕ) (unmarshal : List ℕ → String ⊎ Config)
    (md5 : String → List ℕ) (atoi : String → Option ℤ) (register : Node → Option String)
    (listen : String → Option String) (config : Config)
    (file : load_config read_file unmarshal "config.json" ≡ inr config) where
  insert-AreBooted :
      (s : Server) (cluster : Cluster)
      → IsBooted md5 config s
      → AreBooted md5 config cluster
      → AreBooted md5 config (insert s.node.id s.node cluster)
  insert-AreBooted s cluster booted others j n here = elim (Bool-cases (s.node.id == j)) [
    | inl own ↦
        let same : s.node ≡ n =
          ground (arith, here, own, lookup-insert s.node.id j s.node cluster) in
        sym same ∙ booted.fresh ∙ ap (λ k. boot_node md5 k config) ((==_iff s.node.id j).0 own)
    | inr other ↦ others j n (ground (arith, here, other, lookup-insert s.node.id j s.node cluster))
  ]

  pub start_all-AreBooted :
      (processes : List (List String)) (before after : Cluster)
      → AreBooted md5 config before
      → start_all read_file unmarshal md5 atoi register listen processes before ≡ some after
      → AreBooted md5 config after
  unfolding start_all
  start_all-AreBooted [] before after booted e =
      subst (AreBooted md5 config) (ground (arith, e)) booted
  start_all-AreBooted (args ∷ processes) before after booted e =
      elim (Option-cases (start_server read_file unmarshal md5 atoi register listen args).1) [
        | inl ended ↦ absurd (ground (arith, e, ended))
        | inr (s, runs) ↦
            start_all-AreBooted processes (insert s.node.id s.node before) after
              (insert-AreBooted s before
                (start_server-IsBooted read_file unmarshal md5 atoi register listen args config s
                  file runs)
                booted)
              (ground (arith, e, runs))
      ]

module _ (md5 : String → List ℕ) (config : Config) (net : Network) (cluster : Cluster)
    (booted : AreBooted md5 config cluster) (online : IsOnline config net cluster) where
  pub dialed-address :
      (j i : ℤ) (n m : Node)
      → lookup j cluster ≡ some n
      → lookup i cluster ≡ some m
      → get_node_address i n ≡ get_address m
  unfolding boot_node new_node get_node_address get_address
  dialed-address j i n m here there =
      ap (λ k. address_of i k.config.nodes) (booted j n here)
      ∙ find_config-address i config.nodes (online.listed i m there)
      ∙ sym (ap (λ k. address k.ip k.port) (booted i m there))

  pub others-listed :
      (j i : ℤ) (n m : Node)
      → lookup j cluster ≡ some n
      → lookup i cluster ≡ some m
      → j ≢ i
      → elem i (get_other_nodes n) ≡ true
  unfolding boot_node new_node get_all_node_ids
  others-listed j i n m here there apart =
      let own : n.id ≡ j = ap (λ k. k.id) (booted j n here) in
      let ids = ap (λ k. elem i (map (λ nc. nc.id) k.config.nodes)) (booted j n here) in
      ground (arith, (peers_iff n i).1, own, ids, online.listed i m there, apart, ==_iff i n.id)

  pub booted-executed :
      (j i : ℤ) (n : Node)
      → lookup j cluster ≡ some n
      → is_some (lookup i cluster) ≡ true
      → executed_on net (get_node_address i n) i ≡ true
  unfolding executed_on
  booted-executed j i n here known = elim (Option-cases (lookup i cluster)) [
    | inl gone ↦ absurd (ground (arith, known, gone))
    | inr (m, there) ↦
        let executed : executed_on net (get_address m) i ≡ true =
          ground (arith, online.listens i m there, online.executes i m there, ==_iff i i) in
        ap (λ a. executed_on net a i) (dialed-address j i n m here there) ∙ executed
  ]

  booted-listed :
      (j i : ℤ) (n : Node)
      → lookup j cluster ≡ some n
      → is_some (lookup i cluster) ≡ true
      → j ≢ i
      → elem i (get_other_nodes n) ≡ true
  booted-listed j i n here known apart = elim (Option-cases (lookup i cluster)) [
    | inl gone ↦ absurd (ground (arith, known, gone))
    | inr (m, there) ↦ others-listed j i n m here there apart
  ]

  pub booted-IsLinked : IsLinked md5 net (initial_partition_mgr md5 config) cluster
  unfolding boot_node new_node
  booted-IsLinked = record {
    valid = initial_partition_mgr-IsValid md5 config;
    own = λ j n here. ap (λ m. m.id) (booted j n here);
    shared = λ j n here. ap (λ m. m.partition_mgr) (booted j n here);
    listed = booted-listed;
    linked = λ j i n here known apart. booted-executed j i n here known;
  }

  booted-Holds : Holds (λ j key. is_home md5 j key (initial_partition_mgr md5 config)) empty cluster
  unfolding boot_node new_node stored
  booted-Holds j k known keeps = elim (Option-cases (lookup j cluster)) [
    | inl gone ↦ absurd (ground (arith, known, gone))
    | inr (n, here) ↦
        let fresh = ap (λ m. lookup k m.data_store) (booted j n here) in ground (arith, here, fresh)
  ]

-- Servers that have all started from one configuration, each with an entry of its own ID and
-- reached where it listens, are one map, empty at first: take any calls of Put and MutexPut at any
-- of them, and of Delete and Get at those that keep the key (all with partitioning off, the owners
-- with it on), one after the other, with the goroutines of the Deletes run at any later steps, in
-- any order, or not at all, as long as no call on a key comes while a goroutine that deletes that
-- key has still to run. The calls all return and answer as the map does, and once the goroutines
-- that are left have run, every node stores what the map has then of the keys that it keeps.
pub start_all-refines :
    (read_file : String → String ⊎ List ℕ) (unmarshal : List ℕ → String ⊎ Config)
    (md5 : String → List ℕ) (atoi : String → Option ℤ) (register : Node → Option String)
    (listen : String → Option String) (config : Config) (processes : List (List String))
    (cluster : Cluster) (net : Network) (steps : List Step)
    → load_config read_file unmarshal "config.json" ≡ inr config
    → start_all read_file unmarshal md5 atoi register listen processes empty ≡ some cluster
    → IsOnline config net cluster
    → AreFair (λ j key. is_home md5 j key (initial_partition_mgr md5 config)) (calls_of steps)
    → is_quiet md5 net steps (record { cluster = cluster; pending = [] }) ≡ true
    → let (contents, answers) =
        apply_all (λ j. is_some (lookup j cluster)) (calls_of steps) empty in
      (final : State) × (run md5 net steps (record { cluster = cluster; pending = [] })
        ≡ some (final, answers))
      × Holds
          (λ j key. is_home md5 j key (initial_partition_mgr md5 config))
          contents
          (finish_all net final.pending final.cluster)
unfolding lookup
start_all-refines read_file unmarshal md5 atoi register listen config processes cluster net steps
      file starts online fair quiet =
    let booted =
      start_all-AreBooted read_file unmarshal md5 atoi register listen config file processes empty
        cluster (λ j n here. absurd (ground (arith, here))) starts in
    let (final, e, holds, linked) =
      run-refines md5 net (initial_partition_mgr md5 config) steps empty cluster fair quiet
        (booted-IsLinked md5 config net cluster booted online)
        (booted-Holds md5 config net cluster booted online) in
    (final, e, holds)
