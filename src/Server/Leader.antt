-- ===== src/Server/Leader.antt =====
-- main.go: the leader of a cluster whose servers have all just started.
use dynamo_db.Prelude.{
  ℕ, ◌≡◌, ◌≢◌, refl, ap, ◌∙◌, String, true, false, Option, some, List, [], ◌∷◌, arith, ℤ, negsuc,
  int_key, text_key, ◌==◌, ==_iff, inl, inr, ◌⊎◌, Bool-cases,
}
use dynamo_db.GoMap.{lookup, empty, IsOrder}
use dynamo_db.Node.{
  Node, Config, get_address, get_node_address, get_other_nodes, get_higher_nodes, new_node,
}
use dynamo_db.Node.Storage.{Network, Cluster}
use dynamo_db.Node.Rpc.{is_answered}
use dynamo_db.Election.{Schedule, Turn, starts_up, take_turns}
use dynamo_db.Election.Calls.{someone_answers}
use dynamo_db.Election.Winner.{is_won, is_told}
use dynamo_db.Election.Settled.{IsSettled, AreInTime}
use dynamo_db.Election.Startup.{startup-settles}
use dynamo_db.Server.{boot_node, load_config, start_all}
use dynamo_db.Server.History.{
  AreBooted, IsOnline, start_all-AreBooted, dialed-address, booted-executed, others-listed,
}
use dynamo_db.Replicas.Linked.{reached-elem}

highest-wins :
    (net : Network) (schedule : Schedule) (n : Node) (cluster : Cluster)
    → get_higher_nodes n ≡ []
    → is_won net schedule n cluster ≡ true
unfolding someone_answers
highest-wins net schedule n cluster highest = rw highest refl

module _ (md5 : String → List ℕ) (config : Config) (net : Network) (cluster : Cluster)
    (booted : AreBooted md5 config cluster) (online : IsOnline config net cluster) where
  booted-told :
      (h j : ℤ) (n m : Node)
      → lookup h cluster ≡ some n
      → lookup j cluster ≡ some m
      → is_told net n j ≡ true
  unfolding boot_node new_node
  booted-told h j n m here there =
      let own : n.id ≡ h = ap (λ k. k.id) (booted h n here) in
      elim (Bool-cases (n.id == j)) [
        | inl same ↦ ground (arith, same)
        | inr other ↦ ground (
          arith,
          other,
          reached-elem net n j (get_other_nodes n)
              (booted-executed md5 config net cluster booted online h j n here
                (ground (arith, there)))
              (others-listed md5 config net cluster booted online h j n m here there
                (λ e. ground (arith, e, own, other, ==_iff n.id j))),
        )
      ]

  booted-answers :
      (h j : ℤ) (n m : Node)
      → lookup h cluster ≡ some n
      → lookup j cluster ≡ some m
      → net.answers (get_address n) ≡ true
      → is_answered net (get_node_address h m) cluster ≡ true
  unfolding is_answered
  booted-answers h j n m here there answers =
      let at = get_address n in
      let answered : is_answered net at cluster ≡ true =
        ground (arith, online.listens h n here, online.executes h n here, answers, here) in
      ap (λ a. is_answered net a cluster)
        (dialed-address md5 config net cluster booted online j h m n there here)
      ∙ answered

-- Servers that have all started from one configuration, each with an entry of its own ID and
-- reached where it listens, agree on the one with the highest configured ID once it has asked for a
-- leader, if its answers come back and the ID is not -1: after any turns of the monitors and of
-- further start-ups, in any order and with any monitors stopped, every node takes it for the
-- leader, and it alone takes itself for it. The heartbeats of the monitors are answered in time.
pub start_all-settles :
    (read_file : String → String ⊎ List ℕ) (unmarshal : List ℕ → String ⊎ Config)
    (md5 : String → List ℕ) (atoi : String → Option ℤ) (register : Node → Option String)
    (listen : String → Option String) (config : Config) (processes : List (List String))
    (cluster : Cluster) (net : Network) (h : ℤ) (n : Node) (schedule : Schedule) (turns : List Turn)
    → load_config read_file unmarshal "config.json" ≡ inr config
    → start_all read_file unmarshal md5 atoi register listen processes empty ≡ some cluster
    → IsOnline config net cluster
    → lookup h cluster ≡ some n
    → get_higher_nodes n ≡ []
    → h ≢ negsuc 0
    → net.answers (get_address n) ≡ true
    → IsOrder schedule.ask_order
    → IsOrder schedule.announce_order
    → AreInTime turns
    → IsSettled net h (take_turns net (starts_up h schedule false ∷ turns) ([], cluster)).1
unfolding lookup boot_node new_node
start_all-settles read_file unmarshal md5 atoi register listen config processes cluster net h n
      schedule turns file starts online here highest named answers asks announces soon =
    let booted =
      start_all-AreBooted read_file unmarshal md5 atoi register listen config file processes empty
        cluster (λ j m there. absurd (ground (arith, there))) starts in
    startup-settles net h schedule turns [] cluster n named asks announces here
      (ap (λ k. k.leader_id) (booted h n here)) (highest-wins net schedule n cluster highest)
      (λ j m there. ap (λ k. k.id) (booted j m there))
      (λ j m there. booted-told md5 config net cluster booted online h j n m here there)
      (λ j m there. booted-answers md5 config net cluster booted online h j n m here there answers)
      soon
