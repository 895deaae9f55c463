-- ===== src/Client/Leader.antt =====
-- client/client.go and election/bully.go: the leader that the client finds after an election.
use dynamo_db.Prelude.{
  ◌≡◌, inl, inr, String, Bool, true, false, some, List, [], ◌∷◌, map, arith, ℤ, int_key, ◌==◌,
  ==_iff, ==_refl, elem, Option-cases, Bool-cases,
}
use dynamo_db.GoMap.{IsOrder, lookup, is_some}
use dynamo_db.Node.{Node, NodeConfig}
use dynamo_db.Node.Handlers.{StatusReply, status}
use dynamo_db.Node.Storage.{Network, Cluster}
use dynamo_db.Node.Rpc.{call, view}
use dynamo_db.Election.{Schedule, start_election}
use dynamo_db.Election.Winner.{is_won, is_told, leads, start_election-elects}
use dynamo_db.Client.{connect_to_node, find_leader}

-- The client's connection to a configured node is one to that node.
abbrev pub IsListed : Network → List NodeConfig → Type 0
IsListed net nodes =
    (id : ℤ) (at : String) → connect_to_node net nodes id ≡ some at → net.listener at ≡ some id

-- A node stands in the cluster under its own ID.
abbrev pub IsNamed : Cluster → Type 0
IsNamed cluster = (j : ℤ) (m : Node) → lookup j cluster ≡ some m → m.id ≡ j

status-call :
    (net : Network) (at : String) (id : ℤ) (cluster : Cluster) (reply : StatusReply)
    → net.listener at ≡ some id
    → (call net at (λ n. (n, status n)) cluster).1 ≡ some reply
    → view leads id cluster ≡ some reply.is_leader
unfolding call view status
status-call net at id cluster reply listens e = elim (Option-cases (lookup id cluster)) [
  | inl gone ↦ absurd (ground (arith, listens, gone, e))
  | inr (m, here) ↦ ground (arith, listens, here, e)
]

module _ (net : Network) (nodes : List NodeConfig) (cluster : Cluster) (leader : ℤ) (at : String)
    (reply : StatusReply) (listed : IsListed net nodes)
    (alone : (j : ℤ) (b : Bool) → view leads j cluster ≡ some b → b ≡ (leader == j))
    (connects : connect_to_node net nodes leader ≡ some at)
    (answers : (call net at (λ n. (n, status n)) cluster).1 ≡ some reply) where
  -- The only leader is found, if it is configured.
  find_leader-alone :
      (ncs : List NodeConfig)
      → elem leader (map (λ nc. nc.id) ncs) ≡ true
      → find_leader net nodes ncs cluster ≡ some (leader, at)
  unfolding find_leader
  find_leader-alone [] known = absurd (ground (arith, known))
  find_leader-alone (nc ∷ ncs) known = elim (Bool-cases (leader == nc.id)) [
    | inl same ↦
        let leading =
          alone leader reply.is_leader
            (status-call net at leader cluster reply (listed leader at connects) answers) in
        ground (arith, ==_iff leader nc.id, same, connects, answers, leading, ==_refl leader)
    | inr other ↦
        let rest =
          find_leader-alone ncs
            (ground (arith, known, other, ==_iff nc.id leader, ==_iff leader nc.id)) in
        elim (Option-cases (connect_to_node net nodes nc.id)) [
          | inl down ↦ ground (arith, down, rest)
          | inr (at', up) ↦ elim (Option-cases (call net at' (λ n. (n, status n)) cluster).1) [
            | inl lost ↦ ground (arith, up, lost, rest)
            | inr (r, e) ↦
                let following =
                  alone nc.id r.is_leader
                    (status-call net at' nc.id cluster r (listed nc.id at' up) e) in
                ground (arith, up, e, following, other, rest)
          ]
        ]
  ]

-- After a won election of which every node of the cluster is told.
elected-alone :
    (net : Network) (schedule : Schedule) (n : Node) (cluster : Cluster)
    → IsOrder schedule.ask_order
    → IsOrder schedule.announce_order
    → IsNamed cluster
    → is_won net schedule n cluster ≡ true
    → ((j : ℤ) → is_some (lookup j cluster) ≡ true → is_told net n j ≡ true)
    → (j : ℤ) (b : Bool) → view leads j (start_election net schedule false n cluster) ≡ some b
    → b ≡ (n.id == j)
unfolding view
elected-alone net schedule n cluster asks announces named won told j b e =
    let elected = (start_election-elects net schedule false n cluster asks announces j).1 in
    elim (Option-cases (lookup j cluster)) [
      | inl gone ↦ absurd (ground (arith, elected, won, gone, e))
      | inr (m, here) ↦
          ground (arith, elected, won, here, told j (ground (arith, here)), named j m here, e)
    ]

-- Once a node has won an election and every node of the cluster is told, the client finds that node
-- as the leader, in whatever order the nodes are configured: if connections to configured IDs are
-- connections to those nodes, the winner is configured and a connection to it is answered.
pub find_leader-elected :
    (net : Network) (nodes : List NodeConfig) (schedule : Schedule) (n : Node) (cluster : Cluster)
    (at : String) (reply : StatusReply)
    → IsOrder schedule.ask_order
    → IsOrder schedule.announce_order
    → IsListed net nodes
    → IsNamed cluster
    → is_won net schedule n cluster ≡ true
    → ((j : ℤ) → is_some (lookup j cluster) ≡ true → is_told net n j ≡ true)
    → elem n.id (map (λ nc. nc.id) nodes) ≡ true
    → connect_to_node net nodes n.id ≡ some at
    → (call net at (λ m. (m, status m)) (start_election net schedule false n cluster)).1
      ≡ some reply
    → find_leader net nodes nodes (start_election net schedule false n cluster) ≡ some (n.id, at)
find_leader-elected net nodes schedule n cluster at reply asks announces listed named won told known
      connects answers =
    find_leader-alone net nodes (start_election net schedule false n cluster) n.id at reply listed
      (elected-alone net schedule n cluster asks announces named won told) connects answers nodes
      known
