-- ===== src/Replicas/Linked.antt =====
-- node/rpc_handlers.go: clusters in which a write at one node reaches every node that keeps the
-- key.
use dynamo_db.Prelude.{
  ℕ, ◌≡◌, ◌≢◌, refl, sym, ap, ◌∙◌, String, Bool, true, false, none, some, List, [], ◌∷◌, arith, ℤ,
  int_key, Option-cases, Bool-cases, inl, inr, elem, ◌==◌, ==_iff, ◌||◌, if◌then◌else◌,
}
use dynamo_db.GoMap.{lookup, is_some}
use dynamo_db.Manager.{PartitionManager, is_enabled, get_partition_owners}
use dynamo_db.Manager.Valid.{IsValid}
use dynamo_db.Node.{Node, address_of, get_node_address, get_other_nodes}
use dynamo_db.Node.Fixed.{fixed}
use dynamo_db.Node.Storage.{Network, Cluster, others, target_nodes}
use dynamo_db.Node.Replication.{reached, executed_on}
use dynamo_db.Node.Rpc.{view}

-- Two clusters whose nodes differ only in what is not fixed.
abbrev pub AreAlike : Cluster → Cluster → Type 0
AreAlike c d = (j : ℤ) → view fixed j c ≡ view fixed j d

pub alike-lookup :
    (j : ℤ) (m : Node) (c d : Cluster)
    → AreAlike c d
    → lookup j c ≡ some m
    → (n : Node) × (lookup j d ≡ some n) × (fixed m ≡ fixed n)
unfolding view
alike-lookup j m c d alike here = elim (Option-cases (lookup j d)) [
  | inl gone ↦ absurd (ground (arith, alike j, here, gone))
  | inr (n, there) ↦ (n, there, ground (arith, alike j, here, there))
]

pub alike-members :
    (j : ℤ) (c d : Cluster) → AreAlike c d → is_some (lookup j c) ≡ is_some (lookup j d)
unfolding view
alike-members j c d alike = ground (arith, alike j)

address-fixed :
    (i : ℤ) (m n : Node) → fixed m ≡ fixed n → get_node_address i m ≡ get_node_address i n
unfolding get_node_address
address-fixed i m n same = ap (λ f. address_of i f.config.nodes) same

others-fixed : (m n : Node) → fixed m ≡ fixed n → get_other_nodes m ≡ get_other_nodes n
unfolding get_other_nodes
others-fixed m n same = rw (ap (λ f. f.id) same, ap (λ f. f.config) same) refl

-- Whether the node keeps the key: everyone with partitioning off, and the owners with it on.
unfoldable pub is_home : (String → List ℕ) → ℤ → String → PartitionManager → Bool
is_home md5 j key pm =
    if pm.enabled
    then elim (get_partition_owners md5 key pm) [ none ↦ false | some owners ↦ elem j owners ]
    else true

-- All nodes have the same valid partition manager, and a call to any other node of the cluster is
-- executed there.
pub record IsLinked (md5 : String → List ℕ) (net : Network) (pm : PartitionManager)
    (cluster : Cluster) : Type 0 where
  pub valid : IsValid md5 pm
  pub own : (j : ℤ) (n : Node) → lookup j cluster ≡ some n → n.id ≡ j
  pub shared : (j : ℤ) (n : Node) → lookup j cluster ≡ some n → n.partition_mgr ≡ pm
  pub listed :
      (j i : ℤ) (n : Node)
      → lookup j cluster ≡ some n
      → is_some (lookup i cluster) ≡ true
      → j ≢ i
      → elem i (get_other_nodes n) ≡ true
  pub linked :
      (j i : ℤ) (n : Node)
      → lookup j cluster ≡ some n
      → is_some (lookup i cluster) ≡ true
      → j ≢ i
      → executed_on net (get_node_address i n) i ≡ true

pub reached-elem :
    (net : Network) (n : Node) (i : ℤ) (targets : List ℤ)
    → executed_on net (get_node_address i n) i ≡ true
    → elem i targets ≡ true
    → reached net n i targets ≡ true
unfolding reached
reached-elem net n i [] executed among = among
reached-elem net n i (j ∷ targets) executed among = elim (Bool-cases (i == j)) [
  | inl here ↦
      let at = ap (λ k. executed_on net (get_node_address k n) i) (sym ((==_iff i j).0 here)) in
      ground (arith, at, executed)
  | inr there ↦
      ground (arith, there, among, ==_iff i j, ==_iff j i, reached-elem net n i targets executed)
]

elem-others :
    (id i : ℤ) (owners : List ℤ) → (id == i) ≡ false → elem i (others id owners) ≡ elem i owners
unfolding others
elem-others id i [] apart = refl
elem-others id i (j ∷ owners) apart =
    ground (arith, elem-others id i owners apart, apart, ==_iff j id, ==_iff id i, ==_iff j i)

-- The targets of a write are the other nodes that keep the key.
target_nodes-elem :
    (md5 : String → List ℕ) (key : String) (n : Node) (i : ℤ) (targets : List ℤ)
    → target_nodes md5 key n ≡ some targets
    → is_home md5 i key n.partition_mgr ≡ true
    → (n.id == i) ≡ false
    → elem i (get_other_nodes n) ≡ true
    → elem i targets ≡ true
unfolding target_nodes is_enabled is_home
target_nodes-elem md5 key n i targets e home apart listed =
    elim (Bool-cases n.partition_mgr.enabled) [
      | inl on ↦ elim (Option-cases (get_partition_owners md5 key n.partition_mgr)) [
        | inl panics ↦ absurd (ground (arith, on, panics, e))
        | inr (owners, f) ↦
            let all : targets ≡ others n.id owners = ground (arith, on, f, e) in
            ap (elem i) all ∙ elem-others n.id i owners apart ∙ ground (arith, on, f, home)
      ]
      | inr off ↦
          let all : targets ≡ get_other_nodes n = ground (arith, off, e) in ap (elem i) all ∙ listed
    ]

module _ (md5 : String → List ℕ) (net : Network) (pm : PartitionManager) where
  pub alike-IsLinked :
      (c d : Cluster) → AreAlike c d → IsLinked md5 net pm d → IsLinked md5 net pm c
  alike-IsLinked c d alike l = record {
    valid = l.valid;
    own = λ j m here.
        let (n, there, same) = alike-lookup j m c d alike here in
        ap (λ f. f.id) same ∙ l.own j n there;
    shared = λ j m here.
        let (n, there, same) = alike-lookup j m c d alike here in
        ap (λ f. f.partition_mgr) same ∙ l.shared j n there;
    listed = λ j i m here known apart.
        let (n, there, same) = alike-lookup j m c d alike here in
        ap (elem i) (others-fixed m n same)
        ∙ l.listed j i n there (sym (alike-members i c d alike) ∙ known) apart;
    linked = λ j i m here known apart.
        let (n, there, same) = alike-lookup j m c d alike here in
        ap (λ at. executed_on net at i) (address-fixed i m n same)
        ∙ l.linked j i n there (sym (alike-members i c d alike) ∙ known) apart;
  }

  -- A write reaches every node that keeps the key.
  pub home-reached :
      (key : String) (id j : ℤ) (n : Node) (targets : List ℤ) (cluster : Cluster)
      → IsLinked md5 net pm cluster
      → lookup id cluster ≡ some n
      → target_nodes md5 key n ≡ some targets
      → is_some (lookup j cluster) ≡ true
      → is_home md5 j key pm ≡ true
      → (n.id == j || reached net n j targets) ≡ true
  home-reached key id j n targets cluster l here e known home = elim (Bool-cases (n.id == j)) [
    | inl same ↦ ground (arith, same)
    | inr other ↦
        let apart : id ≢ j = λ same. ground (arith, other, same, l.own id n here, ==_iff n.id j) in
        let among =
          target_nodes-elem md5 key n j targets e
            (ap (is_home md5 j key) (l.shared id n here) ∙ home) other
            (l.listed id j n here known apart) in
        ground (arith, other, reached-elem net n j targets (l.linked id j n here known apart) among)
  ]
