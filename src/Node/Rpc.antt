-- ===== src/Node/Rpc.antt =====
-- One RPC between the nodes of a cluster: `rpc.Dial` and a call on the connection. What a node does
-- to its own state while it calls others is a change of the cluster at its ID.
use dynamo_db.Prelude.{
  ◌≡◌, refl, sym, ap, ◌∙◌, String, Bool, true, false, ◌&&◌, Option, none, some, arith, ℤ, pos,
  int_key, ◌==◌, ==_iff, Option-cases, inl, inr, if◌then◌else◌,
}
use dynamo_db.GoMap.{lookup, insert, lookup-insert, is_some}
use dynamo_db.Node.{Node, increment_clock}
use dynamo_db.Node.Storage.{Network, Cluster}
use dynamo_db.Node.Replication.{executed_on}

-- The handler runs at the node that listens at the address. The result is `none` where Dial fails,
-- where the call ends with an error, and where the caller's timeout comes first.
unfoldable pub call :
    {R : Type 0} → Network → String → (Node → Node × R) → Cluster → Cluster × Option R
call net at handler cluster = elim (net.listener at) [
  | none ↦ (cluster, none)
  | some peer ↦ elim (lookup peer cluster) [
    | none ↦ (cluster, none)
    | some n ↦
        if net.executes at
        then (
          insert peer (handler n).0 cluster,
          if net.answers at then some (handler n).1 else none,
        )
        else (cluster, none)
  ]
]

-- Dial succeeds.
unfoldable pub dials : Network → String → Bool
dials net at = is_some (net.listener at)

unfoldable pub modify : ℤ → (Node → Node) → Cluster → Cluster
modify id f cluster = elim (lookup id cluster) [ none ↦ cluster | some n ↦ insert id (f n) cluster ]

-- `IncrementClock` of the node, with the new time.
unfoldable pub increment_at : ℤ → Cluster → Cluster × ℤ
increment_at id cluster = elim (lookup id cluster) [
  | none ↦ (cluster, pos 0)
  | some n ↦ (insert id (increment_clock n).0 cluster, (increment_clock n).1)
]

-- What a part of the state of the node `j` is.
unfoldable pub view : {A : Type 0} → (Node → A) → ℤ → Cluster → Option A
view part j cluster = elim (lookup j cluster) [ none ↦ none | some n ↦ some (part n) ]

-- A call, as seen at one node.
module _ {A : Type 0} (part : Node → A) (j : ℤ) where
  -- A change that leaves the part alone.
  abbrev pub Preserves : {R : Type 0} → (Node → Node × R) → Type 0
  Preserves handler = (n : Node) → part (handler n).0 ≡ part n

  pub view-eq-some :
      (n : Node) (cluster : Cluster)
      → lookup j cluster ≡ some n
      → view part j cluster ≡ some (part n)
  unfolding view
  view-eq-some n cluster e = ground (arith, e)

  pub view-insert :
      (id : ℤ) (n : Node) (cluster : Cluster)
      → view part j (insert id n cluster) ≡ (if id == j then some (part n) else view part j cluster)
  unfolding view
  view-insert id n cluster = ground (arith, lookup-insert id j n cluster)

  pub call-keeps :
      {R : Type 0} (net : Network) (at : String) (handler : Node → Node × R) (cluster : Cluster)
      → Preserves handler
      → view part j (call net at handler cluster).0 ≡ view part j cluster
  unfolding call view
  call-keeps net at handler cluster keeps = elim (Option-cases (net.listener at)) [
    | inl nobody ↦ ground (arith, nobody)
    | inr (peer, listens) ↦ elim (Option-cases (lookup peer cluster)) [
      | inl gone ↦ ground (arith, listens, gone)
      | inr (n, e) ↦
          ground
            (arith, listens, e, keeps n, ==_iff peer j, lookup-insert peer j (handler n).0 cluster)
    ]
  ]

  pub modify-keeps :
      (id : ℤ) (f : Node → Node) (cluster : Cluster)
      → ((n : Node) → part (f n) ≡ part n)
      → view part j (modify id f cluster) ≡ view part j cluster
  unfolding modify view
  modify-keeps id f cluster keeps = elim (Option-cases (lookup id cluster)) [
    | inl gone ↦ ground (arith, gone)
    | inr (n, e) ↦ ground (arith, e, keeps n, ==_iff id j, lookup-insert id j (f n) cluster)
  ]

  pub increment_at-keeps :
      (id : ℤ) (cluster : Cluster)
      → ((n : Node) → part (increment_clock n).0 ≡ part n)
      → view part j (increment_at id cluster).0 ≡ view part j cluster
  unfolding increment_at view
  increment_at-keeps id cluster keeps = elim (Option-cases (lookup id cluster)) [
    | inl gone ↦ ground (arith, gone)
    | inr (n, e) ↦
        ground (arith, e, keeps n, ==_iff id j, lookup-insert id j (increment_clock n).0 cluster)
  ]

  -- After a call, the part is what the handler makes it where the call is executed.
  pub view-call :
      {R : Type 0} (net : Network) (at : String) (handler : Node → Node × R) (cluster : Cluster)
      → view part j (call net at handler cluster).0 ≡ (
          if executed_on net at j
          then view (λ m. part (handler m).0) j cluster
          else view part j cluster)
  unfolding call view executed_on
  view-call net at handler cluster = elim (Option-cases (net.listener at)) [
    | inl nobody ↦ ground (arith, nobody)
    | inr (peer, listens) ↦ elim (Option-cases (lookup peer cluster)) [
      | inl gone ↦ ground (arith, listens, gone, ==_iff peer j)
      | inr (n, e) ↦
          ground (arith, listens, e, ==_iff peer j, lookup-insert peer j (handler n).0 cluster)
    ]
  ]

  pub view-modify :
      (id : ℤ) (f : Node → Node) (cluster : Cluster)
      → view part j (modify id f cluster)
        ≡ (if id == j then view (λ m. part (f m)) j cluster else view part j cluster)
  unfolding modify view
  view-modify id f cluster = elim (Option-cases (lookup id cluster)) [
    | inl gone ↦ ground (arith, gone, ==_iff id j)
    | inr (n, e) ↦ ground (arith, e, ==_iff id j, lookup-insert id j (f n) cluster)
  ]

-- The call is executed at a node of the cluster and answered.
unfoldable pub is_answered : Network → String → Cluster → Bool
is_answered net at cluster = elim (net.listener at) [
  | none ↦ false
  | some peer ↦ (is_some (lookup peer cluster) && net.executes at) && net.answers at
]

-- Two clusters of the same nodes.
abbrev pub SameMembers : Cluster → Cluster → Type 0
SameMembers c d = (j : ℤ) → is_some (lookup j c) ≡ is_some (lookup j d)

pub is_answered-members :
    (net : Network) (at : String) (c d : Cluster)
    → SameMembers c d
    → is_answered net at c ≡ is_answered net at d
unfolding is_answered
is_answered-members net at c d same = elim (Option-cases (net.listener at)) [
  | inl nobody ↦ ground (arith, nobody)
  | inr (peer, listens) ↦ ground (arith, listens, same peer)
]

is_some-view : (j : ℤ) (c : Cluster) → is_some (lookup j c) ≡ is_some (view (λ m. true) j c)
unfolding view
is_some-view j c = ground arith

pub call-members :
    {R : Type 0} (net : Network) (at : String) (handler : Node → Node × R) (cluster : Cluster)
    → SameMembers (call net at handler cluster).0 cluster
call-members net at handler cluster j =
    is_some-view j (call net at handler cluster).0
    ∙ ap is_some (call-keeps (λ m. true) j net at handler cluster (λ n. refl))
    ∙ sym (is_some-view j cluster)

pub increment_at-members :
    (id : ℤ) (cluster : Cluster) → SameMembers (increment_at id cluster).0 cluster
increment_at-members id cluster j =
    is_some-view j (increment_at id cluster).0
    ∙ ap is_some (increment_at-keeps (λ m. true) j id cluster (λ n. refl))
    ∙ sym (is_some-view j cluster)
