-- ===== src/Replicas/Serves.antt =====
-- node/rpc_handlers.go: one call at a node of a linked cluster does what it does to one map.
use dynamo_db.Prelude.{
  ℕ, ◌≡◌, refl, sym, ap, subst, ◌∙◌, String, Bool, true, false, ◌&&◌, ◌||◌, none, some, List, [],
  ◌∷◌, arith, ℤ, int_key, text_key, ◌==◌, ==_iff, if◌then◌else◌, Option-cases, Bool-cases, inl, inr,
}
use dynamo_db.GoMap.{lookup, insert, lookup-insert, lookup-delete, is_some}
use dynamo_db.Manager.{PartitionManager}
use dynamo_db.Manager.Valid.{IsValid}
use dynamo_db.Node.{Node, StoredItem, increment_clock}
use dynamo_db.Node.Fixed.{fixed, replace-keeps, put-keeps, put_local-fixed, get-fixed}
use dynamo_db.Node.Storage.{
  PutArgs, DeleteArgs, GetArgs, Network, Cluster, target_nodes, get, get_reply, delete_local,
}
use dynamo_db.Node.Replication.{stored, reached, put-stores}
use dynamo_db.Mutex.{Schedule, MutexPutArgs}
use dynamo_db.Mutex.Fixed.{mutex_put-fixed}
use dynamo_db.Mutex.Stores.{data_of, at_key, stored-eq}
use dynamo_db.Mutex.Put.{mutex_put-stores}
use dynamo_db.Replicas.{
  Operation, put_at, mutex_put_at, delete_at, get_at, found, item_found, operate, node_of, key_of,
  State, propagations, join_pending, is_pending, Contents, apply,
}
use dynamo_db.Replicas.Pending.{
  erased, erased-is_pending, erased-join_pending, begin_delete-starts, begin_delete-fixed,
}
use dynamo_db.Replicas.Linked.{AreAlike, alike-members, IsLinked, is_home, home-reached}

-- Every node of the cluster stores what the contents have of the keys that it keeps.
abbrev pub Holds : (ℤ → String → Bool) → Contents → Cluster → Type 0
Holds home m cluster =
    (j : ℤ) (k : String)
    → is_some (lookup j cluster) ≡ true
    → home j k ≡ true
    → stored cluster j k ≡ lookup k m

-- A Delete or a Get is made at a node that keeps the key.
abbrev pub IsFair : (ℤ → String → Bool) → Operation → Type 0
IsFair home (delete_at id key time) = home id key ≡ true
IsFair home (get_at id key) = home id key ≡ true
IsFair home _ = Unit

abbrev pub AreFair : (ℤ → String → Bool) → List Operation → Type 0
AreFair home [] = Unit
AreFair home (op ∷ ops) = IsFair home op × AreFair home ops

stored-lookup :
    (id : ℤ) (n : Node) (cluster : Cluster) (k : String)
    → lookup id cluster ≡ some n
    → stored cluster id k ≡ lookup k n.data_store
unfolding stored
stored-lookup id n cluster k e = ground (arith, e)

item_found-get_reply :
    (key : String) (n : Node)
    → item_found (get_reply (record { key = key }) n) ≡ lookup key n.data_store
unfolding item_found get_reply
item_found-get_reply key n = elim (Option-cases (lookup key n.data_store)) [
  | inl gone ↦ ground (arith, gone)
  | inr (item, e) ↦ ground (arith, e)
]

get-data : (args : GetArgs) (n : Node) → data_of (get args n).0 ≡ data_of n
unfolding get increment_clock
get-data args n = refl

get-reply : (args : GetArgs) (n : Node) → (get args n).1 ≡ get_reply args n
unfolding get
get-reply args n = refl

module _ (md5 : String → List ℕ) (net : Network) (pm : PartitionManager) where
  abbrev pub home : ℤ → String → Bool
  home j key = is_home md5 j key pm

  -- Every node stores, once the pending goroutines have run, what the contents have.
  abbrev pub Settles : Contents → State → Type 0
  Settles m s =
      (j : ℤ) (k : String)
      → is_some (lookup j s.cluster) ≡ true
      → home j k ≡ true
      → (if erased net s.pending j k then none else stored s.cluster j k) ≡ lookup k m

  -- An operation at the node `n` does what it does to the contents.
  abbrev pub Serves : Operation → Node → Contents → State → Type 0
  Serves op n m s =
      (after : State) × (operate md5 net op n s ≡ some (after, (apply op m).1))
      × Settles (apply op m).0 after
      × AreAlike after.cluster s.cluster

  module _ (id : ℤ) (n : Node) (m : Contents) (s : State) (l : IsLinked md5 net pm s.cluster)
      (here : lookup id s.cluster ≡ some n) (settles : Settles m s) where
    at_own : lookup n.id s.cluster ≡ some n
    at_own = ap (λ i. lookup i s.cluster) (l.own id n here) ∙ here

    valid : IsValid md5 n.partition_mgr
    valid = subst (IsValid md5) (sym (l.shared id n here)) l.valid

    homes :
        (key : String) (targets : List ℤ)
        → target_nodes md5 key n ≡ some targets
        → (j : ℤ) (k : String) → is_some (lookup j s.cluster) ≡ true
        → home j k ≡ true
        → (key == k) ≡ true
        → (n.id == j || reached net n j targets) ≡ true
    homes key targets e j k known keeps same =
        home-reached md5 net pm key id j n targets s.cluster l here e known
          (ap (home j) ((==_iff key k).0 same) ∙ keeps)

    -- No goroutine deletes the key of a call.
    spared :
        (key : String)
        → is_pending key s.pending ≡ false
        → (j : ℤ) (k : String) → (key == k) ≡ true
        → erased net s.pending j k ≡ false
    spared key quiet j k same =
        ap (erased net s.pending j) (sym ((==_iff key k).0 same))
        ∙ erased-is_pending net s.pending j key quiet

    own-stored :
        (key : String)
        → is_pending key s.pending ≡ false
        → home id key ≡ true
        → lookup key n.data_store ≡ lookup key m
    own-stored key quiet at_home = ground (
      arith,
      stored-lookup id n s.cluster key here,
      settles id key (ground (arith, here)) at_home,
      erased-is_pending net s.pending id key quiet,
    )

    -- A write of an item that reaches all targets.
    written-Settles :
        (key : String) (item : StoredItem) (targets : List ℤ) (after : Cluster)
        → is_pending key s.pending ≡ false
        → target_nodes md5 key n ≡ some targets
        → AreAlike after s.cluster
        → ((j : ℤ) (k : String)
            → stored after j k ≡ (
                if (n.id == j || reached net n j targets && is_some (lookup j s.cluster))
                  && key == k
                then some item
                else stored s.cluster j k))
        → Settles (insert key item m) (record s { cluster = after })
    written-Settles key item targets after quiet e alike stores j k known keeps =
        let member = sym (alike-members j after s.cluster alike) ∙ known in
        ground (
          arith,
          stores j k,
          member,
          homes key targets e j k member keeps,
          spared key quiet j k,
          lookup-insert key k item m,
          settles j k member keeps,
        )

    put-Serves :
        (key : String) (value : List ℕ) (time : ℤ)
        → is_pending key s.pending ≡ false
        → Serves (put_at id key value time) n m s
    unfolding operate apply
    put-Serves key value time quiet =
        let args : PutArgs = record {
          key = key;
          value = value;
          timestamp = time;
          is_replica = false;
        } in
        let (targets, after, reply, e, returns, success, stores) =
          put-stores md5 net args n s.cluster valid at_own refl in
        let alike : AreAlike after s.cluster = λ j.
          put-keeps fixed j put_local-fixed md5 net args n s.cluster after reply at_own returns in
        (
          record s { cluster = after },
          ground (arith, returns, success),
          written-Settles key (record { value = value; timestamp = time }) targets after quiet e
              alike stores,
          alike,
        )

    mutex_put-Serves :
        (schedule : Schedule) (key : String) (value : List ℕ) (time : ℤ)
        → is_pending key s.pending ≡ false
        → Serves (mutex_put_at id schedule key value time) n m s
    unfolding operate apply
    mutex_put-Serves schedule key value time quiet =
        let args : MutexPutArgs = record { key = key; value = value; timestamp = time } in
        let (targets, after, reply, e, returns, success, stores) =
          mutex_put-stores md5 net schedule true args n s.cluster valid at_own in
        let alike : AreAlike after s.cluster = λ j.
          mutex_put-fixed j md5 net args schedule true n s.cluster after reply at_own returns in
        (
          record s { cluster = after },
          ground (arith, returns, success),
          written-Settles key (record { value = value; timestamp = time }) targets after quiet e
              alike stores,
          alike,
        )

    delete-Serves :
        (key : String) (time : ℤ)
        → is_pending key s.pending ≡ false
        → home id key ≡ true
        → Serves (delete_at id key time) n m s
    unfolding operate apply
    delete-Serves key time quiet at_home =
        let args : DeleteArgs = record { key = key; timestamp = time; is_replica = false } in
        let same = own-stored key quiet at_home in
        let (targets, after, reply, begins, success, e, started) =
          begin_delete-starts net md5 args n s.cluster valid at_own refl in
        let new = propagations (delete_local args n).0 args targets in
        let final : State = record { cluster = after; pending = join_pending s.pending new } in
        let alike : AreAlike after s.cluster =
          λ j. begin_delete-fixed net md5 args n s.cluster after reply targets at_own begins j in
        (
          final,
          ground (arith, begins, success, same),
          λ j k known keeps.
              let member = sym (alike-members j after s.cluster alike) ∙ known in
              let same_key : (key == k) ≡ true → lookup k m ≡ lookup key n.data_store =
                λ eq. ap (λ x. lookup x m) (sym ((==_iff key k).0 eq)) ∙ sym same in
              let (stores, erases) = started j k in
              elim (Bool-cases (is_some (lookup key n.data_store))) [
                | inl has ↦ ground (
                  arith,
                  stores,
                  erases,
                  has,
                  homes key targets (e has) j k member keeps,
                  spared key quiet j k,
                  erased-join_pending net s.pending new j k,
                  lookup-delete key k m,
                  settles j k member keeps,
                )
                | inr lacks ↦ ground (
                  arith,
                  stores,
                  erases,
                  lacks,
                  same_key,
                  spared key quiet j k,
                  erased-join_pending net s.pending new j k,
                  lookup-delete key k m,
                  settles j k member keeps,
                )
              ],
          alike,
        )

    get-Serves :
        (key : String)
        → is_pending key s.pending ≡ false
        → home id key ≡ true
        → Serves (get_at id key) n m s
    unfolding operate apply
    get-Serves key quiet at_home =
        let args : GetArgs = record { key = key } in
        let after = insert n.id (get args n).0 s.cluster in
        let alike : AreAlike after s.cluster =
          λ j. replace-keeps fixed j n.id n (get args n).0 s.cluster at_own (get-fixed args n) in
        (
          record s { cluster = after },
          ap (λ r. some (record s { cluster = after }, found (item_found r))) (get-reply args n)
              ∙ ap (λ o. some (record s { cluster = after }, found o))
                  (item_found-get_reply key n ∙ own-stored key quiet at_home),
          λ j k known keeps.
              ap (λ o. if erased net s.pending j k then none else o)
                (stored-eq after j k
                  ∙ ap (at_key k) (
                      replace-keeps data_of j n.id n (get args n).0 s.cluster at_own
                        (get-data args n))
                  ∙ sym (stored-eq s.cluster j k))
              ∙ settles j k (sym (alike-members j after s.cluster alike) ∙ known) keeps,
          alike,
        )

  -- A call on a key for which no goroutine is pending.
  pub operate-Serves :
      (op : Operation) (n : Node) (m : Contents) (s : State)
      → IsFair home op
      → is_pending (key_of op) s.pending ≡ false
      → IsLinked md5 net pm s.cluster
      → lookup (node_of op) s.cluster ≡ some n
      → Settles m s
      → Serves op n m s
  operate-Serves (put_at id key value time) n m s fair quiet l here settles =
      put-Serves id n m s l here settles key value time quiet
  operate-Serves (mutex_put_at id schedule key value time) n m s fair quiet l here settles =
      mutex_put-Serves id n m s l here settles schedule key value time quiet
  operate-Serves (delete_at id key time) n m s fair quiet l here settles =
      delete-Serves id n m s l here settles key time quiet fair
  operate-Serves (get_at id key) n m s fair quiet l here settles =
      get-Serves id n m s l here settles key quiet fair
