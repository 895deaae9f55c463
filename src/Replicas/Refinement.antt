-- ===== src/Replicas/Refinement.antt =====
-- node/rpc_handlers.go: a linked cluster answers the calls of a history like one map.
use dynamo_db.Prelude.{
  ℕ, ◌≡◌, refl, sym, ap, subst, ◌∙◌, String, Bool, true, false, some, List, [], ◌∷◌, arith, ℤ,
  int_key, text_key, Option-cases, inl, inr,
}
use dynamo_db.GoMap.{lookup, is_some}
use dynamo_db.Manager.{PartitionManager}
use dynamo_db.Node.Storage.{Network, Cluster}
use dynamo_db.Node.{Node}
use dynamo_db.Node.Fixed.{fixed, propagate_delete-keeps, delete_local-fixed}
use dynamo_db.Replicas.{
  Operation, Step, calls, propagates, Answer, no_node, node_of, key_of, Propagation, State,
  is_pending, calls_of, finish, finish_at, finish_all, operate, run, is_quiet, Contents, apply,
  apply_all,
}
use dynamo_db.Replicas.Pending.{erased, finish_all_lem, finish_at-finish_all, finish_at-fixed}
use dynamo_db.Replicas.Linked.{AreAlike, alike-members, IsLinked, alike-IsLinked}
use dynamo_db.Replicas.Serves.{Holds, AreFair, home, Settles, operate-Serves}

module _ (md5 : String → List ℕ) (net : Network) (pm : PartitionManager) where
  module _ (known : ℤ → Bool) (op : Operation) (ops : List Operation) (m : Contents) where
    apply_all-served :
        known (node_of op) ≡ true
        → apply_all known (op ∷ ops) m ≡ (
          (apply_all known ops (apply op m).0).0,
          (apply op m).1 ∷ (apply_all known ops (apply op m).0).1,
        )
    unfolding apply_all
    apply_all-served served = rw (apply_all, served) refl

    apply_all-skipped :
        known (node_of op) ≡ false
        → apply_all known (op ∷ ops) m
          ≡ ((apply_all known ops m).0, no_node ∷ (apply_all known ops m).1)
    unfolding apply_all
    apply_all-skipped skipped = rw (apply_all, skipped) refl

  finish_at-Settles :
      (i : ℕ) (m : Contents) (s : State)
      → Settles md5 net pm m s
      → Settles md5 net pm m (finish_at net i s.pending s.cluster)
  finish_at-Settles i m s settles j k known keeps =
      finish_at-finish_all net i s.pending s.cluster j k
      ∙ settles j k
          (sym (
              alike-members j (finish_at net i s.pending s.cluster).cluster s.cluster
                (finish_at-fixed net i s.pending s.cluster))
            ∙ known)
          keeps

  is_quiet-calls :
      (op : Operation) (steps : List Step) (s after : State) (n : Node) (answer : Answer)
      → lookup (node_of op) s.cluster ≡ some n
      → operate md5 net op n s ≡ some (after, answer)
      → is_quiet md5 net (calls op ∷ steps) s ≡ true
      → is_quiet md5 net steps after ≡ true
  unfolding is_quiet
  is_quiet-calls op steps s after n answer here e quiet = ground (arith, here, e, quiet)

  is_quiet-is_pending :
      (op : Operation) (steps : List Step) (s : State) (n : Node)
      → lookup (node_of op) s.cluster ≡ some n
      → is_quiet md5 net (calls op ∷ steps) s ≡ true
      → is_pending (key_of op) s.pending ≡ false
  unfolding is_quiet
  is_quiet-is_pending op steps s n here quiet = ground (arith, here, quiet)

  abbrev Runs : (ℤ → Bool) → List Step → Contents → State → Type 0
  Runs known steps m s =
      (final : State) × (run md5 net steps s ≡ some (final, (apply_all known (calls_of steps) m).1))
      × Settles md5 net pm (apply_all known (calls_of steps) m).0 final
      × IsLinked md5 net pm final.cluster

  run-known :
      (known : ℤ → Bool) (steps : List Step) (m : Contents) (s : State)
      → ((j : ℤ) → known j ≡ is_some (lookup j s.cluster))
      → AreFair (home md5 net pm) (calls_of steps)
      → is_quiet md5 net steps s ≡ true
      → IsLinked md5 net pm s.cluster
      → Settles md5 net pm m s
      → Runs known steps m s
  unfolding run calls_of
  run-known known [] m s same fair quiet l settles = unfold apply_all in (s, refl, settles, l)
  run-known known (propagates i ∷ steps) m s same fair quiet l settles =
      let after = finish_at net i s.pending s.cluster in
      let alike : AreAlike after.cluster s.cluster = finish_at-fixed net i s.pending s.cluster in
      run-known known steps m after
        (λ j. same j ∙ sym (alike-members j after.cluster s.cluster alike)) fair
        (unfold is_quiet in quiet) (alike-IsLinked md5 net pm after.cluster s.cluster alike l)
        (finish_at-Settles i m s settles)
  run-known known (calls op ∷ steps) m s same fair quiet l settles =
      elim (Option-cases (lookup (node_of op) s.cluster)) [
        | inl gone ↦
            let (final, e, h, linked) =
              run-known known steps m s same fair.1 (unfold is_quiet in ground (arith, gone, quiet))
                l settles in
            let skip =
              apply_all-skipped known op (calls_of steps) m
                (ground (arith, same (node_of op), gone)) in
            (
              final,
              ground (arith, gone, e, skip),
              subst (λ c. Settles md5 net pm c final) (sym (ap (λ p. p.0) skip)) h,
              linked,
            )
        | inr (n, here) ↦
            let (after, f, held, alike) =
              operate-Serves md5 net pm op n m s fair.0
                (is_quiet-is_pending op steps s n here quiet) l here settles in
            let (final, e, h, linked) =
              run-known known steps (apply op m).0 after
                (λ j. same j ∙ sym (alike-members j after.cluster s.cluster alike)) fair.1
                (is_quiet-calls op steps s after n (apply op m).1 here f quiet)
                (alike-IsLinked md5 net pm after.cluster s.cluster alike l) held in
            let serve =
              apply_all-served known op (calls_of steps) m
                (ground (arith, same (node_of op), here)) in
            (
              final,
              ground (arith, here, f, e, serve),
              subst (λ c. Settles md5 net pm c final) (sym (ap (λ p. p.0) serve)) h,
              linked,
            )
      ]

  finish_all-known :
      (pending : List Propagation) (cluster : Cluster)
      → AreAlike (finish_all net pending cluster) cluster
  unfolding finish_all
  finish_all-known [] cluster j = refl
  finish_all-known (p ∷ pending) cluster j =
      finish_all-known pending (finish net p cluster) j
      ∙ propagate_delete-keeps fixed j delete_local-fixed net p.node p.args p.target cluster

  -- In a cluster whose nodes have the same valid partition manager, reach each other, and store
  -- what one map has of the keys that they keep (all keys with partitioning off, and those that
  -- they own with it on), take any calls of Put and MutexPut at any nodes, and of Delete and Get at
  -- nodes that keep the key, one after the other, with the goroutines of the Deletes run at any
  -- later steps, in any order, or not at all, as long as no call on a key comes while a goroutine
  -- that deletes that key has still to run. The calls all return and answer as the map does, and
  -- once the goroutines that are left have run, every node stores what the map has then of the keys
  -- that it keeps.
  pub run-refines :
      (steps : List Step) (m : Contents) (cluster : Cluster)
      → AreFair (home md5 net pm) (calls_of steps)
      → is_quiet md5 net steps (record { cluster = cluster; pending = [] }) ≡ true
      → IsLinked md5 net pm cluster
      → Holds (home md5 net pm) m cluster
      → let (contents, answers) = apply_all (λ j. is_some (lookup j cluster)) (calls_of steps) m in
        (final : State) × (run md5 net steps (record { cluster = cluster; pending = [] })
          ≡ some (final, answers))
        × Holds (home md5 net pm) contents (finish_all net final.pending final.cluster)
        × IsLinked md5 net pm final.cluster
  unfolding erased
  run-refines steps m cluster fair quiet l holds =
      let (final, e, settles, linked) =
        run-known (λ j. is_some (lookup j cluster)) steps m
          (record { cluster = cluster; pending = [] }) (λ j. refl) fair quiet l holds in
      let after = finish_all net final.pending final.cluster in
      (
        final,
        e,
        λ j k known keeps.
            finish_all_lem net final.pending final.cluster j k
            ∙ settles j k
                (sym (
                    alike-members j after final.cluster
                      (finish_all-known final.pending final.cluster))
                  ∙ known)
                keeps,
        linked,
      )
