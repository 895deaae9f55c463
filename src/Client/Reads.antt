-- ===== src/Client/Reads.antt =====
-- client/client.go: the command quorum-get returns and leaves the cluster sound.
use dynamo_db.Prelude.{
  Bool, ℕ, ◌≡◌, refl, inl, inr, String, false, some, List, [], ◌∷◌, arith, ℤ, int_key, text_key,
  Option-cases, Bool-cases, Sum-cases, subst,
}
use dynamo_db.Node.{NodeConfig}
use dynamo_db.Node.Fixed.{get-fixed}
use dynamo_db.Node.Storage.{Network, Cluster, PutArgs, GetReply, put, get}
use dynamo_db.Client.{usage, too_few_nodes, not_found, save_file, connect_to_node}
use dynamo_db.Client.QuorumGet.{
  read_one, read_all, choose, needs_repair, quorum_ids, repair_node, repair_all, repair_args,
  deliver, quorum_get, handle_quorum_get,
}
use dynamo_db.Client.Sound.{IsSound, Safe, call-IsSound, call_cluster-Safe, put-Safe}

module _ (md5 : String → List ℕ) (net : Network) (nodes : List NodeConfig) where
  read_one-IsSound :
      (key : String) (node_id : ℤ) (cluster : Cluster)
      → IsSound md5 cluster
      → IsSound md5 (read_one net nodes key node_id cluster).0
  unfolding read_one
  read_one-IsSound key node_id cluster sound =
      elim (Option-cases (connect_to_node net nodes node_id)) [
        | inl down ↦ subst (IsSound md5) (ground (arith, down)) sound
        | inr (at, up) ↦ subst (IsSound md5) (ground (arith, up)) (
            call-IsSound md5 net cluster sound at (get (record { key = key }))
              (λ j. get-fixed (record { key = key })))
      ]

  read_all-IsSound :
      (key : String) (node_ids : List ℤ) (cluster : Cluster)
      → IsSound md5 cluster
      → IsSound md5 (read_all net nodes key node_ids cluster).0
  unfolding read_all
  read_all-IsSound key [] cluster sound = sound
  read_all-IsSound key (node_id ∷ node_ids) cluster sound =
      let first = read_one net nodes key node_id cluster in
      let kept = read_one-IsSound key node_id cluster sound in
      elim (Sum-cases first.1) [
        | inl (error, e) ↦ subst (IsSound md5) (ground (arith, e)) kept
        | inr (reply, e) ↦
            subst (IsSound md5) (ground (arith, e)) (read_all-IsSound key node_ids first.0 kept)
      ]

  repair_node-Safe :
      (args : PutArgs) (node_id : ℤ) (cluster : Cluster)
      → args.is_replica ≡ false
      → IsSound md5 cluster
      → (after : Cluster) × (repair_node md5 net nodes args node_id cluster ≡ some after)
        × IsSound md5 after
  unfolding repair_node
  repair_node-Safe args node_id cluster client sound =
      elim (Option-cases (connect_to_node net nodes node_id)) [
        | inl down ↦ (cluster, ground (arith, down), sound)
        | inr (at, up) ↦
            let (after, reply, e, s) =
              call_cluster-Safe md5 net cluster sound at (put md5 net args)
                (put-Safe md5 net args client) in
            (after, ground (arith, up, e), s)
      ]

  repair_all-Safe :
      (args : PutArgs) (selected : GetReply) (replies : List (ℤ × GetReply)) (cluster : Cluster)
      → args.is_replica ≡ false
      → IsSound md5 cluster
      → (after : Cluster) × (repair_all md5 net nodes args selected replies cluster ≡ some after)
        × IsSound md5 after
  unfolding repair_all
  repair_all-Safe args selected [] cluster client sound = (cluster, refl, sound)
  repair_all-Safe args selected ((node_id, reply) ∷ replies) cluster client sound =
      elim (Bool-cases (needs_repair selected reply)) [
        | inl stale ↦
            let (after, e, s) = repair_node-Safe args node_id cluster client sound in
            let (final, f, t) = repair_all-Safe args selected replies after client s in
            (final, ground (arith, stale, e, f), t)
        | inr fresh ↦
            let (final, f, t) = repair_all-Safe args selected replies cluster client sound in
            (final, ground (arith, fresh, f), t)
      ]

  deliver-Safe :
      (write_file : String → List ℕ → Bool) (key : String) (replies : List (ℤ × GetReply))
      (cluster : Cluster)
      → IsSound md5 cluster
      → Safe md5 (deliver md5 net nodes write_file key replies cluster)
  unfolding deliver
  deliver-Safe write_file key replies cluster sound = elim (Option-cases (choose replies)) [
    | inl nothing ↦ (cluster, not_found, ground (arith, nothing), sound)
    | inr ((node_id, selected), chosen) ↦
        let (after, e, s) =
          repair_all-Safe (repair_args md5 net nodes key selected) selected replies cluster refl
            sound in
        (after, save_file write_file node_id key selected.value, ground (arith, chosen, e), s)
  ]

  quorum_get-Safe :
      (write_file : String → List ℕ → Bool) (key : String) (node_ids : List ℤ) (cluster : Cluster)
      → IsSound md5 cluster
      → Safe md5 (quorum_get md5 net nodes write_file key node_ids cluster)
  unfolding quorum_get
  quorum_get-Safe write_file key node_ids cluster sound =
      let kept = read_all-IsSound key node_ids cluster sound in
      let read = read_all net nodes key node_ids cluster in
      elim (Sum-cases read.1) [
        | inl (error, e) ↦ (read.0, error, ground (arith, e), kept)
        | inr (replies, e) ↦
            let (after, outcome, f, s) = deliver-Safe write_file key replies read.0 kept in
            (after, outcome, ground (arith, e, f), s)
      ]

  pub handle_quorum_get-Safe :
      (write_file : String → List ℕ → Bool) (parts : List String) (cluster : Cluster)
      → IsSound md5 cluster
      → Safe md5 (handle_quorum_get md5 net nodes write_file parts cluster)
  unfolding handle_quorum_get
  handle_quorum_get-Safe write_file [] cluster sound = (cluster, usage, refl, sound)
  handle_quorum_get-Safe write_file (command ∷ []) cluster sound = (cluster, usage, refl, sound)
  handle_quorum_get-Safe write_file (command ∷ key ∷ parts) cluster sound =
      elim (Option-cases (quorum_ids nodes)) [
        | inl few ↦ (cluster, too_few_nodes, ground (arith, few), sound)
        | inr (ids, two) ↦
            let (after, outcome, e, s) = quorum_get-Safe write_file key ids cluster sound in
            (after, outcome, ground (arith, two, e), s)
      ]
