-- ===== src/Client/ReadRepair.antt =====
-- client/client.go: the command quorum-get, from the two reads to the repair.
use dynamo_db.Prelude.{
  Bool, ℕ, ◌≡◌, ◌≢◌, refl, sym, ◌∙◌, inl, inr, String, some, List, [], ◌∷◌, arith, ℤ, int_key,
}
use dynamo_db.GoMap.{insert}
use dynamo_db.Manager.Valid.{IsValid}
use dynamo_db.Node.{Node, NodeConfig, increment_clock}
use dynamo_db.Node.Storage.{Network, Cluster, get, get_reply}
use dynamo_db.Node.Replication.{stored}
use dynamo_db.Client.{Outcome}
use dynamo_db.Client.QuorumGet.{read_all, quorum_get, quorum_ids, handle_quorum_get}
use dynamo_db.Client.Calls.{IsUp, read_one-answered, stored-read, read-IsUp, insert-IsUp}
use dynamo_db.Client.Quorum.{IsRead, stored-lookup}
use dynamo_db.Client.Repair.{deliver-IsRead}

abbrev after_get : String → Node → Node
after_get key n = (get (record { key = key }) n).0

get_reply-after :
    (key : String) (n : Node)
    → get_reply (record { key = key }) (after_get key n) ≡ get_reply (record { key = key }) n
unfolding get get_reply increment_clock
get_reply-after key n = refl

IsValid-after :
    (md5 : String → List ℕ) (key : String) (n : Node)
    → IsValid md5 n.partition_mgr
    → IsValid md5 (after_get key n).partition_mgr
unfolding get increment_clock
IsValid-after md5 key n v = v

data_store-after : (key : String) (n : Node) → (after_get key n).data_store ≡ n.data_store
unfolding get increment_clock
data_store-after key n = refl

module _ (net : Network) (nodes : List NodeConfig) (key : String) (a b : ℤ) (n₀ n₁ : Node)
    (cluster : Cluster) (apart : a ≢ b) (up₀ : IsUp net nodes a n₀ cluster)
    (up₁ : IsUp net nodes b n₁ cluster) where
  abbrev first_read : Cluster
  first_read = insert a (after_get key n₀) cluster

  abbrev both_read : Cluster
  both_read = insert b (after_get key n₁) first_read

  between-IsUp : IsUp net nodes b n₁ first_read
  between-IsUp = insert-IsUp net nodes b n₁ cluster up₁ a (after_get key n₀) apart

  first-IsUp : IsUp net nodes a (after_get key n₀) both_read
  first-IsUp =
      insert-IsUp net nodes a (after_get key n₀) first_read
        (read-IsUp net nodes a n₀ cluster up₀ key) b (after_get key n₁) (λ e. apart (sym e))

  second-IsUp : IsUp net nodes b (after_get key n₁) both_read
  second-IsUp = read-IsUp net nodes b n₁ first_read between-IsUp key

  both-stored : (j : ℤ) (k : String) → stored both_read j k ≡ stored cluster j k
  both-stored j k =
      stored-read net nodes b n₁ first_read between-IsUp key j k
      ∙ stored-read net nodes a n₀ cluster up₀ key j k

  reads : read_all net nodes key (a ∷ b ∷ []) cluster ≡ (
    both_read,
    inr (
        (a, get_reply (record { key = key }) (after_get key n₀))
        ∷ (b, get_reply (record { key = key }) (after_get key n₁))
        ∷ []),
  )
  unfolding read_all
  reads = ground (
    arith,
    read_one-answered net nodes a n₀ cluster up₀ key,
    read_one-answered net nodes b n₁ first_read between-IsUp key,
    get_reply-after key n₀,
    get_reply-after key n₁,
  )

  module _ (md5 : String → List ℕ) (write_file : String → List ℕ → Bool)
      (v₀ : IsValid md5 n₀.partition_mgr) (v₁ : IsValid md5 n₁.partition_mgr) where
    quorum_get-IsRead :
        (after : Cluster) × (result : Outcome) × (quorum_get md5 net nodes write_file key
            (a ∷ b ∷ [])
            cluster
          ≡ some (after, result))
        × IsRead write_file key a b
            (stored cluster a key)
            (stored cluster b key)
            cluster
            after
            result
    unfolding quorum_get
    quorum_get-IsRead =
        let (after, result, e, r) =
          deliver-IsRead md5 net nodes write_file key a b (after_get key n₀) (after_get key n₁)
            both_read first-IsUp second-IsUp (IsValid-after md5 key n₀ v₀)
            (IsValid-after md5 key n₁ v₁) (stored cluster a key) (stored cluster b key)
            (sym (stored-lookup a (after_get key n₀) both_read key first-IsUp.here)
              ∙ both-stored a key)
            (sym (stored-lookup b (after_get key n₁) both_read key second-IsUp.here)
              ∙ both-stored b key) in
        (
          after,
          result,
          ground (arith, reads, e),
          record {
            delivers = r.delivers;
            first = r.first;
            second = r.second;
            others = λ j. elim (r.others j) [
              | inl fresh ↦ inl fresh
              | inr kept ↦ inr (kept ∙ both-stored j key)
            ];
            frame = λ j k other. r.frame j k other ∙ both-stored j k;
          },
        )

-- The command quorum-get with a key returns, where the first two configured nodes are different,
-- can be reached, and have valid partition managers. It saves the later of their versions, that of
-- the first node if both are of the same time, where os.WriteFile can write it, and nothing if
-- neither has the key. Then the first
-- node has that version and the second one of the same time; no other key changes anywhere, and
-- every node whose version changes has that version.
pub handle_quorum_get-IsRead :
    (md5 : String → List ℕ) (net : Network) (nodes : List NodeConfig)
    (write_file : String → List ℕ → Bool) (command key : String) (parts : List String) (a b : ℤ)
    (n₀ n₁ : Node) (cluster : Cluster)
    → quorum_ids nodes ≡ some (a ∷ b ∷ [])
    → a ≢ b
    → IsUp net nodes a n₀ cluster
    → IsUp net nodes b n₁ cluster
    → IsValid md5 n₀.partition_mgr
    → IsValid md5 n₁.partition_mgr
    → (after : Cluster) × (result : Outcome) × (handle_quorum_get md5 net nodes write_file
          (command ∷ key ∷ parts)
          cluster
        ≡ some (after, result))
      × IsRead write_file key a b (stored cluster a key) (stored cluster b key) cluster after result
unfolding handle_quorum_get
handle_quorum_get-IsRead md5 net nodes write_file command key parts a b n₀ n₁ cluster ids apart up₀
      up₁ v₀ v₁ =
    let (after, result, e, r) =
      quorum_get-IsRead net nodes key a b n₀ n₁ cluster apart up₀ up₁ md5 write_file v₀ v₁ in
    (after, result, ground (arith, ids, e), r)
