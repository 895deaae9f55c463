-- ===== src/Client/Repair.antt =====
-- client/client.go: which node a quorum read repairs, and the version that it delivers.
use dynamo_db.Prelude.{
  ℕ, ◌≡◌, refl, sym, ap, ◌∙◌, inl, inr, String, Bool, true, false, ◌&&◌, ◌||◌, Option, none, some,
  List, [], ◌∷◌, arith, ℤ, int_key, text_key, ◌==◌, ==_iff, ltb_ℤ, if◌then◌else◌, Bool-cases,
}
use dynamo_db.GoMap.{lookup}
use dynamo_db.Manager.Valid.{IsValid}
use dynamo_db.Node.{Node, NodeConfig, StoredItem}
use dynamo_db.Node.Storage.{Network, Cluster, PutArgs, GetReply, get_reply}
use dynamo_db.Node.Replication.{stored, item_of}
use dynamo_db.Client.{Outcome, not_found, save_file}
use dynamo_db.Client.QuorumGet.{choose, needs_repair, repair_node, repair_all, repair_args, deliver}
use dynamo_db.Client.Calls.{IsUp, put-answered}
use dynamo_db.Client.Quorum.{
  written, saved-save_file, freshest, value_of, time_of, IsRead, stored-lookup, get_reply-none,
  get_reply-some,
}

module _ (md5 : String → List ℕ) (net : Network) (nodes : List NodeConfig) where
  -- A repair of a node that is up stores the item there, and perhaps elsewhere.
  repair_node-stores :
      (id : ℤ) (n : Node) (cluster : Cluster) (args : PutArgs)
      → IsUp net nodes id n cluster
      → IsValid md5 n.partition_mgr
      → args.is_replica ≡ false
      → (final : Cluster) × (others : ℤ → Bool) × (repair_node md5 net nodes args id cluster
          ≡ some final)
        × ((j : ℤ) (k : String)
            → stored final j k ≡ (
                if (id == j || others j) && args.key == k
                then some (item_of args)
                else stored cluster j k))
  unfolding repair_node
  repair_node-stores id n cluster args up v client =
      let (final, reply, others, e, success, stores) =
        put-answered net nodes id n cluster up md5 args v client in
      (final, others, ground (arith, up.connects, e), stores)

  module _ (write_file : String → List ℕ → Bool) (key : String) (a b : ℤ) (m₀ m₁ : Node)
      (c : Cluster) (up₀ : IsUp net nodes a m₀ c) (up₁ : IsUp net nodes b m₁ c)
      (v₀ : IsValid md5 m₀.partition_mgr) (v₁ : IsValid md5 m₁.partition_mgr) where
    abbrev replies : List (ℤ × GetReply)
    replies =
        (a, get_reply (record { key = key }) m₀) ∷ (b, get_reply (record { key = key }) m₁) ∷ []

    abbrev Delivers : Option StoredItem → Option StoredItem → Type 0
    Delivers x y =
        (after : Cluster) × (result : Outcome) × (deliver md5 net nodes write_file key replies c
          ≡ some (after, result))
        × IsRead write_file key a b x y c after result

    -- Neither has the key.
    deliver-none :
        lookup key m₀.data_store ≡ none → lookup key m₁.data_store ≡ none → Delivers none none
    unfolding deliver choose
    deliver-none e f = (
      c,
      not_found,
      ground (arith, get_reply-none key m₀ e, get_reply-none key m₁ f),
      record {
        delivers = refl;
        first = stored-lookup a m₀ c key up₀.here ∙ e;
        second = ap time_of (stored-lookup b m₁ c key up₁.here ∙ f);
        others = λ j. inr refl;
        frame = λ j k other. refl;
      },
    )

    abbrev r₀ : GetReply
    r₀ = get_reply (record { key = key }) m₀

    abbrev r₁ : GetReply
    r₁ = get_reply (record { key = key }) m₁

    -- At most one of the two is repaired.
    repair_all-stores :
        (r : GetReply)
        → (needs_repair r r₀ && needs_repair r r₁) ≡ false
        → (final : Cluster) × (who : ℤ → Bool) × (repair_all md5 net nodes
              (repair_args md5 net nodes key r)
              r
              replies
              c
            ≡ some final)
          × (needs_repair r r₀ ≡ true → who a ≡ true)
          × (needs_repair r r₁ ≡ true → who b ≡ true)
          × ((j : ℤ) (k : String)
              → stored final j k ≡ (
                  if who j && key == k
                  then some (record { value = r.value; timestamp = r.timestamp })
                  else stored c j k))
    unfolding repair_all
    repair_all-stores r one =
        let args = repair_args md5 net nodes key r in
        elim (Bool-cases (needs_repair r r₀)) [
          | inl need₀ ↦
              let (final, others, e, stores) = repair_node-stores a m₀ c args up₀ v₀ refl in
              (
                final,
                (λ j. a == j || others j),
                ground (arith, need₀, one, e),
                (λ need. ground (arith, ==_iff a a)),
                (λ need. ground (arith, need₀, one, need)),
                stores,
              )
          | inr fine₀ ↦ elim (Bool-cases (needs_repair r r₁)) [
            | inl need₁ ↦
                let (final, others, e, stores) = repair_node-stores b m₁ c args up₁ v₁ refl in
                (
                  final,
                  (λ j. b == j || others j),
                  ground (arith, need₁, fine₀, e),
                  (λ need. ground (arith, fine₀, need)),
                  (λ need. ground (arith, ==_iff b b)),
                  stores,
                )
            | inr fine₁ ↦ (
              c,
              (λ j. false),
              ground (arith, fine₀, fine₁),
              (λ need. ground (arith, fine₀, need)),
              (λ need. ground (arith, fine₁, need)),
              λ j k. refl,
            )
          ]
        ]

    deliver-eq :
        (s : ℤ) (r : GetReply) (final : Cluster)
        → choose replies ≡ some (s, r)
        → repair_all md5 net nodes (repair_args md5 net nodes key r) r replies c ≡ some final
        → deliver md5 net nodes write_file key replies c
          ≡ some (final, save_file write_file s key r.value)
    unfolding deliver
    deliver-eq s r final chosen e = ground (arith, chosen, e)

    -- The version that is chosen is delivered, and repaired where a node needs it.
    deliver-chosen :
        (x y : Option StoredItem) (s : ℤ) (r : GetReply) (item : StoredItem)
        → lookup key m₀.data_store ≡ x
        → lookup key m₁.data_store ≡ y
        → choose replies ≡ some (s, r)
        → (r.value ≡ item.value) × (r.timestamp ≡ item.timestamp)
        → freshest x y ≡ some item
        → (needs_repair r r₀ && needs_repair r r₁) ≡ false
        → (needs_repair r r₀ ≡ false → x ≡ some item)
        → (needs_repair r r₁ ≡ false → time_of y ≡ some item.timestamp)
        → Delivers x y
    deliver-chosen x y s r item e f chosen (same_value, same_time) fresh one kept₀ kept₁ =
        let (final, who, repaired, at_a, at_b, stores) = repair_all-stores r one in
        let sent : StoredItem = record { value = r.value; timestamp = r.timestamp } in
        let is_item : sent ≡ item = rw (same_value, same_time) refl in
        let old₀ = stored-lookup a m₀ c key up₀.here ∙ e in
        let old₁ = stored-lookup b m₁ c key up₁.here ∙ f in
        (
          final,
          save_file write_file s key r.value,
          deliver-eq s r final chosen repaired,
          record {
            delivers =
                saved-save_file write_file s key r.value
                ∙ ap (λ v. written write_file key (some v)) same_value
                ∙ sym (ap (λ o. written write_file key (value_of o)) fresh);
            first = elim (Bool-cases (needs_repair r r₀)) [
              | inl need ↦ ground (arith, stores a key, at_a need, ==_iff key key, is_item, fresh)
              | inr fine ↦ ground (arith, stores a key, old₀, kept₀ fine, is_item, fresh)
            ];
            second = elim (Bool-cases (needs_repair r r₁)) [
              | inl need ↦ ground (arith, stores b key, at_b need, ==_iff key key, is_item, fresh)
              | inr fine ↦ ground (arith, stores b key, old₁, kept₁ fine, is_item, fresh)
            ];
            others = λ j. elim (Bool-cases (who j)) [
              | inl hit ↦ inl (ground (arith, stores j key, hit, ==_iff key key, is_item, fresh))
              | inr miss ↦ inr (ground (arith, stores j key, miss))
            ];
            frame = λ j k other. ground (arith, stores j k, ==_iff key k, other);
          },
        )

    deliver-both :
        (x y : StoredItem)
        → lookup key m₀.data_store ≡ some x
        → lookup key m₁.data_store ≡ some y
        → Delivers (some x) (some y)
    unfolding choose needs_repair
    deliver-both x y e f =
        let g₀ = get_reply-some key m₀ x e in
        let g₁ = get_reply-some key m₁ y f in
        elim (Bool-cases (ltb_ℤ x.timestamp y.timestamp)) [
          | inl older ↦
              deliver-chosen (some x) (some y) b r₁ y e f (ground (arith, g₀, g₁, older))
                (g₁.2, g₁.1) (ground (arith, older)) (ground (arith, g₀, g₁))
                (λ fine. ground (arith, g₀, g₁, older, fine)) (λ fine. refl)
          | inr newer ↦
              deliver-chosen (some x) (some y) a r₀ x e f (ground (arith, g₀, g₁, newer))
                (g₀.2, g₀.1) (ground (arith, newer)) (ground (arith, g₀, g₁)) (λ fine. refl)
                (λ fine. ground (arith, g₀, g₁, newer, fine))
        ]

    pub deliver-IsRead :
        (x y : Option StoredItem)
        → lookup key m₀.data_store ≡ x
        → lookup key m₁.data_store ≡ y
        → Delivers x y
    unfolding choose needs_repair
    deliver-IsRead none none e f = deliver-none e f
    deliver-IsRead (some x) none e f =
        let g₀ = get_reply-some key m₀ x e in
        let g₁ = get_reply-none key m₁ f in
        deliver-chosen (some x) none a r₀ x e f (ground (arith, g₀, g₁)) (g₀.2, g₀.1) refl
          (ground (arith, g₀, g₁)) (λ fine. refl) (λ fine. ground (arith, g₀, g₁, fine))
    deliver-IsRead none (some y) e f =
        let g₀ = get_reply-none key m₀ e in
        let g₁ = get_reply-some key m₁ y f in
        deliver-chosen none (some y) b r₁ y e f (ground (arith, g₀, g₁)) (g₁.2, g₁.1) refl
          (ground (arith, g₀, g₁)) (λ fine. ground (arith, g₀, g₁, fine)) (λ fine. refl)
    deliver-IsRead (some x) (some y) e f = deliver-both x y e f
