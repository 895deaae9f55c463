-- ===== src/Ring/Replicas.antt =====
-- partition/consistent_hash.go: GetNodes against the preference list of a key.
use native.Mathlib.Nat.{add-zero, mod-eq_of_lt, mod-eq-sub-mod}
use dynamo_db.Prelude.{
  ℕ, zero, suc, ◌+◌, ◌-◌, ◌%◌, ◌≤◌, ◌<◌, ◌≡◌, refl, ◌∙◌, ap, ◌⊎◌, inl, inr, String, Bool, true,
  false, some, List, [], ◌∷◌, arith, ltb, leb, eqb_ℕ, length, get_elem?, ℤ, pos, nat_key, int_key,
  elem, IsDistinct, Bool-cases, if◌then◌else◌,
}
use dynamo_db.GoMap.{GoMap, empty, lookup, lookup_or}
use dynamo_db.Ring.{
  ConsistentHash, start_index, node_at, collect, collect_loop, hash_key, get_node, get_nodes,
}
use dynamo_db.Ring.Invariant.{IsWellFormed}
use dynamo_db.Ring.Lookup.{
  node_at-eq-some, start_index-IsClockwise, ring-cases, on_ring, in_map, IsOwnerAt-intro,
}
use dynamo_db.Ring.Collect.{
  IsTracked, IsCollected, position, collect_loop-IsCollected, collect-IsTracked,
}

index_of :
    (x : ℕ) (xs : List ℕ) → elem x xs ≡ true → (i : ℕ) × (i < length xs) × (get_elem? xs i ≡ some x)
index_of x [] e = cc
index_of x (y ∷ ys) e = elim (Bool-cases (eqb_ℕ y x)) [
  | inl here ↦ (0, omega arith, ground arith)
  | inr there ↦ let (i, inside, at) = index_of x ys (ground arith) in (suc i, omega arith, at)
]

lt-length_of_get_elem? : (xs : List ℕ) (i x : ℕ) → get_elem? xs i ≡ some x → i < length xs
lt-length_of_get_elem? [] i x e = cc
lt-length_of_get_elem? (y ∷ ys) zero x e = omega arith
lt-length_of_get_elem? (y ∷ ys) (suc i) x e = omega (arith, lt-length_of_get_elem? ys i x e)

-- The round in which the walk from `idx` comes by `p`.
round_of : ℕ → ℕ → ℕ → ℕ
round_of idx len p = if leb idx p then p - idx else p + len - idx

round_of_lem :
    (idx len p : ℕ)
    → idx < len
    → p < len
    → (round_of idx len p < len) × ((idx + (0 + round_of idx len p)) % len ≡ p)
unfolding round_of
round_of_lem idx len p a b = (
  ground arith,
  elim (Bool-cases (leb idx p)) [
    | inl ahead ↦ rw ahead (rw (sum ahead) (mod-eq_of_lt b))
    | inr behind ↦ rw behind (rw (wrap behind) (mod-eq-sub-mod (omega arith) ∙ rest))
  ],
)
  where
    sum : leb idx p ≡ true → idx + (0 + (p - idx)) ≡ p
    sum h = ground arith

    wrap : leb idx p ≡ false → idx + (0 + (p + len - idx)) ≡ p + len
    wrap h = ground arith

    rest : (p + len - len) % len ≡ p
    rest = rw back (mod-eq_of_lt b)
      where
        back : p + len - len ≡ p
        back = omega arith

start-IsTracked : IsTracked ([], empty)
unfolding lookup_or lookup
start-IsTracked = record { seen = λ n. refl; distinct = tt }

size_pos : (n : ℤ) (m : GoMap ℤ Bool) → lookup_or false n m ≡ true → 0 < length m
unfolding lookup_or lookup
size_pos n [] e = cc
size_pos n (_ ∷ m) e = omega arith

not-empty :
    (ring : GoMap ℕ ℤ) (h : ℕ) (n : ℤ) → lookup h ring ≡ some n → eqb_ℕ (length ring) 0 ≡ false
unfolding lookup
not-empty [] h n e = cc
not-empty (_ ∷ ring) h n e = ground arith

-- A preference list `r` on the ring, when `c` nodes are asked for.
pub record IsPreference (ch : ConsistentHash) (c : ℕ) (r : List ℤ) : Type 0 where
  -- no node twice, and only members of the cluster
  pub distinct : IsDistinct r
  pub members : (n : ℤ) → elem n r ≡ true → lookup_or false n ch.physical_nodes ≡ true
  -- at most as many as were asked for, and as there are
  pub within : (length r ≤ c) × (length r ≤ length ch.physical_nodes)
  -- as many as that, or all that own a hash
  pub full :
      ((c ≤ length r) ⊎ (length ch.physical_nodes ≤ length r))
      ⊎ ((h : ℕ) (n : ℤ) → lookup h ch.ring ≡ some n → elem n r ≡ true)

module _ (md5 : String → List ℕ) (ch : ConsistentHash) (v : IsWellFormed md5 ch) where
  module _ (key : String) (c h₀ : ℕ) (n₀ : ℤ) (owned : lookup h₀ ch.ring ≡ some n₀) where
    abbrev start : ℕ
    start = start_index ch.sorted_hashes (hash_key md5 key)

    start_lt : start < length ch.sorted_hashes
    start_lt =
        let (y, at, _) =
          start_index-IsClockwise ch.sorted_hashes (hash_key md5 key) h₀ v.sorted
            (on_ring md5 ch h₀ n₀ v owned) in
        lt-length_of_get_elem? ch.sorted_hashes start y at

    walk :
        (r : List ℤ) × (collect_loop ch start (pos c) (length ch.sorted_hashes) 0 ([], empty)
          ≡ some r)
        × IsCollected md5 ch v start c (omega (arith, start_lt)) (length ch.sorted_hashes) 0 [] r
    walk =
        collect_loop-IsCollected md5 ch v start c _ (length ch.sorted_hashes) 0 ([], empty)
          start-IsTracked (omega arith)

    preference :
        (r : List ℤ)
        → IsCollected md5 ch v start c (omega (arith, start_lt)) (length ch.sorted_hashes) 0 [] r
        → (asked : ℕ)
        → c ≡ (if ltb (length ch.physical_nodes) asked then length ch.physical_nodes else asked)
        → IsPreference ch asked r
    preference r got asked least = record {
      distinct = got.distinct;
      members = λ n e. ground (arith, got.members n e);
      within = (ground (arith, got.within), ground (arith, got.within));
      full = full got.full;
    }
      where
        full :
            (c ≤ length r)
              ⊎ ((k : ℕ) (n : ℤ)
                  → k < length ch.sorted_hashes
                  → node_at ch (position md5 ch v start c (omega (arith, start_lt)) (0 + k))
                    ≡ some n
                  → elem n r ≡ true)
            → ((asked ≤ length r) ⊎ (length ch.physical_nodes ≤ length r))
              ⊎ ((h : ℕ) (n : ℤ) → lookup h ch.ring ≡ some n → elem n r ≡ true)
        full (inl enough) = inl (ground arith)
        full (inr all) = inr λ h n e.
            let (p, inside, at) = index_of h ch.sorted_hashes (on_ring md5 ch h n v e) in
            let (round, there) = round_of_lem start (length ch.sorted_hashes) p start_lt inside in
            all (round_of start (length ch.sorted_hashes) p) n round
              (rw there (node_at-eq-some ch p h n at e))

  get_nodes-eq-loop :
      (key : String) (c m : ℕ)
      → m ≡ (if ltb (length ch.physical_nodes) c then length ch.physical_nodes else c)
      → eqb_ℕ (length ch.ring) 0 ≡ false
      → get_nodes md5 key (pos c) ch
        ≡ collect_loop ch
            (start_index ch.sorted_hashes (hash_key md5 key))
            (pos m)
            (length ch.sorted_hashes)
            0
            ([], empty)
  unfolding get_nodes
  get_nodes-eq-loop key c m least more = ground arith

  -- On a well-formed ring, whatever number of nodes is asked for (0 or more), GetNodes returns a
  -- preference list: distinct members, no more than were asked for, and fewer only where every
  -- owner of a hash is in it.
  pub get_nodes-IsPreference :
      (key : String) (c : ℕ)
      → (r : List ℤ) × (get_nodes md5 key (pos c) ch ≡ some r) × IsPreference ch c r
  get_nodes-IsPreference key c = elim (ring-cases ch.ring) [
    | inl (nothing, missing) ↦ (
      [],
      unfold get_nodes in rw nothing,
      record {
        distinct = tt;
        members = λ n e. cc;
        within = (omega arith, omega arith);
        full = inr (λ h n e. cc (missing h));
      },
    )
    | inr (h, n, more, owned) ↦
        let m : ℕ = if ltb (length ch.physical_nodes) c then length ch.physical_nodes else c in
        let (r, e, got) = walk key m h n owned in
        (r, get_nodes-eq-loop key c m refl more ∙ e, preference key m h n owned r got c refl)
  ]

  collect-first : (n : ℤ) → (collect n ([], empty)).0 ≡ n ∷ []
  unfolding collect lookup_or lookup
  collect-first n = refl

  first_round :
      (idx m rounds : ℕ) (n : ℤ)
      → 0 < length ch.sorted_hashes
      → 0 < m
      → node_at ch ((idx + 0) % length ch.sorted_hashes) ≡ some n
      → (more : List ℤ) × (collect_loop ch idx (pos m) (suc rounds) 0 ([], empty) ≡ some (n ∷ more))
  unfolding collect_loop
  first_round idx m rounds n some_hash enough at =
      let (r, e, got) =
        collect_loop-IsCollected md5 ch v idx m some_hash rounds (0 + 1) (collect n ([], empty))
          (collect-IsTracked n ([], empty) start-IsTracked)
          (omega (arith, ap length (collect-first n))) in
      let (more, extends) = got.extends in (more, ground (arith, at, e, extends, collect-first n))

  -- If a node is asked for and the well-formed ring is not empty, the first of the list is
  -- GetNode's answer.
  pub get_nodes-head :
      (key : String) (c h : ℕ) (n : ℤ)
      → 0 < c
      → lookup h ch.ring ≡ some n
      → (primary : ℤ) × (replicas : List ℤ) × (get_nodes md5 key (pos c) ch
          ≡ some (primary ∷ replicas))
        × (get_node md5 key ch ≡ some primary)
  get_nodes-head key c h n asked owned = go (length ch.sorted_hashes) refl
    where
      go :
          (len : ℕ)
          → length ch.sorted_hashes ≡ len
          → (primary : ℤ) × (replicas : List ℤ) × (get_nodes md5 key (pos c) ch
              ≡ some (primary ∷ replicas))
            × (get_node md5 key ch ≡ some primary)
      go zero e = absurd (omega (arith, start_lt key c h n owned))
      go (suc k) e =
          let hash = hash_key md5 key in
          let start = start_index ch.sorted_hashes hash in
          let on = on_ring md5 ch h n v owned in
          let (y, at, clockwise) = start_index-IsClockwise ch.sorted_hashes hash h v.sorted on in
          let (primary, owner) = in_map md5 ch y v clockwise.on_ring in
          let here = node_at-eq-some ch start y primary at owner in
          let inside = lt-length_of_get_elem? ch.sorted_hashes start y at in
          let m : ℕ = if ltb (length ch.physical_nodes) c then length ch.physical_nodes else c in
          let members = size_pos n ch.physical_nodes (v.members h n owned) in
          let (more, first) =
            first_round start m k primary (omega arith) (ground arith)
              (rw (add-zero start) (rw (mod-eq_of_lt inside) here)) in
          (
            primary,
            more,
            get_nodes-eq-loop key c m refl (ground (arith, not-empty ch.ring h n owned))
                ∙ ap (λ l. collect_loop ch start (pos m) l 0 ([], empty)) e
                ∙ first,
            IsOwnerAt-intro md5 ch key y primary v owner clockwise,
          )

  -- Where a node is asked for, the list is empty exactly where the ring is.
  pub get_nodes-empty :
      (key : String) (c : ℕ) (r : List ℤ)
      → 0 < c
      → get_nodes md5 key (pos c) ch ≡ some r
      → eqb_ℕ (length r) 0 ≡ eqb_ℕ (length ch.ring) 0
  get_nodes-empty key c r asked e = elim (ring-cases ch.ring) [
    | inl (nothing, missing) ↦ unfold get_nodes in ground (arith, nothing, e)
    | inr (h, n, more, owned) ↦
        let (primary, replicas, f, same) = get_nodes-head key c h n asked owned in
        ground (arith, more, e, f)
  ]
