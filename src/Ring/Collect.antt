-- ===== src/Ring/Collect.antt =====
-- partition/consistent_hash.go: the loop of GetNodes, and what it has collected after some rounds.
use dynamo_db.Prelude.{
  ℕ, zero, suc, ◌+◌, ◌%◌, ◌≤◌, ◌<◌, ◌≡◌, refl, sym, ◌∙◌, ap, ◌⊎◌, inl, inr, String, Bool, true,
  false, ◌||◌, some, List, [], ◌∷◌, ◌++◌, arith, length, length-append, get_elem?, get_elem?-lt, ℤ,
  pos, ltb_ℤ, nat_key, int_key, ◌==◌, elem, elem-append, ==_refl, ==_iff, IsDistinct,
  IsDistinct-concat, Bool-cases, Option-cases,
}
use mathlib.Core.Path.{subst}
use native.Mathlib.Nat.{add-zero, mod-lt}
use mathlib.Core.List.{append_assoc, append-nil}
use dynamo_db.GoMap.{GoMap, lookup, lookup_or, lookup_or-insert}
use dynamo_db.Ring.{ConsistentHash, node_at, collect, collect_loop}
use dynamo_db.Ring.Invariant.{IsWellFormed}
use dynamo_db.Ring.Lookup.{node_at-eq-some}

-- What is seen is what is in the result, and the result is distinct.
pub record IsTracked (state : List ℤ × GoMap ℤ Bool) : Type 0 where
  pub seen : (n : ℤ) → lookup_or false n state.1 ≡ elem n state.0
  pub distinct : IsDistinct state.0

pub collect-IsTracked :
    (n : ℤ) (state : List ℤ × GoMap ℤ Bool) → IsTracked state → IsTracked (collect n state)
unfolding collect
collect-IsTracked n state t = elim (Bool-cases (lookup_or false n state.1)) [
  | inl old ↦ rw old t
  | inr new ↦ rw new (record {
    seen = λ m.
        ground (
          arith,
          lookup_or-insert false n m true state.1,
          elem-append m state.0 (n ∷ []),
          t.seen m,
        );
    distinct = IsDistinct-concat state.0 n t.distinct (sym (t.seen n) ∙ new);
  })
]

elem-collect :
    (n m : ℤ) (state : List ℤ × GoMap ℤ Bool)
    → IsTracked state
    → elem m (collect n state).0 ≡ (n == m || elem m state.0)
unfolding collect
elem-collect n m state t =
    ground (arith, elem-append m state.0 (n ∷ []), t.seen n, t.seen m, ==_iff n m)

-- A round appends one node or none.
collect-cases :
    (n : ℤ) (state : List ℤ × GoMap ℤ Bool)
    → ((collect n state).0 ≡ state.0) ⊎ ((collect n state).0 ≡ state.0 ++ n ∷ [])
unfolding collect
collect-cases n state = ground arith

length-collect :
    (n : ℤ) (state : List ℤ × GoMap ℤ Bool) → length (collect n state).0 ≤ length state.0 + 1
unfolding collect
length-collect n state = ground (arith, length-append state.0 (n ∷ []))

module _ (md5 : String → List ℕ) (ch : ConsistentHash) (v : IsWellFormed md5 ch) where
  elem-get_elem? : (xs : List ℕ) (i x : ℕ) → get_elem? xs i ≡ some x → elem x xs ≡ true
  elem-get_elem? [] i x e = cc
  elem-get_elem? (y ∷ ys) zero x e = ground (arith, ==_refl x)
  elem-get_elem? (y ∷ ys) (suc i) x e = ground (arith, elem-get_elem? ys i x)

  -- Every index of the sorted hashes leads to an owner.
  node_at_total :
      (i : ℕ)
      → i < length ch.sorted_hashes
      → (x : ℕ) × (n : ℤ) × (get_elem? ch.sorted_hashes i ≡ some x)
        × (node_at ch i ≡ some n)
        × (lookup x ch.ring ≡ some n)
  node_at_total i inside =
      let (x, at) = get_elem?-lt ch.sorted_hashes i inside in
      elim (Option-cases (lookup x ch.ring)) [
        | inl missing ↦ absurd (ground (arith, v.in_step x, elem-get_elem? ch.sorted_hashes i x at))
        | inr (n, owned) ↦ (x, n, at, node_at-eq-some ch i x n at owned, owned)
      ]

  module _ (idx c : ℕ) (some_hash : 0 < length ch.sorted_hashes) where
    abbrev pub position : ℕ → ℕ
    position i = (idx + i) % length ch.sorted_hashes

    -- `r` extends what was there by distinct members, at most `c` in all; and it holds `c` of them
    -- or every owner that the rounds from `i` to the end have met.
    pub record IsCollected (rounds i : ℕ) (before r : List ℤ) : Type 0 where
      pub distinct : IsDistinct r
      pub extends : (more : List ℤ) × (r ≡ before ++ more)
      pub members :
          (n : ℤ)
          → elem n r ≡ true
          → (elem n before ≡ true) ⊎ (lookup_or false n ch.physical_nodes ≡ true)
      pub within : length r ≤ c
      pub full :
          (c ≤ length r)
          ⊎ ((k : ℕ) (n : ℤ)
              → k < rounds
              → node_at ch (position (i + k)) ≡ some n
              → elem n r ≡ true)

    -- A round that met `n` at position `i`, before the others.
    IsCollected-round :
        (rounds i x : ℕ) (n : ℤ) (state : List ℤ × GoMap ℤ Bool) (r : List ℤ)
        → IsTracked state
        → node_at ch (position i) ≡ some n
        → lookup x ch.ring ≡ some n
        → IsCollected rounds (i + 1) (collect n state).0 r
        → IsCollected (suc rounds) i state.0 r
    IsCollected-round rounds i x n state r t at owned got = record {
      distinct = got.distinct;
      extends = extends;
      members = members;
      within = got.within;
      full = full got.full;
    }
      where
        extends : (more : List ℤ) × (r ≡ state.0 ++ more)
        extends =
            let (more, e) = got.extends in
            elim (collect-cases n state) [
              | inl same ↦ (more, e ∙ ap (λ l. l ++ more) same)
              | inr one ↦
                  (n ∷ more, e ∙ ap (λ l. l ++ more) one ∙ append_assoc state.0 (n ∷ []) more)
            ]

        members :
            (m : ℤ)
            → elem m r ≡ true
            → (elem m state.0 ≡ true) ⊎ (lookup_or false m ch.physical_nodes ≡ true)
        members m e =
            ground
              (arith, got.members m e, elem-collect n m state t, ==_iff n m, v.members x n owned)

        here : elem n r ≡ true
        here =
            let (more, e) = got.extends in
            rw e (
              ground (
                arith,
                elem-append n (collect n state).0 more,
                elem-collect n n state t,
                ==_refl n,
              ))

        full :
            (c ≤ length r)
              ⊎ ((k : ℕ) (m : ℤ)
                  → k < rounds
                  → node_at ch (position (i + 1 + k)) ≡ some m
                  → elem m r ≡ true)
            → (c ≤ length r)
              ⊎ ((k : ℕ) (m : ℤ)
                  → k < suc rounds
                  → node_at ch (position (i + k)) ≡ some m
                  → elem m r ≡ true)
        full (inl enough) = inl enough
        full (inr all) = inr later
          where
            later :
                (k : ℕ) (m : ℤ)
                → k < suc rounds
                → node_at ch (position (i + k)) ≡ some m
                → elem m r ≡ true
            later zero m lt e =
                ground (arith, here, at, ap (λ j. node_at ch (position j)) (add-zero i), e)
            later (suc k) m lt e =
                all k m (omega arith)
                  (subst (λ j. node_at ch (position j) ≡ some m) (omega arith) e)

    pub collect_loop-IsCollected :
        (rounds i : ℕ) (state : List ℤ × GoMap ℤ Bool)
        → IsTracked state
        → length state.0 ≤ c
        → (r : List ℤ) × (collect_loop ch idx (pos c) rounds i state ≡ some r)
          × IsCollected rounds i state.0 r
    unfolding collect_loop
    collect_loop-IsCollected zero i state t le = (
      state.0,
      refl,
      record {
        distinct = t.distinct;
        extends = ([], sym (append-nil state.0));
        members = λ n e. inl e;
        within = le;
        full = inr (λ k n lt e. absurd (omega arith));
      },
    )
    collect_loop-IsCollected (suc rounds) i state t le =
        elim (Bool-cases (ltb_ℤ (pos (length state.0)) (pos c))) [
          | inl more ↦
              let (x, n, at, node, owned) =
                node_at_total (position i) (mod-lt (idx + i) some_hash) in
              let (r, e, col) =
                collect_loop-IsCollected rounds (i + 1) (collect n state)
                  (collect-IsTracked n state t) (ground (arith, length-collect n state)) in
              (r, ground (arith, node, e), IsCollected-round rounds i x n state r t node owned col)
          | inr enough ↦ (
            state.0,
            rw enough,
            record {
              distinct = t.distinct;
              extends = ([], sym (append-nil state.0));
              members = λ n e. inl e;
              within = le;
              full = inl (ground arith);
            },
          )
        ]
