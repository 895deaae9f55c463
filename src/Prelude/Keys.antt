-- ===== src/Prelude/Keys.antt =====
-- Types that Go can compare with `==`: the keys of its maps.
use Prim.Native.Nat.{ℕ}
use Prim.Native.String.{String}
use mathlib.Core.Path.{◌≡◌, refl}
use mathlib.Core.Logic.{◌↔◌, ◌⊎◌}
use mathlib.Core.Bool.{Bool, true, false, ◌||◌}
use mathlib.Core.List.{List, [], ◌∷◌, ◌++◌}
use native.Mathlib.Omega.{arith}
use text.Mathlib.Text.{◌==◌ as eqb_text}
use text.Mathlib.TextEquality.{eq_iff}
use dynamo_db.Prelude.Tests.{eqb_ℕ}
use dynamo_db.Prelude.Int.{ℤ, eqb_ℤ, eqb_ℤ_iff}

pub record Key {ℓ} (K : Type ℓ) : Type ℓ where
  pub eqb : K → K → Bool
  pub eqb_iff : (a b : K) → (eqb a b ≡ true) ↔ (a ≡ b)

infix 50 ◌==◌
abbrev pub ◌==◌ {ℓ} : {K : Type ℓ} ⦃key : Key K⦄ → K → K → Bool
◌==◌ ⦃key⦄ = key.eqb

pub ==_iff {ℓ} : {K : Type ℓ} ⦃key : Key K⦄ (a b : K) → ((a == b) ≡ true) ↔ (a ≡ b)
==_iff ⦃key⦄ a b = key.eqb_iff a b

pub eqb_ℕ_iff : (a b : ℕ) → (eqb_ℕ a b ≡ true) ↔ (a ≡ b)
eqb_ℕ_iff a b = ground arith

instance abbrev pub nat_key : Key ℕ
nat_key = record { eqb = eqb_ℕ; eqb_iff = eqb_ℕ_iff }

instance abbrev pub int_key : Key ℤ
int_key = record { eqb = eqb_ℤ; eqb_iff = eqb_ℤ_iff }

instance abbrev pub text_key : Key String
text_key = record { eqb = eqb_text; eqb_iff = eq_iff }

-- Membership, as a test.
module _ {ℓ} {K : Type ℓ} ⦃key : Key K⦄ where
  abbrev pub elem : K → List K → Bool
  elem k [] = false
  elem k (x ∷ xs) = x == k || elem k xs

  pub ==_refl : (k : K) → (k == k) ≡ true
  ==_refl k = (==_iff k k).1 refl

  pub elem-append : (k : K) (xs ys : List K) → elem k (xs ++ ys) ≡ (elem k xs || elem k ys)
  elem-append k [] ys = refl
  elem-append k (x ∷ xs) ys = ground (arith, elem-append k xs ys)

  pub elem-cases : (k x : K) (xs : List K) → elem k (x ∷ xs) ≡ true → (k ≡ x) ⊎ (elem k xs ≡ true)
  elem-cases k x xs h = ground (arith, ==_iff x k)

-- No element stands twice.
module _ {ℓ} {K : Type ℓ} ⦃key : Key K⦄ where
  abbrev pub IsDistinct : List K → Type 0
  IsDistinct [] = Unit
  IsDistinct (x ∷ xs) = (elem x xs ≡ false) × IsDistinct xs

  pub IsDistinct-concat :
      (xs : List K) (k : K) → IsDistinct xs → elem k xs ≡ false → IsDistinct (xs ++ k ∷ [])
  IsDistinct-concat [] k d h = (refl, tt)
  IsDistinct-concat (x ∷ xs) k d h = (
    ground (arith, elem-append x xs (k ∷ []), ==_iff x k, ==_iff k x),
    IsDistinct-concat xs k d.1 (ground arith),
  )
