-- ===== src/Prelude/Text.antt =====
-- `%d` of fmt.Sprintf: the decimal digits of an integer.
use Prim.Native.Nat.{ℕ, zero, suc, ◌/◌, ◌%◌}
use Prim.Native.String.{String, ◌++◌}
use mathlib.Core.Path.{◌≡◌, refl}
use mathlib.Core.List.{[], ◌∷◌}
use dynamo_db.Prelude.Tests.{ltb, if◌then◌else◌}
use dynamo_db.Prelude.Lists.{get_or}
use dynamo_db.Prelude.Int.{ℤ, pos, negsuc}

digit : ℕ → String
digit d = get_or ("0" ∷ "1" ∷ "2" ∷ "3" ∷ "4" ∷ "5" ∷ "6" ∷ "7" ∷ "8" ∷ "9" ∷ []) d ""

-- One digit for each unit of fuel; a number has fewer digits than its successor counts.
decimal : ℕ → ℕ → String
unfolding digit
decimal zero n = ""
decimal (suc f) n =
    let higher = decimal f (n / 10) in if ltb n 10 then digit n else higher ++ digit (n % 10)

unfoldable pub show_ℕ : ℕ → String
unfolding decimal
show_ℕ n = decimal (suc n) n

unfoldable pub show : ℤ → String
unfolding show_ℕ
show (pos n) = show_ℕ n
show (negsuc n) = "-" ++ show_ℕ (suc n)

show_examples : (show (pos 160) ≡ "160") × (show (negsuc 0) ≡ "-1") × (show (pos 0) ≡ "0")
unfolding show
show_examples = (refl, refl, refl)
