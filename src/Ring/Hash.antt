-- ===== src/Ring/Hash.antt =====
-- partition/consistent_hash.go: the hash of a key is the number that the first eight bytes of its
-- digest write, the first one the highest.
use Prim.Native.Nat.{max, bit_or, bit_or-bitwise, digits}
use native.Mathlib.Nat.{mul_left_comm}
use dynamo_db.Prelude.{
  ℕ, zero, suc, ◌+◌, ◌*◌, ◌/◌, ◌%◌, ◌^◌, ◌<◌, ◌≤◌, ◌≡◌, refl, ap, ◌∙◌, String, List, get_or, arith,
}
use dynamo_db.Ring.{hash_bytes, hash_key}

-- The digits of `x`, a multiple of `m`, do not meet those of a number below `m`.
abbrev AreApart : ℕ → Type 0
AreApart m = (n x a b : ℕ) → x ≡ a * m → b < m → x ≤ n → digits (λ d. d) max n x b ≡ x + b

zero_max : (d : ℕ) → max 0 d ≡ d
zero_max d = omega arith

max_zero : (d : ℕ) → max d 0 ≡ d
max_zero d = omega arith

apart-double : (m : ℕ) → AreApart m → AreApart (2 * m)
apart-double m apart zero x a b e small le = omega (arith, le)
apart-double m apart (suc n) zero a b e small le = omega arith
apart-double m apart (suc n) (suc x) a b e small le =
    let twice : suc x ≡ 2 * (a * m) = e ∙ mul_left_comm a 2 m in
    let rest =
      apart n (suc x / 2) a (b / 2) (omega (arith, twice)) (omega (arith, small))
        (omega (arith, le)) in
    let even : suc x % 2 ≡ 0 = omega (arith, twice) in
    ap (λ q. q * 2 + max (suc x % 2) (b % 2)) rest
    ∙ ap (λ q. (suc x / 2 + b / 2) * 2 + max q (b % 2)) even
    ∙ ap (λ q. (suc x / 2 + b / 2) * 2 + q) (zero_max (b % 2))
    ∙ omega (arith, even)

apart-one : AreApart 1
apart-one zero x a b e small le = omega (arith, le)
apart-one (suc n) zero a b e small le = omega arith
apart-one (suc n) (suc x) a b e small le =
    let rest =
      apart-one n (suc x / 2) (suc x / 2) (b / 2) (omega arith) (omega (arith, small))
        (omega (arith, le)) in
    let none_left : b % 2 ≡ 0 = omega (arith, small) in
    ap (λ q. q * 2 + max (suc x % 2) (b % 2)) rest
    ∙ ap (λ q. (suc x / 2 + b / 2) * 2 + max (suc x % 2) q) none_left
    ∙ ap (λ q. (suc x / 2 + b / 2) * 2 + q) (max_zero (suc x % 2))
    ∙ omega (arith, small)

apart-byte : AreApart 256
apart-byte = apart-double 128 (
    apart-double 64 (
      apart-double 32 (
        apart-double 16
          (apart-double 8 (apart-double 4 (apart-double 2 (apart-double 1 apart-one)))))))

-- One round of the loop, where no digit leaves the 64 bits.
bit_or-byte :
    (result byte : ℕ)
    → result < 2 ^ 56
    → byte < 256
    → bit_or ((result * 256) % 2 ^ 64) byte ≡ result * 256 + byte
bit_or-byte result byte small is_byte =
    let whole : (result * 256) % 2 ^ 64 ≡ result * 256 = omega (arith, small) in
    ap (λ x. bit_or x byte) whole
    ∙ bit_or-bitwise (result * 256) byte
    ∙ apart-byte (result * 256) (result * 256) result byte refl is_byte (omega arith)

module _ (digest : List ℕ) (bytes : (i : ℕ) → get_or digest i 0 < 256) where
  -- One round with the result `high`.
  round :
      (rounds i high : ℕ)
      → high < 2 ^ 56
      → hash_bytes (suc rounds) i digest high
        ≡ hash_bytes rounds (i + 1) digest (high * 256 + get_or digest i 0)
  unfolding hash_bytes
  round rounds i high small =
      ap (hash_bytes rounds (i + 1) digest) (bit_or-byte high (get_or digest i 0) small (bytes i))

  abbrev byte : ℕ → ℕ
  byte i = get_or digest i 0

  -- The first half of the loop, and the second after it.
  first_half :
      hash_bytes 8 0 digest 0
      ≡ hash_bytes 4 4 digest ((((0 * 256 + byte 0) * 256 + byte 1) * 256 + byte 2) * 256 + byte 3)
  first_half =
      round 7 0 0 (omega arith)
      ∙ round 6 1 (0 * 256 + byte 0) (omega (arith, bytes 0))
      ∙ round 5 2 ((0 * 256 + byte 0) * 256 + byte 1) (omega (arith, bytes 0, bytes 1))
      ∙ round 4 3 (((0 * 256 + byte 0) * 256 + byte 1) * 256 + byte 2)
          (omega (arith, bytes 0, bytes 1, bytes 2))

  second_half :
      (high : ℕ)
      → high < 2 ^ 32
      → hash_bytes 4 4 digest high
        ≡ (((high * 256 + byte 4) * 256 + byte 5) * 256 + byte 6) * 256 + byte 7
  unfolding hash_bytes
  second_half high small =
      round 3 4 high (omega (arith, small))
      ∙ round 2 5 (high * 256 + byte 4) (omega (arith, small, bytes 4))
      ∙ round 1 6 ((high * 256 + byte 4) * 256 + byte 5) (omega (arith, small, bytes 4, bytes 5))
      ∙ round 0 7 (((high * 256 + byte 4) * 256 + byte 5) * 256 + byte 6)
          (omega (arith, small, bytes 4, bytes 5, bytes 6))

-- Where every element of a digest is a byte, the hash of a key is the number that the first eight
-- bytes of its digest write in base 256, the first one the highest, and it fits in 64 bits.
pub hash_key-eq :
    (md5 : String → List ℕ) (key : String)
    → ((i : ℕ) → get_or (md5 key) i 0 < 256)
    → let byte = λ (i : ℕ). get_or (md5 key) i 0 in
      (hash_key md5 key
        ≡ byte 0 * 2 ^ 56
          + byte 1 * 2 ^ 48
          + byte 2 * 2 ^ 40
          + byte 3 * 2 ^ 32
          + byte 4 * 2 ^ 24
          + byte 5 * 2 ^ 16
          + byte 6 * 2 ^ 8
          + byte 7)
      × (hash_key md5 key < 2 ^ 64)
unfolding hash_key
hash_key-eq md5 key bytes =
    let byte = λ (i : ℕ). get_or (md5 key) i 0 in
    let high = (((0 * 256 + byte 0) * 256 + byte 1) * 256 + byte 2) * 256 + byte 3 in
    let half = first_half (md5 key) bytes in
    let whole =
      second_half (md5 key) bytes high (omega (arith, bytes 0, bytes 1, bytes 2, bytes 3)) in
    (
      half ∙ whole ∙ omega arith,
      omega (
        arith,
        half,
        whole,
        bytes 0,
        bytes 1,
        bytes 2,
        bytes 3,
        bytes 4,
        bytes 5,
        bytes 6,
        bytes 7,
      ),
    )
