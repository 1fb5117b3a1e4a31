-- ===== src/Prelude/Bits.antt =====
-- The bit operations of the wire code as arithmetic: masks of the low seven bits and of bit 7, and
-- `|` of numbers that share no bit.
use Prim.Native.Nat.{
  ℕ, zero, suc, ◌+◌, ◌*◌, ◌/◌, ◌%◌, ◌^◌, ◌≤◌, ◌<◌, min, max, bit_and, bit_or, digits,
  bit_and-bitwise, bit_or-bitwise,
}
use mathlib.Core.Path.{◌≡◌, refl, ap}
use native.Mathlib.Nat.{pow-suc}
use native.Mathlib.Omega.{arith}

-- The count of digits to go is of no account once it covers the first number.
digits_enough :
    (z : ℕ → ℕ) (f : ℕ → ℕ → ℕ) (n m a b : ℕ) → a ≤ n → a ≤ m → digits z f n a b ≡ digits z f m a b
digits_enough z f zero zero a b p q = refl
digits_enough z f zero (suc m) zero b p q = refl
digits_enough z f zero (suc m) (suc a) b p q = absurd (omega arith)
digits_enough z f (suc n) zero zero b p q = refl
digits_enough z f (suc n) zero (suc a) b p q = absurd (omega arith)
digits_enough z f (suc n) (suc m) zero b p q = refl
digits_enough z f (suc n) (suc m) (suc a) b p q =
    omega (arith, digits_enough z f n m (suc a / 2) (b / 2) (omega arith) (omega arith))

-- The lowest digit of each operation, apart.
bit_and-halves : (a b : ℕ) → bit_and a b ≡ bit_and (a / 2) (b / 2) * 2 + min (a % 2) (b % 2)
bit_and-halves zero b = omega (arith, bit_and-bitwise 0 b, bit_and-bitwise 0 (b / 2))
bit_and-halves (suc a) b = omega (
  arith,
  bit_and-bitwise (suc a) b,
  bit_and-bitwise (suc a / 2) (b / 2),
  digits_enough (λ c. zero) min a (suc a / 2) (suc a / 2) (b / 2) (omega arith) (omega arith),
)

bit_or-halves : (a b : ℕ) → bit_or a b ≡ bit_or (a / 2) (b / 2) * 2 + max (a % 2) (b % 2)
bit_or-halves zero b = omega (arith, bit_or-bitwise 0 b, bit_or-bitwise 0 (b / 2))
bit_or-halves (suc a) b = omega (
  arith,
  bit_or-bitwise (suc a) b,
  bit_or-bitwise (suc a / 2) (b / 2),
  digits_enough (λ c. c) max a (suc a / 2) (suc a / 2) (b / 2) (omega arith) (omega arith),
)

bit_and-zero_upto : (n a : ℕ) → a ≤ n → bit_and a 0 ≡ 0
bit_and-zero_upto n zero h = bit_and-bitwise 0 0
bit_and-zero_upto zero (suc a) h = absurd (omega arith)
bit_and-zero_upto (suc n) (suc a) h =
    omega (arith, bit_and-halves (suc a) 0, bit_and-zero_upto n (suc a / 2) (omega arith))

bit_and-zero : (a : ℕ) → bit_and a 0 ≡ 0
bit_and-zero a = bit_and-zero_upto a a (omega arith)

bit_and_one : (a : ℕ) → bit_and a 1 ≡ a % 2
bit_and_one a = omega (arith, bit_and-halves a 1, bit_and-zero (a / 2))

bit_and_three : (a : ℕ) → bit_and a 3 ≡ a % 4
bit_and_three a = omega (arith, bit_and-halves a 3, bit_and_one (a / 2))

bit_and_fifteen : (a : ℕ) → bit_and a 15 ≡ a % 16
bit_and_fifteen a =
    omega (arith, bit_and-halves a 15, bit_and-halves (a / 2) 7, bit_and_three (a / 2 / 2))

-- `x & 0x7F` is the low seven bits.
pub low_seven : (a : ℕ) → bit_and a 0x7f ≡ a % 128
low_seven a = omega (
  arith,
  bit_and-halves a 127,
  bit_and-halves (a / 2) 63,
  bit_and-halves (a / 2 / 2) 31,
  bit_and_fifteen (a / 2 / 2 / 2),
)

bit_and_eight : (a : ℕ) → bit_and a 8 ≡ a / 8 % 2 * 8
bit_and_eight a = omega (
  arith,
  bit_and-halves a 8,
  bit_and-halves (a / 2) 4,
  bit_and-halves (a / 2 / 2) 2,
  bit_and_one (a / 2 / 2 / 2),
)

-- `b & 0x80` is bit 7.
pub bit_seven : (a : ℕ) → bit_and a 0x80 ≡ a / 128 % 2 * 128
bit_seven a = omega (
  arith,
  bit_and-halves a 128,
  bit_and-halves (a / 2) 64,
  bit_and-halves (a / 2 / 2) 32,
  bit_and-halves (a / 2 / 2 / 2) 16,
  bit_and_eight (a / 2 / 2 / 2 / 2),
)

-- `|` of a number below `2 ^ k` and a multiple of `2 ^ k` is their sum.
pub bit_or-disjoint : (k a b : ℕ) → a < 2 ^ k → bit_or a (b * 2 ^ k) ≡ a + b * 2 ^ k
bit_or-disjoint zero zero b h = omega (arith, bit_or-bitwise 0 (b * 1))
bit_or-disjoint zero (suc a) b h = absurd (omega arith)
bit_or-disjoint (suc k) a b h =
    let double : b * 2 ^ suc k ≡ b * 2 ^ k * 2 =
      omega (arith, ap (λ (t : ℕ). b * t) (pow-suc 2 k)) in
    rw double (
      omega (
        arith,
        pow-suc 2 k,
        bit_or-halves a (b * 2 ^ k * 2),
        ap (λ (t : ℕ). bit_or (a / 2) t) (halve (b * 2 ^ k)),
        bit_or-disjoint k (a / 2) b (omega (arith, pow-suc 2 k)),
      ))
  where
    halve : (t : ℕ) → t * 2 / 2 ≡ t
    halve t = omega arith

-- `b | 0x80` sets bit 7.
pub set_bit_seven : (a : ℕ) → a < 128 → bit_or a 0x80 ≡ a + 128
set_bit_seven a h = bit_or-disjoint 7 a 1 h
