-- ===== src/Common/Bits.antt =====
-- Masks and disjoint unions of bits as arithmetic: at every width from the recursion on binary
-- digits, and on one byte by evaluating all its values.
use Prim.Native.Nat.{ℕ, zero, suc, ◌+◌, ◌-◌, ◌*◌, ◌/◌, ◌%◌, ◌^◌, ◌≤◌, ◌<◌, min, max}
use Prim.Native.Nat.{bit_and, bit_or, digits, bit_and-bitwise, bit_or-bitwise}
use mathlib.Core.Path.{◌≡◌, refl, ap}
use mathlib.Core.Bool.{Bool, true, ◌&&◌}
use native.Mathlib.Nat.{pow-suc, one-le-pow}
use native.Mathlib.Omega.{arith}
use test_gbksoft.Common.Tests.{◌==◌}

-- More fuel than the number has digits changes nothing.
digits-enough :
    (z : ℕ → ℕ) (f : ℕ → ℕ → ℕ) (k n a b : ℕ) → a ≤ k → a ≤ n → digits z f k a b ≡ digits z f n a b
digits-enough z f zero zero zero b p q = refl
digits-enough z f zero (suc n) zero b p q = refl
digits-enough z f (suc k) zero zero b p q = refl
digits-enough z f (suc k) (suc n) zero b p q = refl
digits-enough z f zero n (suc a) b p q = absurd (omega arith)
digits-enough z f (suc k) zero (suc a) b p q = absurd (omega arith)
digits-enough z f (suc k) (suc n) (suc a) b p q =
    omega (arith, digits-enough z f k n (suc a / 2) (b / 2) (omega arith) (omega arith))

pub bit_and-digit : (a b : ℕ) → bit_and a b ≡ bit_and (a / 2) (b / 2) * 2 + min (a % 2) (b % 2)
bit_and-digit zero b = omega (arith, bit_and-bitwise 0 b, bit_and-bitwise 0 (b / 2))
bit_and-digit (suc a) b = omega (
  arith,
  bit_and-bitwise (suc a) b,
  bit_and-bitwise (suc a / 2) (b / 2),
  digits-enough (λ y. 0) min a (suc a / 2) (suc a / 2) (b / 2) (omega arith) (omega arith),
)

pub bit_or-digit : (a b : ℕ) → bit_or a b ≡ bit_or (a / 2) (b / 2) * 2 + max (a % 2) (b % 2)
bit_or-digit zero b = omega (arith, bit_or-bitwise 0 b, bit_or-bitwise 0 (b / 2))
bit_or-digit (suc a) b = omega (
  arith,
  bit_or-bitwise (suc a) b,
  bit_or-bitwise (suc a / 2) (b / 2),
  digits-enough (λ y. y) max a (suc a / 2) (suc a / 2) (b / 2) (omega arith) (omega arith),
)

zero-bit_or : (b : ℕ) → bit_or 0 b ≡ b
zero-bit_or b = omega (arith, bit_or-bitwise 0 b)

bit_or-zero_to : (n a : ℕ) → a ≤ n → bit_or a 0 ≡ a
bit_or-zero_to n zero h = omega (arith, bit_or-bitwise 0 0)
bit_or-zero_to zero (suc a) h = absurd (omega arith)
bit_or-zero_to (suc n) (suc a) h =
    omega (arith, bit_or-digit (suc a) 0, bit_or-zero_to n (suc a / 2) (omega arith))

bit_or-zero : (a : ℕ) → bit_or a 0 ≡ a
bit_or-zero a = bit_or-zero_to a a (omega arith)

bit_and-zero_below : (n a : ℕ) → a ≤ n → bit_and a 0 ≡ 0
bit_and-zero_below n zero h = omega (arith, bit_and-bitwise 0 0)
bit_and-zero_below zero (suc a) h = absurd (omega arith)
bit_and-zero_below (suc n) (suc a) h =
    omega (arith, bit_and-digit (suc a) 0, bit_and-zero_below n (suc a / 2) (omega arith))

-- `q * 2 ^ (k + 1)`, with one power of two split off.
double : (q k : ℕ) → q * 2 ^ suc k ≡ 2 * (q * 2 ^ k)
double q k = omega (arith, ap (λ (t : ℕ). q * t) (pow-suc 2 k))

bit_and-mask_split : (k q r : ℕ) → r < 2 ^ k → bit_and (q * 2 ^ k + r) (2 ^ k - 1) ≡ r
bit_and-mask_split zero q r h =
    omega (arith, bit_and-zero_below (q * 2 ^ 0 + r) (q * 2 ^ 0 + r) (omega arith))
bit_and-mask_split (suc k) q r h = ground (
  arith,
  pow-suc 2 k,
  one-le-pow k 2,
  double q k,
  bit_and-digit (q * 2 ^ suc k + r) (2 ^ suc k - 1),
  bit_and-mask_split k q (r / 2) (omega (arith, pow-suc 2 k)),
)

-- `x & (2 ^ k - 1)` is the remainder.
pub bit_and-mask : (k x : ℕ) → bit_and x (2 ^ k - 1) ≡ x % 2 ^ k
bit_and-mask k x = ground (arith, one-le-pow k 2, bit_and-mask_split k (x / 2 ^ k) (x % 2 ^ k))

-- `lo | (hi << k)` is the sum when `lo` has `k` bits.
pub bit_or_shifted : (k lo hi : ℕ) → lo < 2 ^ k → bit_or lo (hi * 2 ^ k) ≡ lo + hi * 2 ^ k
bit_or_shifted zero lo hi h = ground (arith, zero-bit_or (hi * 2 ^ 0))
bit_or_shifted (suc k) lo hi h = ground (
  arith,
  double hi k,
  bit_or-digit lo (hi * 2 ^ suc k),
  bit_or_shifted k (lo / 2) hi (omega (arith, pow-suc 2 k)),
)

-- `(hi << k) | lo`, the other way round.
pub shifted_bit_or : (k lo hi : ℕ) → lo < 2 ^ k → bit_or (hi * 2 ^ k) lo ≡ lo + hi * 2 ^ k
shifted_bit_or zero lo hi h = ground (arith, bit_or-zero hi)
shifted_bit_or (suc k) lo hi h = ground (
  arith,
  double hi k,
  bit_or-digit (hi * 2 ^ suc k) lo,
  shifted_bit_or k (lo / 2) hi (omega (arith, pow-suc 2 k)),
)

-- Over a small range, check every value by evaluation.
unfoldable pub agree_below : (f g : ℕ → ℕ) → ℕ → Bool
agree_below f g zero = true
agree_below f g (suc n) = (f n == g n) && agree_below f g n

pub agree_below→eq : (f g : ℕ → ℕ) (n : ℕ) → agree_below f g n ≡ true → (i : ℕ) → i < n → f i ≡ g i
unfolding agree_below
agree_below→eq f g zero e i h = absurd (omega arith)
agree_below→eq f g (suc n) e i h = ground (arith, agree_below→eq f g n (ground arith) i)

-- The masks on a byte that the code uses.
pub top_bit : (b : ℕ) → b < 256 → bit_and b 0x80 ≡ b / 128 * 128
unfolding agree_below
top_bit = agree_below→eq _ _ 256 refl

pub set_top_bit : (b : ℕ) → b < 256 → bit_or b 0x80 ≡ b % 128 + 128
unfolding agree_below
set_top_bit = agree_below→eq _ _ 256 refl

pub bits_four_to_six : (b : ℕ) → b < 256 → bit_and b 0x70 ≡ b / 16 % 8 * 16
unfolding agree_below
bits_four_to_six = agree_below→eq _ _ 256 refl

-- The two bits of 0x30.
pub bit_and-0x30 : (x : ℕ) → bit_and x 0x30 ≡ x / 16 % 4 * 16
bit_and-0x30 x = omega (
  arith,
  bit_and-digit x 48,
  bit_and-digit (x / 2) 24,
  bit_and-digit (x / 2 / 2) 12,
  bit_and-digit (x / 2 / 2 / 2) 6,
  bit_and-mask 2 (x / 2 / 2 / 2 / 2),
)

-- No bit beyond those of both.
pub bit_or_lt : (k a b : ℕ) → a < 2 ^ k → b < 2 ^ k → bit_or a b < 2 ^ k
bit_or_lt zero a b ha hb = rw (zero_only a ha, zero_only b hb) (omega arith)
  where
    zero_only : (n : ℕ) → n < 2 ^ 0 → n ≡ 0
    zero_only n h = omega (arith, h)
bit_or_lt (suc k) a b ha hb = ground (
  arith,
  pow-suc 2 k,
  bit_or-digit a b,
  bit_or_lt k (a / 2) (b / 2) (omega (arith, ha, pow-suc 2 k)) (omega (arith, hb, pow-suc 2 k)),
)
