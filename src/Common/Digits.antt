-- ===== src/Common/Digits.antt =====
-- The bits of a word, one at a time.
use test_gbksoft.Common.{
  ℕ, zero, suc, ◌-◌, ◌/◌, ◌%◌, ◌^◌, ◌≤◌, ◌<◌, ◌≡◌, refl, ◌∙◌, arith, ◌==◌, if◌then◌else◌, bit_or,
}
use Prim.Native.Nat.{max}
use native.Mathlib.Nat.{pow-suc, one-le-pow}
use test_gbksoft.Common.Bits.{bit_or-digit}

unfoldable pub bit_at : ℕ → ℕ → ℕ
bit_at zero w = w % 2
bit_at (suc k) w = bit_at k (w / 2)

pub bit_at-zero : (k : ℕ) → bit_at k 0 ≡ 0
unfolding bit_at
bit_at-zero zero = refl
bit_at-zero (suc k) = bit_at-zero k

pub bit_at-le : (k w : ℕ) → bit_at k w ≤ 1
unfolding bit_at
bit_at-le zero w = omega arith
bit_at-le (suc k) w = bit_at-le k (w / 2)

pub bit_at-bit_or : (k a b : ℕ) → bit_at k (bit_or a b) ≡ max (bit_at k a) (bit_at k b)
unfolding bit_at
bit_at-bit_or zero a b = ground (arith, bit_or-digit a b)
bit_at-bit_or (suc k) a b = rw (half) (bit_at-bit_or k (a / 2) (b / 2))
  where
    half : bit_or a b / 2 ≡ bit_or (a / 2) (b / 2)
    half = ground (arith, bit_or-digit a b)

pub bit_at-power : (k j : ℕ) → bit_at k (2 ^ j) ≡ (if k == j then 1 else 0)
unfolding bit_at
bit_at-power zero zero = refl
bit_at-power (suc k) zero = bit_at-zero k ∙ ground arith
bit_at-power zero (suc j) = ground (arith, pow-suc 2 j)
bit_at-power (suc k) (suc j) = rw (half) (bit_at-power k j ∙ same)
  where
    half : 2 ^ suc j / 2 ≡ 2 ^ j
    half = omega (arith, pow-suc 2 j)

    same : ◌≡◌ {A = ℕ} (if k == j then 1 else 0) (if suc k == suc j then 1 else 0)
    same = ground arith

pub bit_at-ones : (k n : ℕ) → k < n → bit_at k (2 ^ n - 1) ≡ 1
unfolding bit_at
bit_at-ones k zero h = absurd (omega arith)
bit_at-ones zero (suc n) h = omega (arith, pow-suc 2 n, one-le-pow n 2)
bit_at-ones (suc k) (suc n) h = rw (half) (bit_at-ones k n (omega (arith, h)))
  where
    half : (2 ^ suc n - 1) / 2 ≡ 2 ^ n - 1
    half = omega (arith, pow-suc 2 n, one-le-pow n 2)

-- A word of m bits that has the first n and no other is 2 ^ n - 1.
pub ones_only :
    (n m w : ℕ)
    → n ≤ m
    → w < 2 ^ m
    → ((k : ℕ) → k < n → bit_at k w ≡ 1)
    → ((k : ℕ) → n ≤ k → k < m → bit_at k w ≡ 0)
    → w ≡ 2 ^ n - 1
unfolding bit_at
ones_only zero zero w p h ones zeros = omega (arith, h)
ones_only (suc n) zero w p h ones zeros = absurd (omega (arith, p))
ones_only zero (suc m) w p h ones zeros = omega (
  arith,
  zeros 0 (omega arith) (omega arith),
  ones_only 0 m (w / 2) (omega arith) (omega (arith, h, pow-suc 2 m))
      (λ k l. absurd (omega (arith, l))) (λ k l u. zeros (suc k) (omega arith) (omega (arith, u))),
)
ones_only (suc n) (suc m) w p h ones zeros = omega (
  arith,
  pow-suc 2 n,
  one-le-pow n 2,
  ones 0 (omega arith),
  ones_only n m (w / 2) (omega (arith, p)) (omega (arith, h, pow-suc 2 m))
      (λ k l. ones (suc k) (omega (arith, l)))
      (λ k l u. zeros (suc k) (omega (arith, l)) (omega (arith, u))),
)
