-- ===== src/Base64/Digits.antt =====
-- The alphabet: every digit has a character of its own, which is no space and no pad character.
use test_gbksoft.Common.{ℕ, zero, suc, ◌≤◌, ◌<◌, ◌≡◌, refl, ap, ◌∙◌, arith}
use test_gbksoft.Common.{Bool, true, false, not, ◌&&◌, ◌==◌, Option, none, some}
use test_gbksoft.Common.{ltb, ltb→lt, ==_iff}
use native.Mathlib.Decide.{dec_lt}
use test_gbksoft.Base64.{base64_char, pad64, index_of, char_or_nul}

same_digit : Option ℕ → ℕ → Bool
same_digit none d = false
same_digit (some e) d = e == d

-- What `pton` needs of the character of a digit.
good_digit : ℕ → Bool
unfolding same_digit
good_digit d =
    same_digit (index_of (base64_char d)) d
    && (ltb 32 (base64_char d) && (ltb (base64_char d) 127 && not (base64_char d == pad64)))

all_below : (ℕ → Bool) → ℕ → Bool
all_below p zero = true
all_below p (suc n) = p n && all_below p n

and-left : (a b : Bool) → (a && b) ≡ true → a ≡ true
and-left a b h = ground arith

and-right : (a b : Bool) → (a && b) ≡ true → b ≡ true
and-right a b h = ground arith

at_below : (p : ℕ → Bool) (n k : ℕ) → all_below p n ≡ true → k < n → p k ≡ true
unfolding all_below
at_below p zero k h lt = absurd (omega arith)
at_below p (suc n) k h lt = elim (dec_lt k n) [
  | yes low ↦ at_below p n k (and-right (p n) (all_below p n) h) low
  | no top ↦ let same : k ≡ n = omega arith in ap p same ∙ and-left (p n) (all_below p n) h
]

digits_good : all_below good_digit 64 ≡ true
unfolding all_below good_digit same_digit index_of base64_char char_or_nul
digits_good = refl

not-true : (b : Bool) → not b ≡ true → b ≡ false
not-true b h = ground arith

same_digit-eq : (o : Option ℕ) (d : ℕ) → same_digit o d ≡ true → o ≡ some d
unfolding same_digit
same_digit-eq none d h = ground arith
same_digit-eq (some e) d h = ap (λ (k : ℕ). some k) ((==_iff e d).0 h)

-- The character of a digit stands for it, and is printable and no pad character.
pub digit_char :
    (d : ℕ)
    → d < 64
    → (index_of (base64_char d) ≡ some d)
      × (33 ≤ base64_char d)
      × (base64_char d < 127)
      × ((base64_char d == pad64) ≡ false)
unfolding good_digit
digit_char d h =
    let good : good_digit d ≡ true = at_below good_digit 64 d digits_good h in
    let rest = and-right _ _ good in
    let last = and-right _ _ rest in
    (
      same_digit-eq (index_of (base64_char d)) d (and-left _ _ good),
      ltb→lt 32 (base64_char d) (and-left _ _ rest),
      ltb→lt (base64_char d) 127 (and-left _ _ last),
      not-true (base64_char d == pad64) (and-right _ _ last),
    )
