-- ===== src/Nanopb/Decode/SeenBits.antt =====
-- The words of bits in pb_decode_noinit of pb_decode.c: one mark, and the test of the first bits.
use test_gbksoft.Common.{
  ℕ, zero, suc, ◌+◌, ◌-◌, ◌*◌, ◌/◌, ◌%◌, ◌^◌, ◌≤◌, ◌<◌, ◌≡◌, inl, inr, refl, sym, ◌∙◌, ap, arith,
  Bool, true, false, ltb, ◌==◌, if◌then◌else◌, some, none, Option, List, [], ◌∷◌, length, get_elem?,
  bit_and, bit_or, Bool-cases, ==_iff,
}
use mathlib.Core.Option.{some-injective}
use native.Mathlib.Nat.{pow-suc, one-le-pow, pow-le-pow_right}
use test_gbksoft.Common.Bits.{bit_and-mask, bit_or_lt, agree_below, agree_below→eq}
use test_gbksoft.Common.Digits.{
  bit_at, bit_at-le, bit_at-bit_or, bit_at-power, bit_at-ones, ones_only,
}
use test_gbksoft.Nanopb.Decode.Required.{allbits, set_bits, whole_words, all_seen}
use test_gbksoft.Nanopb.Decode.TotalRequired.{get_elem?-some, word_left}

-- Bit i of an array of words.
unfoldable pub seen_bit : List ℕ → ℕ → ℕ
seen_bit [] i = 0
seen_bit (w ∷ ws) i = if ltb i 32 then bit_at i w else seen_bit ws (i - 32)

unfoldable pub Words : List ℕ → Type 0
Words [] = Unit {0}
Words (w ∷ ws) = (w < 2 ^ 32) × Words ws

pow_lt : (r : ℕ) → r < 32 → 2 ^ r < 2 ^ 32
pow_lt r h = omega (
  arith,
  pow-le-pow_right {n = 2} (omega arith) {i = suc r} {j = 32} h,
  pow-suc 2 r,
  one-le-pow r 2,
)

-- A mark sets its bit, and no other.
pub record IsMarked (ws ws' : List ℕ) (j : ℕ) : Type 0 where
  pub words : Words ws'
  pub size : length ws' ≡ length ws
  pub bits : (i : ℕ) → seen_bit ws' i ≡ (if i == j then 1 else seen_bit ws i)

pub set_bits-IsMarked :
    (q r : ℕ) (ws : List ℕ)
    → Words ws
    → r < 32
    → q < length ws
    → (ws' : List ℕ) × (set_bits q (2 ^ r) ws ≡ some ws') × IsMarked ws ws' (q * 32 + r)
unfolding set_bits seen_bit Words
set_bits-IsMarked q r [] fits h l = absurd (omega (arith, l))
set_bits-IsMarked zero r (w ∷ ws) (fit, fits) h l = (
  bit_or w (2 ^ r) ∷ ws,
  refl,
  record {
    words = (bit_or_lt 32 w (2 ^ r) fit (pow_lt r h), fits);
    size = refl;
    bits = λ i. ground (arith, bit_at-bit_or i w (2 ^ r), bit_at-power i r, bit_at-le i w);
  },
)
set_bits-IsMarked (suc q) r (w ∷ ws) (fit, fits) h l =
    let (ws', e, marked) = set_bits-IsMarked q r ws fits h (omega (arith, l)) in
    (
      w ∷ ws',
      rw e refl,
      record {
        words = (fit, marked.words);
        size = omega (arith, marked.size);
        bits = λ i. ground (arith, marked.bits (i - 32));
      },
    )

-- Whole words have all bits.
whole_words-ones :
    (n i : ℕ) (ws : List ℕ) → whole_words n ws ≡ some true → i < n * 32 → seen_bit ws i ≡ 1
unfolding whole_words seen_bit
whole_words-ones zero i ws e h = absurd (omega (arith, h))
whole_words-ones (suc n) i [] e h = absurd (cc e)
whole_words-ones (suc n) i (w ∷ ws) e h =
    ground (arith, bit_at-ones i 32, whole_words-ones n (i - 32) ws)

ones-whole_words :
    (n : ℕ) (ws : List ℕ)
    → Words ws
    → n ≤ length ws
    → ((i : ℕ) → i < n * 32 → seen_bit ws i ≡ 1)
    → whole_words n ws ≡ some true
unfolding Words whole_words seen_bit
ones-whole_words zero ws fits h ones = refl
ones-whole_words (suc n) [] fits h ones = absurd (omega (arith, h))
ones-whole_words (suc n) (w ∷ ws) fits h ones =
    rw (full) (ones-whole_words n ws (fits.1) (omega (arith, h)) (λ i l. rest i l))
  where
    bit : (k : ℕ) → k < 32 → bit_at k w ≡ 1
    bit k l = ground (arith, ones k (omega (arith, l)))

    full : (w == allbits) ≡ true
    full = ground (
      arith,
      ones_only 32 32 w (omega arith) (fits.0) (λ k l. bit k l)
          (λ k l u. absurd (omega (arith, l, u))),
    )

    shift : (i : ℕ) → i + 32 - 32 ≡ i
    shift i = omega arith

    rest : (i : ℕ) → i < n * 32 → seen_bit ws i ≡ 1
    rest i l = ground (arith, shift i, ones (i + 32) (omega (arith, l)))

-- Bit r of word q.
word-bit :
    (q r w : ℕ) (ws : List ℕ)
    → Words ws
    → get_elem? ws q ≡ some w
    → (w < 2 ^ 32) × (r < 32 → seen_bit ws (q * 32 + r) ≡ bit_at r w)
unfolding seen_bit Words
word-bit q r w [] fits e = absurd (cc e)
word-bit zero r w (v ∷ ws) fits e =
    let same : v ≡ w = some-injective v w e in
    (rw (sym same) (fits.0), λ h. rw (sym same) (ground arith))
word-bit (suc q) r w (v ∷ ws) fits e =
    let (fit, bit) = word-bit q r w ws (fits.1) e in
    (fit, λ h. ground (arith, bit h, back (q * 32 + r)))
  where
    back : (i : ℕ) → i + 32 - 32 ≡ i
    back i = omega arith

low_ones : (r : ℕ) → r < 33 → allbits / 2 ^ (32 - r) ≡ 2 ^ r - 1
unfolding agree_below
low_ones = agree_below→eq (λ r. allbits / 2 ^ (32 - r)) (λ r. 2 ^ r - 1) 33 refl

-- The test of the first `count` bits, where no other is set.
pub all_seen-ones :
    (count : ℕ) (ws : List ℕ)
    → all_seen count ws ≡ some true
    → Words ws
    → (i : ℕ) → i < count
    → seen_bit ws i ≡ 1
unfolding all_seen
all_seen-ones count ws e fits i h = by_words (whole_words q ws) refl
  where
    q : ℕ
    q = count / 2 ^ 5

    nonzero : (ltb i (q * 32)) ≡ false → (bit_and count 31 == 0) ≡ false
    nonzero n = ground (arith, bit_and-mask 5 count)

    place : ltb i (q * 32) ≡ false → q * 32 + (i - q * 32) ≡ i
    place n = ground arith

    of_last :
        (v : ℕ)
        → ltb i (q * 32) ≡ false
        → get_elem? ws q ≡ some v
        → v ≡ allbits / 2 ^ (32 - bit_and count 31)
        → seen_bit ws i ≡ 1
    of_last v n g same =
        let k = i - q * 32 in
        let small : k < count % 2 ^ 5 = ground (arith) in
        let bit = (word-bit q k v ws fits g).1 (omega (arith, small)) in
        let ones : v ≡ 2 ^ (count % 2 ^ 5) - 1 =
          rw (sym (low_ones (count % 2 ^ 5) (omega arith)), sym (bit_and-mask 5 count)) same in
        ap (seen_bit ws) (sym (place n)) ∙ bit ∙ ap (bit_at k) ones ∙ bit_at-ones k _ small

    by_last :
        (o : Option ℕ)
        → ltb i (q * 32) ≡ false
        → whole_words q ws ≡ some true
        → get_elem? ws q ≡ o
        → seen_bit ws i ≡ 1
    by_last none n w g =
        let absent : all_seen count ws ≡ none = rw (all_seen, w, nonzero n, g) refl in
        absurd (cc (e, absent))
    by_last (some v) n w g =
        let tested : all_seen count ws ≡ some (v == allbits / 2 ^ (32 - bit_and count 31)) =
          rw (all_seen, w, nonzero n, g) refl in
        of_last v n g ((==_iff v _).0 (some-injective _ true (sym tested ∙ e)))

    by_words : (o : Option Bool) → whole_words q ws ≡ o → seen_bit ws i ≡ 1
    by_words none w =
        let absent : all_seen count ws ≡ none = rw (all_seen, w) refl in absurd (cc (e, absent))
    by_words (some false) w =
        let refused : all_seen count ws ≡ some false = rw (all_seen, w) refl in
        absurd (cc (e, refused))
    by_words (some true) w = elim (Bool-cases (ltb i (q * 32))) [
      | inl y ↦ whole_words-ones q i ws w (ground arith)
      | inr n ↦ by_last (get_elem? ws q) n w refl
    ]

pub ones-all_seen :
    (count : ℕ) (ws : List ℕ)
    → Words ws
    → length ws ≡ 2
    → count ≤ 64
    → ((i : ℕ) → i < count → seen_bit ws i ≡ 1)
    → ((i : ℕ) → count ≤ i → i < 64 → seen_bit ws i ≡ 0)
    → all_seen count ws ≡ some true
unfolding all_seen
ones-all_seen count ws fits two small ones zeros =
    let q = count / 2 ^ 5 in
    let whole =
      ones-whole_words q ws fits (omega (arith, two, small)) (λ i h. ones i (omega (arith, h))) in
    elim (Bool-cases (bit_and count 31 == 0)) [
      | inl z ↦ rw (all_seen, whole, z) refl
      | inr n ↦
          let (w, g) = get_elem?-some q ws (omega (arith, two, word_left count small n)) in
          rw (all_seen, whole, n, g) (ap (λ b. some b) (full w n g))
    ]
  where
    full :
        (w : ℕ)
        → (bit_and count 31 == 0) ≡ false
        → get_elem? ws (count / 2 ^ 5) ≡ some w
        → (w == allbits / 2 ^ (32 - bit_and count 31)) ≡ true
    full w n g = rw (bit_and-mask 5 count) (
        ground (
          arith,
          low_ones (count % 2 ^ 5) (omega arith),
          ones_only (count % 2 ^ 5) 32 w (omega arith) ((word-bit (count / 2 ^ 5) 0 w ws fits g).0)
              (λ k h.
                sym ((word-bit (count / 2 ^ 5) k w ws fits g).1 (omega (arith, h)))
                ∙ ones _ (omega (arith, h)))
              (λ k l h.
                sym ((word-bit (count / 2 ^ 5) k w ws fits g).1 h)
                ∙ zeros _ (omega (arith, l)) (omega (arith, h, word_left count small n))),
        ))
