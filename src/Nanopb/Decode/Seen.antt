-- ===== src/Nanopb/Decode/Seen.antt =====
-- The bits that pb_decode_noinit of pb_decode.c keeps for the required fields, against a search
-- of the fields that were found.
use test_gbksoft.Common.{
  ℕ, zero, suc, ◌-◌, ◌/◌, ◌^◌, ◌≤◌, ◌<◌, ◌≡◌, inl, inr, refl, sym, ◌∙◌, ap, arith, Bool, true,
  false, ◌&&◌, ◌||◌, ltb, ◌==◌, if◌then◌else◌, some, none, Option, List, [], ◌∷◌, length, bit_and,
  Bool-cases, ==_iff,
}
use test_gbksoft.Common.Bits.{bit_and-mask}
use test_gbksoft.Common.Digits.{bit_at-zero}
use test_gbksoft.Common.Outcome.{ok}
use test_gbksoft.Nanopb.Types.{Field, htype, missing_required_field}
use test_gbksoft.Nanopb.Types.Htype
use test_gbksoft.Nanopb.Iter.{FieldIter}
use test_gbksoft.Nanopb.Decode.Required.{
  max_required_fields, mark_seen, all_seen, check_required, seen_error,
}
use test_gbksoft.Nanopb.Decode.State.{DecState, return_error}
use test_gbksoft.Nanopb.Decode.TotalRequired.{all_seen-some}
use test_gbksoft.Nanopb.Decode.SeenBits.{
  seen_bit, Words, set_bits-IsMarked, all_seen-ones, ones-all_seen,
}

-- The fields that were found, with the place of the iterator, mark their bits.
unfoldable pub mark_all : List (Field × FieldIter) → List ℕ → Option (List ℕ)
unfolding mark_seen
mark_all [] seen = some seen
mark_all ((f, it) ∷ finds) seen = elim (mark_seen f it seen) [
  | none ↦ none
  | some seen' ↦ mark_all finds seen'
]

unfoldable pub found : ℕ → List (Field × FieldIter) → Bool
found i [] = false
found i ((f, it) ∷ finds) =
    ((htype f.type == Htype.required) && (it.required_field_index == i)) || found i finds

unfoldable pub all_found : ℕ → List (Field × FieldIter) → Bool
unfolding found
all_found zero finds = true
all_found (suc n) finds = found n finds && all_found n finds

record IsSeen (b : ℕ → Bool) (ws ws' : List ℕ) : Type 0 where
  words : Words ws'
  size : length ws' ≡ 2
  bits : (i : ℕ) → i < 64 → seen_bit ws' i ≡ (if b i then 1 else seen_bit ws i)

mark_seen-IsSeen :
    (f : Field) (it : FieldIter) (ws : List ℕ)
    → Words ws
    → length ws ≡ 2
    → (ws' : List ℕ) × (mark_seen f it ws ≡ some ws')
      × IsSeen (λ i. (htype f.type == Htype.required) && (it.required_field_index == i)) ws ws'
unfolding mark_seen
mark_seen-IsSeen f it ws fits two =
    elim (Bool-cases ((htype f.type == Htype.required) && ltb it.required_field_index 64)) [
      | inl y ↦
          let index = it.required_field_index in
          let (ws', e, marked) =
            set_bits-IsMarked (index / 2 ^ 5) (bit_and index 31) ws fits
              (omega (arith, bit_and-mask 5 index)) (small (htype f.type == 0) index y) in
          (
            ws',
            rw (y, e) refl,
            record {
              words = marked.words;
              size = marked.size ∙ two;
              bits = λ i h. ground (arith, marked.bits i, bit_and-mask 5 index, y);
            },
          )
      | inr n ↦
          (ws, rw n refl, record { words = fits; size = two; bits = λ i h. ground (arith, n) })
    ]
  where
    small : (b : Bool) (index : ℕ) → (b && ltb index 64) ≡ true → index / 2 ^ 5 < length ws
    small b index e = ground (arith, two)

mark_all-IsSeen :
    (finds : List (Field × FieldIter)) (ws : List ℕ)
    → Words ws
    → length ws ≡ 2
    → (ws' : List ℕ) × (mark_all finds ws ≡ some ws') × IsSeen (λ i. found i finds) ws ws'
unfolding mark_all found
mark_all-IsSeen [] ws fits two = (ws, refl, record { words = fits; size = two; bits = λ i h. refl })
mark_all-IsSeen ((f, it) ∷ finds) ws fits two =
    let (ws1, e1, seen1) = mark_seen-IsSeen f it ws fits two in
    let (ws2, e2, seen2) = mark_all-IsSeen finds ws1 seen1.words seen1.size in
    (
      ws2,
      rw (mark_all, e1, e2) refl,
      record {
        words = seen2.words;
        size = seen2.size;
        bits = λ i h. ground (arith, seen1.bits i h, seen2.bits i h);
      },
    )

all_found→found :
    (n : ℕ) (finds : List (Field × FieldIter))
    → all_found n finds ≡ true
    → (i : ℕ) → i < n
    → found i finds ≡ true
unfolding all_found
all_found→found zero finds e i h = absurd (omega (arith, h))
all_found→found (suc n) finds e i h = elim (Bool-cases (i == n)) [
  | inl y ↦ ap (λ j. found j finds) ((==_iff i n).0 y) ∙ both.0
  | inr m ↦ all_found→found n finds (both.1) i (ground arith)
]
  where
    both : (found n finds ≡ true) × (all_found n finds ≡ true)
    both = ground (arith, e)

found→all_found :
    (n : ℕ) (finds : List (Field × FieldIter))
    → ((i : ℕ) → i < n → found i finds ≡ true)
    → all_found n finds ≡ true
unfolding all_found
found→all_found zero finds h = refl
found→all_found (suc n) finds h =
    ground (arith, h n (omega arith), found→all_found n finds (λ i l. h i (omega (arith, l))))

none_marked : (i : ℕ) → seen_bit (0 ∷ 0 ∷ []) i ≡ 0
unfolding seen_bit
none_marked i = ground (arith, bit_at-zero i, bit_at-zero (i - 32))

all_seen-all_found :
    (finds : List (Field × FieldIter)) (count : ℕ) (seen : List ℕ)
    → IsSeen (λ i. found i finds) (0 ∷ 0 ∷ []) seen
    → count ≤ 64
    → ((i : ℕ) → count ≤ i → i < 64 → found i finds ≡ false)
    → all_seen count seen ≡ some (all_found count finds)
all_seen-all_found finds count seen marked small beyond =
    let (b, e) = all_seen-some count seen marked.size small in
    by_answer b (all_found count finds) e refl
  where
    one : (i : ℕ) → i < 64 → found i finds ≡ true → seen_bit seen i ≡ 1
    one i h e = rw (marked.bits i h, e) refl

    unset : (i : ℕ) → i < 64 → found i finds ≡ false → seen_bit seen i ≡ 0
    unset i h e = rw (marked.bits i h, e) (none_marked i)

    was : (i : ℕ) → i < 64 → seen_bit seen i ≡ 1 → found i finds ≡ true
    was i h e = ground (arith, marked.bits i h, none_marked i)

    by_answer :
        (b c : Bool)
        → all_seen count seen ≡ some b
        → all_found count finds ≡ c
        → all_seen count seen ≡ some (all_found count finds)
    by_answer b true e c =
        ones-all_seen count seen marked.words marked.size small
          (λ i h. one i (omega (arith, h, small)) (all_found→found count finds c i h))
          (λ i h l. unset i l (beyond i h l))
        ∙ ap (λ b. some b) (sym c)
    by_answer true false e c = absurd (
        cc (
          c,
          found→all_found count finds (λ i h.
              was i (omega (arith, h, small)) (all_seen-ones count seen e marked.words i h)),
        ))
    by_answer false false e c = e ∙ ap (λ b. some b) (sym c)

module _ {σ η : Type 0} where
  -- For fields found one after the other, each with an iterator at it, and a count of at most
  -- PB_MAX_REQUIRED_FIELDS, where no required one of them has an index from the count to 63:
  -- pb_decode_noinit marks them all within the words of fields_seen, and its check of the words
  -- accepts just if each index below the count is that of a required field that was found;
  -- otherwise it reports "missing required field".
  pub check_required-all_found :
      (finds : List (Field × FieldIter)) (count : ℕ) (it : FieldIter) (s : DecState σ η)
      → count ≤ max_required_fields
      → ((i : ℕ) → count ≤ i → i < max_required_fields → found i finds ≡ false)
      → (seen : List ℕ) × (mark_all finds (0 ∷ 0 ∷ []) ≡ some seen)
        × (check_required seen (ok count it) s
            ≡ (if all_found count finds then ok tt s else return_error missing_required_field s))
  unfolding check_required seen_error Words
  check_required-all_found finds count it s small beyond =
      let (seen, e, marked) = mark_all-IsSeen finds (0 ∷ 0 ∷ []) start refl in
      (seen, e, answer seen (all_seen-all_found finds count seen marked small beyond))
    where
      start : Words (0 ∷ 0 ∷ [])
      start = (omega arith, (omega arith, tt))

      told :
          (b : Bool)
          → seen_error (some b) s ≡ (if b then ok tt s else return_error missing_required_field s)
      told true = refl
      told false = refl

      answer :
          (seen : List ℕ)
          → all_seen count seen ≡ some (all_found count finds)
          → check_required seen (ok count it) s
            ≡ (if all_found count finds then ok tt s else return_error missing_required_field s)
      answer seen e = rw (e) (told (all_found count finds))
