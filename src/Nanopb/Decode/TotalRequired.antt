-- ===== src/Nanopb/Decode/TotalRequired.antt =====
-- The words of the required fields are never left: there are two, for 64 fields.
use test_gbksoft.Common.{
  ℕ, zero, suc, ◌-◌, ◌/◌, ◌^◌, ◌≤◌, ◌<◌, ◌≡◌, refl, arith, Bool, true, false, ◌&&◌, ltb, ◌==◌,
  if◌then◌else◌, some, Option, List, [], ◌∷◌, length, get_elem?, bit_and, bit_or, Bool-cases, inl,
  inr,
}
use test_gbksoft.Common.Bits.{bit_and-mask}
use test_gbksoft.Nanopb.Types.{Field, htype}
use test_gbksoft.Nanopb.Iter.{FieldIter}
use test_gbksoft.Nanopb.Decode.Required.{
  allbits, set_bits, mark_seen, whole_words, all_seen, max_required_fields,
}

set_bits-some :
    (i bits : ℕ) (ws : List ℕ)
    → i < length ws
    → (ws' : List ℕ) × (set_bits i bits ws ≡ some ws') × (length ws' ≡ length ws)
unfolding set_bits
set_bits-some i bits [] h = absurd (omega arith)
set_bits-some zero bits (w ∷ ws) h = (bit_or w bits ∷ ws, refl, refl)
set_bits-some (suc i) bits (w ∷ ws) h =
    let (ws', e, l) = set_bits-some i bits ws (omega (arith, h)) in
    (w ∷ ws', rw e refl, omega (arith, l))

below_two : (b : Bool) (index : ℕ) → (b && ltb index 64) ≡ true → index / 2 ^ 5 < 2
below_two b index e = ground arith

-- A mark is within the words.
pub mark_seen-some :
    (f : Field) (it : FieldIter) (seen : List ℕ)
    → length seen ≡ 2
    → (seen' : List ℕ) × (mark_seen f it seen ≡ some seen') × (length seen' ≡ 2)
unfolding mark_seen
mark_seen-some f it seen h =
    elim (Bool-cases ((htype f.type == 0) && ltb it.required_field_index 64)) [
      | inl e ↦
          let index = it.required_field_index in
          let (seen', s, l) =
            set_bits-some (index / 2 ^ 5) (2 ^ bit_and index 31) seen
              (omega (arith, h, below_two (htype f.type == 0) index e)) in
          (seen', rw (e, s) refl, omega (arith, l, h))
      | inr n ↦ (seen, rw n refl, h)
    ]

whole_words-some : (n : ℕ) (ws : List ℕ) → n ≤ length ws → (b : Bool) × (whole_words n ws ≡ some b)
unfolding whole_words
whole_words-some zero ws h = (true, refl)
whole_words-some (suc n) [] h = absurd (omega arith)
whole_words-some (suc n) (w ∷ ws) h =
    let (b, e) = whole_words-some n ws (omega (arith, h)) in
    ((if w == allbits then b else false), pick (w == allbits) b (whole_words n ws) e)
  where
    pick :
        (c b : Bool) (o : Option Bool)
        → o ≡ some b
        → (if c then o else some false) ≡ some (if c then b else false)
    pick true b o e = e
    pick false b o e = refl

pub get_elem?-some : (i : ℕ) (ws : List ℕ) → i < length ws → (w : ℕ) × (get_elem? ws i ≡ some w)
get_elem?-some i [] h = absurd (omega arith)
get_elem?-some zero (w ∷ ws) h = (w, refl)
get_elem?-some (suc i) (w ∷ ws) h = get_elem?-some i ws (omega (arith, h))

pub word_left : (count : ℕ) → count ≤ 64 → (bit_and count 31 == 0) ≡ false → count / 2 ^ 5 < 2
word_left count h n = ground (arith, bit_and-mask 5 count)

-- The test reads within the words.
pub all_seen-some :
    (count : ℕ) (seen : List ℕ)
    → length seen ≡ 2
    → count ≤ max_required_fields
    → (b : Bool) × (all_seen count seen ≡ some b)
unfolding all_seen
all_seen-some count seen h small =
    let (b, e) = whole_words-some (count / 2 ^ 5) seen (omega (arith, h, small)) in by_words b e
  where
    by_words :
        (b : Bool)
        → whole_words (count / 2 ^ 5) seen ≡ some b
        → (b : Bool) × (all_seen count seen ≡ some b)
    by_words false e = (false, rw (all_seen, e) refl)
    by_words true e = elim (Bool-cases (bit_and count 31 == 0)) [
      | inl z ↦ (true, rw (all_seen, e, z) refl)
      | inr n ↦
          let (w, g) =
            get_elem?-some (count / 2 ^ 5) seen (omega (arith, h, word_left count small n)) in
          (w == allbits / 2 ^ (32 - bit_and count 31), rw (all_seen, e, n, g) refl)
    ]
