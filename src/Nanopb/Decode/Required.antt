-- ===== src/Nanopb/Decode/Required.antt =====
-- The required fields in pb_decode_noinit of pb_decode.c: those seen, and the check at the end.
use test_gbksoft.Common.{
  ℕ, zero, suc, ◌+◌, ◌-◌, ◌/◌, ◌%◌, ◌^◌, Bool, true, false, not, ◌&&◌, ltb, ◌==◌,
}
use test_gbksoft.Common.{
  if◌then◌else◌, bit_and, bit_or, Option, none, some, List, [], ◌∷◌, length, get_elem?,
}
use test_gbksoft.Common.Outcome.{Outcome, ok, fail, fault, stuck, M, bind_outcome}
use test_gbksoft.Nanopb.Types.{Field, htype, missing_required_field}
use test_gbksoft.Nanopb.Types.Htype
use test_gbksoft.Nanopb.Iter.{FieldIter, with_field, next}
use test_gbksoft.Nanopb.Input.Wire.{}
use test_gbksoft.Nanopb.Decode.State.{DecState, return_error}

-- PB_MAX_REQUIRED_FIELDS, and `allbits`.
abbrev pub max_required_fields : ℕ
max_required_fields = 64

abbrev pub allbits : ℕ
allbits = 2 ^ 32 - 1

-- `words[i] |= bits`
unfoldable pub set_bits : ℕ → ℕ → List ℕ → Option (List ℕ)
set_bits i bits [] = none
set_bits zero bits (w ∷ ws) = some (bit_or w bits ∷ ws)
set_bits (suc i) bits (w ∷ ws) = elim (set_bits i bits ws) [
  | none ↦ none
  | some ws' ↦ some (w ∷ ws')
]

-- A required field was found.
unfoldable pub mark_seen : Field → FieldIter → List ℕ → Option (List ℕ)
unfolding set_bits
mark_seen f it seen =
    let index = it.required_field_index in
    let marked = set_bits (index / 2 ^ 5) (2 ^ bit_and index 31) seen in
    if (htype f.type == Htype.required) && ltb index max_required_fields then marked else some seen

-- The first words have all bits.
unfoldable pub whole_words : ℕ → List ℕ → Option Bool
whole_words zero ws = some true
whole_words (suc n) [] = none
whole_words (suc n) (w ∷ ws) = if w == allbits then whole_words n ws else some false

-- All of the first `count` bits are set.
unfoldable pub all_seen : ℕ → List ℕ → Option Bool
unfolding whole_words
all_seen count seen =
    let rest = bit_and count 31 in
    let remaining : Option Bool = elim (get_elem? seen (count / 2 ^ 5)) [
      | none ↦ none
      | some w ↦ some (w == allbits / 2 ^ (32 - rest))
    ] in
    elim (whole_words (count / 2 ^ 5) seen) [
      | none ↦ none
      | some false ↦ some false
      | some true ↦ if rest == 0 then some true else remaining
    ]

-- The do-while to the end of the descriptors: `req_field_count` and `last_type`.
unfoldable pub count_loop : ℕ → FieldIter → Outcome FieldIter (ℕ × ℕ)
count_loop zero it = stuck
count_loop (suc fuel) it = with_field (get_elem? it.start it.pos) λ f. elim (next it) [
  | ok true it' ↦ count_loop fuel it'
  | ok false it' ↦ ok (it.required_field_index, f.type) it'
  | fail it' ↦ fault
  | fault ↦ fault
  | stuck ↦ stuck
]

-- The number of required fields that are checked.
unfoldable pub required_count : FieldIter → Outcome FieldIter ℕ
unfolding count_loop
required_count it = bind_outcome (count_loop (length it.start) it) λ (count, last_type) it'.
    with_field (get_elem? it'.start it'.pos) λ f.
      let total =
        if (htype last_type == Htype.required) && not (f.tag == 0)
        then (count + 1) % 2 ^ 32
        else count in
      ok (if ltb max_required_fields total then max_required_fields else total) it'

module _ {σ η : Type 0} where
  unfoldable pub seen_error : Option Bool → M (DecState σ η) (Unit {0})
  seen_error none s = fault
  seen_error (some true) s = ok tt s
  seen_error (some false) s = return_error missing_required_field s

  unfoldable pub check_required : List ℕ → Outcome FieldIter ℕ → M (DecState σ η) (Unit {0})
  unfolding seen_error all_seen
  check_required seen (ok count it) s = seen_error (all_seen count seen) s
  check_required seen (fail it) s = fault
  check_required seen fault s = fault
  check_required seen stuck s = stuck
