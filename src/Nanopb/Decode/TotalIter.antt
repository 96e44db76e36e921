-- ===== src/Nanopb/Decode/TotalIter.antt =====
-- find_extension_field and the count of required fields, from every field of a message without
-- extension fields.
use test_gbksoft.Common.{
  ℕ, zero, suc, ◌+◌, ◌^◌, ◌%◌, ◌≤◌, ◌≡◌, ◌≢◌, refl, ◌∙◌, ap, arith, Bool, true, false, ◌&&◌, not,
  ◌==◌, if◌then◌else◌, some, List, length, get_elem?, inl, inr, ltb,
}
use test_gbksoft.Common.Outcome.{ok}
use native.Mathlib.Decide.{dec_lt}
use test_gbksoft.Nanopb.Types.{Field, ltype, IsU32}
use test_gbksoft.Nanopb.Iter.{FieldIter, wanted, find_loop, find}
use test_gbksoft.Nanopb.Iter.Table.{IsTable, next-inside, next_last, length-IsTable}
use test_gbksoft.Nanopb.Iter.Spot.{
  IsSpot, IsSpot-field, end_at, Wanted, find-IsSpot, next_end, next-IsSpot,
}
use test_gbksoft.Nanopb.Decode.Extension.{extension_search, find_extension_field}
use test_gbksoft.Nanopb.Decode.Required.{count_loop, required_count, max_required_fields}
use test_gbksoft.Nanopb.Types.{htype}
use test_gbksoft.Nanopb.Iter.{begin_at}
use test_gbksoft.Nanopb.Iter.Table.{begin_at-At}

-- No extension, as a test.
pub not_extension : (l : ℕ) → l ≢ 8 → (l == 8) ≡ false
not_extension l h = ground arith

module _ (fs : List Field) (n dest : ℕ) (t : IsTable fs n)
    (regular : (i : ℕ) (f : Field) → get_elem? fs i ≡ some f → (ltype f.type == 8) ≡ false)
    (fits : (i : ℕ) (f : Field) → get_elem? fs i ≡ some f → IsU32 f.tag) where
  -- No field has this tag, and none is an extension.
  never_wanted : (f : Field) → IsU32 f.tag → (f.tag == 2 ^ 32) ≡ false
  never_wanted f h = ground arith

  not_wanted : (f : Field) → (f.tag == 2 ^ 32) ≡ false → wanted (2 ^ 32) f ≡ false
  not_wanted f h = rw h refl

  -- The two searches go through the same fields.
  extension_search-find_loop :
      (fuel start : ℕ) (it : FieldIter)
      → IsSpot fs n dest it
      → extension_search fuel start it ≡ find_loop fuel start (2 ^ 32) it
  unfolding extension_search find_loop
  extension_search-find_loop zero start it spot = refl
  extension_search-find_loop (suc fuel) start it spot =
      let (f, e, e') = IsSpot-field fs n dest t it spot in
      let (b, it', step, spot') = next-IsSpot fs n dest t it spot in
      rw
        (
          e',
          regular it.pos f e,
          never_wanted f (fits it.pos f e),
          step,
          extension_search-find_loop fuel start it' spot',
        )
        refl

  -- find_extension_field ends, and finds none.
  pub find_extension_field-none :
      (it : FieldIter)
      → IsSpot fs n dest it
      → (it' : FieldIter) × (find_extension_field it ≡ ok false it') × IsSpot fs n dest it'
  unfolding find_extension_field find
  find_extension_field-none it spot =
      let (b, it', e, spot', w) = find-IsSpot fs n dest t (2 ^ 32) it spot in
      (
        it',
        extension_search-find_loop (length it.start) it.pos it spot
            ∙ e
            ∙ ap (λ (x : Bool). ok x it') (never b it' w),
        spot',
      )
    where
      never : (b : Bool) (it' : FieldIter) → Wanted fs (2 ^ 32) b it' → b ≡ false
      never false it' w = refl
      never true it' w =
          let (f, e, v) = w refl in
          absurd (cc (v, not_wanted f (never_wanted f (fits it'.pos f e))))

module _ (fs : List Field) (n dest : ℕ) (t : IsTable fs n) where
  -- The do-while ends, at a field of the message.
  count_loop-ends :
      (fuel : ℕ) (it : FieldIter)
      → IsSpot fs n dest it
      → n ≤ it.pos + fuel
      → 1 ≤ fuel
      → (r : ℕ × ℕ) × (it' : FieldIter) × (count_loop fuel it ≡ ok r it')
        × ((f : Field) × (get_elem? it'.start it'.pos ≡ some f))
  unfolding count_loop
  count_loop-ends zero it spot h pos = absurd (omega arith)
  count_loop-ends (suc fuel) it spot h pos =
      let (f, e, e') = IsSpot-field fs n dest t it spot in
      elim (spot.inside) [
        | inl inside ↦ elim (dec_lt (suc it.pos) n) [
          | yes more ↦
              let (it', step, a) = next-inside fs n dest t it.pos it spot.here more in
              let (r, it'', rest, d) =
                count_loop-ends fuel it'
                  (record { here = (a.0, a.1, refl); inside = inl (omega (arith, a.2, more)) })
                  (omega (arith, a.2, h)) (omega (arith, h, more)) in
              (r, it'', rw (e', step) rest, d)
          | no last ↦
              let (first, e0, step) = next_last fs n dest t it.pos it spot.here (omega arith) in
              let (bs, bd, bp) = begin_at-At fs dest first in
              (
                (it.required_field_index, f.type),
                begin_at fs dest first,
                rw (e', step) refl,
                (first, rw (bs, bp) e0),
              )
        ]
        | inr (none_here, first) ↦
            let (g, e2, z) = end_at fs n dest t it spot.here.0 none_here first in
            ((it.required_field_index, g.type), it, rw (e2, next_end it g e2 z) refl, (g, e2))
      ]

  -- The number of required fields that are checked is 64 at most.
  pub required_count-bound :
      (it : FieldIter)
      → IsSpot fs n dest it
      → (c : ℕ) × (it' : FieldIter) × (required_count it ≡ ok c it') × (c ≤ max_required_fields)
  unfolding required_count
  required_count-bound it spot =
      let (r, it', e, (f, e')) =
        count_loop-ends (length it.start) it spot
          (omega (arith, length-IsTable fs n t, ap (length {A = Field}) spot.here.0))
          (omega (arith, length-IsTable fs n t, ap (length {A = Field}) spot.here.0)) in
      let total = if (htype r.1 == 0) && not (f.tag == 0) then (r.0 + 1) % 2 ^ 32 else r.0 in
      (
        (if ltb max_required_fields total then max_required_fields else total),
        it',
        rw (e, e') refl,
        capped total,
      )
    where
      capped :
          (total : ℕ)
          → (if ltb max_required_fields total then max_required_fields else total)
            ≤ max_required_fields
      capped total = ground arith
