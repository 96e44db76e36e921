-- ===== src/Nanopb/Decode/Unknown.antt =====
-- pb_decode_noinit at a field number that the message does not have.
use test_gbksoft.Common.{
  ℕ, ◌-◌, ◌^◌, ◌<◌, ◌≡◌, ◌≢◌, refl, ap, arith, Bool, true, false, ltb, ◌==◌, List, some, get_elem?,
  lt→ltb, Bool-cases, inl, inr, ==_iff, ◌∙◌,
}
use test_gbksoft.Common.Outcome.{ok, M, bind_outcome}
use test_gbksoft.Nanopb.Types.{Field, FieldPtr, IsU32, ltype}
use test_gbksoft.Nanopb.Types.Ltype
use test_gbksoft.Nanopb.Memory.{Mem}
use test_gbksoft.Nanopb.Iter.{FieldIter, wanted, find}
use test_gbksoft.Nanopb.Iter.Table.{IsTable}
use test_gbksoft.Nanopb.Iter.Spot.{IsSpot, Wanted, find-IsSpot}
use test_gbksoft.Nanopb.Input.Wire.{Tag, skip_field}
use test_gbksoft.Nanopb.Decode.State.{DecState, on_stream}
use test_gbksoft.Nanopb.Decode.Env.{Env}
use test_gbksoft.Nanopb.Decode.Message.{
  Progress, skipped, try_extension, unknown_field, decode_tagged,
}
use test_gbksoft.Nanopb.Decode.TotalIter.{not_extension, find_extension_field-none}

module _ {σ η : Type 0} (env : Env σ η) (func : Field → ℕ → M (DecState σ η) (Unit {0}))
    (defaults : FieldPtr → ℕ → M Mem (Unit {0})) (release : FieldIter → M (DecState σ η) (Unit {0}))
    (local lists : ℕ) (fs : List Field) (n dest : ℕ) (t : IsTable fs n)
    (regular : (i : ℕ) (f : Field) → get_elem? fs i ≡ some f → ltype f.type ≢ Ltype.extension)
    (tag_fits : (i : ℕ) (f : Field) → get_elem? fs i ≡ some f → IsU32 f.tag) where
  other_tag : (tag : ℕ) (f : Field) → f.tag ≢ tag → wanted tag f ≡ false
  other_tag tag f h = elim (Bool-cases (f.tag == tag)) [
    | inl e ↦ absurd (h ((==_iff f.tag tag).0 e))
    | inr e ↦ rw e refl
  ]

  not_found :
      (tag : ℕ) (b : Bool) (it : FieldIter)
      → ((i : ℕ) (f : Field) → get_elem? fs i ≡ some f → f.tag ≢ tag)
      → Wanted fs tag b it
      → b ≡ false
  not_found tag false it unknown w = refl
  not_found tag true it unknown w =
      let (f, e, v) = w refl in absurd (cc (v, other_tag tag f (unknown it.pos f e)))

  -- For a message whose descriptors are in order, without extension fields and with tags of 32
  -- bits, from any field of it, and a tag below 2 ^ 29 that none of its fields has: the body of
  -- the loop of pb_decode_noinit does, on every state, what pb_skip_field does for the wire type,
  -- and changes none of the variables of pb_decode_noinit but the iterator, which stays in the
  -- message, and extension_range_start.
  pub decode_tagged-unknown :
      (tag : Tag) (st : Progress)
      → IsSpot fs n dest st.iter
      → ((i : ℕ) (f : Field) → get_elem? fs i ≡ some f → f.tag ≢ tag.tag)
      → tag.tag < 2 ^ 29
      → (it : FieldIter) × (start : ℕ) × IsSpot fs n dest it
        × ((s : DecState σ η)
            → decode_tagged env func defaults release local lists tag st s
              ≡ bind_outcome
                  (on_stream (skip_field tag.wire_type) s)
                  (λ _. ok (record st { iter = it; extension_range_start = start })))
  unfolding decode_tagged unknown_field try_extension skipped
  decode_tagged-unknown tag st spot unknown h =
      let (b, it, e, spot', w) = find-IsSpot fs n dest t tag.tag st.iter spot in
      let (it2, e2, spot2) =
        find_extension_field-none fs n dest t
          (λ i f e. not_extension (ltype f.type) (regular i f e)) tag_fits it spot' in
      let missing : find tag.tag st.iter ≡ ok false it =
        e ∙ ap (λ (x : Bool). ok x it) (not_found tag.tag b it unknown w) in
      elim (Bool-cases (ltb tag.tag st.extension_range_start)) [
        | inl below ↦
            (it, st.extension_range_start, spot', λ s. rw (decode_tagged, missing, below) refl)
        | inr above ↦ (
          it2,
          2 ^ 32 - 1,
          spot2,
          λ s.
              rw (decode_tagged, missing, above, e2, lt→ltb tag.tag (2 ^ 32 - 1) (omega (arith, h)))
                refl,
        )
      ]
