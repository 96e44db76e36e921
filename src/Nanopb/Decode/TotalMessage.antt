-- ===== src/Nanopb/Decode/TotalMessage.antt =====
-- pb_decode_noinit on every input, of a message whose submessages are decoded by `func`.
use test_gbksoft.Common.{
  ℕ, zero, suc, ◌-◌, ◌^◌, ◌≤◌, ◌<◌, ◌≡◌, refl, arith, Bool, true, false, not, ltb, ◌==◌, ==_iff,
  none, some, List, [], ◌∷◌, get_elem?, lt→ltb,
}
use test_gbksoft.Common.Outcome.{ok, M}
use test_gbksoft.Nanopb.Types.{Field, FieldPtr, IsU32, ltype}
use test_gbksoft.Nanopb.Memory.{Mem, store}
use test_gbksoft.Nanopb.Iter.{FieldIter, find}
use test_gbksoft.Nanopb.Iter.Table.{IsTable}
use test_gbksoft.Nanopb.Iter.Spot.{IsSpot, IsSpot-field, find-IsSpot, begin-IsSpot}
use test_gbksoft.Nanopb.Input.SafeReaders.{skip_field-IsSafe}
use test_gbksoft.Nanopb.Input.Ahead.{ahead_here}
use test_gbksoft.Nanopb.Input.Wire.{Tag, skip_field}
use test_gbksoft.Nanopb.Decode.State.{DecState, on_stream}
use test_gbksoft.Nanopb.Decode.Env.{Env}
use test_gbksoft.Nanopb.Decode.Field.{decode_field}
use test_gbksoft.Nanopb.Decode.Message.{
  Progress, finish_message, fixed_count, marked, known_field, skipped, try_extension, unknown_field,
  decode_tagged, message_loop, decode_message,
}
use test_gbksoft.Nanopb.Decode.Total.{
  finishes_ok, Finishes-if, Finishes-bind, Total, Total-bind, Total-if, Total-ok, Total-fail,
  Total-field, on_stream-Total,
}
use test_gbksoft.Nanopb.Decode.TotalValues.{Free, IsTag-Total}
use test_gbksoft.Nanopb.Decode.TotalIter.{find_extension_field-none}
use test_gbksoft.Nanopb.Decode.TotalCallback.{IsCallback}
use test_gbksoft.Nanopb.Decode.TotalField.{IsDecodable, decode_field-Total}
use test_gbksoft.Nanopb.Decode.TotalRequired.{mark_seen-some}
use test_gbksoft.Nanopb.Decode.TotalFinish.{IsSound, fixed_count-Total, finish_message-Total}

module _ {σ η : Type 0} (env : Env σ η)
    (callbacks : (callback : ℕ) (f : Field) (arg : ℕ)
      → IsCallback (env.decode_callback callback f arg))
    (func : Field → ℕ → M (DecState σ η) (Unit {0})) (defaults : FieldPtr → ℕ → M Mem (Unit {0}))
    (release : FieldIter → M (DecState σ η) (Unit {0})) (fs : List Field) (n dest : ℕ)
    (t : IsTable fs n)
    (decodable : (i : ℕ) (f : Field) → get_elem? fs i ≡ some f → IsDecodable func defaults f)
    (frees : (it : FieldIter) (l : ℕ) → IsSpot fs n dest it → Total l Free (release it))
    (regular : (i : ℕ) (f : Field) → get_elem? fs i ≡ some f → (ltype f.type == 8) ≡ false)
    (tag_fits : (i : ℕ) (f : Field) → get_elem? fs i ≡ some f → IsU32 f.tag) (local lists : ℕ) where
  abbrev pub Sound : Progress → ℕ → Type 0
  Sound st l = IsSound fs n dest st

  moved :
      (st : Progress) (it : FieldIter) (start : ℕ)
      → IsSound fs n dest st
      → IsSpot fs n dest it
      → IsSound fs n dest (record st { iter = it; extension_range_start = start })
  moved st it start sound spot = record { spot = spot; words = sound.words; place = sound.place }

  known_field-Total :
      (left wire_type : ℕ) (st : Progress)
      → IsSound fs n dest st
      → Total left Sound (known_field env func defaults release local lists wire_type st)
  unfolding known_field marked
  known_field-Total left wire_type st sound =
      let (f, e, e') = IsSpot-field fs n dest t st.iter sound.spot in
      Total-field (get_elem? st.iter.start st.iter.pos) f _ e' (
        Total-bind Sound (fixed_count local f st) _
          (fixed_count-Total fs n dest t left local f st sound)
          λ st1 l le sound1.
            let (seen, m, two) = mark_seen-some f st1.iter st1.fields_seen sound1.words in
            rw m (
              Total-bind (λ it l. IsSpot fs n dest it)
                (decode_field env func defaults release wire_type st1.iter) _
                (decode_field-Total env callbacks func defaults release fs n dest t decodable frees
                  l wire_type st1.iter sound1.spot)
                (λ it l' le' spot.
                  Total-ok _ (record { spot = spot; words = two; place = sound1.place }))))

  skipped-Total :
      (left wire_type : ℕ) (st : Progress)
      → IsSound fs n dest st
      → Total left Sound (skipped env func defaults release local lists wire_type st)
  unfolding skipped
  skipped-Total left wire_type st sound =
      Total-bind (λ v l. l ≤ left) (on_stream (skip_field wire_type)) _
        (on_stream-Total (skip_field wire_type) (skip_field-IsSafe σ wire_type))
        (λ v l le q. Total-ok st sound)

  unknown_field-Total :
      (left : ℕ) (tag : Tag) (st : Progress)
      → IsSound fs n dest st
      → tag.tag < 2 ^ 29
      → Total left Sound (unknown_field env func defaults release local lists tag st)
  unfolding unknown_field try_extension
  unknown_field-Total left tag st sound h =
      let (it, e, spot) =
        find_extension_field-none fs n dest t regular tag_fits st.iter sound.spot in
      Total-if (ltb tag.tag st.extension_range_start) _ _
        (λ b. skipped-Total left tag.wire_type st sound)
        λ r. record {
          ends = λ bs err mem heap fits.
              rw (e, lt→ltb tag.tag (2 ^ 32 - 1) (omega (arith, h)))
                ((skipped-Total left tag.wire_type _ (moved st it (2 ^ 32 - 1) sound spot)).ends bs
                  err mem heap fits);
        }

  decode_tagged-Total :
      (left : ℕ) (tag : Tag) (st : Progress)
      → IsSound fs n dest st
      → tag.tag < 2 ^ 29
      → Total left Sound (decode_tagged env func defaults release local lists tag st)
  unfolding decode_tagged
  decode_tagged-Total left tag st sound h =
      let (b, it, e, spot, w) = find-IsSpot fs n dest t tag.tag st.iter sound.spot in
      by_search b it e spot
    where
      by_search :
          (b : Bool) (it : FieldIter)
          → find tag.tag st.iter ≡ ok b it
          → IsSpot fs n dest it
          → Total left Sound (decode_tagged env func defaults release local lists tag st)
      by_search true it e spot = record {
        ends = λ bs err mem heap fits.
            rw (decode_tagged, e)
              ((known_field-Total left tag.wire_type (record st { iter = it })
                  (moved st it st.extension_range_start sound spot)).ends
                bs err mem heap fits);
      }
      by_search false it e spot = record {
        ends = λ bs err mem heap fits.
            rw (decode_tagged, e)
              ((unknown_field-Total left tag (record st { iter = it })
                  (moved st it st.extension_range_start sound spot) h).ends
                bs err mem heap fits);
      }

  is_found : (b : Bool) → not b ≡ false → b ≡ true
  is_found true e = refl
  is_found false e = absurd (cc e)

  pub message_loop-Total :
      (fuel left : ℕ) (st : Progress)
      → IsSound fs n dest st
      → left < fuel
      → Total left Sound (message_loop env func defaults release local lists fuel st)
  unfolding message_loop
  message_loop-Total zero left st sound h = absurd (omega arith)
  message_loop-Total (suc fuel) zero st sound h = record {
    ends = λ bs err mem heap fits. finishes_ok st (ahead_here bs 0 err) sound;
  }
  message_loop-Total (suc fuel) (suc left) st sound h = record {
    ends = λ bs err mem heap fits.
        Finishes-if (suc left == 0) (λ e. absurd (omega (arith, (==_iff (suc left) 0).0 e)))
          λ n.
            Finishes-bind _ fits
              (λ tag l le (tagged, less).
                Total-if (not tag.found) _ _
                  (λ none_found. Total-if tag.eof _ _ (λ e. Total-ok st sound) (λ e. Total-fail))
                  (λ some_found.
                    Total-bind Sound (decode_tagged env func defaults release local lists tag st) _
                      (decode_tagged-Total l tag st sound (tagged (is_found tag.found some_found)))
                      (λ st' l' le' sound'.
                        message_loop-Total fuel l' st' sound' (omega (arith, less, le', h)))))
              ((IsTag-Total left).ends bs err mem heap fits);
  }

  -- pb_decode_noinit
  pub decode_message-Total :
      (left k : ℕ)
      → env.table k ≡ fs
      → Total left Free (decode_message env func defaults release local lists k dest)
  unfolding decode_message
  decode_message-Total left k same =
      let (b, it, e, spot) = begin-IsSpot fs n dest t in
      record {
        ends = λ bs err mem heap fits.
            rw (same, e)
              (Finishes-bind (finish_message local) fits
                (λ st l le sound. finish_message-Total fs n dest t l local st sound)
                ((message_loop-Total (suc left) left _ (fresh it spot) (omega arith)).ends bs err
                  (store 4 local 0 mem) heap fits));
      }
    where
      fresh :
          (it : FieldIter)
          → IsSpot fs n dest it
          → IsSound fs n dest (record {
            fields_seen = 0 ∷ 0 ∷ [];
            extension_range_start = 0;
            iter = it;
            fixed_count_field = none;
          })
      fresh it spot = record { spot = spot; words = refl; place = λ pos p. absurd (cc p) }
