-- ===== src/Nanopb/Decode/TotalFinish.antt =====
-- What pb_decode_noinit does for the fields of fixed count and past its loop, on every input.
use test_gbksoft.Common.{
  ℕ, ◌≡◌, refl, sym, ◌∙◌, ap, Bool, true, false, not, ◌||◌, ◌==◌, Option, none, some, List, length,
  get_elem?,
}
use mathlib.Core.Option.{some-injective}
use test_gbksoft.Nanopb.Types.{
  Field, htype, wrong_size_for_fixed_count_field, missing_required_field,
}
use test_gbksoft.Nanopb.Types.Htype
use test_gbksoft.Nanopb.Memory.{load, store}
use test_gbksoft.Nanopb.Iter.Table.{IsTable}
use test_gbksoft.Nanopb.Iter.Spot.{IsSpot, IsSpot-field}
use test_gbksoft.Nanopb.Decode.Required.{seen_error, check_required, required_count}
use test_gbksoft.Nanopb.Decode.Message.{
  Progress, check_fixed_count, finish_message, same_place, fixed_count,
}
use test_gbksoft.Nanopb.Decode.Total.{
  Total, Total-bind, Total-with, Total-after, Total-if, Total-ok, Total-error, Total-field,
}
use test_gbksoft.Nanopb.Decode.TotalValues.{Free}
use test_gbksoft.Nanopb.Decode.TotalIter.{required_count-bound}
use test_gbksoft.Nanopb.Decode.TotalRequired.{all_seen-some}

-- What the variables of pb_decode_noinit keep to: the iterator is at a field of the message, there
-- are two words for the fields seen, and fixed_count_field is a field.
pub record IsSound (fs : List Field) (n dest : ℕ) (st : Progress) : Type 0 where
  pub spot : IsSpot fs n dest st.iter
  pub words : length st.fields_seen ≡ 2
  pub place :
      (pos : ℕ) → st.fixed_count_field ≡ some pos → (f : Field) × (get_elem? fs pos ≡ some f)

module _ {σ η : Type 0} (fs : List Field) (n dest : ℕ) (t : IsTable fs n) where
  check_fixed_count-Total :
      (left local : ℕ) (st : Progress)
      → IsSound fs n dest st
      → Total {σ = σ} {η = η} left Free (check_fixed_count local st.fixed_count_field st.iter)
  unfolding check_fixed_count
  check_fixed_count-Total left local st sound = by_field st.fixed_count_field sound.place
    where
      by_field :
          (o : Option ℕ)
          → ((pos : ℕ) → o ≡ some pos → (f : Field) × (get_elem? fs pos ≡ some f))
          → Total {σ = σ} {η = η} left Free (check_fixed_count local o st.iter)
      by_field none place = Total-ok tt tt
      by_field (some pos) place =
          let (f, e) = place pos refl in
          Total-field (get_elem? st.iter.start pos) f _ (rw (sound.spot.here.0) e) (
            Total-with (λ s. load s.mem 4 local) _
              λ count.
                Total-if (not (count == f.array_size)) _ _
                  (λ w. Total-error wrong_size_for_fixed_count_field) (λ r. Total-ok tt tt))

  pub fixed_count-Total :
      (left local : ℕ) (f : Field) (st : Progress)
      → IsSound fs n dest st
      → Total {σ = σ} {η = η} left (λ st' l. IsSound fs n dest st') (fixed_count local f st)
  unfolding fixed_count same_place
  fixed_count-Total left local f st sound =
      let (g, e, e') = IsSpot-field fs n dest t st.iter sound.spot in
      let counted : IsSound fs n dest (record st {
        iter = record (st.iter) { p_size = local };
        fixed_count_field = some st.iter.pos;
      }) =
        record {
          spot = record { here = sound.spot.here; inside = sound.spot.inside };
          words = sound.words;
          place = λ pos p. (g, ap (get_elem? fs) (sym (some-injective st.iter.pos pos p)) ∙ e);
        } in
      Total-if (not (htype f.type == Htype.repeated) || not (st.iter.p_size == st.iter.p_data)) _ _
        (λ other. Total-ok st sound)
        λ n1.
          Total-if (same_place st.fixed_count_field st.iter.pos) _ _ (λ same. Total-ok _ counted)
            λ n2.
              Total-bind Free (check_fixed_count local st.fixed_count_field st.iter) _
                (check_fixed_count-Total left local st sound)
                (λ v l le q. Total-after (λ s. store 4 local 0 s.mem) _ (Total-ok _ counted))

  told-Total : (left : ℕ) (b : Bool) → Total {σ = σ} {η = η} left Free (seen_error (some b))
  unfolding seen_error
  told-Total left true = Total-ok tt tt
  told-Total left false = Total-error missing_required_field

  check_required-Total :
      (left : ℕ) (st : Progress)
      → IsSound fs n dest st
      → Total {σ = σ} {η = η} left Free (check_required st.fields_seen (required_count st.iter))
  unfolding check_required
  check_required-Total left st sound =
      let (c, it', e, small) = required_count-bound fs n dest t st.iter sound.spot in
      let (b, e') = all_seen-some c st.fields_seen sound.words small in
      record {
        ends = λ bs err mem heap fits. rw (e, e') ((told-Total left b).ends bs err mem heap fits);
      }

  pub finish_message-Total :
      (left local : ℕ) (st : Progress)
      → IsSound fs n dest st
      → Total {σ = σ} {η = η} left Free (finish_message local st)
  unfolding finish_message
  finish_message-Total left local st sound =
      Total-bind Free (check_fixed_count local st.fixed_count_field st.iter) _
        (check_fixed_count-Total left local st sound) (λ v l le q. check_required-Total l st sound)
