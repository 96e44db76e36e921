-- ===== src/Nanopb/Decode/TotalField.antt =====
-- pb_release_union_field and decode_field on every input.
use test_gbksoft.Common.{
  ℕ, ◌≤◌, ◌<◌, ◌≡◌, ◌≢◌, Bool, true, false, ◌||◌, ◌==◌, ==_iff, if◌then◌else◌, some, List,
  get_elem?,
}
use test_gbksoft.Common.Outcome.{ok, M}
use test_gbksoft.Nanopb.Types.{
  Field, FieldPtr, ErrMsg, ltype, htype, atype, invalid_field_type, invalid_union_tag,
  iterator_error,
}
use test_gbksoft.Nanopb.Types.Ltype
use test_gbksoft.Nanopb.Types.Atype
use test_gbksoft.Nanopb.Memory.{Mem, load}
use test_gbksoft.Nanopb.Iter.{FieldIter, find}
use test_gbksoft.Nanopb.Iter.Table.{IsTable}
use test_gbksoft.Nanopb.Iter.Spot.{IsSpot, IsSpot-field, find-IsSpot}
use test_gbksoft.Nanopb.Decode.State.{DecState, return_error}
use test_gbksoft.Nanopb.Decode.Defaulted.{Returns}
use test_gbksoft.Nanopb.Decode.Env.{Env}
use test_gbksoft.Nanopb.Decode.Field.{found_or, release_union_field, by_atype, decode_field}
use test_gbksoft.Nanopb.Decode.Total.{
  Total, Total-bind, Total-with, Total-if, Total-ok, Total-error, Total-field,
}
use test_gbksoft.Nanopb.Decode.TotalValues.{Free}
use test_gbksoft.Nanopb.Decode.TotalStatic.{decode_static_field-Total}
use test_gbksoft.Nanopb.Decode.TotalPointer.{decode_pointer_field-Total}
use test_gbksoft.Nanopb.Decode.TotalSub.{}
use test_gbksoft.Nanopb.Decode.TotalCallback.{IsCallback, decode_callback_field-Total}

-- A field of a message that the decoder can follow: its decoder ends, and takes a byte where the
-- type can be packed; the defaults of a submessage can be set; an array in a pointer field has items
-- of a size.
pub record IsDecodable {σ η : Type 0} (func : Field → ℕ → M (DecState σ η) (Unit {0}))
    (defaults : FieldPtr → ℕ → M Mem (Unit {0})) (f : Field) : Type 0 where
  pub works : (dest left : ℕ) → Total left (λ v l. ltype f.type ≤ 4 → l < left) (func f dest)
  pub resets : ltype f.type ≡ Ltype.submessage → (p : ℕ) → Returns (defaults f.ptr p)
  pub known : ltype f.type ≤ 9
  pub sized : atype f.type ≡ Atype.pointer → ltype f.type ≤ 4 → f.data_size ≢ 0

module _ {σ η : Type 0} (env : Env σ η)
    (callbacks : (callback : ℕ) (f : Field) (arg : ℕ)
      → IsCallback (env.decode_callback callback f arg))
    (func : Field → ℕ → M (DecState σ η) (Unit {0})) (defaults : FieldPtr → ℕ → M Mem (Unit {0}))
    (release : FieldIter → M (DecState σ η) (Unit {0})) (fs : List Field) (n dest : ℕ)
    (t : IsTable fs n)
    (decodable : (i : ℕ) (f : Field) → get_elem? fs i ≡ some f → IsDecodable func defaults f)
    (frees : (it : FieldIter) (l : ℕ) → IsSpot fs n dest it → Total l Free (release it)) where
  found_or-Total :
      (left tag : ℕ) (msg : ErrMsg) (it : FieldIter)
      → IsSpot fs n dest it
      → Total left
          (λ it' l. IsSpot fs n dest it')
          (found_or env func defaults release (find tag it) (return_error msg))
  unfolding found_or
  found_or-Total left tag msg it spot =
      let (b, it', e, spot', w) = find-IsSpot fs n dest t tag it spot in rw e (either b it' spot')
    where
      either :
          (b : Bool) (it' : FieldIter)
          → IsSpot fs n dest it'
          → Total left
              (λ it' l. IsSpot fs n dest it')
              (found_or env func defaults release (ok b it') (return_error msg))
      either true it' spot' = Total-ok it' spot'
      either false it' spot' = Total-error msg

  release_union_field-Total :
      (left : ℕ) (f : Field) (it : FieldIter)
      → IsSpot fs n dest it
      → Total left
          (λ it' l. IsSpot fs n dest it')
          (release_union_field env func defaults release f it)
  unfolding release_union_field
  release_union_field-Total left f it spot =
      Total-with (λ s. load s.mem 4 it.p_size) _
        λ old_tag.
          Total-if ((old_tag == 0) || (old_tag == f.tag)) _ _ (λ e. Total-ok it spot)
            λ n0.
              Total-bind (λ it' l. IsSpot fs n dest it') _ _
                (found_or-Total left old_tag invalid_union_tag it spot)
                λ old l le spot'.
                  Total-bind Free (release old) _ (frees old l spot')
                    (λ v l' le' q. found_or-Total l' f.tag iterator_error old spot')

  by_atype-Total :
      (left wire_type i : ℕ) (f : Field) (it : FieldIter)
      → get_elem? fs i ≡ some f
      → IsSpot fs n dest it
      → Total left Free (by_atype env func defaults release wire_type f it)
  unfolding by_atype
  by_atype-Total left wire_type i f it e spot =
      let d : IsDecodable func defaults f = decodable i f e in
      Total-if (atype f.type == Atype.static) _ _
        (λ s. decode_static_field-Total func defaults f d.works d.resets wire_type left it d.known)
        λ n1.
          Total-if (atype f.type == Atype.pointer) _ _
            (λ p.
              decode_pointer_field-Total env.realloc func defaults release f d.works d.resets
                wire_type left it d.known
                (λ rep small. d.sized ((==_iff (atype f.type) Atype.pointer).0 p) small)
                (λ l. frees it l spot))
            λ n2.
              Total-if (atype f.type == Atype.callback) _ _
                (λ c. decode_callback_field-Total env callbacks left wire_type f it.p_data)
                (λ n3. Total-error invalid_field_type)

  -- decode_field
  pub decode_field-Total :
      (left wire_type : ℕ) (it : FieldIter)
      → IsSpot fs n dest it
      → Total left
          (λ it' l. IsSpot fs n dest it')
          (decode_field env func defaults release wire_type it)
  unfolding decode_field
  decode_field-Total left wire_type it spot =
      let (f, e, e') = IsSpot-field fs n dest t it spot in
      Total-field (get_elem? it.start it.pos) f _ e' (
        Total-bind (λ it' l. IsSpot fs n dest it')
          (λ s.
            if htype f.type == 0x30
            then release_union_field env func defaults release f it s
            else ok it s)
          _
          (Total-if (htype f.type == 0x30) _ _ (λ o. release_union_field-Total left f it spot)
            (λ n0. Total-ok it spot))
          λ it1 l le spot1.
            let (f', e1, e1') = IsSpot-field fs n dest t it1 spot1 in
            Total-field (get_elem? it1.start it1.pos) f' _ e1' (
              Total-bind Free (by_atype env func defaults release wire_type f' it1) _
                (by_atype-Total l wire_type it1.pos f' it1 e1 spot1)
                (λ v l' le q. Total-ok it1 spot1)))
