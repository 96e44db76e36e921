-- ===== src/Nanopb/Encode/Default.antt =====
-- pb_check_proto3_default_value of pb_encode.c.
use test_gbksoft.Common.{ℕ, zero, suc, Bool, true, false, not, ◌&&◌, ◌==◌, if◌then◌else◌}
use test_gbksoft.Common.{Option, none, some, List, length, get_elem?}
use test_gbksoft.Common.Outcome.{Outcome, ok, fail, fault, stuck}
use test_gbksoft.Nanopb.Types.{Field, FieldPtr, null, fields, default, ltype, htype, atype}
use test_gbksoft.Nanopb.Types.Ltype
use test_gbksoft.Nanopb.Types.Htype
use test_gbksoft.Nanopb.Types.Atype
use test_gbksoft.Nanopb.Memory.{Mem, load}
use test_gbksoft.Nanopb.Iter.{FieldIter, add_signed, begin, next}

-- The loop of the catch-all branch.
unfoldable pub all_zero : Mem → ℕ → ℕ → Bool
all_zero mem zero p = true
all_zero mem (suc n) p = (load mem 1 p == 0) && all_zero mem n (suc p)

-- `none` is no answer: a descriptor that is not there, or no fuel.
module _ (mem : Mem) (table : ℕ → List Field) where
  -- The do-while over the fields of a submessage. `check` is the recursive call.
  unfoldable pub default_loop : (Field → ℕ → Option Bool) → ℕ → FieldIter → Option Bool
  default_loop check zero it = none
  default_loop check (suc fuel) it = elim (get_elem? it.start it.pos) [
    | none ↦ none
    | some f ↦ elim (check f it.p_data) [
      | none ↦ none
      | some false ↦ some false
      | some true ↦ elim (next it) [
        | ok true it' ↦ default_loop check fuel it'
        | ok false it' ↦ some true
        | fail it' ↦ none
        | fault ↦ none
        | stuck ↦ none
      ]
    ]
  ]

  -- From the result of pb_field_iter_begin.
  unfoldable pub default_from : (Field → ℕ → Option Bool) → Outcome FieldIter Bool → Option Bool
  unfolding default_loop
  default_from check (ok true it) = default_loop check (length it.start) it
  default_from check (ok false it) = some true
  default_from check (fail it) = none
  default_from check fault = none
  default_from check stuck = none

  unfoldable pub default_sub : (Field → ℕ → Option Bool) → FieldPtr → ℕ → Option Bool
  unfolding default_from
  default_sub check null p = none
  default_sub check (fields k) p = default_from check (begin (table k) p)
  default_sub check (default bytes) p = none

  -- pb_check_proto3_default_value. Each level of submessages takes one of the fuel.
  unfoldable pub is_default : ℕ → Field → ℕ → Option Bool
  unfolding all_zero default_sub
  is_default zero field p = none
  is_default (suc fuel) field p =
      let size = add_signed p field.size_offset in
      let type = field.type in
      let static = atype type == Atype.static in
      let sub = default_sub (is_default fuel) field.ptr p in
      if htype type == Htype.required
      then some false
      else if htype type == Htype.repeated
      then some (load mem 4 size == 0)
      else if htype type == Htype.oneof
      then some (load mem 4 size == 0)
      else if (htype type == Htype.optional) && not (field.size_offset == 0)
      then some (load mem 1 size == 0)
      else if static && (ltype type == Ltype.bytes)
      then some (load mem 4 p == 0)
      else if static && (ltype type == Ltype.string)
      then some (load mem 1 p == 0)
      else if static && (ltype type == Ltype.fixed_length_bytes)
      then some (field.data_size == 0)
      else if static && (ltype type == Ltype.submessage)
      then sub
      else some (all_zero mem field.data_size p)
