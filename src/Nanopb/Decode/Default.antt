-- ===== src/Nanopb/Decode/Default.antt =====
-- pb_field_set_to_default and pb_message_set_to_defaults of pb_decode.c.
use test_gbksoft.Common.{
  ℕ, zero, suc, ◌+◌, Bool, true, false, not, ◌&&◌, ◌||◌, ltb, ◌==◌, if◌then◌else◌,
}
use test_gbksoft.Common.{Option, none, some, List, length, take, get_elem?}
use test_gbksoft.Common.Outcome.{Outcome, ok, fail, fault, stuck, M, bind_outcome}
use test_gbksoft.Nanopb.Types.{Field, FieldPtr, null, fields, default, ltype, htype, atype}
use test_gbksoft.Nanopb.Types.Ltype
use test_gbksoft.Nanopb.Types.Htype
use test_gbksoft.Nanopb.Types.Atype
use test_gbksoft.Nanopb.Memory.{Mem, load, store_bytes, store}
use test_gbksoft.Nanopb.Iter.{FieldIter, with_field, begin, begin_at, next}
use test_gbksoft.Nanopb.Decode.Values.{zeros}

-- An assignment to memory.
abbrev pub assign : ℕ → ℕ → ℕ → M Mem (Unit {0})
assign n a v mem = ok tt (store n a v mem)

-- memcpy from the bytes of a default value.
unfoldable pub copy_default : List ℕ → ℕ → ℕ → M Mem (Unit {0})
copy_default bytes n a mem =
    if ltb (length bytes) n then fault else ok tt (store_bytes (take n bytes) a mem)

module _ (table : ℕ → List Field) where
  -- The do-while of pb_message_set_to_defaults.
  unfoldable pub defaults_loop : (FieldIter → M Mem (Unit {0})) → ℕ → FieldIter → M Mem (Unit {0})
  defaults_loop each zero it mem = stuck
  defaults_loop each (suc fuel) it mem = bind_outcome (each it mem) λ _ mem'. elim (next it) [
    | ok true it' ↦ defaults_loop each fuel it' mem'
    | ok false it' ↦ ok tt mem'
    | fail it' ↦ fault
    | fault ↦ fault
    | stuck ↦ stuck
  ]

  unfoldable pub defaults_from :
      (FieldIter → M Mem (Unit {0})) → Outcome FieldIter Bool → M Mem (Unit {0})
  unfolding defaults_loop
  defaults_from each (ok true it) mem = defaults_loop each (length it.start) it mem
  defaults_from each (ok false it) mem = ok tt mem
  defaults_from each (fail it) mem = fault
  defaults_from each fault mem = fault
  defaults_from each stuck mem = stuck

  -- pb_message_set_to_defaults, where `each` is pb_field_set_to_default.
  unfoldable pub message_defaults : (FieldIter → M Mem (Unit {0})) → FieldPtr → ℕ → M Mem (Unit {0})
  unfolding defaults_from
  message_defaults each null dest mem = fault
  message_defaults each (fields k) dest mem = defaults_from each (begin (table k) dest) mem
  message_defaults each (default bytes) dest mem = fault

  -- Past `init_data`.
  unfoldable pub init_data :
      (FieldIter → M Mem (Unit {0})) → Field → FieldPtr → ℕ → M Mem (Unit {0})
  unfolding message_defaults copy_default
  init_data each f ptr p mem =
      let plain : Outcome Mem (Unit {0}) = elim ptr [
        | null ↦ ok tt (store_bytes (zeros f.data_size) p mem)
        | fields k ↦ fault
        | default bytes ↦ copy_default bytes f.data_size p mem
      ] in
      let message : Outcome Mem (Unit {0}) = message_defaults each ptr p mem in
      if ltype f.type == Ltype.submessage then message else plain

  -- iter_from_extension. The extension has its type, its destination, the next one, and `found`.
  unfoldable pub iter_from_extension : ℕ → Mem → Option FieldIter
  iter_from_extension ext mem =
      let start = table (load mem 8 (load mem 8 ext + 16)) in
      elim (get_elem? start 0) [
        | none ↦ none
        | some f ↦ some (record (begin_at start (load mem 8 (ext + 8)) f) {
          p_data = if atype f.type == Atype.pointer then ext + 8 else load mem 8 (ext + 8);
          p_size = ext + 24;
        })
      ]

  -- The loop over a list of extensions. `lists` bounds its length.
  unfoldable pub extension_defaults : (FieldIter → M Mem (Unit {0})) → ℕ → ℕ → M Mem (Unit {0})
  unfolding iter_from_extension
  extension_defaults each zero ext mem = if ext == 0 then ok tt mem else stuck
  extension_defaults each (suc lists) ext mem =
      let mem1 = store 1 (ext + 24) 0 mem in
      let this : Outcome Mem (Unit {0}) = elim (iter_from_extension ext mem1) [
        | none ↦ fault
        | some it ↦ each it mem1
      ] in
      let all : Outcome Mem (Unit {0}) =
        bind_outcome this (λ _ mem2. extension_defaults each lists (load mem2 8 (ext + 16)) mem2) in
      if ext == 0 then ok tt mem else all

  unfoldable pub static_default :
      (FieldIter → M Mem (Unit {0})) → Field → FieldIter → M Mem (Unit {0})
  unfolding init_data
  static_default each f it mem =
      if (htype f.type == Htype.optional) && not (it.p_size == it.p_data)
      then bind_outcome (assign 1 it.p_size 0 mem) (λ _. init_data each f f.ptr it.p_data)
      else if (htype f.type == Htype.repeated) || (htype f.type == Htype.oneof)
      then assign 4 it.p_size 0 mem
      else init_data each f f.ptr it.p_data mem

  unfoldable pub pointer_default : Field → FieldIter → M Mem (Unit {0})
  pointer_default f it mem = bind_outcome (assign 8 it.p_data 0 mem) λ _ mem'.
      if (htype f.type == Htype.repeated) || (htype f.type == Htype.oneof)
      then assign 4 it.p_size 0 mem'
      else ok tt mem'

  -- pb_field_set_to_default. Each level of submessages and extensions takes one of the fuel.
  unfoldable pub field_default : ℕ → ℕ → FieldIter → M Mem (Unit {0})
  unfolding extension_defaults static_default pointer_default
  field_default lists zero it mem = stuck
  field_default lists (suc fuel) it mem = with_field (get_elem? it.start it.pos) λ f.
      if ltype f.type == Ltype.extension
      then extension_defaults (field_default lists fuel) lists (load mem 8 it.p_data) mem
      else if atype f.type == Atype.static
      then static_default (field_default lists fuel) f it mem
      else if atype f.type == Atype.pointer
      then pointer_default f it mem
      else ok tt mem

  unfoldable pub set_to_defaults : ℕ → ℕ → ℕ → ℕ → M Mem (Unit {0})
  unfolding field_default message_defaults
  set_to_defaults lists fuel k dest = message_defaults (field_default lists fuel) (fields k) dest
