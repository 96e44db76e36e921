-- ===== src/Nanopb/Decode/Field.antt =====
-- decode_callback_field, pb_release_union_field and decode_field of pb_decode.c.
use test_gbksoft.Common.{
  ℕ, zero, suc, ◌+◌, Bool, true, false, ◌||◌, ◌==◌, if◌then◌else◌, Option, none, some, length,
  get_elem?,
}
use test_gbksoft.Common.Outcome.{Outcome, ok, fail, fault, stuck, M, bind_outcome}
use test_gbksoft.Nanopb.Types.{
  Field, FieldPtr, htype, atype, callback_failed, invalid_field_type, invalid_union_tag,
  iterator_error,
}
use test_gbksoft.Nanopb.Types.Htype
use test_gbksoft.Nanopb.Types.Atype
use test_gbksoft.Nanopb.Types.WireType
use test_gbksoft.Nanopb.Memory.{Mem, load}
use test_gbksoft.Nanopb.Iter.{FieldIter, with_field, find}
use test_gbksoft.Nanopb.Input.{IStream, istream_from_buffer}
use test_gbksoft.Nanopb.Input.Wire.{
  skip_field, read_raw_value, make_string_substream, close_string_substream,
}
use test_gbksoft.Nanopb.Decode.State.{DecState, on_stream, return_error}
use test_gbksoft.Nanopb.Decode.Env.{Env, on_substream, answer}
use test_gbksoft.Nanopb.Decode.Static.{decode_static_field}
use test_gbksoft.Nanopb.Decode.Pointer.{decode_pointer_field}

module _ {σ η : Type 0} (env : Env σ η) where
  -- The do-while over the user's callback. The stream is the substream.
  unfoldable pub callback_loop : ℕ → Field → ℕ → M (DecState σ η) (Unit {0})
  callback_loop zero f p s = stuck
  callback_loop (suc fuel) f p s =
      bind_outcome (env.decode_callback (load s.mem 8 p) f (p + 8) s) λ _ s1.
        let more : Outcome (DecState σ η) (Unit {0}) = callback_loop fuel f p s1 in
        if s1.stream.bytes_left == 0 then ok tt s1 else more

  -- Past the loop, with the substream as it left it.
  unfoldable pub finish_callback : Option (Unit {0}) → IStream σ → M (DecState σ η) (Unit {0})
  finish_callback none sub s = return_error callback_failed s
  finish_callback (some _) sub s =
      bind_outcome (on_stream (close_string_substream sub) s) (λ _. ok tt)

  unfoldable pub callback_string : Field → ℕ → M (DecState σ η) (Unit {0})
  unfolding callback_loop finish_callback
  callback_string f p s = bind_outcome (on_stream make_string_substream s) λ sub s1.
      bind_outcome (on_substream sub (callback_loop (suc sub.bytes_left) f p) s1)
        λ (status, sub'). finish_callback status sub'

  -- A scalar is copied to a buffer of ten bytes, which the callback then reads.
  unfoldable pub callback_scalar : ℕ → Field → ℕ → M (DecState σ η) (Unit {0})
  callback_scalar wire_type f p s =
      bind_outcome (on_stream (read_raw_value wire_type 10) s) λ buffer s1.
        bind_outcome
          (on_substream (istream_from_buffer buffer (length buffer))
            (env.decode_callback (load s1.mem 8 p) f (p + 8)) s1)
          λ (status, _). answer status

  -- decode_callback_field, of a pb_callback_t: a function pointer, and the argument behind it.
  unfoldable pub decode_callback_field : ℕ → Field → ℕ → M (DecState σ η) (Unit {0})
  unfolding callback_string callback_scalar
  decode_callback_field wire_type f p s =
      if (p == 0) || (load s.mem 8 p == 0)
      then on_stream (skip_field wire_type) s
      else if wire_type == WireType.string
      then callback_string f p s
      else callback_scalar wire_type f p s

-- As for decode_pointer_field.
module _ {σ η : Type 0} (env : Env σ η) (func : Field → ℕ → M (DecState σ η) (Unit {0}))
    (defaults : FieldPtr → ℕ → M Mem (Unit {0}))
    (release : FieldIter → M (DecState σ η) (Unit {0})) where
  -- `pb_field_iter_find(iter, tag)`, whose `false` is an error with this message.
  unfoldable pub found_or :
      Outcome FieldIter Bool → M (DecState σ η) FieldIter → M (DecState σ η) FieldIter
  found_or (ok true it) bad s = ok it s
  found_or (ok false it) bad s = bad s
  found_or (fail it) bad s = fault
  found_or fault bad s = fault
  found_or stuck bad s = stuck

  -- pb_release_union_field, with the iterator as it leaves it.
  unfoldable pub release_union_field : Field → FieldIter → M (DecState σ η) FieldIter
  unfolding found_or
  release_union_field f it s =
      let old_tag = load s.mem 4 it.p_size in
      let replaced : Outcome (DecState σ η) FieldIter =
        bind_outcome (found_or (find old_tag it) (return_error invalid_union_tag) s) λ old s1.
          bind_outcome (release old s1)
            λ _. found_or (find f.tag old) (return_error iterator_error) in
      if (old_tag == 0) || (old_tag == f.tag) then ok it s else replaced

  -- The switch of decode_field.
  unfoldable pub by_atype : ℕ → Field → FieldIter → M (DecState σ η) (Unit {0})
  by_atype wire_type f it s =
      if atype f.type == Atype.static
      then decode_static_field func defaults wire_type f it s
      else if atype f.type == Atype.pointer
      then decode_pointer_field env.realloc func defaults release wire_type f it s
      else if atype f.type == Atype.callback
      then decode_callback_field env wire_type f it.p_data s
      else return_error invalid_field_type s

  -- decode_field, with the iterator as it leaves it.
  unfoldable pub decode_field : ℕ → FieldIter → M (DecState σ η) FieldIter
  unfolding release_union_field by_atype
  decode_field wire_type it s = with_field (get_elem? it.start it.pos) λ f.
      bind_outcome (if htype f.type == Htype.oneof then release_union_field f it s else ok it s)
        λ it' s1.
          with_field (get_elem? it'.start it'.pos)
            λ f'. bind_outcome (by_atype wire_type f' it' s1) (λ _. ok it')
