-- ===== src/Nanopb/Decode/Static.antt =====
-- decode_static_field of pb_decode.c.
use test_gbksoft.Common.{
  ℕ, zero, suc, ◌+◌, ◌*◌, ◌%◌, ◌^◌, ◌&&◌, not, ltb, leb, ◌==◌, if◌then◌else◌, Option,
}
use test_gbksoft.Common.Outcome.{Outcome, ok, fault, stuck, M, bind_outcome}
use test_gbksoft.Nanopb.Types.{Field, FieldPtr, ltype, htype, array_overflow, invalid_field_type}
use test_gbksoft.Nanopb.Types.Ltype
use test_gbksoft.Nanopb.Types.Htype
use test_gbksoft.Nanopb.Types.WireType
use test_gbksoft.Nanopb.Memory.{Mem, load, store_bytes}
use test_gbksoft.Nanopb.Iter.{FieldIter}
use test_gbksoft.Nanopb.Input.{IStream}
use test_gbksoft.Nanopb.Input.Wire.{make_string_substream, close_string_substream}
use test_gbksoft.Nanopb.Decode.State.{DecState, on_stream, return_error, put}
use test_gbksoft.Nanopb.Decode.Values.{zeros}
use test_gbksoft.Nanopb.Decode.Env.{on_mem, on_substream, answer}

-- The item of an array at a count; a pb_size_t has 32 bits.
abbrev pub item_at : Field → ℕ → ℕ → ℕ
item_at f p count = (p + f.data_size * count % 2 ^ 32) % 2 ^ 64

-- `func` is from PB_DECODERS, and `defaults` is pb_message_set_to_defaults.
module _ {σ η : Type 0} (func : Field → ℕ → M (DecState σ η) (Unit {0}))
    (defaults : FieldPtr → ℕ → M Mem (Unit {0})) where
  -- memset to zero, and the default values.
  unfoldable pub reset_message : Field → ℕ → M (DecState σ η) (Unit {0})
  reset_message f p = on_mem (λ mem. defaults f.ptr p (store_bytes (zeros f.data_size) p mem))

  -- The loop over a packed array. The stream is the substream.
  unfoldable pub packed_loop : ℕ → Field → FieldIter → M (DecState σ η) (Unit {0})
  packed_loop zero f it s = stuck
  packed_loop (suc fuel) f it s =
      let size = load s.mem 4 it.p_size in
      let round : Outcome (DecState σ η) (Unit {0}) =
        bind_outcome (func f (item_at f it.p_data size) s) λ _ s1.
          bind_outcome (put 4 it.p_size ((load s1.mem 4 it.p_size + 1) % 2 ^ 32) s1)
            λ _. packed_loop fuel f it in
      if ltb 0 s.stream.bytes_left && ltb size f.array_size then round else ok tt s

  -- Past the loop, with the substream as it left it.
  unfoldable pub finish_packed : Option (Unit {0}) → IStream σ → M (DecState σ η) (Unit {0})
  finish_packed status sub s =
      if not (sub.bytes_left == 0)
      then return_error array_overflow s
      else bind_outcome (on_stream (close_string_substream sub) s) (λ _. answer status)

  unfoldable pub decode_packed : Field → FieldIter → M (DecState σ η) (Unit {0})
  unfolding packed_loop finish_packed
  decode_packed f it s = bind_outcome (on_stream make_string_substream s) λ sub s1.
      bind_outcome (on_substream sub (packed_loop (suc sub.bytes_left) f it) s1)
        λ (status, sub'). finish_packed status sub'

  -- An item of an array that is not packed.
  unfoldable pub decode_item : Field → FieldIter → M (DecState σ η) (Unit {0})
  decode_item f it s =
      let size = load s.mem 4 it.p_size in
      bind_outcome (put 4 it.p_size ((size + 1) % 2 ^ 32) s) λ _ s1.
        if leb f.array_size size
        then return_error array_overflow s1
        else func f (item_at f it.p_data size) s1

  unfoldable pub decode_optional : Field → FieldIter → M (DecState σ η) (Unit {0})
  decode_optional f it s =
      if it.p_size == it.p_data
      then func f it.p_data s
      else bind_outcome (put 1 it.p_size 1 s) (λ _. func f it.p_data)

  unfoldable pub decode_oneof : Field → FieldIter → M (DecState σ η) (Unit {0})
  unfolding reset_message
  decode_oneof f it s = bind_outcome (put 4 it.p_size f.tag s) λ _ s1.
      bind_outcome
        (if ltype f.type == Ltype.submessage then reset_message f it.p_data s1 else ok tt s1)
        (λ _. func f it.p_data)

  -- decode_static_field
  unfoldable pub decode_static_field : ℕ → Field → FieldIter → M (DecState σ η) (Unit {0})
  unfolding decode_packed decode_item decode_optional decode_oneof
  decode_static_field wire_type f it s =
      if leb 10 (ltype f.type)
      then fault
      else if htype f.type == Htype.required
      then func f it.p_data s
      else if htype f.type == Htype.optional
      then decode_optional f it s
      else if htype f.type == Htype.repeated
      then if (wire_type == WireType.string) && leb (ltype f.type) Ltype.last_packable
        then decode_packed f it s
        else decode_item f it s
      else if htype f.type == Htype.oneof
      then decode_oneof f it s
      else return_error invalid_field_type s
