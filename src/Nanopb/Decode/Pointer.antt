-- ===== src/Nanopb/Decode/Pointer.antt =====
-- initialize_pointer_field and decode_pointer_field of pb_decode.c.
use test_gbksoft.Common.{
  ℕ, zero, suc, ◌+◌, ◌-◌, ◌/◌, ◌%◌, ◌^◌, Bool, true, false, not, ◌&&◌, ◌||◌, ltb, leb, ◌==◌,
}
use test_gbksoft.Common.{if◌then◌else◌, Option, none, some}
use test_gbksoft.Common.Outcome.{Outcome, ok, fail, fault, stuck, M, bind_outcome}
use test_gbksoft.Nanopb.Types.{
  Field, FieldPtr, ltype, htype, size_max, too_many_array_entries, invalid_field_type,
}
use test_gbksoft.Nanopb.Types.Ltype
use test_gbksoft.Nanopb.Types.Htype
use test_gbksoft.Nanopb.Types.WireType
use test_gbksoft.Nanopb.Memory.{Mem, load}
use test_gbksoft.Nanopb.Iter.{FieldIter}
use test_gbksoft.Nanopb.Input.{IStream}
use test_gbksoft.Nanopb.Input.Wire.{make_string_substream, close_string_substream}
use test_gbksoft.Nanopb.Decode.State.{DecState, on_stream, return_error, put}
use test_gbksoft.Nanopb.Decode.Allocate.{Realloc, allocate_field}
use test_gbksoft.Nanopb.Decode.Env.{on_substream}
use test_gbksoft.Nanopb.Decode.Static.{item_at, reset_message}

-- Strings and byte arrays, whose decoders allocate for themselves.
abbrev pub is_text : Field → Bool
is_text f = (ltype f.type == Ltype.string) || (ltype f.type == Ltype.bytes)

-- `func` is from PB_DECODERS, `defaults` is pb_message_set_to_defaults, and `release` is
-- pb_release_single_field.
module _ {σ η : Type 0} (realloc : Realloc η) (func : Field → ℕ → M (DecState σ η) (Unit {0}))
    (defaults : FieldPtr → ℕ → M Mem (Unit {0}))
    (release : FieldIter → M (DecState σ η) (Unit {0})) where
  -- initialize_pointer_field
  unfoldable pub initialize_pointer_field : Field → ℕ → M (DecState σ η) (Unit {0})
  initialize_pointer_field f p s =
      if is_text f
      then put 8 p 0 s
      else if ltype f.type == Ltype.submessage
      then reset_message func defaults f p s
      else ok tt s

  -- A field that is no array, past the release of what it held.
  unfoldable pub allocate_single : Field → FieldIter → M (DecState σ η) (Unit {0})
  unfolding initialize_pointer_field
  allocate_single f it s = bind_outcome (allocate_field realloc it.p_data f.data_size 1 s) λ _ s1.
      bind_outcome (initialize_pointer_field f (load s1.mem 8 it.p_data) s1)
        λ _ s2. func f (load s2.mem 8 it.p_data) s2

  unfoldable pub decode_pointer_single : Field → FieldIter → M (DecState σ η) (Unit {0})
  unfolding allocate_single
  decode_pointer_single f it s =
      let duplicate = (ltype f.type == Ltype.submessage) && not (load s.mem 8 it.p_data == 0) in
      bind_outcome (if duplicate then release it s else ok tt s) λ _ s1.
        bind_outcome (if htype f.type == Htype.oneof then put 4 it.p_size f.tag s1 else ok tt s1)
          λ _ s2. if is_text f then func f it.p_data s2 else allocate_single f it s2

  -- `allocated_size`, and the call of allocate_field, where another item has to fit.
  unfoldable pub make_room : Field → FieldIter → ℕ → M (DecState σ η) ℕ
  make_room f it allocated_size s =
      let more = (allocated_size + ((s.stream.bytes_left - 1) / f.data_size + 1)) % 2 ^ 64 in
      if not (ltb allocated_size (load s.mem 4 it.p_size + 1))
      then ok allocated_size s
      else if f.data_size == 0
      then fault
      else bind_outcome (allocate_field realloc it.p_data f.data_size more s) (λ _. ok more)

  -- An entry of a packed array.
  unfoldable pub decode_entry : Field → FieldIter → M (DecState σ η) (Unit {0})
  unfolding initialize_pointer_field
  decode_entry f it s =
      let p = item_at f (load s.mem 8 it.p_data) (load s.mem 4 it.p_size) in
      bind_outcome (initialize_pointer_field f p s) (λ _. func f p)

  -- The loop over a packed array. The stream is the substream. It ends with false where the message
  -- "too many array entries" is set.
  unfoldable pub pointer_loop : ℕ → Field → FieldIter → ℕ → M (DecState σ η) Bool
  unfolding make_room decode_entry
  pointer_loop zero f it allocated_size s = stuck
  pointer_loop (suc fuel) f it allocated_size s =
      let round : Outcome (DecState σ η) Bool =
        bind_outcome (make_room f it allocated_size s) λ allocated_size' s1.
          bind_outcome (decode_entry f it s1) λ _ s2.
            let size = load s2.mem 4 it.p_size in
            let more : Outcome (DecState σ η) Bool =
              bind_outcome (put 4 it.p_size (size + 1) s2)
                λ _. pointer_loop fuel f it allocated_size' in
            if size == size_max then ok false s2 else more in
      if s.stream.bytes_left == 0 then ok true s else round

  -- Past the loop, with the substream as it left it.
  unfoldable pub finish_entries : Option Bool → IStream σ → M (DecState σ η) (Unit {0})
  finish_entries none sub s = bind_outcome (on_stream (close_string_substream sub) s) (λ _. fail)
  finish_entries (some true) sub s =
      bind_outcome (on_stream (close_string_substream sub) s) (λ _. ok tt)
  finish_entries (some false) sub s =
      let told = record (s.stream) { errmsg = some too_many_array_entries } in
      bind_outcome (on_stream (close_string_substream sub) (record s { stream = told })) (λ _. fail)

  unfoldable pub decode_entries : Field → FieldIter → M (DecState σ η) (Unit {0})
  unfolding pointer_loop finish_entries
  decode_entries f it s =
      let allocated_size = load s.mem 4 it.p_size in
      bind_outcome (on_stream make_string_substream s) λ sub s1.
        bind_outcome (on_substream sub (pointer_loop (suc sub.bytes_left) f it allocated_size) s1)
          λ (status, sub'). finish_entries status sub'

  -- One item more of an array.
  unfoldable pub append_entry : Field → FieldIter → M (DecState σ η) (Unit {0})
  unfolding initialize_pointer_field
  append_entry f it s =
      let size = load s.mem 4 it.p_size in
      let appended : Outcome (DecState σ η) (Unit {0}) =
        bind_outcome (put 4 it.p_size (size + 1) s) λ _ s1.
          bind_outcome (allocate_field realloc it.p_data f.data_size (load s1.mem 4 it.p_size) s1)
            λ _ s2.
              let p =
                item_at f (load s2.mem 8 it.p_data)
                  ((load s2.mem 4 it.p_size + 2 ^ 32 - 1) % 2 ^ 32) in
              bind_outcome (initialize_pointer_field f p s2) (λ _. func f p) in
      if size == size_max then return_error too_many_array_entries s else appended

  -- decode_pointer_field
  unfoldable pub decode_pointer_field : ℕ → Field → FieldIter → M (DecState σ η) (Unit {0})
  unfolding decode_pointer_single decode_entries append_entry
  decode_pointer_field wire_type f it s =
      if leb 10 (ltype f.type)
      then fault
      else if (htype f.type == Htype.required)
          || (htype f.type == Htype.optional)
          || (htype f.type == Htype.oneof)
      then decode_pointer_single f it s
      else if htype f.type == Htype.repeated
      then if (wire_type == WireType.string) && leb (ltype f.type) Ltype.last_packable
        then decode_entries f it s
        else append_entry f it s
      else return_error invalid_field_type s
