-- ===== src/Nanopb/Encode/Field.antt =====
-- encode_array, encode_basic_field, encode_callback_field and encode_field of pb_encode.c.
use test_gbksoft.Common.{ℕ, zero, suc, ◌+◌, ◌*◌, Bool, true, not, ◌&&◌, ◌||◌, ltb, leb, ◌==◌}
use test_gbksoft.Common.{if◌then◌else◌, Option, none, some, []}
use mathlib.Core.Option
use test_gbksoft.Common.Outcome.{Outcome, ok, fail, fault, stuck, M, bind_outcome}
use test_gbksoft.Nanopb.Types.{
  Field, ltype, htype, atype, missing_required_field, array_max_size_exceeded,
}
use test_gbksoft.Nanopb.Types.{invalid_field_type, callback_error}
use test_gbksoft.Nanopb.Types.Ltype
use test_gbksoft.Nanopb.Types.Htype
use test_gbksoft.Nanopb.Types.Atype
use test_gbksoft.Nanopb.Types.WireType
use test_gbksoft.Nanopb.Memory.{load}
use test_gbksoft.Nanopb.Iter.{add_signed}
use test_gbksoft.Nanopb.Output.{OStream, ostream_sizing, is_sizing, return_error, write_n, add_size}
use test_gbksoft.Nanopb.Output.Primitives.{encode_varint, encode_tag, encode_tag_for_field}
use test_gbksoft.Nanopb.Encode.Env.{Env}
use test_gbksoft.Nanopb.Encode.Values.{
  enc_varint, enc_uvarint, enc_svarint, enc_fixed32, enc_fixed64,
}
use test_gbksoft.Nanopb.Encode.Values.{
  enc_bytes, enc_string, enc_submessage, enc_fixed_length_bytes,
}

module _ {τ : Type 0} where
  -- `sizestream.bytes_written`; its errors stay behind.
  unfoldable pub size_of : Outcome (OStream τ) (Unit {0}) → M (OStream τ) ℕ
  size_of (ok _ sizestream) s = ok sizestream.bytes_written s
  size_of (fail sizestream) s = fail s
  size_of fault s = fault
  size_of stuck s = stuck

  -- The size, and the items, or `pb_write(stream, NULL, size)` on a stream that counts.
  unfoldable pub framed : M (OStream τ) (Unit {0}) → ℕ → M (OStream τ) (Unit {0})
  framed items size s =
      bind_outcome (encode_varint size s)
        λ _ s'. if is_sizing s'.sink then write_n [] size s' else items s'

  -- Past the callback: its error gets a message of the stream's.
  unfoldable pub checked : Outcome (OStream τ) (Unit {0}) → Outcome (OStream τ) (Unit {0})
  checked (ok _ s) = ok tt s
  checked (fail s) = return_error callback_error s
  checked fault = fault
  checked stuck = stuck

-- `is_default` is pb_check_proto3_default_value, `sub` is pb_encode_submessage.
module _ {τ : Type 0} (env : Env τ) (is_default : Field → ℕ → Option Bool)
    (sub : ℕ → ℕ → M (OStream τ) (Unit {0})) where
  open env use {mem}

  -- `func`, from PB_ENCODERS. There is none for extensions, and the table ends at 9.
  unfoldable pub encoder : Field → ℕ → M (OStream τ) (Unit {0})
  encoder field src s =
      let l = ltype field.type in
      if l == Ltype.varint
      then enc_varint env field src s
      else if l == Ltype.uvarint
      then enc_uvarint env field src s
      else if l == Ltype.svarint
      then enc_svarint env field src s
      else if l == Ltype.fixed32
      then enc_fixed32 env field src s
      else if l == Ltype.fixed64
      then enc_fixed64 env field src s
      else if l == Ltype.bytes
      then enc_bytes env field src s
      else if l == Ltype.string
      then enc_string env field src s
      else if l == Ltype.submessage
      then enc_submessage sub field.ptr src s
      else if l == Ltype.fixed_length_bytes
      then enc_fixed_length_bytes env field src s
      else fault

  -- The loop over the items of a packed array.
  unfoldable pub packed_items : Field → ℕ → ℕ → M (OStream τ) (Unit {0})
  unfolding encoder
  packed_items field zero p s = ok tt s
  packed_items field (suc count) p s =
      bind_outcome (encoder field p s) λ _. packed_items field count (add_size p field.data_size)

  unfoldable pub packed_size : Field → ℕ → ℕ → M (OStream τ) ℕ
  unfolding packed_items size_of
  packed_size field count p s =
      let l = ltype field.type in
      if l == Ltype.fixed32
      then ok (4 * count) s
      else if l == Ltype.fixed64
      then ok (8 * count) s
      else size_of (packed_items field count p ostream_sizing) s

  -- The loop over the items of any other array.
  unfoldable pub unpacked_items : Field → ℕ → ℕ → M (OStream τ) (Unit {0})
  unfolding encoder
  unpacked_items field zero p s = ok tt s
  unpacked_items field (suc count) p s =
      let l = ltype field.type in
      let pointers =
        (atype field.type == Atype.pointer) && ((l == Ltype.string) || (l == Ltype.bytes)) in
      bind_outcome (encode_tag_for_field field.type field.tag s) λ _ s1.
        bind_outcome (encoder field (if pointers then load mem 8 p else p) s1)
          λ _. unpacked_items field count (add_size p field.data_size)

  -- encode_array
  unfoldable pub encode_array : Field → ℕ → ℕ → M (OStream τ) (Unit {0})
  unfolding packed_size framed unpacked_items
  encode_array field p count s =
      let packed : Outcome (OStream τ) (Unit {0}) =
        bind_outcome (encode_tag WireType.string field.tag s) λ _ s1.
          bind_outcome (packed_size field count p s1) (framed (packed_items field count p)) in
      if count == 0
      then ok tt s
      else if not (atype field.type == Atype.pointer) && ltb field.array_size count
      then return_error array_max_size_exceeded s
      else if leb (ltype field.type) Ltype.last_packable
      then packed
      else unpacked_items field count p s

  -- The tag and the value.
  unfoldable pub encode_single : Field → ℕ → M (OStream τ) (Unit {0})
  encode_single field p s =
      bind_outcome (encode_tag_for_field field.type field.tag s) λ _. encoder field p

  -- `*(const bool*)pSize`, where `data` is pData after the dereference of a pointer field.
  unfoldable pub has_value : Field → ℕ → ℕ → Option Bool
  has_value field p data' =
      let pointer = atype field.type == Atype.pointer in
      if not (field.size_offset == 0)
      then some (not (load mem 1 (add_signed p field.size_offset) == 0))
      else if htype field.type == Htype.optional
      then Option.map (λ zero_value. if pointer then not (data' == 0) else not zero_value)
          (is_default field p)
      else some (if pointer then not (data' == 0) else true)

  -- The switch of encode_basic_field. A oneof field has its which_ field at `pSize`.
  unfoldable pub by_htype : Field → ℕ → ℕ → Option Bool → M (OStream τ) (Unit {0})
  unfolding encode_array encode_single
  by_htype field p data' none s = stuck
  by_htype field p data' (some has) s =
      let size = add_signed p field.size_offset in
      let which = load mem 4 size in
      let count = if not (field.size_offset == 0) then which else field.array_size in
      if htype field.type == Htype.required
      then if data' == 0 then return_error missing_required_field s else encode_single field data' s
      else if htype field.type == Htype.optional
      then if has then encode_single field data' s else ok tt s
      else if htype field.type == Htype.repeated
      then encode_array field data' count s
      else if field.size_offset == 0
      then fault
      else if which == field.tag
      then encode_single field data' s
      else ok tt s

  -- encode_basic_field
  unfoldable pub encode_basic_field : Field → ℕ → M (OStream τ) (Unit {0})
  unfolding has_value by_htype
  encode_basic_field field p s =
      let data' = if atype field.type == Atype.pointer then load mem 8 p else p in
      if leb 10 (ltype field.type)
      then fault
      else by_htype field p data' (has_value field p data') s

  -- encode_callback_field, of a pb_callback_t: a function pointer, and the argument behind it.
  unfoldable pub encode_callback_field : Field → ℕ → M (OStream τ) (Unit {0})
  unfolding checked
  encode_callback_field field p s =
      let encode = load mem 8 p in
      if encode == 0 then ok tt s else checked (env.encode_callback encode field (p + 8) s)

  -- encode_field
  unfoldable pub encode_field : Field → ℕ → M (OStream τ) (Unit {0})
  unfolding encode_basic_field encode_callback_field
  encode_field field p s =
      let a = atype field.type in
      if (a == Atype.static) || (a == Atype.pointer)
      then encode_basic_field field p s
      else if a == Atype.callback
      then encode_callback_field field p s
      else return_error invalid_field_type s
