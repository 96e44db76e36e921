-- ===== src/Nanopb/Decode/Values.antt =====
-- The pb_dec_* functions of pb_decode.c that need no submessage.
use test_gbksoft.Common.{ℕ, zero, suc, not, ◌+◌, ◌%◌, ◌^◌, ltb, ◌==◌, if◌then◌else◌, List, [], ◌∷◌}
use test_gbksoft.Common.Outcome.{Outcome, ok, fail, fault, stuck, M, bind_outcome}
use test_gbksoft.Nanopb.Types.{
  Field, ltype, atype, size_max, invalid_data_size, integer_too_large, bytes_overflow,
}
use test_gbksoft.Nanopb.Types.{string_overflow, size_too_large, incorrect_fixed_length_bytes_size}
use test_gbksoft.Nanopb.Types.Ltype
use test_gbksoft.Nanopb.Types.Atype
use test_gbksoft.Nanopb.Memory.{load, sign_extend, store_bytes}
use test_gbksoft.Nanopb.Input.Varint.{decode_varint32, decode_varint}
use test_gbksoft.Nanopb.Input.Wire.{decode_svarint, decode_fixed32, decode_fixed64}
use test_gbksoft.Nanopb.Decode.State.{DecState, on_stream, return_error, put, put_bytes, read_into}
use test_gbksoft.Nanopb.Decode.Allocate.{Realloc, allocate_field}

-- `size` bytes of 0.
unfoldable pub zeros : ℕ → List ℕ
zeros zero = []
zeros (suc n) = 0 ∷ zeros n

module _ {σ η : Type 0} where
  -- `clamped = *(T*)dest = (T)value`, where T has `n` bytes, and the test that nothing was lost.
  unfoldable pub clamp : ℕ → ℕ → ℕ → ℕ → M (DecState σ η) (Unit {0})
  clamp n dest clamped value s =
      bind_outcome (put n dest clamped s)
        λ _ s'. if clamped == value then ok tt s' else return_error integer_too_large s'

  -- pb_dec_varint past the call of pb_decode_varint, and pb_dec_svarint past its call, of an int64_t
  -- by its bits.
  unfoldable pub clamp_signed : Field → ℕ → ℕ → M (DecState σ η) (Unit {0})
  unfolding clamp
  clamp_signed field dest value s =
      if field.data_size == 8
      then clamp 8 dest value value s
      else if field.data_size == 4
      then clamp 4 dest (sign_extend 32 (value % 2 ^ 32)) value s
      else if field.data_size == 2
      then clamp 2 dest (sign_extend 16 (value % 2 ^ 16)) value s
      else if field.data_size == 1
      then clamp 1 dest (sign_extend 8 (value % 2 ^ 8)) value s
      else return_error invalid_data_size s

  -- pb_dec_varint
  unfoldable pub dec_varint : Field → ℕ → M (DecState σ η) (Unit {0})
  unfolding clamp_signed
  dec_varint field dest s = bind_outcome (on_stream decode_varint s) λ value.
      clamp_signed field dest
        (if field.data_size == 8 then value else sign_extend 32 (value % 2 ^ 32))

  -- pb_dec_uvarint
  unfoldable pub dec_uvarint : Field → ℕ → M (DecState σ η) (Unit {0})
  unfolding clamp
  dec_uvarint field dest s = bind_outcome (on_stream decode_varint s) λ value s'.
      if field.data_size == 8
      then clamp 8 dest value value s'
      else if field.data_size == 4
      then clamp 4 dest (value % 2 ^ 32) value s'
      else if field.data_size == 2
      then clamp 2 dest (value % 2 ^ 16) value s'
      else if field.data_size == 1
      then clamp 1 dest (value % 2 ^ 8) value s'
      else return_error invalid_data_size s'

  -- pb_dec_svarint
  unfoldable pub dec_svarint : Field → ℕ → M (DecState σ η) (Unit {0})
  unfolding clamp_signed
  dec_svarint field dest s = bind_outcome (on_stream decode_svarint s) (clamp_signed field dest)

  -- pb_dec_fixed32
  unfoldable pub dec_fixed32 : Field → ℕ → M (DecState σ η) (Unit {0})
  dec_fixed32 field dest s = bind_outcome (on_stream decode_fixed32 s) (put 4 dest)

  -- pb_dec_fixed64
  unfoldable pub dec_fixed64 : Field → ℕ → M (DecState σ η) (Unit {0})
  dec_fixed64 field dest s = bind_outcome (on_stream decode_fixed64 s) (put 8 dest)

  -- pb_dec_fixed_length_bytes
  unfoldable pub dec_fixed_length_bytes : Field → ℕ → M (DecState σ η) (Unit {0})
  unfolding zeros
  dec_fixed_length_bytes field dest s = bind_outcome (on_stream decode_varint32 s) λ size s'.
      if ltb size_max size
      then return_error bytes_overflow s'
      else if size == 0
      then put_bytes (zeros field.data_size) dest s'
      else if not (size == field.data_size)
      then return_error incorrect_fixed_length_bytes_size s'
      else read_into dest field.data_size s'

  -- `bdest->size = size` and pb_read.
  unfoldable pub read_bytes : ℕ → ℕ → M (DecState σ η) (Unit {0})
  read_bytes size bdest s = bind_outcome (put 4 bdest size s) λ _. read_into (bdest + 4) size

  -- The terminator behind what pb_read stored, whether it succeeded or not.
  unfoldable pub terminated :
      ℕ → Outcome (DecState σ η) (Unit {0}) → Outcome (DecState σ η) (Unit {0})
  terminated a (ok _ s) = put_bytes (0 ∷ []) a s
  terminated a (fail s) = fail (record s { mem = store_bytes (0 ∷ []) a s.mem })
  terminated a fault = fault
  terminated a stuck = stuck

  unfoldable pub read_string : ℕ → ℕ → M (DecState σ η) (Unit {0})
  unfolding terminated
  read_string size dest s = terminated (dest + size) (read_into dest size s)

module _ {σ η : Type 0} (realloc : Realloc η) where
  -- pb_dec_bytes
  unfoldable pub dec_bytes : Field → ℕ → M (DecState σ η) (Unit {0})
  unfolding read_bytes
  dec_bytes field dest s = bind_outcome (on_stream decode_varint32 s) λ size s'.
      let alloc_size = size + 4 in
      if ltb size_max size
      then return_error bytes_overflow s'
      else if ltb alloc_size size
      then return_error size_too_large s'
      else if atype field.type == Atype.pointer
      then bind_outcome (allocate_field realloc dest alloc_size 1 s')
          (λ _ s2. read_bytes size (load s2.mem 8 dest) s2)
      else if ltb field.data_size alloc_size
      then return_error bytes_overflow s'
      else read_bytes size dest s'

  -- pb_dec_string
  unfoldable pub dec_string : Field → ℕ → M (DecState σ η) (Unit {0})
  unfolding read_string
  dec_string field dest s = bind_outcome (on_stream decode_varint32 s) λ size s'.
      let alloc_size = (size + 1) % 2 ^ 32 in
      if ltb alloc_size size
      then return_error size_too_large s'
      else if atype field.type == Atype.pointer
      then bind_outcome (allocate_field realloc dest alloc_size 1 s')
          (λ _ s2. read_string size (load s2.mem 8 dest) s2)
      else if ltb field.data_size alloc_size
      then return_error string_overflow s'
      else read_string size dest s'

  -- `func`, from PB_DECODERS, where `sub` is pb_dec_submessage. There is none for extensions, and the
  -- table ends at 9.
  unfoldable pub decoder :
      (Field → ℕ → M (DecState σ η) (Unit {0})) → Field → ℕ → M (DecState σ η) (Unit {0})
  unfolding dec_bytes dec_string dec_varint dec_uvarint dec_svarint dec_fixed32 dec_fixed64
      dec_fixed_length_bytes
  decoder sub field dest s =
      let l = ltype field.type in
      if l == Ltype.varint
      then dec_varint field dest s
      else if l == Ltype.uvarint
      then dec_uvarint field dest s
      else if l == Ltype.svarint
      then dec_svarint field dest s
      else if l == Ltype.fixed32
      then dec_fixed32 field dest s
      else if l == Ltype.fixed64
      then dec_fixed64 field dest s
      else if l == Ltype.bytes
      then dec_bytes field dest s
      else if l == Ltype.string
      then dec_string field dest s
      else if l == Ltype.submessage
      then sub field dest s
      else if l == Ltype.fixed_length_bytes
      then dec_fixed_length_bytes field dest s
      else fault
