-- ===== src/Nanopb/Types.antt =====
-- The declarations of pb.h, as the pods build them: PB_FIELD_32BIT, so pb_size_t has 32 bits;
-- PB_ENABLE_MALLOC; 64-bit integers, error messages and callback streams are on. `size_t` and
-- pointers have 64 bits.
pub mod Ltype
pub mod Htype
pub mod Atype
pub mod WireType
use test_gbksoft.Common.{ℕ, ◌-◌, ◌^◌, ◌<◌, bit_and, Option, none, some, List}

-- A byte, and the words of the code.
abbrev pub IsByte : ℕ → Type 0
IsByte b = b < 2 ^ 8

abbrev pub IsU32 : ℕ → Type 0
IsU32 v = v < 2 ^ 32

abbrev pub IsU64 : ℕ → Type 0
IsU64 v = v < 2 ^ 64

-- The texts that PB_RETURN_ERROR stores.
pub data ErrMsg : Type 0 where
  stream_full io_error end_of_stream varint_overflow invalid_wire_type : ErrMsg
  parent_stream_too_short array_overflow invalid_field_type invalid_size size_too_large : ErrMsg
  realloc_failed too_many_array_entries callback_failed callback_error : ErrMsg
  wrong_size_for_fixed_count_field missing_required_field invalid_union_tag : ErrMsg
  iterator_error invalid_data_size integer_too_large bytes_overflow string_overflow : ErrMsg
  invalid_field_descriptor incorrect_fixed_length_bytes_size : ErrMsg
  array_max_size_exceeded submsg_size_changed bytes_size_exceeded : ErrMsg

-- PB_SET_ERROR keeps the first message.
abbrev pub set_error : Option ErrMsg → ErrMsg → Option ErrMsg
set_error none msg = some msg
set_error (some old) msg = some old

-- pb_type_t is a byte of three parts.
abbrev pub ltype : ℕ → ℕ
ltype t = bit_and t 0x0f

abbrev pub htype : ℕ → ℕ
htype t = bit_and t 0x30

abbrev pub atype : ℕ → ℕ
atype t = bit_and t 0xc0

-- PB_SIZE_MAX, which also marks the later members of a union.
abbrev pub size_max : ℕ
size_max = 2 ^ 32 - 1

-- `ptr` of a descriptor: the descriptors of a submessage, by their place in the program's tables,
-- or the bytes of a default value.
pub data FieldPtr : Type 0 where
  null : FieldPtr
  fields : ℕ → FieldPtr
  default : List ℕ → FieldPtr

-- pb_field_t. `size_offset` is a pb_ssize_t, given by its 32 bits.
pub record Field : Type 0 where
  pub tag : ℕ
  pub type : ℕ
  pub data_offset : ℕ
  pub size_offset : ℕ
  pub data_size : ℕ
  pub array_size : ℕ
  pub ptr : FieldPtr
