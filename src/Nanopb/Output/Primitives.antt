-- ===== src/Nanopb/Output/Primitives.antt =====
-- The helper functions of pb_encode.c: varints, words of fixed size, tags and strings.
use test_gbksoft.Common.{ℕ, zero, suc, ◌-◌, ◌*◌, ◌/◌, ◌%◌, ◌^◌, bit_and, bit_or}
use test_gbksoft.Common.{◌||◌, leb, ◌==◌, if◌then◌else◌}
use test_gbksoft.Common.{Option, none, some, List, [], ◌∷◌}
use mathlib.Core.Option
use test_gbksoft.Common.Outcome.{fault, M, ◌>>◌}
use test_gbksoft.Nanopb.Types.{ltype, invalid_field_type}
use test_gbksoft.Nanopb.Types.Ltype
use test_gbksoft.Nanopb.Types.WireType
use test_gbksoft.Nanopb.Output.{OStream, return_error, write_n, write}

-- `while (value) { buffer[i] = (value & 0x7F) | 0x80; value >>= 7; i++; }` with `fuel` bytes of
-- the buffer left. `none` is a write behind the buffer.
unfoldable pub groups : ℕ → ℕ → Option (List ℕ)
groups zero value = if value == 0 then some [] else none
groups (suc fuel) value =
    let rest = groups fuel (value / 2 ^ 7) in
    let byte = bit_or (bit_and value 0x7f) 0x80 % 2 ^ 8 in
    if value == 0 then some [] else Option.map (λ bs. byte ∷ bs) rest

-- `buffer[i-1] &= 0x7F`
unfoldable pub clear_last : List ℕ → List ℕ
clear_last [] = []
clear_last (b ∷ []) = bit_and b 0x7f ∷ []
clear_last (b ∷ c ∷ bs) = b ∷ clear_last (c ∷ bs)

-- pb_encode_svarint's word for an int64_t, which is given by its bits.
abbrev pub zigzag : ℕ → ℕ
zigzag value =
    let shifted = value * 2 % 2 ^ 64 in if leb (2 ^ 63) value then 2 ^ 64 - 1 - shifted else shifted

-- `(pb_byte_t)((val >> shift) & 0xFF)`
abbrev pub byte_of : ℕ → ℕ → ℕ
byte_of val shift = bit_and (val / 2 ^ shift) 0xff % 2 ^ 8

-- The switch of pb_encode_tag_for_field.
abbrev pub wire_type_of : ℕ → Option ℕ
wire_type_of type =
    let l = ltype type in
    if l == Ltype.varint || l == Ltype.uvarint || l == Ltype.svarint
    then some WireType.varint
    else if l == Ltype.fixed32
    then some WireType.bits32
    else if l == Ltype.fixed64
    then some WireType.bits64
    else if l == Ltype.bytes
        || l == Ltype.string
        || l == Ltype.submessage
        || l == Ltype.fixed_length_bytes
    then some WireType.string
    else none

module _ {τ : Type 0} where
  unfoldable pub write_groups : Option (List ℕ) → M (OStream τ) (Unit {0})
  unfolding clear_last
  write_groups none s = fault
  write_groups (some buffer) s = write (clear_last buffer) s

  -- pb_encode_varint, with its buffer of ten bytes.
  unfoldable pub encode_varint : ℕ → M (OStream τ) (Unit {0})
  unfolding groups write_groups
  encode_varint value s =
      if leb value 0x7f then write (value % 2 ^ 8 ∷ []) s else write_groups (groups 10 value) s

  -- pb_encode_svarint
  unfoldable pub encode_svarint : ℕ → M (OStream τ) (Unit {0})
  encode_svarint value = encode_varint (zigzag value)

  -- pb_encode_fixed32
  unfoldable pub encode_fixed32 : ℕ → M (OStream τ) (Unit {0})
  encode_fixed32 val = write (byte_of val 0 ∷ byte_of val 8 ∷ byte_of val 16 ∷ byte_of val 24 ∷ [])

  -- pb_encode_fixed64
  unfoldable pub encode_fixed64 : ℕ → M (OStream τ) (Unit {0})
  encode_fixed64 val = write (
      byte_of val 0
      ∷ byte_of val 8
      ∷ byte_of val 16
      ∷ byte_of val 24
      ∷ byte_of val 32
      ∷ byte_of val 40
      ∷ byte_of val 48
      ∷ byte_of val 56
      ∷ [])

  -- pb_encode_tag
  unfoldable pub encode_tag : ℕ → ℕ → M (OStream τ) (Unit {0})
  encode_tag wire_type field_number =
      encode_varint (bit_or (field_number * 2 ^ 3 % 2 ^ 64) wire_type)

  tag_for : ℕ → Option ℕ → M (OStream τ) (Unit {0})
  tag_for tag none = return_error invalid_field_type
  tag_for tag (some wire_type) = encode_tag wire_type tag

  -- pb_encode_tag_for_field, of the descriptor's type and tag.
  unfoldable pub encode_tag_for_field : ℕ → ℕ → M (OStream τ) (Unit {0})
  unfolding tag_for
  encode_tag_for_field type tag = tag_for tag (wire_type_of type)

  -- pb_encode_string
  unfoldable pub encode_string : List ℕ → ℕ → M (OStream τ) (Unit {0})
  encode_string buffer size = encode_varint size >> write_n buffer size
