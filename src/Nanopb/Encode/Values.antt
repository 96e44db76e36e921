-- ===== src/Nanopb/Encode/Values.antt =====
-- The pb_enc_* functions of pb_encode.c.
use test_gbksoft.Common.{ℕ, zero, suc, ◌+◌, ◌-◌, ◌^◌, ◌&&◌, ltb, ◌==◌, if◌then◌else◌, []}
use test_gbksoft.Common.Outcome.{fault, M}
use test_gbksoft.Nanopb.Types.{Field, FieldPtr, null, fields, default, atype}
use test_gbksoft.Nanopb.Types.{invalid_data_size, bytes_size_exceeded, invalid_field_descriptor}
use test_gbksoft.Nanopb.Types.Atype
use test_gbksoft.Nanopb.Memory.{Mem, load, sign_extend, bytes_at}
use test_gbksoft.Nanopb.Output.{OStream, return_error}
use test_gbksoft.Nanopb.Output.Primitives.{
  encode_varint, encode_svarint, encode_fixed32, encode_fixed64,
}
use test_gbksoft.Nanopb.Output.Primitives.{encode_string}
use test_gbksoft.Nanopb.Encode.Env.{Env}

-- `while (size < max_size && *p != '\0')`
unfoldable pub string_size : Mem → ℕ → ℕ → ℕ
string_size mem zero p = 0
string_size mem (suc max_size) p =
    let rest = suc (string_size mem max_size (suc p)) in if load mem 1 p == 0 then 0 else rest

module _ {τ : Type 0} (env : Env τ) where
  open env use {mem}

  -- pb_enc_varint
  unfoldable pub enc_varint : Field → ℕ → M (OStream τ) (Unit {0})
  enc_varint field src s =
      if field.data_size == 1
      then encode_varint (sign_extend 8 (load mem 1 src)) s
      else if field.data_size == 2
      then encode_varint (sign_extend 16 (load mem 2 src)) s
      else if field.data_size == 4
      then encode_varint (sign_extend 32 (load mem 4 src)) s
      else if field.data_size == 8
      then encode_varint (load mem 8 src) s
      else return_error invalid_data_size s

  -- pb_enc_uvarint
  unfoldable pub enc_uvarint : Field → ℕ → M (OStream τ) (Unit {0})
  enc_uvarint field src s =
      if field.data_size == 1
      then encode_varint (load mem 1 src) s
      else if field.data_size == 2
      then encode_varint (load mem 2 src) s
      else if field.data_size == 4
      then encode_varint (load mem 4 src) s
      else if field.data_size == 8
      then encode_varint (load mem 8 src) s
      else return_error invalid_data_size s

  -- pb_enc_svarint
  unfoldable pub enc_svarint : Field → ℕ → M (OStream τ) (Unit {0})
  enc_svarint field src s =
      if field.data_size == 1
      then encode_svarint (sign_extend 8 (load mem 1 src)) s
      else if field.data_size == 2
      then encode_svarint (sign_extend 16 (load mem 2 src)) s
      else if field.data_size == 4
      then encode_svarint (sign_extend 32 (load mem 4 src)) s
      else if field.data_size == 8
      then encode_svarint (load mem 8 src) s
      else return_error invalid_data_size s

  -- pb_enc_fixed64
  unfoldable pub enc_fixed64 : Field → ℕ → M (OStream τ) (Unit {0})
  enc_fixed64 field src = encode_fixed64 (load mem 8 src)

  -- pb_enc_fixed32
  unfoldable pub enc_fixed32 : Field → ℕ → M (OStream τ) (Unit {0})
  enc_fixed32 field src = encode_fixed32 (load mem 4 src)

  -- pb_enc_bytes of a pb_bytes_array_t: a size of four bytes, and the bytes.
  unfoldable pub enc_bytes : Field → ℕ → M (OStream τ) (Unit {0})
  enc_bytes field src s =
      let size = load mem 4 src in
      if src == 0
      then encode_string [] 0 s
      else if (atype field.type == Atype.static) && ltb field.data_size (size + 4)
      then return_error bytes_size_exceeded s
      else encode_string (bytes_at mem size (src + 4)) size s

  -- pb_enc_string
  unfoldable pub enc_string : Field → ℕ → M (OStream τ) (Unit {0})
  enc_string field src s =
      let max_size = if atype field.type == Atype.pointer then 2 ^ 64 - 1 else field.data_size in
      let size = if src == 0 then 0 else string_size mem max_size src in
      encode_string (bytes_at mem size src) size s

  -- pb_enc_fixed_length_bytes
  unfoldable pub enc_fixed_length_bytes : Field → ℕ → M (OStream τ) (Unit {0})
  enc_fixed_length_bytes field src s =
      encode_string (bytes_at mem field.data_size src) field.data_size s

-- pb_enc_submessage, on what pb_encode_submessage does.
unfoldable pub enc_submessage :
    {τ : Type 0} → (ℕ → ℕ → M (OStream τ) (Unit {0})) → FieldPtr → ℕ → M (OStream τ) (Unit {0})
enc_submessage sub null src s = return_error invalid_field_descriptor s
enc_submessage sub (fields k) src s = sub k src s
enc_submessage sub (default bytes) src s = fault
