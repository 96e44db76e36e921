-- ===== src/Nanopb/Encode/Wire.antt =====
-- The wire format of a message, apart from the streams of pb_encode.c: whether it can be encoded,
-- and the bytes up to what cannot.
use test_gbksoft.Common.{
  ℕ, zero, suc, ◌+◌, ◌-◌, ◌*◌, ◌^◌, Bool, true, not, ◌&&◌, ◌||◌, ltb, leb, ◌==◌,
}
use test_gbksoft.Common.{if◌then◌else◌, Option, none, some, List, [], ◌∷◌, ◌%◌}
use test_gbksoft.Nanopb.Types.{Field, FieldPtr, null, fields, default, ltype, htype, atype}
use test_gbksoft.Nanopb.Types.Ltype
use test_gbksoft.Nanopb.Types.Htype
use test_gbksoft.Nanopb.Types.Atype
use test_gbksoft.Nanopb.Memory.{Mem, load, bytes_at}
use test_gbksoft.Nanopb.Output.Text.{
  Text, refused, nothing, and_then, framed_text, string_text, varint_text,
}
use test_gbksoft.Nanopb.Iter.Placed.{placed}
use test_gbksoft.Nanopb.Encode.Unset.{shifted, unset}

-- The wire type of a value: 0 for a varint, 5 and 1 for words of four and eight bytes, 2 for what
-- has a length.
abbrev pub wire_of : ℕ → Option ℕ
wire_of l =
    if leb l 2
    then some 0
    else if l == 3
    then some 5
    else if l == 4
    then some 1
    else if leb l 7 || l == 9
    then some 2
    else none

-- An integer of w bits with a sign, as the bits of an int64_t.
abbrev pub int64_of : ℕ → ℕ → ℕ
int64_of w v = if ltb v (2 ^ (w - 1)) then v else 2 ^ 64 - (2 ^ w - v)

-- 0, -1, 1, -2, ... are numbered from 0 on. The number is given by the bits of an int64_t.
abbrev pub zigzag_number : ℕ → ℕ
zigzag_number v = if ltb v (2 ^ 63) then v * 2 else (2 ^ 64 - v) * 2 - 1

-- The key of a field.
unfoldable pub tag_text : ℕ → ℕ → Text
tag_text type tag = elim (wire_of (ltype type)) [
  | none ↦ refused
  | some w ↦ varint_text (tag * 8 + w)
]

module _ (mem : Mem) where
  -- An integer of one, two, four or eight bytes.
  abbrev pub sizes_text : Field → Text → Text → Text → Text → Text
  sizes_text field a b c d =
      if field.data_size == 1
      then a
      else if field.data_size == 2
      then b
      else if field.data_size == 4
      then c
      else if field.data_size == 8
      then d
      else refused

  unfoldable pub signed_text : (ℕ → ℕ) → Field → ℕ → Text
  signed_text f field src =
      sizes_text field (varint_text (f (int64_of 8 (load mem 1 src))))
        (varint_text (f (int64_of 16 (load mem 2 src))))
        (varint_text (f (int64_of 32 (load mem 4 src)))) (varint_text (f (load mem 8 src)))

  unfoldable pub unsigned_text : Field → ℕ → Text
  unsigned_text field src =
      sizes_text field (varint_text (load mem 1 src)) (varint_text (load mem 2 src))
        (varint_text (load mem 4 src)) (varint_text (load mem 8 src))

  unfoldable pub bytes_text : Field → ℕ → Text
  bytes_text field src =
      if src == 0
      then string_text []
      else if (atype field.type == Atype.static) && ltb field.data_size (load mem 4 src + 4)
      then refused
      else string_text (bytes_at mem (load mem 4 src) (src + 4))

  -- The characters up to a NUL, at most so many.
  unfoldable pub chars_at : ℕ → ℕ → List ℕ
  chars_at zero p = []
  chars_at (suc most) p =
      let rest = chars_at most (suc p) in if mem p % 2 ^ 8 == 0 then [] else mem p % 2 ^ 8 ∷ rest

  unfoldable pub chars_text : Field → ℕ → Text
  unfolding chars_at
  chars_text field src =
      let most = if atype field.type == Atype.pointer then 2 ^ 64 - 1 else field.data_size in
      string_text (if src == 0 then [] else chars_at most src)

-- The messages, by the place of their descriptors.
unfoldable pub pointed_text : (ℕ → ℕ → Text) → FieldPtr → ℕ → Text
pointed_text sub null src = refused
pointed_text sub (fields k) src = framed_text (sub k src)
pointed_text sub (default bytes) src = refused

module _ (mem : Mem) (sub : ℕ → ℕ → Text) where
  unfoldable pub value_text : Field → ℕ → Text
  unfolding signed_text unsigned_text bytes_text chars_text pointed_text
  value_text field src =
      let l = ltype field.type in
      if l == Ltype.varint
      then signed_text mem (λ v. v) field src
      else if l == Ltype.uvarint
      then unsigned_text mem field src
      else if l == Ltype.svarint
      then signed_text mem (λ v. zigzag_number v) field src
      else if l == Ltype.fixed32
      then (true, bytes_at mem 4 src)
      else if l == Ltype.fixed64
      then (true, bytes_at mem 8 src)
      else if l == Ltype.bytes
      then bytes_text mem field src
      else if l == Ltype.string
      then chars_text mem field src
      else if l == Ltype.submessage
      then pointed_text sub field.ptr src
      else if l == Ltype.fixed_length_bytes
      then string_text (bytes_at mem field.data_size src)
      else refused

  unfoldable pub packed_text : Field → ℕ → ℕ → Text
  unfolding value_text
  packed_text field zero p = nothing
  packed_text field (suc count) p =
      and_then (value_text field p) (packed_text field count ((p + field.data_size) % 2 ^ 64))

  -- Strings and bytes behind pointers.
  unfoldable pub unpacked_text : Field → ℕ → ℕ → Text
  unfolding value_text tag_text
  unpacked_text field zero p = nothing
  unpacked_text field (suc count) p =
      let l = ltype field.type in
      let pointers =
        (atype field.type == Atype.pointer) && ((l == Ltype.string) || (l == Ltype.bytes)) in
      and_then (tag_text field.type field.tag) (
        and_then (value_text field (if pointers then load mem 8 p else p))
          (unpacked_text field count ((p + field.data_size) % 2 ^ 64)))

  unfoldable pub array_text : Field → ℕ → ℕ → Text
  unfolding packed_text unpacked_text
  array_text field p count =
      if count == 0
      then nothing
      else if not (atype field.type == Atype.pointer) && ltb field.array_size count
      then refused
      else if leb (ltype field.type) Ltype.last_packable
      then and_then (varint_text (field.tag * 8 + 2)) (framed_text (packed_text field count p))
      else unpacked_text field count p

  unfoldable pub single_text : Field → ℕ → Text
  unfolding value_text tag_text
  single_text field p = and_then (tag_text field.type field.tag) (value_text field p)

  -- A field that is present, or all its items.
  unfoldable pub present_text : Field → ℕ → ℕ → Bool → Text
  unfolding array_text single_text
  present_text field data' p has =
      let size = shifted p field.size_offset in
      if htype field.type == Htype.required
      then if data' == 0 then refused else single_text field data'
      else if htype field.type == Htype.optional
      then if has then single_text field data' else nothing
      else if htype field.type == Htype.repeated
      then array_text field data'
          (if not (field.size_offset == 0) then load mem 4 size else field.array_size)
      else if field.size_offset == 0
      then refused
      else if load mem 4 size == field.tag
      then single_text field data'
      else nothing

-- `zero_value` is whether the value is the default.
module _ (mem : Mem) (zero_value : Field → ℕ → Bool) where
  -- An explicit flag, or a pointer, or a value that is not the default.
  unfoldable pub is_present : Field → ℕ → ℕ → Bool
  is_present field p data' =
      let pointer = atype field.type == Atype.pointer in
      if not (field.size_offset == 0)
      then not (load mem 1 (shifted p field.size_offset) == 0)
      else if htype field.type == Htype.optional
      then (if pointer then not (data' == 0) else not (zero_value field p))
      else if pointer
      then not (data' == 0)
      else true

-- Where a value is, past the pointer of a pointer field.
abbrev pub data_of : Mem → Field → ℕ → ℕ
data_of mem field p = if atype field.type == Atype.pointer then load mem 8 p else p

-- `callback` is what a callback of the user writes.
module _ (mem : Mem) (zero_value : Field → ℕ → Bool) (callback : ℕ → Field → ℕ → Text)
    (sub : ℕ → ℕ → Text) where
  unfoldable pub field_text : Field → ℕ → Text
  unfolding present_text is_present
  field_text field p =
      let a = atype field.type in
      if (a == Atype.static) || (a == Atype.pointer)
      then present_text mem sub field (data_of mem field p) p
          (is_present mem zero_value field p (data_of mem field p))
      else if a == Atype.callback
      then if load mem 8 p == 0 then nothing else callback (load mem 8 p) field (p + 8)
      else refused

-- The fields one after the other.
unfoldable pub fields_text : (Field → ℕ → Text) → List (Field × ℕ) → Text
fields_text each [] = nothing
fields_text each ((f, p) ∷ rest) = and_then (each f p) (fields_text each rest)

-- A message, whose submessages are at most `fuel - 1` levels deep.
unfoldable pub message_text : Mem → (ℕ → List Field) → (ℕ → Field → ℕ → Text) → ℕ → ℕ → ℕ → Text
unfolding field_text fields_text
message_text mem table callback zero k src = refused
message_text mem table callback (suc fuel) k src =
    fields_text
      (field_text mem (unset mem table (suc fuel)) callback
        (λ k' p. message_text mem table callback fuel k' p))
      (placed (table k) src)
