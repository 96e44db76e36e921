-- ===== src/Nanopb/Runs.antt =====
-- Runs of the models of pb_decode.c and pb_encode.c on concrete bytes.
use test_gbksoft.Common.{ℕ, ◌+◌, ◌-◌, ◌*◌, ◌^◌, ◌≡◌, refl, arith, true, false, none, some}
use test_gbksoft.Common.{List, [], ◌∷◌, ◌++◌, length, replicate}
use test_gbksoft.Common.Outcome.{ok, fail}
use test_gbksoft.Nanopb.Types.{end_of_stream, varint_overflow}
use test_gbksoft.Nanopb.Types.WireType
use test_gbksoft.Nanopb.Input.{IStream, user}
use test_gbksoft.Nanopb.Input.Buffer.{at}
use test_gbksoft.Nanopb.Input.Varint.{decode_varint, decode_varint32}
use test_gbksoft.Nanopb.Input.Wire.{decode_tag, skip_field, read_raw_value, make_string_substream}
use test_gbksoft.Nanopb.Input.Wire.{close_string_substream, decode_svarint, decode_fixed32}
use test_gbksoft.Nanopb.Input.Safety.{Ends}
use test_gbksoft.Nanopb.Input.Bounds.{skip_field-Ends, read_raw_value-Ends}
use test_gbksoft.Nanopb.Output.{write}
use test_gbksoft.Nanopb.Output.Strings.{encode_string-out}
use test_gbksoft.Nanopb.Output.Primitives.{encode_string}
use test_gbksoft.Nanopb.Output.Buffer.{out, counting}
use test_gbksoft.Nanopb.Output.Primitives.{
  encode_varint, encode_svarint, encode_fixed32, encode_tag,
}
use test_gbksoft.Nanopb.Types.{Field, null}
use test_gbksoft.Nanopb.Iter.{FieldIter, find}
use test_gbksoft.Nanopb.Iter.Table.{IsTable, field_of, end_of}
use test_gbksoft.Nanopb.Iter.Find.{Search, find-Search}
use test_gbksoft.Nanopb.RoundTrip.{Reads, RoundTrips}
use test_gbksoft.Nanopb.RoundTrip.Scalars.{decode_varint-encode_varint}
use test_gbksoft.Nanopb.RoundTrip.Scalars.{decode_svarint-encode_svarint}
use test_gbksoft.Nanopb.RoundTrip.Scalars.{decode_fixed32-encode_fixed32}
use test_gbksoft.Nanopb.RoundTrip.Fields.{decode_tag-encode_tag, make_string_substream-payload}
use test_gbksoft.Nanopb.RoundTrip.Fields.{close_string_substream-unread, skip_field-value, string}
use test_gbksoft.Nanopb.Varint.{varint_of, varint_in, value, IsVarint}
use test_gbksoft.Nanopb.Varint.Decode.{
  decode_varint-value, decode_varint_too_long, decode_varint_cut,
}
use test_gbksoft.Nanopb.Varint.Decode32.{decode_varint32-value}
use test_gbksoft.Nanopb.Varint.Encode.{encode_varint-write}
use test_gbksoft.Nanopb.Varint.Wrap32.{padded, decode_varint32_wraps}

-- The states of callback streams, of which there are none here.
abbrev Nothing : Type 0
Nothing = Unit {0}

decode_varint-value_example :
    decode_varint {σ = Nothing} (at (0xac ∷ 0x02 ∷ 7 ∷ []) 3 none) ≡ ok 300 (at (7 ∷ []) 1 none)
decode_varint-value_example =
    decode_varint-value {σ = Nothing} (0xac ∷ 0x02 ∷ []) (7 ∷ []) 1 none (omega arith) (omega arith)

abbrev ten_80 : List ℕ
ten_80 = replicate 10 0x80

decode_varint_too_long_example :
    decode_varint {σ = Nothing} (at (ten_80 ++ (1 ∷ [])) (10 + 1) none)
    ≡ fail (at (1 ∷ []) 1 (some varint_overflow))
decode_varint_too_long_example =
    decode_varint_too_long {σ = Nothing} ten_80 (1 ∷ []) 1 none (omega arith) refl

decode_varint_cut_example :
    decode_varint {σ = Nothing} (at (0x80 ∷ 0x81 ∷ 5 ∷ []) 2 none)
    ≡ fail (at (5 ∷ []) 0 (some end_of_stream))
decode_varint_cut_example =
    decode_varint_cut {σ = Nothing} (0x80 ∷ 0x81 ∷ []) (5 ∷ []) none (omega arith) (omega arith)

decode_varint32-value_example :
    decode_varint32 {σ = Nothing} (at (0x81 ∷ 0x80 ∷ 0x80 ∷ 0x80 ∷ 0x80 ∷ 0x00 ∷ []) 6 none)
    ≡ ok 1 (at [] 0 none)
decode_varint32-value_example =
    decode_varint32-value {σ = Nothing} (0x81 ∷ 0x80 ∷ 0x80 ∷ 0x80 ∷ 0x80 ∷ 0x00 ∷ []) [] 0 none
      (omega arith) (omega arith) (omega arith)

decode_varint32_wraps_example :
    IsVarint (padded 5)
    × (value (padded 5) ≡ 5 * 2 ^ 259)
    × (decode_varint32 {σ = Nothing} (at (padded 5 ++ (9 ∷ [])) (38 + 1) none)
        ≡ ok 40 (at (9 ∷ []) 1 none))
decode_varint32_wraps_example =
    decode_varint32_wraps {σ = Nothing} 5 (9 ∷ []) 1 none (omega arith) (omega arith)

encode_varint-write_example :
    encode_varint 300 (out {τ = Nothing} [] (0 ∷ 0 ∷ 0 ∷ []) 3 0 none)
    ≡ write (varint_of 300) (out [] (0 ∷ 0 ∷ 0 ∷ []) 3 0 none)
encode_varint-write_example =
    encode_varint-write {τ = Nothing} 300 (out [] (0 ∷ 0 ∷ 0 ∷ []) 3 0 none) (omega arith)

decode_varint-encode_varint_example :
    RoundTrips {τ = Nothing} {σ = Nothing}
      (encode_varint 0xffff_ffff_ffff_ffff)
      decode_varint
      0xffff_ffff_ffff_ffff
decode_varint-encode_varint_example =
    decode_varint-encode_varint {τ = Nothing} {σ = Nothing} 0xffff_ffff_ffff_ffff (omega arith)

decode_svarint-encode_svarint_example :
    RoundTrips {τ = Nothing} {σ = Nothing}
      (encode_svarint 0xffff_ffff_ffff_fffe)
      decode_svarint
      0xffff_ffff_ffff_fffe
decode_svarint-encode_svarint_example =
    decode_svarint-encode_svarint {τ = Nothing} {σ = Nothing} 0xffff_ffff_ffff_fffe (omega arith)

decode_fixed32-encode_fixed32_example :
    RoundTrips {τ = Nothing} {σ = Nothing} (encode_fixed32 0x1234_5678) decode_fixed32 0x1234_5678
decode_fixed32-encode_fixed32_example =
    decode_fixed32-encode_fixed32 {τ = Nothing} {σ = Nothing} 0x1234_5678 (omega arith)

decode_tag-encode_tag_example :
    RoundTrips {τ = Nothing} {σ = Nothing}
      (encode_tag WireType.string 100)
      decode_tag
      (record { found = true; wire_type = 2; tag = 100; eof = false })
decode_tag-encode_tag_example =
    decode_tag-encode_tag {τ = Nothing} {σ = Nothing} WireType.string 100 (omega arith)
      (omega arith) (omega arith)

make_string_substream-payload_example :
    make_string_substream {σ = Nothing}
      (at (varint_of 2 ++ (7 ∷ 8 ∷ 9 ∷ [])) (length (varint_of 2) + 3) none)
    ≡ ok (at (7 ∷ 8 ∷ 9 ∷ []) 2 none) (at (7 ∷ 8 ∷ 9 ∷ []) 1 none)
make_string_substream-payload_example =
    make_string_substream-payload {σ = Nothing} (7 ∷ 8 ∷ []) (9 ∷ []) 1 none (omega arith)

close_string_substream-unread_example :
    close_string_substream {σ = Nothing} (at (8 ∷ 9 ∷ []) 1 none) (at (7 ∷ 8 ∷ 9 ∷ []) 1 none)
    ≡ ok tt (at (9 ∷ []) 1 none)
close_string_substream-unread_example =
    close_string_substream-unread {σ = Nothing} (8 ∷ []) (9 ∷ []) (7 ∷ 8 ∷ 9 ∷ []) 1 none none

skip_field-value_example :
    Reads {σ = Nothing} (skip_field WireType.string) (varint_of 2 ++ (7 ∷ 8 ∷ [])) tt
skip_field-value_example =
    skip_field-value {σ = Nothing} WireType.string (varint_of 2 ++ (7 ∷ 8 ∷ []))
      (string (7 ∷ 8 ∷ []) (omega arith) (varint_of 2 ++ (7 ∷ 8 ∷ [])) refl)

skip_field-Ends_example :
    Ends (2 ∷ 7 ∷ 8 ∷ []) 2 (skip_field {σ = Nothing} 2 (at (2 ∷ 7 ∷ 8 ∷ []) 2 none))
skip_field-Ends_example = skip_field-Ends Nothing (2 ∷ 7 ∷ 8 ∷ []) 2 none (omega arith) 2

read_raw_value-Ends_example :
    Ends (1 ∷ 2 ∷ 3 ∷ 4 ∷ []) 4 (read_raw_value {σ = Nothing} 5 4 (at (1 ∷ 2 ∷ 3 ∷ 4 ∷ []) 4 none))
read_raw_value-Ends_example =
    read_raw_value-Ends Nothing (1 ∷ 2 ∷ 3 ∷ 4 ∷ []) 4 none (omega arith) 5 4
      (λ p. absurd (omega (arith, p))) (λ p. omega arith)

-- A message of an int32 and a repeated int32, and an iterator at its second field.
abbrev number : Field
number = record {
  tag = 1;
  type = 0x00;
  data_offset = 0;
  size_offset = 0;
  data_size = 4;
  array_size = 0;
  ptr = null;
}

abbrev numbers : Field
numbers = record {
  tag = 2;
  type = 0x20;
  data_offset = 8;
  size_offset = 2 ^ 32 - 8;
  data_size = 4;
  array_size = 10;
  ptr = null;
}

abbrev terminator : Field
terminator = record {
  tag = 0;
  type = 0;
  data_offset = 0;
  size_offset = 0;
  data_size = 0;
  array_size = 0;
  ptr = null;
}

abbrev table : List Field
table = number ∷ numbers ∷ terminator ∷ []

abbrev table-IsTable : IsTable table 2
table-IsTable =
    field_of number (numbers ∷ terminator ∷ []) 1 refl
      (field_of numbers (terminator ∷ []) 0 refl (end_of terminator [] refl))

abbrev second : FieldIter
second = record {
  start = table;
  pos = 1;
  required_field_index = 1;
  dest_struct = 1000;
  p_data = 1012;
  p_size = 1004;
}

find-Search_example : Search table 2 1 1 (find 1 second)
find-Search_example =
    find-Search table 2 1000 1 table-IsTable 1 second (refl, refl, refl) (omega arith)

encode_string-out_example :
    (encode_string (7 ∷ 8 ∷ []) 2 (out {τ = Nothing} (1 ∷ []) (0 ∷ 0 ∷ 0 ∷ 0 ∷ []) 5 1 none)
      ≡ ok tt (out (1 ∷ 2 ∷ 7 ∷ 8 ∷ []) (0 ∷ []) 5 4 none))
    × (encode_string (7 ∷ 8 ∷ []) 2 (counting {τ = Nothing} 0 1 none) ≡ ok tt (counting 0 4 none))
unfolding varint_of varint_in
encode_string-out_example =
    encode_string-out {τ = Nothing} (7 ∷ 8 ∷ []) (1 ∷ []) (0 ∷ 0 ∷ 0 ∷ 0 ∷ []) 5 1 none
      (omega arith) (omega arith) (omega arith)

-- A callback stream of a hundred zeros.
abbrev zeros : IStream Nothing
zeros = record {
  source = user (λ st count. (true, replicate count 0, st)) tt;
  bytes_left = 100;
  errmsg = none;
}
