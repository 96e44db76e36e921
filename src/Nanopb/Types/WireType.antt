-- ===== src/Nanopb/Types/WireType.antt =====
-- pb_wire_type_t. A value of it is a number, since pb_decode_tag casts any three bits to it.
use test_gbksoft.Common.{ℕ}

abbrev pub varint : ℕ
varint = 0

abbrev pub bits64 : ℕ
bits64 = 1

abbrev pub string : ℕ
string = 2

abbrev pub bits32 : ℕ
bits32 = 5
