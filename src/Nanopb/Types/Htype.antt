-- ===== src/Nanopb/Types/Htype.antt =====
-- PB_HTYPE_*: how often a field occurs.
use test_gbksoft.Common.{ℕ}

abbrev pub required : ℕ
required = 0x00

abbrev pub optional : ℕ
optional = 0x10

abbrev pub repeated : ℕ
repeated = 0x20

abbrev pub oneof : ℕ
oneof = 0x30
