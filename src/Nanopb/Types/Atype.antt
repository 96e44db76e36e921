-- ===== src/Nanopb/Types/Atype.antt =====
-- PB_ATYPE_*: where a field is stored.
use test_gbksoft.Common.{ℕ}

abbrev pub static : ℕ
static = 0x00

abbrev pub callback : ℕ
callback = 0x40

abbrev pub pointer : ℕ
pointer = 0x80
