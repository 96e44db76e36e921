-- ===== src/Nanopb/Decode/Images.antt =====
-- An integer of a field as its bytes in memory, its bits, and its bytes on the wire.
use test_gbksoft.Common.{
  ℕ, ◌%◌, ◌^◌, ◌<◌, ◌≡◌, refl, ◌⊎◌, inl, inr, arith, true, ◌==◌, ==_iff, Bool-cases, if◌then◌else◌,
}
use test_gbksoft.Nanopb.Encode.Numbers.{int8_of, int16_of, int32_of}
use test_gbksoft.Nanopb.Types.{Field}
use test_gbksoft.Nanopb.Memory.{Mem, load, sign_extend, little_endian}
use test_gbksoft.Nanopb.Varint.{varint_of}
use test_gbksoft.Nanopb.Encode.Wire.{signed_text}

-- The last bytes of an integer, sign and all.
pub low1 : (v : ℕ) → little_endian 1 v ≡ little_endian 1 (v % 2 ^ 8)
low1 v = grind arith

pub low2 : (v : ℕ) → little_endian 2 v ≡ little_endian 2 (v % 2 ^ 16)
low2 v = grind arith

pub low4 : (v : ℕ) → little_endian 4 v ≡ little_endian 4 (v % 2 ^ 32)
low4 v = grind arith

pub signed_low1 : (v : ℕ) → v < 256 ^ 1 → sign_extend 8 v % 2 ^ 8 ≡ v
signed_low1 v h = ground arith

pub signed_low2 : (v : ℕ) → v < 256 ^ 2 → sign_extend 16 v % 2 ^ 16 ≡ v
signed_low2 v h = ground arith

pub signed_low4 : (v : ℕ) → v < 256 ^ 4 → sign_extend 32 v % 2 ^ 32 ≡ v
signed_low4 v h = ground arith

pub widen1 : (v : ℕ) → v < 256 ^ 1 → sign_extend 32 (sign_extend 8 v % 2 ^ 32) ≡ sign_extend 8 v
widen1 v h = ground arith

pub widen2 : (v : ℕ) → v < 256 ^ 2 → sign_extend 32 (sign_extend 16 v % 2 ^ 32) ≡ sign_extend 16 v
widen2 v h = ground arith

pub widen4 : (v : ℕ) → v < 256 ^ 4 → sign_extend 32 (sign_extend 32 v % 2 ^ 32) ≡ sign_extend 32 v
widen4 v h = ground arith

-- What pb_dec_varint makes of the value.
pub short :
    (field : Field) (v : ℕ)
    → field.data_size < 8
    → sign_extend 32 (v % 2 ^ 32) ≡ v
    → (if field.data_size == 8 then v else sign_extend 32 (v % 2 ^ 32)) ≡ v
short field v h e = elim (Bool-cases (field.data_size == 8)) [ inl t ↦ rw t refl | inr f ↦ rw f e ]

pub long :
    (field : Field) (v : ℕ)
    → field.data_size ≡ 8
    → (if field.data_size == 8 then v else sign_extend 32 (v % 2 ^ 32)) ≡ v
long field v h = let e : (field.data_size == 8) ≡ true = (==_iff field.data_size 8).1 h in rw e refl

module _ (mem' : Mem) (field : Field) (src : ℕ) where
  pub signed_text1 :
      field.data_size ≡ 1
      → signed_text mem' (λ v. v) field src ≡ (true, varint_of (sign_extend 8 (load mem' 1 src)))
  unfolding signed_text
  signed_text1 h = rw (h, int8_of mem' src) refl

  pub signed_text2 :
      field.data_size ≡ 2
      → signed_text mem' (λ v. v) field src ≡ (true, varint_of (sign_extend 16 (load mem' 2 src)))
  unfolding signed_text
  signed_text2 h = rw (h, int16_of mem' src) refl

  pub signed_text4 :
      field.data_size ≡ 4
      → signed_text mem' (λ v. v) field src ≡ (true, varint_of (sign_extend 32 (load mem' 4 src)))
  unfolding signed_text
  signed_text4 h = rw (h, int32_of mem' src) refl

  pub signed_text8 :
      field.data_size ≡ 8
      → signed_text mem' (λ v. v) field src ≡ (true, varint_of (load mem' 8 src))
  unfolding signed_text
  signed_text8 h = rw h refl

  pub signed_text-sizes :
      (signed_text mem' (λ v. v) field src).0 ≡ true
      → ((field.data_size ≡ 1) ⊎ (field.data_size ≡ 2))
        ⊎ ((field.data_size ≡ 4) ⊎ (field.data_size ≡ 8))
  unfolding signed_text
  signed_text-sizes h = ground arith
