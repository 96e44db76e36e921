-- ===== src/Nanopb/Varint/Wrap32.antt =====
-- The bit position of pb_decode_varint32_eof is a uint_fast8_t. Where that has eight bits, padding
-- of 37 bytes brings it back to bit 3.
use test_gbksoft.Common.{
  ℕ, zero, suc, ◌+◌, ◌*◌, ◌^◌, ◌≤◌, ◌<◌, ◌≡◌, arith, ◌%◌, ◌/◌, false, some, ◌∙◌,
}
use test_gbksoft.Common.{List, [], ◌∷◌, ◌++◌, Option, replicate, bit_or, ◌==◌, true}
use test_gbksoft.Common.Bits.{bit_and-mask, top_bit, bit_or_shifted}
use native.Mathlib.Nat.{one-le-pow}
use test_gbksoft.Nanopb.Varint.{value, IsVarint}
use test_gbksoft.Common.Outcome.{ok}
use test_gbksoft.Nanopb.Types.{ErrMsg}
use test_gbksoft.Nanopb.Varint.Decode32.{varint32_loop-suc, eof-more}
use test_gbksoft.Nanopb.Input.Buffer.{at, readbyte-at}
use test_gbksoft.Nanopb.Input.Varint.{varint32_loop, decode_varint32_eof, decode_varint32}

-- `v` as the group of bit 259.
abbrev pub padded : ℕ → List ℕ
padded v = replicate 37 0x80 ++ (v ∷ [])

last : (v : ℕ) → v < 128 → (v / 128 * 128 == 0) ≡ true
last v h = ground arith

at_bit_three : (v : ℕ) → v < 128 → bit_or 0 (v % 2 ^ 7 * 2 ^ 3 % 2 ^ 32) ≡ v * 8
at_bit_three v h = ground (arith, bit_or_shifted 3 0 v)

total : (n : ℕ) → 38 + n ≡ suc (35 + suc (suc n))
total n = omega arith

fuel_left : (n : ℕ) → suc (35 + suc (suc n)) ≡ 35 + suc (suc (suc n))
fuel_left n = omega arith

module _ {σ : Type 0} where
  -- Empty groups up to bit 252.
  padding :
      (k fuel j : ℕ) (mem : List ℕ) (left : ℕ) (err : Option ErrMsg)
      → j + k ≤ 36
      → varint32_loop {σ = σ} (k + fuel) (7 * j) 0 (at (replicate k 0x80 ++ mem) (k + left) err)
        ≡ varint32_loop fuel (7 * (j + k)) 0 (at mem left err)
  padding zero fuel j mem left err h = ground arith
  padding (suc k) fuel j mem left err h = ground (
    arith,
    one-le-pow (7 * j) 2,
    varint32_loop-suc {σ = σ} (k + fuel) j 0 0x80 (replicate k 0x80 ++ mem) (k + left) err,
    padding k fuel (suc j) mem left err,
  )

  -- One more, and the next group lands at bit 3.
  wrapped :
      (fuel v : ℕ) (rest : List ℕ) (left : ℕ) (err : Option ErrMsg)
      → v < 128
      → varint32_loop {σ = σ} (suc (suc fuel)) 252 0 (at (0x80 ∷ v ∷ rest) (suc (suc left)) err)
        ≡ ok (v * 8) (at rest left err)
  unfolding varint32_loop
  wrapped fuel v rest left err h = rw (
    readbyte-at 0x80 (v ∷ rest) (suc left) err,
    readbyte-at v rest left err,
    bit_and-mask 7 v,
    top_bit v (omega arith),
    last v h,
    at_bit_three v h,
  )

  loop_wraps :
      (v : ℕ) (rest : List ℕ) (left : ℕ) (err : Option ErrMsg)
      → v < 128
      → varint32_loop {σ = σ}
          (35 + suc (suc (suc left)))
          7
          0
          (at (replicate 35 0x80 ++ (0x80 ∷ v ∷ rest)) (35 + suc (suc left)) err)
        ≡ ok (v * 8) (at rest left err)
  loop_wraps v rest left err h =
      padding 35 (suc (suc (suc left))) 1 (0x80 ∷ v ∷ rest) (suc (suc left)) err (omega arith)
      ∙ wrapped (suc left) v rest left err h

  eof_wraps :
      (v : ℕ) (rest : List ℕ) (left : ℕ) (err : Option ErrMsg)
      → v < 128
      → decode_varint32_eof {σ = σ} (at (padded v ++ rest) (38 + left) err)
        ≡ ok (some (v * 8), false) (at rest left err)
  eof_wraps v rest left err h = rw (total left) (
      eof-more 0x80 (replicate 35 0x80 ++ (0x80 ∷ v ∷ rest)) (35 + suc (suc left)) (v * 8) rest left
        err (omega arith) (omega arith) (rw (fuel_left left) (loop_wraps v rest left err h)))

  -- A varint of 38 bytes, 37 of them padding, whose last group v is from 1 to 127 stands for v * 2
  -- ^ 259; pb_decode_varint32 reports no overflow and returns v * 8.
  pub decode_varint32_wraps :
      (v : ℕ) (rest : List ℕ) (left : ℕ) (err : Option ErrMsg)
      → 1 ≤ v
      → v < 128
      → IsVarint (padded v)
        × (value (padded v) ≡ v * 2 ^ 259)
        × (decode_varint32 {σ = σ} (at (padded v ++ rest) (38 + left) err)
            ≡ ok (v * 8) (at rest left err))
  unfolding decode_varint32
  decode_varint32_wraps v rest left err h1 h2 =
      (omega arith, omega arith, rw (eof_wraps v rest left err h2))
