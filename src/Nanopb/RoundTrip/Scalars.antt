-- ===== src/Nanopb/RoundTrip/Scalars.antt =====
-- Varints, zigzag numbers and words of fixed size.
use test_gbksoft.Common.{ℕ, ◌+◌, ◌-◌, ◌*◌, ◌/◌, ◌%◌, ◌^◌, ◌<◌, ◌≡◌, refl, arith, ◌∙◌}
use test_gbksoft.Common.{[], ◌∷◌}
use test_gbksoft.Common.Bits.{bit_and-mask, bit_or_shifted}
use test_gbksoft.Nanopb.Types.{IsU32, IsU64}
use test_gbksoft.Nanopb.Input.Fixed.{decode_fixed32-four, decode_fixed64-eight}
use test_gbksoft.Nanopb.Input.Varint.{decode_varint, decode_varint32}
use test_gbksoft.Nanopb.Input.Wire.{
  decode_svarint, decode_fixed32, decode_fixed64, unzigzag, word32, word64,
}
use test_gbksoft.Nanopb.Output.Primitives.{
  encode_varint, encode_svarint, encode_fixed32, encode_fixed64,
}
use test_gbksoft.Nanopb.Output.Primitives.{zigzag, byte_of}
use test_gbksoft.Nanopb.RoundTrip.{Reads, RoundTrips}
use test_gbksoft.Nanopb.Varint.{varint_of}
use test_gbksoft.Nanopb.Varint.Decode.{decode_varint-value}
use test_gbksoft.Nanopb.Varint.Decode32.{decode_varint32-value}
use test_gbksoft.Nanopb.Varint.Encode.{encode_varint-write, varint_of-IsVarint, length-varint_of}

module _ {σ : Type 0} where
  pub decode_varint-varint_of : (v : ℕ) → IsU64 v → Reads {σ = σ} decode_varint (varint_of v) v
  decode_varint-varint_of v h rest left err =
      let (w, e) = varint_of-IsVarint v h in
      ground
        (arith, e, decode_varint-value {σ = σ} (varint_of v) rest left err w, length-varint_of v h)

  pub decode_varint32-varint_of : (v : ℕ) → IsU32 v → Reads {σ = σ} decode_varint32 (varint_of v) v
  decode_varint32-varint_of v h rest left err =
      let u64 : IsU64 v = omega arith in
      let (w, e) = varint_of-IsVarint v u64 in
      ground (
        arith,
        e,
        decode_varint32-value {σ = σ} (varint_of v) rest left err w,
        length-varint_of v u64,
      )

module _ {τ σ : Type 0} where
  -- Every uint64_t that pb_encode_varint writes, pb_decode_varint reads back.
  pub decode_varint-encode_varint :
      (v : ℕ) → IsU64 v → RoundTrips {τ = τ} {σ = σ} (encode_varint v) decode_varint v
  decode_varint-encode_varint v h =
      (varint_of v, λ s. encode_varint-write v s h, decode_varint-varint_of v h)

  -- Every uint32_t that pb_encode_varint writes, pb_decode_varint32 reads back.
  decode_varint32-encode_varint :
      (v : ℕ) → IsU32 v → RoundTrips {τ = τ} {σ = σ} (encode_varint v) decode_varint32 v
  decode_varint32-encode_varint v h =
      (varint_of v, λ s. encode_varint-write v s (omega arith), decode_varint32-varint_of v h)

pub unzigzag-zigzag : (v : ℕ) → IsU64 v → unzigzag (zigzag v) ≡ v
unzigzag-zigzag v h =
    ground (arith, bit_and-mask 1 (v * 2 % 2 ^ 64), bit_and-mask 1 (2 ^ 64 - 1 - v * 2 % 2 ^ 64))

pub zigzag-IsU64 : (v : ℕ) → IsU64 (zigzag v)
zigzag-IsU64 v = ground arith

byte_of_lem : (v k : ℕ) → byte_of v k ≡ v / 2 ^ k % 256
byte_of_lem v k = omega (arith, bit_and-mask 8 (v / 2 ^ k))

-- Four bytes below 256, put together.
word32-sum :
    (a b c d : ℕ)
    → (a < 256) × (b < 256) × (c < 256) × (d < 256)
    → word32 a b c d ≡ a + b * 2 ^ 8 + c * 2 ^ 16 + d * 2 ^ 24
word32-sum a b c d (ha, hb, hc, hd) = ground (
  arith,
  bit_or_shifted 8 a b,
  bit_or_shifted 16 (a + b * 2 ^ 8) c,
  bit_or_shifted 24 (a + b * 2 ^ 8 + c * 2 ^ 16) d,
)

word64-sum :
    (a b c d e f g h : ℕ)
    → (a < 256) × (b < 256) × (c < 256) × (d < 256)
    → (e < 256) × (f < 256) × (g < 256) × (h < 256)
    → word64 a b c d e f g h
      ≡ a + b * 2 ^ 8 + c * 2 ^ 16 + d * 2 ^ 24 + e * 2 ^ 32 + f * 2 ^ 40 + g * 2 ^ 48 + h * 2 ^ 56
word64-sum a b c d e f g h lo hi =
    let s4 : ℕ = a + b * 2 ^ 8 + c * 2 ^ 16 + d * 2 ^ 24 in
    rw
      (
        word32-sum a b c d lo,
        bit_or_shifted 32 s4 e (omega arith),
        bit_or_shifted 40 (s4 + e * 2 ^ 32) f (omega arith),
        bit_or_shifted 48 (s4 + e * 2 ^ 32 + f * 2 ^ 40) g (omega arith),
        bit_or_shifted 56 (s4 + e * 2 ^ 32 + f * 2 ^ 40 + g * 2 ^ 48) h (omega arith),
      )
      refl

word32-bytes :
    (v : ℕ) → IsU32 v → word32 (byte_of v 0) (byte_of v 8) (byte_of v 16) (byte_of v 24) ≡ v
word32-bytes v h = omega (
  arith,
  word32-sum (byte_of v 0) (byte_of v 8) (byte_of v 16) (byte_of v 24) (omega arith),
  byte_of_lem v 0,
  byte_of_lem v 8,
  byte_of_lem v 16,
  byte_of_lem v 24,
)

word64-bytes :
    (v : ℕ)
    → IsU64 v
    → word64
        (byte_of v 0)
        (byte_of v 8)
        (byte_of v 16)
        (byte_of v 24)
        (byte_of v 32)
        (byte_of v 40)
        (byte_of v 48)
        (byte_of v 56)
      ≡ v
word64-bytes v h = omega (
  arith,
  word64-sum (byte_of v 0) (byte_of v 8) (byte_of v 16) (byte_of v 24) (byte_of v 32) (byte_of v 40)
      (byte_of v 48) (byte_of v 56) (omega arith) (omega arith),
  byte_of_lem v 0,
  byte_of_lem v 8,
  byte_of_lem v 16,
  byte_of_lem v 24,
  byte_of_lem v 32,
  byte_of_lem v 40,
  byte_of_lem v 48,
  byte_of_lem v 56,
)

module _ {τ σ : Type 0} where
  -- Every int64_t, given by its bits, that pb_encode_svarint writes, pb_decode_svarint reads back.
  pub decode_svarint-encode_svarint :
      (v : ℕ) → IsU64 v → RoundTrips {τ = τ} {σ = σ} (encode_svarint v) decode_svarint v
  unfolding encode_svarint decode_svarint
  decode_svarint-encode_svarint v h = (
    varint_of (zigzag v),
    λ s. encode_varint-write (zigzag v) s (zigzag-IsU64 v),
    λ rest left err. rw (
      decode_varint-varint_of {σ = σ} (zigzag v) (zigzag-IsU64 v) rest left err,
      unzigzag-zigzag v h,
    ),
  )

  -- Every uint32_t that pb_encode_fixed32 writes, pb_decode_fixed32 reads back.
  pub decode_fixed32-encode_fixed32 :
      (v : ℕ) → IsU32 v → RoundTrips {τ = τ} {σ = σ} (encode_fixed32 v) decode_fixed32 v
  unfolding encode_fixed32
  decode_fixed32-encode_fixed32 v h = (
    byte_of v 0 ∷ byte_of v 8 ∷ byte_of v 16 ∷ byte_of v 24 ∷ [],
    λ s. refl,
    λ rest left err. decode_fixed32-four _ _ _ _ rest left err ∙ rw (word32-bytes v h),
  )

  -- Every uint64_t that pb_encode_fixed64 writes, pb_decode_fixed64 reads back.
  decode_fixed64-encode_fixed64 :
      (v : ℕ) → IsU64 v → RoundTrips {τ = τ} {σ = σ} (encode_fixed64 v) decode_fixed64 v
  unfolding encode_fixed64
  decode_fixed64-encode_fixed64 v h = (
    byte_of v 0
        ∷ byte_of v 8
        ∷ byte_of v 16
        ∷ byte_of v 24
        ∷ byte_of v 32
        ∷ byte_of v 40
        ∷ byte_of v 48
        ∷ byte_of v 56
        ∷ [],
    λ s. refl,
    λ rest left err. decode_fixed64-eight _ _ _ _ _ _ _ _ rest left err ∙ rw (word64-bytes v h),
  )
