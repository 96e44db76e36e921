-- ===== src/Nanopb/Output/SteadyWriters.antt =====
-- The writers of pb_encode.c that work on the stream alone, on different streams.
use test_gbksoft.Common.{
  ℕ, ◌+◌, ◌*◌, ◌/◌, ◌%◌, ◌^◌, ◌<◌, ◌≡◌, arith, true, List, [], ◌∷◌, ◌++◌, length, bit_or,
}
use test_gbksoft.Common.{some, fun_ext}
use test_gbksoft.Common.Bits.{shifted_bit_or, bit_and-mask}
use test_gbksoft.Nanopb.Memory.{little_endian}
use test_gbksoft.Nanopb.Types.{IsU64, IsU32}
use test_gbksoft.Nanopb.Output.{write}
use test_gbksoft.Nanopb.Output.Primitives.{
  encode_varint, encode_svarint, encode_fixed32, encode_fixed64,
}
use test_gbksoft.Nanopb.Output.Primitives.{encode_tag, encode_string, zigzag, byte_of, wire_type_of}
use test_gbksoft.Nanopb.Output.Steady.{IsSteady, write-IsSteady, IsSteady-bind}
use test_gbksoft.Nanopb.RoundTrip.Scalars.{zigzag-IsU64}
use test_gbksoft.Nanopb.Varint.{varint_of}
use test_gbksoft.Nanopb.Varint.Encode.{encode_varint-write}

key_lem : (w n : ℕ) → w < 8 → IsU32 n → bit_or (n * 2 ^ 3 % 2 ^ 64) w ≡ n * 8 + w
key_lem w n hw hn = ground (arith, shifted_bit_or 3 w n)

pub wire_type_lt : (type w : ℕ) → wire_type_of type ≡ some w → w < 8
wire_type_lt type w h = ground arith

digit : (v k : ℕ) → byte_of v k ≡ v / 2 ^ k % 256
digit v k = omega (arith, bit_and-mask 8 (v / 2 ^ k))

little_endian_lem4 :
    (v : ℕ) → little_endian 4 v ≡ byte_of v 0 ∷ byte_of v 8 ∷ byte_of v 16 ∷ byte_of v 24 ∷ []
little_endian_lem4 v = rw (digit v 0, digit v 8, digit v 16, digit v 24) (grind arith)

little_endian_lem8 :
    (v : ℕ)
    → little_endian 8 v
      ≡ byte_of v 0
        ∷ byte_of v 8
        ∷ byte_of v 16
        ∷ byte_of v 24
        ∷ byte_of v 32
        ∷ byte_of v 40
        ∷ byte_of v 48
        ∷ byte_of v 56
        ∷ []
little_endian_lem8 v =
    rw
      (digit v 0, digit v 8, digit v 16, digit v 24, digit v 32, digit v 40, digit v 48, digit v 56)
      (grind arith)

module _ {τ : Type 0} where
  pub encode_varint-IsSteady :
      (v : ℕ) → IsU64 v → IsSteady {τ = τ} true (varint_of v) (encode_varint v)
  encode_varint-IsSteady v h =
      let e : encode_varint {τ = τ} v ≡ write (varint_of v) =
        fun_ext (λ s. encode_varint-write v s h) in
      rw e (write-IsSteady (varint_of v))

  pub encode_string-IsSteady :
      (buf : List ℕ)
      → IsU64 (length buf)
      → IsSteady {τ = τ} true (varint_of (length buf) ++ buf) (encode_string buf (length buf))
  unfolding encode_string
  encode_string-IsSteady buf h =
      IsSteady-bind _ (write buf) (encode_varint-IsSteady (length buf) h) (write-IsSteady buf)

  pub encode_fixed32-IsSteady :
      (v : ℕ) → IsSteady {τ = τ} true (little_endian 4 v) (encode_fixed32 v)
  unfolding encode_fixed32
  encode_fixed32-IsSteady v = rw (little_endian_lem4 v) (write-IsSteady _)

  pub encode_fixed64-IsSteady :
      (v : ℕ) → IsSteady {τ = τ} true (little_endian 8 v) (encode_fixed64 v)
  unfolding encode_fixed64
  encode_fixed64-IsSteady v = rw (little_endian_lem8 v) (write-IsSteady _)

  pub encode_svarint-IsSteady :
      (v : ℕ) → IsSteady {τ = τ} true (varint_of (zigzag v)) (encode_svarint v)
  unfolding encode_svarint
  encode_svarint-IsSteady v = encode_varint-IsSteady (zigzag v) (zigzag-IsU64 v)

  pub encode_tag-IsSteady :
      (w n : ℕ) → w < 8 → IsU32 n → IsSteady {τ = τ} true (varint_of (n * 8 + w)) (encode_tag w n)
  unfolding encode_tag
  encode_tag-IsSteady w n hw hn =
      rw (key_lem w n hw hn) (encode_varint-IsSteady (n * 8 + w) (omega arith))
