-- ===== src/Nanopb/Input/Bounds.antt =====
-- What the readers of pb_decode.c do to a stream over memory, whatever its bytes are.
use test_gbksoft.Common.{ℕ, ◌≤◌, ◌≡◌, Option, List, length}
use test_gbksoft.Nanopb.Types.{ErrMsg}
use test_gbksoft.Nanopb.Types.WireType
use test_gbksoft.Nanopb.Input.Buffer.{at}
use test_gbksoft.Nanopb.Input.Varint.{decode_varint}
use test_gbksoft.Nanopb.Input.Wire.{decode_tag, skip_field, read_raw_value}
use test_gbksoft.Nanopb.Input.Safety.{Ends}
use test_gbksoft.Nanopb.Input.SafeReaders.{decode_varint-IsSafe, decode_tag-IsSafe}
use test_gbksoft.Nanopb.Input.SafeReaders.{skip_field-IsSafe, read_raw_value-IsSafe}

module _ (σ : Type 0) (mem : List ℕ) (left : ℕ) (err : Option ErrMsg)
    (fits : left ≤ length mem) where
  -- Where the memory holds at least the bytes that the stream promises, pb_skip_field ends for
  -- every wire type, with true or false, has read no byte past the end of the stream, and leaves
  -- bytes_left and the read position in step.
  pub skip_field-Ends :
      (wire_type : ℕ) → Ends mem left (skip_field {σ = σ} wire_type (at mem left err))
  skip_field-Ends w = (skip_field-IsSafe σ w).ends mem left err fits

  -- Where the memory holds at least the bytes that the stream promises, and the buffer has eight
  -- bytes for a 64-bit value and four for a 32-bit one, read_raw_value ends for every wire type
  -- and every size of its buffer, with true or false, has stored no byte past the end of the
  -- buffer and read none past the end of the stream, and leaves bytes_left and the read position
  -- in step.
  pub read_raw_value-Ends :
      (wire_type max_size : ℕ)
      → (wire_type ≡ WireType.bits64 → 8 ≤ max_size)
      → (wire_type ≡ WireType.bits32 → 4 ≤ max_size)
      → Ends mem left (read_raw_value {σ = σ} wire_type max_size (at mem left err))
  read_raw_value-Ends w max room64 room32 =
      (read_raw_value-IsSafe σ w max room64 room32).ends mem left err fits

  -- Where the memory holds at least the bytes that the stream promises, pb_decode_tag ends, with
  -- true or false, has read no byte past the end of the stream, and leaves bytes_left and the read
  -- position in step.
  decode_tag-Ends : Ends mem left (decode_tag {σ = σ} (at mem left err))
  decode_tag-Ends = (decode_tag-IsSafe σ).ends mem left err fits

  -- Where the memory holds at least the bytes that the stream promises, pb_decode_varint ends,
  -- with true or false, has read no byte past the end of the stream, and leaves bytes_left and the
  -- read position in step.
  decode_varint-Ends : Ends mem left (decode_varint {σ = σ} (at mem left err))
  decode_varint-Ends = (decode_varint-IsSafe σ).ends mem left err fits
