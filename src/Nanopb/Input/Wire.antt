-- ===== src/Nanopb/Input/Wire.antt =====
-- The functions of pb_decode.c for tags, skipped fields, substreams and words of fixed size.
use test_gbksoft.Common.{ℕ, zero, suc, ◌+◌, ◌-◌, ◌*◌, ◌/◌, ◌^◌, bit_and, bit_or}
use test_gbksoft.Common.{Bool, true, false, ltb, leb, ◌==◌, if◌then◌else◌}
use test_gbksoft.Common.{Option, none, some, List, [], ◌∷◌, ◌++◌}
use test_gbksoft.Common.Outcome.{Outcome, ok, fail, fault, stuck, M, ◌>>=◌, return, bind_outcome}
use test_gbksoft.Nanopb.Types.{invalid_wire_type, parent_stream_too_short}
use test_gbksoft.Nanopb.Types.WireType
use test_gbksoft.Nanopb.Input.{IStream, return_error, read, skip}
use test_gbksoft.Nanopb.Input.Varint.{decode_varint32_eof, decode_varint32, decode_varint}
use test_gbksoft.Nanopb.Input.Varint.{read_one, skip_varint, skip_string}

-- What pb_decode_tag leaves behind its pointers, and whether it returns true.
pub record Tag : Type 0 where
  pub found : Bool
  pub wire_type : ℕ
  pub tag : ℕ
  pub eof : Bool

unfoldable pub tag_of : Option ℕ × Bool → Tag
tag_of (none, eof) = record { found = false; wire_type = 0; tag = 0; eof = eof }
tag_of (some temp, eof) =
    if temp == 0
    then record { found = false; wire_type = 0; tag = 0; eof = true }
    else record { found = true; wire_type = bit_and temp 7; tag = temp / 2 ^ 3; eof = eof }

-- `bytes[0] << 0 | bytes[1] << 8 | …` over four and eight bytes.
abbrev pub word32 : ℕ → ℕ → ℕ → ℕ → ℕ
word32 a b c d = bit_or (bit_or (bit_or a (b * 2 ^ 8)) (c * 2 ^ 16)) (d * 2 ^ 24)

abbrev pub word64 : ℕ → ℕ → ℕ → ℕ → ℕ → ℕ → ℕ → ℕ → ℕ
word64 a b c d e f g h =
    let low = bit_or (word32 a b c d) (e * 2 ^ 32) in
    bit_or (bit_or (bit_or low (f * 2 ^ 40)) (g * 2 ^ 48)) (h * 2 ^ 56)

-- `(pb_int64_t)(~(value >> 1))` and `(pb_int64_t)(value >> 1)`, as the bits of the integer.
abbrev pub unzigzag : ℕ → ℕ
unzigzag value = if bit_and value 1 == 0 then value / 2 else 2 ^ 64 - 1 - value / 2

module _ {σ : Type 0} where
  -- pb_decode_tag
  unfoldable pub decode_tag : M (IStream σ) Tag
  decode_tag = decode_varint32_eof >>= λ r. return (tag_of r)

  -- pb_skip_field
  unfoldable pub skip_field : ℕ → M (IStream σ) (Unit {0})
  skip_field wire_type s =
      if wire_type == WireType.varint
      then skip_varint s
      else if wire_type == WireType.bits64
      then skip 8 s
      else if wire_type == WireType.string
      then skip_string s
      else if wire_type == WireType.bits32
      then skip 4 s
      else return_error invalid_wire_type s

  -- The do-while of read_raw_value. `size` bytes are in the buffer, which has `max_size`.
  unfoldable pub raw_varint_loop : ℕ → ℕ → ℕ → List ℕ → M (IStream σ) (List ℕ)
  raw_varint_loop zero max_size size buf s = stuck
  raw_varint_loop (suc fuel) max_size size buf s =
      let round : Outcome (IStream σ) (List ℕ) = bind_outcome (read_one s) λ byte s'.
        let buf' = buf ++ (byte ∷ []) in
        let more : Outcome (IStream σ) (List ℕ) =
          raw_varint_loop fuel max_size (size + 1) buf' s' in
        if leb max_size size then fault else if bit_and byte 0x80 == 0 then ok buf' s' else more in
      if ltb max_size (size + 1) then fail s else round

  -- pb_read of `n` bytes into a buffer of `max_size` bytes, without a test of its size.
  unfoldable pub read_unsized : ℕ → ℕ → M (IStream σ) (List ℕ)
  read_unsized n max_size s =
      bind_outcome (read n s) λ bytes s'. if ltb max_size n then fault else ok bytes s'

  -- read_raw_value: the bytes, whose number is `*size`. The buffer has `max_size` bytes.
  unfoldable pub read_raw_value : ℕ → ℕ → M (IStream σ) (List ℕ)
  unfolding raw_varint_loop read_unsized
  read_raw_value wire_type max_size s =
      if wire_type == WireType.varint
      then raw_varint_loop (suc max_size) max_size 0 [] s
      else if wire_type == WireType.bits64
      then read_unsized 8 max_size s
      else if wire_type == WireType.bits32
      then read_unsized 4 max_size s
      else return_error invalid_wire_type s

  unfoldable pub take_substream : ℕ → M (IStream σ) (IStream σ)
  take_substream size s =
      if ltb s.bytes_left size
      then return_error parent_stream_too_short s
      else ok (record s { bytes_left = size }) (record s { bytes_left = s.bytes_left - size })

  -- pb_make_string_substream
  unfoldable pub make_string_substream : M (IStream σ) (IStream σ)
  unfolding take_substream
  make_string_substream = decode_varint32 >>= take_substream

  unfoldable pub drained : IStream σ → Outcome (IStream σ) (Unit {0})
  drained sub = if sub.bytes_left == 0 then ok tt sub else skip sub.bytes_left sub

  unfoldable pub finish_close : Outcome (IStream σ) (Unit {0}) → M (IStream σ) (Unit {0})
  finish_close (ok _ sub) s = ok tt (record s { source = sub.source; errmsg = sub.errmsg })
  finish_close (fail sub) s = fail s
  finish_close fault s = fault
  finish_close stuck s = stuck

  -- pb_close_string_substream
  unfoldable pub close_string_substream : IStream σ → M (IStream σ) (Unit {0})
  unfolding drained finish_close
  close_string_substream sub s = finish_close (drained sub) s

  -- pb_decode_svarint, with the bits of the int64_t.
  unfoldable pub decode_svarint : M (IStream σ) ℕ
  decode_svarint = decode_varint >>= λ value. return (unzigzag value)

  unfoldable pub fixed32_of : List ℕ → M (IStream σ) ℕ
  fixed32_of (a ∷ b ∷ c ∷ d ∷ rest) = return (word32 a b c d)
  fixed32_of _ = λ s. fault

  unfoldable pub fixed64_of : List ℕ → M (IStream σ) ℕ
  fixed64_of (a ∷ b ∷ c ∷ d ∷ e ∷ f ∷ g ∷ h ∷ rest) = return (word64 a b c d e f g h)
  fixed64_of _ = λ s. fault

  -- pb_decode_fixed32
  unfoldable pub decode_fixed32 : M (IStream σ) ℕ
  unfolding fixed32_of
  decode_fixed32 = read 4 >>= fixed32_of

  -- pb_decode_fixed64
  unfoldable pub decode_fixed64 : M (IStream σ) ℕ
  unfolding fixed64_of
  decode_fixed64 = read 8 >>= fixed64_of
