-- ===== src/Nanopb/Input/Varint.antt =====
-- The varint functions of pb_decode.c.
use test_gbksoft.Common.{ℕ, zero, suc, ◌+◌, ◌*◌, ◌/◌, ◌%◌, ◌^◌, bit_and, bit_or}
use test_gbksoft.Common.{Bool, false, not, ◌&&◌, ◌||◌, ltb, leb, ◌==◌, if◌then◌else◌}
use test_gbksoft.Common.{Option, none, some, List, [], ◌∷◌}
use test_gbksoft.Common.Outcome.{Outcome, ok, fail, fault, stuck, M, ◌>>=◌, return, try}
use test_gbksoft.Common.Outcome.{bind_outcome}
use test_gbksoft.Nanopb.Types.{varint_overflow}
use test_gbksoft.Nanopb.Input.{IStream, return_error, read, skip, readbyte}

-- `return false` when there is no value.
abbrev pub of_option : {S A : Type 0} → Option A → M S A
of_option none = fail
of_option (some a) = return a

-- What a byte from bit 32 on must be: a rest of the sign extension, or empty.
abbrev pub overflows32 : ℕ → ℕ → ℕ → Bool
overflows32 bitpos result byte =
    let sign_extension = if ltb bitpos 63 then 0xff else 0x01 in
    not (bit_and byte 0x7f == 0) && (result / 2 ^ 31 == 0 || not (byte == sign_extension))

module _ {σ : Type 0} where
  -- The do-while of pb_decode_varint32_eof. `bitpos` is a uint_fast8_t, of 8 bits.
  unfoldable pub varint32_loop : ℕ → ℕ → ℕ → M (IStream σ) ℕ
  varint32_loop zero bitpos result s = stuck
  varint32_loop (suc fuel) bitpos result s = bind_outcome (readbyte s) λ byte s'.
      let late = leb 32 bitpos in
      let result' =
        if late then result else bit_or result (bit_and byte 0x7f * 2 ^ bitpos % 2 ^ 32) in
      let bitpos' = (bitpos + 7) % 2 ^ 8 in
      let more : Outcome (IStream σ) ℕ = varint32_loop fuel bitpos' result' s' in
      if late && overflows32 bitpos result byte
      then return_error varint_overflow s'
      else if not (bit_and byte 0x80 == 0)
      then more
      else if bitpos' == 35 && not (bit_and byte 0x70 == 0)
      then return_error varint_overflow s'
      else ok result' s'

  unfoldable pub after_first_byte : Option ℕ → M (IStream σ) (Option ℕ × Bool)
  unfolding varint32_loop
  after_first_byte none s = ok (none, s.bytes_left == 0) s
  after_first_byte (some byte) s =
      if bit_and byte 0x80 == 0
      then ok (some byte, false) s
      else bind_outcome (try (varint32_loop (suc s.bytes_left) 7 (bit_and byte 0x7f)) s)
          (λ r. return (r, false))

  -- pb_decode_varint32_eof: the value, if it returns true, and `*eof`.
  unfoldable pub decode_varint32_eof : M (IStream σ) (Option ℕ × Bool)
  unfolding after_first_byte
  decode_varint32_eof = try readbyte >>= after_first_byte

  -- pb_decode_varint32
  unfoldable pub decode_varint32 : M (IStream σ) ℕ
  unfolding decode_varint32_eof
  decode_varint32 = do (r, eof) ← decode_varint32_eof; of_option r

  -- The do-while of pb_decode_varint.
  unfoldable pub varint_loop : ℕ → ℕ → ℕ → M (IStream σ) ℕ
  varint_loop zero bitpos result s = stuck
  varint_loop (suc fuel) bitpos result s =
      let round : Outcome (IStream σ) ℕ = bind_outcome (readbyte s) λ byte s'.
        let result' = bit_or result (bit_and byte 0x7f * 2 ^ bitpos % 2 ^ 64) in
        let more : Outcome (IStream σ) ℕ = varint_loop fuel ((bitpos + 7) % 2 ^ 8) result' s' in
        if bit_and byte 0x80 == 0 then ok result' s' else more in
      if leb 64 bitpos then return_error varint_overflow s else round

  -- pb_decode_varint. The eleventh round is at bit 70, and fails.
  unfoldable pub decode_varint : M (IStream σ) ℕ
  unfolding varint_loop
  decode_varint = varint_loop 11 0 0

  first_of_read : List ℕ → M (IStream σ) ℕ
  first_of_read [] s = fault
  first_of_read (b ∷ bytes) s = ok b s

  -- `pb_read(stream, &byte, 1)`
  unfoldable pub read_one : M (IStream σ) ℕ
  unfolding first_of_read
  read_one = read 1 >>= first_of_read

  unfoldable pub skip_varint_loop : ℕ → M (IStream σ) (Unit {0})
  skip_varint_loop zero s = stuck
  skip_varint_loop (suc fuel) s = bind_outcome (read_one s) λ byte s'.
      let more : Outcome (IStream σ) (Unit {0}) = skip_varint_loop fuel s' in
      if bit_and byte 0x80 == 0 then ok tt s' else more

  -- pb_skip_varint. Each round takes a byte.
  unfoldable pub skip_varint : M (IStream σ) (Unit {0})
  unfolding skip_varint_loop read_one
  skip_varint s = skip_varint_loop (suc s.bytes_left) s

  -- pb_skip_string
  unfoldable pub skip_string : M (IStream σ) (Unit {0})
  skip_string = decode_varint32 >>= skip
