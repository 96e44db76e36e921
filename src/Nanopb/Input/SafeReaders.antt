-- ===== src/Nanopb/Input/SafeReaders.antt =====
-- Every reader of pb_decode.c ends and stays inside the memory of the stream.
use test_gbksoft.Common.{ℕ, zero, suc, ◌+◌, ◌*◌, ◌≤◌, ◌<◌, ◌≡◌, refl, arith, false, length}
use test_gbksoft.Common.{lt→leb, le→leb, lt→ltb, le→ltb, Option, none, some, List, [], ◌∷◌}
use test_gbksoft.Common.Outcome.{ok, fail}
use test_gbksoft.Nanopb.Types.{ErrMsg, set_error, varint_overflow, end_of_stream}
use test_gbksoft.Nanopb.Types.{invalid_wire_type}
use test_gbksoft.Nanopb.Input.{read, skip}
use test_gbksoft.Nanopb.Input.Buffer.{at, readbyte-at, readbyte-end}
use test_gbksoft.Nanopb.Input.Varint.{varint32_loop, decode_varint32_eof, decode_varint32}
use test_gbksoft.Nanopb.Input.Varint.{
  varint_loop, decode_varint, after_first_byte, read_one, skip_varint_loop, skip_varint,
}
use test_gbksoft.Nanopb.Input.Varint.{skip_string}
use test_gbksoft.Nanopb.Input.Safety.{Ends, ends_ok, ends_fail, IsSafe, within_here}
use test_gbksoft.Nanopb.Input.Safety.{
  Ends-next, stop_ok, stop_error, Ends-bind, Ends-if, IsSafe-bind, Ends-catch,
}
use test_gbksoft.Nanopb.Input.Safety.{
  IsSafe-try, IsSafe-option, IsSafe-return, IsSafe-error, IsSafe-if,
}
use test_gbksoft.Nanopb.Input.Safety.{readbyte-IsSafe, read-IsSafe, skip-IsSafe}
use test_gbksoft.Nanopb.Input.Wire.{
  tag_of, raw_varint_loop, decode_tag, skip_field, read_raw_value, read_unsized, decode_svarint,
}
use test_gbksoft.Nanopb.Types.WireType
use test_gbksoft.Common.{Bool, true, ◌==◌, ==_iff, if◌then◌else◌}
use test_gbksoft.Nanopb.Input.{return_error}
use test_gbksoft.Nanopb.Input.Wire.{unzigzag}
use native.Mathlib.Decide.{dec_lt}

module _ (σ : Type 0) where
  pub varint32_loop-Ends :
      (fuel bitpos result : ℕ) (mem : List ℕ) (left : ℕ) (err : Option ErrMsg)
      → left ≤ length mem
      → left < fuel
      → Ends mem left (varint32_loop {σ = σ} fuel bitpos result (at mem left err))
  unfolding varint32_loop
  varint32_loop-Ends zero bitpos result mem left err h hf = absurd (omega arith)
  varint32_loop-Ends (suc fuel) bitpos result mem zero err h hf =
      rw (readbyte-end mem err) (ends_fail (within_here mem 0 _))
  varint32_loop-Ends (suc fuel) bitpos result [] (suc left) err h hf = absurd (omega arith)
  varint32_loop-Ends (suc fuel) bitpos result (b ∷ mem) (suc left) err h hf =
      rw (readbyte-at b mem left err) (
        Ends-if _ (stop_error varint_overflow b mem left err) (
          Ends-if _
            (Ends-next b (varint32_loop-Ends fuel _ _ mem left err (omega arith) (omega arith)))
            (Ends-if _ (stop_error varint_overflow b mem left err) (stop_ok _ b mem left err))))

  pub after_first_byte-IsSafe : (o : Option ℕ) → IsSafe (after_first_byte {σ = σ} o)
  unfolding after_first_byte
  after_first_byte-IsSafe none = record {
    ends = λ mem left err le. ends_ok _ (within_here mem left err);
  }
  after_first_byte-IsSafe (some byte) = record {
    ends = λ mem left err le. Ends-if _ (ends_ok _ (within_here mem left err)) (
        Ends-bind _ le (λ r. IsSafe-return (r, false))
          (Ends-catch (varint32_loop-Ends (suc left) 7 _ mem left err le (omega arith))));
  }

  decode_varint32_eof-IsSafe : IsSafe (decode_varint32_eof {σ = σ})
  unfolding decode_varint32_eof
  decode_varint32_eof-IsSafe =
      IsSafe-bind _ after_first_byte (IsSafe-try _ (readbyte-IsSafe σ)) after_first_byte-IsSafe

  pub decode_varint32-IsSafe : IsSafe (decode_varint32 {σ = σ})
  unfolding decode_varint32
  decode_varint32-IsSafe =
      IsSafe-bind decode_varint32_eof _ decode_varint32_eof-IsSafe (λ r. IsSafe-option r.0)

  pub varint_loop-Ends :
      (fuel bitpos result : ℕ) (mem : List ℕ) (left : ℕ) (err : Option ErrMsg)
      → left ≤ length mem
      → bitpos ≤ 70
      → 77 ≤ bitpos + 7 * fuel
      → Ends mem left (varint_loop {σ = σ} fuel bitpos result (at mem left err))
  unfolding varint_loop
  varint_loop-Ends zero bitpos result mem left err h hb hf = absurd (omega arith)
  varint_loop-Ends (suc fuel) bitpos result mem zero err h hb hf =
      rw (readbyte-end mem err)
        (Ends-if _ (ends_fail (within_here mem 0 _)) (ends_fail (within_here mem 0 _)))
  varint_loop-Ends (suc fuel) bitpos result [] (suc left) err h hb hf = absurd (omega arith)
  varint_loop-Ends (suc fuel) bitpos result (b ∷ mem) (suc left) err h hb hf =
      elim (dec_lt bitpos 64) [
        | yes low ↦
            rw (readbyte-at b mem left err, lt→leb bitpos 64 low)
              (Ends-if _ (stop_ok _ b mem left err) (
                Ends-next b (
                  varint_loop-Ends fuel _ _ mem left err (omega arith) (omega arith)
                    (omega arith))))
        | no high ↦ rw (le→leb bitpos 64 (omega arith)) (ends_fail (within_here (b ∷ mem) _ _))
      ]

  pub decode_varint-IsSafe : IsSafe (decode_varint {σ = σ})
  unfolding decode_varint
  decode_varint-IsSafe = record {
    ends = λ mem left err le. varint_loop-Ends 11 0 0 mem left err le (omega arith) (omega arith);
  }

  pub read_one-at :
      (b : ℕ) (mem : List ℕ) (left : ℕ) (err : Option ErrMsg)
      → read_one {σ = σ} (at (b ∷ mem) (suc left) err) ≡ ok b (at mem left err)
  unfolding read_one read
  read_one-at b mem left err = ground arith

  pub read_one-end :
      (mem : List ℕ) (err : Option ErrMsg)
      → read_one {σ = σ} (at mem 0 err) ≡ fail (at mem 0 (set_error err end_of_stream))
  unfolding read_one read
  read_one-end mem err = refl

  skip_varint_loop-Ends :
      (fuel : ℕ) (mem : List ℕ) (left : ℕ) (err : Option ErrMsg)
      → left ≤ length mem
      → left < fuel
      → Ends mem left (skip_varint_loop {σ = σ} fuel (at mem left err))
  unfolding skip_varint_loop
  skip_varint_loop-Ends zero mem left err h hf = absurd (omega arith)
  skip_varint_loop-Ends (suc fuel) mem zero err h hf =
      rw (read_one-end mem err) (ends_fail (within_here mem 0 _))
  skip_varint_loop-Ends (suc fuel) [] (suc left) err h hf = absurd (omega arith)
  skip_varint_loop-Ends (suc fuel) (b ∷ mem) (suc left) err h hf = rw (read_one-at b mem left err) (
      Ends-if _ (stop_ok _ b mem left err)
        (Ends-next b (skip_varint_loop-Ends fuel mem left err (omega arith) (omega arith))))

  skip_varint-IsSafe : IsSafe (skip_varint {σ = σ})
  unfolding skip_varint
  skip_varint-IsSafe = record {
    ends = λ mem left err le. skip_varint_loop-Ends (suc left) mem left err le (omega arith);
  }

  skip_string-IsSafe : IsSafe (skip_string {σ = σ})
  unfolding skip_string
  skip_string-IsSafe = IsSafe-bind _ skip decode_varint32-IsSafe (skip-IsSafe σ)

  -- pb_decode_tag
  pub decode_tag-IsSafe : IsSafe (decode_tag {σ = σ})
  unfolding decode_tag
  decode_tag-IsSafe =
      IsSafe-bind decode_varint32_eof _ decode_varint32_eof-IsSafe (λ r. IsSafe-return (tag_of r))

  pub skip_field-IsSafe : (wire_type : ℕ) → IsSafe (skip_field {σ = σ} wire_type)
  unfolding skip_field
  skip_field-IsSafe w = IsSafe-if _ _ _ skip_varint-IsSafe (
      IsSafe-if _ _ _ (skip-IsSafe σ 8) (
        IsSafe-if _ _ _ skip_string-IsSafe
          (IsSafe-if _ _ _ (skip-IsSafe σ 4) (IsSafe-error invalid_wire_type))))

  pub decode_svarint-IsSafe : IsSafe (decode_svarint {σ = σ})
  unfolding decode_svarint
  decode_svarint-IsSafe =
      IsSafe-bind decode_varint _ decode_varint-IsSafe (λ v. IsSafe-return (unzigzag v))

  raw_varint_loop-Ends :
      (fuel max_size size : ℕ) (buf mem : List ℕ) (left : ℕ) (err : Option ErrMsg)
      → left ≤ length mem
      → size ≤ max_size
      → max_size < fuel + size
      → Ends mem left (raw_varint_loop {σ = σ} fuel max_size size buf (at mem left err))
  unfolding raw_varint_loop
  raw_varint_loop-Ends zero max size buf mem left err h hs hf = absurd (omega arith)
  raw_varint_loop-Ends (suc fuel) max size buf mem zero err h hs hf =
      rw (read_one-end mem err)
        (Ends-if _ (ends_fail (within_here mem 0 _)) (ends_fail (within_here mem 0 _)))
  raw_varint_loop-Ends (suc fuel) max size buf [] (suc left) err h hs hf = absurd (omega arith)
  raw_varint_loop-Ends (suc fuel) max size buf (b ∷ mem) (suc left) err h hs hf =
      elim (dec_lt max (size + 1)) [
        | yes full ↦ rw (lt→ltb max (size + 1) full) (ends_fail (within_here (b ∷ mem) _ _))
        | no room ↦
            rw
              (
                read_one-at b mem left err,
                le→ltb max (size + 1) (omega arith),
                lt→leb size max (omega arith),
              )
              (Ends-if _ (stop_ok _ b mem left err) (
                Ends-next b (
                  raw_varint_loop-Ends fuel max _ _ mem left err (omega arith) (omega arith)
                    (omega arith))))
      ]

  -- The bytes fit the buffer.
  read_unsized-IsSafe : (n max_size : ℕ) → n ≤ max_size → IsSafe (read_unsized {σ = σ} n max_size)
  unfolding read_unsized
  read_unsized-IsSafe n max h =
      IsSafe-bind (read n) _ (read-IsSafe σ n) (λ bytes. rw (le→ltb max n h) (IsSafe-return bytes))

  pub read_raw_value-IsSafe :
      (wire_type max_size : ℕ)
      → (wire_type ≡ WireType.bits64 → 8 ≤ max_size)
      → (wire_type ≡ WireType.bits32 → 4 ≤ max_size)
      → IsSafe (read_raw_value {σ = σ} wire_type max_size)
  unfolding read_raw_value
  read_raw_value-IsSafe w max room64 room32 =
      IsSafe-if _ _ _ raw (by_type (w == 1) (w == 5) refl refl)
    where
      by_type :
          (a b : Bool)
          → (w == 1) ≡ a
          → (w == 5) ≡ b
          → IsSafe {σ = σ} (λ s.
            if a
            then read_unsized 8 max s
            else if b
            then read_unsized 4 max s
            else return_error invalid_wire_type s)
      by_type true b e e' = read_unsized-IsSafe 8 max (room64 ((==_iff w 1).0 e))
      by_type false true e e' = read_unsized-IsSafe 4 max (room32 ((==_iff w 5).0 e'))
      by_type false false e e' = IsSafe-error invalid_wire_type

      raw : IsSafe (raw_varint_loop {σ = σ} (suc max) max 0 [])
      raw = record {
        ends = λ mem left err le.
            raw_varint_loop-Ends (suc max) max 0 [] mem left err le (omega arith) (omega arith);
      }
