-- ===== src/Nanopb/Varint/Decode.antt =====
-- pb_decode_varint reads the value that the format gives its bytes.
use test_gbksoft.Common.{
  ℕ, zero, suc, ◌+◌, ◌*◌, ◌%◌, ◌^◌, ◌≤◌, ◌<◌, ◌≡◌, refl, ◌-◌, arith, ltb, if◌then◌else◌,
}
use test_gbksoft.Common.{All, List, [], ◌∷◌, ◌++◌, length, Option, bit_or}
use test_gbksoft.Common.Bits.{bit_and-mask, bit_or_shifted, top_bit}
use test_gbksoft.Common.Outcome.{ok, fail}
use test_gbksoft.Nanopb.Types.{ErrMsg, set_error, varint_overflow, end_of_stream}
use test_gbksoft.Nanopb.Varint.{value, IsVarint, IsContinued, seven_more}
use test_gbksoft.Nanopb.Input.Buffer.{at, readbyte-at, readbyte-end}
use test_gbksoft.Nanopb.Input.Varint.{varint_loop, decode_varint}

-- Adding a group of seven bits above the bits that are there, in 64 bits.
or_group :
    (j acc g : ℕ)
    → j ≤ 9
    → g < 128
    → acc < 2 ^ (7 * j)
    → bit_or acc (g * 2 ^ (7 * j) % 2 ^ 64) ≡ (acc + g * 2 ^ (7 * j)) % 2 ^ 64
or_group zero acc g hj hg ha = ground (arith, bit_or_shifted 0 acc g)
or_group (suc zero) acc g hj hg ha = ground (arith, bit_or_shifted 7 acc g)
or_group (suc (suc zero)) acc g hj hg ha = ground (arith, bit_or_shifted 14 acc g)
or_group (suc (suc (suc zero))) acc g hj hg ha = ground (arith, bit_or_shifted 21 acc g)
or_group (suc (suc (suc (suc zero)))) acc g hj hg ha = ground (arith, bit_or_shifted 28 acc g)
or_group (suc (suc (suc (suc (suc zero))))) acc g hj hg ha = ground (arith, bit_or_shifted 35 acc g)
or_group (suc (suc (suc (suc (suc (suc zero)))))) acc g hj hg ha =
    ground (arith, bit_or_shifted 42 acc g)
or_group (suc (suc (suc (suc (suc (suc (suc zero))))))) acc g hj hg ha =
    ground (arith, bit_or_shifted 49 acc g)
or_group (suc (suc (suc (suc (suc (suc (suc (suc zero)))))))) acc g hj hg ha =
    ground (arith, bit_or_shifted 56 acc g)
or_group (suc (suc (suc (suc (suc (suc (suc (suc (suc zero))))))))) acc g hj hg ha =
    ground (arith, bit_or_shifted 63 acc (g % 2))
or_group (suc (suc (suc (suc (suc (suc (suc (suc (suc (suc j)))))))))) acc g hj hg ha =
    absurd (omega arith)

next_bit : (j : ℕ) → j ≤ 9 → (7 * j + 7) % 2 ^ 8 ≡ 7 * suc j
next_bit j h = omega arith

-- What is read stays below the bits that come next.
below_next :
    (j acc g : ℕ) → g < 128 → acc < 2 ^ (7 * j) → (acc + g * 2 ^ (7 * j)) % 2 ^ 64 < 2 ^ (7 * suc j)
below_next j acc g hg ha = grind (arith, seven_more j)

-- The groups of the bytes that follow, 7 bits further up.
value_shift :
    (acc g v p n : ℕ)
    → n ≡ 128 * p
    → ((acc + g * p) % 2 ^ 64 + v * n) % 2 ^ 64 ≡ (acc + (g + 128 * v) * p) % 2 ^ 64
value_shift acc g v p n h = rw h (omega arith)

module _ {σ : Type 0} where
  -- One round at a byte, from bit `7 * j` on.
  varint_loop-suc :
      (fuel j acc b : ℕ) (mem : List ℕ) (left : ℕ) (err : Option ErrMsg)
      → j ≤ 9
      → b < 256
      → acc < 2 ^ (7 * j)
      → varint_loop {σ = σ} (suc fuel) (7 * j) acc (at (b ∷ mem) (suc left) err) ≡ (
          if ltb b 128
          then ok ((acc + b % 128 * 2 ^ (7 * j)) % 2 ^ 64) (at mem left err)
          else varint_loop fuel
              (7 * suc j)
              ((acc + b % 128 * 2 ^ (7 * j)) % 2 ^ 64)
              (at mem left err))
  unfolding varint_loop
  varint_loop-suc fuel j acc b mem left err hj hb ha =
      rw
        (
          readbyte-at b mem left err,
          bit_and-mask 7 b,
          or_group j acc (b % 128) hj (omega arith) ha,
          top_bit b hb,
          next_bit j hj,
        )
        (ground arith)

  varint_loop-value :
      (bs rest : List ℕ) (fuel j acc left : ℕ) (err : Option ErrMsg)
      → IsVarint bs
      → j + length bs ≤ 10
      → length bs ≤ fuel
      → acc < 2 ^ (7 * j)
      → varint_loop {σ = σ} fuel (7 * j) acc (at (bs ++ rest) (length bs + left) err)
        ≡ ok ((acc + value bs * 2 ^ (7 * j)) % 2 ^ 64) (at rest left err)
  varint_loop-value [] rest fuel j acc left err hv hj hf ha = absurd hv
  varint_loop-value (b ∷ bs) rest zero j acc left err hv hj hf ha = absurd (omega arith)
  varint_loop-value (b ∷ []) rest (suc fuel) j acc left err hv hj hf ha =
      ground (arith, varint_loop-suc fuel j acc b rest left err)
  varint_loop-value (b ∷ c ∷ bs) rest (suc fuel) j acc left err hv hj hf ha =
      let acc' : ℕ = (acc + b % 128 * 2 ^ (7 * j)) % 2 ^ 64 in
      let more : List ℕ = c ∷ bs in
      ground (
        arith,
        varint_loop-suc fuel j acc b (more ++ rest) (length more + left) err,
        below_next j acc (b % 128),
        value_shift acc (b % 128) (value more) (2 ^ (7 * j)) (2 ^ (7 * suc j)),
        seven_more j,
        varint_loop-value more rest fuel (suc j) acc' left err hv.2,
      )

  -- On the bytes of a varint, at most ten, pb_decode_varint returns its value modulo 2 ^ 64, and
  -- takes just those bytes, whatever follows.
  pub decode_varint-value :
      (bs rest : List ℕ) (left : ℕ) (err : Option ErrMsg)
      → IsVarint bs
      → length bs ≤ 10
      → decode_varint {σ = σ} (at (bs ++ rest) (length bs + left) err)
        ≡ ok (value bs % 2 ^ 64) (at rest left err)
  unfolding decode_varint
  decode_varint-value bs rest left err hv hl =
      ground (arith, varint_loop-value bs rest 11 0 0 left err hv)

  varint_loop-unfinished :
      (bs rest : List ℕ) (fuel j acc left : ℕ) (err : Option ErrMsg)
      → All IsContinued bs
      → j + length bs ≤ 10
      → acc < 2 ^ (7 * j)
      → (acc' : ℕ) × (varint_loop {σ = σ}
            (length bs + fuel)
            (7 * j)
            acc
            (at (bs ++ rest) (length bs + left) err)
          ≡ varint_loop fuel (7 * (j + length bs)) acc' (at rest left err))
  varint_loop-unfinished [] rest fuel j acc left err hv hj ha = (acc, ground arith)
  varint_loop-unfinished (b ∷ bs) rest fuel j acc left err hv hj ha =
      let acc' : ℕ = (acc + b % 128 * 2 ^ (7 * j)) % 2 ^ 64 in
      let (end, ih) =
        varint_loop-unfinished bs rest fuel (suc j) acc' left err hv.1 (omega arith)
          (below_next j acc (b % 128) (omega arith) ha) in
      (
        end,
        ground (
          arith,
          varint_loop-suc (length bs + fuel) j acc b (bs ++ rest) (length bs + left) err,
          ih,
        ),
      )

  varint_loop_full :
      (fuel acc : ℕ) (mem : List ℕ) (left : ℕ) (err : Option ErrMsg)
      → varint_loop {σ = σ} (suc fuel) 70 acc (at mem left err)
        ≡ fail (at mem left (set_error err varint_overflow))
  unfolding varint_loop
  varint_loop_full fuel acc mem left err = refl

  varint_loop_end :
      (fuel j acc : ℕ) (mem : List ℕ) (err : Option ErrMsg)
      → j ≤ 9
      → varint_loop {σ = σ} (suc fuel) (7 * j) acc (at mem 0 err)
        ≡ fail (at mem 0 (set_error err end_of_stream))
  unfolding varint_loop
  varint_loop_end fuel j acc mem err h = rw (readbyte-end mem err) (ground arith)

  -- Ten bytes that all have the top bit set are refused by pb_decode_varint with "varint
  -- overflow", wherever the stream goes on.
  pub decode_varint_too_long :
      (bs rest : List ℕ) (left : ℕ) (err : Option ErrMsg)
      → All IsContinued bs
      → length bs ≡ 10
      → decode_varint {σ = σ} (at (bs ++ rest) (10 + left) err)
        ≡ fail (at rest left (set_error err varint_overflow))
  unfolding decode_varint
  decode_varint_too_long bs rest left err hv hl =
      let (acc, e) = varint_loop-unfinished bs rest 1 0 0 left err hv (omega arith) (omega arith) in
      ground (arith, e, varint_loop_full 0 acc rest left err)

  -- A stream that ends inside a varint, after fewer than ten bytes with the top bit set, is
  -- refused by pb_decode_varint with "end-of-stream".
  pub decode_varint_cut :
      (bs rest : List ℕ) (err : Option ErrMsg)
      → All IsContinued bs
      → length bs < 10
      → decode_varint {σ = σ} (at (bs ++ rest) (length bs) err)
        ≡ fail (at rest 0 (set_error err end_of_stream))
  unfolding decode_varint
  decode_varint_cut bs rest err hv hl =
      let left : ℕ = 10 - length bs in
      let (acc, e) =
        varint_loop-unfinished bs rest (suc left) 0 0 0 err hv (omega arith) (omega arith) in
      ground (arith, e, varint_loop_end left (length bs) acc rest err)
