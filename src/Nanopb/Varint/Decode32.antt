-- ===== src/Nanopb/Varint/Decode32.antt =====
-- pb_decode_varint32 reads values of 32 bits, padded or not.
use test_gbksoft.Common.{
  ℕ, zero, suc, ◌+◌, ◌*◌, ◌/◌, ◌%◌, ◌^◌, ◌≤◌, ◌<◌, ◌≡◌, arith, ltb, leb, some, lt→ltb, le→ltb, true,
  false, not, ◌==◌, ==_iff, ◌&&◌, ap, refl, Bool-cases, inl, inr,
}
use test_gbksoft.Common.{if◌then◌else◌, List, [], ◌∷◌, ◌++◌, length, Option, bit_or}
use test_gbksoft.Common.Bits.{bit_and-mask, bit_or_shifted, top_bit, bits_four_to_six}
use native.Mathlib.Decide.{dec_lt}
use test_gbksoft.Common.Outcome.{Outcome, ok}
use test_gbksoft.Nanopb.Input.{IStream}
use test_gbksoft.Nanopb.Types.{ErrMsg}
use test_gbksoft.Nanopb.Varint.{value, IsVarint, seven_more}
use test_gbksoft.Nanopb.Input.Buffer.{at, readbyte-at}
use test_gbksoft.Nanopb.Input.Varint.{varint32_loop, decode_varint32_eof, decode_varint32}

-- From the fifth byte on, a group that fits 32 bits is empty.
late_power : (j : ℕ) → 5 ≤ j → 2 ^ 35 ≤ 2 ^ (7 * j)
late_power zero h = absurd (omega arith)
late_power (suc j) h = elim (dec_lt j 5) [
  | yes low ↦ rw (four low) (omega arith)
  | no high ↦ omega (arith, late_power j (omega arith), seven_more j)
]
  where
    four : j < 5 → j ≡ 4
    four l = omega arith

late_empty : (j acc g : ℕ) → 5 ≤ j → acc + g * 2 ^ (7 * j) < 2 ^ 32 → g ≡ 0
late_empty j acc zero lo h = refl
late_empty j acc (suc g) lo h = absurd (grind (arith, late_power j lo))

-- Adding a group where it fits 32 bits.
or_group32 :
    (j acc g : ℕ)
    → j ≤ 4
    → acc < 2 ^ (7 * j)
    → acc + g * 2 ^ (7 * j) < 2 ^ 32
    → bit_or acc (g * 2 ^ (7 * j) % 2 ^ 32) ≡ acc + g * 2 ^ (7 * j)
or_group32 zero acc g hj ha ht = ground (arith, bit_or_shifted 0 acc g)
or_group32 (suc zero) acc g hj ha ht = ground (arith, bit_or_shifted 7 acc g)
or_group32 (suc (suc zero)) acc g hj ha ht = ground (arith, bit_or_shifted 14 acc g)
or_group32 (suc (suc (suc zero))) acc g hj ha ht = ground (arith, bit_or_shifted 21 acc g)
or_group32 (suc (suc (suc (suc zero)))) acc g hj ha ht = ground (arith, bit_or_shifted 28 acc g)
or_group32 (suc (suc (suc (suc (suc j))))) acc g hj ha ht = absurd (omega arith)

-- The fifth byte has no bits above the 32nd.
last_group :
    (j acc b : ℕ)
    → acc + b % 128 * 2 ^ (7 * j) < 2 ^ 32
    → ((7 * suc j == 35) && not (b / 16 % 8 * 16 == 0)) ≡ false
last_group j acc b h = elim (Bool-cases (7 * suc j == 35)) [
  | inl e ↦ rw e (small (omega (arith, (==_iff (7 * suc j) 35).0 e)))
  | inr e ↦ rw e
]
  where
    empty : acc + b % 128 * 2 ^ (7 * 4) < 2 ^ 32 → (b / 16 % 8 * 16 == 0) ≡ true
    empty h = ground arith

    small : j ≡ 4 → (true && not (b / 16 % 8 * 16 == 0)) ≡ false
    small e = rw (empty (rw e at h))

next_bit : (j : ℕ) → j ≤ 35 → (7 * j + 7) % 2 ^ 8 ≡ 7 * suc j
next_bit j h = omega arith

early_bits : (j : ℕ) → j ≤ 4 → leb 32 (7 * j) ≡ false
early_bits j h = ground arith

late_bits : (j : ℕ) → 5 ≤ j → leb 32 (7 * j) ≡ true
late_bits j h = ground arith

nothing : (acc p : ℕ) → acc + 0 * p ≡ acc
nothing acc p = omega arith

not_last : (j : ℕ) → 5 ≤ j → (7 * suc j == 35) ≡ false
not_last j h = ground arith

same_test : (b : ℕ) → not (b / 128 * 128 == 0) ≡ not (ltb b 128)
same_test b = ap not (ground arith)

same_first : (b : ℕ) → b < 256 → (b / 128 * 128 == 0) ≡ ltb b 128
same_first b h = ground arith

groups_joined : (acc g v p n : ℕ) → n ≡ 128 * p → acc + g * p + v * n ≡ acc + (g + 128 * v) * p
groups_joined acc g v p n h = rw h (omega arith)

next_below : (j acc g : ℕ) → g < 128 → acc < 2 ^ (7 * j) → acc + g * 2 ^ (7 * j) < 2 ^ (7 * suc j)
next_below j acc g hg ha = grind (arith, seven_more j)

module _ {σ : Type 0} where
  abbrev pub stepped : ℕ → ℕ → ℕ → ℕ → List ℕ → ℕ → Option ErrMsg → Outcome (IStream σ) ℕ
  stepped fuel j acc b mem left err =
      if ltb b 128
      then ok (acc + b % 128 * 2 ^ (7 * j)) (at mem left err)
      else varint32_loop fuel (7 * suc j) (acc + b % 128 * 2 ^ (7 * j)) (at mem left err)

  early_round :
      (fuel j acc b : ℕ) (mem : List ℕ) (left : ℕ) (err : Option ErrMsg)
      → j ≤ 4
      → b < 256
      → acc < 2 ^ (7 * j)
      → acc + b % 128 * 2 ^ (7 * j) < 2 ^ 32
      → varint32_loop {σ = σ} (suc fuel) (7 * j) acc (at (b ∷ mem) (suc left) err)
        ≡ stepped fuel j acc b mem left err
  unfolding varint32_loop
  early_round fuel j acc b mem left err hj hb ha ht =
      rw
        (
          readbyte-at b mem left err,
          bit_and-mask 7 b,
          or_group32 j acc (b % 128) hj ha ht,
          top_bit b hb,
          same_test b,
          bits_four_to_six b hb,
          next_bit j (omega arith),
          early_bits j hj,
          last_group j acc b ht,
        )
        (elim (Bool-cases (ltb b 128)) [ inl low ↦ rw low | inr high ↦ rw high ])

  late_round :
      (fuel j acc b : ℕ) (mem : List ℕ) (left : ℕ) (err : Option ErrMsg)
      → 5 ≤ j
      → j ≤ 35
      → b < 256
      → b % 128 ≡ 0
      → varint32_loop {σ = σ} (suc fuel) (7 * j) acc (at (b ∷ mem) (suc left) err)
        ≡ stepped fuel j acc b mem left err
  unfolding varint32_loop
  late_round fuel j acc b mem left err lo hj hb hz =
      rw
        (
          readbyte-at b mem left err,
          bit_and-mask 7 b,
          top_bit b hb,
          same_test b,
          hz,
          nothing acc (2 ^ (7 * j)),
          next_bit j hj,
          late_bits j lo,
          not_last j lo,
        )
        (elim (Bool-cases (ltb b 128)) [ inl low ↦ rw low | inr high ↦ rw high ])

  pub varint32_loop-suc :
      (fuel j acc b : ℕ) (mem : List ℕ) (left : ℕ) (err : Option ErrMsg)
      → j ≤ 35
      → b < 256
      → acc < 2 ^ (7 * j)
      → acc + b % 128 * 2 ^ (7 * j) < 2 ^ 32
      → varint32_loop {σ = σ} (suc fuel) (7 * j) acc (at (b ∷ mem) (suc left) err)
        ≡ stepped fuel j acc b mem left err
  varint32_loop-suc fuel j acc b mem left err hj hb ha ht = elim (dec_lt j 5) [
    | yes low ↦ early_round fuel j acc b mem left err (omega arith) hb ha ht
    | no high ↦
        late_round fuel j acc b mem left err (omega arith) hj hb
          (late_empty j acc (b % 128) (omega arith) ht)
  ]

  varint32_loop-value :
      (bs rest : List ℕ) (fuel j acc left : ℕ) (err : Option ErrMsg)
      → IsVarint bs
      → j + length bs ≤ 36
      → length bs ≤ fuel
      → acc < 2 ^ (7 * j)
      → acc + value bs * 2 ^ (7 * j) < 2 ^ 32
      → varint32_loop {σ = σ} fuel (7 * j) acc (at (bs ++ rest) (length bs + left) err)
        ≡ ok (acc + value bs * 2 ^ (7 * j)) (at rest left err)
  varint32_loop-value [] rest fuel j acc left err hv hj hf ha ht = absurd hv
  varint32_loop-value (b ∷ bs) rest zero j acc left err hv hj hf ha ht = absurd (omega arith)
  varint32_loop-value (b ∷ []) rest (suc fuel) j acc left err hv hj hf ha ht =
      ground (arith, varint32_loop-suc fuel j acc b rest left err)
  varint32_loop-value (b ∷ c ∷ bs) rest (suc fuel) j acc left err hv hj hf ha ht =
      let more : List ℕ = c ∷ bs in
      let acc' : ℕ = acc + b % 128 * 2 ^ (7 * j) in
      let same : acc' + value more * 2 ^ (7 * suc j) ≡ acc + value (b ∷ more) * 2 ^ (7 * j) =
        groups_joined acc (b % 128) (value more) _ _ (seven_more j) in
      let below : acc' < 2 ^ (7 * suc j) = next_below j acc (b % 128) (omega arith) ha in
      ground (
        arith,
        varint32_loop-suc fuel j acc b (more ++ rest) (length more + left) err,
        same,
        varint32_loop-value more rest fuel (suc j) acc' left err hv.2,
      )

  eof-single :
      (b : ℕ) (mem : List ℕ) (left : ℕ) (err : Option ErrMsg)
      → b < 128
      → decode_varint32_eof {σ = σ} (at (b ∷ mem) (suc left) err)
        ≡ ok (some b, false) (at mem left err)
  unfolding decode_varint32_eof
  eof-single b mem left err h = rw (
    readbyte-at b mem left err,
    top_bit b (omega arith),
    same_first b (omega arith),
    lt→ltb b 128 h,
  )

  pub eof-more :
      (b : ℕ) (mem : List ℕ) (left v : ℕ) (rest : List ℕ) (left' : ℕ) (err : Option ErrMsg)
      → 128 ≤ b
      → b < 256
      → varint32_loop {σ = σ} (suc left) 7 (b % 128) (at mem left err) ≡ ok v (at rest left' err)
      → decode_varint32_eof {σ = σ} (at (b ∷ mem) (suc left) err)
        ≡ ok (some v, false) (at rest left' err)
  unfolding decode_varint32_eof
  eof-more b mem left v rest left' err h1 h2 e = rw (
    readbyte-at b mem left err,
    top_bit b h2,
    same_first b h2,
    le→ltb b 128 h1,
    bit_and-mask 7 b,
    e,
  )

  -- pb_decode_varint32_eof, as pb_decode_tag calls it.
  pub decode_varint32_eof-value :
      (bs rest : List ℕ) (left : ℕ) (err : Option ErrMsg)
      → IsVarint bs
      → length bs ≤ 36
      → value bs < 2 ^ 32
      → decode_varint32_eof {σ = σ} (at (bs ++ rest) (length bs + left) err)
        ≡ ok (some (value bs), false) (at rest left err)
  decode_varint32_eof-value [] rest left err hv hl ht = absurd hv
  decode_varint32_eof-value (b ∷ []) rest left err hv hl ht =
      ground (arith, eof-single b rest left err hv)
  decode_varint32_eof-value (b ∷ c ∷ bs) rest left err hv hl ht =
      let more : List ℕ = c ∷ bs in
      ground (
        arith,
        varint32_loop-value more rest (suc (length more + left)) 1 (b % 128) left err hv.2,
        eof-more b (more ++ rest) (length more + left) (value (b ∷ more)) rest left err,
      )

  -- On the bytes of a varint whose value fits 32 bits, padded to at most 36 bytes,
  -- pb_decode_varint32 returns the value, and takes just those bytes.
  pub decode_varint32-value :
      (bs rest : List ℕ) (left : ℕ) (err : Option ErrMsg)
      → IsVarint bs
      → length bs ≤ 36
      → value bs < 2 ^ 32
      → decode_varint32 {σ = σ} (at (bs ++ rest) (length bs + left) err)
        ≡ ok (value bs) (at rest left err)
  unfolding decode_varint32
  decode_varint32-value bs rest left err hv hl ht =
      rw (decode_varint32_eof-value bs rest left err hv hl ht)
