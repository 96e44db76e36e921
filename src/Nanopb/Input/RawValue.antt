-- ===== src/Nanopb/Input/RawValue.antt =====
-- The buffer that read_raw_value fills.
use test_gbksoft.Common.{
  none, ℕ, zero, suc, ◌+◌, ◌≤◌, ◌≡◌, refl, arith, ltb, ◌==◌, bit_and, Option, List, [], ◌∷◌, ◌++◌,
  length, take, All,
}
use test_gbksoft.Common.{leb}
use native.Mathlib.Decide.{dec_lt}
use test_gbksoft.Common.{lt→ltb, le→ltb}
use test_gbksoft.Nanopb.Types.{ErrMsg, IsByte, invalid_wire_type}
use test_gbksoft.Nanopb.Input.{istream_from_buffer, read}
use test_gbksoft.Nanopb.Input.Buffer.{at}
use test_gbksoft.Nanopb.Input.Wire.{raw_varint_loop, read_unsized, read_raw_value}
use test_gbksoft.Nanopb.Input.SafeReaders.{read_one-at, read_one-end}
use test_gbksoft.Nanopb.Input.Takes.{
  Gives, gives_ok, gives_fail, gives_fault, gives_stuck, Gives-if, Gives-bind, Gives-error,
}

All-append : (xs ys : List ℕ) → All IsByte xs → All IsByte ys → All IsByte (xs ++ ys)
All-append [] ys hx hy = hy
All-append (x ∷ xs) ys hx hy = (hx.0, All-append xs ys hx.1 hy)

All-take : (n : ℕ) (xs : List ℕ) → All IsByte xs → All IsByte (take n xs)
All-take zero xs h = tt
All-take (suc n) [] h = tt
All-take (suc n) (x ∷ xs) h = (h.0, All-take n xs h.1)

pub istream_from_buffer-at :
    {σ : Type 0} (bs : List ℕ) (n : ℕ) → istream_from_buffer {σ = σ} bs n ≡ at bs n none
unfolding istream_from_buffer
istream_from_buffer-at bs n = refl

module _ {σ : Type 0} where
  read-Gives :
      (n : ℕ) (bs : List ℕ) (left : ℕ) (err : Option ErrMsg)
      → left ≤ length bs
      → All IsByte bs
      → Gives (All IsByte) (read {σ = σ} n (at bs left err))
  unfolding read
  read-Gives n bs left err fits h = elim (dec_lt left n) [
    | yes short ↦ rw (lt→ltb left n short) (gives_fail _)
    | no enough ↦
        rw (le→ltb left n (omega arith), le→ltb (length bs) n (omega arith))
          (gives_ok _ _ (All-take n bs h))
  ]

  raw_varint_loop-Gives :
      (fuel max size : ℕ) (buf bs : List ℕ) (left : ℕ) (err : Option ErrMsg)
      → left ≤ length bs
      → All IsByte buf
      → All IsByte bs
      → Gives (All IsByte) (raw_varint_loop {σ = σ} fuel max size buf (at bs left err))
  unfolding raw_varint_loop
  raw_varint_loop-Gives zero max size buf bs left err fits hb h = gives_stuck
  raw_varint_loop-Gives (suc fuel) max size buf bs zero err fits hb h =
      rw (read_one-end σ bs err) (Gives-if (ltb max (size + 1)) (gives_fail _) (gives_fail _))
  raw_varint_loop-Gives (suc fuel) max size buf [] (suc left) err fits hb h = absurd (omega arith)
  raw_varint_loop-Gives (suc fuel) max size buf (b ∷ bs) (suc left) err fits hb h =
      rw (read_one-at σ b bs left err) (
        Gives-if (ltb max (size + 1)) (gives_fail _) (
          Gives-if (leb max size) gives_fault (
            Gives-if (bit_and b 0x80 == 0) (gives_ok _ _ (All-append buf (b ∷ []) hb (h.0, tt))) (
              raw_varint_loop-Gives fuel max (size + 1) (buf ++ (b ∷ [])) bs left err (omega arith)
                (All-append buf (b ∷ []) hb (h.0, tt)) h.1))))

  read_unsized-Gives :
      (n max : ℕ) (bs : List ℕ) (left : ℕ) (err : Option ErrMsg)
      → left ≤ length bs
      → All IsByte bs
      → Gives (All IsByte) (read_unsized {σ = σ} n max (at bs left err))
  unfolding read_unsized
  read_unsized-Gives n max bs left err fits h =
      Gives-bind _ (read-Gives n bs left err fits h)
        (λ bytes s q. Gives-if (ltb max n) gives_fault (gives_ok bytes s q))

  -- The bytes of the value are bytes of the stream.
  pub read_raw_value-Gives :
      (wire_type max : ℕ) (bs : List ℕ) (left : ℕ) (err : Option ErrMsg)
      → left ≤ length bs
      → All IsByte bs
      → Gives (All IsByte) (read_raw_value {σ = σ} wire_type max (at bs left err))
  unfolding read_raw_value
  read_raw_value-Gives w max bs left err fits h =
      Gives-if (w == 0) (raw_varint_loop-Gives (suc max) max 0 [] bs left err fits tt h) (
        Gives-if (w == 1) (read_unsized-Gives 8 max bs left err fits h) (
          Gives-if (w == 5) (read_unsized-Gives 4 max bs left err fits h)
            (Gives-error invalid_wire_type (at bs left err))))
