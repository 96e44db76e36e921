-- ===== src/Nanopb/Output/Buffer.antt =====
-- pb_write on a stream over a buffer, and on the stream that only counts.
use test_gbksoft.Common.{ℕ, ◌+◌, ◌^◌, ◌≤◌, ◌<◌, ◌≡◌, arith, Option, List}
use test_gbksoft.Common.{◌++◌, length, drop, take_all, le→ltb, lt→ltb}
use test_gbksoft.Common.Outcome.{ok, fail}
use test_gbksoft.Nanopb.Types.{ErrMsg, set_error, stream_full}
use test_gbksoft.Nanopb.Output.{sizing, buf_write, OStream, write_n, write, add_size}

no_wrap : (a b m : ℕ) → a + b ≤ m → m < 2 ^ 64 → add_size a b ≡ a + b
no_wrap a b m h1 h2 = omega arith

module _ {τ : Type 0} where
  -- A stream over a buffer: the bytes stored so far, the rest of the buffer, the limit and the
  -- count.
  abbrev pub out : List ℕ → List ℕ → ℕ → ℕ → Option ErrMsg → OStream τ
  out before after limit count err = record {
    sink = buf_write before after;
    max_size = limit;
    bytes_written = count;
    errmsg = err;
  }

  -- A stream that counts.
  abbrev pub counting : ℕ → ℕ → Option ErrMsg → OStream τ
  counting limit count err = record {
    sink = sizing;
    max_size = limit;
    bytes_written = count;
    errmsg = err;
  }

  -- Where the limit of a stream over a buffer leaves room for the bytes, the limit is a size_t,
  -- and the buffer holds them, pb_write puts them behind those stored so far and counts them.
  pub write-out :
      (bs before after : List ℕ) (limit count : ℕ) (err : Option ErrMsg)
      → count + length bs ≤ limit
      → limit < 2 ^ 64
      → length bs ≤ length after
      → write bs (out before after limit count err)
        ≡ ok tt (out (before ++ bs) (drop (length bs) after) limit (count + length bs) err)
  unfolding write_n
  write-out bs before after limit count err h1 h2 h3 = rw (
    no_wrap count (length bs) limit h1 h2,
    le→ltb limit (count + length bs) h1,
    le→ltb (length bs) (length bs) (omega arith),
    le→ltb (length after) (length bs) h3,
    take_all bs,
  )

  -- Where the count and the bytes exceed the limit, and their sum is a size_t, pb_write on a
  -- stream over a buffer stores nothing and fails with "stream full".
  pub write-out_full :
      (bs before after : List ℕ) (limit count : ℕ) (err : Option ErrMsg)
      → limit < count + length bs
      → count + length bs < 2 ^ 64
      → write bs (out before after limit count err)
        ≡ fail (out before after limit count (set_error err stream_full))
  unfolding write_n
  write-out_full bs before after limit count err h1 h2 =
      rw (no_wrap count (length bs) (count + length bs) (omega arith) h2, lt→ltb _ _ h1)

  -- Where the sum of the count and the bytes is a size_t, pb_write on a stream without a callback
  -- counts the bytes, whatever its limit.
  pub write_n-counting :
      (buf : List ℕ) (n limit count : ℕ) (err : Option ErrMsg)
      → count + n < 2 ^ 64
      → write_n buf n (counting limit count err) ≡ ok tt (counting limit (count + n) err)
  unfolding write_n
  write_n-counting buf n limit count err h = rw (no_wrap count n (count + n) (omega arith) h)

  -- Where the sum of the count and the bytes is a size_t, pb_write on a stream without a callback
  -- counts the bytes, whatever its limit.
  pub write-counting :
      (bs : List ℕ) (limit count : ℕ) (err : Option ErrMsg)
      → count + length bs < 2 ^ 64
      → write bs (counting limit count err) ≡ ok tt (counting limit (count + length bs) err)
  unfolding write_n
  write-counting bs limit count err h =
      rw (no_wrap count (length bs) (count + length bs) (omega arith) h)
