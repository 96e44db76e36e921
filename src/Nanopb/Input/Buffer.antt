-- ===== src/Nanopb/Input/Buffer.antt =====
-- The readers of pb_istream_t on a stream over memory that holds the bytes they ask for.
use test_gbksoft.Common.{drop, ℕ, suc, ◌+◌, ◌≡◌, arith, Option, List, ◌∷◌, ◌++◌}
use test_gbksoft.Common.{length, length-append, take-append, drop-append, refl}
use test_gbksoft.Common.Outcome.{ok, fail}
use test_gbksoft.Nanopb.Types.{ErrMsg, set_error, end_of_stream}
use test_gbksoft.Nanopb.Input.{buf_read, IStream, read, skip, readbyte}

module _ {σ : Type 0} where
  -- A stream whose state points at `mem`, with `left` bytes to read.
  abbrev pub at : List ℕ → ℕ → Option ErrMsg → IStream σ
  at mem left err = record { source = buf_read mem; bytes_left = left; errmsg = err }

  pub readbyte-at :
      (b : ℕ) (mem : List ℕ) (left : ℕ) (err : Option ErrMsg)
      → readbyte (at (b ∷ mem) (suc left) err) ≡ ok b (at mem left err)
  unfolding readbyte
  readbyte-at b mem left err = ground arith

  pub readbyte-end :
      (mem : List ℕ) (err : Option ErrMsg)
      → readbyte (at mem 0 err) ≡ fail (at mem 0 (set_error err end_of_stream))
  unfolding readbyte
  readbyte-end mem err = refl

  pub read-at :
      (bs rest : List ℕ) (left : ℕ) (err : Option ErrMsg)
      → read (length bs) (at (bs ++ rest) (length bs + left) err) ≡ ok bs (at rest left err)
  unfolding read
  read-at bs rest left err =
      ground (arith, length-append bs rest, take-append bs rest, drop-append bs rest)

  pub skip-at :
      (bs rest : List ℕ) (left : ℕ) (err : Option ErrMsg)
      → skip (length bs) (at (bs ++ rest) (length bs + left) err) ≡ ok tt (at rest left err)
  unfolding skip
  skip-at bs rest left err = ground (arith, drop-append bs rest)

  pub skip_rest :
      (bs rest : List ℕ) (err : Option ErrMsg)
      → skip (length bs) (at (bs ++ rest) (length bs) err) ≡ ok tt (at rest 0 err)
  unfolding skip
  skip_rest bs rest err = ground (arith, drop-append bs rest)

  pub skip_all :
      (n : ℕ) (mem : List ℕ) (err : Option ErrMsg)
      → skip n (at mem n err) ≡ ok tt (at (drop n mem) 0 err)
  unfolding skip
  skip_all n mem err = ground arith
