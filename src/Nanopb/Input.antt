-- ===== src/Nanopb/Input.antt =====
-- pb_istream_t and the readers of pb_decode.c that work on the stream alone.
pub mod Varint
pub mod Wire
pub mod Buffer
pub mod Fixed
pub mod Safety
pub mod SafeReaders
pub mod SafeWords
pub mod Bounds
pub mod Takes
pub mod Readers
pub mod RawValue
pub mod Ahead
use test_gbksoft.Common.{ℕ, zero, suc, ◌+◌, ◌-◌, ◌*◌, ◌/◌, ◌^◌, Bool, true, false, ◌||◌, ltb, ◌==◌}
use test_gbksoft.Common.{if◌then◌else◌, Option, none, some, List, [], ◌∷◌, length, take, drop}
use test_gbksoft.Common.Outcome.{
  Outcome, ok, fail, fault, stuck, M, ◌>>=◌, ◌>>◌, return, bind_outcome,
}
use test_gbksoft.Nanopb.Types.{ErrMsg, set_error, end_of_stream, io_error}

-- The callback and the state of a stream. For `buf_read` the state is a pointer: here, the bytes
-- of memory from it on. Another callback is given its own state and a count, and answers whether
-- it succeeded, the bytes, and its state.
pub data Source (σ : Type 0) : Type 0 where
  buf_read : List ℕ → Source σ
  user : (σ → ℕ → Bool × List ℕ × σ) → σ → Source σ

pub record IStream (σ : Type 0) : Type 0 where
  pub source : Source σ
  pub bytes_left : ℕ
  pub errmsg : Option ErrMsg

-- pb_istream_from_buffer
pub istream_from_buffer : {σ : Type 0} → List ℕ → ℕ → IStream σ
istream_from_buffer buf bufsize = record {
  source = buf_read buf;
  bytes_left = bufsize;
  errmsg = none;
}

-- PB_RETURN_ERROR on an input stream.
abbrev pub return_error : {σ A : Type 0} → ErrMsg → M (IStream σ) A
return_error msg s = fail (record s { errmsg = set_error s.errmsg msg })

-- What a call of the stream's callback did.
pub data Delivery (σ : Type 0) : Type 0 where
  delivered : List ℕ → Source σ → Delivery σ
  refused : Source σ → Delivery σ
  overrun : Delivery σ

module _ {σ : Type 0} where
  user_delivery : (σ → ℕ → Bool × List ℕ × σ) → Bool × List ℕ × σ → Delivery σ
  user_delivery f (good, bytes, st) =
      if good then delivered bytes (user f st) else refused (user f st)

  -- `stream->callback(stream, buf, count)` with `buf` not NULL.
  call : Source σ → ℕ → Delivery σ
  unfolding user_delivery
  call (buf_read mem) count =
      if ltb (length mem) count
      then overrun
      else delivered (take count mem) (buf_read (drop count mem))
  call (user f st) count = user_delivery f (f st count)

  finish_read : IStream σ → ℕ → Delivery σ → Outcome (IStream σ) (List ℕ)
  finish_read s count (delivered bytes src) =
      ok bytes (record s { source = src; bytes_left = s.bytes_left - count })
  finish_read s count (refused src) = return_error io_error (record s { source = src })
  finish_read s count overrun = fault

  -- pb_read into a buffer of the caller.
  unfoldable pub read : ℕ → M (IStream σ) (List ℕ)
  unfolding call finish_read
  read count s =
      if ltb s.bytes_left count
      then return_error end_of_stream s
      else finish_read s count (call s.source count)

  -- The loop of pb_read that skips the input of a callback, sixteen bytes at a time.
  skip_by_16 : ℕ → ℕ → M (IStream σ) (Unit {0})
  skip_by_16 zero count s = stuck
  skip_by_16 (suc fuel) count s =
      let rest = bind_outcome (read 16 s) (λ _. skip_by_16 fuel (count - 16)) in
      if ltb 16 count then rest else bind_outcome (read count s) (λ _. return tt)

  skip_from : Source σ → ℕ → M (IStream σ) (Unit {0})
  unfolding skip_by_16
  skip_from (buf_read mem) count s =
      if ltb s.bytes_left count
      then return_error end_of_stream s
      else ok tt
          (record s { source = buf_read (drop count mem); bytes_left = s.bytes_left - count })
  skip_from (user f st) count s = skip_by_16 (suc count) count s

  -- pb_read with NULL for the buffer.
  unfoldable pub skip : ℕ → M (IStream σ) (Unit {0})
  unfolding skip_from
  skip count s = skip_from s.source count s

  finish_byte : IStream σ → Delivery σ → Outcome (IStream σ) ℕ
  finish_byte s (delivered [] src) = fault
  finish_byte s (delivered (b ∷ bytes) src) =
      ok b (record s { source = src; bytes_left = s.bytes_left - 1 })
  finish_byte s (refused src) = return_error io_error (record s { source = src })
  finish_byte s overrun = fault

  -- pb_readbyte
  unfoldable pub readbyte : M (IStream σ) ℕ
  unfolding call finish_byte
  readbyte s =
      if s.bytes_left == 0 then return_error end_of_stream s else finish_byte s (call s.source 1)
