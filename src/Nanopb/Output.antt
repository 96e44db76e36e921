-- ===== src/Nanopb/Output.antt =====
-- pb_ostream_t and the writers of pb_encode.c that work on the stream alone.
pub mod Buffer
pub mod Primitives
pub mod Strings
pub mod Text
pub mod Steady
pub mod SteadyWriters
use test_gbksoft.Common.{ℕ, ◌+◌, ◌%◌, ◌^◌, Bool, true, false, ltb, if◌then◌else◌}
use test_gbksoft.Common.{Option, none, some, List, [], ◌++◌, length, take, drop, ◌||◌}
use test_gbksoft.Common.Outcome.{Outcome, ok, fail, fault, M}
use test_gbksoft.Nanopb.Types.{ErrMsg, set_error, stream_full, io_error}

-- The callback and the state of a stream. `sizing` is the NULL callback. For `buf_write` the state
-- is a pointer: here, the bytes of the buffer before it and those from it on. Another callback is
-- given its own state and the bytes, and answers whether it succeeded, and its state.
pub data Sink (τ : Type 0) : Type 0 where
  sizing : Sink τ
  buf_write : List ℕ → List ℕ → Sink τ
  user : (τ → List ℕ → Bool × τ) → τ → Sink τ

pub record OStream (τ : Type 0) : Type 0 where
  pub sink : Sink τ
  pub max_size : ℕ
  pub bytes_written : ℕ
  pub errmsg : Option ErrMsg

-- pb_ostream_from_buffer
abbrev pub ostream_from_buffer : {τ : Type 0} → List ℕ → ℕ → OStream τ
ostream_from_buffer buf bufsize = record {
  sink = buf_write [] buf;
  max_size = bufsize;
  bytes_written = 0;
  errmsg = none;
}

-- PB_OSTREAM_SIZING
unfoldable pub ostream_sizing : {τ : Type 0} → OStream τ
ostream_sizing = record { sink = sizing; max_size = 0; bytes_written = 0; errmsg = none }

-- PB_RETURN_ERROR on an output stream.
abbrev pub return_error : {τ A : Type 0} → ErrMsg → M (OStream τ) A
return_error msg s = fail (record s { errmsg = set_error s.errmsg msg })

-- Sums of size_t.
abbrev pub add_size : ℕ → ℕ → ℕ
add_size a b = (a + b) % 2 ^ 64

module _ {τ : Type 0} where
  count_written : OStream τ → Sink τ → ℕ → Outcome (OStream τ) (Unit {0})
  count_written s snk count =
      ok tt (record s { sink = snk; bytes_written = add_size s.bytes_written count })

  user_write : OStream τ → (τ → List ℕ → Bool × τ) → ℕ → Bool × τ → Outcome (OStream τ) (Unit {0})
  unfolding count_written
  user_write s f count (good, st) =
      if good
      then count_written s (user f st) count
      else return_error io_error (record s { sink = user f st })

  -- The callback's part of pb_write, past the size check. `buf` is memory: what lies behind the
  -- pointer that the caller gives.
  to_sink : OStream τ → Sink τ → List ℕ → ℕ → Outcome (OStream τ) (Unit {0})
  unfolding count_written user_write
  to_sink s sizing buf count = count_written s sizing count
  to_sink s (buf_write before after) buf count =
      if ltb (length buf) count || ltb (length after) count
      then fault
      else count_written s (buf_write (before ++ take count buf) (drop count after)) count
  to_sink s (user f st) buf count = user_write s f count (f st (take count buf))

  abbrev pub is_sizing : Sink τ → Bool
  is_sizing sizing = true
  is_sizing (buf_write before after) = false
  is_sizing (user f st) = false

  -- pb_write of `count` bytes behind a pointer.
  unfoldable pub write_n : List ℕ → ℕ → M (OStream τ) (Unit {0})
  unfolding to_sink
  write_n buf count s =
      if is_sizing s.sink
      then to_sink s s.sink buf count
      else if ltb s.max_size (add_size s.bytes_written count)
      then return_error stream_full s
      else to_sink s s.sink buf count

  -- pb_write of a whole array.
  abbrev pub write : List ℕ → M (OStream τ) (Unit {0})
  write buf = write_n buf (length buf)
