-- ===== src/Nanopb/Decode/TotalCallback.antt =====
-- decode_callback_field on every input.
use test_gbksoft.Common.{
  ℕ, zero, suc, ◌+◌, ◌-◌, ◌≤◌, ◌<◌, ◌≡◌, arith, false, ◌||◌, ◌==◌, Option, none, some, List, length,
  All,
}
use test_gbksoft.Common.Outcome.{Outcome, ok, M, bind_outcome}
use test_gbksoft.Nanopb.Types.{Field, ErrMsg, IsByte, callback_failed}
use test_gbksoft.Nanopb.Memory.{Mem, load}
use test_gbksoft.Nanopb.Input.{IStream, istream_from_buffer}
use test_gbksoft.Nanopb.Input.Buffer.{at}
use test_gbksoft.Nanopb.Input.Safety.{Ends, ends_ok, ends_fail}
use test_gbksoft.Nanopb.Input.SafeReaders.{skip_field-IsSafe, read_raw_value-IsSafe}
use test_gbksoft.Nanopb.Input.Takes.{Gives, gives_ok}
use test_gbksoft.Nanopb.Input.RawValue.{istream_from_buffer-at, read_raw_value-Gives}
use test_gbksoft.Nanopb.Input.Ahead.{ahead_here, within-IsAhead}
use test_gbksoft.Nanopb.Input.Wire.{skip_field, read_raw_value}
use test_gbksoft.Nanopb.Decode.State.{DecState, on_stream, with_stream}
use test_gbksoft.Nanopb.Decode.Env.{Env, on_substream, hand_back, answer}
use test_gbksoft.Nanopb.Decode.Field.{
  callback_loop, finish_callback, callback_string, callback_scalar, decode_callback_field,
}
use test_gbksoft.Nanopb.Decode.Total.{
  Finishes, finishes_ok, finishes_fail, Finishes-if, Total, Total-bind, Total-with, Total-if,
  Total-ok, Total-error, Total-weaken, on_stream-Total,
}
use test_gbksoft.Nanopb.Decode.TotalValues.{Free}
use test_gbksoft.Nanopb.Decode.TotalSub.{Resumes, close-Resumes, error-Resumes, substream-Total}

-- A callback of the user ends, whatever the bytes are, reads no more than its stream promises, and
-- where it returns true it takes a byte if there is one.
abbrev pub IsCallback : {σ η : Type 0} → M (DecState σ η) (Unit {0}) → Type 0
IsCallback m = (left : ℕ) → Total left (λ v l. l ≤ left - 1) m

module _ {σ η : Type 0} (env : Env σ η)
    (callbacks : (callback : ℕ) (f : Field) (arg : ℕ)
      → IsCallback (env.decode_callback callback f arg)) where
  -- Each round takes a byte, or there was none.
  callback_loop-Total :
      (fuel left : ℕ) (f : Field) (p : ℕ)
      → left < fuel
      → Total left Free (callback_loop env fuel f p)
  unfolding callback_loop
  callback_loop-Total zero left f p h = absurd (omega arith)
  callback_loop-Total (suc fuel) left f p h =
      Total-bind (λ v l. l ≤ left - 1) (λ s. env.decode_callback (load s.mem 8 p) f (p + 8) s) _
        (Total-with (λ s. load s.mem 8 p) (λ callback. env.decode_callback callback f (p + 8))
          (λ callback. callbacks callback f (p + 8) left))
        λ v l le less. record {
          ends = λ bs err mem heap fits.
              Finishes-if (l == 0) (λ e. finishes_ok tt (ahead_here bs l err) tt)
                (λ n.
                  (callback_loop-Total fuel l f p (shorter l less n)).ends bs err mem heap fits);
        }
    where
      shorter : (l : ℕ) → l ≤ left - 1 → (l == 0) ≡ false → l < fuel
      shorter l less n = ground arith

  finish_callback-Resumes :
      (size l : ℕ) (status : Option (Unit {0})) → Resumes size l (finish_callback env) status
  unfolding finish_callback Resumes
  finish_callback-Resumes size l none rest err sub mem heap w fits =
      error-Resumes size l _ tt (λ l. Total-error callback_failed) rest err sub mem heap w fits
  finish_callback-Resumes size l (some u) rest err sub mem heap w fits =
      close-Resumes size l (λ u s. ok tt s) tt (λ l. Total-ok tt tt) rest err sub mem heap w fits

  callback_string-Total : (left : ℕ) (f : Field) (p : ℕ) → Total left Free (callback_string env f p)
  unfolding callback_string
  callback_string-Total left f p =
      substream-Total Free (λ size. callback_loop env (suc size) f p) (finish_callback env)
        (λ size. callback_loop-Total (suc size) size f p (omega arith)) finish_callback-Resumes

  raw_value-Total :
      (left wire_type : ℕ)
      → Total left (λ bs l. All IsByte bs) (on_stream {η = η} (read_raw_value {σ = σ} wire_type 10))
  unfolding on_stream with_stream
  raw_value-Total left wire_type = record {
    ends = λ bs err mem heap (fits, bytes).
        both mem heap (at bs left err)
          ((read_raw_value-IsSafe σ wire_type 10 (λ p. omega arith) (λ p. omega arith)).ends bs left
            err fits)
          (read_raw_value-Gives wire_type 10 bs left err fits bytes);
  }
    where
      both :
          {bs : List ℕ} (mem : Mem) (heap : η) (stream : IStream σ)
          {o : Outcome (IStream σ) (List ℕ)}
          → Ends bs left o
          → Gives (All IsByte) o
          → Finishes bs left
              (λ bs l. All IsByte bs)
              (with_stream o (record { stream = stream; mem = mem; heap = heap }))
      both mem heap stream (ends_ok v w) (gives_ok v' s q) = finishes_ok v (within-IsAhead w) q
      both mem heap stream (ends_fail w) g = finishes_fail (within-IsAhead w)

  -- On a buffer apart from the stream.
  buffer-Total :
      (left : ℕ) (buffer : List ℕ) (m : M (DecState σ η) (Unit {0}))
      → All IsByte buffer
      → IsCallback m
      → Total left Free (λ s1.
        bind_outcome
          (on_substream (istream_from_buffer buffer (length buffer)) m s1)
          λ (status, sub). answer status)
  unfolding on_substream hand_back
  buffer-Total left buffer m bytes h = record {
    ends = λ bs err mem heap fits.
        rw (istream_from_buffer-at {σ = σ} buffer (length buffer))
          (after bs err ((h (length buffer)).ends buffer none mem heap (omega arith, bytes)));
  }
    where
      after :
          {Q : Unit {0} → ℕ → Type 0} (bs : List ℕ) (err : Option ErrMsg)
          {o : Outcome (DecState σ η) (Unit {0})}
          → Finishes buffer (length buffer) Q o
          → Finishes bs left Free
              (bind_outcome (hand_back (at bs left err) o) λ (status, sub). answer status)
      after bs err (finishes_ok v w q) = finishes_ok tt (ahead_here bs left err) tt
      after bs err (finishes_fail w) = finishes_fail (ahead_here bs left err)

  callback_scalar-Total :
      (left wire_type : ℕ) (f : Field) (p : ℕ) → Total left Free (callback_scalar env wire_type f p)
  unfolding callback_scalar
  callback_scalar-Total left wire_type f p =
      Total-bind (λ bs l. All IsByte bs) (on_stream (read_raw_value wire_type 10)) _
        (raw_value-Total left wire_type)
        λ buffer l le bytes.
          Total-with (λ s. load s.mem 8 p)
            (λ callback s1.
              bind_outcome
                (on_substream (istream_from_buffer buffer (length buffer))
                  (env.decode_callback callback f (p + 8)) s1)
                λ (status, sub). answer status)
            (λ callback. buffer-Total l buffer _ bytes (callbacks callback f (p + 8)))

  -- decode_callback_field
  pub decode_callback_field-Total :
      (left wire_type : ℕ) (f : Field) (p : ℕ)
      → Total left Free (decode_callback_field env wire_type f p)
  unfolding decode_callback_field
  decode_callback_field-Total left wire_type f p =
      Total-with (λ s. (p == 0) || (load s.mem 8 p == 0)) _
        λ absent.
          Total-if absent _ _
            (λ e.
              Total-weaken (on_stream (skip_field wire_type)) (λ v l le q. tt)
                (on_stream-Total (skip_field wire_type) (skip_field-IsSafe σ wire_type)))
            λ n.
              Total-if (wire_type == 2) _ _ (λ e. callback_string-Total left f p)
                (λ n'. callback_scalar-Total left wire_type f p)
