-- ===== src/Nanopb/Decode/TotalSub.antt =====
-- Calls on a substream, on every input.
use test_gbksoft.Common.{
  ℕ, ◌+◌, ◌-◌, ◌≤◌, ◌≡◌, refl, sym, ap, ◌∙◌, arith, ◌==◌, List, [], ◌++◌, length, length-append,
  append_assoc, drop, take, Option, none, some, take-append-drop, length-take, lt→ltb, le→ltb,
  Bool-cases, inl, inr,
}
use native.Mathlib.Decide.{dec_lt}
use test_gbksoft.Common.Outcome.{Outcome, ok, fail, M, bind_outcome}
use test_gbksoft.Nanopb.Types.{ErrMsg}
use test_gbksoft.Nanopb.Memory.{Mem}
use test_gbksoft.Nanopb.Input.{IStream}
use test_gbksoft.Nanopb.Input.Buffer.{at, skip_all}
use test_gbksoft.Nanopb.Input.Safety.{IsWithin, Ends, ends_ok, ends_fail}
use test_gbksoft.Nanopb.Input.SafeReaders.{decode_varint32-IsSafe}
use test_gbksoft.Nanopb.Input.Wire.{
  take_substream, make_string_substream, drained, finish_close, close_string_substream,
}
use test_gbksoft.Nanopb.Input.Ahead.{Fits, IsAhead, ahead-Fits, within-IsAhead}
use test_gbksoft.Nanopb.Decode.State.{DecState, on_stream, with_stream}
use test_gbksoft.Nanopb.Decode.Env.{on_substream, hand_back, answer}
use test_gbksoft.Nanopb.Decode.Total.{
  Finishes, finishes_ok, finishes_fail, state_at, Total, Finishes-trans, Finishes-from, Total-ok,
  Total-fail,
}
use test_gbksoft.Nanopb.Decode.TotalValues.{Free}

module _ {σ : Type 0} where
  -- pb_make_string_substream: the substream and the stream share the memory, and what both promise
  -- was promised before.
  data Splits (bs : List ℕ) (left : ℕ) : Outcome (IStream σ) (IStream σ) → Type 0 where
    splits_ok :
        (used rest : List ℕ) (size l : ℕ) (err : Option ErrMsg)
        → bs ≡ used ++ rest
        → length used + (size + l) ≤ left
        → Splits bs left (ok (at rest size err) (at rest l err))
    splits_fail : {s : IStream σ} → IsAhead bs left s → Splits bs left (fail s)

  take_substream-Splits :
      {bs : List ℕ} {left : ℕ} {s : IStream σ} (size : ℕ)
      → IsWithin bs left s
      → Splits bs left (take_substream size s)
  unfolding take_substream
  take_substream-Splits {bs} {left} size w = rw w.state (elim (dec_lt w.left' size) [
    | yes short ↦ rw (lt→ltb w.left' size short) (
        splits_fail (record {
          used = w.used;
          rest = w.rest;
          left' = w.left';
          err' = _;
          state = refl;
          memory = w.memory;
          count = omega (arith, w.count);
        }))
    | no enough ↦
        rw (le→ltb w.left' size (omega arith))
          (splits_ok w.used w.rest size (w.left' - size) w.err' w.memory (omega (arith, w.count)))
  ])

  make-Splits :
      (bs : List ℕ) (left : ℕ) (err : Option ErrMsg)
      → left ≤ length bs
      → Splits bs left (make_string_substream (at bs left err))
  unfolding make_string_substream
  make-Splits bs left err h = onward ((decode_varint32-IsSafe σ).ends bs left err h)
    where
      onward :
          {o : Outcome (IStream σ) ℕ}
          → Ends bs left o
          → Splits bs left (bind_outcome o take_substream)
      onward (ends_ok size w) = take_substream-Splits size w
      onward (ends_fail w) = splits_fail (within-IsAhead w)

  -- pb_close_string_substream moves the stream past the rest of the substream.
  Closed : List ℕ → ℕ → ℕ → IStream σ → Option ErrMsg → Type 0
  Closed rest size l sub err =
      (used rest' : List ℕ) × (err' : Option ErrMsg) × (rest ≡ used ++ rest')
      × (length used ≤ size)
      × (close_string_substream sub (at rest l err) ≡ ok tt (at rest' l err'))

  close-Closed :
      (rest : List ℕ) (size l : ℕ) (err : Option ErrMsg) (sub : IStream σ)
      → IsAhead rest size sub
      → size ≤ length rest
      → Closed rest size l sub err
  unfolding Closed close_string_substream drained finish_close
  close-Closed rest size l err sub w fits = elim (Bool-cases (w.left' == 0)) [
    | inl e ↦ (w.used, w.rest, w.err', w.memory, omega (arith, w.count), rw (w.state, e) refl)
    | inr n ↦
        let inside : w.left' ≤ length w.rest =
          omega (arith, w.count, ap (length {A = ℕ}) w.memory, length-append w.used w.rest) in
        (
          w.used ++ take w.left' w.rest,
          drop w.left' w.rest,
          w.err',
          w.memory
              ∙ ap (λ (t : List ℕ). w.used ++ t) (sym (take-append-drop w.left' w.rest))
              ∙ sym (append_assoc w.used (take w.left' w.rest) (drop w.left' w.rest)),
          omega (
            arith,
            w.count,
            length-append w.used (take w.left' w.rest),
            length-take w.left' w.rest inside,
          ),
          rw (w.state, n, skip_all w.left' w.rest w.err') refl,
        )
  ]

module _ {σ η : Type 0} where
  -- What ends on a substream: an error of the stream's, or pb_close_string_substream and what
  -- follows it.
  unfoldable pub Resumes :
      {A : Type 0} → ℕ → ℕ → (A → IStream σ → M (DecState σ η) (Unit {0})) → A → Type 0
  Resumes size l fin status =
      (rest : List ℕ) (err : Option ErrMsg) (sub : IStream σ) (mem : Mem) (heap : η)
      → IsAhead rest size sub
      → Fits rest (size + l)
      → Finishes rest (size + l) Free (fin status sub (state_at rest l err mem heap))

  -- The stream after the substream.
  pub close-Resumes :
      {A : Type 0} (size l : ℕ) (k : A → M (DecState σ η) (Unit {0})) (status : A)
      → ((l : ℕ) → Total l Free (k status))
      → Resumes size l
          (λ status sub s. bind_outcome (on_stream (close_string_substream sub) s) (λ _. k status))
          status
  unfolding Resumes on_stream with_stream Closed
  close-Resumes size l k status h rest err sub mem heap w fits =
      let (used, rest', err', split, short, closes) =
        close-Closed rest size l err sub w (omega (arith, fits.0)) in
      let there : IsAhead rest (size + l) (at rest' l err') = record {
        used = used;
        rest = rest';
        left' = l;
        err' = err';
        state = refl;
        memory = split;
        count = omega (arith, short);
      } in
      rw closes (Finishes-from (k status) (state_at rest' l err' mem heap) there fits (h l))

  -- An error instead.
  pub error-Resumes :
      {A : Type 0} (size l : ℕ) (k : M (DecState σ η) (Unit {0})) (status : A)
      → ((l : ℕ) → Total l Free k)
      → Resumes size l (λ status sub s. k s) status
  unfolding Resumes
  error-Resumes size l k status h rest err sub mem heap w fits =
      let there : IsAhead rest (size + l) (at rest l err) = record {
        used = [];
        rest = rest;
        left' = l;
        err' = err;
        state = refl;
        memory = refl;
        count = omega arith;
      } in
      Finishes-from k (state_at rest l err mem heap) there fits (h l)

  pub answer-Total :
      (status : Option (Unit {0})) (left : ℕ) → Total left Free (answer {σ = σ} {η = η} status)
  answer-Total none left = Total-fail
  answer-Total (some u) left = Total-ok tt tt

  -- A body `m` on the substream of a string, and `fin` behind it.
  pub substream-Total :
      {A : Type 0} {left : ℕ} (Q : A → ℕ → Type 0) (m : ℕ → M (DecState σ η) A)
      (fin : Option A → IStream σ → M (DecState σ η) (Unit {0}))
      → ((size : ℕ) → Total size Q (m size))
      → ((size l : ℕ) (status : Option A) → Resumes size l fin status)
      → Total left Free (λ s. bind_outcome (on_stream make_string_substream s) λ sub s1.
        bind_outcome (on_substream sub (m sub.bytes_left) s1) λ (status, sub'). fin status sub')
  unfolding on_stream with_stream on_substream hand_back Resumes
  substream-Total {A} {left} Q m fin hm hfin = record {
    ends = λ bs err mem heap fits.
        split fits mem heap (at bs left err) (make-Splits bs left err fits.0);
  }
    where
      resume :
          {rest : List ℕ} {size : ℕ} (l : ℕ) (err : Option ErrMsg) {o : Outcome (DecState σ η) A}
          → Fits rest (size + l)
          → Finishes rest size Q o
          → Finishes rest
              (size + l)
              Free
              (bind_outcome (hand_back (at rest l err) o) (λ (status, sub'). fin status sub'))
      resume {rest} {size} l err fits (finishes_ok v {s} w q) =
          hfin size l (some v) rest err s.stream s.mem s.heap w fits
      resume {rest} {size} l err fits (finishes_fail {s} w) =
          hfin size l none rest err s.stream s.mem s.heap w fits

      split :
          {bs : List ℕ} (fits : Fits bs left) (mem : Mem) (heap : η) (stream : IStream σ)
          {o : Outcome (IStream σ) (IStream σ)}
          → Splits bs left o
          → Finishes bs left Free (
              bind_outcome
                (with_stream o (record { stream = stream; mem = mem; heap = heap }))
                λ sub s1.
                  bind_outcome
                    (on_substream sub (m sub.bytes_left) s1)
                    λ (status, sub'). fin status sub')
      split {bs} fits mem heap stream (splits_ok used rest size l err e count) =
          let w : IsAhead bs left (at rest (size + l) err) = record {
            used = used;
            rest = rest;
            left' = size + l;
            err' = err;
            state = refl;
            memory = e;
            count = count;
          } in
          let inside : Fits rest (size + l) = ahead-Fits w fits in
          Finishes-trans w (
            resume l err inside
              ((hm size).ends rest err mem heap (omega (arith, inside.0), inside.1)))
      split fits mem heap stream (splits_fail w) = finishes_fail w
