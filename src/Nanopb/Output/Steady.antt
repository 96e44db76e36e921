-- ===== src/Nanopb/Output/Steady.antt =====
-- Writers that put the same text on every stream.
use test_gbksoft.Common.{ℕ, ◌+◌, ◌^◌, ◌≤◌, ◌<◌, ◌≡◌, refl, sym, ap, ◌∙◌, arith}
use test_gbksoft.Common.{Bool, true, false, if◌then◌else◌, Option, List, [], ◌++◌, length, drop}
use test_gbksoft.Common.{length-append, length-drop, append_assoc, append-nil, drop-drop}
use test_gbksoft.Common.Outcome.{Outcome, ok, fail, M, bind_outcome}
use native.Mathlib.Decide.{dec_lt}
use test_gbksoft.Nanopb.Types.{ErrMsg, set_error, stream_full}
use test_gbksoft.Nanopb.Output.{OStream, write, return_error}
use test_gbksoft.Nanopb.Output.Text.{Text, refused, nothing, and_then}
use test_gbksoft.Nanopb.Output.Buffer.{out, counting, write-out, write-out_full, write-counting}

module _ {τ : Type 0} where
  -- On a stream that counts, the count grows by `size`, or the writer fails.
  pub data Counted (good : Bool) (limit total : ℕ) (o : Outcome (OStream τ) (Unit {0}))
      : Type 0 where
    counted_ok :
        good ≡ true
        → (err : Option ErrMsg) → o ≡ ok tt (counting limit total err)
        → Counted good limit total o
    counted_fail : good ≡ false → (s : OStream τ) → o ≡ fail s → Counted good limit total o

  -- On a stream over a buffer, the bytes go behind those stored so far; or the writer fails, since it
  -- always does or there is no room, and what it has stored is within the limit.
  pub data Stored (good : Bool) (bs before after : List ℕ) (limit count : ℕ)
      (o : Outcome (OStream τ) (Unit {0})) : Type 0 where
    stored_ok :
        good ≡ true
        → count + length bs ≤ limit
        → (err : Option ErrMsg)
        → o ≡ ok tt (out (before ++ bs) (drop (length bs) after) limit (count + length bs) err)
        → Stored good bs before after limit count o
    stored_fail :
        (good ≡ true → limit < count + length bs)
        → (part : List ℕ) → count + length part ≤ limit
        → (err : Option ErrMsg)
        → o ≡ fail (out (before ++ part) (drop (length part) after) limit (count + length part) err)
        → Stored good bs before after limit count o

  pub record IsSteady (good : Bool) (bs : List ℕ) (op : M (OStream τ) (Unit {0})) : Type 0 where
    pub counted :
        (limit count : ℕ) (err : Option ErrMsg)
        → count + length bs < 2 ^ 64
        → Counted good limit (count + length bs) (op (counting limit count err))
    pub stored :
        (before after : List ℕ) (limit count : ℕ) (err : Option ErrMsg)
        → limit < 2 ^ 63
        → length bs < 2 ^ 63
        → count ≤ limit
        → limit ≤ count + length after
        → Stored good bs before after limit count (op (out before after limit count err))

  -- A writer that puts this text on every stream.
  pub record Writes (t : Text) (op : M (OStream τ) (Unit {0})) : Type 0 where
    pub steady : IsSteady t.0 t.1 op

  pub write-IsSteady : (bs : List ℕ) → IsSteady true bs (write bs)
  write-IsSteady bs = record {
    counted = λ limit count err h. counted_ok refl err (write-counting bs limit count err h);
    stored = fits;
  }
    where
      fits :
          (before after : List ℕ) (limit count : ℕ) (err : Option ErrMsg)
          → limit < 2 ^ 63
          → length bs < 2 ^ 63
          → count ≤ limit
          → limit ≤ count + length after
          → Stored true bs before after limit count (write bs (out before after limit count err))
      fits before after limit count err hl hb hc ha = elim (dec_lt limit (count + length bs)) [
        | yes full ↦
            stored_fail (λ e. full) [] (omega arith) (set_error err stream_full)
              (write-out_full bs before after limit count err full (omega arith)
                ∙ rw (append-nil before, plus_zero count) refl)
        | no room ↦
            stored_ok refl (omega arith) err
              (write-out bs before after limit count err (omega arith) (omega arith) (omega arith))
      ]
        where
          plus_zero : (n : ℕ) → n + 0 ≡ n
          plus_zero n = omega arith

  pub done-IsSteady : IsSteady true [] (λ s. ok tt s)
  done-IsSteady = record {
    counted = λ limit count err h. counted_ok refl err (rw (plus_nil count) refl);
    stored = λ before after limit count err hl hb hc ha.
        stored_ok refl (omega arith) err (rw (append-nil before, plus_nil count) refl);
  }
    where
      plus_nil : (n : ℕ) → n + 0 ≡ n
      plus_nil n = omega arith

  pub error-IsSteady : (msg : ErrMsg) → IsSteady false [] (return_error msg)
  error-IsSteady msg = record {
    counted = λ limit count err h. counted_fail refl _ refl;
    stored = λ before after limit count err hl hb hc ha.
        stored_fail (λ e. cc) [] (omega arith) (set_error err msg)
          (rw (append-nil before, plus_nil count) refl);
  }
    where
      plus_nil : (n : ℕ) → n + 0 ≡ n
      plus_nil n = omega arith

  -- One writer after another.
  pub IsSteady-bind :
      {g : Bool} {bs cs : List ℕ} (op op' : M (OStream τ) (Unit {0}))
      → IsSteady true bs op
      → IsSteady g cs op'
      → IsSteady g (bs ++ cs) (λ s. bind_outcome (op s) (λ _. op'))
  IsSteady-bind {g} {bs} {cs} op op' h h' = record { counted = counts; stored = stores }
    where
      both : length (bs ++ cs) ≡ length bs + length cs
      both = length-append bs cs

      sum : (n : ℕ) → n + length bs + length cs ≡ n + length (bs ++ cs)
      sum n = omega (arith, both)

      rest :
          (after : List ℕ)
          → drop (length cs) (drop (length bs) after) ≡ drop (length (bs ++ cs)) after
      rest after = drop-drop (length cs) (length bs) after ∙ ap (λ (n : ℕ). drop n after) (sym both)

      part_sum : (n : ℕ) (part : List ℕ) → n + length bs + length part ≡ n + length (bs ++ part)
      part_sum n part = omega (arith, length-append bs part)

      counts :
          (limit count : ℕ) (err : Option ErrMsg)
          → count + length (bs ++ cs) < 2 ^ 64
          → Counted g limit
              (count + length (bs ++ cs))
              (bind_outcome (op (counting limit count err)) (λ _. op'))
      counts limit count err lt = elim (h.counted limit count err (omega (arith, both))) [
        | counted_ok t err' e ↦
            rw (e, ← sum count) (h'.counted limit (count + length bs) err' (omega (arith, both)))
        | counted_fail t s e ↦ absurd (cc t)
      ]

      stores :
          (before after : List ℕ) (limit count : ℕ) (err : Option ErrMsg)
          → limit < 2 ^ 63
          → length (bs ++ cs) < 2 ^ 63
          → count ≤ limit
          → limit ≤ count + length after
          → Stored g
              (bs ++ cs)
              before
              after
              limit
              count
              (bind_outcome (op (out before after limit count err)) (λ _. op'))
      stores before after limit count err hl hb hc ha =
          elim (h.stored before after limit count err hl (omega (arith, both)) hc ha) [
            | stored_ok t fits err' e ↦
                rw e
                  (elim (h'.stored (before ++ bs) (drop (length bs) after) limit (count + length bs)
                    err' hl (omega (arith, both)) fits
                    (omega (arith, length-drop (length bs) after))) [
                      | stored_ok t' fits' err'' e' ↦
                          stored_ok t' (omega (arith, both)) err''
                            (e' ∙ rw (append_assoc before bs cs, rest after, sum count) refl)
                      | stored_fail full part within err'' e' ↦
                          stored_fail (λ t'. omega (arith, both, full t')) (bs ++ part)
                            (omega (arith, length-append bs part)) err''
                            (e'
                              ∙ rw
                                  (
                                    append_assoc before bs part,
                                    drop-drop (length part) (length bs) after,
                                    ← length-append bs part,
                                    part_sum count part,
                                  )
                                  refl)
                    ])
            | stored_fail full part within err' e ↦
                rw e (stored_fail (λ t'. omega (arith, both, full refl)) part within err' refl)
          ]

  -- After a writer that fails, nothing is called.
  pub IsSteady-failed :
      {bs : List ℕ} (op op' : M (OStream τ) (Unit {0}))
      → IsSteady false bs op
      → IsSteady false bs (λ s. bind_outcome (op s) (λ _. op'))
  IsSteady-failed {bs} op op' h = record { counted = counts; stored = stores }
    where
      counts :
          (limit count : ℕ) (err : Option ErrMsg)
          → count + length bs < 2 ^ 64
          → Counted false limit
              (count + length bs)
              (bind_outcome (op (counting limit count err)) (λ _. op'))
      counts limit count err lt = elim (h.counted limit count err lt) [
        | counted_ok t err' e ↦ absurd (cc t)
        | counted_fail t s e ↦ rw e (counted_fail refl s refl)
      ]

      stores :
          (before after : List ℕ) (limit count : ℕ) (err : Option ErrMsg)
          → limit < 2 ^ 63
          → length bs < 2 ^ 63
          → count ≤ limit
          → limit ≤ count + length after
          → Stored false bs before after limit count
              (bind_outcome (op (out before after limit count err)) (λ _. op'))
      stores before after limit count err hl hb hc ha =
          elim (h.stored before after limit count err hl hb hc ha) [
            | stored_ok t fits err' e ↦ absurd (cc t)
            | stored_fail full part within err' e ↦ rw e (stored_fail full part within err' refl)
          ]

  pub Writes-bind :
      {t u : Text} (op op' : M (OStream τ) (Unit {0}))
      → Writes t op
      → Writes u op'
      → Writes (and_then t u) (λ s. bind_outcome (op s) (λ _. op'))
  Writes-bind {t = (true, bs)} {u = (g, cs)} op op' h h' = record {
    steady = IsSteady-bind op op' h.steady h'.steady;
  }
  Writes-bind {t = (false, bs)} op op' h h' = record { steady = IsSteady-failed op op' h.steady }

  pub Writes-if :
      {t u : Text} (b : Bool) (op op' : M (OStream τ) (Unit {0}))
      → Writes t op
      → Writes u op'
      → Writes (if b then t else u) (λ s. if b then op s else op' s)
  Writes-if true op op' w w' = w
  Writes-if false op op' w w' = w'

  -- The same, where the test is known in each branch.
  pub Writes-case :
      {t u : Text} (b : Bool) (op op' : M (OStream τ) (Unit {0}))
      → (b ≡ true → Writes t op)
      → (b ≡ false → Writes u op')
      → Writes (if b then t else u) (λ s. if b then op s else op' s)
  Writes-case true op op' w w' = w refl
  Writes-case false op op' w w' = w' refl

  pub Writes-done : Writes nothing (λ s. ok tt s)
  Writes-done = record { steady = done-IsSteady }

  pub Writes-error : (msg : ErrMsg) → Writes refused (return_error msg)
  Writes-error msg = record { steady = error-IsSteady msg }

  pub Writes-write : (bs : List ℕ) → Writes (true, bs) (write bs)
  Writes-write bs = record { steady = write-IsSteady bs }
