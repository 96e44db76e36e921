-- ===== src/Nanopb/Decode/Total.antt =====
-- A decoder on a stream over memory: it ends, and never reads more than the stream promises.
use test_gbksoft.Common.{
  ℕ, ◌≤◌, ◌≡◌, refl, ap, arith, Bool, true, false, if◌then◌else◌, Option, List,
}
use test_gbksoft.Common.Outcome.{Outcome, ok, fail, M, bind_outcome}
use test_gbksoft.Nanopb.Iter.{with_field}
use test_gbksoft.Common.{some}
use test_gbksoft.Nanopb.Types.{Field, ErrMsg}
use test_gbksoft.Nanopb.Memory.{Mem}
use test_gbksoft.Nanopb.Input.{IStream}
use test_gbksoft.Nanopb.Input.Buffer.{at}
use test_gbksoft.Nanopb.Input.Safety.{Ends, ends_ok, ends_fail, IsSafe}
use test_gbksoft.Nanopb.Decode.State.{DecState, on_stream, with_stream, return_error}
use test_gbksoft.Nanopb.Input.Ahead.{
  Fits, IsAhead, ahead_here, ahead_trans, ahead-Fits, within-IsAhead,
}

module _ {σ η : Type 0} where
  -- No access out of the stream's range, no endless loop, and where it returns true, `Q` of the
  -- result and of the bytes that are left.
  pub data Finishes {A : Type 0} (bs : List ℕ) (left : ℕ) (Q : A → ℕ → Type 0)
      : Outcome (DecState σ η) A → Type 0 where
    finishes_ok :
        (v : A) {s : DecState σ η} (w : IsAhead bs left s.stream)
        → Q v w.left'
        → Finishes bs left Q (ok v s)
    finishes_fail : {s : DecState σ η} → IsAhead bs left s.stream → Finishes bs left Q (fail s)

  abbrev pub state_at : List ℕ → ℕ → Option ErrMsg → Mem → η → DecState σ η
  state_at bs left err mem heap = record { stream = at bs left err; mem = mem; heap = heap }

  -- From every state with so many bytes left.
  pub record Total {A : Type 0} (left : ℕ) (Q : A → ℕ → Type 0) (m : M (DecState σ η) A)
      : Type 0 where
    pub ends :
        (bs : List ℕ) (err : Option ErrMsg) (mem : Mem) (heap : η)
        → Fits bs left
        → Finishes bs left Q (m (state_at bs left err mem heap))

  pub Finishes-trans :
      {A : Type 0} {bs : List ℕ} {left : ℕ} {Q : A → ℕ → Type 0} {stream : IStream σ}
      (w : IsAhead bs left stream)
      → {o : Outcome (DecState σ η) A} → Finishes w.rest w.left' Q o
      → Finishes bs left Q o
  unfolding ahead_trans
  Finishes-trans w (finishes_ok v w' q) = finishes_ok v (ahead_trans w w') q
  Finishes-trans w (finishes_fail w') = finishes_fail (ahead_trans w w')

  -- From a state that is further on.
  pub Finishes-from :
      {A : Type 0} {bs : List ℕ} {left : ℕ} {Q : A → ℕ → Type 0} (k : M (DecState σ η) A)
      (s : DecState σ η) (w : IsAhead bs left s.stream)
      → Fits bs left
      → Total w.left' Q k
      → Finishes bs left Q (k s)
  Finishes-from {Q = Q} k s w fits h =
      let there : Finishes w.rest w.left' Q (k (record s { stream = at w.rest w.left' w.err' })) =
        h.ends w.rest w.err' s.mem s.heap (ahead-Fits w fits) in
      let same : k s ≡ k (record s { stream = at w.rest w.left' w.err' }) =
        ap (λ (t : IStream σ). k (record s { stream = t })) w.state in
      rw same (Finishes-trans w there)

  pub Finishes-bind :
      {A B : Type 0} {bs : List ℕ} {left : ℕ} {Q : A → ℕ → Type 0} {R : B → ℕ → Type 0}
      (k : A → M (DecState σ η) B)
      → Fits bs left
      → ((v : A) (left' : ℕ) → left' ≤ left → Q v left' → Total left' R (k v))
      → {o : Outcome (DecState σ η) A} → Finishes bs left Q o
      → Finishes bs left R (bind_outcome o k)
  Finishes-bind k fits h (finishes_ok v {s} w q) =
      Finishes-from (k v) s w fits (h v w.left' (omega (arith, w.count)) q)
  Finishes-bind k fits h (finishes_fail w) = finishes_fail w

  pub Total-bind :
      {A B : Type 0} {left : ℕ} (Q : A → ℕ → Type 0) {R : B → ℕ → Type 0} (m : M (DecState σ η) A)
      (k : A → M (DecState σ η) B)
      → Total left Q m
      → ((v : A) (left' : ℕ) → left' ≤ left → Q v left' → Total left' R (k v))
      → Total left R (λ s. bind_outcome (m s) k)
  Total-bind Q m k hm hk = record {
    ends = λ bs err mem heap fits. Finishes-bind k fits hk (hm.ends bs err mem heap fits);
  }

  -- A step that works on what is in the state.
  pub Total-with :
      {A B : Type 0} {left : ℕ} {Q : A → ℕ → Type 0} (g : DecState σ η → B)
      (k : B → M (DecState σ η) A)
      → ((b : B) → Total left Q (k b))
      → Total left Q (λ s. k (g s) s)
  Total-with {left = left} g k h = record {
    ends =
        λ bs err mem heap fits. (h (g (state_at bs left err mem heap))).ends bs err mem heap fits;
  }

  -- After a change of the memory.
  pub Total-after :
      {A : Type 0} {left : ℕ} {Q : A → ℕ → Type 0} (g : DecState σ η → Mem) (k : M (DecState σ η) A)
      → Total left Q k
      → Total left Q (λ s. k (record s { mem = g s }))
  Total-after {left = left} g k h = record {
    ends = λ bs err mem heap fits. h.ends bs err (g (state_at bs left err mem heap)) heap fits;
  }

  pub Total-if :
      {A : Type 0} {left : ℕ} {Q : A → ℕ → Type 0} (b : Bool) (m m' : M (DecState σ η) A)
      → (b ≡ true → Total left Q m)
      → (b ≡ false → Total left Q m')
      → Total left Q (λ s. if b then m s else m' s)
  Total-if true m m' h h' = h refl
  Total-if false m m' h h' = h' refl

  -- Where there is a descriptor.
  pub Total-field :
      {A : Type 0} {left : ℕ} {Q : A → ℕ → Type 0} (o : Option Field) (f : Field)
      (k : Field → M (DecState σ η) A)
      → o ≡ some f
      → Total left Q (k f)
      → Total left Q (λ s. with_field o (λ f. k f s))
  Total-field o f k e h = rw e h

  pub Finishes-if :
      {A : Type 0} {bs : List ℕ} {left : ℕ} {Q : A → ℕ → Type 0} (b : Bool)
      {o o' : Outcome (DecState σ η) A}
      → (b ≡ true → Finishes bs left Q o)
      → (b ≡ false → Finishes bs left Q o')
      → Finishes bs left Q (if b then o else o')
  Finishes-if true h h' = h refl
  Finishes-if false h h' = h' refl

  pub Total-ok :
      {A : Type 0} {left : ℕ} {Q : A → ℕ → Type 0} (v : A) → Q v left → Total left Q (λ s. ok v s)
  unfolding ahead_here
  Total-ok {left = left} v q = record {
    ends = λ bs err mem heap fits. finishes_ok v (ahead_here bs left err) q;
  }

  pub Total-fail : {A : Type 0} {left : ℕ} {Q : A → ℕ → Type 0} → Total left Q (λ s. fail s)
  Total-fail {left = left} = record {
    ends = λ bs err mem heap fits. finishes_fail (ahead_here bs left err);
  }

  pub Total-error :
      {A : Type 0} {left : ℕ} {Q : A → ℕ → Type 0} (msg : ErrMsg) → Total left Q (return_error msg)
  Total-error {left = left} msg = record {
    ends = λ bs err mem heap fits. finishes_fail (ahead_here bs left _);
  }

  pub Total-weaken :
      {A : Type 0} {left : ℕ} {Q R : A → ℕ → Type 0} (m : M (DecState σ η) A)
      → ((v : A) (left' : ℕ) → left' ≤ left → Q v left' → R v left')
      → Total left Q m
      → Total left R m
  Total-weaken {A} {left} {Q} {R} m h t = record {
    ends = λ bs err mem heap fits. weaken (t.ends bs err mem heap fits);
  }
    where
      weaken :
          {bs : List ℕ} {o : Outcome (DecState σ η) A} → Finishes bs left Q o → Finishes bs left R o
      weaken (finishes_ok v w q) = finishes_ok v w (h v w.left' (omega (arith, w.count)) q)
      weaken (finishes_fail w) = finishes_fail w

  pub on_stream-Total :
      {A : Type 0} {left : ℕ} (m : M (IStream σ) A)
      → IsSafe m
      → Total left (λ v left'. left' ≤ left) (on_stream m)
  unfolding on_stream with_stream within-IsAhead
  on_stream-Total {A} {left} m h = record {
    ends =
        λ bs err mem heap (fits, bytes). lifted mem heap (at bs left err) (h.ends bs left err fits);
  }
    where
      lifted :
          {bs : List ℕ} (mem : Mem) (heap : η) (stream : IStream σ) {o : Outcome (IStream σ) A}
          → Ends bs left o
          → Finishes bs left
              (λ v left'. left' ≤ left)
              (with_stream o (record { stream = stream; mem = mem; heap = heap }))
      lifted mem heap stream (ends_ok v w) =
          finishes_ok v (within-IsAhead w) (omega (arith, w.count))
      lifted mem heap stream (ends_fail w) = finishes_fail (within-IsAhead w)
