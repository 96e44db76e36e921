-- ===== src/Nanopb/Decode/Confined.antt =====
-- A decoder on a stream over memory: it ends, reads only bytes of the stream, and stores only in a
-- range of addresses.
use test_gbksoft.Common.{
  ℕ, suc, ◌+◌, ◌≤◌, ◌<◌, ◌≡◌, refl, ap, ◌∙◌, ◌⊎◌, arith, Bool, true, false, if◌then◌else◌, Option,
  List, [], ◌∷◌, length,
}
use test_gbksoft.Common.Outcome.{Outcome, ok, fail, M, bind_outcome}
use test_gbksoft.Nanopb.Types.{ErrMsg}
use test_gbksoft.Nanopb.Memory.{Mem, store_bytes}
use test_gbksoft.Nanopb.Input.{IStream}
use test_gbksoft.Nanopb.Input.Buffer.{at}
use test_gbksoft.Nanopb.Input.Safety.{
  IsWithin, Ends, ends_ok, ends_fail, IsSafe, within_here, within_trans, within_fits,
}
use test_gbksoft.Nanopb.Decode.State.{DecState, on_stream, with_stream, return_error, put_bytes}

-- The same but for `n` bytes from `a` on.
abbrev pub Outside : ℕ → ℕ → Mem → Mem → Type 0
Outside a n mem mem' = (x : ℕ) → ((x < a) ⊎ (a + n ≤ x)) → mem' x ≡ mem x

pub store_bytes-Outside :
    (bs : List ℕ) (p : ℕ) (mem : Mem) (x : ℕ)
    → ((x < p) ⊎ (p + length bs ≤ x))
    → store_bytes bs p mem x ≡ mem x
unfolding store_bytes
store_bytes-Outside [] p mem x h = refl
store_bytes-Outside (b ∷ bs) p mem x h =
    ground (arith, store_bytes-Outside bs (suc p) mem x (later x h))
  where
    later :
        (x : ℕ) → ((x < p) ⊎ (p + length (b ∷ bs) ≤ x)) → ((x < suc p) ⊎ (suc p + length bs ≤ x))
    later x h = ground arith

module _ {σ η : Type 0} where
  -- No access out of the stream's range, no endless loop, no store out of the range.
  pub data Confined {A : Type 0} (a n : ℕ) (bs : List ℕ) (left : ℕ) (mem : Mem)
      : Outcome (DecState σ η) A → Type 0 where
    confined_ok :
        (v : A) {s : DecState σ η}
        → IsWithin bs left s.stream
        → Outside a n mem s.mem
        → Confined a n bs left mem (ok v s)
    confined_fail :
        {s : DecState σ η}
        → IsWithin bs left s.stream
        → Outside a n mem s.mem
        → Confined a n bs left mem (fail s)

  pub record IsConfined {A : Type 0} (a n : ℕ) (m : M (DecState σ η) A) : Type 0 where
    pub ends :
        (bs : List ℕ) (left : ℕ) (err : Option ErrMsg) (mem : Mem) (heap : η)
        → left ≤ length bs
        → Confined a n bs left mem (m (record { stream = at bs left err; mem = mem; heap = heap }))

  Confined-trans :
      {A : Type 0} {a n : ℕ} {bs : List ℕ} {left : ℕ} {mem mem' : Mem} {stream : IStream σ}
      (w : IsWithin bs left stream)
      → Outside a n mem mem'
      → {o : Outcome (DecState σ η) A} → Confined a n w.rest w.left' mem' o
      → Confined a n bs left mem o
  Confined-trans w out (confined_ok v w' out') =
      confined_ok v (within_trans w w') (λ x h. out' x h ∙ out x h)
  Confined-trans w out (confined_fail w' out') =
      confined_fail (within_trans w w') (λ x h. out' x h ∙ out x h)

  -- From a state that is further on.
  pub Confined-from :
      {A : Type 0} {a n : ℕ} {bs : List ℕ} {left : ℕ} {mem : Mem} (k : M (DecState σ η) A)
      (s : DecState σ η)
      → IsConfined a n k
      → IsWithin bs left s.stream
      → Outside a n mem s.mem
      → left ≤ length bs
      → Confined a n bs left mem (k s)
  Confined-from {a = a} {n = n} k s h w out fits =
      let there : Confined a n w.rest w.left' s.mem
          (k (record s { stream = at w.rest w.left' w.err' })) =
        h.ends w.rest w.left' w.err' s.mem s.heap (within_fits w fits) in
      let same : k s ≡ k (record s { stream = at w.rest w.left' w.err' }) =
        ap (λ (t : IStream σ). k (record s { stream = t })) w.state in
      rw same (Confined-trans w out there)

  pub IsConfined-bind :
      {A B : Type 0} {a n : ℕ} (m : M (DecState σ η) A) (k : A → M (DecState σ η) B)
      → IsConfined a n m
      → ((v : A) → IsConfined a n (k v))
      → IsConfined a n (λ s. bind_outcome (m s) k)
  IsConfined-bind {A} {B} {a} {n} m k hm hk = record {
    ends = λ bs left err mem heap fits. onward (hm.ends bs left err mem heap fits) fits;
  }
    where
      onward :
          {bs : List ℕ} {left : ℕ} {mem : Mem} {o : Outcome (DecState σ η) A}
          → Confined a n bs left mem o
          → left ≤ length bs
          → Confined a n bs left mem (bind_outcome o k)
      onward (confined_ok v {s} w out) fits = Confined-from (k v) s (hk v) w out fits
      onward (confined_fail w out) fits = confined_fail w out

  pub IsConfined-if :
      {A : Type 0} {a n : ℕ} (b : Bool) (m m' : M (DecState σ η) A)
      → (b ≡ true → IsConfined a n m)
      → (b ≡ false → IsConfined a n m')
      → IsConfined a n (λ s. if b then m s else m' s)
  IsConfined-if true m m' h h' = h refl
  IsConfined-if false m m' h h' = h' refl

  pub IsConfined-done : {a n : ℕ} → IsConfined a n (λ s. ok tt s)
  IsConfined-done = record {
    ends = λ bs left err mem heap fits. confined_ok tt (within_here bs left err) (λ x h. refl);
  }

  pub IsConfined-error :
      {A : Type 0} {a n : ℕ} (msg : ErrMsg) → IsConfined {A = A} a n (return_error msg)
  IsConfined-error msg = record {
    ends = λ bs left err mem heap fits. confined_fail (within_here bs left _) (λ x h. refl);
  }

  pub on_stream-IsConfined :
      {A : Type 0} {a n : ℕ} (m : M (IStream σ) A) → IsSafe m → IsConfined a n (on_stream m)
  unfolding on_stream with_stream
  on_stream-IsConfined {A} {a} {n} m h = record {
    ends = λ bs left err mem heap fits. lifted mem heap (at bs left err) (h.ends bs left err fits);
  }
    where
      lifted :
          {bs : List ℕ} {left : ℕ} (mem : Mem) (heap : η) (stream : IStream σ)
          {o : Outcome (IStream σ) A}
          → Ends bs left o
          → Confined a n bs left mem
              (with_stream o (record { stream = stream; mem = mem; heap = heap }))
      lifted mem heap stream (ends_ok v w) = confined_ok v w (λ x h. refl)
      lifted mem heap stream (ends_fail w) = confined_fail w (λ x h. refl)

  pub put_bytes-IsConfined :
      {a n : ℕ} (bs : List ℕ) (p : ℕ)
      → a ≤ p
      → p + length bs ≤ a + n
      → IsConfined a n (put_bytes bs p)
  put_bytes-IsConfined {a} {n} bs p low high = record {
    ends = λ input left err mem heap fits.
        confined_ok tt (within_here input left err)
          (λ x h. store_bytes-Outside bs p mem x (further x h));
  }
    where
      further : (x : ℕ) → ((x < a) ⊎ (a + n ≤ x)) → ((x < p) ⊎ (p + length bs ≤ x))
      further x h = ground arith
