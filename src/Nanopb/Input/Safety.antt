-- ===== src/Nanopb/Input/Safety.antt =====
-- A reader on a stream over memory: it ends, reads only bytes of the stream, in order, and leaves
-- the stream in step with the memory.
use test_gbksoft.Common.{ℕ, zero, suc, ◌+◌, ◌≤◌, ◌≡◌, refl, sym, ◌∙◌, ap, arith}
use test_gbksoft.Common.{Bool, true, false, if◌then◌else◌, Option, none, some}
use test_gbksoft.Common.{List, [], ◌∷◌, ◌++◌, length, length-append, take, drop, append_assoc}
use test_gbksoft.Common.Outcome.{Outcome, ok, fail, M, bind_outcome, catch_outcome, try, ◌>>=◌}
use test_gbksoft.Nanopb.Types.{ErrMsg, set_error}
use test_gbksoft.Nanopb.Input.{IStream, return_error, read, skip, readbyte}
use test_gbksoft.Nanopb.Input.Varint.{of_option}
use native.Mathlib.Decide.{dec_lt}
use test_gbksoft.Common.{take-append-drop, length-take, lt→ltb, le→ltb, ◌-◌}
use test_gbksoft.Nanopb.Input.Buffer.{at, readbyte-at, readbyte-end}

module _ {σ : Type 0} where
  -- `s'` is the stream over `mem` with `left` bytes to read, some bytes further on.
  pub record IsWithin (mem : List ℕ) (left : ℕ) (s' : IStream σ) : Type 0 where
    pub used : List ℕ
    pub rest : List ℕ
    pub left' : ℕ
    pub err' : Option ErrMsg
    pub state : s' ≡ at rest left' err'
    pub memory : mem ≡ used ++ rest
    pub count : left ≡ length used + left'

  -- No access out of range, no endless loop.
  pub data Ends {A : Type 0} (mem : List ℕ) (left : ℕ) : Outcome (IStream σ) A → Type 0 where
    ends_ok : (a : A) {s : IStream σ} → IsWithin mem left s → Ends mem left (ok a s)
    ends_fail : {s : IStream σ} → IsWithin mem left s → Ends mem left (fail s)

  pub record IsSafe {A : Type 0} (m : M (IStream σ) A) : Type 0 where
    pub ends :
        (mem : List ℕ) (left : ℕ) (err : Option ErrMsg)
        → left ≤ length mem
        → Ends mem left (m (at mem left err))

  pub within_here :
      (mem : List ℕ) (left : ℕ) (err : Option ErrMsg) → IsWithin mem left (at mem left err)
  within_here mem left err = record {
    used = [];
    rest = mem;
    left' = left;
    err' = err;
    state = refl;
    memory = refl;
    count = omega arith;
  }

  unfoldable pub within_trans :
      {mem : List ℕ} {left : ℕ} {s' s'' : IStream σ} (w : IsWithin mem left s')
      → IsWithin w.rest w.left' s''
      → IsWithin mem left s''
  within_trans w v = record {
    used = w.used ++ v.used;
    rest = v.rest;
    left' = v.left';
    err' = v.err';
    state = v.state;
    memory =
        w.memory
        ∙ ap (λ (t : List ℕ). w.used ++ t) v.memory
        ∙ sym (append_assoc w.used v.used v.rest);
    count = omega (arith, w.count, v.count, length-append w.used v.used);
  }

  pub within_fits :
      {mem : List ℕ} {left : ℕ} {s' : IStream σ} (w : IsWithin mem left s')
      → left ≤ length mem
      → w.left' ≤ length w.rest
  within_fits w h =
      omega (arith, w.count, ap (length {A = ℕ}) w.memory, length-append w.used w.rest)

  pub Ends-trans :
      {A : Type 0} {mem : List ℕ} {left : ℕ} {s' : IStream σ} (w : IsWithin mem left s')
      → {o : Outcome (IStream σ) A} → Ends w.rest w.left' o
      → Ends mem left o
  Ends-trans w (ends_ok a v) = ends_ok a (within_trans w v)
  Ends-trans w (ends_fail v) = ends_fail (within_trans w v)

  -- What goes on from a stream that is further on.
  pub Ends-from :
      {A : Type 0} {mem : List ℕ} {left : ℕ} {s' : IStream σ} (w : IsWithin mem left s')
      → (m : M (IStream σ) A) → left ≤ length mem
      → IsSafe m
      → Ends mem left (m s')
  Ends-from w m le h = rw w.state (Ends-trans w (h.ends w.rest w.left' w.err' (within_fits w le)))

  pub Ends-bind :
      {A B : Type 0} {mem : List ℕ} {left : ℕ} {o : Outcome (IStream σ) A} (k : A → M (IStream σ) B)
      → left ≤ length mem
      → ((a : A) → IsSafe (k a))
      → Ends mem left o
      → Ends mem left (bind_outcome o k)
  Ends-bind k le h (ends_ok a w) = Ends-from w (k a) le (h a)
  Ends-bind k le h (ends_fail w) = ends_fail w

  pub IsSafe-bind :
      {A B : Type 0} (m : M (IStream σ) A) (k : A → M (IStream σ) B)
      → IsSafe m
      → ((a : A) → IsSafe (k a))
      → IsSafe (m >>= k)
  IsSafe-bind m k hm hk = record {
    ends = λ mem left err le. Ends-bind k le hk (hm.ends mem left err le);
  }

  pub IsSafe-return : {A : Type 0} (a : A) → IsSafe (λ s. ok a s)
  IsSafe-return a = record { ends = λ mem left err le. ends_ok a (within_here mem left err) }

  pub IsSafe-error : {A : Type 0} (msg : ErrMsg) → IsSafe {A = A} (return_error msg)
  IsSafe-error msg = record { ends = λ mem left err le. ends_fail (within_here mem left _) }

  pub IsSafe-option : {A : Type 0} (o : Option A) → IsSafe (of_option o)
  IsSafe-option none = record { ends = λ mem left err le. ends_fail (within_here mem left err) }
  IsSafe-option (some a) = record { ends = λ mem left err le. ends_ok a (within_here mem left err) }

  pub Ends-catch :
      {A : Type 0} {mem : List ℕ} {left : ℕ} {o : Outcome (IStream σ) A}
      → Ends mem left o
      → Ends mem left (catch_outcome o)
  Ends-catch (ends_ok a w) = ends_ok (some a) w
  Ends-catch (ends_fail w) = ends_ok none w

  pub IsSafe-try : {A : Type 0} (m : M (IStream σ) A) → IsSafe m → IsSafe (try m)
  IsSafe-try m h = record { ends = λ mem left err le. Ends-catch (h.ends mem left err le) }

  pub Ends-if :
      {A : Type 0} {mem : List ℕ} {left : ℕ} (b : Bool) {x y : Outcome (IStream σ) A}
      → Ends mem left x
      → Ends mem left y
      → Ends mem left (if b then x else y)
  Ends-if true hx hy = hx
  Ends-if false hx hy = hy

  pub IsSafe-if :
      {A : Type 0} (b : Bool) (m n : M (IStream σ) A)
      → IsSafe m
      → IsSafe n
      → IsSafe (λ s. if b then m s else n s)
  IsSafe-if true m n hm hn = hm
  IsSafe-if false m n hm hn = hn

  unfoldable pub within_one :
      (b : ℕ) (mem : List ℕ) (left : ℕ) (err : Option ErrMsg)
      → IsWithin (b ∷ mem) (suc left) (at mem left err)
  within_one b mem left err = record {
    used = b ∷ [];
    rest = mem;
    left' = left;
    err' = err;
    state = refl;
    memory = refl;
    count = omega arith;
  }

  -- One byte later: a stop there, and going on.
  pub Ends-next :
      {A : Type 0} (b : ℕ) {mem : List ℕ} {left : ℕ} {o : Outcome (IStream σ) A}
      → Ends mem left o
      → Ends (b ∷ mem) (suc left) o
  unfolding within_one
  Ends-next b {mem} {left} h = Ends-trans (within_one b mem left none) h

  pub stop_ok :
      {A : Type 0} (a : A) (b : ℕ) (mem : List ℕ) (left : ℕ) (err : Option ErrMsg)
      → Ends (b ∷ mem) (suc left) (ok a (at mem left err))
  stop_ok a b mem left err = ends_ok a (within_one b mem left err)

  pub stop_error :
      {A : Type 0} (msg : ErrMsg) (b : ℕ) (mem : List ℕ) (left : ℕ) (err : Option ErrMsg)
      → Ends {A = A} (b ∷ mem) (suc left) (return_error msg (at mem left err))
  stop_error msg b mem left err = ends_fail (within_one b mem left (set_error err msg))

  unfoldable pub within_skip :
      (n : ℕ) (mem : List ℕ) (left : ℕ) (err : Option ErrMsg)
      → n ≤ left
      → left ≤ length mem
      → IsWithin mem left (at (drop n mem) (left - n) err)
  within_skip n mem left err h le = record {
    used = take n mem;
    rest = drop n mem;
    left' = left - n;
    err' = err;
    state = refl;
    memory = sym (take-append-drop n mem);
    count = omega (arith, length-take n mem (omega arith));
  }

module _ (σ : Type 0) where
  pub readbyte-IsSafe : IsSafe (readbyte {σ = σ})
  readbyte-IsSafe = record { ends = go }
    where
      go :
          (mem : List ℕ) (left : ℕ) (err : Option ErrMsg)
          → left ≤ length mem
          → Ends mem left (readbyte {σ = σ} (at mem left err))
      go mem zero err h = rw (readbyte-end mem err) (ends_fail (within_here mem 0 _))
      go [] (suc left) err h = absurd (omega arith)
      go (b ∷ mem) (suc left) err h =
          rw (readbyte-at b mem left err) (ends_ok b (within_one b mem left err))

  pub read-IsSafe : (n : ℕ) → IsSafe (read {σ = σ} n)
  unfolding read
  read-IsSafe n = record { ends = go }
    where
      go :
          (mem : List ℕ) (left : ℕ) (err : Option ErrMsg)
          → left ≤ length mem
          → Ends mem left (read {σ = σ} n (at mem left err))
      go mem left err h = elim (dec_lt left n) [
        | yes short ↦ rw (lt→ltb left n short) (ends_fail (within_here mem left _))
        | no fits ↦
            rw (le→ltb left n (omega arith), le→ltb (length mem) n (omega arith))
              (ends_ok _ (within_skip n mem left err (omega arith) h))
      ]

  pub skip-IsSafe : (n : ℕ) → IsSafe (skip {σ = σ} n)
  unfolding skip
  skip-IsSafe n = record { ends = go }
    where
      go :
          (mem : List ℕ) (left : ℕ) (err : Option ErrMsg)
          → left ≤ length mem
          → Ends mem left (skip {σ = σ} n (at mem left err))
      go mem left err h = elim (dec_lt left n) [
        | yes short ↦ rw (lt→ltb left n short) (ends_fail (within_here mem left _))
        | no fits ↦
            rw (le→ltb left n (omega arith))
              (ends_ok tt (within_skip n mem left err (omega arith) h))
      ]
