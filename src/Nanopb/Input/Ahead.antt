-- ===== src/Nanopb/Input/Ahead.antt =====
-- A stream over memory from which bytes have been read, perhaps by way of a substream.
use test_gbksoft.Common.{
  ℕ, ◌+◌, ◌≤◌, ◌≡◌, refl, ap, ◌∙◌, sym, arith, Option, List, [], ◌∷◌, ◌++◌, length, length-append,
  append_assoc, All,
}
use test_gbksoft.Nanopb.Types.{ErrMsg, IsByte}
use test_gbksoft.Nanopb.Input.{IStream}
use test_gbksoft.Nanopb.Input.Buffer.{at}
use test_gbksoft.Nanopb.Input.Safety.{IsWithin}

-- The memory has the bytes that the stream promises.
abbrev pub Fits : List ℕ → ℕ → Type 0
Fits bs left = (left ≤ length bs) × All IsByte bs

pub All-rest : (xs ys : List ℕ) → All IsByte (xs ++ ys) → All IsByte ys
All-rest [] ys h = h
All-rest (x ∷ xs) ys h = All-rest xs ys h.1

module _ {σ : Type 0} where
  -- The stream is further on; what it read and what it still promises was promised before.
  pub record IsAhead (bs : List ℕ) (left : ℕ) (s : IStream σ) : Type 0 where
    pub used : List ℕ
    pub rest : List ℕ
    pub left' : ℕ
    pub err' : Option ErrMsg
    pub state : s ≡ at rest left' err'
    pub memory : bs ≡ used ++ rest
    pub count : length used + left' ≤ left

  unfoldable pub ahead_here :
      (bs : List ℕ) (left : ℕ) (err : Option ErrMsg) → IsAhead bs left (at bs left err)
  ahead_here bs left err = record {
    used = [];
    rest = bs;
    left' = left;
    err' = err;
    state = refl;
    memory = refl;
    count = omega arith;
  }

  unfoldable pub ahead_trans :
      {bs : List ℕ} {left : ℕ} {s s' : IStream σ} (w : IsAhead bs left s)
      → IsAhead w.rest w.left' s'
      → IsAhead bs left s'
  ahead_trans w v = record {
    used = w.used ++ v.used;
    rest = v.rest;
    left' = v.left';
    err' = v.err';
    state = v.state;
    memory =
        w.memory
        ∙ ap (λ (t : List ℕ). w.used ++ t) v.memory
        ∙ sym (append_assoc w.used v.used v.rest);
    count = omega (arith, w.count, v.count, length-append w.used v.used);
  }

  pub ahead-Fits :
      {bs : List ℕ} {left : ℕ} {s : IStream σ} (w : IsAhead bs left s)
      → Fits bs left
      → Fits w.rest w.left'
  ahead-Fits {bs} {left} w (h, bytes) = (
    omega (arith, w.count, ap (length {A = ℕ}) w.memory, length-append w.used w.rest),
    All-rest w.used w.rest (all w.memory),
  )
    where
      all : bs ≡ w.used ++ w.rest → All IsByte (w.used ++ w.rest)
      all e = rw (← e) bytes

  unfoldable pub within-IsAhead :
      {bs : List ℕ} {left : ℕ} {s : IStream σ} → IsWithin bs left s → IsAhead bs left s
  within-IsAhead w = record {
    used = w.used;
    rest = w.rest;
    left' = w.left';
    err' = w.err';
    state = w.state;
    memory = w.memory;
    count = omega (arith, w.count);
  }
