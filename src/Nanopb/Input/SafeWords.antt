-- ===== src/Nanopb/Input/SafeWords.antt =====
-- pb_decode_fixed32 and pb_decode_fixed64 on streams over memory.
use test_gbksoft.Common.{
  ℕ, ◌-◌, ◌≤◌, ◌≡◌, refl, arith, Option, List, [], ◌∷◌, length, take, drop, length-take,
}
use test_gbksoft.Common.{lt→ltb, le→ltb}
use native.Mathlib.Decide.{dec_lt}
use test_gbksoft.Common.Outcome.{ok, M, bind_outcome}
use test_gbksoft.Nanopb.Types.{ErrMsg}
use test_gbksoft.Nanopb.Input.{IStream, read}
use test_gbksoft.Nanopb.Input.Buffer.{at}
use test_gbksoft.Nanopb.Input.Wire.{fixed32_of, fixed64_of, decode_fixed32, decode_fixed64}
use test_gbksoft.Nanopb.Input.Safety.{Ends, ends_ok, ends_fail, IsSafe, within_here, within_skip}

module _ (σ : Type 0) where
  -- A word of `n` bytes that any `n` bytes give.
  unfoldable pub Gets : ℕ → (List ℕ → M (IStream σ) ℕ) → Type 0
  Gets n k = (bs : List ℕ) → length bs ≡ n → (v : ℕ) × ((s : IStream σ) → k bs s ≡ ok v s)

  word-IsSafe :
      (n : ℕ) (k : List ℕ → M (IStream σ) ℕ)
      → Gets n k
      → IsSafe (λ s. bind_outcome (read {σ = σ} n s) k)
  unfolding read Gets
  word-IsSafe n k h = record { ends = go }
    where
      go :
          (mem : List ℕ) (left : ℕ) (err : Option ErrMsg)
          → left ≤ length mem
          → Ends mem left (bind_outcome (read {σ = σ} n (at mem left err)) k)
      go mem left err fits = elim (dec_lt left n) [
        | yes short ↦ rw (lt→ltb left n short) (ends_fail (within_here mem left _))
        | no enough ↦
            let (v, e) = h (take n mem) (omega (arith, length-take n mem)) in
            rw
              (
                le→ltb left n (omega arith),
                le→ltb (length mem) n (omega arith),
                e (at (drop n mem) (left - n) err),
              )
              (ends_ok v (within_skip n mem left err (omega arith) fits))
      ]

  pub fixed32_of-Gets : Gets 4 fixed32_of
  unfolding Gets fixed32_of
  fixed32_of-Gets (a ∷ b ∷ c ∷ d ∷ rest) h = (_, λ s. refl)
  fixed32_of-Gets [] h = absurd (omega (arith, h))
  fixed32_of-Gets (a ∷ []) h = absurd (omega (arith, h))
  fixed32_of-Gets (a ∷ b ∷ []) h = absurd (omega (arith, h))
  fixed32_of-Gets (a ∷ b ∷ c ∷ []) h = absurd (omega (arith, h))

  pub fixed64_of-Gets : Gets 8 fixed64_of
  unfolding Gets fixed64_of
  fixed64_of-Gets (a ∷ b ∷ c ∷ d ∷ e ∷ f ∷ g ∷ i ∷ rest) h = (_, λ s. refl)
  fixed64_of-Gets [] h = absurd (omega (arith, h))
  fixed64_of-Gets (a ∷ []) h = absurd (omega (arith, h))
  fixed64_of-Gets (a ∷ b ∷ []) h = absurd (omega (arith, h))
  fixed64_of-Gets (a ∷ b ∷ c ∷ []) h = absurd (omega (arith, h))
  fixed64_of-Gets (a ∷ b ∷ c ∷ d ∷ []) h = absurd (omega (arith, h))
  fixed64_of-Gets (a ∷ b ∷ c ∷ d ∷ e ∷ []) h = absurd (omega (arith, h))
  fixed64_of-Gets (a ∷ b ∷ c ∷ d ∷ e ∷ f ∷ []) h = absurd (omega (arith, h))
  fixed64_of-Gets (a ∷ b ∷ c ∷ d ∷ e ∷ f ∷ g ∷ []) h = absurd (omega (arith, h))

  pub decode_fixed32-IsSafe : IsSafe (decode_fixed32 {σ = σ})
  unfolding decode_fixed32
  decode_fixed32-IsSafe = word-IsSafe 4 fixed32_of fixed32_of-Gets

  pub decode_fixed64-IsSafe : IsSafe (decode_fixed64 {σ = σ})
  unfolding decode_fixed64
  decode_fixed64-IsSafe = word-IsSafe 8 fixed64_of fixed64_of-Gets
