-- ===== src/Nanopb/Input/Fixed.antt =====
-- pb_decode_fixed32 and pb_decode_fixed64 on a stream over memory.
use test_gbksoft.Common.{ℕ, ◌+◌, ◌≡◌, Option, ap}
use test_gbksoft.Common.{List, [], ◌∷◌}
use test_gbksoft.Common.Outcome.{ok, bind_outcome, Outcome}
use test_gbksoft.Nanopb.Types.{ErrMsg}
use test_gbksoft.Nanopb.Input.{IStream}
use test_gbksoft.Nanopb.Input.Buffer.{at, read-at}
use test_gbksoft.Nanopb.Input.Wire.{fixed32_of, fixed64_of, decode_fixed32, decode_fixed64}
use test_gbksoft.Nanopb.Input.Wire.{word32, word64}

module _ {σ : Type 0} where
  pub decode_fixed32-four :
      (a b c d : ℕ) (rest : List ℕ) (left : ℕ) (err : Option ErrMsg)
      → decode_fixed32 {σ = σ} (at (a ∷ b ∷ c ∷ d ∷ rest) (4 + left) err)
        ≡ ok (word32 a b c d) (at rest left err)
  unfolding decode_fixed32
  decode_fixed32-four a b c d rest left err =
      ap (λ (o : Outcome (IStream σ) (List ℕ)). bind_outcome o fixed32_of)
        (read-at (a ∷ b ∷ c ∷ d ∷ []) rest left err)

  pub decode_fixed64-eight :
      (a b c d e f g h : ℕ) (rest : List ℕ) (left : ℕ) (err : Option ErrMsg)
      → decode_fixed64 {σ = σ} (at (a ∷ b ∷ c ∷ d ∷ e ∷ f ∷ g ∷ h ∷ rest) (8 + left) err)
        ≡ ok (word64 a b c d e f g h) (at rest left err)
  unfolding decode_fixed64
  decode_fixed64-eight a b c d e f g h rest left err =
      ap (λ (o : Outcome (IStream σ) (List ℕ)). bind_outcome o fixed64_of)
        (read-at (a ∷ b ∷ c ∷ d ∷ e ∷ f ∷ g ∷ h ∷ []) rest left err)
