-- ===== src/Nanopb/RoundTrip.antt =====
-- What pb_encode.c writes, pb_decode.c reads back.
pub mod Scalars
pub mod Fields
use test_gbksoft.Common.{ℕ, ◌+◌, ◌≡◌, Option, List, ◌++◌, length}
use test_gbksoft.Common.Outcome.{M, ok}
use test_gbksoft.Nanopb.Types.{ErrMsg}
use test_gbksoft.Nanopb.Input.{IStream}
use test_gbksoft.Nanopb.Input.Buffer.{at}
use test_gbksoft.Nanopb.Output.{OStream, write}

-- A writer that, on every stream, is one pb_write of the bytes.
abbrev pub Appends : {τ : Type 0} → M (OStream τ) (Unit {0}) → List ℕ → Type 0
Appends {τ} op bs = (s : OStream τ) → op s ≡ write bs s

-- A reader that takes just these bytes from any stream over memory where they come next, and
-- returns the value.
abbrev pub Reads : {σ A : Type 0} → M (IStream σ) A → List ℕ → A → Type 0
Reads op bs v =
    (rest : List ℕ) (left : ℕ) (err : Option ErrMsg)
    → op (at (bs ++ rest) (length bs + left) err) ≡ ok v (at rest left err)

-- The bytes that the writer appends are those that the reader takes for the value.
abbrev pub RoundTrips : {τ σ A : Type 0} → M (OStream τ) (Unit {0}) → M (IStream σ) A → A → Type 0
RoundTrips enc dec v = (bs : List ℕ) × Appends enc bs × Reads dec bs v
