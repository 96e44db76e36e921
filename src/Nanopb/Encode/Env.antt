-- ===== src/Nanopb/Encode/Env.antt =====
-- What the encoder reads, and the user's callbacks that it calls.
use test_gbksoft.Common.{ℕ, List}
use test_gbksoft.Common.Outcome.{M}
use test_gbksoft.Nanopb.Types.{Field}
use test_gbksoft.Nanopb.Memory.{Mem}
use test_gbksoft.Nanopb.Output.{OStream}

-- `table` gives the descriptors from an address on. A callback is a function pointer: it is given
-- the stream, and the descriptor and the address of its argument, or the extension. What a
-- callback keeps for itself is not changed by encoding.
pub record Env (τ : Type 0) : Type 0 where
  pub mem : Mem
  pub table : ℕ → List Field
  pub encode_callback : ℕ → Field → ℕ → M (OStream τ) (Unit {0})
  pub encode_extension : ℕ → ℕ → M (OStream τ) (Unit {0})
