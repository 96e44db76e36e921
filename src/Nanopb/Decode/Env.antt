-- ===== src/Nanopb/Decode/Env.antt =====
-- What the decoder reads besides the stream, the functions of the user and of the C library that it
-- calls, and calls on a substream.
use test_gbksoft.Common.{ℕ, List, Option, none, some}
use test_gbksoft.Common.Outcome.{Outcome, ok, fail, fault, stuck, M}
use test_gbksoft.Nanopb.Types.{Field}
use test_gbksoft.Nanopb.Memory.{Mem}
use test_gbksoft.Nanopb.Input.{IStream}
use test_gbksoft.Nanopb.Decode.State.{DecState}
use test_gbksoft.Nanopb.Decode.Allocate.{Realloc}

-- `table` gives the descriptors from an address on. A callback is a function pointer: it is given
-- the state with its stream, and the descriptor and the address of its argument, or the extension,
-- the tag and the wire type. `local` is the address of the variable fixed_count_size in the call of
-- pb_decode_noinit at a level of submessages.
pub record Env (σ η : Type 0) : Type 0 where
  pub table : ℕ → List Field
  pub realloc : Realloc η
  pub free : ℕ → Mem → η → Mem × η
  pub decode_callback : ℕ → Field → ℕ → M (DecState σ η) (Unit {0})
  pub handle_extension : ℕ → ℕ → ℕ → ℕ → M (DecState σ η) (Unit {0})
  pub local : ℕ → ℕ

module _ {σ η : Type 0} where
  unfoldable pub with_mem :
      DecState σ η → Outcome Mem (Unit {0}) → Outcome (DecState σ η) (Unit {0})
  with_mem s (ok _ mem) = ok tt (record s { mem = mem })
  with_mem s (fail mem) = fail (record s { mem = mem })
  with_mem s fault = fault
  with_mem s stuck = stuck

  -- A function of the memory.
  unfoldable pub on_mem : M Mem (Unit {0}) → M (DecState σ η) (Unit {0})
  unfolding with_mem
  on_mem m s = with_mem s (m s.mem)

  unfoldable pub hand_back :
      {A : Type 0}
      → IStream σ
      → Outcome (DecState σ η) A
      → Outcome (DecState σ η) (Option A × IStream σ)
  hand_back parent (ok a s) = ok (some a, s.stream) (record s { stream = parent })
  hand_back parent (fail s) = ok (none, s.stream) (record s { stream = parent })
  hand_back parent fault = fault
  hand_back parent stuck = stuck

  -- A call on a substream: what it gave if it returned true, and the substream as it left it.
  unfoldable pub on_substream :
      {A : Type 0} → IStream σ → M (DecState σ η) A → M (DecState σ η) (Option A × IStream σ)
  unfolding hand_back
  on_substream sub m s = hand_back s.stream (m (record s { stream = sub }))

  -- `return status`
  abbrev pub answer : Option (Unit {0}) → M (DecState σ η) (Unit {0})
  answer none s = fail s
  answer (some _) s = ok tt s
