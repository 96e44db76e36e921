-- ===== src/Nanopb/Input/Readers.antt =====
-- The readers of integers: each takes a byte at least where it returns true.
use test_gbksoft.Common.{
  ℕ, zero, suc, ◌-◌, ◌≤◌, ◌<◌, arith, List, [], ◌∷◌, length, take, drop, Option, bit_and, ◌==◌,
}
use test_gbksoft.Common.{length-take, lt→ltb, le→ltb}
use native.Mathlib.Decide.{dec_lt}
use test_gbksoft.Common.Outcome.{Outcome, ok, M, bind_outcome}
use test_gbksoft.Nanopb.Types.{ErrMsg}
use test_gbksoft.Nanopb.Input.{IStream, read}
use test_gbksoft.Nanopb.Input.Buffer.{at, readbyte-at, readbyte-end}
use test_gbksoft.Nanopb.Input.Safety.{ends_ok, within_here, within_skip, Ends-if}
use test_gbksoft.Nanopb.Input.SafeReaders.{varint_loop-Ends}
use test_gbksoft.Nanopb.Input.SafeWords.{Gets, fixed32_of-Gets, fixed64_of-Gets}
use test_gbksoft.Nanopb.Input.Varint.{varint_loop, decode_varint}
use test_gbksoft.Nanopb.Input.Wire.{
  decode_svarint, unzigzag, fixed32_of, fixed64_of, decode_fixed32, decode_fixed64,
}
use test_gbksoft.Nanopb.Input.Takes.{Takes, takes_ok, takes_fail, Takes-next, Gives-any}

abbrev pub Any : {A : Type 0} → A → Type 0
Any a = Unit {0}

module _ {σ : Type 0} where
  pub record IsReader {A : Type 0} (m : M (IStream σ) A) : Type 0 where
    pub takes :
        (mem : List ℕ) (left : ℕ) (err : Option ErrMsg)
        → left ≤ length mem
        → Takes mem left Any (m (at mem left err))

  IsReader-return :
      {A B : Type 0} (m : M (IStream σ) A) (f : A → B)
      → IsReader m
      → IsReader (λ s. bind_outcome (m s) (λ a s'. ok (f a) s'))
  IsReader-return {A} m f h = record {
    takes = λ mem left err fits. onward (h.takes mem left err fits);
  }
    where
      onward :
          {mem : List ℕ} {left : ℕ} {o : Outcome (IStream σ) A}
          → Takes mem left Any o
          → Takes mem left Any (bind_outcome o (λ a s'. ok (f a) s'))
      onward (takes_ok a w less q) = takes_ok (f a) w less tt
      onward (takes_fail w) = takes_fail w

  word-IsReader :
      (n : ℕ) (k : List ℕ → M (IStream σ) ℕ)
      → 0 < n
      → Gets σ n k
      → IsReader (λ s. bind_outcome (read {σ = σ} n s) k)
  unfolding read Gets within_skip
  word-IsReader n k positive h = record { takes = go }
    where
      go :
          (mem : List ℕ) (left : ℕ) (err : Option ErrMsg)
          → left ≤ length mem
          → Takes mem left Any (bind_outcome (read {σ = σ} n (at mem left err)) k)
      go mem left err fits = elim (dec_lt left n) [
        | yes short ↦ rw (lt→ltb left n short) (takes_fail (within_here mem left _))
        | no enough ↦
            let (v, e) = h (take n mem) (omega (arith, length-take n mem)) in
            rw
              (
                le→ltb left n (omega arith),
                le→ltb (length mem) n (omega arith),
                e (at (drop n mem) (left - n) err),
              )
              (takes_ok v (within_skip n mem left err (omega arith) fits) (omega arith) tt)
      ]

module _ (σ : Type 0) where
  pub decode_fixed32-IsReader : IsReader (decode_fixed32 {σ = σ})
  unfolding decode_fixed32
  decode_fixed32-IsReader = word-IsReader 4 fixed32_of (omega arith) (fixed32_of-Gets σ)

  pub decode_fixed64-IsReader : IsReader (decode_fixed64 {σ = σ})
  unfolding decode_fixed64
  decode_fixed64-IsReader = word-IsReader 8 fixed64_of (omega arith) (fixed64_of-Gets σ)

  pub decode_varint-IsReader : IsReader (decode_varint {σ = σ})
  unfolding decode_varint varint_loop
  decode_varint-IsReader = record { takes = go }
    where
      go :
          (mem : List ℕ) (left : ℕ) (err : Option ErrMsg)
          → left ≤ length mem
          → Takes mem left Any (varint_loop {σ = σ} 11 0 0 (at mem left err))
      go mem zero err h = rw (readbyte-end mem err) (takes_fail (within_here mem 0 _))
      go [] (suc left) err h = absurd (omega arith)
      go (b ∷ mem) (suc left) err h = rw (readbyte-at b mem left err) (
          Takes-next b
            (Ends-if (bit_and b 0x80 == 0) (ends_ok _ (within_here mem left err))
              (varint_loop-Ends σ 10 7 _ mem left err (omega arith) (omega arith) (omega arith)))
            (Gives-any _))

  pub decode_svarint-IsReader : IsReader (decode_svarint {σ = σ})
  unfolding decode_svarint
  decode_svarint-IsReader = IsReader-return decode_varint unzigzag decode_varint-IsReader
