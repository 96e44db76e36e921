-- ===== src/Nanopb/Input/Takes.antt =====
-- Readers that take a byte at least where they return true.
use test_gbksoft.Common.{
  ℕ, zero, suc, ◌+◌, ◌*◌, ◌%◌, ◌^◌, ◌≤◌, ◌<◌, ◌≡◌, refl, arith, Bool, true, false, not, ◌&&◌,
  if◌then◌else◌, Option, none, some, List, [], ◌∷◌, length, bit_and, bit_or, leb, ◌==◌,
}
use test_gbksoft.Common.Bits.{bit_or_lt, bit_and-mask}
use test_gbksoft.Common.{All}
use mathlib.Core.Option.{some-injective}
use test_gbksoft.Common.{ap}
use test_gbksoft.Common.Outcome.{Outcome, ok, fail, fault, stuck, M, bind_outcome, catch_outcome}
use test_gbksoft.Nanopb.Types.{ErrMsg, IsU32, IsByte, varint_overflow}
use test_gbksoft.Nanopb.Input.{IStream, return_error, readbyte}
use test_gbksoft.Nanopb.Input.Buffer.{at, readbyte-at}
use test_gbksoft.Nanopb.Input.Safety.{
  IsWithin, Ends, ends_ok, ends_fail, within_trans, within_one, Ends-bind, IsSafe-return,
}
use test_gbksoft.Nanopb.Input.SafeReaders.{after_first_byte-IsSafe}
use test_gbksoft.Nanopb.Input.Varint.{
  varint32_loop, overflows32, after_first_byte, decode_varint32_eof,
}
use test_gbksoft.Nanopb.Input.Wire.{Tag, tag_of, decode_tag}

-- A result of 32 bits, if there is one.
abbrev Holds32 : Option ℕ × Bool → Type 0
Holds32 r = (v : ℕ) → r.0 ≡ some v → IsU32 v

-- What pb_decode_tag gives: a tag of 29 bits.
abbrev pub IsTag : Tag → Type 0
IsTag t = t.found ≡ true → t.tag < 2 ^ 29

tag_of-IsTag : (r : Option ℕ × Bool) → Holds32 r → IsTag (tag_of r)
unfolding tag_of
tag_of-IsTag (none, eof) h e = absurd (cc e)
tag_of-IsTag (some v, eof) h e = let fits = h v refl in ground arith

module _ {σ : Type 0} where
  -- It ends, and where it returns true it has taken a byte, and `Q` holds of the result.
  pub data Takes {A : Type 0} (mem : List ℕ) (left : ℕ) (Q : A → Type 0)
      : Outcome (IStream σ) A → Type 0 where
    takes_ok :
        (a : A) {s : IStream σ} (w : IsWithin mem left s)
        → w.left' < left
        → Q a
        → Takes mem left Q (ok a s)
    takes_fail : {s : IStream σ} → IsWithin mem left s → Takes mem left Q (fail s)

  -- What holds of the result, if there is one.
  pub data Gives {A : Type 0} (Q : A → Type 0) : Outcome (IStream σ) A → Type 0 where
    gives_ok : (a : A) (s : IStream σ) → Q a → Gives Q (ok a s)
    gives_fail : (s : IStream σ) → Gives Q (fail s)
    gives_fault : Gives Q fault
    gives_stuck : Gives Q stuck

  pub Gives-bind :
      {A B : Type 0} {Q : B → Type 0} {P : A → Type 0} {o : Outcome (IStream σ) A}
      (k : A → M (IStream σ) B)
      → Gives P o
      → ((a : A) (s : IStream σ) → P a → Gives Q (k a s))
      → Gives Q (bind_outcome o k)
  Gives-bind k (gives_ok a s p) h = h a s p
  Gives-bind k (gives_fail s) h = gives_fail s
  Gives-bind k gives_fault h = gives_fault
  Gives-bind k gives_stuck h = gives_stuck

  pub Gives-any : {A : Type 0} (o : Outcome (IStream σ) A) → Gives (λ a. Unit {0}) o
  Gives-any (ok a s) = gives_ok a s tt
  Gives-any (fail s) = gives_fail s
  Gives-any fault = gives_fault
  Gives-any stuck = gives_stuck

  pub Gives-error :
      {A : Type 0} {Q : A → Type 0} (msg : ErrMsg) (s : IStream σ) → Gives Q (return_error msg s)
  Gives-error msg s = gives_fail _

  pub Gives-if :
      {A : Type 0} {Q : A → Type 0} (b : Bool) {o o' : Outcome (IStream σ) A}
      → Gives Q o
      → Gives Q o'
      → Gives Q (if b then o else o')
  Gives-if true h h' = h
  Gives-if false h h' = h'

  -- One byte later.
  pub Takes-next :
      {A : Type 0} {Q : A → Type 0} (b : ℕ) {mem : List ℕ} {left : ℕ} {o : Outcome (IStream σ) A}
      → Ends mem left o
      → Gives Q o
      → Takes (b ∷ mem) (suc left) Q o
  unfolding within_trans within_one
  Takes-next b {mem} {left} (ends_ok a w) (gives_ok a' s q) =
      takes_ok a (within_trans (within_one b mem left none) w) (omega (arith, w.count)) q
  Takes-next b {mem} {left} (ends_fail w) g =
      takes_fail (within_trans (within_one b mem left none) w)

  varint32_loop-Gives :
      (fuel bitpos result : ℕ) (s : IStream σ)
      → IsU32 result
      → Gives IsU32 (varint32_loop fuel bitpos result s)
  unfolding varint32_loop
  varint32_loop-Gives zero bitpos result s h = gives_stuck
  varint32_loop-Gives (suc fuel) bitpos result s h =
      Gives-bind _ (Gives-any (readbyte s)) λ byte s' any.
        Gives-if (leb 32 bitpos && overflows32 bitpos result byte) (Gives-error varint_overflow s')
          (Gives-if (not (bit_and byte 0x80 == 0))
            (varint32_loop-Gives fuel ((bitpos + 7) % 2 ^ 8) _ s' (word byte (leb 32 bitpos)))
            (Gives-if ((bitpos + 7) % 2 ^ 8 == 35 && not (bit_and byte 0x70 == 0))
              (Gives-error varint_overflow s') (gives_ok _ s' (word byte (leb 32 bitpos)))))
    where
      word :
          (byte : ℕ) (b : Bool)
          → IsU32 (if b then result else bit_or result (bit_and byte 0x7f * 2 ^ bitpos % 2 ^ 32))
      word byte true = h
      word byte false = bit_or_lt 32 result _ h (omega arith)

  after_first_byte-Gives :
      (b : ℕ) (s : IStream σ) → IsByte b → Gives Holds32 (after_first_byte (some b) s)
  unfolding after_first_byte
  after_first_byte-Gives b s h = Gives-if _ (gives_ok _ _ (this b (omega (arith, h)))) (
      Gives-bind _ (caught (varint32_loop-Gives (suc s.bytes_left) 7 (bit_and b 0x7f) s small))
        λ r s' q. gives_ok _ _ q)
    where
      this : (n : ℕ) → IsU32 n → Holds32 (some n, false)
      this n lt v e = omega (arith, lt, some-injective n v e)

      small : IsU32 (bit_and b 0x7f)
      small = omega (arith, bit_and-mask 7 b)

      caught :
          {o : Outcome (IStream σ) ℕ}
          → Gives IsU32 o
          → Gives (λ r. (v : ℕ) → r ≡ some v → IsU32 v) (catch_outcome o)
      caught (gives_ok a s q) = gives_ok _ s (λ v e. this a q v (ap some (some-injective a v e)))
      caught (gives_fail s) = gives_ok none s (λ v e. absurd (cc e))
      caught gives_fault = gives_fault
      caught gives_stuck = gives_stuck

  -- pb_decode_tag where a byte is left.
  pub decode_tag-Takes :
      (mem : List ℕ) (left : ℕ) (err : Option ErrMsg)
      → suc left ≤ length mem
      → All IsByte mem
      → Takes mem (suc left) IsTag (decode_tag (at mem (suc left) err))
  unfolding decode_tag decode_varint32_eof
  decode_tag-Takes [] left err h bytes = absurd (omega (arith, h))
  decode_tag-Takes (b ∷ mem) left err h bytes =
      let fits : left ≤ length mem = omega (arith, h) in
      rw (readbyte-at b mem left err) (
        Takes-next b
          (Ends-bind _ fits (λ r. IsSafe-return (tag_of r))
            ((after_first_byte-IsSafe σ (some b)).ends mem left err fits))
          (Gives-bind _ (after_first_byte-Gives b (at mem left err) bytes.0)
            (λ r s q. gives_ok _ _ (tag_of-IsTag r q))))
