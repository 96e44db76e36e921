-- ===== src/Nanopb/Encode/Numbers.antt =====
-- The helpers of the encoders against the wire format: integers with a sign, zigzag numbers, wire
-- types and the length of a string.
use test_gbksoft.Common.{ℕ, zero, suc, ◌+◌, ◌^◌, ◌≤◌, ◌≡◌, arith}
use test_gbksoft.Common.{◌==◌}
use test_gbksoft.Common.{Bool-cases, inl, inr, refl, ap, List, ◌∷◌, ◌*◌, ◌%◌}
use test_gbksoft.Nanopb.Types.{ltype, IsU64}
use test_gbksoft.Nanopb.Memory.{Mem, load, load_lt, sign_extend, bytes_at}
use test_gbksoft.Nanopb.Output.Primitives.{zigzag, wire_type_of}
use test_gbksoft.Nanopb.Encode.Wire.{wire_of, zigzag_number, int64_of, chars_at}
use test_gbksoft.Nanopb.Encode.Values.{string_size}

string_size-le : (mem : Mem) (n p : ℕ) → string_size mem n p ≤ n
unfolding string_size
string_size-le mem zero p = omega arith
string_size-le mem (suc n) p = ground (arith, string_size-le mem n (suc p))

pub string_size-fits : (mem : Mem) (n p : ℕ) → IsU64 n → IsU64 (string_size mem n p)
string_size-fits mem n p h = omega (arith, string_size-le mem n p)

pub chars_at-bytes_at :
    (mem : Mem) (n p : ℕ) → bytes_at mem (string_size mem n p) p ≡ chars_at mem n p
unfolding chars_at bytes_at string_size load
chars_at-bytes_at mem zero p = refl
chars_at-bytes_at mem (suc n) p = elim (Bool-cases (mem p % 2 ^ 8 == 0)) [
  | inl e ↦ rw (char, e) refl
  | inr e ↦ rw (char, e) (ap (λ (t : List ℕ). mem p % 2 ^ 8 ∷ t) (chars_at-bytes_at mem n (suc p)))
]
  where
    char : mem p % 2 ^ 8 + 2 ^ 8 * 0 ≡ mem p % 2 ^ 8
    char = omega arith

pub int8_of : (mem : Mem) (a : ℕ) → sign_extend 8 (load mem 1 a) ≡ int64_of 8 (load mem 1 a)
int8_of mem a = ground (arith, load_lt mem 1 a)

pub int16_of : (mem : Mem) (a : ℕ) → sign_extend 16 (load mem 2 a) ≡ int64_of 16 (load mem 2 a)
int16_of mem a = ground (arith, load_lt mem 2 a)

pub int32_of : (mem : Mem) (a : ℕ) → sign_extend 32 (load mem 4 a) ≡ int64_of 32 (load mem 4 a)
int32_of mem a = ground (arith, load_lt mem 4 a)

pub zigzag-number : (v : ℕ) → IsU64 v → zigzag v ≡ zigzag_number v
zigzag-number v h = ground arith

pub wire_type_of-wire_of : (type : ℕ) → wire_type_of type ≡ wire_of (ltype type)
wire_type_of-wire_of type = ground arith
