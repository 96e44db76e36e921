-- ===== src/Nanopb/Varint.antt =====
-- The base-128 varint format of protocol buffers: what its bytes mean, apart from the code.
pub mod Decode
pub mod Decode32
pub mod Encode
pub mod Wrap32
use native.Mathlib.Numerals.{towards_suc}
use test_gbksoft.Common.{ℕ, zero, suc, ◌+◌, ◌*◌, ◌/◌, ◌%◌, ◌^◌, ◌≤◌, ◌<◌, ◌≡◌, arith, ltb}
use test_gbksoft.Common.{if◌then◌else◌, List, [], ◌∷◌, length, ◌≢◌}

-- Seven bits a byte, the lowest first.
abbrev pub value : List ℕ → ℕ
value [] = 0
value (b ∷ bs) = b % 128 + 128 * value bs

-- Bytes of which all but the last have the top bit set.
abbrev pub IsVarint : List ℕ → Type 0
IsVarint [] = ⊥
IsVarint (b ∷ []) = b < 128
IsVarint (b ∷ c ∷ bs) = (128 ≤ b) × (b < 256) × IsVarint (c ∷ bs)

-- A byte that another follows.
abbrev pub IsContinued : ℕ → Type 0
IsContinued b = (128 ≤ b) × (b < 256)

-- The shortest varint of `v`, with at most `k` bytes.
unfoldable pub varint_in : ℕ → ℕ → List ℕ
varint_in zero v = []
varint_in (suc k) v =
    let rest = varint_in k (v / 128) in if ltb v 128 then v ∷ [] else (v % 128 + 128) ∷ rest

-- The varint of a uint64_t.
unfoldable pub varint_of : ℕ → List ℕ
varint_of v = varint_in 10 v

mul_suc_seven : (j : ℕ) → 7 * suc j ≡ 7 * j + 7
mul_suc_seven j = omega arith

pub seven_more : (j : ℕ) → 2 ^ (7 * suc j) ≡ 128 * 2 ^ (7 * j)
seven_more j = rw (mul_suc_seven j) (simp towards_suc (omega arith))
