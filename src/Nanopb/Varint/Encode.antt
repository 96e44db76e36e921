-- ===== src/Nanopb/Varint/Encode.antt =====
-- pb_encode_varint writes the shortest varint of its value.
use test_gbksoft.Common.{ℕ, zero, suc, ◌+◌, ◌/◌, ◌%◌, ◌^◌, ◌≤◌, ◌<◌, ◌≡◌, refl, arith}
use test_gbksoft.Common.{List, [], ◌∷◌, length, some, bit_and, bit_or, leb}
use test_gbksoft.Common.{◌==◌}
use mathlib.Core.Option
use native.Mathlib.Decide.{dec_lt}
use native.Mathlib.Nat.{pow-suc}
use test_gbksoft.Common.{false, ap, sym, ◌∙◌}
use test_gbksoft.Common.Bits.{bit_and-mask, set_top_bit}
use test_gbksoft.Nanopb.Types.{IsU64}
use test_gbksoft.Nanopb.Varint.{value, IsVarint, varint_in, varint_of}
use test_gbksoft.Nanopb.Output.{OStream, write}
use test_gbksoft.Nanopb.Output.Primitives.{groups, clear_last, write_groups, encode_varint}

varint_in-low : (k v : ℕ) → v < 128 → varint_in (suc k) v ≡ v ∷ []
unfolding varint_in
varint_in-low k v h = ground arith

varint_in-high : (k v : ℕ) → 128 ≤ v → varint_in (suc k) v ≡ (v % 128 + 128) ∷ varint_in k (v / 128)
unfolding varint_in
varint_in-high k v h = ground arith

-- The byte that the loop stores.
loop_byte : (v : ℕ) → bit_or (bit_and v 0x7f) 0x80 % 2 ^ 8 ≡ v % 128 + 128
loop_byte v = omega (
  arith,
  bit_and-mask 7 v,
  set_top_bit (v % 128) (omega arith),
  set_top_bit (bit_and v 0x7f) (omega (arith, bit_and-mask 7 v)),
)

clear_last-single : (v : ℕ) → v < 128 → clear_last ((v + 128) ∷ []) ≡ v ∷ []
unfolding clear_last
clear_last-single v h = ground (arith, bit_and-mask 7 (v + 128))

groups-zero : (k : ℕ) → groups k 0 ≡ some []
unfolding groups
groups-zero zero = refl
groups-zero (suc k) = refl

groups-suc :
    (k v : ℕ)
    → 0 < v
    → groups (suc k) v ≡ Option.map (λ bs. (v % 128 + 128) ∷ bs) (groups k (v / 128))
unfolding groups
groups-suc k v h = rw (loop_byte v, positive) refl
  where
    positive : (v == 0) ≡ false
    positive = ground arith

-- What the loop stores for a value that is not 0, and the buffer once the last bit is cleared.
groups-varint_in :
    (k v : ℕ)
    → 0 < v
    → v < 128 ^ k
    → (b : ℕ) × (bs : List ℕ) × (groups k v ≡ some (b ∷ bs)) × (clear_last (b ∷ bs) ≡ varint_in k v)
unfolding clear_last
groups-varint_in zero v hv hk = absurd (omega arith)
groups-varint_in (suc k) v hv hk = elim (dec_lt v 128) [
  | yes low ↦ (
    v % 128 + 128,
    [],
    rw (groups-suc k v hv, quotient low, groups-zero k) refl,
    ground (arith, clear_last-single v low, varint_in-low k v low),
  )
  | no high ↦
      let (b, bs, e, c) =
        groups-varint_in k (v / 128) (omega arith) (omega (arith, pow-suc 128 k)) in
      (
        v % 128 + 128,
        b ∷ bs,
        rw (groups-suc k v hv, e) refl,
        ap (λ (t : List ℕ). (v % 128 + 128) ∷ t) c ∙ sym (varint_in-high k v (omega arith)),
      )
]
  where
    quotient : v < 128 → v / 128 ≡ 0
    quotient h = omega arith

IsVarint-cons : (b : ℕ) (bs : List ℕ) → (128 ≤ b) × (b < 256) → IsVarint bs → IsVarint (b ∷ bs)
IsVarint-cons b [] h w = absurd w
IsVarint-cons b (c ∷ bs) h w = (h.0, h.1, w)

varint_in-IsVarint :
    (k v : ℕ) → v < 128 ^ suc k → IsVarint (varint_in (suc k) v) × (value (varint_in (suc k) v) ≡ v)
varint_in-IsVarint zero v h = rw (varint_in-low 0 v (omega arith)) (omega arith)
varint_in-IsVarint (suc k) v h = elim (dec_lt v 128) [
  | yes low ↦ rw (varint_in-low (suc k) v low) (omega arith)
  | no high ↦
      let rest : v / 128 < 128 ^ suc k = omega (arith, pow-suc 128 (suc k)) in
      let (w, e) = varint_in-IsVarint k (v / 128) rest in
      rw (varint_in-high (suc k) v (omega arith))
        (IsVarint-cons (v % 128 + 128) _ (omega arith) w, omega (arith, e))
]

write_groups-cons :
    {τ : Type 0} (b : ℕ) (bs : List ℕ) (s : OStream τ)
    → write_groups (some (b ∷ bs)) s ≡ write (clear_last (b ∷ bs)) s
unfolding write_groups
write_groups-cons b bs s = refl

-- Up to 127 and from 128 on.
encode_varint-low :
    {τ : Type 0} (v : ℕ) (s : OStream τ) → v < 128 → encode_varint v s ≡ write (v ∷ []) s
unfolding encode_varint
encode_varint-low v s h = rw (fits h) (ground arith)
  where
    fits : v < 128 → v % 2 ^ 8 ≡ v
    fits h = omega arith

encode_varint-high :
    {τ : Type 0} (v : ℕ) (s : OStream τ)
    → 128 ≤ v
    → encode_varint v s ≡ write_groups (groups 10 v) s
unfolding encode_varint
encode_varint-high v s h = rw (late h)
  where
    late : 128 ≤ v → leb v 0x7f ≡ false
    late h = ground arith

-- On every stream, pb_encode_varint of a uint64_t is one pb_write of its shortest varint.
pub encode_varint-write :
    {τ : Type 0} (v : ℕ) (s : OStream τ) → IsU64 v → encode_varint v s ≡ write (varint_of v) s
unfolding varint_of
encode_varint-write v s h = elim (dec_lt v 128) [
  | yes low ↦ rw (varint_in-low 9 v low) (encode_varint-low v s low)
  | no high ↦
      let (b, bs, e, c) = groups-varint_in 10 v (omega arith) (omega arith) in
      rw (encode_varint-high v s (omega arith), e, write_groups-cons b bs s, c)
]

-- The varint of a uint64_t is well formed and means the number.
pub varint_of-IsVarint : (v : ℕ) → IsU64 v → IsVarint (varint_of v) × (value (varint_of v) ≡ v)
unfolding varint_of
varint_of-IsVarint v h = varint_in-IsVarint 9 v (omega arith)

length-varint_in :
    (k v : ℕ)
    → v < 128 ^ suc k
    → (1 ≤ length (varint_in (suc k) v)) × (length (varint_in (suc k) v) ≤ suc k)
length-varint_in zero v h = rw (varint_in-low 0 v (omega arith)) (omega arith)
length-varint_in (suc k) v h = elim (dec_lt v 128) [
  | yes low ↦ rw (varint_in-low (suc k) v low) (omega arith)
  | no high ↦
      let rest : v / 128 < 128 ^ suc k = omega (arith, pow-suc 128 (suc k)) in
      rw (varint_in-high (suc k) v (omega arith)) (omega (arith, length-varint_in k (v / 128) rest))
]

pub length-varint_of : (v : ℕ) → IsU64 v → (1 ≤ length (varint_of v)) × (length (varint_of v) ≤ 10)
unfolding varint_of
length-varint_of v h = length-varint_in 9 v (omega arith)

shortest_in :
    (k v : ℕ) (bs : List ℕ) → IsVarint bs → value bs ≡ v → length (varint_in k v) ≤ length bs
shortest_in zero v bs w e = unfold varint_in in omega arith
shortest_in (suc k) v [] w e = absurd w
shortest_in (suc k) v (b ∷ []) w e = rw (varint_in-low k v (omega arith)) (omega arith)
shortest_in (suc k) v (b ∷ c ∷ bs) w e = elim (dec_lt v 128) [
  | yes low ↦ rw (varint_in-low k v low) (omega arith)
  | no high ↦
      rw (varint_in-high k v (omega arith))
        (omega (arith, shortest_in k (v / 128) (c ∷ bs) w.2 (omega arith)))
]

-- No varint of the number is shorter than the one that pb_encode_varint writes.
pub varint_of_shortest :
    (v : ℕ) (bs : List ℕ) → IsVarint bs → value bs ≡ v → length (varint_of v) ≤ length bs
unfolding varint_of
varint_of_shortest v bs w e = shortest_in 10 v bs w e
