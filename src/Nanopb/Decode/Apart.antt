-- ===== src/Nanopb/Decode/Apart.antt =====
-- Loads from memory that a store elsewhere does not change.
use test_gbksoft.Common.{
  ◌*◌, ◌<◌, ◌≤◌, ◌⊎◌, inl, inr, ap, List, [], ◌∷◌, length, ℕ, zero, suc, ◌+◌, ◌%◌, ◌^◌, ◌≡◌, refl,
  arith,
}
use test_gbksoft.Nanopb.Memory.{Mem, load, store, length-little_endian, little_endian}
use test_gbksoft.Nanopb.Decode.Confined.{store_bytes-Outside}

-- Memories that agree on the bytes read.
pub load_agree :
    (mem mem' : Mem) (n a : ℕ)
    → ((x : ℕ) → a ≤ x → x < a + n → mem x ≡ mem' x)
    → load mem n a ≡ load mem' n a
unfolding load
load_agree mem mem' zero a h = refl
load_agree mem mem' (suc n) a h = omega (
  arith,
  ap (λ (b : ℕ). b % 2 ^ 8) (h a (omega arith) (omega arith)),
  load_agree mem mem' n (suc a) (λ x lo hi. h x (omega (arith, lo)) (omega (arith, hi))),
)

abbrev pub Apart : ℕ → ℕ → ℕ → ℕ → Type 0
Apart a n b m = (a + n ≤ b) ⊎ (b + m ≤ a)

pub load-store-Apart :
    (mem : Mem) (n a m b v : ℕ) → Apart a n b m → load (store m b v mem) n a ≡ load mem n a
load-store-Apart mem n a m b v apart =
    load_agree _ mem n a
      λ x lo hi. store_bytes-Outside (little_endian m v) b mem x (outside x lo hi apart)
  where
    outside :
        (x : ℕ) → a ≤ x → x < a + n → Apart a n b m → (x < b) ⊎ (b + length (little_endian m v) ≤ x)
    outside x lo hi (inl h) = inl (omega (arith, h, hi))
    outside x lo hi (inr h) = inr (omega (arith, h, lo, length-little_endian m v))

-- The pointers in an array of them.
unfoldable pub pointers : Mem → ℕ → ℕ → List ℕ
pointers mem zero p = []
pointers mem (suc count) p = load mem 8 p ∷ pointers mem count (p + 8)

pub pointers_agree :
    (mem mem' : Mem) (count p : ℕ)
    → ((x : ℕ) → p ≤ x → x < p + 8 * count → mem x ≡ mem' x)
    → pointers mem count p ≡ pointers mem' count p
unfolding pointers
pointers_agree mem mem' zero p h = refl
pointers_agree mem mem' (suc count) p h =
    rw
      (
        load_agree mem mem' 8 p (λ x lo hi. h x lo (omega (arith, hi))),
        pointers_agree mem mem' count (p + 8)
            (λ x lo hi. h x (omega (arith, lo)) (omega (arith, hi))),
      )
      refl
