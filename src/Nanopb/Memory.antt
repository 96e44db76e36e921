-- ===== src/Nanopb/Memory.antt =====
-- Memory, and the loads of the code from it. The processors of the app are little-endian; a
-- pointer has 64 bits, and NULL is 0.
use test_gbksoft.Common.{
  ℕ, zero, suc, ◌+◌, ◌-◌, ◌*◌, ◌/◌, ◌%◌, ◌^◌, ◌<◌, ◌≤◌, ap, leb, ◌==◌, if◌then◌else◌, arith,
}
use test_gbksoft.Common.{◌≡◌, refl, List, [], ◌∷◌, length}
use native.Mathlib.Nat.{pow-suc}

-- The byte at an address. Messages and their descriptors are valid memory.
abbrev pub Mem : Type 0
Mem = ℕ → ℕ

-- The unsigned integer of so many bytes.
unfoldable pub load : Mem → ℕ → ℕ → ℕ
load mem zero a = 0
load mem (suc n) a = mem a % 2 ^ 8 + 2 ^ 8 * load mem n (suc a)

pub load_lt : (mem : Mem) (n a : ℕ) → load mem n a < 256 ^ n
unfolding load
load_lt mem zero a = omega arith
load_lt mem (suc n) a = omega (arith, load_lt mem n (suc a), pow-suc 256 n)

-- The signed integer of `w` bits with these bits, as the bits of an int64_t.
abbrev pub sign_extend : ℕ → ℕ → ℕ
sign_extend w v = if leb (2 ^ (w - 1)) v then 2 ^ 64 - 2 ^ w + v else v

-- So many bytes.
unfoldable pub bytes_at : Mem → ℕ → ℕ → List ℕ
bytes_at mem zero a = []
bytes_at mem (suc n) a = mem a % 2 ^ 8 ∷ bytes_at mem n (suc a)

pub length-bytes_at : (mem : Mem) (n a : ℕ) → length (bytes_at mem n a) ≡ n
unfolding bytes_at
length-bytes_at mem zero a = refl
length-bytes_at mem (suc n) a = omega (arith, length-bytes_at mem n (suc a))

-- The bytes of an integer, the lowest first.
abbrev pub little_endian : ℕ → ℕ → List ℕ
little_endian zero v = []
little_endian (suc n) v = v % 256 ∷ little_endian n (v / 256)

first_byte : (b rest : ℕ) → (b % 2 ^ 8 + 2 ^ 8 * rest) % 256 ≡ b % 2 ^ 8
first_byte b rest = omega arith

later_bytes : (b rest : ℕ) → (b % 2 ^ 8 + 2 ^ 8 * rest) / 256 ≡ rest
later_bytes b rest = omega arith

pub little_endian-load : (mem : Mem) (n a : ℕ) → little_endian n (load mem n a) ≡ bytes_at mem n a
unfolding load bytes_at
little_endian-load mem zero a = refl
little_endian-load mem (suc n) a =
    rw
      (
        first_byte (mem a) (load mem n (suc a)),
        later_bytes (mem a) (load mem n (suc a)),
        little_endian-load mem n (suc a),
      )
      refl

-- Stores of bytes, and of an integer of `n` bytes.
unfoldable pub store_bytes : List ℕ → ℕ → Mem → Mem
store_bytes [] a mem x = mem x
store_bytes (b ∷ bs) a mem x =
    let later = store_bytes bs (suc a) mem x in if x == a then b else later

abbrev pub store : ℕ → ℕ → ℕ → Mem → Mem
store n a v mem = store_bytes (little_endian n v) a mem

pub length-little_endian : (n v : ℕ) → length (little_endian n v) ≡ n
length-little_endian zero v = refl
length-little_endian (suc n) v = omega (arith, length-little_endian n (v / 256))

load_same :
    (mem mem' : Mem) (n a : ℕ) → ((x : ℕ) → a ≤ x → mem x ≡ mem' x) → load mem n a ≡ load mem' n a
unfolding load
load_same mem mem' zero a h = refl
load_same mem mem' (suc n) a h = omega (
  arith,
  ap (λ (b : ℕ). b % 2 ^ 8) (h a (omega arith)),
  load_same mem mem' n (suc a) (λ x lo. h x (omega arith)),
)

-- What was stored is loaded.
pub load-store : (mem : Mem) (n a v : ℕ) → v < 256 ^ n → load (store n a v mem) n a ≡ v
unfolding load store_bytes
load-store mem zero a v h = omega (arith, h)
load-store mem (suc n) a v h =
    let later = load-store mem n (suc a) (v / 256) (omega (arith, h, pow-suc 256 n)) in
    let apart =
      load_same (store (suc n) a v mem) (store n (suc a) (v / 256) mem) n (suc a)
        (λ x lo. behind x lo) in
    omega (arith, later, apart, first)
  where
    first : store (suc n) a v mem a % 2 ^ 8 ≡ v % 256
    first = ground arith

    behind : (x : ℕ) → suc a ≤ x → store (suc n) a v mem x ≡ store n (suc a) (v / 256) mem x
    behind x lo = ground arith
