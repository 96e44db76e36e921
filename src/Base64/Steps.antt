-- ===== src/Base64/Steps.antt =====
-- The switch of f_b64_pton, one digit at a time, on a target with room.
use test_gbksoft.Common.{ℕ, suc, ◌+◌, ◌*◌, ◌/◌, ◌%◌, ◌^◌, ◌<◌, ◌≡◌, refl, ap, arith}
use test_gbksoft.Common.{false, some, List, [], ◌∷◌, ◌++◌, length, get_elem?}
use test_gbksoft.Common.{length-append, append_assoc, lt→leb, bit_and, bit_or, leb}
use test_gbksoft.Common.Bits.{bit_and-mask, shifted_bit_or}
use test_gbksoft.Common.Outcome.{ok, fail}
use test_gbksoft.Base64.{Decoding, update_at, store, switch, slopped, char_or_nul}

-- The state of the decoder with the bytes `xs` decoded and the bytes `ys` of the target behind them.
abbrev pub decoded : ℕ → List ℕ → List ℕ → Decoding
decoded state xs ys = record { state = state; tarindex = length xs; target = some (xs ++ ys) }

update_here :
    (f : ℕ → ℕ) (xs : List ℕ) (y : ℕ) (ys : List ℕ)
    → update_at f (length xs) (xs ++ (y ∷ ys)) ≡ xs ++ (f y ∷ ys)
update_here f [] y ys = refl
update_here f (x ∷ xs) y ys = ap (λ (t : List ℕ). x ∷ t) (update_here f xs y ys)

update_next :
    (f : ℕ → ℕ) (xs : List ℕ) (x y : ℕ) (ys : List ℕ)
    → update_at f (suc (length xs)) (xs ++ (x ∷ y ∷ ys)) ≡ xs ++ (x ∷ f y ∷ ys)
update_next f [] x y ys = refl
update_next f (w ∷ xs) x y ys = ap (λ (t : List ℕ). w ∷ t) (update_next f xs x y ys)

get_here : (xs : List ℕ) (y : ℕ) (ys : List ℕ) → get_elem? (xs ++ (y ∷ ys)) (length xs) ≡ some y
get_here [] y ys = refl
get_here (x ∷ xs) y ys = get_here xs y ys

pub slopped_zero : (xs ys : List ℕ) → slopped (some (xs ++ (0 ∷ ys))) (length xs) ≡ false
unfolding slopped char_or_nul
slopped_zero xs ys = rw (get_here xs 0 ys) refl

plus_one : (n : ℕ) → n + 1 ≡ suc n
plus_one n = omega arith

-- The counter does not wrap.
next_index : (n : ℕ) → suc n < 2 ^ 32 → (n + 1) % 2 ^ 32 ≡ suc n
next_index n h = omega (arith, h)

shift :
    (k : ℕ) (xs : List ℕ) (x : ℕ) (ys : List ℕ)
    → record { state = k; tarindex = suc (length xs); target = some (xs ++ (x ∷ ys)) }
      ≡ decoded k (xs ++ (x ∷ [])) ys
shift k xs x ys =
    rw (length-append xs (x ∷ []), append_assoc xs (x ∷ []) ys, plus_one (length xs)) refl

room1 : (xs : List ℕ) (x : ℕ) (ys : List ℕ) → leb (length (xs ++ (x ∷ ys))) (length xs) ≡ false
room1 xs x ys = lt→leb (length xs) _ (omega (arith, length-append xs (x ∷ ys)))

room2 :
    (xs : List ℕ) (x y : ℕ) (ys : List ℕ)
    → leb (length (xs ++ (x ∷ y ∷ ys))) (suc (length xs)) ≡ false
room2 xs x y ys = lt→leb (suc (length xs)) _ (omega (arith, length-append xs (x ∷ y ∷ ys)))

pub switch-first :
    (d : ℕ) (xs : List ℕ) (x : ℕ) (ys : List ℕ)
    → switch d (decoded 0 xs (x ∷ ys)) ≡ ok tt (decoded 1 xs (d * 4 % 256 ∷ ys))
unfolding switch store
switch-first d xs x ys = rw (room1 xs x ys, update_here (λ old. d * 4 % 256) xs x ys) refl

pub switch-second :
    (d : ℕ) (xs : List ℕ) (x y : ℕ) (ys : List ℕ)
    → suc (length xs) < 2 ^ 32
    → switch d (decoded 1 xs (x ∷ y ∷ ys))
      ≡ ok tt (decoded 2 (xs ++ (bit_or x (d / 16) % 256 ∷ [])) (bit_and d 15 * 16 % 256 ∷ ys))
unfolding switch store
switch-second d xs x y ys h =
    rw
      (
        next_index (length xs) h,
        room2 xs x y ys,
        update_here (λ old. bit_or old (d / 16) % 256) xs x (y ∷ ys),
        update_next (λ old. bit_and d 15 * 16 % 256) xs (bit_or x (d / 16) % 256) y ys,
        shift 2 xs (bit_or x (d / 16) % 256) (bit_and d 15 * 16 % 256 ∷ ys),
      )
      refl

pub switch-third :
    (d : ℕ) (xs : List ℕ) (x y : ℕ) (ys : List ℕ)
    → suc (length xs) < 2 ^ 32
    → switch d (decoded 2 xs (x ∷ y ∷ ys))
      ≡ ok tt (decoded 3 (xs ++ (bit_or x (d / 4) % 256 ∷ [])) (bit_and d 3 * 64 % 256 ∷ ys))
unfolding switch store
switch-third d xs x y ys h =
    rw
      (
        next_index (length xs) h,
        room2 xs x y ys,
        update_here (λ old. bit_or old (d / 4) % 256) xs x (y ∷ ys),
        update_next (λ old. bit_and d 3 * 64 % 256) xs (bit_or x (d / 4) % 256) y ys,
        shift 3 xs (bit_or x (d / 4) % 256) (bit_and d 3 * 64 % 256 ∷ ys),
      )
      refl

pub switch-fourth :
    (d : ℕ) (xs : List ℕ) (x : ℕ) (ys : List ℕ)
    → suc (length xs) < 2 ^ 32
    → switch d (decoded 3 xs (x ∷ ys)) ≡ ok tt (decoded 0 (xs ++ (bit_or x d % 256 ∷ [])) ys)
unfolding switch store
switch-fourth d xs x ys h =
    rw
      (
        next_index (length xs) h,
        room1 xs x ys,
        update_here (λ old. bit_or old d % 256) xs x ys,
        shift 0 xs (bit_or x d % 256) ys,
      )
      refl

-- The second digit needs room for a second byte.
pub switch_short : (d x : ℕ) → switch d (decoded 1 [] (x ∷ [])) ≡ fail (decoded 1 [] (x ∷ []))
unfolding switch store
switch_short d x = refl

-- The bytes that the digits of an encoding give.
pub first_byte :
    (a b : ℕ) → a < 256 → b < 256 → bit_or (a / 4 * 4 % 256) ((a % 4 * 16 + b / 16) / 16) % 256 ≡ a
first_byte a b ha hb =
    let low : (a % 4 * 16 + b / 16) / 16 ≡ a % 4 = omega arith in
    let high : a / 4 * 4 % 256 ≡ a / 4 * 4 = omega arith in
    rw (low, high, shifted_bit_or 2 (a % 4) (a / 4) (omega arith)) (omega arith)

pub second_byte :
    (a b c : ℕ)
    → b < 256
    → c < 256
    → bit_or (bit_and (a % 4 * 16 + b / 16) 15 * 16 % 256) ((b % 16 * 4 + c / 64) / 4) % 256 ≡ b
second_byte a b c hb hc =
    let low : (b % 16 * 4 + c / 64) / 4 ≡ b % 16 = omega arith in
    let high : (a % 4 * 16 + b / 16) % 16 * 16 % 256 ≡ b / 16 * 16 = omega arith in
    rw
      (
        bit_and-mask 4 (a % 4 * 16 + b / 16),
        low,
        high,
        shifted_bit_or 4 (b % 16) (b / 16) (omega arith),
      )
      (omega arith)

pub third_byte :
    (b c : ℕ) → c < 256 → bit_or (bit_and (b % 16 * 4 + c / 64) 3 * 64 % 256) (c % 64) % 256 ≡ c
third_byte b c hc =
    let high : (b % 16 * 4 + c / 64) % 4 * 64 % 256 ≡ c / 64 * 64 = omega arith in
    rw
      (bit_and-mask 2 (b % 16 * 4 + c / 64), high, shifted_bit_or 6 (c % 64) (c / 64) (omega arith))
      (omega arith)
