-- ===== src/Base64/Client.antt =====
-- SocketRocket/NSData+SRB64Additions.m: how the websocket client calls f_b64_ntop.
use test_gbksoft.Common.{ℕ, ◌+◌, ◌*◌, ◌/◌, ◌%◌, ◌^◌, ◌≤◌, ◌<◌, ◌≡◌, refl, sym, arith}
use test_gbksoft.Common.{Option, none, some, List, [], ◌∷◌, length, take, take-append, All}
use test_gbksoft.Common.{◌++◌, ◌∙◌, ap, false, ltb, ◌==◌, if◌then◌else◌, le→ltb, length-append}
use test_gbksoft.Common.Outcome.{Outcome, ok, fault}
use test_gbksoft.Nanopb.Memory.{sign_extend}
use test_gbksoft.Nanopb.Types.{IsByte}
use test_gbksoft.Base64.{Stored, minus_one, ntop}
use test_gbksoft.Base64.RoundTrip.{int_of}
use test_gbksoft.Base64.Encoding.{encoding, length-encoding, ntop-encoding, ntop_full}

-- `((data.length * 3 + 2) / 2)`
abbrev pub buffer_size : ℕ → ℕ
buffer_size n = (n * 3 + 2) % 2 ^ 64 / 2

-- `nil` is none. `len` is an int, which becomes an NSUInteger; nothing may be read behind what is
-- stored in the buffer.
string_of : Stored → Outcome (Unit {0}) (Option (List ℕ))
string_of (len, buffer) =
    let size = sign_extend 32 len in
    if len == minus_one
    then ok none tt
    else if ltb (length buffer) size
    then fault
    else ok (some (take size buffer)) tt

-- base64EncodedStringFromData
pub base64_string : List ℕ → Outcome (Unit {0}) (Option (List ℕ))
unfolding string_of
base64_string bytes = string_of (ntop bytes (buffer_size (length bytes)))

string_of-minus_one : (r : Stored) → r.0 ≡ minus_one → string_of r ≡ ok none tt
unfolding string_of
string_of-minus_one (len, buffer) h = rw h refl

-- A length that an int holds.
string_of-whole :
    (n : ℕ) (chars : List ℕ)
    → n ≡ length chars
    → n < 2 ^ 31
    → string_of (n % 2 ^ 32, chars ++ (0 ∷ [])) ≡ ok (some chars) tt
unfolding string_of
string_of-whole n chars e h =
    rw
      (
        int_of n h,
        no_minus_one n h,
        not_negative n h,
        le→ltb (length (chars ++ (0 ∷ []))) n (omega (arith, e, length-append chars (0 ∷ []))),
        e,
        take-append chars (0 ∷ []),
      )
      refl
  where
    no_minus_one : (n : ℕ) → n < 2 ^ 31 → (n == minus_one) ≡ false
    no_minus_one n h = ground arith

    not_negative : (n : ℕ) → n < 2 ^ 31 → sign_extend 32 n ≡ n
    not_negative n h = ground arith

enough : (n : ℕ) → 14 ≤ n → n < 2 ^ 60 → 4 * ((n + 2) / 3) < buffer_size n
enough n lo hi = omega arith

-- On n bytes, 14 or more, where 4 * ((n + 2) / 3) is below 2 ^ 31, base64EncodedStringFromData
-- gives the whole encoding, without its NUL.
pub base64_string-encoding :
    (bytes : List ℕ)
    → All IsByte bytes
    → 14 ≤ length bytes
    → 4 * ((length bytes + 2) / 3) < 2 ^ 31
    → base64_string bytes ≡ ok (some (encoding bytes)) tt
unfolding base64_string
base64_string-encoding bytes hb lo hi =
    ap string_of (
      ntop-encoding bytes (buffer_size (length bytes)) hb
        (enough (length bytes) lo (omega (arith, hi))))
    ∙ string_of-whole _ (encoding bytes) (sym (length-encoding bytes)) hi

-- On n bytes, fewer than 2 ^ 60, where (n * 3 + 2) / 2 is at most 4 * ((n + 2) / 3),
-- base64EncodedStringFromData gives nil.
pub base64_string_nil :
    (bytes : List ℕ)
    → length bytes < 2 ^ 60
    → (length bytes * 3 + 2) / 2 ≤ 4 * ((length bytes + 2) / 3)
    → base64_string bytes ≡ ok none tt
unfolding base64_string
base64_string_nil bytes hi h =
    string_of-minus_one (ntop bytes (buffer_size (length bytes)))
      (ntop_full bytes (buffer_size (length bytes)) (omega arith))
