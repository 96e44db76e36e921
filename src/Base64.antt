-- ===== src/Base64.antt =====
-- FirebaseDatabase/Firebase/Database/third_party/SocketRocket/fbase64.c: base64 for the websocket
-- handshake. Bytes and characters are numbers below 256. Lengths, of size_t, are those of memory: no
-- sum of them wraps. An int is given by its bits, and `tarindex`, a u_int, wraps at 2 ^ 32.
pub mod Encoding
pub mod Digits
pub mod Steps
pub mod RoundTrip
pub mod Client
mod Runs
use test_gbksoft.Common.{ℕ, zero, suc, ◌+◌, ◌-◌, ◌*◌, ◌/◌, ◌%◌, ◌^◌, bit_and, bit_or}
use test_gbksoft.Common.{Bool, true, false, not, ltb, leb, ◌==◌, if◌then◌else◌}
use test_gbksoft.Common.{Option, none, some, List, [], ◌∷◌, ◌++◌, length, get_elem?}
use mathlib.Core.Option
use test_gbksoft.Common.Outcome.{Outcome, ok, fail, fault, M, bind_outcome}

-- "ABCDEFGHIJKLMNOPQRSTUVWXYZabcdefghijklmnopqrstuvwxyz0123456789+/", by character code.
abbrev pub alphabet : List ℕ
alphabet =
    65 ∷ 66 ∷ 67 ∷ 68 ∷ 69 ∷ 70 ∷ 71 ∷ 72 ∷ 73 ∷ 74 ∷ 75 ∷ 76 ∷ 77 ∷ 78 ∷ 79 ∷ 80 ∷ 81 ∷ 82 ∷ 83
    ∷ 84 ∷ 85 ∷ 86 ∷ 87 ∷ 88 ∷ 89 ∷ 90 ∷ 97 ∷ 98 ∷ 99 ∷ 100 ∷ 101 ∷ 102 ∷ 103 ∷ 104 ∷ 105 ∷ 106
    ∷ 107 ∷ 108 ∷ 109 ∷ 110 ∷ 111 ∷ 112 ∷ 113 ∷ 114 ∷ 115 ∷ 116 ∷ 117 ∷ 118 ∷ 119 ∷ 120 ∷ 121 ∷ 122
    ∷ 48 ∷ 49 ∷ 50 ∷ 51 ∷ 52 ∷ 53 ∷ 54 ∷ 55 ∷ 56 ∷ 57 ∷ 43 ∷ 47 ∷ []

pub char_or_nul : Option ℕ → ℕ
char_or_nul none = 0
char_or_nul (some c) = c

-- `Base64[d]`. At 64 it is the string's NUL; no digit is larger.
pub base64_char : ℕ → ℕ
unfolding char_or_nul
base64_char d = char_or_nul (get_elem? alphabet d)

abbrev pub pad64 : ℕ
pad64 = 61

-- `output[0]` to `output[3]`, stored as u_char.
abbrev pub digit0 : ℕ → ℕ
digit0 a = a / 2 ^ 2

abbrev pub digit1 : ℕ → ℕ → ℕ
digit1 a b = (bit_and a 0x03 * 2 ^ 4 + b / 2 ^ 4) % 2 ^ 8

abbrev pub digit2 : ℕ → ℕ → ℕ
digit2 b c = (bit_and b 0x0f * 2 ^ 2 + c / 2 ^ 6) % 2 ^ 8

abbrev pub digit3 : ℕ → ℕ
digit3 c = bit_and c 0x3f

-- The int -1.
abbrev pub minus_one : ℕ
minus_one = 2 ^ 32 - 1

-- What f_b64_ntop returns, and what it has stored from `target` on.
abbrev pub Stored : Type 0
Stored = ℕ × List ℕ

pub ntop_end : ℕ → List ℕ → Stored
ntop_end targsize out =
    if leb targsize (length out) then (minus_one, out) else (length out % 2 ^ 32, out ++ (0 ∷ []))

-- Four characters, if there is room.
pub ntop_tail : ℕ → List ℕ → List ℕ → Stored
unfolding ntop_end
ntop_tail targsize quad out =
    if ltb targsize (length out + 4) then (minus_one, out) else ntop_end targsize (out ++ quad)

-- The loop over groups of three bytes, and the padding of what is left. `out` has `datalength`
-- characters.
pub ntop_loop : ℕ → List ℕ → List ℕ → Stored
unfolding base64_char ntop_end ntop_tail
ntop_loop targsize (a ∷ b ∷ c ∷ src) out =
    let quad =
      base64_char (digit0 a)
      ∷ base64_char (digit1 a b)
      ∷ base64_char (digit2 b c)
      ∷ base64_char (digit3 c)
      ∷ [] in
    let more = ntop_loop targsize src (out ++ quad) in
    if ltb targsize (length out + 4) then (minus_one, out) else more
ntop_loop targsize (a ∷ b ∷ []) out =
    ntop_tail targsize
      (base64_char (digit0 a) ∷ base64_char (digit1 a b) ∷ base64_char (digit2 b 0) ∷ pad64 ∷ [])
      out
ntop_loop targsize (a ∷ []) out =
    ntop_tail targsize (base64_char (digit0 a) ∷ base64_char (digit1 a 0) ∷ pad64 ∷ pad64 ∷ []) out
ntop_loop targsize [] out = ntop_end targsize out

-- f_b64_ntop of `srclength` bytes.
pub ntop : List ℕ → ℕ → Stored
unfolding ntop_loop
ntop src targsize = ntop_loop targsize src []

-- The place of the first `c`.
abbrev pub position : ℕ → List ℕ → Option ℕ
position c [] = none
position c (x ∷ xs) = if x == c then some 0 else Option.map (λ i. suc i) (position c xs)

-- `strchr(Base64, ch)` of a character, as an index.
pub index_of : ℕ → Option ℕ
index_of ch = position ch alphabet

-- `state`, `tarindex`, and `target`, which may be NULL; `targsize` is the length of the target.
pub record Decoding : Type 0 where
  pub state : ℕ
  pub tarindex : ℕ
  pub target : Option (List ℕ)

-- Behind the end nothing is changed: `store` leaves no such index.
abbrev pub update_at : (ℕ → ℕ) → ℕ → List ℕ → List ℕ
update_at f i [] = []
update_at f zero (x ∷ xs) = f x ∷ xs
update_at f (suc i) (x ∷ xs) = x ∷ update_at f i xs

-- `target[i] = v` and `target[i] |= v`.
abbrev pub assign_at : ℕ → ℕ → List ℕ → List ℕ
assign_at v i buf = update_at (λ old. v % 2 ^ 8) i buf

abbrev pub or_at : ℕ → ℕ → List ℕ → List ℕ
or_at v i buf = update_at (λ old. bit_or old v % 2 ^ 8) i buf

-- One case of the switch: the bytes that it stores, unless the target is NULL or the last of them
-- is behind its end, then the counter and the state.
pub store : Option (List ℕ) → ℕ → (List ℕ → List ℕ) → ℕ → ℕ → M Decoding (Unit {0})
store none last write tarindex state s = ok tt (record s { state = state; tarindex = tarindex })
store (some buf) last write tarindex state s =
    if leb (length buf) last
    then fail s
    else ok tt (record { state = state; tarindex = tarindex; target = some (write buf) })

-- The switch on `state`, for the digit `d`.
pub switch : ℕ → M Decoding (Unit {0})
unfolding store
switch d s =
    let i = s.tarindex in
    let next = (i + 1) % 2 ^ 32 in
    if s.state == 0
    then store s.target i (assign_at (d * 2 ^ 2) i) i 1 s
    else if s.state == 1
    then store s.target next
        (λ buf. assign_at (bit_and d 0x0f * 2 ^ 4) next (or_at (d / 2 ^ 4) i buf)) next 2 s
    else if s.state == 2
    then store s.target next
        (λ buf. assign_at (bit_and d 0x03 * 2 ^ 6) next (or_at (d / 2 ^ 2) i buf)) next 3 s
    else store s.target i (or_at d i) next 0 s

pub on_digit : Option ℕ → M Decoding (Unit {0})
unfolding switch
on_digit none s = fail s
on_digit (some d) s = switch d s

-- `target && target[tarindex] != 0`
pub slopped : Option (List ℕ) → ℕ → Bool
slopped none i = false
slopped (some buf) i = not (char_or_nul (get_elem? buf i) == 0)

-- `isspace` is the C library's.
module _ (isspace : ℕ → Bool) where
  -- The loop over the characters of the string, up to its end or a pad character. The string behind
  -- the pad character is the result.
  pub pton_loop : List ℕ → M Decoding (Option (List ℕ))
  unfolding on_digit index_of
  pton_loop [] s = ok none s
  pton_loop (ch ∷ src) s =
      let skipped : Outcome Decoding (Option (List ℕ)) = pton_loop src s in
      let taken : Outcome Decoding (Option (List ℕ)) =
        bind_outcome (on_digit (index_of ch) s) (λ _ s'. pton_loop src s') in
      if isspace ch then skipped else if ch == pad64 then ok (some src) s else taken

  -- `for (; ch != '\0'; ch = *src++) if (!isspace(ch)) break;`
  pub past_spaces : List ℕ → List ℕ
  past_spaces [] = []
  past_spaces (ch ∷ src) = let rest = past_spaces src in if isspace ch then rest else ch ∷ src

  -- Case 3 of the second switch: nothing but space follows, and no bits are left over.
  pub after_pad : List ℕ → M Decoding ℕ
  unfolding slopped
  after_pad [] s = if slopped s.target s.tarindex then fail s else ok s.tarindex s
  after_pad (ch ∷ src) s =
      let rest : Outcome Decoding ℕ = after_pad src s in if isspace ch then rest else fail s

  -- Case 2: another pad character.
  pub second_pad : List ℕ → M Decoding ℕ
  unfolding after_pad
  second_pad [] s = fail s
  second_pad (ch ∷ src) s = if ch == pad64 then after_pad src s else fail s

  pub pton_end : Option (List ℕ) → M Decoding ℕ
  unfolding past_spaces second_pad
  pton_end none s = if s.state == 0 then ok s.tarindex s else fail s
  pton_end (some src) s =
      if leb s.state 1
      then fail s
      else if s.state == 2
      then second_pad (past_spaces src) s
      else after_pad src s

  -- f_b64_pton. `fail` is -1.
  pub pton : List ℕ → Option (List ℕ) → Outcome Decoding ℕ
  unfolding pton_loop pton_end
  pton src target =
      bind_outcome (pton_loop src (record { state = 0; tarindex = 0; target = target })) pton_end
