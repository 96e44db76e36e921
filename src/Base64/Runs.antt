-- ===== src/Base64/Runs.antt =====
-- Runs of the model of fbase64.c.
use test_gbksoft.Common.{ℕ, ◌≤◌, ◌<◌, ◌≡◌, refl, arith, Bool, false, ◌==◌, ◌||◌, ◌&&◌, leb}
use test_gbksoft.Common.{none, some, List, [], ◌∷◌, ◌++◌}
use test_gbksoft.Common.Outcome.{ok, fail}
use test_gbksoft.Base64.{
  Decoding, minus_one, ntop, pton, ntop_loop, ntop_tail, ntop_end, base64_char, char_or_nul,
}
use test_gbksoft.Base64.Encoding.{encoding, ntop_full}
use test_gbksoft.Base64.Client.{base64_string, base64_string-encoding, base64_string_nil}
use test_gbksoft.Base64.RoundTrip.{Yields, pton-ntop, pton_exact}

-- isspace in the C locale.
abbrev c_isspace : ℕ → Bool
c_isspace c = (c == 32) || (leb 9 c && leb c 13)

c_isspace-printable : (c : ℕ) → 33 ≤ c → c < 127 → c_isspace c ≡ false
c_isspace-printable c lo hi = ground arith

-- "Ma" is "TWE=".
abbrev ma : List ℕ
ma = 77 ∷ 97 ∷ []

abbrev ma_text : List ℕ
ma_text = 84 ∷ 87 ∷ 69 ∷ 61 ∷ []

ntop-ma : ntop ma 5 ≡ (4, ma_text ++ (0 ∷ []))
unfolding ntop ntop_loop ntop_tail ntop_end base64_char char_or_nul
ntop-ma = refl

ntop_full_example : (ntop ma 4).0 ≡ minus_one
ntop_full_example = ntop_full ma 4 (omega arith)

pton-ntop_example :
    (chars : List ℕ) × (ntop ma 5 ≡ (4, chars ++ (0 ∷ [])))
    × Yields ma (pton c_isspace chars (some (0 ∷ 0 ∷ 0 ∷ [])))
pton-ntop_example =
    pton-ntop c_isspace c_isspace-printable ma (0 ∷ 0 ∷ 0 ∷ []) 5 (omega arith) (omega arith)
      (omega arith) (omega arith)

pton_exact_example : (s : Decoding) × (pton c_isspace (encoding (77 ∷ [])) (some (0 ∷ [])) ≡ fail s)
pton_exact_example = pton_exact c_isspace c_isspace-printable 77 0 (omega arith)

abbrev key : List ℕ
key = 1 ∷ 2 ∷ 3 ∷ 4 ∷ 5 ∷ 6 ∷ 7 ∷ 8 ∷ 9 ∷ 10 ∷ 11 ∷ 12 ∷ 13 ∷ []

base64_string-encoding_example :
    base64_string (0 ∷ 14 ∷ 15 ∷ key) ≡ ok (some (encoding (0 ∷ 14 ∷ 15 ∷ key))) tt
base64_string-encoding_example =
    base64_string-encoding (0 ∷ 14 ∷ 15 ∷ key) (omega arith) (omega arith) (omega arith)

base64_string_nil_example : base64_string key ≡ ok none tt
base64_string_nil_example = base64_string_nil key (omega arith) (omega arith)
