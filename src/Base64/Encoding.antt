-- ===== src/Base64/Encoding.antt =====
-- f_b64_ntop against the groups of four characters of RFC 1521.
use test_gbksoft.Common.{ℕ, ◌+◌, ◌*◌, ◌/◌, ◌%◌, ◌^◌, ◌≤◌, ◌<◌, ◌≡◌, refl, sym, arith}
use native.Mathlib.Decide.{dec_lt}
use test_gbksoft.Common.Bits.{bit_and-mask}
use test_gbksoft.Nanopb.Types.{IsByte}
use test_gbksoft.Common.{All, List, [], ◌∷◌, ◌++◌, length}
use test_gbksoft.Common.{length-append, append_assoc, append-nil, lt→ltb, le→ltb, lt→leb, le→leb}
use test_gbksoft.Base64.{
  base64_char, minus_one, pad64, ntop_end, ntop_tail, ntop_loop, ntop, digit1, digit2,
}

-- Characters of three bytes, two and one, by their bits.
abbrev pub three : ℕ → ℕ → ℕ → List ℕ
three a b c =
    base64_char (a / 4)
    ∷ base64_char (a % 4 * 16 + b / 16)
    ∷ base64_char (b % 16 * 4 + c / 64)
    ∷ base64_char (c % 64)
    ∷ []

abbrev pub two : ℕ → ℕ → List ℕ
two a b =
    base64_char (a / 4) ∷ base64_char (a % 4 * 16 + b / 16) ∷ base64_char (b % 16 * 4) ∷ pad64 ∷ []

abbrev pub one : ℕ → List ℕ
one a = base64_char (a / 4) ∷ base64_char (a % 4 * 16) ∷ pad64 ∷ pad64 ∷ []

-- The encoding of bytes.
abbrev pub encoding : List ℕ → List ℕ
encoding (a ∷ b ∷ c ∷ bs) = three a b c ++ encoding bs
encoding (a ∷ b ∷ []) = two a b
encoding (a ∷ []) = one a
encoding [] = []

digit1-bits : (a b : ℕ) → b < 256 → digit1 a b ≡ a % 4 * 16 + b / 16
digit1-bits a b h = omega (arith, bit_and-mask 2 a)

digit1_last : (a : ℕ) → digit1 a 0 ≡ a % 4 * 16
digit1_last a = omega (arith, bit_and-mask 2 a)

digit2-bits : (b c : ℕ) → c < 256 → digit2 b c ≡ b % 16 * 4 + c / 64
digit2-bits b c h = omega (arith, bit_and-mask 4 b)

digit2_last : (b : ℕ) → digit2 b 0 ≡ b % 16 * 4
digit2_last b = omega (arith, bit_and-mask 4 b)

ntop_end-room :
    (targsize : ℕ) (out : List ℕ)
    → length out < targsize
    → ntop_end targsize out ≡ (length out % 2 ^ 32, out ++ (0 ∷ []))
unfolding ntop_end
ntop_end-room targsize out h = rw (lt→leb (length out) targsize h)

ntop_tail-room :
    (targsize : ℕ) (quad out : List ℕ)
    → length quad ≡ 4
    → length out + 4 < targsize
    → ntop_tail targsize quad out ≡ (length (out ++ quad) % 2 ^ 32, (out ++ quad) ++ (0 ∷ []))
unfolding ntop_tail
ntop_tail-room targsize quad out h hs =
    rw (le→ltb targsize (length out + 4) (omega arith))
      (ntop_end-room targsize (out ++ quad) (omega (arith, length-append out quad)))

ntop_loop-room :
    (targsize : ℕ) (bs out : List ℕ)
    → All IsByte bs
    → length out + length (encoding bs) < targsize
    → ntop_loop targsize bs out
      ≡ (length (out ++ encoding bs) % 2 ^ 32, (out ++ encoding bs) ++ (0 ∷ []))
unfolding ntop_loop
ntop_loop-room targsize [] out hb h = rw (append-nil out) (ntop_end-room targsize out (omega arith))
ntop_loop-room targsize (a ∷ []) out hb h =
    rw (digit1_last a) (ntop_tail-room targsize (one a) out refl (omega arith))
ntop_loop-room targsize (a ∷ b ∷ []) out hb h =
    rw (digit1-bits a b (omega arith), digit2_last b)
      (ntop_tail-room targsize (two a b) out refl (omega arith))
ntop_loop-room targsize (a ∷ b ∷ c ∷ bs) out (ha, (hb, (hc, hs))) h =
    rw
      (
        le→ltb targsize (length out + 4) (omega arith),
        digit1-bits a b hb,
        digit2-bits b c hc,
        bit_and-mask 6 c,
        sym (append_assoc out (three a b c) (encoding bs)),
      )
      (ntop_loop-room targsize bs (out ++ three a b c) hs
        (omega (arith, length-append out (three a b c))))

ntop_end_full :
    (targsize : ℕ) (out : List ℕ) → targsize ≤ length out → (ntop_end targsize out).0 ≡ minus_one
unfolding ntop_end
ntop_end_full targsize out h = rw (le→leb (length out) targsize h)

ntop_tail_full :
    (targsize : ℕ) (quad out : List ℕ)
    → length quad ≡ 4
    → targsize ≤ length out + 4
    → (ntop_tail targsize quad out).0 ≡ minus_one
unfolding ntop_tail
ntop_tail_full targsize quad out h hs = elim (dec_lt targsize (length out + 4)) [
  | yes short ↦ rw (lt→ltb targsize (length out + 4) short)
  | no same ↦
      rw (le→ltb targsize (length out + 4) (omega arith))
        (ntop_end_full targsize (out ++ quad) (omega (arith, length-append out quad)))
]

ntop_loop_full :
    (targsize : ℕ) (bs out : List ℕ)
    → targsize ≤ length out + length (encoding bs)
    → (ntop_loop targsize bs out).0 ≡ minus_one
unfolding ntop_loop
ntop_loop_full targsize [] out h = ntop_end_full targsize out (omega arith)
ntop_loop_full targsize (a ∷ []) out h = ntop_tail_full targsize _ out refl (omega arith)
ntop_loop_full targsize (a ∷ b ∷ []) out h = ntop_tail_full targsize _ out refl (omega arith)
ntop_loop_full targsize (a ∷ b ∷ c ∷ bs) out h = elim (dec_lt targsize (length out + 4)) [
  | yes short ↦ rw (lt→ltb targsize (length out + 4) short)
  | no long ↦
      rw (le→ltb targsize (length out + 4) (omega arith))
        (ntop_loop_full targsize bs _ (omega (arith, length-append out)))
]

-- Four characters for three bytes, the last of them padded.
pub length-encoding : (bs : List ℕ) → length (encoding bs) ≡ 4 * ((length bs + 2) / 3)
length-encoding [] = omega arith
length-encoding (a ∷ []) = omega arith
length-encoding (a ∷ b ∷ []) = omega arith
length-encoding (a ∷ b ∷ c ∷ bs) = omega (arith, length-encoding bs)

pub ntop-encoding :
    (bs : List ℕ) (targsize : ℕ)
    → All IsByte bs
    → 4 * ((length bs + 2) / 3) < targsize
    → ntop bs targsize ≡ (4 * ((length bs + 2) / 3) % 2 ^ 32, encoding bs ++ (0 ∷ []))
unfolding ntop
ntop-encoding bs targsize hb h =
    rw (← length-encoding bs) (ntop_loop-room targsize bs [] hb (omega (arith, length-encoding bs)))

-- On n bytes and a target of at most 4 * ((n + 2) / 3) characters, f_b64_ntop returns -1.
pub ntop_full :
    (bs : List ℕ) (targsize : ℕ)
    → targsize ≤ 4 * ((length bs + 2) / 3)
    → (ntop bs targsize).0 ≡ minus_one
unfolding ntop
ntop_full bs targsize h = ntop_loop_full targsize bs [] (omega (arith, length-encoding bs))
