-- ===== src/Base64/RoundTrip.antt =====
-- f_b64_pton reads back what f_b64_ntop writes.
use test_gbksoft.Common.{ℕ, ◌+◌, ◌*◌, ◌/◌, ◌%◌, ◌≤◌, ◌<◌, ◌≡◌, refl, sym, ap, ◌∙◌, arith}
use test_gbksoft.Common.{Bool, false, none, some, List, [], ◌∷◌, ◌++◌, length, All}
use test_gbksoft.Common.{append-nil, length-append, ◌^◌, suc, bit_and, bit_or, bit_and}
use test_gbksoft.Common.Bits.{bit_and-mask}
use test_gbksoft.Common.Outcome.{Outcome, ok, fail, bind_outcome}
use test_gbksoft.Nanopb.Types.{IsByte}
use test_gbksoft.Base64.{base64_char, pad64, Decoding, switch, on_digit, pton_loop, past_spaces}
use test_gbksoft.Base64.{after_pad, second_pad, pton_end, pton, ntop}
use test_gbksoft.Base64.Encoding.{encoding, three, two, one, ntop-encoding}
use test_gbksoft.Base64.Digits.{digit_char}
use test_gbksoft.Base64.Steps.{
  decoded, slopped_zero, switch_short, switch-first, switch-second, switch-third, switch-fourth,
}
use test_gbksoft.Base64.Steps.{first_byte, second_byte, third_byte}

module _ (isspace : ℕ → Bool) (printable : (c : ℕ) → 33 ≤ c → c < 127 → isspace c ≡ false) where
  pton_loop-digit :
      (d : ℕ) (src : List ℕ) (s : Decoding)
      → d < 64
      → pton_loop isspace (base64_char d ∷ src) s
        ≡ bind_outcome (switch d s) (λ _ s'. pton_loop isspace src s')
  unfolding pton_loop on_digit
  pton_loop-digit d src s h =
      let (e, lo, hi, np) = digit_char d h in rw (printable (base64_char d) lo hi, np, e) refl

  pton_loop-pad :
      (src : List ℕ) (s : Decoding) → pton_loop isspace (pad64 ∷ src) s ≡ ok (some src) s
  unfolding pton_loop
  pton_loop-pad src s = rw (printable pad64 (omega arith) (omega arith)) refl

  -- The first two characters of a group give one byte.
  pton_loop-two :
      (d e x y : ℕ) (src xs ys : List ℕ)
      → d < 64
      → e < 64
      → suc (length xs) < 2 ^ 32
      → pton_loop isspace (base64_char d ∷ base64_char e ∷ src) (decoded 0 xs (x ∷ y ∷ ys))
        ≡ pton_loop isspace src (
            decoded 2
              (xs ++ (bit_or (d * 4 % 256) (e / 16) % 256 ∷ []))
              (bit_and e 15 * 16 % 256 ∷ ys))
  pton_loop-two d e x y src xs ys hd he fits =
      rw
        (
          pton_loop-digit d (base64_char e ∷ src) (decoded 0 xs (x ∷ y ∷ ys)) hd,
          switch-first d xs x (y ∷ ys),
          pton_loop-digit e src (decoded 1 xs (d * 4 % 256 ∷ y ∷ ys)) he,
          switch-second e xs (d * 4 % 256) y ys fits,
        )
        refl

  -- A third gives another.
  pton_loop-third :
      (d x y : ℕ) (src xs ys : List ℕ)
      → d < 64
      → suc (length xs) < 2 ^ 32
      → pton_loop isspace (base64_char d ∷ src) (decoded 2 xs (x ∷ y ∷ ys))
        ≡ pton_loop isspace src
            (decoded 3 (xs ++ (bit_or x (d / 4) % 256 ∷ [])) (bit_and d 3 * 64 % 256 ∷ ys))
  pton_loop-third d x y src xs ys hd fits =
      rw (pton_loop-digit d src (decoded 2 xs (x ∷ y ∷ ys)) hd, switch-third d xs x y ys fits) refl

  pton_loop-fourth :
      (d x : ℕ) (src xs ys : List ℕ)
      → d < 64
      → suc (length xs) < 2 ^ 32
      → pton_loop isspace (base64_char d ∷ src) (decoded 3 xs (x ∷ ys))
        ≡ pton_loop isspace src (decoded 0 (xs ++ (bit_or x d % 256 ∷ [])) ys)
  pton_loop-fourth d x src xs ys hd fits =
      rw (pton_loop-digit d src (decoded 3 xs (x ∷ ys)) hd, switch-fourth d xs x ys fits) refl

  -- The first two, and three, characters of an encoding.
  pton_loop-first_byte :
      (a b x y : ℕ) (src xs ys : List ℕ)
      → a < 256
      → b < 256
      → suc (length xs) < 2 ^ 32
      → pton_loop isspace
          (base64_char (a / 4) ∷ base64_char (a % 4 * 16 + b / 16) ∷ src)
          (decoded 0 xs (x ∷ y ∷ ys))
        ≡ pton_loop isspace src
            (decoded 2 (xs ++ (a ∷ [])) (bit_and (a % 4 * 16 + b / 16) 15 * 16 % 256 ∷ ys))
  pton_loop-first_byte a b x y src xs ys ha hb fits =
      pton_loop-two (a / 4) (a % 4 * 16 + b / 16) x y src xs ys (omega arith) (omega arith) fits
      ∙ rw (first_byte a b ha hb) refl

  pton_loop-second_byte :
      (a b c y : ℕ) (src xs ys : List ℕ)
      → b < 256
      → c < 256
      → suc (length xs) < 2 ^ 32
      → pton_loop isspace
          (base64_char (b % 16 * 4 + c / 64) ∷ src)
          (decoded 2 xs (bit_and (a % 4 * 16 + b / 16) 15 * 16 % 256 ∷ y ∷ ys))
        ≡ pton_loop isspace src
            (decoded 3 (xs ++ (b ∷ [])) (bit_and (b % 16 * 4 + c / 64) 3 * 64 % 256 ∷ ys))
  pton_loop-second_byte a b c y src xs ys hb hc fits =
      pton_loop-third (b % 16 * 4 + c / 64) _ y src xs ys (omega arith) fits
      ∙ rw (second_byte a b c hb hc) refl

  pton_loop-three :
      (a b c x y z : ℕ) (src xs ys : List ℕ)
      → a < 256
      → b < 256
      → c < 256
      → length xs + 3 < 2 ^ 32
      → pton_loop isspace (three a b c ++ src) (decoded 0 xs (x ∷ y ∷ z ∷ ys))
        ≡ pton_loop isspace src (decoded 0 (((xs ++ (a ∷ [])) ++ (b ∷ [])) ++ (c ∷ [])) ys)
  pton_loop-three a b c x y z src xs ys ha hb hc fits =
      rw
        (
          pton_loop-first_byte a b x y
              (base64_char (b % 16 * 4 + c / 64) ∷ base64_char (c % 64) ∷ src) xs (z ∷ ys) ha hb
              (omega (arith, fits)),
          pton_loop-second_byte a b c z (base64_char (c % 64) ∷ src) (xs ++ (a ∷ [])) ys hb hc
              (omega (arith, fits, length-append xs (a ∷ []))),
          pton_loop-fourth (c % 64) (bit_and (b % 16 * 4 + c / 64) 3 * 64 % 256) src
              ((xs ++ (a ∷ [])) ++ (b ∷ [])) ys (omega arith)
              (omega
                (arith, fits, length-append xs (a ∷ []), length-append (xs ++ (a ∷ [])) (b ∷ []))),
          third_byte b c hc,
        )
        refl

  -- The pad characters behind one byte and behind two.
  pton_end_one :
      (xs ys : List ℕ)
      → pton_end isspace (some (pad64 ∷ [])) (decoded 2 xs (0 ∷ ys))
        ≡ ok (length xs) (decoded 2 xs (0 ∷ ys))
  unfolding pton_end second_pad after_pad past_spaces
  pton_end_one xs ys = rw (printable 61 (omega arith) (omega arith), slopped_zero xs ys) refl

  pton_end_two :
      (xs ys : List ℕ)
      → pton_end isspace (some []) (decoded 3 xs (0 ∷ ys)) ≡ ok (length xs) (decoded 3 xs (0 ∷ ys))
  unfolding pton_end after_pad
  pton_end_two xs ys = rw (slopped_zero xs ys) refl

  pton_end_whole :
      (xs ys : List ℕ) → pton_end isspace none (decoded 0 xs ys) ≡ ok (length xs) (decoded 0 xs ys)
  unfolding pton_end
  pton_end_whole xs ys = refl

  pton_loop_nil : (s : Decoding) → pton_loop isspace [] s ≡ ok none s
  unfolding pton_loop
  pton_loop_nil s = refl

no_slop : (a n : ℕ) → n ≡ 15 → bit_and (a % 4 * 16 + 0 / 16) n * 16 % 256 ≡ 0
no_slop a n h = rw h (omega (arith, bit_and-mask 4 (a % 4 * 16 + 0 / 16)))

no_slop2 : (b n : ℕ) → n ≡ 3 → bit_and (b % 16 * 4 + 0 / 64) n * 64 % 256 ≡ 0
no_slop2 b n h = rw h (omega (arith, bit_and-mask 2 (b % 16 * 4 + 0 / 64)))

digit_of_one : (a : ℕ) → a % 4 * 16 ≡ a % 4 * 16 + 0 / 16
digit_of_one a = omega arith

digit_of_two : (b : ℕ) → b % 16 * 4 ≡ b % 16 * 4 + 0 / 64
digit_of_two b = omega arith

regroup :
    (xs : List ℕ) (a b c : ℕ) (bs : List ℕ)
    → (((xs ++ (a ∷ [])) ++ (b ∷ [])) ++ (c ∷ [])) ++ bs ≡ xs ++ (a ∷ b ∷ c ∷ bs)
regroup [] a b c bs = refl
regroup (x ∷ xs) a b c bs = ap (λ (t : List ℕ). x ∷ t) (regroup xs a b c bs)

regroup2 : (xs : List ℕ) (a b : ℕ) → (xs ++ (a ∷ [])) ++ (b ∷ []) ≡ xs ++ (a ∷ b ∷ [])
regroup2 [] a b = refl
regroup2 (x ∷ xs) a b = ap (λ (t : List ℕ). x ∷ t) (regroup2 xs a b)

-- An int that is not negative.
pub int_of : (n : ℕ) → n < 2 ^ 31 → n % 2 ^ 32 ≡ n
int_of n h = omega (arith, h)

-- The result is the number of the bytes, and the target begins with them.
abbrev pub Yields : List ℕ → Outcome Decoding ℕ → Type 0
Yields bs o =
    (s : Decoding) × (rest : List ℕ) × (o ≡ ok (length bs) s) × (s.target ≡ some (bs ++ rest))

module _ (isspace : ℕ → Bool) (printable : (c : ℕ) → 33 ≤ c → c < 127 → isspace c ≡ false) where
  pton_one :
      (a x y : ℕ) (xs ys : List ℕ)
      → a < 256
      → suc (length xs) < 2 ^ 32
      → bind_outcome (pton_loop isspace (one a) (decoded 0 xs (x ∷ y ∷ ys))) (pton_end isspace)
        ≡ ok (length (xs ++ (a ∷ []))) (decoded 2 (xs ++ (a ∷ [])) (0 ∷ ys))
  pton_one a x y xs ys ha fits =
      rw
        (
          digit_of_one a,
          pton_loop-first_byte isspace printable a 0 x y (pad64 ∷ pad64 ∷ []) xs ys ha (omega arith)
              fits,
          pton_loop-pad isspace printable (pad64 ∷ [])
              (decoded 2 (xs ++ (a ∷ [])) (bit_and (a % 4 * 16 + 0 / 16) 15 * 16 % 256 ∷ ys)),
          no_slop a 15 refl,
        )
        (pton_end_one isspace printable (xs ++ (a ∷ [])) ys)

  pton_two :
      (a b x y z : ℕ) (xs ys : List ℕ)
      → a < 256
      → b < 256
      → length xs + 2 < 2 ^ 32
      → bind_outcome
          (pton_loop isspace (two a b) (decoded 0 xs (x ∷ y ∷ z ∷ ys)))
          (pton_end isspace)
        ≡ ok (length (xs ++ (a ∷ b ∷ []))) (decoded 3 (xs ++ (a ∷ b ∷ [])) (0 ∷ ys))
  pton_two a b x y z xs ys ha hb fits =
      rw
        (
          digit_of_two b,
          pton_loop-first_byte isspace printable a b x y
              (base64_char (b % 16 * 4 + 0 / 64) ∷ pad64 ∷ []) xs (z ∷ ys) ha hb
              (omega (arith, fits)),
          pton_loop-second_byte isspace printable a b 0 z (pad64 ∷ []) (xs ++ (a ∷ [])) ys hb
              (omega arith) (omega (arith, fits, length-append xs (a ∷ []))),
          pton_loop-pad isspace printable [] (
              decoded 3 ((xs ++ (a ∷ [])) ++ (b ∷ []))
                (bit_and (b % 16 * 4 + 0 / 64) 3 * 64 % 256 ∷ ys)),
          no_slop2 b 3 refl,
          regroup2 xs a b,
        )
        (pton_end_two isspace printable (xs ++ (a ∷ b ∷ [])) ys)

  pton_loop-encoding :
      (bs xs ys : List ℕ)
      → All IsByte bs
      → 3 * ((length bs + 2) / 3) ≤ length ys
      → length xs + length bs < 2 ^ 32
      → Yields
          (xs ++ bs)
          (bind_outcome (pton_loop isspace (encoding bs) (decoded 0 xs ys)) (pton_end isspace))
  pton_loop-encoding [] xs ys hb h fits =
      rw (append-nil xs, pton_loop_nil isspace printable (decoded 0 xs ys))
        (decoded 0 xs ys, ys, pton_end_whole isspace printable xs ys, refl)
  pton_loop-encoding (a ∷ []) xs (x ∷ y ∷ ys) (ha, hb) h fits = (
    decoded 2 (xs ++ (a ∷ [])) (0 ∷ ys),
    0 ∷ ys,
    pton_one a x y xs ys ha (omega (arith, fits)),
    refl,
  )
  pton_loop-encoding (a ∷ []) xs [] hb h fits = absurd (omega arith)
  pton_loop-encoding (a ∷ []) xs (x ∷ []) hb h fits = absurd (omega arith)
  pton_loop-encoding (a ∷ b ∷ []) xs (x ∷ y ∷ z ∷ ys) (ha, (hb, hs)) h fits = (
    decoded 3 (xs ++ (a ∷ b ∷ [])) (0 ∷ ys),
    0 ∷ ys,
    pton_two a b x y z xs ys ha hb (omega (arith, fits)),
    refl,
  )
  pton_loop-encoding (a ∷ b ∷ []) xs [] hb h fits = absurd (omega arith)
  pton_loop-encoding (a ∷ b ∷ []) xs (x ∷ []) hb h fits = absurd (omega arith)
  pton_loop-encoding (a ∷ b ∷ []) xs (x ∷ y ∷ []) hb h fits = absurd (omega arith)
  pton_loop-encoding (a ∷ b ∷ c ∷ bs) xs (x ∷ y ∷ z ∷ ys) (ha, (hb, (hc, hs))) h fits =
      rw
        (
          pton_loop-three isspace printable a b c x y z (encoding bs) xs ys ha hb hc
              (omega (arith, fits)),
          sym (regroup xs a b c bs),
        )
        (pton_loop-encoding bs (((xs ++ (a ∷ [])) ++ (b ∷ [])) ++ (c ∷ [])) ys hs (omega arith) (
          omega (
            arith,
            fits,
            length-append xs (a ∷ []),
            length-append (xs ++ (a ∷ [])) (b ∷ []),
            length-append ((xs ++ (a ∷ [])) ++ (b ∷ [])) (c ∷ []),
          )))
  pton_loop-encoding (a ∷ b ∷ c ∷ bs) xs [] hb h fits = absurd (omega arith)
  pton_loop-encoding (a ∷ b ∷ c ∷ bs) xs (x ∷ []) hb h fits = absurd (omega arith)
  pton_loop-encoding (a ∷ b ∷ c ∷ bs) xs (x ∷ y ∷ []) hb h fits = absurd (omega arith)

  pub pton-encoding :
      (bs buf : List ℕ)
      → All IsByte bs
      → 3 * ((length bs + 2) / 3) ≤ length buf
      → length bs < 2 ^ 32
      → Yields bs (pton isspace (encoding bs) (some buf))
  unfolding pton
  pton-encoding bs buf hb h fits = pton_loop-encoding bs [] buf hb h (omega (arith, fits))

  -- For every list of n bytes, where 4 * ((n + 2) / 3) is below 2 ^ 31, a target of more than 4 *
  -- ((n + 2) / 3) characters and a target of at least 3 * ((n + 2) / 3) bytes, f_b64_ntop stores 4
  -- * ((n + 2) / 3) characters and a NUL and returns their number, and f_b64_pton of the
  -- characters returns n and has stored the bytes from the start of its target on, where isspace
  -- is false from 33 to 126.
  pub pton-ntop :
      (bs buf : List ℕ) (targsize : ℕ)
      → All IsByte bs
      → 4 * ((length bs + 2) / 3) < 2 ^ 31
      → 4 * ((length bs + 2) / 3) < targsize
      → 3 * ((length bs + 2) / 3) ≤ length buf
      → (chars : List ℕ) × (ntop bs targsize ≡ (4 * ((length bs + 2) / 3), chars ++ (0 ∷ [])))
        × Yields bs (pton isspace chars (some buf))
  pton-ntop bs buf targsize hb small hn hp = (
    encoding bs,
    ntop-encoding bs targsize hb hn ∙ ap (λ n. (n, encoding bs ++ (0 ∷ []))) (int_of _ small),
    pton-encoding bs buf hb hp (omega (arith, small)),
  )

  pton_loop_short :
      (d e x : ℕ) (src : List ℕ)
      → d < 64
      → e < 64
      → pton_loop isspace (base64_char d ∷ base64_char e ∷ src) (decoded 0 [] (x ∷ []))
        ≡ fail (decoded 1 [] (d * 4 % 256 ∷ []))
  pton_loop_short d e x src hd he =
      pton_loop-digit isspace printable d (base64_char e ∷ src) (decoded 0 [] (x ∷ [])) hd
      ∙ ap (λ o. bind_outcome o (λ _ s'. pton_loop isspace (base64_char e ∷ src) s'))
          (switch-first d [] x [])
      ∙ pton_loop-digit isspace printable e src (decoded 1 [] (d * 4 % 256 ∷ [])) he
      ∙ ap (λ o. bind_outcome o (λ _ s'. pton_loop isspace src s')) (switch_short e (d * 4 % 256))

  -- The encoding of one byte is refused by f_b64_pton on a target of one byte, where isspace is
  -- false from 33 to 126.
  pub pton_exact :
      (a x : ℕ)
      → a < 256
      → (s : Decoding) × (pton isspace (encoding (a ∷ [])) (some (x ∷ [])) ≡ fail s)
  unfolding pton
  pton_exact a x ha = (
    decoded 1 [] (a / 4 * 4 % 256 ∷ []),
    ap (λ o. bind_outcome o (pton_end isspace))
        (pton_loop_short (a / 4) (a % 4 * 16) x (pad64 ∷ pad64 ∷ []) (omega arith) (omega arith)),
  )
