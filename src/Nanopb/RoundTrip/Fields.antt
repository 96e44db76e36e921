-- ===== src/Nanopb/RoundTrip/Fields.antt =====
-- Tags, length-delimited strings and whole fields that are skipped.
use test_gbksoft.Common.{ℕ, ◌+◌, ◌*◌, ◌/◌, ◌%◌, ◌^◌, ◌≤◌, ◌<◌, ◌≡◌, refl, arith, bit_or}
use test_gbksoft.Common.{
  List, [], ◌∷◌, ◌++◌, length, length-append, append_assoc, true, false, some, Option, zero, suc,
  ◌==◌,
}
use test_gbksoft.Common.Bits.{bit_and-mask, shifted_bit_or, top_bit}
use test_gbksoft.Common.Outcome.{ok}
use test_gbksoft.Nanopb.Types.{IsU32, IsU64, ErrMsg}
use test_gbksoft.Nanopb.Types.WireType
use test_gbksoft.Nanopb.Input.SafeReaders.{read_one-at}
use test_gbksoft.Nanopb.Input.Buffer.{at, skip-at, skip_rest}
use test_gbksoft.Nanopb.Input.Varint.{skip_string, skip_varint, skip_varint_loop}
use test_gbksoft.Nanopb.Input.Wire.{tag_of, decode_tag, skip_field, make_string_substream}
use test_gbksoft.Nanopb.Input.Wire.{take_substream, close_string_substream}
use test_gbksoft.Nanopb.RoundTrip.Scalars.{decode_varint32-varint_of}
use test_gbksoft.Nanopb.Output.Primitives.{encode_tag}
use test_gbksoft.Nanopb.RoundTrip.{Reads, RoundTrips}
use test_gbksoft.Nanopb.Varint.{IsVarint, varint_of}
use test_gbksoft.Nanopb.Varint.Decode32.{decode_varint32_eof-value}
use test_gbksoft.Nanopb.Varint.Encode.{encode_varint-write, varint_of-IsVarint, length-varint_of}

-- The key of a field: its number above three bits for the wire type.
key_lem : (w n : ℕ) → w < 8 → n < 2 ^ 29 → bit_or (n * 2 ^ 3 % 2 ^ 64) w ≡ n * 8 + w
key_lem w n hw hn = ground (arith, shifted_bit_or 3 w n)

tag_of-key :
    (w n : ℕ)
    → w < 8
    → 1 ≤ n
    → tag_of (some (n * 8 + w), false)
      ≡ record { found = true; wire_type = w; tag = n; eof = false }
unfolding tag_of
tag_of-key w n hw hn = ground (arith, bit_and-mask 3 (n * 8 + w))

module _ {τ σ : Type 0} where
  -- pb_decode_tag reads back the wire type, below 8, and the field number, 1 to 2 ^ 29 - 1, that
  -- pb_encode_tag writes, and does not report the end of the message.
  pub decode_tag-encode_tag :
      (w n : ℕ)
      → w < 8
      → 1 ≤ n
      → n < 2 ^ 29
      → RoundTrips {τ = τ} {σ = σ}
          (encode_tag w n)
          decode_tag
          (record { found = true; wire_type = w; tag = n; eof = false })
  unfolding encode_tag decode_tag
  decode_tag-encode_tag w n hw h1 hn =
      let key : ℕ = n * 8 + w in
      let u64 : IsU64 key = omega arith in
      let (v, e) = varint_of-IsVarint key u64 in
      (
        varint_of key,
        λ s. rw (key_lem w n hw hn) (encode_varint-write key s u64),
        λ rest left err. rw (
          decode_varint32_eof-value {σ = σ} (varint_of key) rest left err v
              (omega (arith, length-varint_of key u64)) (omega (arith, e)),
          e,
          tag_of-key w n hw h1,
        ),
      )

positive : (n : ℕ) → (suc n == 0) ≡ false
positive n = ground arith

regroup : (xs ys : List ℕ) (n : ℕ) → length (xs ++ ys) + n ≡ length xs + (length ys + n)
regroup xs ys n = omega (arith, length-append xs ys)

suc_first : (m n : ℕ) → suc m + n ≡ suc (m + n)
suc_first m n = omega arith

one_first : (n : ℕ) → 1 + n ≡ suc n
one_first n = omega arith

no_top_bit : (b : ℕ) → b < 128 → (b / 128 * 128 == 0) ≡ true
no_top_bit b h = ground arith

has_top_bit : (b : ℕ) → 128 ≤ b → b < 256 → (b / 128 * 128 == 0) ≡ false
has_top_bit b h1 h2 = ground arith

-- The bytes of a value, by its wire type, apart from the code.
pub data WireValue : ℕ → List ℕ → Type 0 where
  varint : (bs : List ℕ) → IsVarint bs → WireValue WireType.varint bs
  bits64 : (bs : List ℕ) → length bs ≡ 8 → WireValue WireType.bits64 bs
  string :
      (payload : List ℕ)
      → IsU32 (length payload)
      → (bs : List ℕ) → bs ≡ varint_of (length payload) ++ payload
      → WireValue WireType.string bs
  bits32 : (bs : List ℕ) → length bs ≡ 4 → WireValue WireType.bits32 bs

module _ {σ : Type 0} where
  take_substream-at :
      (mem : List ℕ) (size left : ℕ) (err : Option ErrMsg)
      → take_substream {σ = σ} size (at mem (size + left) err)
        ≡ ok (at mem size err) (at mem left err)
  unfolding take_substream
  take_substream-at mem size left err = ground arith

  -- pb_make_string_substream of a payload behind its length, which fits 32 bits, gives a stream of
  -- just the payload, and takes its size off the stream.
  pub make_string_substream-payload :
      (payload rest : List ℕ) (left : ℕ) (err : Option ErrMsg)
      → IsU32 (length payload)
      → let prefix = varint_of (length payload) in
        make_string_substream {σ = σ}
          (at (prefix ++ (payload ++ rest)) (length prefix + (length payload + left)) err)
        ≡ ok (at (payload ++ rest) (length payload) err) (at (payload ++ rest) left err)
  unfolding make_string_substream
  make_string_substream-payload payload rest left err h =
      rw
        (decode_varint32-varint_of {σ = σ} (length payload) h (payload ++ rest)
          (length payload + left) err)
        (take_substream-at (payload ++ rest) (length payload) left err)

  -- pb_close_string_substream skips what is unread of the substream, and the stream goes on behind
  -- it with the error message of the substream.
  pub close_string_substream-unread :
      (unread rest mem : List ℕ) (left : ℕ) (err err' : Option ErrMsg)
      → close_string_substream {σ = σ} (at (unread ++ rest) (length unread) err') (at mem left err)
        ≡ ok tt (at rest left err')
  unfolding close_string_substream
  close_string_substream-unread [] rest mem left err err' = refl
  close_string_substream-unread (b ∷ unread) rest mem left err err' =
      rw (positive (length unread), skip_rest {σ = σ} (b ∷ unread) rest err')

  skip_string-payload :
      (payload : List ℕ)
      → IsU32 (length payload)
      → Reads {σ = σ} skip_string (varint_of (length payload) ++ payload) tt
  unfolding skip_string
  skip_string-payload payload h rest left err =
      rw
        (
          append_assoc (varint_of (length payload)) payload rest,
          regroup (varint_of (length payload)) payload left,
          decode_varint32-varint_of {σ = σ} (length payload) h (payload ++ rest)
              (length payload + left) err,
        )
        (skip-at payload rest left err)

  skip_varint_loop-varint :
      (bs rest : List ℕ) (fuel left : ℕ) (err : Option ErrMsg)
      → IsVarint bs
      → length bs ≤ fuel
      → skip_varint_loop {σ = σ} fuel (at (bs ++ rest) (length bs + left) err)
        ≡ ok tt (at rest left err)
  unfolding skip_varint_loop
  skip_varint_loop-varint [] rest fuel left err hv hf = absurd hv
  skip_varint_loop-varint (b ∷ bs) rest zero left err hv hf = absurd (omega arith)
  skip_varint_loop-varint (b ∷ []) rest (suc fuel) left err hv hf =
      rw (one_first left, read_one-at σ b rest left err, top_bit b (omega arith), no_top_bit b hv)
  skip_varint_loop-varint (b ∷ c ∷ bs) rest (suc fuel) left err hv hf =
      let more : List ℕ = c ∷ bs in
      rw
        (
          suc_first (length more) left,
          read_one-at σ b (more ++ rest) (length more + left) err,
          top_bit b hv.1,
          has_top_bit b hv.0 hv.1,
        )
        (skip_varint_loop-varint more rest fuel left err hv.2 (omega arith))

  skip_varint-varint : (bs : List ℕ) → IsVarint bs → Reads {σ = σ} skip_varint bs tt
  unfolding skip_varint
  skip_varint-varint bs hv rest left err =
      skip_varint_loop-varint bs rest (suc (length bs + left)) left err hv (omega arith)

  -- pb_skip_field takes exactly the bytes of the value behind a key, for each of the four wire
  -- types, whatever follows.
  pub skip_field-value : (w : ℕ) (bs : List ℕ) → WireValue w bs → Reads {σ = σ} (skip_field w) bs tt
  unfolding skip_field
  skip_field-value w bs (varint _ h) = skip_varint-varint bs h
  skip_field-value w bs (bits64 _ h) = λ rest left err. rw (← h) (skip-at bs rest left err)
  skip_field-value w bs (string payload h _ e) = rw e (skip_string-payload payload h)
  skip_field-value w bs (bits32 _ h) = λ rest left err. rw (← h) (skip-at bs rest left err)
