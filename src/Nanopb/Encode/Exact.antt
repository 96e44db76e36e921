-- ===== src/Nanopb/Encode/Exact.antt =====
-- What the functions for a whole message write: pb_encode, pb_encode_delimited,
-- pb_encode_nullterminated and pb_get_encoded_size.
use test_gbksoft.Common.{
  ℕ, ◌+◌, ◌^◌, ◌≤◌, ◌<◌, ◌≡◌, refl, arith, Bool, true, Option, none, List, [], ◌∷◌, ◌++◌, length,
  drop,
}
use test_gbksoft.Common.Outcome.{ok, fail, M}
use test_gbksoft.Nanopb.Types.{Field, ErrMsg}
use test_gbksoft.Nanopb.Output.{OStream, ostream_from_buffer, write}
use test_gbksoft.Nanopb.Output.Buffer.{out, counting}
use test_gbksoft.Nanopb.Output.Text.{Text}
use test_gbksoft.Nanopb.Output.Steady.{
  Writes, Writes-bind, Writes-write, IsSteady, counted_ok, counted_fail, stored_ok, stored_fail,
}
use test_gbksoft.Nanopb.Varint.{varint_of}
use test_gbksoft.Nanopb.Encode.Env.{Env}
use test_gbksoft.Nanopb.Encode.Schema.{IsSchema}
use test_gbksoft.Nanopb.Encode.Wire.{message_text}
use test_gbksoft.Nanopb.Encode.Frames.{ostream_sizing_lem}
use test_gbksoft.Nanopb.Encode.Submessages.{Writes-submessage}
use test_gbksoft.Nanopb.Encode.SteadyBasic.{CallbacksWrite}
use test_gbksoft.Nanopb.Encode.SteadyMessage.{Writes-encode}
use test_gbksoft.Nanopb.Encode.Message.{
  encode, encode_delimited, encode_nullterminated, encode_submessage, get_encoded_size, size_result,
}

zero_plus : (n : ℕ) → 0 + n ≡ n
zero_plus n = omega arith

module _ {τ : Type 0} where
  -- A writer on a stream over a whole buffer.
  pub stores :
      {bs : List ℕ} (op : M (OStream τ) (Unit {0})) (buf : List ℕ) (bufsize : ℕ)
      → IsSteady true bs op
      → length bs ≤ bufsize
      → bufsize < 2 ^ 63
      → bufsize ≤ length buf
      → (err : Option ErrMsg) × (op (ostream_from_buffer buf bufsize)
          ≡ ok tt (out bs (drop (length bs) buf) bufsize (length bs) err))
  stores {bs} op buf bufsize h room limit inside =
      elim (h.stored [] buf bufsize 0 none limit (omega arith) (omega arith) (omega arith)) [
        | stored_ok t fits err e ↦ (err, rw (zero_plus (length bs)) at e)
        | stored_fail full part within err e ↦ absurd (omega (arith, full refl))
      ]

  refuses :
      {good : Bool} {bs : List ℕ} (op : M (OStream τ) (Unit {0})) (buf : List ℕ) (bufsize : ℕ)
      → IsSteady good bs op
      → (good ≡ true → bufsize < length bs)
      → length bs < 2 ^ 63
      → bufsize < 2 ^ 63
      → bufsize ≤ length buf
      → (part : List ℕ) × (err : Option ErrMsg) × (op (ostream_from_buffer buf bufsize)
          ≡ fail (out part (drop (length part) buf) bufsize (length part) err))
        × (length part ≤ bufsize)
  refuses op buf bufsize h no_room short limit inside =
      elim (h.stored [] buf bufsize 0 none limit short (omega arith) (omega arith)) [
        | stored_ok t fits err e ↦ absurd (omega (arith, no_room t))
        | stored_fail full part within err e ↦
            (part, err, rw (zero_plus (length part)) at e, omega (arith, within))
      ]

module _ {τ : Type 0} (env : Env τ) (schema : IsSchema env.table) (callback : ℕ → Field → ℕ → Text)
    (callbacks : CallbacksWrite env callback) (lists fuel k src : ℕ) (deep : k < fuel) where
  open env use {mem, table}

  writes : Writes (message_text mem table callback fuel k src) (encode env lists fuel k src)
  writes = Writes-encode env schema callback callbacks lists fuel k src deep

  is_steady :
      (bs : List ℕ)
      → message_text mem table callback fuel k src ≡ (true, bs)
      → IsSteady true bs (encode env lists fuel k src)
  is_steady bs e =
      let w : Writes (true, bs) (encode env lists fuel k src) = rw (← e) writes in w.steady

  -- Where the tables of descriptors are in order and messages do not contain themselves, no
  -- message has an extension field, each callback of the user writes the same bytes every time,
  -- and the fuel exceeds the place of the descriptors: pb_encode of a message that has a text on
  -- the wire, into a buffer that holds bufsize bytes, fewer than 2 ^ 63 and enough for the text,
  -- returns true, stores exactly the text from the start of the buffer on, and counts it.
  pub encode-message_text :
      (bs buf : List ℕ) (bufsize : ℕ)
      → message_text mem table callback fuel k src ≡ (true, bs)
      → length bs ≤ bufsize
      → bufsize < 2 ^ 63
      → bufsize ≤ length buf
      → (err : Option ErrMsg) × (encode env lists fuel k src (ostream_from_buffer buf bufsize)
          ≡ ok tt (out bs (drop (length bs) buf) bufsize (length bs) err))
  encode-message_text bs buf bufsize e room limit inside =
      stores (encode env lists fuel k src) buf bufsize (is_steady bs e) room limit inside

  -- Where the tables of descriptors are in order and messages do not contain themselves, no
  -- message has an extension field, each callback of the user writes the same bytes every time,
  -- and the fuel exceeds the place of the descriptors: pb_encode into a buffer that holds bufsize
  -- bytes, fewer than 2 ^ 63, of a message that cannot be encoded or whose text, of fewer than 2 ^
  -- 63 bytes, is longer than bufsize, returns false and has stored at most bufsize bytes, and the
  -- rest of the buffer is as it was.
  pub encode-Bounded :
      (good : Bool) (bs buf : List ℕ) (bufsize : ℕ)
      → message_text mem table callback fuel k src ≡ (good, bs)
      → (good ≡ true → bufsize < length bs)
      → length bs < 2 ^ 63
      → bufsize < 2 ^ 63
      → bufsize ≤ length buf
      → (part : List ℕ) × (err : Option ErrMsg) × (encode env lists fuel k src
            (ostream_from_buffer buf bufsize)
          ≡ fail (out part (drop (length part) buf) bufsize (length part) err))
        × (length part ≤ bufsize)
  encode-Bounded good bs buf bufsize e no_room short limit inside =
      let w : Writes (good, bs) (encode env lists fuel k src) = rw (← e) writes in
      refuses (encode env lists fuel k src) buf bufsize w.steady no_room short limit inside

  -- Where the tables of descriptors are in order and messages do not contain themselves, no
  -- message has an extension field, each callback of the user writes the same bytes every time,
  -- and the fuel exceeds the place of the descriptors: pb_get_encoded_size of a message that has a
  -- text on the wire, of fewer than 2 ^ 64 bytes, returns true and the length of the text.
  pub get_encoded_size-message_text :
      (bs : List ℕ)
      → message_text mem table callback fuel k src ≡ (true, bs)
      → length bs < 2 ^ 64
      → (s : OStream τ) × (get_encoded_size env lists fuel k src ≡ ok (length bs) s)
  unfolding get_encoded_size size_result
  get_encoded_size-message_text bs e short =
      elim ((is_steady bs e).counted 0 0 none (omega arith)) [
        | counted_ok t err e' ↦
            (counting 0 (length bs) err, rw (ostream_sizing_lem, e', zero_plus (length bs)) refl)
        | counted_fail t s e' ↦ absurd (cc t)
      ]

  -- Where the tables of descriptors are in order and messages do not contain themselves, no
  -- message has an extension field, each callback of the user writes the same bytes every time,
  -- and the fuel exceeds the place of the descriptors: pb_encode_delimited of a message that has a
  -- text on the wire, into a buffer that holds bufsize bytes, fewer than 2 ^ 63 and enough for the
  -- varint of the length of the text and the text, returns true and stores just these.
  pub encode_delimited-message_text :
      (bs buf : List ℕ) (bufsize : ℕ)
      → message_text mem table callback fuel k src ≡ (true, bs)
      → length (varint_of (length bs) ++ bs) ≤ bufsize
      → bufsize < 2 ^ 63
      → bufsize ≤ length buf
      → (err : Option ErrMsg) × (encode_delimited env lists fuel k src
            (ostream_from_buffer buf bufsize)
          ≡ ok tt (
              out
                (varint_of (length bs) ++ bs)
                (drop (length (varint_of (length bs) ++ bs)) buf)
                bufsize
                (length (varint_of (length bs) ++ bs))
                err))
  unfolding encode_delimited encode_submessage
  encode_delimited-message_text bs buf bufsize e room limit inside =
      let w : Writes (true, bs) (encode env lists fuel k src) = rw (← e) writes in
      stores (encode_delimited env lists fuel k src) buf bufsize
        (Writes-submessage (encode env lists fuel k src) w).steady room limit inside

  -- Where the tables of descriptors are in order and messages do not contain themselves, no
  -- message has an extension field, each callback of the user writes the same bytes every time,
  -- and the fuel exceeds the place of the descriptors: pb_encode_nullterminated of a message that
  -- has a text on the wire, into a buffer that holds bufsize bytes, fewer than 2 ^ 63 and enough
  -- for the text and one byte, returns true and stores the text and a zero byte.
  pub encode_nullterminated-message_text :
      (bs buf : List ℕ) (bufsize : ℕ)
      → message_text mem table callback fuel k src ≡ (true, bs)
      → length (bs ++ 0 ∷ []) ≤ bufsize
      → bufsize < 2 ^ 63
      → bufsize ≤ length buf
      → (err : Option ErrMsg) × (encode_nullterminated env lists fuel k src
            (ostream_from_buffer buf bufsize)
          ≡ ok tt (
              out
                (bs ++ 0 ∷ [])
                (drop (length (bs ++ 0 ∷ [])) buf)
                bufsize
                (length (bs ++ 0 ∷ []))
                err))
  unfolding encode_nullterminated
  encode_nullterminated-message_text bs buf bufsize e room limit inside =
      let w : Writes (true, bs) (encode env lists fuel k src) = rw (← e) writes in
      stores (encode_nullterminated env lists fuel k src) buf bufsize
        (Writes-bind (encode env lists fuel k src) (write (0 ∷ [])) w
          (Writes-write (0 ∷ []))).steady
        room limit inside
