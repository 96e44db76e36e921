-- ===== src/Nanopb/Encode/Runs.antt =====
-- Runs of the message encoder on a message with a submessage, a packed array and a callback.
use test_gbksoft.Common.{
  ℕ, zero, suc, ◌^◌, ◌%◌, ◌≤◌, ◌<◌, ◌≡◌, ◌≢◌, refl, arith, Bool, true, Option, some, List, [], ◌∷◌,
  ◌++◌, length, drop, All,
}
use test_gbksoft.Common.Outcome.{ok, fail}
use test_gbksoft.Nanopb.Types.{Field, FieldPtr, null, fields, ErrMsg, ltype, htype}
use test_gbksoft.Nanopb.Iter.Placed.{placed, placed_after}
use test_gbksoft.Nanopb.Iter.Table.{IsTable, end_of, field_of}
use test_gbksoft.Nanopb.Memory.{Mem, load, bytes_at}
use test_gbksoft.Nanopb.Output.{OStream, ostream_from_buffer, write}
use test_gbksoft.Nanopb.Output.Buffer.{out}
use test_gbksoft.Nanopb.Output.Text.{Text}
use test_gbksoft.Nanopb.Output.Steady.{Writes-write}
use test_gbksoft.Nanopb.Varint.{varint_of, varint_in}
use test_gbksoft.Nanopb.Encode.Env.{Env}
use test_gbksoft.Nanopb.Encode.Schema.{IsField, IsSchema}
use test_gbksoft.Nanopb.Encode.Default.{is_default}
use test_gbksoft.Nanopb.Encode.Message.{
  encode, encode_delimited, encode_nullterminated, get_encoded_size,
}
use test_gbksoft.Nanopb.Encode.Wire.{message_text}
use test_gbksoft.Nanopb.Encode.SteadyBasic.{CallbacksWrite}
use test_gbksoft.Nanopb.Encode.Answers.{is_default-Answers}
use test_gbksoft.Nanopb.Encode.Exact.{
  encode-message_text, encode-Bounded, get_encoded_size-message_text,
}
use test_gbksoft.Nanopb.Encode.Exact.{
  encode_delimited-message_text, encode_nullterminated-message_text,
}

abbrev field : ℕ → ℕ → ℕ → ℕ → FieldPtr → Field
field tag type data_size array_size ptr = record {
  tag = tag;
  type = type;
  data_offset = 0;
  size_offset = 0;
  data_size = data_size;
  array_size = array_size;
  ptr = ptr;
}

abbrev last : Field
last = field 0 0 0 0 null

-- A required uint32.
abbrev number : Field
number = field 1 0x01 4 0 null

-- A required submessage, an array of two fixed32, and a callback.
abbrev inner : Field
inner = field 2 0x07 4 0 (fields 0)

abbrev words : Field
words = field 3 0x23 4 2 null

abbrev called : Field
called = field 4 0x40 16 0 null

abbrev tables : ℕ → List Field
tables zero = number ∷ last ∷ []
tables (suc zero) = inner ∷ words ∷ called ∷ last ∷ []
tables (suc (suc k)) = last ∷ []

abbrev memory : Mem
memory a = a % 3

abbrev written : ℕ → Field → ℕ → Text
written encode f arg = (true, 0x20 ∷ 7 ∷ [])

abbrev environment : Env (Unit {0})
environment = record {
  mem = memory;
  table = tables;
  encode_callback = λ encode f arg. write (0x20 ∷ 7 ∷ []);
  encode_extension = λ handler extension s. ok tt s;
}

-- A field that is no submessage.
plain :
    (k tag type data_size array_size : ℕ)
    → (tag < 2 ^ 32) × (data_size < 2 ^ 32) × (array_size < 2 ^ 32)
    → (ltype type ≤ 9) × (ltype type ≢ 7) × (ltype type ≢ 8) × (htype type ≢ 48)
    → IsField k (field tag type data_size array_size null)
plain k tag type data_size array_size (h1, h2, h3) (l, m, r, o) = record {
  tag_fits = h1;
  data_fits = h2;
  array_fits = h3;
  encodable = l;
  regular = r;
  message = λ e. absurd (m e);
  described = λ e. absurd (o e);
}

number-IsField : IsField 0 number
number-IsField = plain 0 1 0x01 4 0 (omega arith) (omega arith)

words-IsField : IsField 1 words
words-IsField = plain 1 3 0x23 4 2 (omega arith) (omega arith)

called-IsField : IsField 1 called
called-IsField = plain 1 4 0x40 16 0 (omega arith) (omega arith)

last-IsField : (k : ℕ) → IsField k last
last-IsField k = plain k 0 0 0 0 (omega arith) (omega arith)

inner-IsField : IsField 1 inner
inner-IsField = record {
  tag_fits = omega arith;
  data_fits = omega arith;
  array_fits = omega arith;
  encodable = omega arith;
  regular = λ e. absurd (omega (arith, e));
  message = λ e. (0, refl, omega arith);
  described = λ e. absurd (omega (arith, e));
}

tables-IsSchema : IsSchema tables
tables-IsSchema = record { size = count; ends = tabled; each = described }
  where
    count : ℕ → ℕ
    count zero = 1
    count (suc zero) = 3
    count (suc (suc k)) = 0

    tabled : (k : ℕ) → IsTable (tables k) (count k)
    tabled zero = field_of number _ 0 refl (end_of last [] refl)
    tabled (suc zero) =
        field_of inner _ 2 refl
          (field_of words _ 1 refl (field_of called _ 0 refl (end_of last [] refl)))
    tabled (suc (suc k)) = end_of last [] refl

    described : (k : ℕ) → All (IsField k) (tables k)
    described zero = (number-IsField, (last-IsField 0, tt))
    described (suc zero) = (inner-IsField, (words-IsField, (called-IsField, (last-IsField 1, tt))))
    described (suc (suc k)) = (last-IsField (suc (suc k)), tt)

writes_same : CallbacksWrite environment written
writes_same encode f arg = Writes-write (0x20 ∷ 7 ∷ [])

-- The submessage: key, length, and the number; the words: key, length, and eight bytes; the callback.
abbrev text : List ℕ
text = 18 ∷ 5 ∷ 8 ∷ 129 ∷ 132 ∷ 128 ∷ 8 ∷ 26 ∷ 8 ∷ 2 ∷ 0 ∷ 1 ∷ 2 ∷ 0 ∷ 1 ∷ 2 ∷ 0 ∷ 32 ∷ 7 ∷ []

abbrev buffer : List ℕ
buffer = text ++ text

text_lem : message_text memory tables written 2 1 100 ≡ (true, text)
unfolding message_text load bytes_at placed placed_after varint_of varint_in
text_lem = refl

encode-message_text_example :
    (err : Option ErrMsg) × (encode environment 0 2 1 100 (ostream_from_buffer buffer 38)
      ≡ ok tt (out text (drop 19 buffer) 38 19 err))
encode-message_text_example =
    encode-message_text environment tables-IsSchema written writes_same 0 2 1 100 (omega arith) text
      buffer 38 text_lem (omega arith) (omega arith) (omega arith)

encode-Bounded_example :
    (part : List ℕ) × (err : Option ErrMsg) × (encode environment 0 2 1 100
        (ostream_from_buffer buffer 18)
      ≡ fail (out part (drop (length part) buffer) 18 (length part) err))
    × (length part ≤ 18)
encode-Bounded_example =
    encode-Bounded environment tables-IsSchema written writes_same 0 2 1 100 (omega arith) true text
      buffer 18 text_lem (λ t. omega arith) (omega arith) (omega arith) (omega arith)

get_encoded_size-message_text_example :
    (s : OStream (Unit {0})) × (get_encoded_size environment 0 2 1 100 ≡ ok 19 s)
get_encoded_size-message_text_example =
    get_encoded_size-message_text environment tables-IsSchema written writes_same 0 2 1 100
      (omega arith) text text_lem (omega arith)

encode_delimited-message_text_example :
    (err : Option ErrMsg) × (encode_delimited environment 0 2 1 100 (ostream_from_buffer buffer 38)
      ≡ ok tt (out (varint_of 19 ++ text) (drop 20 buffer) 38 20 err))
unfolding varint_of varint_in
encode_delimited-message_text_example =
    encode_delimited-message_text environment tables-IsSchema written writes_same 0 2 1 100
      (omega arith) text buffer 38 text_lem (omega arith) (omega arith) (omega arith)

encode_nullterminated-message_text_example :
    (err : Option ErrMsg) × (encode_nullterminated environment 0 2 1 100
        (ostream_from_buffer buffer 38)
      ≡ ok tt (out (text ++ 0 ∷ []) (drop 20 buffer) 38 20 err))
encode_nullterminated-message_text_example =
    encode_nullterminated-message_text environment tables-IsSchema written writes_same 0 2 1 100
      (omega arith) text buffer 38 text_lem (omega arith) (omega arith) (omega arith)

is_default-Answers_example : (b : Bool) × (is_default memory tables 2 inner 100 ≡ some b)
is_default-Answers_example =
    is_default-Answers memory tables tables-IsSchema 2 1 inner 100 (omega arith) inner-IsField
