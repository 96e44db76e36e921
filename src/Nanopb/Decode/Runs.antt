-- ===== src/Nanopb/Decode/Runs.antt =====
-- Runs of the pb_dec_* functions.
use test_gbksoft.Common.{ℕ, ◌%◌, refl, arith, none, [], ◌∷◌}
use test_gbksoft.Common.{true, ◌++◌, List, ◌≡◌, Option}
use test_gbksoft.Common.Outcome.{ok, fault, M}
use test_gbksoft.Nanopb.Types.{Field, null}
use test_gbksoft.Nanopb.Memory.{Mem, store_bytes}
use test_gbksoft.Nanopb.Input.Buffer.{at}
use test_gbksoft.Nanopb.Memory.{load, bytes_at}
use test_gbksoft.Nanopb.Types.{ErrMsg}
use test_gbksoft.Nanopb.Varint.{varint_of, varint_in}
use test_gbksoft.Nanopb.Output.{ostream_from_buffer}
use test_gbksoft.Nanopb.Output.Buffer.{out}
use test_gbksoft.Nanopb.Encode.Env.{Env}
use test_gbksoft.Nanopb.Encode.Wire.{signed_text}
use test_gbksoft.Nanopb.Encode.Values.{enc_varint}
use test_gbksoft.Nanopb.Decode.RoundTrip.{dec_varint-enc_varint}
use test_gbksoft.Nanopb.Decode.Values.{dec_varint}
use test_gbksoft.Common.{◌≤◌, ap, some, length, get_elem?}
use test_gbksoft.Nanopb.Types.{FieldPtr, fields, default}
use test_gbksoft.Nanopb.Iter.{begin, next}
use test_gbksoft.Nanopb.Iter.Table.{end_of, field_of}
use test_gbksoft.Nanopb.Encode.Schema.{IsField, IsSchema, All-get}
use test_gbksoft.Nanopb.Decode.Default.{set_to_defaults}
use test_gbksoft.Nanopb.Decode.Defaulted.{IsDefault, set_to_defaults-Returns}
use test_gbksoft.Nanopb.Decode.State.{DecState}
use test_gbksoft.Nanopb.Decode.Allocate.{Realloc}
use test_gbksoft.Nanopb.Decode.Values.{decoder}
use test_gbksoft.Nanopb.Decode.Confined.{Confined}
use test_gbksoft.Nanopb.Decode.Bounds.{decoder-Confined}

-- A required string with room for three characters and the terminator.
abbrev name : Field
name = record {
  tag = 1;
  type = 0x06;
  data_offset = 0;
  size_offset = 0;
  data_size = 4;
  array_size = 0;
  ptr = null;
}

abbrev memory : Mem
memory a = a % 7

-- An allocator that has nothing to give.
abbrev no_heap : Realloc (Unit {0})
no_heap ptr size mem heap = (0, mem, heap)

abbrev no_submessage : Field → ℕ → M (DecState (Unit {0}) (Unit {0})) (Unit {0})
no_submessage field dest s = fault

decoder-Confined_example : Confined 200 4 (3 ∷ 65 ∷ 66 ∷ 67 ∷ 9 ∷ []) 5 memory (
    decoder no_heap no_submessage name 200 (record {
      stream = at {σ = Unit {0}} (3 ∷ 65 ∷ 66 ∷ 67 ∷ 9 ∷ []) 5 none;
      mem = memory;
      heap = tt;
    }))
decoder-Confined_example =
    decoder-Confined name 200 no_heap refl no_submessage (omega arith)
      (λ e. absurd (omega (arith, e))) (λ e. absurd (omega (arith, e))) (3 ∷ 65 ∷ 66 ∷ 67 ∷ 9 ∷ [])
      5 none memory tt (omega arith)

-- A required int32.
abbrev number : Field
number = record {
  tag = 1;
  type = 0x00;
  data_offset = 0;
  size_offset = 0;
  data_size = 4;
  array_size = 0;
  ptr = null;
}

-- Bytes of 255: the integer -1.
abbrev ones : Mem
ones a = 255

abbrev environment : Env (Unit {0})
environment = record {
  mem = ones;
  table = λ k. [];
  encode_callback = λ encode f arg s. ok tt s;
  encode_extension = λ handler extension s. ok tt s;
}

abbrev minus_one : List ℕ
minus_one = 255 ∷ 255 ∷ 255 ∷ 255 ∷ 255 ∷ 255 ∷ 255 ∷ 255 ∷ 255 ∷ 1 ∷ []

text_lem : signed_text ones (λ v. v) number 100 ≡ (true, minus_one)
unfolding signed_text load varint_of varint_in
text_lem = refl

dec_varint-enc_varint_example :
    ((err : Option ErrMsg) × (enc_varint environment number 100
          (ostream_from_buffer (minus_one ++ 5 ∷ []) 11)
        ≡ ok tt (out minus_one (5 ∷ []) 11 10 err)))
    × (dec_varint {σ = Unit {0}} number 200
          (record { stream = at (minus_one ++ 9 ∷ []) 11 none; mem = memory; heap = tt })
        ≡ ok tt (record {
          stream = at (9 ∷ []) 1 none;
          mem = store_bytes (255 ∷ 255 ∷ 255 ∷ 255 ∷ []) 200 memory;
          heap = tt;
        }))
unfolding bytes_at
dec_varint-enc_varint_example =
    dec_varint-enc_varint environment number 100 200 (omega arith) minus_one (minus_one ++ 5 ∷ [])
      11 (9 ∷ []) 1 none memory tt text_lem (omega arith) (omega arith) (omega arith)

-- A required int32 whose default is 7, and the end of the message.
abbrev seven : Field
seven = record {
  tag = 1;
  type = 0x00;
  data_offset = 0;
  size_offset = 0;
  data_size = 4;
  array_size = 0;
  ptr = default (7 ∷ 0 ∷ 0 ∷ 0 ∷ []);
}

abbrev last : Field
last = record {
  tag = 0;
  type = 0;
  data_offset = 0;
  size_offset = 0;
  data_size = 0;
  array_size = 0;
  ptr = null;
}

abbrev tables : ℕ → List Field
tables k = seven ∷ last ∷ []

seven-IsField : (k : ℕ) → IsField k seven
seven-IsField k = record {
  tag_fits = omega arith;
  data_fits = omega arith;
  array_fits = omega arith;
  encodable = omega arith;
  regular = λ e. absurd (omega (arith, e));
  message = λ e. absurd (omega (arith, e));
  described = λ e. absurd (omega (arith, e));
}

last-IsField : (k : ℕ) → IsField k last
last-IsField k = record {
  tag_fits = omega arith;
  data_fits = omega arith;
  array_fits = omega arith;
  encodable = omega arith;
  regular = λ e. absurd (omega (arith, e));
  message = λ e. absurd (omega (arith, e));
  described = λ e. absurd (omega (arith, e));
}

tables-IsSchema : IsSchema tables
tables-IsSchema = record {
  size = λ k. 1;
  ends = λ k. field_of seven (last ∷ []) 0 refl (end_of last [] refl);
  each = λ k. (seven-IsField k, (last-IsField k, tt));
}

default_size : FieldPtr → ℕ
default_size null = 0
default_size (fields k) = 0
default_size (default bytes) = length bytes

tables-IsDefault : (k i : ℕ) (f : Field) → get_elem? (tables k) i ≡ some f → IsDefault f
unfolding default_size
tables-IsDefault k i f e = All-get IsDefault (tables k) i f (of_seven, (of_last, tt)) e
  where
    long : (bytes : List ℕ) → default (7 ∷ 0 ∷ 0 ∷ 0 ∷ []) ≡ default bytes → 4 ≤ length bytes
    long bytes e = omega (arith, ap (λ (p : FieldPtr). default_size p) e)

    of_seven : IsDefault seven
    of_seven = record { whole = long; apart = λ k e. absurd (cc e) }

    of_last : IsDefault last
    of_last = record { whole = λ bytes e. absurd (cc e); apart = λ k e. absurd (cc e) }

set_to_defaults-Returns_example :
    (mem' : Mem) × (set_to_defaults tables 0 1 0 200 memory ≡ ok tt mem')
set_to_defaults-Returns_example =
    set_to_defaults-Returns tables tables-IsSchema tables-IsDefault 0 1 0 200 memory (omega arith)

-- It puts the default there.
set_to_defaults_runs :
    set_to_defaults tables 0 1 0 200 memory ≡ ok tt (store_bytes (7 ∷ 0 ∷ 0 ∷ 0 ∷ []) 200 memory)
unfolding set_to_defaults begin next
set_to_defaults_runs = refl
