-- ===== src/Nanopb/Decode/MessageRuns.antt =====
-- Runs of pb_decode.
use test_gbksoft.Common.{
  ℕ, ◌+◌, ◌*◌, ◌-◌, Bool, true, false, length, ◌^◌, ◌≡◌, refl, Option, none, some, List, [], ◌∷◌,
}
use test_gbksoft.Common.Outcome.{Outcome, ok, fail, fault, stuck}
use test_gbksoft.Nanopb.Types.{Field, null, fields, ErrMsg}
use test_gbksoft.Nanopb.Memory.{Mem, load, bytes_at, store_bytes}
use test_gbksoft.Nanopb.Iter.{begin, next, find}
use test_gbksoft.Nanopb.Input.{read, readbyte, skip}
use test_gbksoft.Nanopb.Input.Buffer.{at}
use test_gbksoft.Nanopb.Decode.State.{DecState}
use test_gbksoft.Nanopb.Decode.Env.{Env}
use test_gbksoft.Nanopb.Decode.Calls.{decode}
use test_gbksoft.Nanopb.Decode.Env.{on_mem, on_substream}
use test_gbksoft.Nanopb.Decode.Default.{set_to_defaults}
use test_gbksoft.Nanopb.Decode.State.{on_stream}
use test_gbksoft.Nanopb.Input.Wire.{
  decode_tag, tag_of, make_string_substream, close_string_substream,
}
use test_gbksoft.Nanopb.Input.Varint.{decode_varint32_eof, decode_varint32, decode_varint}
use test_gbksoft.Nanopb.Decode.Field.{decode_field}
use test_gbksoft.Nanopb.Decode.Static.{decode_static_field}
use test_gbksoft.Nanopb.Decode.Values.{zeros, decoder}
use test_gbksoft.Common.{zero, suc, All, ◌≤◌, ◌≢◌, arith, get_elem?}
use test_gbksoft.Nanopb.Types.{atype, ltype}
use test_gbksoft.Nanopb.Types.Atype
use test_gbksoft.Nanopb.Iter.Table.{IsTable, end_of, field_of}
use test_gbksoft.Nanopb.Encode.Schema.{IsField, IsSchema, All-get}
use test_gbksoft.Nanopb.Decode.Defaulted.{IsDefault}
use test_gbksoft.Nanopb.Decode.Total.{Finishes, Total-fail}
use test_gbksoft.Nanopb.Decode.TotalCalls.{
  decode-Finishes, decode_delimited-Finishes, message_loop-IsSound,
}
use test_gbksoft.Nanopb.Decode.Calls.{decode_delimited, decode_noinit, dec_submessage}
use test_gbksoft.Nanopb.Decode.Message.{Progress, message_loop}
use test_gbksoft.Nanopb.Decode.TotalFinish.{IsSound}
use test_gbksoft.Nanopb.Decode.Default.{message_defaults, field_default}
use test_gbksoft.Nanopb.Decode.Release.{release_single_field}
use test_gbksoft.Nanopb.Iter.{begin_at}
use test_gbksoft.Nanopb.Iter.Spot.{IsSpot}
use test_gbksoft.Common.{inl}

-- A required int32.
abbrev pub number : Field
number = record {
  tag = 1;
  type = 0x00;
  data_offset = 0;
  size_offset = 0;
  data_size = 4;
  array_size = 0;
  ptr = null;
}

-- A packed array of two int32, behind its count.
abbrev pub values : Field
values = record {
  tag = 1;
  type = 0x20;
  data_offset = 4;
  size_offset = 2 ^ 32 - 4;
  data_size = 4;
  array_size = 2;
  ptr = null;
}

-- An optional message that has a number.
abbrev pub child : Field
child = record {
  tag = 2;
  type = 0x17;
  data_offset = 4;
  size_offset = 2 ^ 32 - 4;
  data_size = 4;
  array_size = 0;
  ptr = fields 0;
}

abbrev pub last : Field
last = record {
  tag = 0;
  type = 0;
  data_offset = 0;
  size_offset = 0;
  data_size = 0;
  array_size = 0;
  ptr = null;
}

abbrev pub tables : ℕ → List Field
tables zero = number ∷ last ∷ []
tables (suc k) = values ∷ child ∷ last ∷ []

-- No callbacks, and an allocator that has nothing to give.
abbrev pub environment : Env (Unit {0}) (Unit {0})
environment = record {
  table = tables;
  realloc = λ ptr size mem heap. (0, mem, heap);
  free = λ ptr mem heap. (mem, heap);
  decode_callback = λ callback f arg s. fail s;
  handle_extension = λ handler ext tag wire_type s. fail s;
  local = λ level. 1000 + 8 * level;
}

abbrev pub blank : Mem
blank a = 255

-- What is in the structure and in the stream at the end.
abbrev seen :
    Outcome (DecState (Unit {0}) (Unit {0})) (Unit {0}) → Bool × List ℕ × ℕ × Option ErrMsg
seen (ok _ s) = (true, bytes_at s.mem 20 200, s.stream.bytes_left, s.stream.errmsg)
seen (fail s) = (false, bytes_at s.mem 20 200, s.stream.bytes_left, s.stream.errmsg)
seen fault = (false, [], 77, none)
seen stuck = (false, [], 88, none)

abbrev state : List ℕ → DecState (Unit {0}) (Unit {0})
state bytes = record { stream = at bytes (length bytes) none; mem = blank; heap = tt }

-- Two values and the number of the child.
decodes : seen (decode environment 0 2 1 200 (state (10 ∷ 2 ∷ 5 ∷ 6 ∷ 18 ∷ 2 ∷ 8 ∷ 7 ∷ []))) ≡ (
  true,
  2 ∷ 0 ∷ 0 ∷ 0 ∷ 5 ∷ 0 ∷ 0 ∷ 0 ∷ 6 ∷ 0 ∷ 0 ∷ 0 ∷ 1 ∷ 255 ∷ 255 ∷ 255 ∷ 7 ∷ 0 ∷ 0 ∷ 0 ∷ [],
  0,
  none,
)
unfolding decode begin next find read readbyte skip on_mem set_to_defaults on_stream decode_tag
    decode_varint32_eof tag_of decode_field decode_static_field make_string_substream
    decode_varint32 on_substream load store_bytes zeros decoder decode_varint close_string_substream
    bytes_at
decodes = refl

number-IsField : (k : ℕ) → IsField k number
number-IsField k = record {
  tag_fits = omega arith;
  data_fits = omega arith;
  array_fits = omega arith;
  encodable = omega arith;
  regular = λ e. absurd (omega (arith, e));
  message = λ e. absurd (omega (arith, e));
  described = λ e. absurd (omega (arith, e));
}

values-IsField : (k : ℕ) → IsField k values
values-IsField k = record {
  tag_fits = omega arith;
  data_fits = omega arith;
  array_fits = omega arith;
  encodable = omega arith;
  regular = λ e. absurd (omega (arith, e));
  message = λ e. absurd (omega (arith, e));
  described = λ e. absurd (omega (arith, e));
}

child-IsField : (k : ℕ) → IsField (suc k) child
child-IsField k = record {
  tag_fits = omega arith;
  data_fits = omega arith;
  array_fits = omega arith;
  encodable = omega arith;
  regular = λ e. absurd (omega (arith, e));
  message = λ e. (0, refl, omega arith);
  described = λ e. absurd (omega (arith, e));
}

last-IsField : (k : ℕ) → IsField k last
last-IsField k = record {
  tag_fits = omega arith;
  data_fits = omega arith;
  array_fits = omega arith;
  encodable = omega arith;
  regular = λ e. absurd (omega (arith, e));
  message = λ e. absurd (omega (arith, e));
  described = λ e. absurd (omega (arith, e));
}

unfoldable pub field_count : ℕ → ℕ
field_count zero = 1
field_count (suc k) = 2

pub tables-IsTable : (k : ℕ) → IsTable (tables k) (field_count k)
unfolding field_count
tables-IsTable zero = field_of number (last ∷ []) 0 refl (end_of last [] refl)
tables-IsTable (suc k) =
    field_of values (child ∷ last ∷ []) 1 refl
      (field_of child (last ∷ []) 0 refl (end_of last [] refl))

pub tables-All : (k : ℕ) → All (IsField k) (tables k)
tables-All zero = (number-IsField 0, (last-IsField 0, tt))
tables-All (suc k) = (values-IsField (suc k), (child-IsField k, (last-IsField (suc k), tt)))

abbrev tables_schema : IsSchema tables
tables_schema = record { size = field_count; ends = tables-IsTable; each = tables-All }

plain : (f : Field) → f.ptr ≡ null → IsDefault f
plain f e = record { whole = λ bytes d. absurd (cc (d, e)); apart = λ k d. absurd (cc (d, e)) }

child-IsDefault : IsDefault child
child-IsDefault = record { whole = λ bytes d. absurd (cc d); apart = λ k d. refl }

tables-IsDefault : (k i : ℕ) (f : Field) → get_elem? (tables k) i ≡ some f → IsDefault f
tables-IsDefault zero i f e =
    All-get IsDefault (tables 0) i f (plain number refl, (plain last refl, tt)) e
tables-IsDefault (suc k) i f e =
    All-get IsDefault (tables (suc k)) i f
      (plain values refl, (child-IsDefault, (plain last refl, tt))) e

-- No field is a pointer.
NoPointer : Field → Type 0
NoPointer f = atype f.type ≡ Atype.pointer → ltype f.type ≤ 4 → f.data_size ≢ 0

no_pointers : (k i : ℕ) (f : Field) → get_elem? (tables k) i ≡ some f → NoPointer f
unfolding NoPointer
no_pointers zero i f e =
    All-get NoPointer (tables 0) i f
      ((λ p. absurd (omega (arith, p))), ((λ p. absurd (omega (arith, p))), tt)) e
no_pointers (suc k) i f e =
    All-get NoPointer (tables (suc k)) i f
      (
        (λ p. absurd (omega (arith, p))),
        ((λ p. absurd (omega (arith, p))), ((λ p. absurd (omega (arith, p))), tt)),
      )
      e

decode-Finishes_example :
    Finishes
      (10 ∷ 2 ∷ 5 ∷ 6 ∷ 18 ∷ 2 ∷ 8 ∷ 7 ∷ [])
      8
      (λ v l. l ≤ 8)
      (decode environment 0 2 1 200 (state (10 ∷ 2 ∷ 5 ∷ 6 ∷ 18 ∷ 2 ∷ 8 ∷ 7 ∷ [])))
unfolding NoPointer
decode-Finishes_example =
    decode-Finishes environment tables_schema tables-IsDefault no_pointers
      (λ callback f arg left. Total-fail) 0 2 1 200 (10 ∷ 2 ∷ 5 ∷ 6 ∷ 18 ∷ 2 ∷ 8 ∷ 7 ∷ []) 8 none
      blank tt (omega arith) (omega arith)
      (
        omega arith,
        (
          omega arith,
          (
            omega arith,
            (omega arith, (omega arith, (omega arith, (omega arith, (omega arith, tt))))),
          ),
        ),
      )

decode_delimited-Finishes_example :
    Finishes
      (2 ∷ 10 ∷ 0 ∷ 9 ∷ [])
      4
      (λ v l. l ≤ 4)
      (decode_delimited environment 0 2 1 200 (state (2 ∷ 10 ∷ 0 ∷ 9 ∷ [])))
unfolding NoPointer
decode_delimited-Finishes_example =
    decode_delimited-Finishes environment tables_schema tables-IsDefault no_pointers
      (λ callback f arg left. Total-fail) 0 2 1 200 (2 ∷ 10 ∷ 0 ∷ 9 ∷ []) 4 none blank tt
      (omega arith) (omega arith) (omega arith, (omega arith, (omega arith, (omega arith, tt))))

-- At the first field of the message with the child.
abbrev pub start : Progress
start = record {
  fields_seen = 0 ∷ 0 ∷ [];
  extension_range_start = 0;
  iter = begin_at (tables 1) 200 values;
  fixed_count_field = none;
}

pub start-IsSpot : IsSpot (tables 1) 2 200 (begin_at (tables 1) 200 values)
unfolding begin_at
start-IsSpot = record { here = (refl, refl, refl); inside = inl (omega arith) }

message_loop-IsSound_example :
    Finishes
      (10 ∷ 1 ∷ 5 ∷ [])
      3
      (λ st' l. IsSound (tables 1) (tables_schema.size 1) 200 st')
      (message_loop environment
        (decoder environment.realloc
          (dec_submessage environment 0 (decode_noinit environment 0 1) 1))
        (message_defaults tables (field_default tables 0 1))
        (release_single_field environment 0 2)
        1008
        0
        4
        start
        (state (10 ∷ 1 ∷ 5 ∷ [])))
unfolding NoPointer field_count
message_loop-IsSound_example =
    message_loop-IsSound environment tables_schema tables-IsDefault no_pointers
      (λ callback f arg left. Total-fail) 0 1 4 1 200 start (10 ∷ 1 ∷ 5 ∷ []) 3 none blank tt
      (omega arith) (record { spot = start-IsSpot; words = refl; place = λ pos p. absurd (cc p) })
      (omega arith) (omega arith) (omega arith, (omega arith, (omega arith, tt)))
