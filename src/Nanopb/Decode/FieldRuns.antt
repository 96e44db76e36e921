-- ===== src/Nanopb/Decode/FieldRuns.antt =====
-- Runs at a single field: an unknown one, and one on the heap.
use test_gbksoft.Common.{ℕ, ◌+◌, ◌-◌, true, false, ◌^◌, ◌≡◌, refl, none, some, [], ◌∷◌}
use test_gbksoft.Common.Outcome.{ok, fail, fault}
use test_gbksoft.Nanopb.Types.{Field, null}
use test_gbksoft.Nanopb.Memory.{Mem, load}
use test_gbksoft.Nanopb.Input.Buffer.{at}
use test_gbksoft.Nanopb.Decode.State.{DecState}
use test_gbksoft.Nanopb.Decode.State.{on_stream}
use test_gbksoft.Common.{◌≢◌, arith, get_elem?}
use test_gbksoft.Nanopb.Types.{ltype}
use test_gbksoft.Nanopb.Encode.Schema.{IsField, All-get}
use test_gbksoft.Nanopb.Decode.Message.{decode_tagged}
use test_gbksoft.Nanopb.Decode.Release.{release_single_field}
use test_gbksoft.Nanopb.Decode.Pointer.{append_entry}
use test_gbksoft.Nanopb.Decode.Unknown.{decode_tagged-unknown}
use test_gbksoft.Nanopb.Decode.Failed.{append_entry-failed}
use test_gbksoft.Nanopb.Decode.Released.{owned, release_single_field-frees}
use test_gbksoft.Nanopb.Decode.Apart.{pointers}
use test_gbksoft.Nanopb.Decode.Env.{Env}
use test_gbksoft.Nanopb.Memory.{store_bytes}
use test_gbksoft.Common.{inl, inr, ◌++◌, ◌*◌}
use test_gbksoft.Nanopb.Iter.{FieldIter}
use test_gbksoft.Nanopb.Iter.Spot.{IsSpot}
use test_gbksoft.Nanopb.Input.Wire.{Tag, skip_field}
use test_gbksoft.Nanopb.Types.{FieldPtr, IsU32, set_error, realloc_failed}
use test_gbksoft.Nanopb.Types.Ltype
use test_gbksoft.Nanopb.Memory.{store}
use test_gbksoft.Common.Outcome.{M, bind_outcome}
use test_gbksoft.Common.{ℕ, ◌≤◌, ◌<◌, List}
use test_gbksoft.Nanopb.Types.{missing_required_field}
use test_gbksoft.Nanopb.Decode.State.{return_error}
use test_gbksoft.Nanopb.Decode.Required.{check_required}
use test_gbksoft.Nanopb.Decode.Seen.{mark_all, found, all_found, check_required-all_found}
use test_gbksoft.Nanopb.Decode.MessageRuns.{
  last, tables, environment, start, start-IsSpot, tables-All, tables-IsTable, field_count,
}

regular_tables :
    (i : ℕ) (f : Field) → get_elem? (tables 1) i ≡ some f → ltype f.type ≢ Ltype.extension
regular_tables i f e = (All-get (IsField 1) (tables 1) i f (tables-All 1) e).regular

fitting_tables : (i : ℕ) (f : Field) → get_elem? (tables 1) i ≡ some f → IsU32 f.tag
fitting_tables i f e = (All-get (IsField 1) (tables 1) i f (tables-All 1) e).tag_fits

HasOther : Field → Type 0
HasOther f = f.tag ≢ 5

no_five : (i : ℕ) (f : Field) → get_elem? (tables 1) i ≡ some f → HasOther f
unfolding HasOther
no_five i f e =
    All-get HasOther (tables 1) i f
      (
        (λ p. absurd (omega (arith, p))),
        ((λ p. absurd (omega (arith, p))), ((λ p. absurd (omega (arith, p))), tt)),
      )
      e

-- Field 5, which the message does not have.
abbrev five : Tag
five = record { found = true; wire_type = 2; tag = 5; eof = false }

abbrev no_func : Field → ℕ → M (DecState (Unit {0}) (Unit {0})) (Unit {0})
no_func f dest s = fault

abbrev no_defaults : FieldPtr → ℕ → M Mem (Unit {0})
no_defaults ptr p mem = fault

abbrev no_release : FieldIter → M (DecState (Unit {0}) (Unit {0})) (Unit {0})
no_release it s = fault

decode_tagged-unknown_example :
    (it : FieldIter) × (start' : ℕ) × IsSpot (tables 1) 2 200 it
    × ((s : DecState (Unit {0}) (Unit {0}))
        → decode_tagged environment no_func no_defaults no_release 1000 0 five start s
          ≡ bind_outcome
              (on_stream (skip_field 2) s)
              (λ _. ok (record start { iter = it; extension_range_start = start' })))
unfolding HasOther field_count
decode_tagged-unknown_example =
    decode_tagged-unknown environment no_func no_defaults no_release 1000 0 (tables 1) 2 200
      (tables-IsTable 1) regular_tables fitting_tables five start start-IsSpot no_five (omega arith)

-- A repeated int32 with its count in front, on the heap.
abbrev numbers : Field
numbers = record {
  tag = 1;
  type = 0xa0;
  data_offset = 8;
  size_offset = 2 ^ 32 - 8;
  data_size = 4;
  array_size = 0;
  ptr = null;
}

abbrev numbers_iter : FieldIter
numbers_iter = record {
  start = numbers ∷ last ∷ [];
  pos = 0;
  required_field_index = 0;
  dest_struct = 200;
  p_data = 208;
  p_size = 200;
}

abbrev zero_state : DecState (Unit {0}) (Unit {0})
zero_state = record { stream = at (5 ∷ []) 1 none; mem = λ a. 0; heap = tt }

append_entry-failed_example :
    (s' : DecState (Unit {0}) (Unit {0})) × (append_entry environment.realloc no_func no_defaults
        no_release numbers numbers_iter zero_state
      ≡ fail s')
    × (s'.stream.errmsg ≡ set_error none realloc_failed)
    × (s'.mem ≡ store 4 200 (load zero_state.mem 4 200 + 1) zero_state.mem)
    × (load s'.mem 4 200 ≡ load zero_state.mem 4 200 + 1)
unfolding load
append_entry-failed_example =
    append_entry-failed environment.realloc (λ ptr size mem heap. refl) no_func no_defaults
      no_release numbers numbers_iter zero_state (omega arith) (omega arith) (omega arith)

-- Two strings behind pointers, and a free that notes the addresses.
abbrev names : Field
names = record numbers { type = 0xa6; data_size = 8 }

abbrev names_iter : FieldIter
names_iter = record numbers_iter { start = names ∷ last ∷ [] }

abbrev noting : Env (Unit {0}) (List ℕ)
noting = record {
  table = λ k. names ∷ last ∷ [];
  realloc = λ ptr size mem heap. (0, mem, heap);
  free = λ ptr mem heap. (mem, heap ++ (ptr ∷ []));
  decode_callback = λ callback f arg s. fail s;
  handle_extension = λ handler ext tag wire_type s. fail s;
  local = λ level. 1000 + 8 * level;
}

abbrev names_memory : Mem
names_memory = store 8 308 500 (store 8 300 400 (store 8 208 300 (store 4 200 2 (λ a. 0))))

abbrev names_state : DecState (Unit {0}) (List ℕ)
names_state = record { stream = at (5 ∷ []) 1 none; mem = names_memory; heap = [] }

release_single_field-frees_example :
    (s' : DecState (Unit {0}) (List ℕ)) × (release_single_field noting 0 1 names_iter names_state
      ≡ ok tt s')
    × (s'.stream ≡ names_state.stream)
    × (s'.heap ≡ 400 ∷ 500 ∷ 300 ∷ [])
    × (load s'.mem 8 208 ≡ 0)
    × (load s'.mem 4 200 ≡ 0)
unfolding load store_bytes owned pointers
release_single_field-frees_example =
    release_single_field-frees noting (λ ptr mem heap. refl) names names_iter names_state
      (omega arith) (inl (omega arith)) (inr (omega arith)) 0 0 refl refl
      (λ p. absurd (omega (arith, p))) (λ p. absurd (omega (arith, p)))
      (λ p. absurd (omega (arith, p)))

-- A required field, as the second of three.
abbrev needed : Field
needed = record numbers { type = 0 }

abbrev second_iter : FieldIter
second_iter = record numbers_iter { required_field_index = 1 }

only_second : (i : ℕ) → 3 ≤ i → i < 64 → found i ((needed, second_iter) ∷ []) ≡ false
unfolding found
only_second i l h = ground arith

check_required-all_found_example :
    (seen : List ℕ) × (mark_all ((needed, second_iter) ∷ []) (0 ∷ 0 ∷ []) ≡ some seen)
    × (check_required seen (ok 3 numbers_iter) zero_state
        ≡ return_error missing_required_field zero_state)
unfolding all_found
check_required-all_found_example =
    check_required-all_found ((needed, second_iter) ∷ []) 3 numbers_iter zero_state (omega arith)
      only_second
