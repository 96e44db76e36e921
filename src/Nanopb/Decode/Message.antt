-- ===== src/Nanopb/Decode/Message.antt =====
-- pb_decode_noinit of pb_decode.c, of a message whose submessages are decoded by `func`.
use test_gbksoft.Common.{ℕ, zero, suc, ◌-◌, ◌^◌, Bool, true, false, not, ◌||◌, ltb, ◌==◌}
use test_gbksoft.Common.{if◌then◌else◌, Option, none, some, List, [], ◌∷◌, get_elem?}
use test_gbksoft.Common.Outcome.{Outcome, ok, fail, fault, stuck, M, bind_outcome}
use test_gbksoft.Nanopb.Types.{Field, FieldPtr, htype, wrong_size_for_fixed_count_field}
use test_gbksoft.Nanopb.Types.Htype
use test_gbksoft.Nanopb.Memory.{Mem, load}
use test_gbksoft.Nanopb.Iter.{FieldIter, with_field, begin, find}
use test_gbksoft.Nanopb.Input.Wire.{Tag, decode_tag, skip_field}
use test_gbksoft.Nanopb.Decode.State.{DecState, on_stream, return_error, put}
use test_gbksoft.Nanopb.Decode.Env.{Env}
use test_gbksoft.Nanopb.Decode.Field.{decode_field}
use test_gbksoft.Nanopb.Decode.Extension.{find_extension_field, decode_extension}
use test_gbksoft.Nanopb.Decode.Required.{mark_seen, check_required, required_count}

-- The variables of pb_decode_noinit. A descriptor is given by its place in the table;
-- fixed_count_size is in memory, since a field iterator points to it.
pub record Progress : Type 0 where
  pub fields_seen : List ℕ
  pub extension_range_start : ℕ
  pub iter : FieldIter
  pub fixed_count_field : Option ℕ

-- `fixed_count_field == iter.pos`
unfoldable pub same_place : Option ℕ → ℕ → Bool
same_place none pos = false
same_place (some place) pos = place == pos

module _ {σ η : Type 0} where
  -- The test of fixed_count_field and fixed_count_size, which is at `local`.
  unfoldable pub check_fixed_count : ℕ → Option ℕ → FieldIter → M (DecState σ η) (Unit {0})
  check_fixed_count local none it s = ok tt s
  check_fixed_count local (some pos) it s = with_field (get_elem? it.start pos) λ f.
      if not (load s.mem 4 local == f.array_size)
      then return_error wrong_size_for_fixed_count_field s
      else ok tt s

  -- Past the loop of pb_decode_noinit.
  unfoldable pub finish_message : ℕ → Progress → M (DecState σ η) (Unit {0})
  unfolding check_fixed_count check_required required_count
  finish_message local st s =
      bind_outcome (check_fixed_count local st.fixed_count_field st.iter s)
        λ _. check_required st.fields_seen (required_count st.iter)

  -- The count of a repeated field of fixed count: it is in `local`.
  unfoldable pub fixed_count : ℕ → Field → Progress → M (DecState σ η) Progress
  unfolding check_fixed_count same_place
  fixed_count local f st s =
      let counted = record st {
        iter = record (st.iter) { p_size = local };
        fixed_count_field = some st.iter.pos;
      } in
      let fresh : Outcome (DecState σ η) Progress =
        bind_outcome (check_fixed_count local st.fixed_count_field st.iter s)
          λ _ s1. bind_outcome (put 4 local 0 s1) (λ _. ok counted) in
      if not (htype f.type == Htype.repeated) || not (st.iter.p_size == st.iter.p_data)
      then ok st s
      else if same_place st.fixed_count_field st.iter.pos
      then ok counted s
      else fresh

-- `func` is from PB_DECODERS, `defaults` is pb_message_set_to_defaults, `release` is
-- pb_release_single_field, `local` is the address of fixed_count_size.
module _ {σ η : Type 0} (env : Env σ η) (func : Field → ℕ → M (DecState σ η) (Unit {0}))
    (defaults : FieldPtr → ℕ → M Mem (Unit {0}))
    (release_field : FieldIter → M (DecState σ η) (Unit {0})) (local lists : ℕ) where
  unfoldable pub marked : Option (List ℕ) → Progress → M (DecState σ η) Progress
  marked none st s = fault
  marked (some seen) st s = ok (record st { fields_seen = seen }) s

  -- A field of the message.
  unfoldable pub known_field : ℕ → Progress → M (DecState σ η) Progress
  unfolding fixed_count marked mark_seen
  known_field wire_type st s = with_field (get_elem? st.iter.start st.iter.pos) λ f.
      bind_outcome (fixed_count local f st s) λ st1 s1.
        bind_outcome (marked (mark_seen f st1.iter st1.fields_seen) st1 s1) λ st2 s2.
          bind_outcome (decode_field env func defaults release_field wire_type st2.iter s2)
            λ it. ok (record st2 { iter = it })

  unfoldable pub skipped : ℕ → Progress → M (DecState σ η) Progress
  skipped wire_type st s = bind_outcome (on_stream (skip_field wire_type) s) (λ _. ok st)

  -- The extensions, if the tag is in their range, and `continue` where one read the field.
  unfoldable pub try_extension : Tag → Progress → M (DecState σ η) Progress
  unfolding skipped
  try_extension tag st s =
      if ltb tag.tag st.extension_range_start
      then skipped tag.wire_type st s
      else bind_outcome
          (decode_extension env func defaults release_field lists tag.tag tag.wire_type st.iter s)
          λ _ s1.
            if s.stream.bytes_left == s1.stream.bytes_left
            then skipped tag.wire_type st s1
            else ok st s1

  unfoldable pub unknown_field : Tag → Progress → M (DecState σ η) Progress
  unfolding try_extension
  unknown_field tag st s =
      let searched : Outcome (DecState σ η) Progress = elim (find_extension_field st.iter) [
        | ok true it ↦
            with_field (get_elem? it.start it.pos)
              λ f. try_extension tag (record st { iter = it; extension_range_start = f.tag }) s
        | ok false it ↦
            try_extension tag (record st { iter = it; extension_range_start = 2 ^ 32 - 1 }) s
        | fail it ↦ fault
        | fault ↦ fault
        | stuck ↦ stuck
      ] in
      if ltb tag.tag st.extension_range_start then skipped tag.wire_type st s else searched

  -- The body of the loop of pb_decode_noinit, past pb_decode_tag.
  unfoldable pub decode_tagged : Tag → Progress → M (DecState σ η) Progress
  unfolding known_field unknown_field
  decode_tagged tag st s = elim (find tag.tag st.iter) [
    | ok true it ↦ known_field tag.wire_type (record st { iter = it }) s
    | ok false it ↦ unknown_field tag (record st { iter = it }) s
    | fail it ↦ fault
    | fault ↦ fault
    | stuck ↦ stuck
  ]

  -- The loop of pb_decode_noinit. Each round reads a byte at least.
  unfoldable pub message_loop : ℕ → Progress → M (DecState σ η) Progress
  unfolding decode_tagged
  message_loop zero st s = stuck
  message_loop (suc fuel) st s =
      let round : Outcome (DecState σ η) Progress = bind_outcome (on_stream decode_tag s) λ tag s1.
        let more : Outcome (DecState σ η) Progress =
          bind_outcome (decode_tagged tag st s1) (message_loop fuel) in
        if not tag.found then if tag.eof then ok st s1 else fail s1 else more in
      if s.stream.bytes_left == 0 then ok st s else round

  -- pb_decode_noinit, of the descriptors at `k`.
  unfoldable pub decode_message : ℕ → ℕ → M (DecState σ η) (Unit {0})
  unfolding message_loop finish_message
  decode_message k dest s = bind_outcome (put 4 local 0 s) λ _ s1. elim (begin (env.table k) dest) [
    | ok _ it ↦
        bind_outcome
          (message_loop (suc s1.stream.bytes_left)
            (record {
              fields_seen = 0 ∷ 0 ∷ [];
              extension_range_start = 0;
              iter = it;
              fixed_count_field = none;
            })
            s1)
          (finish_message local)
    | fail it ↦ fault
    | fault ↦ fault
    | stuck ↦ stuck
  ]
