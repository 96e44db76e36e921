-- ===== src/Nanopb/Decode/TotalPointer.antt =====
-- decode_pointer_field on every input.
use test_gbksoft.Common.{
  ℕ, zero, suc, ◌+◌, ◌-◌, ◌/◌, ◌%◌, ◌^◌, ◌≤◌, ◌<◌, ◌≡◌, ◌≢◌, arith, Bool, true, false, not, ◌&&◌,
  ◌||◌, ltb, leb, ◌==◌, ==_iff, if◌then◌else◌, lt→leb, Option, none, some,
}
use test_gbksoft.Common.Outcome.{ok, fail, M, bind_outcome}
use test_gbksoft.Nanopb.Types.{
  Field, FieldPtr, ltype, htype, size_max, too_many_array_entries, invalid_field_type,
}
use test_gbksoft.Nanopb.Types.Ltype
use test_gbksoft.Nanopb.Types.Htype
use test_gbksoft.Nanopb.Memory.{Mem, load, store}
use test_gbksoft.Nanopb.Iter.{FieldIter}
use test_gbksoft.Nanopb.Decode.State.{DecState, put}
use test_gbksoft.Nanopb.Decode.Allocate.{Realloc, allocate_field}
use test_gbksoft.Nanopb.Decode.Defaulted.{Returns}
use test_gbksoft.Nanopb.Decode.Static.{item_at}
use test_gbksoft.Nanopb.Decode.Pointer.{
  is_text, initialize_pointer_field, allocate_single, decode_pointer_single, make_room,
  decode_entry, pointer_loop, finish_entries, decode_entries, append_entry, decode_pointer_field,
}
use test_gbksoft.Nanopb.Decode.Total.{
  finishes_ok, Finishes-if, Finishes-bind, Total, Total-bind, Total-with, Total-after, Total-if,
  Total-ok, Total-fail, Total-error, Total-weaken,
}
use test_gbksoft.Nanopb.Input.Ahead.{ahead_here}
use test_gbksoft.Nanopb.Decode.TotalValues.{Free, put-Total}
use test_gbksoft.Nanopb.Decode.TotalDecoders.{allocate_field-Total}
use test_gbksoft.Nanopb.Decode.TotalStatic.{func-Total, reset_message-Total}
use test_gbksoft.Nanopb.Decode.TotalSub.{Resumes, close-Resumes, substream-Total}

module _ {σ η : Type 0} (realloc : Realloc η) (func : Field → ℕ → M (DecState σ η) (Unit {0}))
    (defaults : FieldPtr → ℕ → M Mem (Unit {0})) (release : FieldIter → M (DecState σ η) (Unit {0}))
    (f : Field)
    (works : (dest left : ℕ) → Total left (λ v l. ltype f.type ≤ 4 → l < left) (func f dest))
    (resets : ltype f.type ≡ Ltype.submessage → (p : ℕ) → Returns (defaults f.ptr p)) where
  initialize-Total :
      (p left : ℕ) → Total left Free (initialize_pointer_field realloc func defaults release f p)
  unfolding initialize_pointer_field
  initialize-Total p left =
      Total-if (is_text f) _ _ (λ e. put-Total 8 p 0 left)
        λ n.
          Total-if (ltype f.type == 7) _ _
            (λ e.
              reset_message-Total func defaults f works resets p left
                ((==_iff (ltype f.type) 7).0 e))
            (λ n'. Total-ok tt tt)

  allocate_single-Total :
      (left : ℕ) (it : FieldIter)
      → Total left Free (allocate_single realloc func defaults release f it)
  unfolding allocate_single
  allocate_single-Total left it =
      Total-bind Free (allocate_field realloc it.p_data f.data_size 1) _
        (allocate_field-Total realloc it.p_data f.data_size 1 left)
        λ v l le q.
          Total-bind Free
            (λ s1.
              initialize_pointer_field realloc func defaults release f (load s1.mem 8 it.p_data) s1)
            _
            (Total-with (λ s1. load s1.mem 8 it.p_data)
              (initialize_pointer_field realloc func defaults release f)
              (λ p. initialize-Total p l))
            λ v' l' le' q'.
              Total-with (λ s2. load s2.mem 8 it.p_data) (func f)
                (λ p. func-Total func defaults f works resets p l')

  decode_pointer_single-Total :
      (left : ℕ) (it : FieldIter)
      → ((l : ℕ) → Total l Free (release it))
      → Total left Free (decode_pointer_single realloc func defaults release f it)
  unfolding decode_pointer_single
  decode_pointer_single-Total left it frees =
      Total-bind Free _ _
        (Total-with (λ s. (ltype f.type == 7) && not (load s.mem 8 it.p_data == 0))
          (λ duplicate s. if duplicate then release it s else ok tt s)
          (λ duplicate. Total-if duplicate _ _ (λ e. frees left) (λ n. Total-ok tt tt)))
        λ v l le q.
          Total-bind Free
            (λ s1. if htype f.type == 0x30 then put 4 it.p_size f.tag s1 else ok tt s1) _
            (Total-if (htype f.type == 0x30) _ _ (λ e. put-Total 4 it.p_size f.tag l)
              (λ n. Total-ok tt tt))
            λ v' l' le' q'.
              Total-if (is_text f) _ _ (λ e. func-Total func defaults f works resets it.p_data l')
                (λ n. allocate_single-Total l' it)

  make_room-Total :
      (left : ℕ) (it : FieldIter) (allocated_size : ℕ)
      → f.data_size ≢ 0
      → Total left Free (make_room realloc func defaults release f it allocated_size)
  unfolding make_room
  make_room-Total left it allocated_size sized = record {
    ends = λ bs err mem heap fits.
        Finishes-if (not (ltb allocated_size (load mem 4 it.p_size + 1)))
          (λ e. finishes_ok allocated_size (ahead_here bs left err) tt)
          (λ n.
            Finishes-if (f.data_size == 0) (λ e. absurd (sized ((==_iff f.data_size 0).0 e)))
              (λ n'.
                (room ((allocated_size + ((left - 1) / f.data_size + 1)) % 2 ^ 64)).ends bs err mem
                  heap fits));
  }
    where
      room :
          (more : ℕ)
          → Total {σ = σ} {η = η} left Free (λ s.
            bind_outcome (allocate_field realloc it.p_data f.data_size more s) (λ _. ok more))
      room more =
          Total-bind Free (allocate_field realloc it.p_data f.data_size more) _
            (allocate_field-Total realloc it.p_data f.data_size more left)
            (λ v l le q. Total-ok more tt)

  decode_entry-Total :
      (left : ℕ) (it : FieldIter)
      → Total left
          (λ v l. ltype f.type ≤ 4 → l < left)
          (decode_entry realloc func defaults release f it)
  unfolding decode_entry
  decode_entry-Total left it =
      Total-with (λ s. item_at f (load s.mem 8 it.p_data) (load s.mem 4 it.p_size))
        (λ p s.
          bind_outcome (initialize_pointer_field realloc func defaults release f p s)
            (λ _. func f p))
        λ p.
          Total-bind Free (initialize_pointer_field realloc func defaults release f p) _
            (initialize-Total p left)
            λ v l le q.
              Total-weaken (func f p) (λ u l' le' less small. omega (arith, less small, le))
                (works p l)

  -- Past an entry.
  entry_counted :
      (fuel left allocated_size : ℕ) (it : FieldIter)
      → Total left Free (pointer_loop realloc func defaults release fuel f it allocated_size)
      → Total left Free (λ s2.
        if load s2.mem 4 it.p_size == size_max
        then ok false s2
        else bind_outcome
            (put 4 it.p_size (load s2.mem 4 it.p_size + 1) s2)
            λ _. pointer_loop realloc func defaults release fuel f it allocated_size)
  entry_counted fuel left allocated_size it rest =
      Total-with (λ s2. load s2.mem 4 it.p_size)
        (λ size s2.
          if size == size_max
          then ok false s2
          else bind_outcome (put 4 it.p_size (size + 1) s2)
              λ _. pointer_loop realloc func defaults release fuel f it allocated_size)
        λ size.
          Total-if (size == size_max) _ _ (λ e. Total-ok false tt)
            (λ n. Total-after (λ s. store 4 it.p_size (size + 1) s.mem) _ rest)

  -- Each round takes a byte of the substream.
  pointer_loop-Total :
      (fuel left allocated_size : ℕ) (it : FieldIter)
      → ltype f.type ≤ 4
      → f.data_size ≢ 0
      → left < fuel
      → Total left Free (pointer_loop realloc func defaults release fuel f it allocated_size)
  unfolding pointer_loop
  pointer_loop-Total zero left allocated_size it small sized h = absurd (omega arith)
  pointer_loop-Total (suc fuel) left allocated_size it small sized h = record {
    ends = λ bs err mem heap fits.
        Finishes-if (left == 0) (λ e. finishes_ok true (ahead_here bs left err) tt)
          λ n.
            Finishes-bind _ fits
              (λ room l le q.
                Total-bind (λ v l'. ltype f.type ≤ 4 → l' < l)
                  (decode_entry realloc func defaults release f it) _ (decode_entry-Total l it)
                  λ v l' le' less. entry_counted fuel l' room it (
                    pointer_loop-Total fuel l' room it small sized
                      (omega (arith, less small, le, h))))
              ((make_room-Total left it allocated_size sized).ends bs err mem heap fits);
  }

  finish_entries-Resumes :
      (size l : ℕ) (status : Option Bool)
      → Resumes size l (finish_entries realloc func defaults release) status
  unfolding finish_entries Resumes
  finish_entries-Resumes size l none rest err sub mem heap w fits =
      close-Resumes size l (λ u s. fail s) tt (λ l. Total-fail) rest err sub mem heap w fits
  finish_entries-Resumes size l (some true) rest err sub mem heap w fits =
      close-Resumes size l (λ u s. ok tt s) tt (λ l. Total-ok tt tt) rest err sub mem heap w fits
  finish_entries-Resumes size l (some false) rest err sub mem heap w fits =
      close-Resumes size l (λ u s. fail s) tt (λ l. Total-fail) rest (some too_many_array_entries)
        sub mem heap w fits

  decode_entries-Total :
      (left : ℕ) (it : FieldIter)
      → ltype f.type ≤ 4
      → f.data_size ≢ 0
      → Total left Free (decode_entries realloc func defaults release f it)
  unfolding decode_entries
  decode_entries-Total left it small sized =
      Total-with (λ s. load s.mem 4 it.p_size) _
        λ allocated_size.
          substream-Total Free
            (λ size. pointer_loop realloc func defaults release (suc size) f it allocated_size)
            (finish_entries realloc func defaults release)
            (λ size. pointer_loop-Total (suc size) size allocated_size it small sized (omega arith))
            finish_entries-Resumes

  -- The new entry, once its place is allocated.
  append_entry-Total :
      (left : ℕ) (it : FieldIter)
      → Total left Free (append_entry realloc func defaults release f it)
  unfolding append_entry
  append_entry-Total left it =
      Total-with (λ s. load s.mem 4 it.p_size) _
        λ size.
          Total-if (size == size_max) _ _ (λ e. Total-error too_many_array_entries)
            λ n.
              Total-after (λ s. store 4 it.p_size (size + 1) s.mem) _
                (Total-bind Free
                  (λ s1. allocate_field realloc it.p_data f.data_size (load s1.mem 4 it.p_size) s1)
                  _
                  (Total-with (λ s1. load s1.mem 4 it.p_size)
                    (allocate_field realloc it.p_data f.data_size)
                    (λ count. allocate_field-Total realloc it.p_data f.data_size count left))
                  λ v l le q.
                    Total-with
                      (λ s2.
                        item_at f (load s2.mem 8 it.p_data)
                          ((load s2.mem 4 it.p_size + 2 ^ 32 - 1) % 2 ^ 32))
                      (λ p s2.
                        bind_outcome (initialize_pointer_field realloc func defaults release f p s2)
                          (λ _. func f p))
                      λ p.
                        Total-bind Free (initialize_pointer_field realloc func defaults release f p)
                          _ (initialize-Total p l)
                          (λ v' l' le' q'. func-Total func defaults f works resets p l'))

  -- decode_pointer_field
  pub decode_pointer_field-Total :
      (wire_type left : ℕ) (it : FieldIter)
      → ltype f.type ≤ 9
      → (htype f.type ≡ Htype.repeated → ltype f.type ≤ 4 → f.data_size ≢ 0)
      → ((l : ℕ) → Total l Free (release it))
      → Total left Free (decode_pointer_field realloc func defaults release wire_type f it)
  unfolding decode_pointer_field
  decode_pointer_field-Total wire_type left it known sized frees =
      Total-if (leb 10 (ltype f.type)) _ _
        (λ e. absurd (cc (e, lt→leb (ltype f.type) 10 (omega arith))))
        λ n.
          Total-if ((htype f.type == 0) || (htype f.type == 0x10) || (htype f.type == 0x30)) _ _
            (λ e. decode_pointer_single-Total left it frees)
            λ n1.
              Total-if (htype f.type == 0x20) _ _ (λ e. arrays ((==_iff (htype f.type) 0x20).0 e))
                λ n2. Total-error invalid_field_type
    where
      packable : (w : Bool) → (w && leb (ltype f.type) 4) ≡ true → ltype f.type ≤ 4
      packable w e = ground arith

      arrays :
          htype f.type ≡ Htype.repeated
          → Total left Free (λ s.
            if (wire_type == 2) && leb (ltype f.type) 4
            then decode_entries realloc func defaults release f it s
            else append_entry realloc func defaults release f it s)
      arrays rep =
          Total-if ((wire_type == 2) && leb (ltype f.type) 4) _ _
            (λ e.
              decode_entries-Total left it (packable (wire_type == 2) e)
                (sized rep (packable (wire_type == 2) e)))
            (λ n. append_entry-Total left it)
