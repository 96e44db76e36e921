-- ===== src/Nanopb/Decode/Failed.antt =====
-- A repeated pointer field for which there is no memory.
use test_gbksoft.Common.{ℕ, ◌+◌, ◌*◌, ◌%◌, ◌^◌, ◌<◌, ◌≡◌, ◌≢◌, refl, arith, false, ◌==◌, lt→leb}
use test_gbksoft.Common.Outcome.{fail, M}
use test_gbksoft.Nanopb.Types.{Field, FieldPtr, set_error, size_max, realloc_failed}
use test_gbksoft.Nanopb.Memory.{Mem, load, load_lt, load-store, store}
use test_gbksoft.Nanopb.Iter.{FieldIter}
use test_gbksoft.Nanopb.Decode.State.{DecState}
use test_gbksoft.Nanopb.Decode.Allocate.{Realloc, allocate_field, allocated}
use test_gbksoft.Nanopb.Decode.Pointer.{append_entry}

differs : (a b : ℕ) → a ≢ b → (a == b) ≡ false
differs a b h = ground arith

module _ {σ η : Type 0} (realloc : Realloc η)
    (refuses : (ptr size : ℕ) (mem : Mem) (heap : η)
      → realloc ptr size mem heap ≡ (0, mem, heap)) where
  allocate_field-failed :
      (p data_size count : ℕ) (s : DecState σ η)
      → data_size ≢ 0
      → data_size < 2 ^ 32
      → count ≢ 0
      → count < 2 ^ 32
      → allocate_field realloc p data_size count s
        ≡ fail (record s {
          stream = record (s.stream) { errmsg = set_error s.stream.errmsg realloc_failed };
        })
  unfolding allocate_field allocated
  allocate_field-failed p data_size count s hd sd hc sc =
      rw
        (
          allocate_field,
          differs data_size 0 hd,
          differs count 0 hc,
          lt→leb data_size (2 ^ 32) sd,
          lt→leb count (2 ^ 32) sc,
          refuses (load s.mem 8 p) (count * data_size % 2 ^ 64) s.mem s.heap,
        )
        refl

  -- Where realloc has nothing to give and changes nothing, a repeated pointer field whose items
  -- have a size of 32 bits, not 0, and whose count is below PB_SIZE_MAX: decoding one more item
  -- fails with "realloc failed", if there was no message before, and the one change of the memory
  -- is that the count is larger by one.
  pub append_entry-failed :
      (func : Field → ℕ → M (DecState σ η) (Unit {0})) (defaults : FieldPtr → ℕ → M Mem (Unit {0}))
      (release : FieldIter → M (DecState σ η) (Unit {0})) (f : Field) (it : FieldIter)
      (s : DecState σ η)
      → f.data_size ≢ 0
      → f.data_size < 2 ^ 32
      → load s.mem 4 it.p_size ≢ size_max
      → (s' : DecState σ η) × (append_entry realloc func defaults release f it s ≡ fail s')
        × (s'.stream.errmsg ≡ set_error s.stream.errmsg realloc_failed)
        × (s'.mem ≡ store 4 it.p_size (load s.mem 4 it.p_size + 1) s.mem)
        × (load s'.mem 4 it.p_size ≡ load s.mem 4 it.p_size + 1)
  unfolding append_entry
  append_entry-failed func defaults release f it s hd sd room =
      let size = load s.mem 4 it.p_size in
      let small = load_lt s.mem 4 it.p_size in
      let mem1 = store 4 it.p_size (size + 1) s.mem in
      let counted : load mem1 4 it.p_size ≡ size + 1 =
        load-store s.mem 4 it.p_size (size + 1) (omega (arith, small, room)) in
      (
        record s {
          stream = record (s.stream) { errmsg = set_error s.stream.errmsg realloc_failed };
          mem = mem1;
        },
        rw
            (
              append_entry,
              differs size size_max room,
              counted,
              allocate_field-failed it.p_data f.data_size (size + 1) (record s { mem = mem1 }) hd sd
                  (omega arith) (omega (arith, small, room)),
            )
            refl,
        refl,
        refl,
        counted,
      )
