-- ===== src/Nanopb/Decode/State.antt =====
-- What the decoder works on: the stream, the memory and the heap.
use test_gbksoft.Common.{ℕ, List, take}
use test_gbksoft.Common.Outcome.{Outcome, ok, fail, fault, stuck, M, bind_outcome}
use test_gbksoft.Nanopb.Types.{ErrMsg, set_error}
use test_gbksoft.Nanopb.Memory.{Mem, store_bytes, store}
use test_gbksoft.Nanopb.Input.{IStream, read}

-- `heap` is what the allocator of the C library keeps.
pub record DecState (σ η : Type 0) : Type 0 where
  pub stream : IStream σ
  pub mem : Mem
  pub heap : η

module _ {σ η : Type 0} where
  unfoldable pub with_stream : {A : Type 0} → Outcome (IStream σ) A → M (DecState σ η) A
  with_stream (ok a stream) s = ok a (record s { stream = stream })
  with_stream (fail stream) s = fail (record s { stream = stream })
  with_stream fault s = fault
  with_stream stuck s = stuck

  -- A function of the stream.
  unfoldable pub on_stream : {A : Type 0} → M (IStream σ) A → M (DecState σ η) A
  unfolding with_stream
  on_stream m s = with_stream (m s.stream) s

  -- PB_RETURN_ERROR
  abbrev pub return_error : {A : Type 0} → ErrMsg → M (DecState σ η) A
  return_error msg s =
      fail (record s { stream = record (s.stream) { errmsg = set_error s.stream.errmsg msg } })

  -- An assignment through a pointer.
  abbrev pub put : ℕ → ℕ → ℕ → M (DecState σ η) (Unit {0})
  put n a v s = ok tt (record s { mem = store n a v s.mem })

  abbrev pub put_bytes : List ℕ → ℕ → M (DecState σ η) (Unit {0})
  put_bytes bs a s = ok tt (record s { mem = store_bytes bs a s.mem })

  -- pb_read into memory. Where it fails the memory is taken as it was; a callback has room for
  -- `count` bytes.
  unfoldable pub read_into : ℕ → ℕ → M (DecState σ η) (Unit {0})
  unfolding on_stream
  read_into a count s = bind_outcome (on_stream (read count) s) λ bs. put_bytes (take count bs) a
