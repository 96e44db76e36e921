-- ===== src/Nanopb/Decode/Allocate.antt =====
-- allocate_field of pb_decode.c. realloc of the C library is a parameter.
use test_gbksoft.Common.{ℕ, ◌*◌, ◌/◌, ◌%◌, ◌-◌, ◌^◌, ◌&&◌, ◌||◌, ltb, leb, ◌==◌, if◌then◌else◌}
use test_gbksoft.Common.Outcome.{ok, M}
use test_gbksoft.Nanopb.Types.{invalid_size, size_too_large, realloc_failed}
use test_gbksoft.Nanopb.Memory.{Mem, load, store}
use test_gbksoft.Nanopb.Decode.State.{DecState, return_error}

-- A call with a pointer and a size gives the new pointer, and the memory and the heap.
abbrev pub Realloc : Type 0 → Type 0
Realloc η = ℕ → ℕ → Mem → η → ℕ × Mem × η

module _ {σ η : Type 0} (realloc : Realloc η) where
  -- Past the call of realloc.
  unfoldable pub allocated : ℕ → ℕ × Mem × η → M (DecState σ η) (Unit {0})
  allocated p_data (ptr, mem, heap) s =
      if ptr == 0
      then return_error realloc_failed (record s { mem = mem; heap = heap })
      else ok tt (record s { mem = store 8 p_data ptr mem; heap = heap })

  -- allocate_field
  unfoldable pub allocate_field : ℕ → ℕ → ℕ → M (DecState σ η) (Unit {0})
  unfolding allocated
  allocate_field p_data data_size array_size s =
      let check_limit = 2 ^ 32 in
      if (data_size == 0) || (array_size == 0)
      then return_error invalid_size s
      else if (leb check_limit data_size || leb check_limit array_size)
          && ltb ((2 ^ 64 - 1) / array_size) data_size
      then return_error size_too_large s
      else allocated p_data
          (realloc (load s.mem 8 p_data) (array_size * data_size % 2 ^ 64) s.mem s.heap) s
