-- ===== src/Nanopb/Decode/TotalDecoders.antt =====
-- allocate_field, the decoders that call it, and PB_DECODERS, on every input.
use test_gbksoft.Common.{
  ℕ, ◌+◌, ◌*◌, ◌/◌, ◌-◌, ◌%◌, ◌^◌, ◌≤◌, ◌<◌, ◌≡◌, ◌≢◌, arith, Bool, true, false, ◌||◌, ◌&&◌, ltb,
  leb, ◌==◌, ==_iff, if◌then◌else◌, List, Option,
}
use test_gbksoft.Common.Outcome.{ok, fail, M, bind_outcome}
use test_gbksoft.Nanopb.Types.{
  Field, ltype, atype, size_max, bytes_overflow, string_overflow, size_too_large, invalid_size,
  realloc_failed, ErrMsg, set_error,
}
use test_gbksoft.Nanopb.Types.Ltype
use test_gbksoft.Nanopb.Types.Atype
use test_gbksoft.Nanopb.Memory.{Mem, load, store}
use test_gbksoft.Nanopb.Input.Buffer.{at}
use test_gbksoft.Nanopb.Input.Readers.{}
use test_gbksoft.Nanopb.Input.Ahead.{Fits, ahead_here}
use test_gbksoft.Nanopb.Decode.State.{DecState}
use test_gbksoft.Nanopb.Decode.Allocate.{Realloc, allocate_field, allocated}
use test_gbksoft.Nanopb.Decode.Values.{read_bytes, read_string, dec_bytes, dec_string, decoder}
use test_gbksoft.Nanopb.Decode.Total.{
  Finishes, finishes_ok, finishes_fail, Total, Total-bind, Total-with, Total-if, Total-error,
  Total-weaken,
}
use test_gbksoft.Nanopb.Decode.TotalValues.{
  Free, read_bytes-Total, read_string-Total, after_size, dec_varint-Total, dec_uvarint-Total,
  dec_svarint-Total, dec_fixed32-Total, dec_fixed64-Total, dec_fixed_length_bytes-Total,
}

-- The types of PB_DECODERS are 0 to 9 but 8.
other :
    (l : ℕ)
    → l ≤ 9
    → l ≢ 8
    → (l == 0) ≡ false
    → (l == 1) ≡ false
    → (l == 2) ≡ false
    → (l == 3) ≡ false
    → (l == 4) ≡ false
    → (l == 5) ≡ false
    → (l == 6) ≡ false
    → (l == 7) ≡ false
    → (l == 9) ≡ false
    → ⊥
other l h h8 n0 n1 n2 n3 n4 n5 n6 n7 n9 = ground arith

module _ {σ η : Type 0} (realloc : Realloc η) where
  allocated-Total :
      (p : ℕ) (r : ℕ × Mem × η) (left : ℕ) → Total left Free (allocated {σ = σ} realloc p r)
  unfolding allocated
  allocated-Total p (ptr, mem, heap) left = record {
    ends = λ bs err mem0 heap0 fits. by_pointer (ptr == 0) bs err fits;
  }
    where
      by_pointer :
          (b : Bool) (bs : List ℕ) (err : Option ErrMsg)
          → Fits bs left
          → Finishes {σ = σ} {η = η} bs left Free (
              if b
              then fail (record {
                stream = at bs left (set_error err realloc_failed);
                mem = mem;
                heap = heap;
              })
              else ok tt (record { stream = at bs left err; mem = store 8 p ptr mem; heap = heap }))
      by_pointer true bs err fits = finishes_fail (ahead_here bs left _)
      by_pointer false bs err fits = finishes_ok tt (ahead_here bs left err) tt

  pub allocate_field-Total :
      (p data_size array_size left : ℕ)
      → Total left Free (allocate_field {σ = σ} realloc p data_size array_size)
  unfolding allocate_field
  allocate_field-Total p data_size array_size left =
      Total-if ((data_size == 0) || (array_size == 0)) _ _ (λ e. Total-error invalid_size)
        λ n.
          Total-if
            ((leb (2 ^ 32) data_size || leb (2 ^ 32) array_size)
              && ltb ((2 ^ 64 - 1) / array_size) data_size)
            _ _ (λ e. Total-error size_too_large)
            λ n'.
              Total-with
                (λ s. realloc (load s.mem 8 p) (array_size * data_size % 2 ^ 64) s.mem s.heap)
                (allocated realloc p) (λ r. allocated-Total p r left)

  -- Where the field is a pointer: its storage, and then `k` of its address.
  allocating :
      (p size left : ℕ) (k : ℕ → M (DecState σ η) (Unit {0}))
      → ((a left' : ℕ) → Total left' Free (k a))
      → Total left Free
          (λ s. bind_outcome (allocate_field realloc p size 1 s) (λ _ s2. k (load s2.mem 8 p) s2))
  allocating p size left k h =
      Total-bind Free (allocate_field realloc p size 1) _ (allocate_field-Total p size 1 left)
        λ v l le q. Total-with (λ s. load s.mem 8 p) k (λ a. h a l)

  dec_bytes-Total : (f : Field) (dest left : ℕ) → Total left Free (dec_bytes {σ = σ} realloc f dest)
  unfolding dec_bytes
  dec_bytes-Total f dest left = after_size _ λ size l.
      Total-if (ltb size_max size) _ _ (λ e. Total-error bytes_overflow)
        λ n.
          Total-if (ltb (size + 4) size) _ _ (λ e. Total-error size_too_large)
            λ n'.
              Total-if (atype f.type == Atype.pointer) _ _
                (λ e. allocating dest (size + 4) l (read_bytes size) (read_bytes-Total size))
                λ n''.
                  Total-if (ltb f.data_size (size + 4)) _ _ (λ e. Total-error bytes_overflow)
                    (λ n3. read_bytes-Total size dest l)

  dec_string-Total :
      (f : Field) (dest left : ℕ) → Total left Free (dec_string {σ = σ} realloc f dest)
  unfolding dec_string
  dec_string-Total f dest left = after_size _ λ size l.
      Total-if (ltb ((size + 1) % 2 ^ 32) size) _ _ (λ e. Total-error size_too_large)
        λ n'.
          Total-if (atype f.type == Atype.pointer) _ _
            (λ e. allocating dest _ l (read_string size) (read_string-Total size))
            λ n''.
              Total-if (ltb f.data_size ((size + 1) % 2 ^ 32)) _ _
                (λ e. Total-error string_overflow) (λ n3. read_string-Total size dest l)

  -- `func` of a field whose type is in PB_DECODERS. A type that can be packed takes a byte.
  pub decoder-Total :
      (sub : Field → ℕ → M (DecState σ η) (Unit {0})) (f : Field) (dest left : ℕ)
      → ltype f.type ≤ 9
      → ltype f.type ≢ Ltype.extension
      → (ltype f.type ≡ Ltype.submessage → Total left Free (sub f dest))
      → Total left (λ v l. ltype f.type ≤ 4 → l < left) (decoder realloc sub f dest)
  unfolding decoder
  decoder-Total sub f dest left known regular submessage =
      Total-if (ltype f.type == 0) _ _ (λ e. taken _ (dec_varint-Total f dest left))
        λ n0.
          Total-if (ltype f.type == 1) _ _ (λ e. taken _ (dec_uvarint-Total f dest left))
            λ n1.
              Total-if (ltype f.type == 2) _ _ (λ e. taken _ (dec_svarint-Total f dest left))
                λ n2.
                  Total-if (ltype f.type == 3) _ _ (λ e. taken _ (dec_fixed32-Total f dest left))
                    λ n3.
                      Total-if (ltype f.type == 4) _ _
                        (λ e. taken _ (dec_fixed64-Total f dest left))
                        λ n4.
                          Total-if (ltype f.type == 5) _ _
                            (λ e. unpacked 5 _ e (omega arith) (dec_bytes-Total f dest left))
                            λ n5.
                              Total-if (ltype f.type == 6) _ _
                                (λ e. unpacked 6 _ e (omega arith) (dec_string-Total f dest left))
                                λ n6.
                                  Total-if (ltype f.type == 7) _ _
                                    (λ e.
                                      unpacked 7 _ e (omega arith)
                                        (submessage ((==_iff (ltype f.type) 7).0 e)))
                                    λ n7.
                                      Total-if (ltype f.type == 9) _ _
                                        (λ e.
                                          unpacked 9 _ e (omega arith)
                                            (dec_fixed_length_bytes-Total f dest left))
                                        λ n9. absurd (none_left n0 n1 n2 n3 n4 n5 n6 n7 n9)
    where
      taken :
          (m : M (DecState σ η) (Unit {0}))
          → Total left (λ v l. l < left) m
          → Total left (λ v l. ltype f.type ≤ 4 → l < left) m
      taken m h = Total-weaken m (λ v l le less small. less) h

      unpacked :
          (n : ℕ) (m : M (DecState σ η) (Unit {0}))
          → (ltype f.type == n) ≡ true
          → 4 < n
          → Total left Free m
          → Total left (λ v l. ltype f.type ≤ 4 → l < left) m
      unpacked n m e big h =
          Total-weaken m
            (λ v l le q small. absurd (omega (arith, (==_iff (ltype f.type) n).0 e, big, small))) h

      none_left :
          (ltype f.type == 0) ≡ false
          → (ltype f.type == 1) ≡ false
          → (ltype f.type == 2) ≡ false
          → (ltype f.type == 3) ≡ false
          → (ltype f.type == 4) ≡ false
          → (ltype f.type == 5) ≡ false
          → (ltype f.type == 6) ≡ false
          → (ltype f.type == 7) ≡ false
          → (ltype f.type == 9) ≡ false
          → ⊥
      none_left n0 n1 n2 n3 n4 n5 n6 n7 n9 =
          other (ltype f.type) known regular n0 n1 n2 n3 n4 n5 n6 n7 n9
