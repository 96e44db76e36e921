-- ===== src/Nanopb/Decode/TotalValues.antt =====
-- The decoders of PB_DECODERS on every input.
use test_gbksoft.Common.{ℕ, suc, ◌+◌, ◌≤◌, ◌<◌, arith, not, ltb, ◌==◌, List, take}
use test_gbksoft.Common.Outcome.{Outcome, ok, M, bind_outcome}
use test_gbksoft.Nanopb.Types.{
  Field, size_max, invalid_data_size, integer_too_large, bytes_overflow,
  incorrect_fixed_length_bytes_size,
}
use test_gbksoft.Nanopb.Memory.{Mem, store, store_bytes}
use test_gbksoft.Nanopb.Input.{IStream, read}
use test_gbksoft.Nanopb.Input.Buffer.{at}
use test_gbksoft.Nanopb.Input.Safety.{read-IsSafe}
use test_gbksoft.Nanopb.Input.SafeReaders.{decode_varint32-IsSafe}
use test_gbksoft.Nanopb.Input.Varint.{decode_varint32, decode_varint}
use test_gbksoft.Nanopb.Input.Wire.{decode_svarint, decode_fixed32, decode_fixed64, decode_tag}
use test_gbksoft.Nanopb.Input.Takes.{Takes, takes_ok, takes_fail, IsTag, decode_tag-Takes}
use test_gbksoft.Nanopb.Input.Readers.{
  IsReader, decode_varint-IsReader, decode_svarint-IsReader, decode_fixed32-IsReader,
  decode_fixed64-IsReader,
}
use test_gbksoft.Nanopb.Input.Ahead.{within-IsAhead}
use test_gbksoft.Nanopb.Decode.State.{DecState, on_stream, with_stream, put, read_into}
use test_gbksoft.Nanopb.Decode.Values.{
  zeros, clamp, clamp_signed, dec_varint, dec_uvarint, dec_svarint, dec_fixed32, dec_fixed64,
  dec_fixed_length_bytes, read_bytes, terminated, read_string,
}
use test_gbksoft.Nanopb.Decode.Total.{
  Finishes, finishes_ok, finishes_fail, Total, Total-bind, Total-after, Total-if, Total-ok,
  Total-error, Total-weaken, on_stream-Total,
}

-- Nothing is asked of the result.
abbrev pub Free : {A : Type 0} → A → ℕ → Type 0
Free a l = Unit {0}

module _ {σ η : Type 0} where
  lifted-Takes :
      {A : Type 0} {bs : List ℕ} {left : ℕ} {P : A → Type 0} (mem : Mem) (heap : η)
      (stream : IStream σ) {o : Outcome (IStream σ) A}
      → Takes bs left P o
      → Finishes bs left
          (λ v l. P v × (l < left))
          (with_stream o (record { stream = stream; mem = mem; heap = heap }))
  unfolding with_stream within-IsAhead
  lifted-Takes mem heap stream (takes_ok v w less p) = finishes_ok v (within-IsAhead w) (p, less)
  lifted-Takes mem heap stream (takes_fail w) = finishes_fail (within-IsAhead w)

  pub taking-Total :
      {A : Type 0} {left : ℕ} (m : M (IStream σ) A)
      → IsReader m
      → Total {η = η} left (λ v l. l < left) (on_stream m)
  unfolding on_stream
  taking-Total {A} {left} m h =
      Total-weaken (on_stream m) (λ v l le (u, less). less)
        (record {
          ends = λ bs err mem heap (fits, bytes).
              lifted-Takes mem heap (at bs left err) (h.takes bs left err fits);
        })

  pub IsTag-Total :
      (left : ℕ)
      → Total {η = η} (suc left) (λ t l. IsTag t × (l < suc left)) (on_stream (decode_tag {σ = σ}))
  unfolding on_stream
  IsTag-Total left = record {
    ends = λ bs err mem heap (fits, bytes).
        lifted-Takes mem heap (at bs (suc left) err) (decode_tag-Takes bs left err fits bytes);
  }

  -- What follows a reader of an integer, which took a byte.
  after_reader :
      {left : ℕ} (m : M (IStream σ) ℕ) (k : ℕ → M (DecState σ η) (Unit {0}))
      → IsReader m
      → ((v left' : ℕ) → Total left' Free (k v))
      → Total left (λ v l. l < left) (λ s. bind_outcome (on_stream m s) k)
  after_reader {left} m k hm hk =
      Total-bind (λ v l. l < left) (on_stream m) k (taking-Total m hm)
        (λ v left' le less. on_below (k v) left' less (hk v left'))
    where
      on_below :
          (m : M (DecState σ η) (Unit {0})) (left' : ℕ)
          → left' < left
          → Total left' Free m
          → Total left' (λ v l. l < left) m
      on_below m left' less h = Total-weaken m (λ v l le q. omega (arith, le, less)) h

  clamp-Total :
      (n dest clamped value left : ℕ) → Total left Free (clamp {σ = σ} {η = η} n dest clamped value)
  unfolding clamp
  clamp-Total n dest clamped value left =
      Total-after (λ s. store n dest clamped s.mem) _
        (Total-if (clamped == value) _ _ (λ e. Total-ok tt tt) (λ n. Total-error integer_too_large))

  clamp_signed-Total :
      (f : Field) (dest value left : ℕ)
      → Total left Free (clamp_signed {σ = σ} {η = η} f dest value)
  unfolding clamp_signed
  clamp_signed-Total f dest value left =
      Total-if (f.data_size == 8) _ _ (λ e. clamp-Total 8 dest value value left)
        λ n8.
          Total-if (f.data_size == 4) _ _ (λ e. clamp-Total 4 dest _ value left)
            λ n4.
              Total-if (f.data_size == 2) _ _ (λ e. clamp-Total 2 dest _ value left)
                λ n2.
                  Total-if (f.data_size == 1) _ _ (λ e. clamp-Total 1 dest _ value left)
                    λ n1. Total-error invalid_data_size

  pub dec_varint-Total :
      (f : Field) (dest left : ℕ) → Total left (λ v l. l < left) (dec_varint {σ = σ} {η = η} f dest)
  unfolding dec_varint
  dec_varint-Total f dest left =
      after_reader decode_varint _ (decode_varint-IsReader σ) (λ v l. clamp_signed-Total f dest _ l)

  pub dec_svarint-Total :
      (f : Field) (dest left : ℕ)
      → Total left (λ v l. l < left) (dec_svarint {σ = σ} {η = η} f dest)
  unfolding dec_svarint
  dec_svarint-Total f dest left =
      after_reader decode_svarint _ (decode_svarint-IsReader σ) (clamp_signed-Total f dest)

  pub dec_uvarint-Total :
      (f : Field) (dest left : ℕ)
      → Total left (λ v l. l < left) (dec_uvarint {σ = σ} {η = η} f dest)
  unfolding dec_uvarint
  dec_uvarint-Total f dest left = after_reader decode_varint _ (decode_varint-IsReader σ) λ value l.
      Total-if (f.data_size == 8) _ _ (λ e. clamp-Total 8 dest value value l)
        λ n8.
          Total-if (f.data_size == 4) _ _ (λ e. clamp-Total 4 dest _ value l)
            λ n4.
              Total-if (f.data_size == 2) _ _ (λ e. clamp-Total 2 dest _ value l)
                λ n2.
                  Total-if (f.data_size == 1) _ _ (λ e. clamp-Total 1 dest _ value l)
                    λ n1. Total-error invalid_data_size

  pub put-Total : (n dest v left : ℕ) → Total left Free (put {σ = σ} {η = η} n dest v)
  put-Total n dest v left = Total-after (λ s. store n dest v s.mem) (λ s. ok tt s) (Total-ok tt tt)

  pub dec_fixed32-Total :
      (f : Field) (dest left : ℕ)
      → Total left (λ v l. l < left) (dec_fixed32 {σ = σ} {η = η} f dest)
  unfolding dec_fixed32
  dec_fixed32-Total f dest left =
      after_reader decode_fixed32 _ (decode_fixed32-IsReader σ) (put-Total 4 dest)

  pub dec_fixed64-Total :
      (f : Field) (dest left : ℕ)
      → Total left (λ v l. l < left) (dec_fixed64 {σ = σ} {η = η} f dest)
  unfolding dec_fixed64
  dec_fixed64-Total f dest left =
      after_reader decode_fixed64 _ (decode_fixed64-IsReader σ) (put-Total 8 dest)

  read_into-Total : (a count left : ℕ) → Total left Free (read_into {σ = σ} {η = η} a count)
  unfolding read_into
  read_into-Total a count left =
      Total-bind (λ v l. l ≤ left) (on_stream (read count)) _
        (on_stream-Total (read count) (read-IsSafe σ count))
        λ bs l le q.
          Total-after (λ s. store_bytes (take count bs) a s.mem) (λ s. ok tt s) (Total-ok tt tt)

  pub read_bytes-Total :
      (size dest left : ℕ) → Total left Free (read_bytes {σ = σ} {η = η} size dest)
  unfolding read_bytes
  read_bytes-Total size dest left =
      Total-after (λ s. store 4 dest size s.mem) _ (read_into-Total (dest + 4) size left)

  pub read_string-Total :
      (size dest left : ℕ) → Total left Free (read_string {σ = σ} {η = η} size dest)
  unfolding read_string terminated
  read_string-Total size dest left = record {
    ends =
        λ bs err mem heap fits. after ((read_into-Total dest size left).ends bs err mem heap fits);
  }
    where
      after :
          {bs : List ℕ} {o : Outcome (DecState σ η) (Unit {0})}
          → Finishes bs left Free o
          → Finishes bs left Free (terminated (dest + size) o)
      after (finishes_ok v w q) = finishes_ok tt w tt
      after (finishes_fail w) = finishes_fail w

  -- What follows a size.
  pub after_size :
      {left : ℕ} (k : ℕ → M (DecState σ η) (Unit {0}))
      → ((v left' : ℕ) → Total left' Free (k v))
      → Total left Free (λ s. bind_outcome (on_stream decode_varint32 s) k)
  after_size {left} k h =
      Total-bind (λ v l. l ≤ left) (on_stream decode_varint32) k
        (on_stream-Total decode_varint32 (decode_varint32-IsSafe σ)) (λ v l le q. h v l)

  pub dec_fixed_length_bytes-Total :
      (f : Field) (dest left : ℕ) → Total left Free (dec_fixed_length_bytes {σ = σ} {η = η} f dest)
  unfolding dec_fixed_length_bytes
  dec_fixed_length_bytes-Total f dest left = after_size _ λ size l.
      Total-if (ltb size_max size) _ _ (λ e. Total-error bytes_overflow)
        λ n.
          Total-if (size == 0) _ _
            (λ e.
              Total-after (λ s. store_bytes (zeros f.data_size) dest s.mem) (λ s. ok tt s)
                (Total-ok tt tt))
            λ n'.
              Total-if (not (size == f.data_size)) _ _
                (λ e. Total-error incorrect_fixed_length_bytes_size)
                (λ n''. read_into-Total dest f.data_size l)
