-- ===== src/Nanopb/Decode/Stores.antt =====
-- Where the pb_dec_* functions store.
use test_gbksoft.Common.{
  ℕ, zero, suc, ◌+◌, ◌≤◌, ◌≡◌, refl, ◌∙◌, arith, ◌==◌, List, [], ◌∷◌, length, take,
}
use test_gbksoft.Common.Outcome.{Outcome}
use test_gbksoft.Nanopb.Types.{integer_too_large}
use test_gbksoft.Nanopb.Memory.{Mem, little_endian, length-little_endian}
use test_gbksoft.Nanopb.Input.{read}
use test_gbksoft.Nanopb.Input.Safety.{read-IsSafe}
use test_gbksoft.Nanopb.Input.SafeReaders.{}
use test_gbksoft.Nanopb.Decode.State.{DecState, on_stream, put, put_bytes, read_into}
use test_gbksoft.Nanopb.Decode.Confined.{
  Confined, confined_ok, confined_fail, IsConfined, IsConfined-bind, IsConfined-if, IsConfined-done,
  IsConfined-error,
}
use test_gbksoft.Nanopb.Decode.Confined.{
  on_stream-IsConfined, put_bytes-IsConfined, store_bytes-Outside,
}
use test_gbksoft.Nanopb.Decode.Values.{zeros, clamp}
use test_gbksoft.Nanopb.Decode.Values.{read_bytes, terminated, read_string}

pub length-zeros : (n : ℕ) → length (zeros n) ≡ n
unfolding zeros
length-zeros zero = refl
length-zeros (suc n) = omega (arith, length-zeros n)

take_le : (n : ℕ) (bs : List ℕ) → length (take n bs) ≤ n
take_le zero bs = omega arith
take_le (suc n) [] = omega arith
take_le (suc n) (b ∷ bs) = omega (arith, take_le n bs)

module _ {σ η : Type 0} (a n : ℕ) where
  pub put-IsConfined :
      (w p v : ℕ) → a ≤ p → p + w ≤ a + n → IsConfined {σ = σ} {η = η} a n (put w p v)
  put-IsConfined w p v low high =
      put_bytes-IsConfined (little_endian w v) p low (omega (arith, length-little_endian w v))

  pub read_into-IsConfined :
      (p count : ℕ) → a ≤ p → p + count ≤ a + n → IsConfined {σ = σ} {η = η} a n (read_into p count)
  unfolding read_into
  read_into-IsConfined p count low high =
      IsConfined-bind (on_stream (read count)) (λ bs. put_bytes (take count bs) p)
        (on_stream-IsConfined (read count) (read-IsSafe σ count))
        (λ bs. put_bytes-IsConfined (take count bs) p low (omega (arith, take_le count bs)))

  pub clamp-IsConfined :
      (w dest clamped value : ℕ)
      → a ≤ dest
      → dest + w ≤ a + n
      → IsConfined {σ = σ} {η = η} a n (clamp w dest clamped value)
  unfolding clamp
  clamp-IsConfined w dest clamped value low high =
      IsConfined-bind (put w dest clamped) _ (put-IsConfined w dest clamped low high) λ u.
        IsConfined-if (clamped == value) _ _ (λ e. IsConfined-done)
          (λ e. IsConfined-error integer_too_large)

  pub read_bytes-IsConfined :
      (size bdest : ℕ)
      → a ≤ bdest
      → bdest + (size + 4) ≤ a + n
      → IsConfined {σ = σ} {η = η} a n (read_bytes size bdest)
  unfolding read_bytes
  read_bytes-IsConfined size bdest low high =
      IsConfined-bind (put 4 bdest size) _ (put-IsConfined 4 bdest size low (omega arith))
        λ u. read_into-IsConfined (bdest + 4) size (omega arith) (omega arith)

  terminated-Confined :
      {bs : List ℕ} {left : ℕ} {mem : Mem} (p : ℕ) {o : Outcome (DecState σ η) (Unit {0})}
      → a ≤ p
      → p + 1 ≤ a + n
      → Confined a n bs left mem o
      → Confined a n bs left mem (terminated p o)
  unfolding terminated
  terminated-Confined p low high (confined_ok v {s} w out) =
      confined_ok tt w (λ x h. store_bytes-Outside (0 ∷ []) p s.mem x (ground arith) ∙ out x h)
  terminated-Confined p low high (confined_fail {s} w out) =
      confined_fail w (λ x h. store_bytes-Outside (0 ∷ []) p s.mem x (ground arith) ∙ out x h)

  pub read_string-IsConfined :
      (size dest : ℕ)
      → a ≤ dest
      → dest + (size + 1) ≤ a + n
      → IsConfined {σ = σ} {η = η} a n (read_string size dest)
  unfolding read_string
  read_string-IsConfined size dest low high = record {
    ends = λ bs left err mem heap fits.
        terminated-Confined (dest + size) (omega arith) (omega arith)
          ((read_into-IsConfined dest size low (omega arith)).ends bs left err mem heap fits);
  }
