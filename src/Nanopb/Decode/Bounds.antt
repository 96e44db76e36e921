-- ===== src/Nanopb/Decode/Bounds.antt =====
-- What the pb_dec_* functions store, and where.
use test_gbksoft.Common.{
  ℕ, ◌+◌, ◌%◌, ◌^◌, ◌≤◌, ◌≡◌, ◌≢◌, arith, true, false, not, ltb, ◌==◌, ==_iff, Option, List, length,
}
use test_gbksoft.Common.Outcome.{M}
use test_gbksoft.Nanopb.Types.{
  Field, ErrMsg, ltype, atype, size_max, invalid_data_size, bytes_overflow,
}
use test_gbksoft.Nanopb.Types.{string_overflow, size_too_large, incorrect_fixed_length_bytes_size}
use test_gbksoft.Nanopb.Types.Atype
use test_gbksoft.Nanopb.Memory.{Mem}
use test_gbksoft.Nanopb.Input.Buffer.{at}
use test_gbksoft.Nanopb.Input.Varint.{decode_varint32, decode_varint}
use test_gbksoft.Nanopb.Input.Wire.{decode_svarint, decode_fixed32, decode_fixed64}
use test_gbksoft.Nanopb.Input.SafeReaders.{
  decode_varint-IsSafe, decode_varint32-IsSafe, decode_svarint-IsSafe,
}
use test_gbksoft.Nanopb.Input.SafeWords.{decode_fixed32-IsSafe, decode_fixed64-IsSafe}
use test_gbksoft.Nanopb.Decode.State.{DecState, on_stream}
use test_gbksoft.Nanopb.Decode.Allocate.{Realloc}
use test_gbksoft.Nanopb.Decode.Confined.{
  Confined, IsConfined, IsConfined-bind, IsConfined-if, IsConfined-error,
}
use test_gbksoft.Nanopb.Decode.Confined.{on_stream-IsConfined, put_bytes-IsConfined}
use test_gbksoft.Nanopb.Decode.Values.{
  zeros, clamp, clamp_signed, dec_varint, dec_uvarint, dec_svarint, dec_fixed32, dec_fixed64,
}
use test_gbksoft.Nanopb.Decode.Values.{dec_fixed_length_bytes, dec_bytes, dec_string, decoder}
use test_gbksoft.Nanopb.Decode.Stores.{
  length-zeros, put-IsConfined, read_into-IsConfined, clamp-IsConfined, read_bytes-IsConfined,
  read_string-IsConfined,
}

no_decoder :
    (l : ℕ)
    → l ≤ 9
    → l ≢ 7
    → l ≢ 8
    → ((l == 0) ≡ false)
      × ((l == 1) ≡ false)
      × ((l == 2) ≡ false)
      × ((l == 3) ≡ false)
      × ((l == 4) ≡ false)
    → ((l == 5) ≡ false) × ((l == 6) ≡ false) × ((l == 9) ≡ false)
    → ⊥
no_decoder l last m r low high = ground arith

module _ {σ η : Type 0} (field : Field) (dest : ℕ) where
  abbrev Stays : M (DecState σ η) (Unit {0}) → Type 0
  Stays m = IsConfined dest field.data_size m

  clamped : (w c v : ℕ) → (field.data_size == w) ≡ true → Stays (clamp w dest c v)
  clamped w c v e =
      clamp-IsConfined dest field.data_size w dest c v (omega arith)
        (omega (arith, (==_iff field.data_size w).0 e))

  clamp_signed-IsConfined : (value : ℕ) → Stays (clamp_signed field dest value)
  unfolding clamp_signed
  clamp_signed-IsConfined value =
      IsConfined-if (field.data_size == 8) _ _ (λ e. clamped 8 _ _ e)
        λ n8.
          IsConfined-if (field.data_size == 4) _ _ (λ e. clamped 4 _ _ e)
            λ n4.
              IsConfined-if (field.data_size == 2) _ _ (λ e. clamped 2 _ _ e)
                λ n2.
                  IsConfined-if (field.data_size == 1) _ _ (λ e. clamped 1 _ _ e)
                    λ n1. IsConfined-error invalid_data_size

  dec_varint-IsConfined : Stays (dec_varint field dest)
  unfolding dec_varint
  dec_varint-IsConfined =
      IsConfined-bind (on_stream decode_varint) _
        (on_stream-IsConfined decode_varint (decode_varint-IsSafe σ))
        λ value. clamp_signed-IsConfined _

  dec_svarint-IsConfined : Stays (dec_svarint field dest)
  unfolding dec_svarint
  dec_svarint-IsConfined =
      IsConfined-bind (on_stream decode_svarint) _
        (on_stream-IsConfined decode_svarint (decode_svarint-IsSafe σ))
        λ value. clamp_signed-IsConfined value

  dec_uvarint-IsConfined : Stays (dec_uvarint field dest)
  unfolding dec_uvarint
  dec_uvarint-IsConfined =
      IsConfined-bind (on_stream decode_varint) _
        (on_stream-IsConfined decode_varint (decode_varint-IsSafe σ))
        λ value.
          IsConfined-if (field.data_size == 8) _ _ (λ e. clamped 8 _ _ e)
            λ n8.
              IsConfined-if (field.data_size == 4) _ _ (λ e. clamped 4 _ _ e)
                λ n4.
                  IsConfined-if (field.data_size == 2) _ _ (λ e. clamped 2 _ _ e)
                    λ n2.
                      IsConfined-if (field.data_size == 1) _ _ (λ e. clamped 1 _ _ e)
                        λ n1. IsConfined-error invalid_data_size

  dec_fixed32-IsConfined : field.data_size ≡ 4 → Stays (dec_fixed32 field dest)
  unfolding dec_fixed32
  dec_fixed32-IsConfined e =
      IsConfined-bind (on_stream decode_fixed32) _
        (on_stream-IsConfined decode_fixed32 (decode_fixed32-IsSafe σ))
        λ v. put-IsConfined dest field.data_size 4 dest v (omega arith) (omega (arith, e))

  dec_fixed64-IsConfined : field.data_size ≡ 8 → Stays (dec_fixed64 field dest)
  unfolding dec_fixed64
  dec_fixed64-IsConfined e =
      IsConfined-bind (on_stream decode_fixed64) _
        (on_stream-IsConfined decode_fixed64 (decode_fixed64-IsSafe σ))
        λ v. put-IsConfined dest field.data_size 8 dest v (omega arith) (omega (arith, e))

  dec_fixed_length-IsConfined : Stays (dec_fixed_length_bytes field dest)
  unfolding dec_fixed_length_bytes
  dec_fixed_length-IsConfined =
      IsConfined-bind (on_stream decode_varint32) _
        (on_stream-IsConfined decode_varint32 (decode_varint32-IsSafe σ))
        λ size.
          IsConfined-if (ltb size_max size) _ _ (λ e. IsConfined-error bytes_overflow)
            λ n1.
              IsConfined-if (size == 0) _ _
                (λ e.
                  put_bytes-IsConfined (zeros field.data_size) dest (omega arith)
                    (omega (arith, length-zeros field.data_size)))
                λ n2.
                  IsConfined-if (not (size == field.data_size)) _ _
                    (λ e. IsConfined-error incorrect_fixed_length_bytes_size)
                    λ n3.
                      read_into-IsConfined dest field.data_size dest field.data_size (omega arith)
                        (omega arith)

  module _ (realloc : Realloc η) (static : (atype field.type == Atype.pointer) ≡ false) where
    dec_bytes-IsConfined : Stays (dec_bytes realloc field dest)
    unfolding dec_bytes
    dec_bytes-IsConfined =
        IsConfined-bind (on_stream decode_varint32) _
          (on_stream-IsConfined decode_varint32 (decode_varint32-IsSafe σ))
          λ size.
            IsConfined-if (ltb size_max size) _ _ (λ e. IsConfined-error bytes_overflow)
              λ n1.
                IsConfined-if (ltb (size + 4) size) _ _ (λ e. IsConfined-error size_too_large)
                  λ n2.
                    IsConfined-if (atype field.type == Atype.pointer) _ _
                      (λ e. absurd (cc (e, static)))
                      λ n3.
                        IsConfined-if (ltb field.data_size (size + 4)) _ _
                          (λ e. IsConfined-error bytes_overflow)
                          λ n4.
                            read_bytes-IsConfined dest field.data_size size dest (omega arith)
                              (roomy size n4)
      where
        roomy :
            (size : ℕ)
            → ltb field.data_size (size + 4) ≡ false
            → dest + (size + 4) ≤ dest + field.data_size
        roomy size e = ground arith

    dec_string-IsConfined : Stays (dec_string realloc field dest)
    unfolding dec_string
    dec_string-IsConfined =
        IsConfined-bind (on_stream decode_varint32) _
          (on_stream-IsConfined decode_varint32 (decode_varint32-IsSafe σ))
          λ size.
            IsConfined-if (ltb ((size + 1) % 2 ^ 32) size) _ _
              (λ e. IsConfined-error size_too_large)
              λ n2.
                IsConfined-if (atype field.type == Atype.pointer) _ _ (λ e. absurd (cc (e, static)))
                  λ n3.
                    IsConfined-if (ltb field.data_size ((size + 1) % 2 ^ 32)) _ _
                      (λ e. IsConfined-error string_overflow)
                      λ n4.
                        read_string-IsConfined dest field.data_size size dest (omega arith)
                          (roomy size n2 n4)
      where
        roomy :
            (size : ℕ)
            → ltb ((size + 1) % 2 ^ 32) size ≡ false
            → ltb field.data_size ((size + 1) % 2 ^ 32) ≡ false
            → dest + (size + 1) ≤ dest + field.data_size
        roomy size e e' = ground arith

    decoder-IsConfined :
        (sub : Field → ℕ → M (DecState σ η) (Unit {0}))
        → (ltype field.type ≤ 9) × (ltype field.type ≢ 7) × (ltype field.type ≢ 8)
        → (ltype field.type ≡ 3 → field.data_size ≡ 4)
        → (ltype field.type ≡ 4 → field.data_size ≡ 8)
        → Stays (decoder realloc sub field dest)
    unfolding decoder
    decoder-IsConfined sub (last, m, r) four eight =
        let l : ℕ = ltype field.type in
        IsConfined-if (l == 0) _ _ (λ e. dec_varint-IsConfined)
          λ n0.
            IsConfined-if (l == 1) _ _ (λ e. dec_uvarint-IsConfined)
              λ n1.
                IsConfined-if (l == 2) _ _ (λ e. dec_svarint-IsConfined)
                  λ n2.
                    IsConfined-if (l == 3) _ _
                      (λ e. dec_fixed32-IsConfined (four ((==_iff l 3).0 e)))
                      λ n3.
                        IsConfined-if (l == 4) _ _
                          (λ e. dec_fixed64-IsConfined (eight ((==_iff l 4).0 e)))
                          λ n4.
                            IsConfined-if (l == 5) _ _ (λ e. dec_bytes-IsConfined)
                              λ n5.
                                IsConfined-if (l == 6) _ _ (λ e. dec_string-IsConfined)
                                  λ n6.
                                    IsConfined-if (l == 7) _ _ (λ e. absurd (m ((==_iff l 7).0 e)))
                                      λ n7.
                                        IsConfined-if (l == 9) _ _
                                          (λ e. dec_fixed_length-IsConfined)
                                          λ n9. absurd (
                                            no_decoder l last m r (n0, n1, n2, n3, n4) (n5, n6, n9))

    -- For a field of any type but a submessage or an extension, that is not a pointer, with four
    -- bytes where its type is fixed32 and eight where it is fixed64, and where the memory of the
    -- stream holds at least the bytes that it promises, its decoder of PB_DECODERS ends, with true
    -- or false, whatever the bytes are, has read no byte past the end of the stream, and has
    -- stored only in the data_size bytes at its destination.
    pub decoder-Confined :
        (sub : Field → ℕ → M (DecState σ η) (Unit {0}))
        → (ltype field.type ≤ 9) × (ltype field.type ≢ 7) × (ltype field.type ≢ 8)
        → (ltype field.type ≡ 3 → field.data_size ≡ 4)
        → (ltype field.type ≡ 4 → field.data_size ≡ 8)
        → (bs : List ℕ) (left : ℕ) (err : Option ErrMsg) (mem : Mem) (heap : η) → left ≤ length bs
        → Confined dest field.data_size bs left mem (
            decoder realloc sub field dest
              (record { stream = at bs left err; mem = mem; heap = heap }))
    decoder-Confined sub known four eight bs left err mem heap fits =
        (decoder-IsConfined sub known four eight).ends bs left err mem heap fits
