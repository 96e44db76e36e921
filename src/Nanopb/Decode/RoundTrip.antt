-- ===== src/Nanopb/Decode/RoundTrip.antt =====
-- pb_dec_varint behind pb_enc_varint.
use test_gbksoft.Common.{
  ℕ, ◌+◌, ◌%◌, ◌^◌, ◌≤◌, ◌<◌, ◌≡◌, refl, ap, ◌∙◌, inl, inr, arith, true, ◌==◌, if◌then◌else◌,
  Option, List, ◌++◌, length, drop,
}
use test_gbksoft.Common.Outcome.{Outcome, ok, M, bind_outcome}
use test_gbksoft.Nanopb.Types.{Field, ErrMsg, IsU64, IsU32}
use test_gbksoft.Nanopb.Memory.{
  Mem, load, load_lt, bytes_at, store_bytes, sign_extend, little_endian, little_endian-load,
}
use test_gbksoft.Nanopb.Input.{IStream}
use test_gbksoft.Nanopb.Input.Buffer.{at}
use test_gbksoft.Nanopb.Input.Varint.{decode_varint}
use test_gbksoft.Nanopb.RoundTrip.{Reads}
use test_gbksoft.Nanopb.RoundTrip.Scalars.{decode_varint-varint_of}
use test_gbksoft.Nanopb.Varint.{varint_of}
use test_gbksoft.Nanopb.Output.{ostream_from_buffer}
use test_gbksoft.Nanopb.Output.Buffer.{out}
use test_gbksoft.Nanopb.Output.Steady.{Writes}
use test_gbksoft.Nanopb.Encode.Env.{Env}
use test_gbksoft.Nanopb.Encode.Values.{enc_varint}
use test_gbksoft.Nanopb.Encode.Exact.{stores}
use test_gbksoft.Nanopb.Encode.SteadyFields.{Writes-enc_varint}
use test_gbksoft.Nanopb.Decode.State.{DecState, on_stream, with_stream, put}
use test_gbksoft.Nanopb.Decode.Values.{clamp, clamp_signed, dec_varint}
use test_gbksoft.Nanopb.Encode.Wire.{signed_text}
use test_gbksoft.Nanopb.Decode.Images.{
  low1, low2, low4, signed_low1, signed_low2, signed_low4, widen1, widen2, widen4, short, long,
  signed_text1, signed_text2, signed_text4, signed_text8, signed_text-sizes,
}

module _ {σ η : Type 0} where
  -- From the bytes, on a stream over memory where they come next, the bytes of the image are stored.
  abbrev pub Restores : M (DecState σ η) (Unit {0}) → List ℕ → ℕ → List ℕ → Type 0
  Restores m bs dest image =
      (rest : List ℕ) (left : ℕ) (err : Option ErrMsg) (mem : Mem) (heap : η)
      → m (record { stream = at (bs ++ rest) (length bs + left) err; mem = mem; heap = heap })
        ≡ ok tt
            (record { stream = at rest left err; mem = store_bytes image dest mem; heap = heap })

  on_stream-Reads :
      {A B : Type 0} (m : M (IStream σ) A) (k : A → M (DecState σ η) B) (bs : List ℕ) (v : A)
      → Reads m bs v
      → (rest : List ℕ) (left : ℕ) (err : Option ErrMsg) (mem : Mem) (heap : η)
      → bind_outcome
          (on_stream m
            (record { stream = at (bs ++ rest) (length bs + left) err; mem = mem; heap = heap }))
          k
        ≡ k v (record { stream = at rest left err; mem = mem; heap = heap })
  unfolding on_stream with_stream
  on_stream-Reads m k bs v h rest left err mem heap = rw (h rest left err) refl

  clamp-same :
      (n dest clamped value : ℕ) (s : DecState σ η)
      → clamped ≡ value
      → clamp n dest clamped value s ≡ put n dest value s
  unfolding clamp
  clamp-same n dest clamped value s e = rw (e, same value) refl
    where
      same : (n : ℕ) → (n == n) ≡ true
      same n = ground arith

  clamp-image :
      (mem' : Mem) (src dest n clamped value : ℕ) (s : DecState σ η)
      → clamped ≡ value
      → little_endian n value ≡ little_endian n (load mem' n src)
      → clamp n dest clamped value s
        ≡ ok tt (record s { mem = store_bytes (bytes_at mem' n src) dest s.mem })
  clamp-image mem' src dest n clamped value s e e' =
      clamp-same n dest clamped value s e ∙ rw (e', little_endian-load mem' n src) refl

  -- The bytes at `src`, stored at `dest`.
  abbrev pub copied : Mem → ℕ → ℕ → ℕ → DecState σ η → Outcome (DecState σ η) (Unit {0})
  copied mem' n src dest s = ok tt (record s { mem = store_bytes (bytes_at mem' n src) dest s.mem })

  signed1 :
      (field : Field) (mem' : Mem) (src dest : ℕ) (s : DecState σ η)
      → field.data_size ≡ 1
      → clamp_signed field dest (sign_extend 8 (load mem' 1 src)) s ≡ copied mem' 1 src dest s
  unfolding clamp_signed
  signed1 field mem' src dest s h =
      let v : ℕ = sign_extend 8 (load mem' 1 src) in
      rw h (
        clamp-image mem' src dest 1 (sign_extend 8 (v % 2 ^ 8)) v s
          (ap (λ (t : ℕ). sign_extend 8 t) (signed_low1 (load mem' 1 src) (load_lt mem' 1 src)))
          (low1 v
            ∙ ap (λ (t : ℕ). little_endian 1 t)
                (signed_low1 (load mem' 1 src) (load_lt mem' 1 src))))

  signed2 :
      (field : Field) (mem' : Mem) (src dest : ℕ) (s : DecState σ η)
      → field.data_size ≡ 2
      → clamp_signed field dest (sign_extend 16 (load mem' 2 src)) s ≡ copied mem' 2 src dest s
  unfolding clamp_signed
  signed2 field mem' src dest s h =
      let v : ℕ = sign_extend 16 (load mem' 2 src) in
      rw h (
        clamp-image mem' src dest 2 (sign_extend 16 (v % 2 ^ 16)) v s
          (ap (λ (t : ℕ). sign_extend 16 t) (signed_low2 (load mem' 2 src) (load_lt mem' 2 src)))
          (low2 v
            ∙ ap (λ (t : ℕ). little_endian 2 t)
                (signed_low2 (load mem' 2 src) (load_lt mem' 2 src))))

  signed4 :
      (field : Field) (mem' : Mem) (src dest : ℕ) (s : DecState σ η)
      → field.data_size ≡ 4
      → clamp_signed field dest (sign_extend 32 (load mem' 4 src)) s ≡ copied mem' 4 src dest s
  unfolding clamp_signed
  signed4 field mem' src dest s h =
      let v : ℕ = sign_extend 32 (load mem' 4 src) in
      rw h (
        clamp-image mem' src dest 4 (sign_extend 32 (v % 2 ^ 32)) v s
          (ap (λ (t : ℕ). sign_extend 32 t) (signed_low4 (load mem' 4 src) (load_lt mem' 4 src)))
          (low4 v
            ∙ ap (λ (t : ℕ). little_endian 4 t)
                (signed_low4 (load mem' 4 src) (load_lt mem' 4 src))))

  signed8 :
      (field : Field) (mem' : Mem) (src dest : ℕ) (s : DecState σ η)
      → field.data_size ≡ 8
      → clamp_signed field dest (load mem' 8 src) s ≡ copied mem' 8 src dest s
  unfolding clamp_signed
  signed8 field mem' src dest s h =
      rw h (clamp-image mem' src dest 8 (load mem' 8 src) (load mem' 8 src) s refl refl)

  dec_varint-known :
      (field : Field) (dest v : ℕ)
      → IsU64 v
      → (image : List ℕ)
      → ((s : DecState σ η)
          → clamp_signed field dest
              (if field.data_size == 8 then v else sign_extend 32 (v % 2 ^ 32))
              s
            ≡ ok tt (record s { mem = store_bytes image dest s.mem }))
      → Restores (dec_varint field dest) (varint_of v) dest image
  unfolding dec_varint
  dec_varint-known field dest v fits image h rest left err mem heap =
      on_stream-Reads decode_varint _ (varint_of v) v (decode_varint-varint_of v fits) rest left err
        mem heap
      ∙ h (record { stream = at rest left err; mem = mem; heap = heap })

  -- The text and the image, where they are known.
  Restores-signed :
      (mem' : Mem) (field : Field) (src dest w v : ℕ)
      → field.data_size ≡ w
      → signed_text mem' (λ v. v) field src ≡ (true, varint_of v)
      → Restores (dec_varint field dest) (varint_of v) dest (bytes_at mem' w src)
      → Restores
          (dec_varint field dest)
          (signed_text mem' (λ v. v) field src).1
          dest
          (bytes_at mem' field.data_size src)
  Restores-signed mem' field src dest w v h e r =
      let image : bytes_at mem' field.data_size src ≡ bytes_at mem' w src =
        ap (λ (n : ℕ). bytes_at mem' n src) h in
      rw (e, image) r

  dec_varint-signed_text :
      (mem' : Mem) (field : Field) (src dest : ℕ)
      → (signed_text mem' (λ v. v) field src).0 ≡ true
      → Restores
          (dec_varint field dest)
          (signed_text mem' (λ v. v) field src).1
          dest
          (bytes_at mem' field.data_size src)
  dec_varint-signed_text mem' field src dest good = elim (signed_text-sizes mem' field src good) [
    | inl (inl h) ↦
        let v : ℕ = sign_extend 8 (load mem' 1 src) in
        Restores-signed mem' field src dest 1 v h (signed_text1 mem' field src h) (
          dec_varint-known field dest v (ground (arith, load_lt mem' 1 src)) _ (λ s.
            ap (λ (t : ℕ). clamp_signed field dest t s)
              (short field v (omega (arith, h)) (widen1 _ (load_lt mem' 1 src)))
            ∙ signed1 field mem' src dest s h))
    | inl (inr h) ↦
        let v : ℕ = sign_extend 16 (load mem' 2 src) in
        Restores-signed mem' field src dest 2 v h (signed_text2 mem' field src h) (
          dec_varint-known field dest v (ground (arith, load_lt mem' 2 src)) _ (λ s.
            ap (λ (t : ℕ). clamp_signed field dest t s)
              (short field v (omega (arith, h)) (widen2 _ (load_lt mem' 2 src)))
            ∙ signed2 field mem' src dest s h))
    | inr (inl h) ↦
        let v : ℕ = sign_extend 32 (load mem' 4 src) in
        Restores-signed mem' field src dest 4 v h (signed_text4 mem' field src h) (
          dec_varint-known field dest v (ground (arith, load_lt mem' 4 src)) _ (λ s.
            ap (λ (t : ℕ). clamp_signed field dest t s)
              (short field v (omega (arith, h)) (widen4 _ (load_lt mem' 4 src)))
            ∙ signed4 field mem' src dest s h))
    | inr (inr h) ↦
        let v : ℕ = load mem' 8 src in
        Restores-signed mem' field src dest 8 v h (signed_text8 mem' field src h) (
          dec_varint-known field dest v (load_lt mem' 8 src) _ (λ s.
            ap (λ (t : ℕ). clamp_signed field dest t s) (long field v h)
            ∙ signed8 field mem' src dest s h))
  ]

module _ {τ σ η : Type 0} (env : Env τ) (field : Field) (src dest : ℕ)
    (fits : IsU32 field.data_size) where
  -- For an integer field whose value in memory has bytes bs on the wire, that is, one of one, two,
  -- four or eight bytes, and a buffer of bufsize bytes, fewer than 2 ^ 63 and enough for bs:
  -- pb_enc_varint returns true and stores bs from the start of the buffer on, and pb_dec_varint,
  -- on a stream over memory where bs comes next, returns true, takes just bs, and stores at its
  -- destination the very bytes of the value, with nothing else changed.
  pub dec_varint-enc_varint :
      (bs buf : List ℕ) (bufsize : ℕ) (rest : List ℕ) (left : ℕ) (err : Option ErrMsg) (mem : Mem)
      (heap : η)
      → signed_text env.mem (λ v. v) field src ≡ (true, bs)
      → length bs ≤ bufsize
      → bufsize < 2 ^ 63
      → bufsize ≤ length buf
      → ((err' : Option ErrMsg) × (enc_varint env field src (ostream_from_buffer buf bufsize)
            ≡ ok tt (out bs (drop (length bs) buf) bufsize (length bs) err')))
        × (dec_varint {σ = σ} field dest
              (record { stream = at (bs ++ rest) (length bs + left) err; mem = mem; heap = heap })
            ≡ ok tt (record {
              stream = at rest left err;
              mem = store_bytes (bytes_at env.mem field.data_size src) dest mem;
              heap = heap;
            }))
  dec_varint-enc_varint bs buf bufsize rest left err mem heap e room limit inside =
      let w : Writes (true, bs) (enc_varint env field src) =
        rw (← e) (Writes-enc_varint env field src fits) in
      let good : (signed_text env.mem (λ v. v) field src).0 ≡ true = rw e refl in
      let back : Restores (dec_varint {σ = σ} {η = η} field dest) bs dest
          (bytes_at env.mem field.data_size src) =
        rw e at (dec_varint-signed_text {σ = σ} {η = η} env.mem field src dest good) in
      (
        stores (enc_varint env field src) buf bufsize w.steady room limit inside,
        back rest left err mem heap,
      )
