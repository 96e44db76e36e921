-- ===== src/Nanopb/Encode/Frames.antt =====
-- A size and the packed items that it counts.
use test_gbksoft.Common.{ℕ, ◌+◌, ◌^◌, ◌≤◌, ◌<◌, ◌≡◌, refl, ◌∙◌, arith}
use test_gbksoft.Common.{Bool, true, false, Option, none, List, [], ◌++◌, length}
use test_gbksoft.Common.{fun_ext, length-append, append-nil}
use test_gbksoft.Common.Outcome.{ok, fail, M, bind_outcome}
use native.Mathlib.Decide.{dec_lt}
use test_gbksoft.Nanopb.Types.{ErrMsg, IsU64}
use test_gbksoft.Nanopb.Output.{OStream, add_size, ostream_sizing}
use test_gbksoft.Nanopb.Output.Text.{Text, framed_text}
use test_gbksoft.Nanopb.Output.Buffer.{out, counting, write_n-counting}
use test_gbksoft.Nanopb.Output.Primitives.{encode_varint}
use test_gbksoft.Nanopb.Output.Steady.{
  IsSteady, Writes, Counted, counted_ok, counted_fail, stored_ok, stored_fail, IsSteady-bind,
}
use test_gbksoft.Nanopb.Output.SteadyWriters.{encode_varint-IsSteady}
use test_gbksoft.Nanopb.Varint.{varint_of}
use test_gbksoft.Nanopb.Encode.Field.{framed, size_of}
use test_gbksoft.Nanopb.Encode.Message.{}

pub plus_nil : (n : ℕ) → n + 0 ≡ n
plus_nil n = omega arith

pub no_wrap : (a b m : ℕ) → a + b ≤ m → m < 2 ^ 64 → add_size a b ≡ a + b
no_wrap a b m h1 h2 = omega arith

pub zero_plus : (n : ℕ) → 0 + n ≡ n
zero_plus n = omega arith

module _ {τ : Type 0} where
  -- More bytes than a size_t counts: the claims are about no stream.
  pub IsSteady-huge :
      (good : Bool) (bs : List ℕ) (op : M (OStream τ) (Unit {0}))
      → 2 ^ 64 ≤ length bs
      → IsSteady good bs op
  IsSteady-huge good bs op h = record {
    counted = λ limit count err lt. absurd (omega arith);
    stored = λ before after limit count err hl hb hc ha. absurd (omega arith);
  }

  pub ostream_sizing_lem : ostream_sizing {τ = τ} ≡ counting 0 0 none
  unfolding ostream_sizing
  ostream_sizing_lem = refl

  framed-Counted :
      (items : M (OStream τ) (Unit {0})) (bs : List ℕ) (limit count : ℕ) (err : Option ErrMsg)
      → count + length (varint_of (length bs) ++ bs) < 2 ^ 64
      → Counted true limit
          (count + length (varint_of (length bs) ++ bs))
          (framed items (length bs) (counting limit count err))
  unfolding framed
  framed-Counted items bs limit count err lt =
      let v : List ℕ = varint_of (length bs) in
      let both : length (v ++ bs) ≡ length v + length bs = length-append v bs in
      let sum : count + length v + length bs ≡ count + length (v ++ bs) = omega (arith, both) in
      let u64 : IsU64 (length bs) = omega (arith, both) in
      elim ((encode_varint-IsSteady {τ = τ} (length bs) u64).counted limit count err
        (omega (arith, both))) [
          | counted_ok t err' e ↦ counted_ok refl err' (
              rw
                (
                  e,
                  write_n-counting {τ = τ} [] (length bs) limit (count + length v) err'
                      (omega (arith, both)),
                  sum,
                )
                refl)
          | counted_fail t s e ↦ absurd (cc t)
        ]

  framed-out :
      (items : M (OStream τ) (Unit {0})) (size : ℕ) (before after : List ℕ) (limit count : ℕ)
      (err : Option ErrMsg)
      → IsU64 size
      → limit < 2 ^ 63
      → length (varint_of size) < 2 ^ 63
      → count ≤ limit
      → limit ≤ count + length after
      → framed items size (out before after limit count err)
        ≡ bind_outcome (encode_varint size (out before after limit count err)) (λ _. items)
  unfolding framed
  framed-out items size before after limit count err u64 hl hb hc ha =
      elim ((encode_varint-IsSteady {τ = τ} size u64).stored before after limit count err hl hb hc
        ha) [
          | stored_ok t fits err' e ↦ rw e refl
          | stored_fail full part within err' e ↦ rw e refl
        ]

  pub framed-IsSteady :
      (items : M (OStream τ) (Unit {0})) (bs : List ℕ)
      → IsSteady true bs items
      → IsU64 (length bs)
      → IsSteady true (varint_of (length bs) ++ bs) (framed items (length bs))
  framed-IsSteady items bs h u64 = record {
    counted = framed-Counted items bs;
    stored = λ before after limit count err hl hb hc ha.
        rw
          (framed-out items (length bs) before after limit count err u64 hl
            (omega (arith, length-append (varint_of (length bs)) bs)) hc ha)
          ((IsSteady-bind (encode_varint (length bs)) items (encode_varint-IsSteady (length bs) u64)
              h).stored
            before after limit count err hl hb hc ha);
  }

  -- A packed array whose size a first pass counts.
  counted_size :
      (items : M (OStream τ) (Unit {0})) (bs : List ℕ) (err : Option ErrMsg)
      → items (counting 0 0 none) ≡ ok tt (counting 0 (0 + length bs) err)
      → (s : OStream τ)
      → bind_outcome (size_of (items ostream_sizing) s) (framed items) ≡ framed items (length bs) s
  unfolding size_of ostream_sizing
  counted_size items bs err e s = rw (e, zero_plus (length bs)) refl

  counting_failed :
      (items : M (OStream τ) (Unit {0})) (s s' : OStream τ)
      → items (counting 0 0 none) ≡ fail s'
      → bind_outcome (size_of (items ostream_sizing) s) (framed items) ≡ fail s
  unfolding size_of ostream_sizing
  counting_failed items s s' e = rw e refl

  counted-fails :
      (items : M (OStream τ) (Unit {0})) (bs : List ℕ) (s' : OStream τ)
      → items (counting 0 0 none) ≡ fail s'
      → IsSteady false bs (λ s. bind_outcome (size_of (items ostream_sizing) s) (framed items))
  counted-fails items bs s' e = record {
    counted = λ limit count err lt. counted_fail refl _ (counting_failed items _ s' e);
    stored = λ before after limit count err hl hb hc ha.
        stored_fail (λ t'. cc t') [] (omega arith) err
          (counting_failed items (out before after limit count err) s' e
            ∙ rw (append-nil before, plus_nil count) refl);
  }

  counted_all :
      (items : M (OStream τ) (Unit {0})) (bs : List ℕ)
      → IsSteady true bs items
      → IsU64 (length bs)
      → IsSteady true
          (varint_of (length bs) ++ bs)
          (λ s. bind_outcome (size_of (items ostream_sizing) s) (framed items))
  counted_all items bs h small = elim (h.counted 0 0 none (omega arith)) [
    | counted_ok t err e ↦
        let same : (λ s. bind_outcome (size_of (items ostream_sizing) s) (framed items))
            ≡ framed items (length bs) =
          fun_ext (counted_size items bs err e) in
        rw same (framed-IsSteady items bs h small)
    | counted_fail t s e ↦ absurd (cc t)
  ]

  counted_none :
      (items : M (OStream τ) (Unit {0})) (bs : List ℕ)
      → IsSteady false bs items
      → IsU64 (length bs)
      → IsSteady false bs (λ s. bind_outcome (size_of (items ostream_sizing) s) (framed items))
  counted_none items bs h small = elim (h.counted 0 0 none (omega arith)) [
    | counted_ok t err e ↦ absurd (cc t)
    | counted_fail t s e ↦ counted-fails items bs s e
  ]

  pub Writes-counted :
      {t : Text} (items : M (OStream τ) (Unit {0}))
      → Writes t items
      → Writes (framed_text t) (λ s. bind_outcome (size_of (items ostream_sizing) s) (framed items))
  Writes-counted {t = (true, bs)} items w = elim (dec_lt (length bs) (2 ^ 64)) [
    | yes small ↦ record { steady = counted_all items bs w.steady small }
    | no large ↦ record {
      steady = IsSteady-huge true _ _ (omega (arith, length-append (varint_of (length bs)) bs));
    }
  ]
  Writes-counted {t = (false, bs)} items w = elim (dec_lt (length bs) (2 ^ 64)) [
    | yes small ↦ record { steady = counted_none items bs w.steady small }
    | no large ↦ record { steady = IsSteady-huge false bs _ (omega arith) }
  ]
