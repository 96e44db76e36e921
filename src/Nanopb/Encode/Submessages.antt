-- ===== src/Nanopb/Encode/Submessages.antt =====
-- A submessage behind its size, which a first pass counts.
use test_gbksoft.Common.{ℕ, ◌+◌, ◌^◌, ◌≤◌, ◌<◌, ◌≡◌, refl, ◌∙◌, arith, le→ltb, lt→ltb}
use test_gbksoft.Common.{true, false, ◌==◌, Option, none, List, [], ◌++◌, length, drop}
use test_gbksoft.Common.{fun_ext, length-append, length-drop, append_assoc, append-nil, drop-drop}
use test_gbksoft.Common.Outcome.{ok, fail, M}
use native.Mathlib.Decide.{dec_lt}
use test_gbksoft.Nanopb.Types.{ErrMsg, set_error, stream_full, IsU64}
use test_gbksoft.Nanopb.Output.{OStream, add_size, ostream_sizing}
use test_gbksoft.Nanopb.Output.Text.{Text, framed_text}
use test_gbksoft.Nanopb.Output.Buffer.{out, counting, write_n-counting}
use test_gbksoft.Nanopb.Output.Steady.{
  IsSteady, Writes, Counted, counted_ok, counted_fail, Stored, stored_ok, stored_fail,
}
use test_gbksoft.Nanopb.Output.SteadyWriters.{encode_varint-IsSteady}
use test_gbksoft.Nanopb.Varint.{varint_of}
use test_gbksoft.Nanopb.Encode.Message.{
  rejoin, finish_submessage, write_submessage, after_sizing, submessage,
}
use test_gbksoft.Nanopb.Encode.Frames.{plus_nil, no_wrap, zero_plus, IsSteady-huge}

module _ {τ : Type 0} where
  -- The second half of pb_encode_submessage.
  write-Counted :
      (encode : M (OStream τ) (Unit {0})) (bs : List ℕ) (limit count : ℕ) (err : Option ErrMsg)
      → count + length (varint_of (length bs) ++ bs) < 2 ^ 64
      → Counted true limit
          (count + length (varint_of (length bs) ++ bs))
          (write_submessage encode (length bs) (counting limit count err))
  unfolding write_submessage
  write-Counted encode bs limit count err lt =
      let v : List ℕ = varint_of (length bs) in
      let both : length (v ++ bs) ≡ length v + length bs = length-append v bs in
      let sum : count + length v + length bs ≡ count + length (v ++ bs) = omega (arith, both) in
      let u64 : IsU64 (length bs) = omega (arith, both) in
      elim ((encode_varint-IsSteady {τ = τ} (length bs) u64).counted limit count err
        (omega (arith, both))) [
          | counted_ok t err' e ↦ counted_ok refl err' (
              rw
                (
                  e,
                  write_n-counting {τ = τ} [] (length bs) limit (count + length v) err'
                      (omega (arith, both)),
                  sum,
                )
                refl)
          | counted_fail t s e ↦ absurd (cc t)
        ]

  -- The substream ends where it should.
  rejoined :
      (bs before after : List ℕ) (limit count : ℕ) (err err' : Option ErrMsg)
      → count + length bs ≤ limit
      → limit < 2 ^ 63
      → rejoin
          (length bs)
          true
          (out {τ = τ} before after limit count err)
          (out (before ++ bs) (drop (length bs) after) (length bs) (0 + length bs) err')
        ≡ ok tt (out (before ++ bs) (drop (length bs) after) limit (count + length bs) err')
  unfolding rejoin
  rejoined bs before after limit count err err' h hl =
      rw (zero_plus (length bs), same (length bs), no_wrap count (length bs) limit h (omega arith))
        refl
    where
      same : (n : ℕ) → (n == n) ≡ true
      same n = ground arith

  -- The body, where the size and the limit agree.
  body-stored :
      (encode : M (OStream τ) (Unit {0})) (bs before after : List ℕ) (limit count : ℕ)
      (err : Option ErrMsg)
      → IsSteady true bs encode
      → limit < 2 ^ 63
      → count + length bs ≤ limit
      → limit ≤ count + length after
      → (err' : Option ErrMsg) × (finish_submessage
            (length bs)
            (out before after limit count err)
            (encode (out before after (length bs) 0 none))
          ≡ ok tt (out (before ++ bs) (drop (length bs) after) limit (count + length bs) err'))
  unfolding finish_submessage
  body-stored encode bs before after limit count err h hl hc ha =
      elim (h.stored before after (length bs) 0 none (omega arith) (omega arith) (omega arith)
        (omega arith)) [
          | stored_ok t fits err' e ↦
              (err', rw e (rejoined bs before after limit count err err' hc hl))
          | stored_fail full part within err' e ↦ absurd (omega (arith, full refl))
        ]

  write-stored :
      (encode : M (OStream τ) (Unit {0})) (bs before after : List ℕ) (limit count : ℕ)
      (err : Option ErrMsg)
      → IsSteady true bs encode
      → IsU64 (length bs)
      → limit < 2 ^ 63
      → length (varint_of (length bs) ++ bs) < 2 ^ 63
      → count ≤ limit
      → limit ≤ count + length after
      → Stored true
          (varint_of (length bs) ++ bs)
          before
          after
          limit
          count
          (write_submessage encode (length bs) (out before after limit count err))
  unfolding write_submessage
  write-stored encode bs before after limit count err h u64 hl hb hc ha =
      let v : List ℕ = varint_of (length bs) in
      let both : length (v ++ bs) ≡ length v + length bs = length-append v bs in
      elim ((encode_varint-IsSteady {τ = τ} (length bs) u64).stored before after limit count err hl
        (omega (arith, both)) hc ha) [
          | stored_ok t fits err' e ↦ rw e (elim (dec_lt limit (count + length v + length bs)) [
            | yes full ↦
                rw
                  (
                    wraps_not (count + length v) (length bs) (omega (arith, both)),
                    lt→ltb limit (count + length v + length bs) full,
                  )
                  (stored_fail (λ t'. omega (arith, both)) v fits (set_error err' stream_full) refl)
            | no room ↦
                let (err'', e') =
                  body-stored encode bs (before ++ v) (drop (length v) after) limit
                    (count + length v) err' h hl (omega arith)
                    (omega (arith, length-drop (length v) after)) in
                rw
                  (
                    wraps_not (count + length v) (length bs) (omega (arith, both)),
                    le→ltb limit (count + length v + length bs) (omega arith),
                  )
                  (stored_ok refl (omega (arith, both)) err'' (
                    e'
                    ∙ rw
                        (
                          append_assoc before v bs,
                          drop-drop (length bs) (length v) after,
                          ← both,
                          sum count,
                        )
                        refl))
          ])
          | stored_fail full part within err' e ↦
              rw e (stored_fail (λ t'. omega (arith, both, full refl)) part within err' refl)
        ]
    where
      wraps_not : (a b : ℕ) → a + b < 2 ^ 64 → add_size a b ≡ a + b
      wraps_not a b h = omega arith

      sum :
          (n : ℕ)
          → n + length (varint_of (length bs)) + length bs
            ≡ n + length (varint_of (length bs) ++ bs)
      sum n = omega (arith, length-append (varint_of (length bs)) bs)

  -- pb_encode_submessage writes the size of the message, and the message.
  sized :
      (encode : M (OStream τ) (Unit {0})) (bs : List ℕ) (err : Option ErrMsg)
      → encode (counting 0 0 none) ≡ ok tt (counting 0 (0 + length bs) err)
      → submessage encode ≡ write_submessage encode (length bs)
  unfolding submessage after_sizing ostream_sizing
  sized encode bs err e = fun_ext (λ s. rw (e, zero_plus (length bs)) refl)

  pub submessage-IsSteady :
      (encode : M (OStream τ) (Unit {0})) (bs : List ℕ)
      → IsSteady true bs encode
      → IsU64 (length bs)
      → IsSteady true (varint_of (length bs) ++ bs) (submessage encode)
  submessage-IsSteady encode bs h u64 = elim (h.counted 0 0 none (omega arith)) [
    | counted_ok t err e ↦ rw (sized encode bs err e) (record {
      counted = write-Counted encode bs;
      stored = λ before after limit count err hl hb hc ha.
          write-stored encode bs before after limit count err h u64 hl hb hc ha;
    })
    | counted_fail t s e ↦ absurd (cc t)
  ]

  sizing_failed :
      (encode : M (OStream τ) (Unit {0})) (s s' : OStream τ)
      → encode (counting 0 0 none) ≡ fail s'
      → submessage encode s ≡ fail (record s { errmsg = s'.errmsg })
  unfolding submessage after_sizing ostream_sizing
  sizing_failed encode s s' e = rw e refl

  submessage-fails :
      (encode : M (OStream τ) (Unit {0})) (bs : List ℕ)
      → IsSteady false bs encode
      → IsU64 (length bs)
      → IsSteady false bs (submessage encode)
  submessage-fails encode bs h u64 = elim (h.counted 0 0 none (omega arith)) [
    | counted_ok t err e ↦ absurd (cc t)
    | counted_fail t s' e ↦ record {
      counted = λ limit count err lt. counted_fail refl _ (sizing_failed encode _ s' e);
      stored = λ before after limit count err hl hb hc ha.
          stored_fail (λ t'. cc t') [] (omega arith) s'.errmsg
            (sizing_failed encode (out before after limit count err) s' e
              ∙ rw (append-nil before, plus_nil count) refl);
    }
  ]

  pub Writes-submessage :
      {t : Text} (encode : M (OStream τ) (Unit {0}))
      → Writes t encode
      → Writes (framed_text t) (submessage encode)
  Writes-submessage {t = (true, bs)} encode w = elim (dec_lt (length bs) (2 ^ 64)) [
    | yes small ↦ record { steady = submessage-IsSteady encode bs w.steady small }
    | no large ↦ record {
      steady = IsSteady-huge true _ _ (omega (arith, length-append (varint_of (length bs)) bs));
    }
  ]
  Writes-submessage {t = (false, bs)} encode w = elim (dec_lt (length bs) (2 ^ 64)) [
    | yes small ↦ record { steady = submessage-fails encode bs w.steady small }
    | no large ↦ record { steady = IsSteady-huge false bs _ (omega arith) }
  ]
