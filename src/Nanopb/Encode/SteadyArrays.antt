-- ===== src/Nanopb/Encode/SteadyArrays.antt =====
-- encode_array on different streams, against the text of the items.
use test_gbksoft.Common.{ℕ, zero, suc, ◌*◌, ◌≤◌, ◌<◌, ◌≡◌, refl, arith, fun_ext}
use test_gbksoft.Common.{
  Bool, true, false, not, ◌&&◌, ltb, leb, ◌==◌, Option, List, [], ◌++◌, length,
}
use test_gbksoft.Common.{==_iff, length-append, Bool-cases, inl, inr}
use test_gbksoft.Common.Outcome.{ok, M, bind_outcome}
use test_gbksoft.Nanopb.Types.{Field, ltype, atype, IsU64, IsU32, array_max_size_exceeded}
use test_gbksoft.Nanopb.Types.Ltype
use test_gbksoft.Nanopb.Types.Atype
use test_gbksoft.Nanopb.Types.WireType
use test_gbksoft.Nanopb.Output.{OStream, add_size, return_error, ostream_sizing}
use test_gbksoft.Nanopb.Output.Primitives.{encode_tag, encode_tag_for_field}
use test_gbksoft.Nanopb.Output.Steady.{Writes, Writes-bind, Writes-if, Writes-done, Writes-error}
use test_gbksoft.Nanopb.Output.SteadyWriters.{encode_tag-IsSteady}
use test_gbksoft.Nanopb.Output.Text.{Text, framed_text}
use test_gbksoft.Nanopb.Memory.{bytes_at, length-bytes_at}
use test_gbksoft.Nanopb.Encode.Wire.{
  value_text, packed_text, unpacked_text, array_text, single_text,
}
use test_gbksoft.Nanopb.Encode.Env.{Env}
use test_gbksoft.Nanopb.Encode.Schema.{IsField}
use test_gbksoft.Nanopb.Encode.Field.{
  encoder, packed_items, unpacked_items, framed, size_of, packed_size, encode_array, encode_single,
}
use test_gbksoft.Nanopb.Encode.Frames.{framed-IsSteady, Writes-counted}
use test_gbksoft.Nanopb.Encode.SteadyFields.{Writes-tag_for_field, Writes-encoder}

module _ {τ : Type 0} (env : Env τ) (is_default : Field → ℕ → Option Bool)
    (sub : ℕ → ℕ → M (OStream τ) (Unit {0})) (text : ℕ → ℕ → Text) (k : ℕ)
    (below : (k' src : ℕ) → k' < k → Writes (framed_text (text k' src)) (sub k' src)) where
  Writes-packed_items :
      (field : Field) (count p : ℕ)
      → IsField k field
      → Writes
          (packed_text env.mem text field count p)
          (packed_items env is_default sub field count p)
  unfolding packed_items packed_text
  Writes-packed_items field zero p h = Writes-done
  Writes-packed_items field (suc count) p h =
      Writes-bind (encoder env is_default sub field p)
        (packed_items env is_default sub field count (add_size p field.data_size))
        (Writes-encoder env is_default sub text k below field p h)
        (Writes-packed_items field count (add_size p field.data_size) h)

  Writes-unpacked_items :
      (field : Field) (count p : ℕ)
      → IsField k field
      → Writes
          (unpacked_text env.mem text field count p)
          (unpacked_items env is_default sub field count p)
  unfolding unpacked_items unpacked_text
  Writes-unpacked_items field zero p h = Writes-done
  Writes-unpacked_items field (suc count) p h =
      Writes-bind (encode_tag_for_field field.type field.tag) _
        (Writes-tag_for_field field.type field.tag h.tag_fits)
        (Writes-bind (encoder env is_default sub field _) _
          (Writes-encoder env is_default sub text k below field _ h)
          (Writes-unpacked_items field count (add_size p field.data_size) h))

  value_text-fixed32 :
      (field : Field) (src : ℕ)
      → ltype field.type ≡ 3
      → value_text env.mem text field src ≡ (true, bytes_at env.mem 4 src)
  unfolding value_text
  value_text-fixed32 field src e = rw e refl

  value_text-fixed64 :
      (field : Field) (src : ℕ)
      → ltype field.type ≡ 4
      → value_text env.mem text field src ≡ (true, bytes_at env.mem 8 src)
  unfolding value_text
  value_text-fixed64 field src e = rw e refl

  -- Words of fixed size, whose number gives the size.
  fixed_text :
      (field : Field) (w : ℕ)
      → ((src : ℕ) → value_text env.mem text field src ≡ (true, bytes_at env.mem w src))
      → (count p : ℕ)
      → (bs : List ℕ) × (packed_text env.mem text field count p ≡ (true, bs))
        × (length bs ≡ w * count)
  unfolding packed_text
  fixed_text field w each zero p = ([], refl, omega arith)
  fixed_text field w each (suc count) p =
      let (bs, e, n) = fixed_text field w each count (add_size p field.data_size) in
      (
        bytes_at env.mem w p ++ bs,
        rw (each p, e) refl,
        grind (arith, length-append (bytes_at env.mem w p) bs, length-bytes_at env.mem w p),
      )

  Writes-fixed :
      (field : Field) (w count p : ℕ)
      → w ≤ 8
      → IsU32 count
      → IsField k field
      → ((src : ℕ) → value_text env.mem text field src ≡ (true, bytes_at env.mem w src))
      → Writes
          (framed_text (packed_text env.mem text field count p))
          (framed (packed_items env is_default sub field count p) (w * count))
  Writes-fixed field w count p hw hc h each =
      let (bs, e, n) = fixed_text field w each count p in
      let items : Writes (true, bs) (packed_items env is_default sub field count p) =
        rw (← e) (Writes-packed_items field count p h) in
      rw (e, ← n) (record { steady = framed-IsSteady _ bs items.steady (fits bs n) })
    where
      fits : (bs : List ℕ) → length bs ≡ w * count → IsU64 (length bs)
      fits bs e = grind arith

  -- The size and the items of a packed array.
  abbrev packed_body : Field → ℕ → ℕ → M (OStream τ) (Unit {0})
  packed_body field count p s =
      bind_outcome (packed_size env is_default sub field count p s)
        (framed (packed_items env is_default sub field count p))

  packed_body-fixed32 :
      (field : Field) (count p : ℕ)
      → (ltype field.type == 3) ≡ true
      → packed_body field count p
        ≡ framed (packed_items env is_default sub field count p) (4 * count)
  unfolding packed_size
  packed_body-fixed32 field count p e = fun_ext (λ s. rw e refl)

  packed_body-fixed64 :
      (field : Field) (count p : ℕ)
      → (ltype field.type == 3) ≡ false
      → (ltype field.type == 4) ≡ true
      → packed_body field count p
        ≡ framed (packed_items env is_default sub field count p) (8 * count)
  unfolding packed_size
  packed_body-fixed64 field count p n e = fun_ext (λ s. rw (n, e) refl)

  packed_body-counted :
      (field : Field) (count p : ℕ)
      → (ltype field.type == 3) ≡ false
      → (ltype field.type == 4) ≡ false
      → packed_body field count p ≡ (λ s.
        bind_outcome
          (size_of (packed_items env is_default sub field count p ostream_sizing) s)
          (framed (packed_items env is_default sub field count p)))
  unfolding packed_size
  packed_body-counted field count p n n' = fun_ext (λ s. rw (n, n') refl)

  Writes-packed :
      (field : Field) (count p : ℕ)
      → IsField k field
      → IsU32 count
      → Writes (framed_text (packed_text env.mem text field count p)) (packed_body field count p)
  Writes-packed field count p h hc = elim (Bool-cases (ltype field.type == 3)) [
    | inl e ↦ rw (packed_body-fixed32 field count p e) (
        Writes-fixed field 4 count p (omega arith) hc h
          (λ src. value_text-fixed32 field src ((==_iff (ltype field.type) 3).0 e)))
    | inr n ↦ elim (Bool-cases (ltype field.type == 4)) [
      | inl e ↦ rw (packed_body-fixed64 field count p n e) (
          Writes-fixed field 8 count p (omega arith) hc h
            (λ src. value_text-fixed64 field src ((==_iff (ltype field.type) 4).0 e)))
      | inr n' ↦ rw (packed_body-counted field count p n n') (
          Writes-counted (packed_items env is_default sub field count p)
            (Writes-packed_items field count p h))
    ]
  ]

  pub Writes-encode_array :
      (field : Field) (count p : ℕ)
      → IsField k field
      → IsU32 count
      → Writes
          (array_text env.mem text field p count)
          (encode_array env is_default sub field p count)
  unfolding encode_array array_text
  Writes-encode_array field count p h hc =
      Writes-if (count == 0) (λ s. ok tt s) _ Writes-done
        (Writes-if (not (atype field.type == Atype.pointer) && ltb field.array_size count)
          (return_error array_max_size_exceeded) _ (Writes-error array_max_size_exceeded)
          (Writes-if (leb (ltype field.type) Ltype.last_packable) _ _
            (Writes-bind (encode_tag WireType.string field.tag) _
              (record { steady = encode_tag-IsSteady 2 field.tag (omega arith) h.tag_fits })
              (Writes-packed field count p h hc))
            (Writes-unpacked_items field count p h)))

  pub Writes-encode_single :
      (field : Field) (p : ℕ)
      → IsField k field
      → Writes (single_text env.mem text field p) (encode_single env is_default sub field p)
  unfolding encode_single single_text
  Writes-encode_single field p h =
      Writes-bind (encode_tag_for_field field.type field.tag) (encoder env is_default sub field p)
        (Writes-tag_for_field field.type field.tag h.tag_fits)
        (Writes-encoder env is_default sub text k below field p h)
