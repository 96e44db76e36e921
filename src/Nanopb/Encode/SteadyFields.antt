-- ===== src/Nanopb/Encode/SteadyFields.antt =====
-- The encoders of the types on different streams, against the text of the value.
use test_gbksoft.Common.{ℕ, ◌+◌, ◌-◌, ◌^◌, ◌≤◌, ◌<◌, ◌≡◌, ◌≢◌, arith}
use test_gbksoft.Common.{Bool, true, false, ◌==◌, if◌then◌else◌, Option, [], ◌++◌, length}
use test_gbksoft.Common.{Option-cases, inl, inr, ==_iff, refl, sym}
use test_gbksoft.Common.Outcome.{M}
use test_gbksoft.Nanopb.Types.{Field, FieldPtr, fields, ltype, IsU64, IsU32}
use test_gbksoft.Nanopb.Types.{invalid_data_size, bytes_size_exceeded, invalid_field_type}
use test_gbksoft.Nanopb.Memory.{Mem, load, load_lt, sign_extend, bytes_at, length-bytes_at}
use test_gbksoft.Nanopb.Output.{OStream, return_error}
use test_gbksoft.Nanopb.Output.Primitives.{encode_varint, encode_svarint, encode_string}
use test_gbksoft.Nanopb.Output.Steady.{IsSteady, Writes, Writes-if, Writes-case, Writes-error}
use test_gbksoft.Nanopb.Output.SteadyWriters.{encode_varint-IsSteady, encode_svarint-IsSteady}
use test_gbksoft.Nanopb.Output.SteadyWriters.{
  encode_fixed32-IsSteady, encode_fixed64-IsSteady, encode_string-IsSteady,
}
use test_gbksoft.Nanopb.Varint.{varint_of}
use test_gbksoft.Nanopb.Encode.Env.{Env}
use test_gbksoft.Nanopb.Encode.Schema.{IsField}
use test_gbksoft.Nanopb.Encode.Field.{encoder}
use test_gbksoft.Nanopb.Output.Primitives.{encode_tag_for_field, wire_type_of}
use test_gbksoft.Nanopb.Output.SteadyWriters.{encode_tag-IsSteady, wire_type_lt}
use test_gbksoft.Nanopb.Output.Text.{Text, framed_text, string_text, varint_text}
use test_gbksoft.Nanopb.Encode.Wire.{
  wire_of, zigzag_number, chars_at, tag_text, sizes_text, signed_text, unsigned_text, bytes_text,
  chars_text, pointed_text, value_text,
}
use test_gbksoft.Nanopb.Memory.{little_endian-load}
use test_gbksoft.Nanopb.Encode.Values.{
  enc_varint, enc_uvarint, enc_svarint, enc_fixed32, enc_fixed64,
}
use test_gbksoft.Nanopb.Encode.Values.{
  enc_bytes, enc_string, enc_submessage, enc_fixed_length_bytes, string_size,
}
use test_gbksoft.Nanopb.Encode.Numbers.{
  string_size-fits, chars_at-bytes_at, zigzag-number, wire_type_of-wire_of, int8_of, int16_of,
  int32_of,
}

module _ {τ : Type 0} where
  Writes-varint : (v : ℕ) → IsU64 v → Writes {τ = τ} (varint_text v) (encode_varint v)
  Writes-varint v h = record { steady = encode_varint-IsSteady v h }

  Writes-svarint :
      (v : ℕ) → IsU64 v → Writes {τ = τ} (varint_text (zigzag_number v)) (encode_svarint v)
  Writes-svarint v h = rw (← zigzag-number v h) (record { steady = encode_svarint-IsSteady v })

  Writes-string :
      (mem : Mem) (n p : ℕ)
      → IsU64 n
      → Writes {τ = τ} (string_text (bytes_at mem n p)) (encode_string (bytes_at mem n p) n)
  Writes-string mem n p h =
      let same = length-bytes_at mem n p in
      let steady = encode_string-IsSteady {τ = τ} (bytes_at mem n p) (omega (arith, same)) in
      record { steady = measured (length (bytes_at mem n p)) n same steady }
    where
      measured :
          (m n' : ℕ)
          → m ≡ n'
          → IsSteady {τ = τ} true
              (varint_of (length (bytes_at mem n p)) ++ bytes_at mem n p)
              (encode_string (bytes_at mem n p) m)
          → IsSteady {τ = τ} true
              (varint_of (length (bytes_at mem n p)) ++ bytes_at mem n p)
              (encode_string (bytes_at mem n p) n')
      measured m n' e steady = rw (← e) steady

  pub Writes-tag_for_field :
      (type tag : ℕ)
      → IsU32 tag
      → Writes {τ = τ} (tag_text type tag) (encode_tag_for_field type tag)
  unfolding encode_tag_for_field tag_text
  Writes-tag_for_field type tag h = elim (Option-cases (wire_type_of type)) [
    | inl e ↦ rw (tag_text, known, e) (Writes-error invalid_field_type)
    | inr (w, e) ↦
        rw (tag_text, known, e)
          (record { steady = encode_tag-IsSteady w tag (wire_type_lt type w e) h })
  ]
    where
      known : wire_of (ltype type) ≡ wire_type_of type
      known = sym (wire_type_of-wire_of type)

module _ {τ : Type 0} (env : Env τ) (field : Field) (src : ℕ) (fits : IsU32 field.data_size) where
  -- The integer of the field, by its size.
  Writes-sizes :
      {ta tb tc td : Text} (op : ℕ → M (OStream τ) (Unit {0})) (a b c d : ℕ)
      → Writes ta (op a)
      → Writes tb (op b)
      → Writes tc (op c)
      → Writes td (op d)
      → Writes (sizes_text env.mem field ta tb tc td) (λ s.
        if field.data_size == 1
        then op a s
        else if field.data_size == 2
        then op b s
        else if field.data_size == 4
        then op c s
        else if field.data_size == 8
        then op d s
        else return_error invalid_data_size s)
  Writes-sizes op a b c d ha hb hc hd = Writes-if (field.data_size == 1) (op a) _ ha (
      Writes-if (field.data_size == 2) (op b) _ hb (
        Writes-if (field.data_size == 4) (op c) _ hc
          (Writes-if (field.data_size == 8) (op d) _ hd (Writes-error invalid_data_size))))

  pub Writes-enc_varint : Writes (signed_text env.mem (λ v. v) field src) (enc_varint env field src)
  unfolding enc_varint signed_text
  Writes-enc_varint =
      rw (← int8_of env.mem src, ← int16_of env.mem src, ← int32_of env.mem src)
        (Writes-sizes encode_varint (sign_extend 8 (load env.mem 1 src))
          (sign_extend 16 (load env.mem 2 src)) (sign_extend 32 (load env.mem 4 src))
          (load env.mem 8 src) (Writes-varint _ (ground (arith, load_lt env.mem 1 src)))
          (Writes-varint _ (ground (arith, load_lt env.mem 2 src)))
          (Writes-varint _ (ground (arith, load_lt env.mem 4 src)))
          (Writes-varint _ (load_lt env.mem 8 src)))

  Writes-enc_uvarint : Writes (unsigned_text env.mem field src) (enc_uvarint env field src)
  unfolding enc_uvarint unsigned_text
  Writes-enc_uvarint =
      Writes-sizes encode_varint (load env.mem 1 src) (load env.mem 2 src) (load env.mem 4 src)
        (load env.mem 8 src)
        (Writes-varint (load env.mem 1 src) (omega (arith, load_lt env.mem 1 src)))
        (Writes-varint (load env.mem 2 src) (omega (arith, load_lt env.mem 2 src)))
        (Writes-varint (load env.mem 4 src) (omega (arith, load_lt env.mem 4 src)))
        (Writes-varint _ (load_lt env.mem 8 src))

  Writes-enc_svarint :
      Writes (signed_text env.mem (λ v. zigzag_number v) field src) (enc_svarint env field src)
  unfolding enc_svarint signed_text
  Writes-enc_svarint =
      rw (← int8_of env.mem src, ← int16_of env.mem src, ← int32_of env.mem src)
        (Writes-sizes encode_svarint (sign_extend 8 (load env.mem 1 src))
          (sign_extend 16 (load env.mem 2 src)) (sign_extend 32 (load env.mem 4 src))
          (load env.mem 8 src) (Writes-svarint _ (ground (arith, load_lt env.mem 1 src)))
          (Writes-svarint _ (ground (arith, load_lt env.mem 2 src)))
          (Writes-svarint _ (ground (arith, load_lt env.mem 4 src)))
          (Writes-svarint _ (load_lt env.mem 8 src)))

  pub enc_fixed32-IsSteady : IsSteady true (bytes_at env.mem 4 src) (enc_fixed32 env field src)
  unfolding enc_fixed32
  enc_fixed32-IsSteady =
      rw (← little_endian-load env.mem 4 src) (encode_fixed32-IsSteady (load env.mem 4 src))

  pub enc_fixed64-IsSteady : IsSteady true (bytes_at env.mem 8 src) (enc_fixed64 env field src)
  unfolding enc_fixed64
  enc_fixed64-IsSteady =
      rw (← little_endian-load env.mem 8 src) (encode_fixed64-IsSteady (load env.mem 8 src))

  Writes-enc_bytes : Writes (bytes_text env.mem field src) (enc_bytes env field src)
  unfolding enc_bytes bytes_text
  Writes-enc_bytes =
      Writes-if (src == 0) (encode_string [] 0) _
        (record { steady = encode_string-IsSteady [] (omega arith) })
        (Writes-if _ _ _ (Writes-error bytes_size_exceeded) (
          Writes-string env.mem (load env.mem 4 src) (src + 4)
            (omega (arith, load_lt env.mem 4 src))))

  Writes-enc_string : Writes (chars_text env.mem field src) (enc_string env field src)
  unfolding enc_string chars_text bytes_at
  Writes-enc_string = rw (← chars _ _) (Writes-string env.mem _ src (small _ _))
    where
      small :
          (a b : Bool)
          → IsU64
              (if a then 0 else string_size env.mem (if b then 2 ^ 64 - 1 else field.data_size) src)
      small true b = omega arith
      small false true = string_size-fits env.mem (2 ^ 64 - 1) src (omega arith)
      small false false = string_size-fits env.mem field.data_size src (omega arith)

      chars :
          (a : Bool) (most : ℕ)
          → bytes_at env.mem (if a then 0 else string_size env.mem most src) src
            ≡ (if a then [] else chars_at env.mem most src)
      chars true most = refl
      chars false most = chars_at-bytes_at env.mem most src

  Writes-enc_fixed_length :
      Writes
        (string_text (bytes_at env.mem field.data_size src))
        (enc_fixed_length_bytes env field src)
  unfolding enc_fixed_length_bytes
  Writes-enc_fixed_length = Writes-string env.mem field.data_size src (omega arith)

no_encoder :
    (l : ℕ)
    → l ≤ 9
    → l ≢ 8
    → ((l == 0) ≡ false)
      × ((l == 1) ≡ false)
      × ((l == 2) ≡ false)
      × ((l == 3) ≡ false)
      × ((l == 4) ≡ false)
    → ((l == 5) ≡ false) × ((l == 6) ≡ false) × ((l == 7) ≡ false) × ((l == 9) ≡ false)
    → ⊥
no_encoder l h r low high = ground arith

-- `text` is what each message of a lower rank is.
module _ {τ : Type 0} (env : Env τ) (is_default : Field → ℕ → Option Bool)
    (sub : ℕ → ℕ → M (OStream τ) (Unit {0})) (text : ℕ → ℕ → Text) (k : ℕ)
    (below : (k' src : ℕ) → k' < k → Writes (framed_text (text k' src)) (sub k' src)) where
  Writes-submessage_ptr :
      (p : FieldPtr) (src : ℕ)
      → (k' : ℕ) × (p ≡ fields k') × (k' < k)
      → Writes (pointed_text text p src) (enc_submessage sub p src)
  unfolding enc_submessage pointed_text
  Writes-submessage_ptr p src (k', e, lt) = rw e (below k' src lt)

  pub Writes-encoder :
      (field : Field) (src : ℕ)
      → IsField k field
      → Writes (value_text env.mem text field src) (encoder env is_default sub field src)
  unfolding encoder value_text
  Writes-encoder field src h =
      let l : ℕ = ltype field.type in
      let fits : IsU32 field.data_size = h.data_fits in
      Writes-case (l == 0) (enc_varint env field src) _ (λ e. Writes-enc_varint env field src fits)
        λ n0.
          Writes-case (l == 1) (enc_uvarint env field src) _
            (λ e. Writes-enc_uvarint env field src fits)
            λ n1.
              Writes-case (l == 2) (enc_svarint env field src) _
                (λ e. Writes-enc_svarint env field src fits)
                λ n2.
                  Writes-case (l == 3) (enc_fixed32 env field src) _
                    (λ e. record { steady = enc_fixed32-IsSteady env field src fits })
                    λ n3.
                      Writes-case (l == 4) (enc_fixed64 env field src) _
                        (λ e. record { steady = enc_fixed64-IsSteady env field src fits })
                        λ n4.
                          Writes-case (l == 5) (enc_bytes env field src) _
                            (λ e. Writes-enc_bytes env field src fits)
                            λ n5.
                              Writes-case (l == 6) (enc_string env field src) _
                                (λ e. Writes-enc_string env field src fits)
                                λ n6.
                                  Writes-case (l == 7) (enc_submessage sub field.ptr src) _
                                    (λ e.
                                      Writes-submessage_ptr field.ptr src
                                        (h.message ((==_iff l 7).0 e)))
                                    λ n7.
                                      Writes-case (l == 9) (enc_fixed_length_bytes env field src) _
                                        (λ e. Writes-enc_fixed_length env field src fits)
                                        λ n9. absurd (
                                          no_encoder l h.encodable h.regular (n0, n1, n2, n3, n4)
                                            (n5, n6, n7, n9))
