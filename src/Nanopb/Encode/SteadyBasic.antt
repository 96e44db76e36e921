-- ===== src/Nanopb/Encode/SteadyBasic.antt =====
-- encode_field on different streams, against the text of the field.
use test_gbksoft.Common.{ℕ, ◌+◌, ◌<◌, ◌≡◌, refl, arith, fun_ext}
use test_gbksoft.Common.{Bool, true, false, not, ◌||◌, ◌==◌, if◌then◌else◌, Option, some}
use test_gbksoft.Common.{==_iff, lt→leb, Bool-cases, inl, inr}
use test_gbksoft.Common.Bits.{bit_and-0x30}
use test_gbksoft.Common.Outcome.{ok, M}
use test_gbksoft.Nanopb.Types.{
  Field, set_error, ltype, htype, atype, IsU32, missing_required_field, invalid_field_type,
  callback_error,
}
use test_gbksoft.Nanopb.Types.Htype
use test_gbksoft.Nanopb.Types.Atype
use test_gbksoft.Nanopb.Memory.{load, load_lt}
use test_gbksoft.Nanopb.Iter.{add_signed}
use test_gbksoft.Nanopb.Output.{OStream}
use test_gbksoft.Nanopb.Output.Steady.{Writes, Writes-if, Writes-case, Writes-done, Writes-error}
use test_gbksoft.Nanopb.Output.Steady.{counted_ok, counted_fail, stored_ok, stored_fail}
use test_gbksoft.Nanopb.Output.Text.{Text, nothing, framed_text}
use test_gbksoft.Nanopb.Encode.Wire.{present_text, is_present, data_of, field_text}
use test_gbksoft.Nanopb.Encode.Answers.{shifted-add_signed}
use test_gbksoft.Nanopb.Encode.Env.{Env}
use test_gbksoft.Nanopb.Encode.Schema.{IsField}
use test_gbksoft.Nanopb.Encode.Field.{checked, has_value, by_htype}
use test_gbksoft.Nanopb.Encode.Field.{encode_basic_field, encode_callback_field, encode_field}
use test_gbksoft.Nanopb.Encode.SteadyArrays.{Writes-encode_array, Writes-encode_single}

htype_last :
    (t : ℕ)
    → (htype t == 0) ≡ false
    → (htype t == 16) ≡ false
    → (htype t == 32) ≡ false
    → htype t ≡ 48
htype_last t a b c = ground (arith, bit_and-0x30 t)

module _ {τ : Type 0} where
  -- A callback that fails.
  Writes-checked :
      {t : Text} (op : M (OStream τ) (Unit {0})) → Writes t op → Writes t (λ s. checked (op s))
  unfolding checked
  Writes-checked op w = record {
    steady = record {
      counted = λ limit count err lt. elim (w.steady.counted limit count err lt) [
        | counted_ok t err' e ↦ rw e (counted_ok t err' refl)
        | counted_fail t s e ↦ rw e (counted_fail t _ refl)
      ];
      stored = λ before after limit count err hl hb hc ha.
          elim (w.steady.stored before after limit count err hl hb hc ha) [
            | stored_ok t fits err' e ↦ rw e (stored_ok t fits err' refl)
            | stored_fail full part within err' e ↦
                rw e (stored_fail full part within (set_error err' callback_error) refl)
          ];
    };
  }

-- What pb.h asks of a callback of the user: it writes the same bytes each time.
abbrev pub CallbacksWrite : {τ : Type 0} → Env τ → (ℕ → Field → ℕ → Text) → Type 0
CallbacksWrite env callback =
    (encode : ℕ) (field : Field) (arg : ℕ)
    → Writes (callback encode field arg) (env.encode_callback encode field arg)

module _ {τ : Type 0} (env : Env τ) (is_default : Field → ℕ → Option Bool) (zero : Field → ℕ → Bool)
    (sub : ℕ → ℕ → M (OStream τ) (Unit {0})) (text : ℕ → ℕ → Text) (k : ℕ)
    (below : (k' src : ℕ) → k' < k → Writes (framed_text (text k' src)) (sub k' src)) where
  Writes-by_htype :
      (field : Field) (p data' : ℕ) (has : Bool)
      → IsField k field
      → Writes
          (present_text env.mem text field data' p has)
          (by_htype env is_default sub field p data' (some has))
  unfolding by_htype present_text
  Writes-by_htype field p data' has h = rw (shifted-add_signed p field.size_offset) (
      let single = Writes-encode_single env is_default sub text k below field data' h in
      let size : ℕ = add_signed p field.size_offset in
      Writes-case (htype field.type == Htype.required) _ _
        (λ e. Writes-if (data' == 0) _ _ (Writes-error missing_required_field) single)
        λ n0.
          Writes-case (htype field.type == Htype.optional) _ _
            (λ e. Writes-if has _ _ single Writes-done)
            λ n1.
              Writes-case (htype field.type == Htype.repeated) _ _
                (λ e.
                  Writes-encode_array env is_default sub text k below field _ data' h
                    (count_fits _ _))
                λ n2.
                  Writes-case (field.size_offset == 0) _ _
                    (λ e. absurd (
                      h.described (htype_last field.type n0 n1 n2)
                        ((==_iff field.size_offset 0).0 e)))
                    λ n3. Writes-if (load env.mem 4 size == field.tag) _ _ single Writes-done)
    where
      count_fits : (b : Bool) (q : ℕ) → IsU32 (if b then load env.mem 4 q else field.array_size)
      count_fits true q = omega (arith, load_lt env.mem 4 q)
      count_fits false q = h.array_fits

  has_value-known :
      (field : Field) (p data' : ℕ)
      → is_default field p ≡ some (zero field p)
      → has_value env is_default sub field p data' ≡ some (is_present env.mem zero field p data')
  unfolding has_value is_present
  has_value-known field p data' answer =
      rw (shifted-add_signed p field.size_offset)
        (elim (Bool-cases (not (field.size_offset == 0))) [
          | inl e ↦ rw e refl
          | inr n ↦ elim (Bool-cases (htype field.type == Htype.optional)) [
            | inl e' ↦ rw (n, e', answer) refl
            | inr n' ↦ rw (n, n') refl
          ]
        ])

  encode_basic_field-by_htype :
      (field : Field) (p : ℕ) (has : Bool)
      → ltype field.type < 10
      → has_value env is_default sub field p (data_of env.mem field p) ≡ some has
      → encode_basic_field env is_default sub field p
        ≡ by_htype env is_default sub field p (data_of env.mem field p) (some has)
  unfolding encode_basic_field
  encode_basic_field-by_htype field p has lt known =
      fun_ext (λ s. rw (lt→leb (ltype field.type) 10 lt, known) refl)

  Writes-encode_basic_field :
      (field : Field) (p : ℕ)
      → IsField k field
      → is_default field p ≡ some (zero field p)
      → Writes
          (present_text env.mem text field
            (data_of env.mem field p)
            p
            (is_present env.mem zero field p (data_of env.mem field p)))
          (encode_basic_field env is_default sub field p)
  Writes-encode_basic_field field p h answer =
      let known = has_value-known field p (data_of env.mem field p) answer in
      rw (encode_basic_field-by_htype field p _ (omega (arith, h.encodable)) known)
        (Writes-by_htype field p (data_of env.mem field p) _ h)

  module _ (callback : ℕ → Field → ℕ → Text) (callbacks : CallbacksWrite env callback) where
    Writes-encode_callback_field :
        (field : Field) (p : ℕ)
        → Writes
            (if load env.mem 8 p == 0 then nothing else callback (load env.mem 8 p) field (p + 8))
            (encode_callback_field env is_default sub field p)
    unfolding encode_callback_field
    Writes-encode_callback_field field p =
        Writes-if (load env.mem 8 p == 0) (λ s. ok tt s) _ Writes-done
          (Writes-checked _ (callbacks (load env.mem 8 p) field (p + 8)))

    pub Writes-encode_field :
        (field : Field) (p : ℕ)
        → IsField k field
        → is_default field p ≡ some (zero field p)
        → Writes
            (field_text env.mem zero callback text field p)
            (encode_field env is_default sub field p)
    unfolding encode_field field_text
    Writes-encode_field field p h answer =
        let a : ℕ = atype field.type in
        Writes-if ((a == Atype.static) || (a == Atype.pointer)) _ _
          (Writes-encode_basic_field field p h answer)
          (Writes-if (a == Atype.callback) _ _ (Writes-encode_callback_field field p)
            (Writes-error invalid_field_type))
