-- ===== src/Nanopb/Encode/SteadyMessage.antt =====
-- pb_encode on different streams, against the text of the message.
use test_gbksoft.Common.{ℕ, zero, suc, ◌≤◌, ◌<◌, ◌≡◌, ◌≢◌, refl, arith, fun_ext}
use test_gbksoft.Common.{true, false, ◌==◌, ==_iff, Bool-cases, inl, inr, some, length, get_elem?}
use test_gbksoft.Common.Outcome.{ok, M, bind_outcome}
use test_gbksoft.Nanopb.Types.{Field, ltype}
use test_gbksoft.Nanopb.Types.Ltype
use test_gbksoft.Nanopb.Iter.{FieldIter, begin, next}
use test_gbksoft.Nanopb.Iter.Placed.{
  Walk, last_field, more_fields, placed, begin-Walk, length-placed,
}
use test_gbksoft.Nanopb.Encode.Unset.{unset}
use test_gbksoft.Common.{List, ap, ◌∙◌}
use test_gbksoft.Nanopb.Output.{OStream}
use test_gbksoft.Nanopb.Output.Steady.{Writes, Writes-bind, Writes-done}
use test_gbksoft.Common.{append-nil}
use test_gbksoft.Nanopb.Output.Text.{Text, nothing, and_then}
use test_gbksoft.Nanopb.Encode.Wire.{fields_text, message_text}
use test_gbksoft.Nanopb.Encode.Env.{Env}
use test_gbksoft.Nanopb.Encode.Schema.{IsField, IsSchema, All-get}
use test_gbksoft.Nanopb.Encode.Default.{is_default}
use test_gbksoft.Nanopb.Encode.Field.{encode_field}
use test_gbksoft.Nanopb.Encode.Answers.{is_default-unset}
use test_gbksoft.Nanopb.Encode.Submessages.{Writes-submessage}
use test_gbksoft.Nanopb.Encode.SteadyBasic.{CallbacksWrite, Writes-encode_field}
use test_gbksoft.Nanopb.Encode.Message.{encode_one, encode_loop, encode_from, encode, submessage}

module _ {τ : Type 0} (env : Env τ) where
  open env use {mem, table}

  encode_one-regular :
      (encode : Field → ℕ → M (OStream τ) (Unit {0})) (lists : ℕ) (f : Field) (p : ℕ)
      → ltype f.type ≢ Ltype.extension
      → encode_one env encode lists f p ≡ encode f p
  unfolding encode_one
  encode_one-regular encode lists f p h = elim (Bool-cases (ltype f.type == 8)) [
    | inl e ↦ absurd (h ((==_iff (ltype f.type) 8).0 e))
    | inr e ↦ fun_ext (λ s. rw e refl)
  ]

  module _ (each : Field → ℕ → M (OStream τ) (Unit {0})) where
    encode_loop-next :
        (fuel : ℕ) (it it' : FieldIter) (f : Field)
        → get_elem? it.start it.pos ≡ some f
        → next it ≡ ok true it'
        → encode_loop env each (suc fuel) it
          ≡ (λ s. bind_outcome (each f it.p_data s) (λ _. encode_loop env each fuel it'))
    unfolding encode_loop
    encode_loop-next fuel it it' f here step = fun_ext (λ s. rw (encode_loop, here, step) refl)

    encode_loop-last :
        (fuel : ℕ) (it it' : FieldIter) (f : Field)
        → get_elem? it.start it.pos ≡ some f
        → next it ≡ ok false it'
        → encode_loop env each (suc fuel) it
          ≡ (λ s. bind_outcome (each f it.p_data s) (λ _ s'. ok tt s'))
    unfolding encode_loop
    encode_loop-last fuel it it' f here step = fun_ext (λ s. rw (encode_loop, here, step) refl)

    encode_from_field :
        (it : FieldIter)
        → encode_from env each (ok true it) ≡ encode_loop env each (length it.start) it
    unfolding encode_from
    encode_from_field it = refl

    encode_from_empty : (it : FieldIter) → encode_from env each (ok false it) ≡ (λ s. ok tt s)
    unfolding encode_from
    encode_from_empty it = refl

  and_then_done : (t : Text) → and_then t nothing ≡ t
  and_then_done (true, bs) = rw (append-nil bs) refl
  and_then_done (false, bs) = refl

  Writes-last :
      {t : Text} (op : M (OStream τ) (Unit {0}))
      → Writes t op
      → Writes t (λ s. bind_outcome (op s) (λ _ s'. ok tt s'))
  Writes-last {t} op w = rw (← and_then_done t) (Writes-bind op (λ s. ok tt s) w Writes-done)

  module _ (schema : IsSchema table) (k dest : ℕ) (each : Field → ℕ → M (OStream τ) (Unit {0}))
      (text : Field → ℕ → Text)
      (writes : (f : Field) (p : ℕ) → IsField k f → Writes (text f p) (each f p)) where
    found :
        (it : FieldIter) (f : Field)
        → it.start ≡ table k
        → get_elem? (table k) it.pos ≡ some f
        → get_elem? it.start it.pos ≡ some f
    found it f es here = ap (λ (fs : List Field). get_elem? fs it.pos) es ∙ here

    this :
        (it : FieldIter) (f : Field)
        → get_elem? (table k) it.pos ≡ some f
        → Writes (text f it.p_data) (each f it.p_data)
    this it f here =
        writes f it.p_data (All-get (IsField k) (table k) it.pos f (schema.each k) here)

    Writes-encode_loop :
        (fuel : ℕ) (it : FieldIter) (ps : List (Field × ℕ))
        → Walk (table k) it ps
        → length ps ≤ fuel
        → Writes (fields_text text ps) (encode_loop env each fuel it)
    unfolding fields_text
    Writes-encode_loop zero cur ps (last_field it it' f es here step) h = absurd (omega (arith, h))
    Writes-encode_loop zero cur ps (more_fields it it' f rest es here step walk) h =
        absurd (omega (arith, h))
    Writes-encode_loop (suc fuel) cur ps (last_field it it' f es here step) h =
        rw
          (
            and_then_done (text f it.p_data),
            encode_loop-last each fuel it it' f (found it f es here) step,
          )
          (Writes-last (each f it.p_data) (this it f here))
    Writes-encode_loop (suc fuel) cur ps (more_fields it it' f rest es here step walk) h =
        rw (encode_loop-next each fuel it it' f (found it f es here) step) (
          Writes-bind (each f it.p_data) (encode_loop env each fuel it') (this it f here)
            (Writes-encode_loop fuel it' rest walk (omega (arith, h))))

    Writes-encode_from :
        Writes
          (fields_text text (placed (table k) dest))
          (encode_from env each (begin (table k) dest))
    unfolding fields_text
    Writes-encode_from = elim (begin-Walk (table k) (schema.size k) dest (schema.ends k)) [
      | inl (it, e, es, walk) ↦
          rw (e, encode_from_field each it)
            (Writes-encode_loop (length it.start) it _ walk
              (omega (arith, ap (λ (fs : List Field). length fs) es, length-placed (table k) dest)))
      | inr (it, e, none_placed) ↦ rw (e, encode_from_empty each it, none_placed) Writes-done
    ]

  -- The theorem that the layers add up to: the tables are in order, the callbacks write the same
  -- each time, and the fuel has a level for the message and each below it.
  module _ (schema : IsSchema table) (callback : ℕ → Field → ℕ → Text)
      (callbacks : CallbacksWrite env callback) (lists : ℕ) where
    pub Writes-encode :
        (fuel k src : ℕ)
        → k < fuel
        → Writes (message_text mem table callback fuel k src) (encode env lists fuel k src)
    unfolding encode message_text
    Writes-encode zero k src lt = absurd (omega arith)
    Writes-encode (suc fuel) k src lt =
        let sub : ℕ → ℕ → M (OStream τ) (Unit {0}) =
          λ k' src'. submessage (encode env lists fuel k' src') in
        let text : ℕ → ℕ → Text = λ k' p. message_text mem table callback fuel k' p in
        let field : Field → ℕ → M (OStream τ) (Unit {0}) =
          encode_field env (is_default mem table (suc fuel)) sub in
        Writes-encode_from schema k src (encode_one env field lists) _ λ f p h.
          rw (encode_one-regular field lists f p h.regular) (
            Writes-encode_field env (is_default mem table (suc fuel)) (unset mem table (suc fuel))
              sub text k
              (λ k' src' less. Writes-submessage _ (Writes-encode fuel k' src' (omega arith)))
              callback callbacks f p h (is_default-unset mem table schema (suc fuel) k f p lt h))
