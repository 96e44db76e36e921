-- ===== src/Nanopb/Encode/Message.antt =====
-- Extensions, pb_encode, pb_encode_submessage and their callers in pb_encode.c.
use test_gbksoft.Common.{ℕ, zero, suc, ◌+◌, ltb, ◌==◌, not, if◌then◌else◌, Bool, true, false}
use test_gbksoft.Common.{none, [], ◌∷◌, length, get_elem?}
use test_gbksoft.Common.Outcome.{Outcome, ok, fail, fault, stuck, M, bind_outcome}
use test_gbksoft.Nanopb.Types.{Field, ltype, atype, stream_full, submsg_size_changed}
use test_gbksoft.Nanopb.Types.Ltype
use test_gbksoft.Nanopb.Types.Atype
use test_gbksoft.Nanopb.Memory.{load}
use test_gbksoft.Nanopb.Iter.{FieldIter, with_field, begin, next}
use test_gbksoft.Nanopb.Output.{
  OStream, ostream_sizing, is_sizing, return_error, write_n, write, add_size,
}
use test_gbksoft.Nanopb.Output.Primitives.{encode_varint}
use test_gbksoft.Nanopb.Encode.Env.{Env}
use test_gbksoft.Nanopb.Encode.Default.{is_default}
use test_gbksoft.Nanopb.Encode.Field.{encode_field}

module _ {τ : Type 0} where
  -- After pb_encode of the substream, which shares the sink: the stream goes on behind it.
  unfoldable pub rejoin : ℕ → Bool → OStream τ → OStream τ → Outcome (OStream τ) (Unit {0})
  rejoin size status s substream =
      let s' = record s {
        bytes_written = add_size s.bytes_written substream.bytes_written;
        sink = substream.sink;
        errmsg = substream.errmsg;
      } in
      if not (substream.bytes_written == size)
      then return_error submsg_size_changed s'
      else if status
      then ok tt s'
      else fail s'

  unfoldable pub finish_submessage :
      ℕ → OStream τ → Outcome (OStream τ) (Unit {0}) → Outcome (OStream τ) (Unit {0})
  unfolding rejoin
  finish_submessage size s (ok _ substream) = rejoin size true s substream
  finish_submessage size s (fail substream) = rejoin size false s substream
  finish_submessage size s fault = fault
  finish_submessage size s stuck = stuck

  -- The second half of pb_encode_submessage, where the size is known.
  unfoldable pub write_submessage : M (OStream τ) (Unit {0}) → ℕ → M (OStream τ) (Unit {0})
  unfolding finish_submessage
  write_submessage encode size s = bind_outcome (encode_varint size s) λ _ s'.
      if is_sizing s'.sink
      then write_n [] size s'
      else if ltb s'.max_size (add_size s'.bytes_written size)
      then return_error stream_full s'
      else finish_submessage size s'
          (encode (record { sink = s'.sink; max_size = size; bytes_written = 0; errmsg = none }))

  unfoldable pub after_sizing :
      M (OStream τ) (Unit {0}) → Outcome (OStream τ) (Unit {0}) → M (OStream τ) (Unit {0})
  unfolding write_submessage
  after_sizing encode (ok _ substream) s = write_submessage encode substream.bytes_written s
  after_sizing encode (fail substream) s = fail (record s { errmsg = substream.errmsg })
  after_sizing encode fault s = fault
  after_sizing encode stuck s = stuck

  -- pb_encode_submessage, of what pb_encode does for the message.
  unfoldable pub submessage : M (OStream τ) (Unit {0}) → M (OStream τ) (Unit {0})
  unfolding after_sizing
  submessage encode s = after_sizing encode (encode ostream_sizing) s

module _ {τ : Type 0} (env : Env τ) where
  open env use {mem, table}

  -- default_extension_encoder, of a pb_extension_t: its type, its destination, the next one.
  unfoldable pub default_extension_encoder :
      (Field → ℕ → M (OStream τ) (Unit {0})) → ℕ → M (OStream τ) (Unit {0})
  default_extension_encoder encode extension s =
      with_field (get_elem? (table (load mem 8 (load mem 8 extension + 16))) 0) λ field.
        if atype field.type == Atype.pointer
        then encode field (extension + 8) s
        else encode field (load mem 8 (extension + 8)) s

  -- The loop of encode_extension_field, over the linked list.
  unfoldable pub extension_loop :
      (Field → ℕ → M (OStream τ) (Unit {0})) → ℕ → ℕ → M (OStream τ) (Unit {0})
  unfolding default_extension_encoder
  extension_loop encode zero extension s = stuck
  extension_loop encode (suc fuel) extension s =
      let handler = load mem 8 (load mem 8 extension + 8) in
      let here : Outcome (OStream τ) (Unit {0}) =
        if handler == 0
        then default_extension_encoder encode extension s
        else env.encode_extension handler extension s in
      let all : Outcome (OStream τ) (Unit {0}) =
        bind_outcome here (λ _ s'. extension_loop encode fuel (load mem 8 (extension + 16)) s') in
      if extension == 0 then ok tt s else all

  -- The loop of pb_encode. `lists` bounds the length of a list of extensions.
  unfoldable pub encode_one :
      (Field → ℕ → M (OStream τ) (Unit {0})) → ℕ → Field → ℕ → M (OStream τ) (Unit {0})
  unfolding extension_loop
  encode_one encode lists field p s =
      if ltype field.type == Ltype.extension
      then extension_loop encode lists (load mem 8 p) s
      else encode field p s

  unfoldable pub encode_loop :
      (Field → ℕ → M (OStream τ) (Unit {0})) → ℕ → FieldIter → M (OStream τ) (Unit {0})
  unfolding encode_one
  encode_loop each zero it s = stuck
  encode_loop each (suc fuel) it s = with_field (get_elem? it.start it.pos) λ field.
      bind_outcome (each field it.p_data s) λ _ s'. elim (next it) [
        | ok true it' ↦ encode_loop each fuel it' s'
        | ok false it' ↦ ok tt s'
        | fail it' ↦ fault
        | fault ↦ fault
        | stuck ↦ stuck
      ]

  unfoldable pub encode_from :
      (Field → ℕ → M (OStream τ) (Unit {0})) → Outcome FieldIter Bool → M (OStream τ) (Unit {0})
  unfolding encode_loop
  encode_from each (ok true it) s = encode_loop each (length it.start) it s
  encode_from each (ok false it) s = ok tt s
  encode_from each (fail it) s = fault
  encode_from each fault s = fault
  encode_from each stuck s = stuck

  -- pb_encode. Each level of submessages takes one of the fuel.
  unfoldable pub encode : ℕ → ℕ → ℕ → ℕ → M (OStream τ) (Unit {0})
  unfolding encode_from submessage
  encode lists zero k src s = stuck
  encode lists (suc fuel) k src s =
      let field =
        encode_field env (is_default mem table (suc fuel))
          (λ k' src'. submessage (encode lists fuel k' src')) in
      encode_from (encode_one field lists) (begin (table k) src) s

  -- pb_encode_submessage, and pb_encode_delimited
  unfoldable pub encode_submessage : ℕ → ℕ → ℕ → ℕ → M (OStream τ) (Unit {0})
  unfolding encode submessage
  encode_submessage lists fuel k src = submessage (encode lists fuel k src)

  unfoldable pub encode_delimited : ℕ → ℕ → ℕ → ℕ → M (OStream τ) (Unit {0})
  unfolding encode_submessage
  encode_delimited lists fuel k src = encode_submessage lists fuel k src

  -- pb_encode_nullterminated
  unfoldable pub encode_nullterminated : ℕ → ℕ → ℕ → ℕ → M (OStream τ) (Unit {0})
  unfolding encode
  encode_nullterminated lists fuel k src s =
      bind_outcome (encode lists fuel k src s) λ _. write (0 ∷ [])

  unfoldable pub size_result : Outcome (OStream τ) (Unit {0}) → Outcome (OStream τ) ℕ
  size_result (ok _ s) = ok s.bytes_written s
  size_result (fail s) = fail s
  size_result fault = fault
  size_result stuck = stuck

  -- pb_get_encoded_size
  unfoldable pub get_encoded_size : ℕ → ℕ → ℕ → ℕ → Outcome (OStream τ) ℕ
  unfolding encode size_result
  get_encoded_size lists fuel k src = size_result (encode lists fuel k src ostream_sizing)
