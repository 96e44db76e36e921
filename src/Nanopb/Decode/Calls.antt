-- ===== src/Nanopb/Decode/Calls.antt =====
-- pb_decode, its variants and pb_dec_submessage of pb_decode.c.
use test_gbksoft.Common.{ℕ, zero, suc, ◌==◌}
use test_gbksoft.Common.{if◌then◌else◌, Option}
use test_gbksoft.Common.Outcome.{Outcome, ok, fail, fault, stuck, M, bind_outcome}
use test_gbksoft.Nanopb.Types.{Field, null, fields, default, htype, invalid_field_descriptor}
use test_gbksoft.Nanopb.Types.Htype
use test_gbksoft.Nanopb.Input.{IStream}
use test_gbksoft.Nanopb.Input.Wire.{make_string_substream, close_string_substream}
use test_gbksoft.Nanopb.Decode.State.{DecState, on_stream, return_error}
use test_gbksoft.Nanopb.Decode.Values.{decoder}
use test_gbksoft.Nanopb.Decode.Default.{message_defaults, field_default, set_to_defaults}
use test_gbksoft.Nanopb.Decode.Env.{Env, on_mem, on_substream, answer}
use test_gbksoft.Nanopb.Decode.Release.{release_single_field, release}
use test_gbksoft.Nanopb.Decode.Message.{decode_message}

module _ {σ η : Type 0} (env : Env σ η) (lists : ℕ) where
  open env use {table}

  unfoldable pub released :
      M (DecState σ η) (Unit {0})
      → Outcome (DecState σ η) (Unit {0})
      → Outcome (DecState σ η) (Unit {0})
  released release_all (ok _ s) = ok tt s
  released release_all (fail s) = bind_outcome (release_all s) (λ _. fail)
  released release_all fault = fault
  released release_all stuck = stuck

  -- pb_decode, of what pb_decode_noinit does. It releases what a failed call has allocated.
  unfoldable pub decode_with : M (DecState σ η) (Unit {0}) → ℕ → ℕ → ℕ → M (DecState σ η) (Unit {0})
  unfolding released
  decode_with noinit fuel k dest s =
      bind_outcome (on_mem (set_to_defaults table lists fuel k dest) s)
        λ _ s1. released (release env lists fuel k dest) (noinit s1)

  unfoldable pub finish_sub : Option (Unit {0}) → IStream σ → M (DecState σ η) (Unit {0})
  finish_sub status sub s =
      bind_outcome (on_stream (close_string_substream sub) s) (λ _. answer status)

  -- What a call does on the substream of a string.
  unfoldable pub in_substream : M (DecState σ η) (Unit {0}) → M (DecState σ η) (Unit {0})
  unfolding finish_sub
  in_substream m s =
      bind_outcome (on_stream make_string_substream s)
        λ sub s1. bind_outcome (on_substream sub m s1) (λ (status, sub'). finish_sub status sub')

  -- pb_dec_submessage, where `noinit` is pb_decode_noinit.
  unfoldable pub dec_submessage :
      (ℕ → ℕ → M (DecState σ η) (Unit {0})) → ℕ → Field → ℕ → M (DecState σ η) (Unit {0})
  unfolding in_substream decode_with
  dec_submessage noinit fuel f dest s = elim (f.ptr) [
    | null ↦
        bind_outcome (on_stream make_string_substream s)
          (λ _. return_error invalid_field_descriptor)
    | fields k ↦
        in_substream
          (if htype f.type == Htype.repeated
            then decode_with (noinit k dest) fuel k dest
            else noinit k dest)
          s
    | default bytes ↦ fault
  ]

  -- pb_decode_noinit. Each level of submessages takes one of the fuel.
  unfoldable pub decode_noinit : ℕ → ℕ → ℕ → M (DecState σ η) (Unit {0})
  unfolding decode_message dec_submessage
  decode_noinit zero k dest s = stuck
  decode_noinit (suc fuel) k dest s =
      decode_message env (decoder env.realloc (dec_submessage (decode_noinit fuel) fuel))
        (message_defaults table (field_default table lists fuel))
        (release_single_field env lists (suc fuel)) (env.local fuel) lists k dest s

  -- pb_decode
  unfoldable pub decode : ℕ → ℕ → ℕ → M (DecState σ η) (Unit {0})
  unfolding decode_noinit decode_with
  decode fuel k dest s = decode_with (decode_noinit fuel k dest) fuel k dest s

  -- pb_decode_delimited_noinit, pb_decode_delimited and pb_decode_nullterminated
  unfoldable pub decode_delimited_noinit : ℕ → ℕ → ℕ → M (DecState σ η) (Unit {0})
  unfolding decode_noinit in_substream
  decode_delimited_noinit fuel k dest s = in_substream (decode_noinit fuel k dest) s

  unfoldable pub decode_delimited : ℕ → ℕ → ℕ → M (DecState σ η) (Unit {0})
  unfolding decode in_substream
  decode_delimited fuel k dest s = in_substream (decode fuel k dest) s

  unfoldable pub decode_nullterminated : ℕ → ℕ → ℕ → M (DecState σ η) (Unit {0})
  unfolding decode
  decode_nullterminated fuel k dest s = decode fuel k dest s
