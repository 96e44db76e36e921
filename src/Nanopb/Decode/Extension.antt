-- ===== src/Nanopb/Decode/Extension.antt =====
-- default_extension_decoder, decode_extension and find_extension_field of pb_decode.c.
use test_gbksoft.Common.{
  ℕ, zero, suc, ◌+◌, Bool, true, false, not, ◌||◌, ◌==◌, if◌then◌else◌, none, some, length,
  get_elem?,
}
use test_gbksoft.Common.Outcome.{Outcome, ok, fault, stuck, M, bind_outcome}
use test_gbksoft.Nanopb.Types.{Field, FieldPtr, ltype}
use test_gbksoft.Nanopb.Types.Ltype
use test_gbksoft.Nanopb.Memory.{Mem, load}
use test_gbksoft.Nanopb.Iter.{FieldIter, with_field, next}
use test_gbksoft.Nanopb.Decode.State.{DecState, put}
use test_gbksoft.Nanopb.Decode.Env.{Env}
use test_gbksoft.Nanopb.Decode.Default.{iter_from_extension}
use test_gbksoft.Nanopb.Decode.Field.{decode_field}

-- The do-while of find_extension_field, which ends at `start`.
unfoldable pub extension_search : ℕ → ℕ → FieldIter → Outcome FieldIter Bool
extension_search zero start it = stuck
extension_search (suc fuel) start it = with_field (get_elem? it.start it.pos) λ f.
    let more : Outcome FieldIter Bool = bind_outcome (next it) λ _ it'.
      let again : Outcome FieldIter Bool = extension_search fuel start it' in
      if it'.pos == start then ok false it' else again in
    if ltype f.type == Ltype.extension then ok true it else more

-- find_extension_field. Each round is at another field of the table.
unfoldable pub find_extension_field : FieldIter → Outcome FieldIter Bool
unfolding extension_search
find_extension_field it = extension_search (length it.start) it.pos it

-- As for decode_field.
module _ {σ η : Type 0} (env : Env σ η) (func : Field → ℕ → M (DecState σ η) (Unit {0}))
    (defaults : FieldPtr → ℕ → M Mem (Unit {0}))
    (release : FieldIter → M (DecState σ η) (Unit {0})) where
  open env use {table}

  -- `extension->found = true`, and decode_field.
  unfoldable pub decode_found : ℕ → ℕ → FieldIter → M (DecState σ η) (Unit {0})
  decode_found ext wire_type it s =
      bind_outcome (put 1 (ext + 24) 1 s)
        λ _ s1. bind_outcome (decode_field env func defaults release wire_type it s1) (λ _. ok tt)

  -- default_extension_decoder
  unfoldable pub default_extension_decoder : ℕ → ℕ → ℕ → M (DecState σ η) (Unit {0})
  unfolding decode_found
  default_extension_decoder ext tag wire_type s =
      let decoded : Outcome (DecState σ η) (Unit {0}) = elim (iter_from_extension table ext s.mem) [
        | none ↦ fault
        | some it ↦ decode_found ext wire_type it s
      ] in
      with_field (get_elem? (table (load s.mem 8 (load s.mem 8 ext + 16))) 0)
        λ f. if not (f.tag == tag) then ok tt s else decoded

  -- The loop of decode_extension over the linked list, until bytes are read. `lists` bounds its
  -- length.
  unfoldable pub handler_loop : ℕ → ℕ → ℕ → ℕ → ℕ → M (DecState σ η) (Unit {0})
  unfolding default_extension_decoder
  handler_loop zero pos tag wire_type ext s =
      if (ext == 0) || not (pos == s.stream.bytes_left) then ok tt s else stuck
  handler_loop (suc lists) pos tag wire_type ext s =
      let handler = load s.mem 8 (load s.mem 8 ext) in
      let this : Outcome (DecState σ η) (Unit {0}) =
        if handler == 0
        then default_extension_decoder ext tag wire_type s
        else env.handle_extension handler ext tag wire_type s in
      let all : Outcome (DecState σ η) (Unit {0}) =
        bind_outcome this
          λ _ s1. handler_loop lists pos tag wire_type (load s1.mem 8 (ext + 16)) s1 in
      if (ext == 0) || not (pos == s.stream.bytes_left) then ok tt s else all

  -- decode_extension
  unfoldable pub decode_extension : ℕ → ℕ → ℕ → FieldIter → M (DecState σ η) (Unit {0})
  unfolding handler_loop
  decode_extension lists tag wire_type it s =
      handler_loop lists s.stream.bytes_left tag wire_type (load s.mem 8 it.p_data) s
