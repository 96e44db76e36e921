-- ===== src/Nanopb/Decode/Release.antt =====
-- pb_release and pb_release_single_field of pb_decode.c. free of the C library is a parameter.
use test_gbksoft.Common.{
  ℕ, zero, suc, ◌+◌, ◌%◌, ◌^◌, Bool, true, false, not, ◌&&◌, ◌||◌, ltb, ◌==◌, if◌then◌else◌,
}
use test_gbksoft.Common.{none, some, length, get_elem?}
use test_gbksoft.Common.Outcome.{Outcome, ok, fail, fault, stuck, M, bind_outcome}
use test_gbksoft.Nanopb.Types.{Field, FieldPtr, null, fields, default, ltype, htype, atype}
use test_gbksoft.Nanopb.Types.Ltype
use test_gbksoft.Nanopb.Types.Htype
use test_gbksoft.Nanopb.Types.Atype
use test_gbksoft.Nanopb.Memory.{Mem, load}
use test_gbksoft.Nanopb.Iter.{FieldIter, with_field, begin, next}
use test_gbksoft.Nanopb.Decode.State.{DecState, put}
use test_gbksoft.Nanopb.Decode.Env.{Env}
use test_gbksoft.Nanopb.Decode.Default.{iter_from_extension}

module _ {σ η : Type 0} (env : Env σ η) where
  open env use {table}

  unfoldable pub freed : Mem × η → M (DecState σ η) (Unit {0})
  freed (mem, heap) s = ok tt (record s { mem = mem; heap = heap })

  -- pb_free
  unfoldable pub release_block : ℕ → M (DecState σ η) (Unit {0})
  unfolding freed
  release_block ptr s = freed (env.free ptr s.mem s.heap) s

  -- The do-while of pb_release.
  unfoldable pub release_loop :
      (FieldIter → M (DecState σ η) (Unit {0})) → ℕ → FieldIter → M (DecState σ η) (Unit {0})
  release_loop each zero it s = stuck
  release_loop each (suc fuel) it s = bind_outcome (each it s) λ _ s'. elim (next it) [
    | ok true it' ↦ release_loop each fuel it' s'
    | ok false it' ↦ ok tt s'
    | fail it' ↦ fault
    | fault ↦ fault
    | stuck ↦ stuck
  ]

  unfoldable pub release_from :
      (FieldIter → M (DecState σ η) (Unit {0}))
      → Outcome FieldIter Bool
      → M (DecState σ η) (Unit {0})
  unfolding release_loop
  release_from each (ok true it) s = release_loop each (length it.start) it s
  release_from each (ok false it) s = ok tt s
  release_from each (fail it) s = fault
  release_from each fault s = fault
  release_from each stuck s = stuck

  -- pb_release, where `each` is pb_release_single_field.
  unfoldable pub release_message :
      (FieldIter → M (DecState σ η) (Unit {0})) → FieldPtr → ℕ → M (DecState σ η) (Unit {0})
  unfolding release_from
  release_message each null dest s = if dest == 0 then ok tt s else fault
  release_message each (fields k) dest s =
      if dest == 0 then ok tt s else release_from each (begin (table k) dest) s
  release_message each (default bytes) dest s = if dest == 0 then ok tt s else fault

  -- The loop over an array of submessages.
  unfoldable pub release_items :
      (FieldIter → M (DecState σ η) (Unit {0})) → Field → ℕ → ℕ → M (DecState σ η) (Unit {0})
  unfolding release_message
  release_items each f zero p s = ok tt s
  release_items each f (suc count) p s =
      bind_outcome (release_message each f.ptr p s)
        λ _. release_items each f count ((p + f.data_size) % 2 ^ 64)

  -- The loop over an array of strings or byte arrays.
  unfoldable pub release_entries : ℕ → ℕ → M (DecState σ η) (Unit {0})
  unfolding release_block
  release_entries zero p s = ok tt s
  release_entries (suc count) p s =
      bind_outcome (release_block (load s.mem 8 p) s)
        λ _ s1. bind_outcome (put 8 p 0 s1) λ _. release_entries count ((p + 8) % 2 ^ 64)

  -- `count`, of the submessages.
  unfoldable pub release_count : Field → FieldIter → Mem → ℕ
  release_count f it mem =
      let count =
        if (atype f.type == Atype.static) && (it.p_size == it.p_data)
        then f.array_size
        else load mem 4 it.p_size in
      if not (htype f.type == Htype.repeated)
      then 1
      else if (atype f.type == Atype.static) && ltb f.array_size count
      then f.array_size
      else count

  unfoldable pub release_submessages :
      (FieldIter → M (DecState σ η) (Unit {0})) → Field → FieldIter → M (DecState σ η) (Unit {0})
  unfolding release_items release_count
  release_submessages each f it s =
      let p = if atype f.type == Atype.pointer then load s.mem 8 it.p_data else it.p_data in
      let items : Outcome (DecState σ η) (Unit {0}) =
        release_items each f (release_count f it s.mem) p s in
      if p == 0 then ok tt s else items

  -- The loop over a list of extensions. `lists` bounds its length.
  unfoldable pub release_extensions :
      (FieldIter → M (DecState σ η) (Unit {0})) → ℕ → ℕ → M (DecState σ η) (Unit {0})
  release_extensions each zero ext s = if ext == 0 then ok tt s else stuck
  release_extensions each (suc lists) ext s =
      let this : Outcome (DecState σ η) (Unit {0}) = elim (iter_from_extension table ext s.mem) [
        | none ↦ fault
        | some it ↦ each it s
      ] in
      let all : Outcome (DecState σ η) (Unit {0}) =
        bind_outcome this (λ _ s'. release_extensions each lists (load s'.mem 8 (ext + 16)) s') in
      if ext == 0 then ok tt s else all

  -- What a pointer field owns.
  unfoldable pub release_array : Field → FieldIter → M (DecState σ η) (Unit {0})
  unfolding release_entries
  release_array f it s =
      let texts = (ltype f.type == Ltype.string) || (ltype f.type == Ltype.bytes) in
      let entries : Outcome (DecState σ η) (Unit {0}) =
        release_entries (load s.mem 4 it.p_size) (load s.mem 8 it.p_data) s in
      if htype f.type == Htype.repeated
      then bind_outcome (if texts then entries else ok tt s) (λ _. put 4 it.p_size 0)
      else ok tt s

  unfoldable pub release_pointer : Field → FieldIter → M (DecState σ η) (Unit {0})
  unfolding release_array release_block
  release_pointer f it s =
      bind_outcome (release_array f it s)
        λ _ s1. bind_outcome (release_block (load s1.mem 8 it.p_data) s1) (λ _. put 8 it.p_data 0)

  -- The part of pb_release_single_field that looks into extensions and submessages.
  unfoldable pub release_inside :
      (FieldIter → M (DecState σ η) (Unit {0}))
      → ℕ
      → Field
      → FieldIter
      → M (DecState σ η) (Unit {0})
  unfolding release_extensions release_submessages
  release_inside each lists f it s =
      if ltype f.type == Ltype.extension
      then release_extensions each lists (load s.mem 8 it.p_data) s
      else if ltype f.type == Ltype.submessage
      then release_submessages each f it s
      else ok tt s

  -- pb_release_single_field. Each level of submessages and extensions takes one of the fuel.
  unfoldable pub release_single_field : ℕ → ℕ → FieldIter → M (DecState σ η) (Unit {0})
  unfolding release_inside release_pointer
  release_single_field lists zero it s = stuck
  release_single_field lists (suc fuel) it s = with_field (get_elem? it.start it.pos) λ f.
      let other = (htype f.type == Htype.oneof) && not (load s.mem 4 it.p_size == f.tag) in
      let work : Outcome (DecState σ η) (Unit {0}) =
        bind_outcome (release_inside (release_single_field lists fuel) lists f it s)
          λ _ s'. if atype f.type == Atype.pointer then release_pointer f it s' else ok tt s' in
      if other then ok tt s else work

  -- pb_release
  unfoldable pub release : ℕ → ℕ → ℕ → ℕ → M (DecState σ η) (Unit {0})
  unfolding release_single_field release_message
  release lists fuel k dest = release_message (release_single_field lists fuel) (fields k) dest
