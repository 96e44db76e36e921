-- ===== src/Nanopb/Decode/TotalRelease.antt =====
-- pb_release and pb_release_single_field end.
use test_gbksoft.Common.{
  ℕ, zero, suc, ◌+◌, ◌%◌, ◌^◌, ◌≤◌, ◌<◌, ◌≡◌, refl, ap, arith, ◌&&◌, ◌||◌, not, ◌==◌, ==_iff,
  if◌then◌else◌, length, get_elem?, inl,
}
use native.Mathlib.Decide.{dec_lt}
use test_gbksoft.Common.Outcome.{ok, M}
use test_gbksoft.Nanopb.Types.{Field, fields, ltype, htype, atype}
use test_gbksoft.Nanopb.Types.Htype
use test_gbksoft.Nanopb.Types.Atype
use test_gbksoft.Nanopb.Memory.{Mem, load, store}
use test_gbksoft.Nanopb.Iter.{FieldIter}
use test_gbksoft.Nanopb.Iter.Table.{
  At, next-inside, next_last, begin_empty, begin-At, length-IsTable,
}
use test_gbksoft.Nanopb.Iter.Spot.{IsSpot, IsSpot-field}
use test_gbksoft.Nanopb.Encode.Schema.{IsField, IsSchema, All-get}
use test_gbksoft.Nanopb.Decode.State.{DecState}
use test_gbksoft.Nanopb.Decode.Env.{Env}
use test_gbksoft.Nanopb.Decode.Release.{
  freed, release_block, release_loop, release_from, release_message, release_items, release_entries,
  release_count, release_submessages, release_array, release_pointer, release_inside,
  release_single_field, release,
}
use test_gbksoft.Nanopb.Input.Ahead.{ahead_here}
use test_gbksoft.Nanopb.Decode.Total.{
  finishes_ok, Total, Total-bind, Total-with, Total-after, Total-if, Total-ok, Total-field,
}
use test_gbksoft.Nanopb.Decode.TotalValues.{Free, put-Total}

module _ {σ η : Type 0} (env : Env σ η) where
  freed-Total : (left : ℕ) (r : Mem × η) → Total {σ = σ} left Free (freed env r)
  unfolding freed
  freed-Total left (mem, heap) = record {
    ends = λ bs err mem0 heap0 fits. finishes_ok tt (ahead_here bs left err) tt;
  }

  release_block-Total : (left ptr : ℕ) → Total left Free (release_block env ptr)
  unfolding release_block
  release_block-Total left ptr =
      Total-with (λ s. env.free ptr s.mem s.heap) (freed env) (freed-Total left)

  release_entries-Total : (count left p : ℕ) → Total left Free (release_entries env count p)
  unfolding release_entries
  release_entries-Total zero left p = Total-ok tt tt
  release_entries-Total (suc count) left p =
      Total-bind Free (λ s. release_block env (load s.mem 8 p) s) _
        (Total-with (λ s. load s.mem 8 p) (release_block env) (release_block-Total left))
        λ v l le q.
          Total-after (λ s. store 8 p 0 s.mem) _ (release_entries-Total count l ((p + 8) % 2 ^ 64))

  release_array-Total :
      (left : ℕ) (f : Field) (it : FieldIter) → Total left Free (release_array env f it)
  unfolding release_array
  release_array-Total left f it =
      Total-if (htype f.type == 0x20) _ _
        (λ e. Total-bind Free _ _ entries (λ v l le q. put-Total 4 it.p_size 0 l))
        (λ n. Total-ok tt tt)
    where
      entries : Total {σ = σ} {η = η} left Free (λ s.
          if (ltype f.type == 6) || (ltype f.type == 5)
          then release_entries env (load s.mem 4 it.p_size) (load s.mem 8 it.p_data) s
          else ok tt s)
      entries =
          Total-if ((ltype f.type == 6) || (ltype f.type == 5)) _ _
            (λ e.
              Total-with (λ s. load s.mem 4 it.p_size)
                (λ count s. release_entries env count (load s.mem 8 it.p_data) s)
                λ count.
                  Total-with (λ s. load s.mem 8 it.p_data) (release_entries env count)
                    (release_entries-Total count left))
            (λ n. Total-ok tt tt)

  release_pointer-Total :
      (left : ℕ) (f : Field) (it : FieldIter) → Total left Free (release_pointer env f it)
  unfolding release_pointer
  release_pointer-Total left f it =
      Total-bind Free (release_array env f it) _ (release_array-Total left f it) λ v l le q.
        Total-bind Free (λ s. release_block env (load s.mem 8 it.p_data) s) _
          (Total-with (λ s. load s.mem 8 it.p_data) (release_block env) (release_block-Total l))
          (λ v' l' le' q'. put-Total 8 it.p_data 0 l')

module _ {σ η : Type 0} (env : Env σ η) (schema : IsSchema env.table) (lists : ℕ) where
  open env use {table}

  module _ (each : FieldIter → M (DecState σ η) (Unit {0})) (k dest : ℕ)
      (field : (it : FieldIter) (left : ℕ)
        → IsSpot (table k) (schema.size k) dest it
        → Total left Free (each it)) where
    release_loop-Total :
        (fuel left : ℕ) (it : FieldIter)
        → At (table k) dest it.pos it
        → it.pos < schema.size k
        → schema.size k ≤ it.pos + fuel
        → Total left Free (release_loop env each fuel it)
    unfolding release_loop
    release_loop-Total zero left it a h hf = absurd (omega arith)
    release_loop-Total (suc fuel) left it a h hf =
        Total-bind Free (each it) _ (field it left (record { here = a; inside = inl h }))
          λ v l le q. elim (dec_lt (suc it.pos) (schema.size k)) [
            | yes more ↦
                let (it', step, a') =
                  next-inside (table k) (schema.size k) dest (schema.ends k) it.pos it a more in
                rw step (
                  release_loop-Total fuel l it' (a'.0, a'.1, refl) (omega (arith, a'.2, more))
                    (omega (arith, a'.2, hf)))
            | no last ↦
                let (first, e0, step) =
                  next_last (table k) (schema.size k) dest (schema.ends k) it.pos it a
                    (omega arith) in
                rw step (Total-ok tt tt)
          ]

    release_message-Total : (left : ℕ) → Total left Free (release_message env each (fields k) dest)
    unfolding release_message release_from
    release_message-Total left =
        Total-if (dest == 0) _ _ (λ e. Total-ok tt tt)
          λ n. elim (dec_lt 0 (schema.size k)) [
            | yes some_field ↦
                let (it, e, a) =
                  begin-At (table k) (schema.size k) dest (schema.ends k) some_field in
                rw e (
                  release_loop-Total (length it.start) left it (a.0, a.1, refl)
                    (omega (arith, a.2, some_field)) (enough it a.0))
            | no empty ↦
                let (it, e) =
                  begin_empty (table k) (schema.size k) dest (schema.ends k) (omega arith) in
                rw e (Total-ok tt tt)
          ]
      where
        enough : (it : FieldIter) → it.start ≡ table k → schema.size k ≤ it.pos + length it.start
        enough it e = omega (
          arith,
          ap (length {A = Field}) e,
          length-IsTable (table k) (schema.size k) (schema.ends k),
        )

  release_items-Total :
      (each : FieldIter → M (DecState σ η) (Unit {0})) (f : Field) (k' count left p : ℕ)
      → f.ptr ≡ fields k'
      → ((p left : ℕ) → Total left Free (release_message env each (fields k') p))
      → Total left Free (release_items env each f count p)
  unfolding release_items
  release_items-Total each f k' zero left p e message = Total-ok tt tt
  release_items-Total each f k' (suc count) left p e message =
      Total-bind Free (release_message env each f.ptr p) _ (rw e (message p left))
        λ v l le q. release_items-Total each f k' count l ((p + f.data_size) % 2 ^ 64) e message

  release_submessages-Total :
      (each : FieldIter → M (DecState σ η) (Unit {0})) (f : Field) (it : FieldIter) (k' left : ℕ)
      → f.ptr ≡ fields k'
      → ((p left : ℕ) → Total left Free (release_message env each (fields k') p))
      → Total left Free (release_submessages env each f it)
  unfolding release_submessages
  release_submessages-Total each f it k' left e message =
      Total-with (λ s. if atype f.type == Atype.pointer then load s.mem 8 it.p_data else it.p_data)
        (λ p s.
          if p == 0 then ok tt s else release_items env each f (release_count env f it s.mem) p s)
        λ p.
          Total-if (p == 0) _ _ (λ z. Total-ok tt tt)
            (λ n.
              Total-with (λ s. release_count env f it s.mem)
                (λ count. release_items env each f count p)
                (λ count. release_items-Total each f k' count left p e message))

  pub release_single_field-Total :
      (fuel k dest : ℕ) (it : FieldIter) (left : ℕ)
      → k < fuel
      → IsSpot (table k) (schema.size k) dest it
      → Total left Free (release_single_field env lists fuel it)
  unfolding release_single_field release_inside
  release_single_field-Total zero k dest it left lt spot = absurd (omega arith)
  release_single_field-Total (suc fuel) k dest it left lt spot =
      let (f, e, e') = IsSpot-field (table k) (schema.size k) dest (schema.ends k) it spot in
      let known : IsField k f = All-get (IsField k) (table k) it.pos f (schema.each k) e in
      Total-field (get_elem? it.start it.pos) f _ e' (
        Total-with (λ s. (htype f.type == Htype.oneof) && not (load s.mem 4 it.p_size == f.tag)) _
          λ other.
            Total-if other _ _ (λ o. Total-ok tt tt)
              λ n.
                Total-bind Free
                  (release_inside env (release_single_field env lists fuel) lists f it) _
                  (inside f known (λ k' p l less.
                    release_message-Total (release_single_field env lists fuel) k' p
                      (λ it' l' spot'.
                        release_single_field-Total fuel k' p it' l' (omega arith) spot')
                      l))
                  (λ v l le q.
                    Total-if (atype f.type == Atype.pointer) _ _
                      (λ p. release_pointer-Total env l f it) (λ n'. Total-ok tt tt)))
    where
      inside :
          (f : Field)
          → IsField k f
          → ((k' p l : ℕ)
              → k' < k
              → Total l Free
                  (release_message env (release_single_field env lists fuel) (fields k') p))
          → Total left Free (release_inside env (release_single_field env lists fuel) lists f it)
      inside f known message =
          Total-if (ltype f.type == 8) _ _
            (λ x. absurd (known.regular ((==_iff (ltype f.type) 8).0 x)))
            λ n.
              Total-if (ltype f.type == 7) _ _
                (λ m.
                  let (k', ptr, less) = known.message ((==_iff (ltype f.type) 7).0 m) in
                  release_submessages-Total (release_single_field env lists fuel) f it k' left ptr
                    (λ p l. message k' p l less))
                (λ n'. Total-ok tt tt)

  -- pb_release
  pub release-Total :
      (fuel k dest left : ℕ) → k < fuel → Total left Free (release env lists fuel k dest)
  unfolding release
  release-Total fuel k dest left lt =
      release_message-Total (release_single_field env lists fuel) k dest
        (λ it l spot. release_single_field-Total fuel k dest it l lt spot) left
