-- ===== src/Nanopb/Decode/TotalStatic.antt =====
-- decode_static_field on every input.
use test_gbksoft.Common.{
  ℕ, zero, suc, ◌+◌, ◌%◌, ◌^◌, ◌≤◌, ◌<◌, ◌≡◌, arith, Bool, true, not, ◌&&◌, ltb, leb, ◌==◌, ==_iff,
  if◌then◌else◌, lt→leb, Option,
}
use test_gbksoft.Common.Outcome.{ok, M, bind_outcome}
use test_gbksoft.Nanopb.Types.{Field, FieldPtr, ltype, htype, array_overflow, invalid_field_type}
use test_gbksoft.Nanopb.Types.Ltype
use test_gbksoft.Nanopb.Types.Htype
use test_gbksoft.Nanopb.Memory.{Mem, load, store, store_bytes}
use test_gbksoft.Nanopb.Iter.{FieldIter}
use test_gbksoft.Nanopb.Decode.State.{DecState, put}
use test_gbksoft.Nanopb.Decode.Values.{zeros}
use test_gbksoft.Nanopb.Decode.Env.{on_mem, with_mem, answer}
use test_gbksoft.Nanopb.Decode.Defaulted.{Returns}
use test_gbksoft.Nanopb.Decode.Static.{
  item_at, reset_message, packed_loop, finish_packed, decode_packed, decode_item, decode_optional,
  decode_oneof, decode_static_field,
}
use test_gbksoft.Nanopb.Decode.Total.{
  finishes_ok, Finishes-if, Total, Total-bind, Total-with, Total-after, Total-if, Total-ok,
  Total-error, Total-weaken,
}
use test_gbksoft.Nanopb.Input.Ahead.{ahead_here}
use test_gbksoft.Nanopb.Decode.TotalValues.{Free}
use test_gbksoft.Nanopb.Decode.TotalSub.{
  Resumes, close-Resumes, error-Resumes, answer-Total, substream-Total,
}

module _ {σ η : Type 0} where
  pub on_mem-Total :
      (left : ℕ) (m : M Mem (Unit {0})) → Returns m → Total left Free (on_mem {σ = σ} {η = η} m)
  unfolding on_mem with_mem
  on_mem-Total left m h = record {
    ends = λ bs err mem heap fits.
        let (mem', e) = h mem in rw e (finishes_ok tt (ahead_here bs left err) tt);
  }

-- The decoder of the field ends, and takes a byte where the type can be packed; the defaults of a
-- submessage can be set.
module _ {σ η : Type 0} (func : Field → ℕ → M (DecState σ η) (Unit {0}))
    (defaults : FieldPtr → ℕ → M Mem (Unit {0})) (f : Field)
    (works : (dest left : ℕ) → Total left (λ v l. ltype f.type ≤ 4 → l < left) (func f dest))
    (resets : ltype f.type ≡ Ltype.submessage → (p : ℕ) → Returns (defaults f.ptr p)) where
  pub func-Total : (dest left : ℕ) → Total left Free (func f dest)
  func-Total dest left = Total-weaken (func f dest) (λ v l le q. tt) (works dest left)

  pub reset_message-Total :
      (p left : ℕ)
      → ltype f.type ≡ Ltype.submessage
      → Total left Free (reset_message func defaults f p)
  unfolding reset_message
  reset_message-Total p left e =
      on_mem-Total left _ (λ mem. resets e p (store_bytes (zeros f.data_size) p mem))

  packed_round :
      (fuel left dest : ℕ) (it : FieldIter)
      → ltype f.type ≤ 4
      → ((l : ℕ) → l < left → Total l Free (packed_loop func defaults fuel f it))
      → Total left Free (λ s. bind_outcome (func f dest s) λ _ s1.
        bind_outcome
          (put 4 it.p_size ((load s1.mem 4 it.p_size + 1) % 2 ^ 32) s1)
          λ _. packed_loop func defaults fuel f it)
  packed_round fuel left dest it small rest =
      Total-bind (λ v l. ltype f.type ≤ 4 → l < left) (func f dest) _ (works dest left)
        λ v l le less.
          Total-after (λ s1. store 4 it.p_size ((load s1.mem 4 it.p_size + 1) % 2 ^ 32) s1.mem) _
            (rest l (less small))

  -- Each round takes a byte of the substream.
  packed_loop-Total :
      (fuel left : ℕ) (it : FieldIter)
      → ltype f.type ≤ 4
      → left < fuel
      → Total left Free (packed_loop func defaults fuel f it)
  unfolding packed_loop
  packed_loop-Total zero left it small h = absurd (omega arith)
  packed_loop-Total (suc fuel) left it small h = record {
    ends = λ bs err mem heap fits.
        Finishes-if (ltb 0 left && ltb (load mem 4 it.p_size) f.array_size)
          (λ e.
            (packed_round fuel left (item_at f it.p_data (load mem 4 it.p_size)) it small
                (λ l less. packed_loop-Total fuel l it small (omega (arith, less, h)))).ends
              bs err mem heap fits)
          (λ n. finishes_ok tt (ahead_here bs left err) tt);
  }

  finish_packed-Resumes :
      (size l : ℕ) (status : Option (Unit {0}))
      → Resumes size l (finish_packed func defaults) status
  unfolding finish_packed Resumes
  finish_packed-Resumes size l status rest err sub mem heap w fits =
      Finishes-if (not (sub.bytes_left == 0))
        (λ e.
          error-Resumes size l _ status (λ l. Total-error array_overflow) rest err sub mem heap w
            fits)
        (λ n. close-Resumes size l answer status (answer-Total status) rest err sub mem heap w fits)

  decode_packed-Total :
      (left : ℕ) (it : FieldIter)
      → ltype f.type ≤ 4
      → Total left Free (decode_packed func defaults f it)
  unfolding decode_packed
  decode_packed-Total left it small =
      substream-Total Free (λ size. packed_loop func defaults (suc size) f it)
        (finish_packed func defaults)
        (λ size. packed_loop-Total (suc size) size it small (omega arith)) finish_packed-Resumes

  decode_item-Total : (left : ℕ) (it : FieldIter) → Total left Free (decode_item func defaults f it)
  unfolding decode_item
  decode_item-Total left it =
      Total-with (λ s. load s.mem 4 it.p_size) _
        λ size.
          Total-after (λ s. store 4 it.p_size ((size + 1) % 2 ^ 32) s.mem) _
            (Total-if (leb f.array_size size) _ _ (λ e. Total-error array_overflow)
              (λ n. func-Total (item_at f it.p_data size) left))

  decode_optional-Total :
      (left : ℕ) (it : FieldIter) → Total left Free (decode_optional func defaults f it)
  unfolding decode_optional
  decode_optional-Total left it =
      Total-if (it.p_size == it.p_data) _ _ (λ e. func-Total it.p_data left)
        λ n. Total-after (λ s. store 1 it.p_size 1 s.mem) _ (func-Total it.p_data left)

  decode_oneof-Total :
      (left : ℕ) (it : FieldIter) → Total left Free (decode_oneof func defaults f it)
  unfolding decode_oneof
  decode_oneof-Total left it =
      Total-after (λ s. store 4 it.p_size f.tag s.mem) _
        (Total-bind Free
          (λ s. if ltype f.type == 7 then reset_message func defaults f it.p_data s else ok tt s) _
          (Total-if (ltype f.type == 7) _ _
            (λ e. reset_message-Total it.p_data left ((==_iff (ltype f.type) 7).0 e))
            (λ n. Total-ok tt tt))
          (λ v l le q. func-Total it.p_data l))

  -- decode_static_field
  pub decode_static_field-Total :
      (wire_type left : ℕ) (it : FieldIter)
      → ltype f.type ≤ 9
      → Total left Free (decode_static_field func defaults wire_type f it)
  unfolding decode_static_field
  decode_static_field-Total wire_type left it known =
      Total-if (leb 10 (ltype f.type)) _ _
        (λ e. absurd (cc (e, lt→leb (ltype f.type) 10 (omega arith))))
        λ n.
          Total-if (htype f.type == Htype.required) _ _ (λ e. func-Total it.p_data left)
            λ n1.
              Total-if (htype f.type == Htype.optional) _ _ (λ e. decode_optional-Total left it)
                λ n2.
                  Total-if (htype f.type == Htype.repeated) _ _ (λ e. arrays)
                    λ n3.
                      Total-if (htype f.type == Htype.oneof) _ _ (λ e. decode_oneof-Total left it)
                        λ n4. Total-error invalid_field_type
    where
      packable : (w : Bool) → (w && leb (ltype f.type) 4) ≡ true → ltype f.type ≤ 4
      packable w e = ground arith

      arrays : Total left Free (λ s.
          if (wire_type == 2) && leb (ltype f.type) 4
          then decode_packed func defaults f it s
          else decode_item func defaults f it s)
      arrays =
          Total-if ((wire_type == 2) && leb (ltype f.type) 4) _ _
            (λ e. decode_packed-Total left it (packable (wire_type == 2) e))
            (λ n. decode_item-Total left it)
