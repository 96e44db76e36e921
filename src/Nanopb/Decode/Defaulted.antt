-- ===== src/Nanopb/Decode/Defaulted.antt =====
-- What pb_message_set_to_defaults needs to return.
use test_gbksoft.Common.{
  ℕ, zero, suc, ◌+◌, ◌≤◌, ◌<◌, ◌≡◌, ◌≢◌, refl, arith, Bool, true, false, ◌&&◌, ◌||◌, not, ◌==◌,
  ==_iff, if◌then◌else◌, some, List, length, take, get_elem?, Bool-cases, inl, inr, le→ltb,
}
use native.Mathlib.Decide.{dec_lt}
use test_gbksoft.Common.Outcome.{ok, M, bind_outcome}
use test_gbksoft.Nanopb.Types.{Field, FieldPtr, null, fields, default, ltype, htype, atype}
use test_gbksoft.Nanopb.Types.Ltype
use test_gbksoft.Nanopb.Types.Htype
use test_gbksoft.Nanopb.Types.Atype
use test_gbksoft.Nanopb.Memory.{Mem, load, store, store_bytes}
use test_gbksoft.Nanopb.Iter.{FieldIter}
use test_gbksoft.Nanopb.Iter.Table.{
  At, At-field, next-inside, next_last, begin_empty, begin-At, length-IsTable,
}
use test_gbksoft.Nanopb.Encode.Schema.{IsField, IsSchema, All-get}
use test_gbksoft.Nanopb.Decode.Values.{zeros}
use test_gbksoft.Nanopb.Decode.Default.{
  assign, extension_defaults, copy_default, defaults_loop, defaults_from, message_defaults,
  init_data, static_default, pointer_default, field_default, set_to_defaults,
}

-- It returns.
abbrev pub Returns : M Mem (Unit {0}) → Type 0
Returns m = (mem : Mem) → (mem' : Mem) × (m mem ≡ ok tt mem')

Returns-if :
    (b : Bool) (m m' : M Mem (Unit {0}))
    → (b ≡ true → Returns m)
    → (b ≡ false → Returns m')
    → Returns (λ mem. if b then m mem else m' mem)
Returns-if true m m' h h' = h refl
Returns-if false m m' h h' = h' refl

Returns-bind :
    (m m' : M Mem (Unit {0}))
    → Returns m
    → Returns m'
    → Returns (λ mem. bind_outcome (m mem) (λ _. m'))
Returns-bind m m' h h' mem =
    let (mem1, e) = h mem in let (mem2, e') = h' mem1 in (mem2, rw (e, e') refl)

Returns-ok : (f : Mem → Mem) → Returns (λ mem. ok tt (f mem))
Returns-ok f mem = (f mem, refl)

-- Default values are as long as their fields, and the descriptors of a submessage stand at a field
-- of that type.
pub record IsDefault (f : Field) : Type 0 where
  pub whole : (bytes : List ℕ) → f.ptr ≡ default bytes → f.data_size ≤ length bytes
  pub apart : (k : ℕ) → f.ptr ≡ fields k → ltype f.type ≡ Ltype.submessage

module _ (table : ℕ → List Field) (schema : IsSchema table)
    (defaults : (k i : ℕ) (f : Field) → get_elem? (table k) i ≡ some f → IsDefault f)
    (lists : ℕ) where
  module _ (each : FieldIter → M Mem (Unit {0})) (k dest : ℕ)
      (field : (i : ℕ) (it : FieldIter)
        → At (table k) dest i it
        → i < schema.size k
        → Returns (each it)) where
    defaults_loop-Returns :
        (fuel i : ℕ) (it : FieldIter)
        → At (table k) dest i it
        → i < schema.size k
        → schema.size k ≤ i + fuel
        → Returns (defaults_loop table each fuel it)
    unfolding defaults_loop
    defaults_loop-Returns zero i it a h hf mem = absurd (omega arith)
    defaults_loop-Returns (suc fuel) i it a h hf mem =
        let (mem1, e) = field i it a h mem in
        elim (dec_lt (suc i) (schema.size k)) [
          | yes more ↦
              let (it', step, a') =
                next-inside (table k) (schema.size k) dest (schema.ends k) i it a more in
              let (mem2, e') = defaults_loop-Returns fuel (suc i) it' a' more (omega arith) mem1 in
              (mem2, rw (defaults_loop, e, step) e')
          | no last ↦
              let (first, e0, step) =
                next_last (table k) (schema.size k) dest (schema.ends k) i it a (omega arith) in
              (mem1, rw (defaults_loop, e, step) refl)
        ]

    message_defaults-Returns : Returns (message_defaults table each (fields k) dest)
    unfolding message_defaults defaults_from
    message_defaults-Returns mem = elim (dec_lt 0 (schema.size k)) [
      | yes some_field ↦
          let (it, e, a) = begin-At (table k) (schema.size k) dest (schema.ends k) some_field in
          rw e (defaults_loop-Returns (length it.start) 0 it a some_field (enough it a.0) mem)
      | no empty ↦
          let (it, e) = begin_empty (table k) (schema.size k) dest (schema.ends k) (omega arith) in
          rw e (mem, refl)
    ]
      where
        enough : (it : FieldIter) → it.start ≡ table k → schema.size k ≤ 0 + length it.start
        enough it e = rw e (omega (arith, length-IsTable (table k) (schema.size k) (schema.ends k)))

  copy_default-Returns :
      (bytes : List ℕ) (n a : ℕ) → n ≤ length bytes → Returns (copy_default bytes n a)
  unfolding copy_default
  copy_default-Returns bytes n a h mem =
      (store_bytes (take n bytes) a mem, rw (le→ltb (length bytes) n h) refl)

  module _ (each : FieldIter → M Mem (Unit {0})) (k : ℕ) (f : Field) (known : IsField k f)
      (whole : IsDefault f)
      (below : (k' p : ℕ) → k' < k → Returns (message_defaults table each (fields k') p)) where
    init_message :
        (ptr : FieldPtr) (p k' : ℕ)
        → (ltype f.type == 7) ≡ true
        → ptr ≡ fields k'
        → k' < k
        → Returns (init_data table each f ptr p)
    unfolding init_data
    init_message ptr p k' e e' less mem =
        let (mem', r) = below k' p less mem in (mem', rw (e, e') r)

    init_value :
        (ptr : FieldPtr) (p : ℕ)
        → (ltype f.type == 7) ≡ false
        → ((bytes : List ℕ) → ptr ≡ default bytes → f.data_size ≤ length bytes)
        → ((k' : ℕ) → ptr ≡ fields k' → ltype f.type ≡ 7)
        → Returns (init_data table each f ptr p)
    unfolding init_data
    init_value null p n long apart mem = (store_bytes (zeros f.data_size) p mem, rw n refl)
    init_value (fields k') p n long apart mem =
        absurd (cc (n, (==_iff (ltype f.type) 7).1 (apart k' refl)))
    init_value (default bytes) p n long apart mem =
        let (mem', r) = copy_default-Returns bytes f.data_size p (long bytes refl) mem in
        (mem', rw n r)

    init_data-Returns : (p : ℕ) → Returns (init_data table each f f.ptr p)
    init_data-Returns p mem = elim (Bool-cases (ltype f.type == 7)) [
      | inl e ↦
          let (k', e', less) = known.message ((==_iff (ltype f.type) 7).0 e) in
          init_message f.ptr p k' e e' less mem
      | inr n ↦ init_value f.ptr p n whole.whole whole.apart mem
    ]

    static_default-Returns : (it : FieldIter) → Returns (static_default table each f it)
    unfolding static_default
    static_default-Returns it =
        Returns-if ((htype f.type == Htype.optional) && not (it.p_size == it.p_data)) _ _
          (λ e.
            Returns-bind (assign 1 it.p_size 0) (init_data table each f f.ptr it.p_data)
              (Returns-ok (store 1 it.p_size 0)) (init_data-Returns it.p_data))
          λ n.
            Returns-if ((htype f.type == Htype.repeated) || (htype f.type == Htype.oneof)) _ _
              (λ e. Returns-ok (store 4 it.p_size 0)) (λ n'. init_data-Returns it.p_data)

  pointer_default-Returns : (f : Field) (it : FieldIter) → Returns (pointer_default table f it)
  unfolding pointer_default
  pointer_default-Returns f it =
      Returns-bind (assign 8 it.p_data 0) _ (Returns-ok (store 8 it.p_data 0)) (
        Returns-if ((htype f.type == Htype.repeated) || (htype f.type == Htype.oneof)) _ _
          (λ e. Returns-ok (store 4 it.p_size 0)) (λ n. Returns-ok (λ mem. mem)))

  -- Past the descriptor.
  field_known :
      (fuel : ℕ) (it : FieldIter) (f : Field)
      → get_elem? it.start it.pos ≡ some f
      → ltype f.type ≢ Ltype.extension
      → ((atype f.type == Atype.static) ≡ true
          → Returns (static_default table (field_default table lists fuel) f it))
      → Returns (field_default table lists (suc fuel) it)
  unfolding field_default
  field_known fuel it f here regular static mem =
      let (mem', r) =
        Returns-if (ltype f.type == Ltype.extension)
          (extension_defaults table (field_default table lists fuel) lists (load mem 8 it.p_data)) _
          (λ e. absurd (regular ((==_iff (ltype f.type) 8).0 e)))
          (λ n. Returns-if (atype f.type == Atype.static) _ _ static λ n'.
            Returns-if (atype f.type == Atype.pointer) _ _ (λ e. pointer_default-Returns f it)
              λ n''. Returns-ok (λ m. m))
          mem in
      (mem', rw (field_default, here) r)

  field_default-Returns :
      (fuel k dest i : ℕ) (it : FieldIter)
      → k < fuel
      → At (table k) dest i it
      → i < schema.size k
      → Returns (field_default table lists fuel it)
  field_default-Returns zero k dest i it lt a h = absurd (omega arith)
  field_default-Returns (suc fuel) k dest i it lt a h =
      let (f, e, here) = At-field (table k) (schema.size k) dest (schema.ends k) i it a h in
      let known : IsField k f = All-get (IsField k) (table k) i f (schema.each k) e in
      field_known fuel it f here known.regular (λ s.
        static_default-Returns (field_default table lists fuel) k f known (defaults k i f e)
          (λ k' p less.
            message_defaults-Returns (field_default table lists fuel) k' p
              (λ i' it' a' h'. field_default-Returns fuel k' p i' it' (omega arith) a' h'))
          it)

  -- Where the tables of descriptors are in order and messages do not contain themselves, no
  -- message has an extension field, default values are as long as their fields, only fields of
  -- submessage type have descriptors, and the fuel exceeds the place of the descriptors:
  -- pb_message_set_to_defaults returns, on every memory and address.
  pub set_to_defaults-Returns :
      (fuel k dest : ℕ) (mem : Mem)
      → k < fuel
      → (mem' : Mem) × (set_to_defaults table lists fuel k dest mem ≡ ok tt mem')
  unfolding set_to_defaults
  set_to_defaults-Returns fuel k dest mem lt =
      message_defaults-Returns (field_default table lists fuel) k dest
        (λ i it a h. field_default-Returns fuel k dest i it lt a h) mem
