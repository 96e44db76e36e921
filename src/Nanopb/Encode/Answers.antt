-- ===== src/Nanopb/Encode/Answers.antt =====
-- pb_check_proto3_default_value answers, and its answer is whether the field is not set.
use test_gbksoft.Common.{ℕ, zero, suc, ◌≤◌, ◌<◌, ◌≡◌, refl, arith, ◌==◌}
use test_gbksoft.Common.{
  Bool, true, false, not, ◌&&◌, if◌then◌else◌, Option, none, some, List, length, ◌||◌, ==_iff, ap,
  get_elem?,
}
use test_gbksoft.Common.{Bool-cases, inl, inr}
use test_gbksoft.Nanopb.Types.{Field, FieldPtr, fields, ltype, htype, atype}
use test_gbksoft.Nanopb.Memory.{Mem, load}
use test_gbksoft.Nanopb.Iter.{FieldIter, add_signed, begin}
use test_gbksoft.Nanopb.Iter.Placed.{
  Walk, last_field, more_fields, placed, begin-Walk, length-placed,
}
use test_gbksoft.Nanopb.Encode.Unset.{shifted, by_presence, all_unset, message_unset, unset}
use test_gbksoft.Nanopb.Encode.Default.{
  default_loop, default_from, default_sub, is_default, all_zero,
}
use test_gbksoft.Nanopb.Encode.Schema.{IsField, IsSchema, All-get}

abbrev pub Answers : Option Bool → Type 0
Answers o = (b : Bool) × (o ≡ some b)

all_zero-load : (mem : Mem) (n p : ℕ) → all_zero mem n p ≡ (load mem n p == 0)
unfolding all_zero load
all_zero-load mem zero p = refl
all_zero-load mem (suc n) p = ground (arith, all_zero-load mem n (suc p))

pub shifted-add_signed : (p offset : ℕ) → shifted p offset ≡ add_signed p offset
shifted-add_signed p offset = ground arith

-- The order of the tests, where the types of the values exclude each other.
by_tests :
    (required repeated oneof flagged static : Bool) (l count flag bytes char size value : ℕ)
    (sub : Option Bool) (below : Bool)
    → (static ≡ true → l ≡ 7 → sub ≡ some below)
    → (if required
        then some false
        else if repeated
        then some (count == 0)
        else if oneof
        then some (count == 0)
        else if flagged
        then some (flag == 0)
        else if static && (l == 5)
        then some (bytes == 0)
        else if static && (l == 6)
        then some (char == 0)
        else if static && (l == 9)
        then some (size == 0)
        else if static && (l == 7)
        then sub
        else some (value == 0))
      ≡ some (
          not required
          && by_presence
              (if repeated || oneof then some count else if flagged then some flag else none)
              (if static && (l == 7)
                then below
                else (if not static
                    then value
                    else if l == 5
                    then bytes
                    else if l == 6
                    then char
                    else if l == 9
                    then size
                    else value)
                  == 0))
by_tests true r o f s l count flag bytes char size value sub below h = refl
by_tests false true o f s l count flag bytes char size value sub below h = refl
by_tests false false true f s l count flag bytes char size value sub below h = refl
by_tests false false false true s l count flag bytes char size value sub below h = refl
by_tests false false false false false l count flag bytes char size value sub below h = refl
by_tests false false false false true l count flag bytes char size value sub below h =
    elim (Bool-cases (l == 7)) [
      | inl e ↦ rw ((==_iff l 7).0 e) (h refl ((==_iff l 7).0 e))
      | inr n ↦ rw n (others (l == 5) (l == 6) (l == 9))
    ]
  where
    others :
        (a b c : Bool)
        → (if a
            then some (bytes == 0)
            else if b
            then some (char == 0)
            else if c
            then some (size == 0)
            else some (value == 0))
          ≡ some ((if a then bytes else if b then char else if c then size else value) == 0)
    others true b c = refl
    others false true c = refl
    others false false true = refl
    others false false false = refl

module _ (mem : Mem) (table : ℕ → List Field) (schema : IsSchema table) where
  module _ (check : Field → ℕ → Option Bool) (spec : Field → ℕ → Bool) (k : ℕ)
      (each : (f : Field) (p : ℕ) → IsField k f → check f p ≡ some (spec f p)) where
    known :
        (it : FieldIter) (f : Field)
        → get_elem? (table k) it.pos ≡ some f
        → check f it.p_data ≡ some (spec f it.p_data)
    known it f here = each f it.p_data (All-get (IsField k) (table k) it.pos f (schema.each k) here)

    default_loop-all_unset :
        (fuel : ℕ) (it : FieldIter) (ps : List (Field × ℕ))
        → Walk (table k) it ps
        → length ps ≤ fuel
        → default_loop mem table check fuel it ≡ some (all_unset spec ps)
    unfolding default_loop all_unset
    default_loop-all_unset zero cur ps (last_field it it' f es here step) h =
        absurd (omega (arith, h))
    default_loop-all_unset zero cur ps (more_fields it it' f rest es here step walk) h =
        absurd (omega (arith, h))
    default_loop-all_unset (suc fuel) cur ps (last_field it it' f es here step) h =
        elim (Bool-cases (spec f it.p_data)) [
          | inl yes_unset ↦ rw (default_loop, es, here, known it f here, yes_unset, step) refl
          | inr is_set ↦ rw (default_loop, es, here, known it f here, is_set) refl
        ]
    default_loop-all_unset (suc fuel) cur ps (more_fields it it' f rest es here step walk) h =
        elim (Bool-cases (spec f it.p_data)) [
          | inl yes_unset ↦
              rw (default_loop, es, here, known it f here, yes_unset, step)
                (default_loop-all_unset fuel it' rest walk (omega (arith, h)))
          | inr is_set ↦ rw (default_loop, es, here, known it f here, is_set) refl
        ]

    default_from-all_unset :
        (dest : ℕ)
        → default_from mem table check (begin (table k) dest)
          ≡ some (all_unset spec (placed (table k) dest))
    unfolding default_from all_unset
    default_from-all_unset dest = elim (begin-Walk (table k) (schema.size k) dest (schema.ends k)) [
      | inl (it, e, es, walk) ↦ rw e (
          default_loop-all_unset (length it.start) it _ walk
            (omega (arith, ap (λ (fs : List Field). length fs) es, length-placed (table k) dest)))
      | inr (it, e, none_placed) ↦ rw (e, none_placed) refl
    ]

  default_sub-message_unset :
      (check : Field → ℕ → Option Bool) (spec : Field → ℕ → Bool) (k : ℕ)
      → ((k' : ℕ) (f : Field) (p : ℕ) → k' < k → IsField k' f → check f p ≡ some (spec f p))
      → (ptr : FieldPtr) (p : ℕ) → (k' : ℕ) × (ptr ≡ fields k') × (k' < k)
      → default_sub mem table check ptr p ≡ some (message_unset mem table spec ptr p)
  unfolding default_sub message_unset
  default_sub-message_unset check spec k below ptr p (k', e, less) =
      rw e (default_from-all_unset check spec k' (λ f' p' h'. below k' f' p' less h') p)

  pub is_default-unset :
      (fuel k : ℕ) (f : Field) (p : ℕ)
      → k < fuel
      → IsField k f
      → is_default mem table fuel f p ≡ some (unset mem table fuel f p)
  unfolding is_default unset
  is_default-unset zero k f p lt h = absurd (omega arith)
  is_default-unset (suc fuel) k f p lt h =
      rw (all_zero-load mem f.data_size p, shifted-add_signed p f.size_offset)
        (by_tests (htype f.type == 0) (htype f.type == 32) (htype f.type == 48)
          ((htype f.type == 16) && not (f.size_offset == 0)) (atype f.type == 0) (ltype f.type)
          (load mem 4 (add_signed p f.size_offset)) (load mem 1 (add_signed p f.size_offset))
          (load mem 4 p) (load mem 1 p) f.data_size (load mem f.data_size p) _ _
          (λ e l.
            default_sub-message_unset (is_default mem table fuel) (unset mem table fuel) k
              (λ k' f' p' less h'. is_default-unset fuel k' f' p' (omega arith) h') f.ptr p
              (h.message l)))

  -- Where the tables of descriptors are in order and messages do not contain themselves,
  -- pb_check_proto3_default_value ends with an answer for every field of the table at k, on every
  -- memory and address, where the fuel exceeds k.
  pub is_default-Answers :
      (fuel k : ℕ) (f : Field) (p : ℕ)
      → k < fuel
      → IsField k f
      → Answers (is_default mem table fuel f p)
  is_default-Answers fuel k f p lt h = (unset mem table fuel f p, is_default-unset fuel k f p lt h)
