-- ===== src/Nanopb/Iter/Table.antt =====
-- A table of descriptors that the terminator ends, and one step of the iterator over it.
use test_gbksoft.Common.{
  ℕ, zero, suc, ◌≤◌, ◌<◌, ◌≡◌, refl, ap, ◌∙◌, arith, true, false, ◌==◌, ltb, lt→ltb, le→ltb,
  if◌then◌else◌,
}
use native.Mathlib.Decide.{dec_lt}
use test_gbksoft.Common.{some, List, ◌∷◌, length, get_elem?}
use test_gbksoft.Common.Outcome.{ok}
use test_gbksoft.Nanopb.Types.{Field}
use test_gbksoft.Nanopb.Iter.{FieldIter, begin, begin_at, advance, next_from, next}

-- `n` fields, whose tags are not 0, and the terminator behind them.
pub data IsTable : List Field → ℕ → Type 0 where
  end_of : (f : Field) (rest : List Field) → (f.tag == 0) ≡ true → IsTable (f ∷ rest) 0
  field_of :
      (f : Field) (rest : List Field) (n : ℕ)
      → (f.tag == 0) ≡ false
      → IsTable rest n
      → IsTable (f ∷ rest) (suc n)

pub field-at :
    (fs : List Field) (n i : ℕ)
    → IsTable fs n
    → i < n
    → (f : Field) × (get_elem? fs i ≡ some f) × ((f.tag == 0) ≡ false)
field-at fs n i (end_of f rest e) h = absurd (omega arith)
field-at fs n zero (field_of f rest m e t) h = (f, refl, e)
field-at fs n (suc i) (field_of f rest m e t) h = field-at rest m i t (omega arith)

pub field_end :
    (fs : List Field) (n : ℕ)
    → IsTable fs n
    → (f : Field) × (get_elem? fs n ≡ some f) × ((f.tag == 0) ≡ true)
field_end fs n (end_of f rest e) = (f, refl, e)
field_end fs n (field_of f rest m e t) = field_end rest m t

pub length-IsTable : (fs : List Field) (n : ℕ) → IsTable fs n → suc n ≤ length fs
length-IsTable fs n (end_of f rest e) = omega arith
length-IsTable fs n (field_of f rest m e t) = omega (arith, length-IsTable rest m t)

pub advance-pos : (prev cur : Field) (it : FieldIter) → (advance prev cur it).pos ≡ it.pos
unfolding advance
advance-pos prev cur it = ground arith

pub advance-start : (prev cur : Field) (it : FieldIter) → (advance prev cur it).start ≡ it.start
unfolding advance
advance-start prev cur it = ground arith

pub advance-dest :
    (prev cur : Field) (it : FieldIter) → (advance prev cur it).dest_struct ≡ it.dest_struct
unfolding advance
advance-dest prev cur it = ground arith

-- An iterator over the table, for a structure, at a place.
abbrev pub At : List Field → ℕ → ℕ → FieldIter → Type 0
At fs dest i it = (it.start ≡ fs) × (it.dest_struct ≡ dest) × (it.pos ≡ i)

pub begin_at-At :
    (fs : List Field) (dest : ℕ) (first : Field) → At fs dest 0 (begin_at fs dest first)
unfolding begin_at
begin_at-At fs dest first = (refl, refl, refl)

-- One step, where the two descriptors are known.
pub next_known :
    (fs : List Field) (dest i : ℕ) (it : FieldIter) (f g : Field)
    → At fs dest i it
    → get_elem? fs i ≡ some f
    → (f.tag == 0) ≡ false
    → get_elem? fs (suc i) ≡ some g
    → next it ≡ next_from f g (record it { pos = suc it.pos })
unfolding next
next_known fs dest i it f g (es, ed, ep) e nz e' = rw (es, ep, e, nz, e') refl

pub next_from-field :
    (f g : Field) (it : FieldIter)
    → (g.tag == 0) ≡ false
    → next_from f g it ≡ ok true (advance f g it)
unfolding next_from
next_from-field f g it nz = rw nz refl

pub next_from_end :
    (fs : List Field) (dest : ℕ) (it : FieldIter) (f g first : Field)
    → it.start ≡ fs
    → it.dest_struct ≡ dest
    → (g.tag == 0) ≡ true
    → get_elem? fs 0 ≡ some first
    → next_from f g it ≡ ok false (begin_at fs dest first)
unfolding next_from begin
next_from_end fs dest it f g first es ed z e0 = rw (es, ed, z, e0) refl

module _ (fs : List Field) (n dest : ℕ) (t : IsTable fs n) where
  -- Before the last field, pb_field_iter_next goes to the next one.
  pub next-inside :
      (i : ℕ) (it : FieldIter)
      → At fs dest i it
      → suc i < n
      → (it' : FieldIter) × (next it ≡ ok true it') × At fs dest (suc i) it'
  next-inside i it (es, ed, ep) h =
      let (f, e, nz) = field-at fs n i t (omega arith) in
      let (g, e', nz') = field-at fs n (suc i) t h in
      let moved : FieldIter = record it { pos = suc it.pos } in
      (
        advance f g moved,
        next_known fs dest i it f g (es, ed, ep) e nz e' ∙ next_from-field f g moved nz',
        (
          advance-start f g moved ∙ es,
          advance-dest f g moved ∙ ed,
          advance-pos f g moved ∙ ap (λ (k : ℕ). suc k) ep,
        ),
      )

  -- At the last field, it goes back to the first and returns false.
  pub next_last :
      (i : ℕ) (it : FieldIter)
      → At fs dest i it
      → suc i ≡ n
      → (first : Field) × (get_elem? fs 0 ≡ some first)
        × (next it ≡ ok false (begin_at fs dest first))
  next_last i it (es, ed, ep) h =
      let (f, e, nz) = field-at fs n i t (omega arith) in
      let (g, e', z) = field_end fs n t in
      let (first, e0, nz0) = field-at fs n 0 t (omega arith) in
      let moved : FieldIter = record it { pos = suc it.pos } in
      (
        first,
        e0,
        next_known fs dest i it f g (es, ed, ep) e nz (ap (get_elem? fs) h ∙ e')
            ∙ next_from_end fs dest moved f g first es ed z e0,
      )

  -- From field i of the n fields of a message, pb_field_iter_next goes to field i + 1 and returns
  -- true, and from the last field goes back to the first and returns false.
  pub next-At :
      (i : ℕ) (it : FieldIter)
      → At fs dest i it
      → i < n
      → (it' : FieldIter) × (next it ≡ ok (ltb (suc i) n) it')
        × At fs dest (if ltb (suc i) n then suc i else 0) it'
  next-At i it a h = elim (dec_lt (suc i) n) [
    | yes more ↦ rw (lt→ltb (suc i) n more) (next-inside i it a more)
    | no last ↦
        let (first, e, step) = next_last i it a (omega arith) in
        rw (le→ltb (suc i) n (omega arith))
          (begin_at fs dest first, step, begin_at-At fs dest first)
  ]

  pub At-field :
      (i : ℕ) (it : FieldIter)
      → At fs dest i it
      → i < n
      → (f : Field) × (get_elem? fs i ≡ some f) × (get_elem? it.start it.pos ≡ some f)
  At-field i it (es, ed, ep) h = let (f, e, nz) = field-at fs n i t h in (f, e, rw (es, ep) e)

  -- pb_field_iter_begin
  pub begin-At : 0 < n → (it : FieldIter) × (begin fs dest ≡ ok true it) × At fs dest 0 it
  unfolding begin
  begin-At h =
      let (f, e, nz) = field-at fs n 0 t h in
      (begin_at fs dest f, rw (e, nz) refl, begin_at-At fs dest f)

  pub begin_empty : n ≡ 0 → (it : FieldIter) × (begin fs dest ≡ ok false it)
  unfolding begin
  begin_empty h =
      let (f, e, z) = field_end fs n t in
      let e0 : get_elem? fs 0 ≡ some f = rw (← h) e in (begin_at fs dest f, rw (e0, z) refl)

  pub begin_empty-At :
      n ≡ 0 → (it : FieldIter) × (begin fs dest ≡ ok false it) × At fs dest it.pos it × (it.pos ≡ 0)
  unfolding begin begin_at
  begin_empty-At h =
      let (f, e, z) = field_end fs n t in
      let e0 : get_elem? fs 0 ≡ some f = rw (← h) e in
      (begin_at fs dest f, rw (e0, z) refl, (refl, refl, refl), refl)
