-- ===== src/Nanopb/Iter/Spot.antt =====
-- Iterators at a field of a message, or at the end marker of a message without fields.
use test_gbksoft.Common.{
  ℕ, zero, suc, ◌≤◌, ◌<◌, ◌≡◌, refl, ap, arith, Bool, true, false, ◌==◌, if◌then◌else◌, ltb, some,
  List, length, get_elem?, inl, inr, ◌⊎◌,
}
use test_gbksoft.Common.Outcome.{Outcome, ok, stuck}
use native.Mathlib.Decide.{dec_lt}
use test_gbksoft.Nanopb.Types.{Field}
use test_gbksoft.Nanopb.Iter.{FieldIter, next, wanted, find_loop, find, begin}
use test_gbksoft.Nanopb.Iter.Table.{
  IsTable, field-at, field_end, length-IsTable, At, next-At, begin-At, begin_empty-At,
}
use test_gbksoft.Nanopb.Iter.Find.{Search, hit, miss, find-Search}

-- An outcome that leaves an iterator of the message, if there is fuel.
data Inside (fs : List Field) (n dest : ℕ) : Outcome FieldIter Bool → Type 0 where
  inside_ok :
      (b : Bool) (it : FieldIter) → At fs dest it.pos it → it.pos < n → Inside fs n dest (ok b it)
  inside_stuck : Inside fs n dest stuck

Inside-if :
    {fs : List Field} {n dest : ℕ} (b : Bool) {o o' : Outcome FieldIter Bool}
    → Inside fs n dest o
    → Inside fs n dest o'
    → Inside fs n dest (if b then o else o')
Inside-if true h h' = h
Inside-if false h h' = h'

-- At the end marker of a message without fields.
pub next_end :
    (it : FieldIter) (f : Field)
    → get_elem? it.start it.pos ≡ some f
    → (f.tag == 0) ≡ true
    → next it ≡ ok false it
unfolding next
next_end it f e z = rw (e, z) refl

find_loop-end :
    (fuel tag : ℕ) (it : FieldIter) (f : Field)
    → 1 ≤ fuel
    → get_elem? it.start it.pos ≡ some f
    → (f.tag == 0) ≡ true
    → find_loop fuel it.pos tag it ≡ ok (wanted tag f) it
unfolding find_loop
find_loop-end zero tag it f h e z = absurd (omega arith)
find_loop-end (suc fuel) tag it f h e z =
    rw (next_end it f e z, e) (either (wanted tag f) (find_loop fuel it.pos tag it))
  where
    either :
        (b : Bool) (again : Outcome FieldIter Bool)
        → (if b then ok true it else (if it.pos == it.pos then ok false it else again)) ≡ ok b it
    either true again = refl
    either false again = ground arith

-- If it is true, the iterator is at a field that is wanted.
abbrev pub Wanted : List Field → ℕ → Bool → FieldIter → Type 0
Wanted fs tag b it = b ≡ true → (f : Field) × (get_elem? fs it.pos ≡ some f) × (wanted tag f ≡ true)

-- The place of an iterator in a message with n fields.
pub record IsSpot (fs : List Field) (n dest : ℕ) (it : FieldIter) : Type 0 where
  pub here : At fs dest it.pos it
  pub inside : (it.pos < n) ⊎ ((n ≡ 0) × (it.pos ≡ 0))

module _ (fs : List Field) (n dest : ℕ) (t : IsTable fs n) where
  find_loop-Inside :
      (fuel start tag : ℕ) (it : FieldIter)
      → At fs dest it.pos it
      → it.pos < n
      → Inside fs n dest (find_loop fuel start tag it)
  unfolding find_loop
  find_loop-Inside zero start tag it a h = inside_stuck
  find_loop-Inside (suc fuel) start tag it a h =
      let (f, e, nz) = field-at fs n it.pos t h in
      let e' : get_elem? it.start it.pos ≡ some f = rw a.0 e in
      let (it', step, a') = next-At fs n dest t it.pos it a h in
      rw (e', step)
        (Inside-if (wanted tag f) (inside_ok true it a h) (
          Inside-if (it'.pos == start) (inside_ok false it' (placed it' a') (bound it' a'))
            (find_loop-Inside fuel start tag it' (placed it' a') (bound it' a'))))
    where
      placed :
          (it' : FieldIter)
          → At fs dest (if ltb (suc it.pos) n then suc it.pos else 0) it'
          → At fs dest it'.pos it'
      placed it' (es, ed, ep) = (es, ed, refl)

      bound :
          (it' : FieldIter)
          → At fs dest (if ltb (suc it.pos) n then suc it.pos else 0) it'
          → it'.pos < n
      bound it' (es, ed, ep) = ground arith

  combined :
      {tag i : ℕ} {o : Outcome FieldIter Bool}
      → Search fs n tag i o
      → Inside fs n dest o
      → (b : Bool) × (it' : FieldIter) × (o ≡ ok b it') × IsSpot fs n dest it' × Wanted fs tag b it'
  combined (hit it f h e w) (inside_ok b it' a h') =
      (true, it, refl, record { here = a; inside = inl h' }, λ b. (f, e, w))
  combined (miss it e m) (inside_ok b it' a h') =
      (false, it, refl, record { here = a; inside = inl h' }, λ b. absurd (cc b))

  pub end_at :
      (it : FieldIter)
      → it.start ≡ fs
      → n ≡ 0
      → it.pos ≡ 0
      → (f : Field) × (get_elem? it.start it.pos ≡ some f) × ((f.tag == 0) ≡ true)
  end_at it es none_here first =
      let (f, e, z) = field_end fs n t in (f, rw (es, first) (rw (← none_here) e), z)

  -- pb_field_iter_find ends at such a place.
  pub find-IsSpot :
      (tag : ℕ) (it : FieldIter)
      → IsSpot fs n dest it
      → (b : Bool) × (it' : FieldIter) × (find tag it ≡ ok b it')
        × IsSpot fs n dest it'
        × Wanted fs tag b it'
  unfolding find
  find-IsSpot tag it spot = elim (spot.inside) [
    | inl h ↦
        combined (find-Search fs n dest tag t it.pos it spot.here h)
          (find_loop-Inside (length it.start) it.pos tag it spot.here h)
    | inr (none_here, first) ↦
        let (f, e, z) = end_at it spot.here.0 none_here first in
        let long : 1 ≤ length it.start =
          omega (arith, length-IsTable fs n t, ap (length {A = Field}) spot.here.0) in
        (
          wanted tag f,
          it,
          find_loop-end (length it.start) tag it f long e z,
          spot,
          λ b. (f, rw (← spot.here.0) e, b),
        )
  ]

  -- The descriptor there.
  pub IsSpot-field :
      (it : FieldIter)
      → IsSpot fs n dest it
      → (f : Field) × (get_elem? fs it.pos ≡ some f) × (get_elem? it.start it.pos ≡ some f)
  IsSpot-field it spot = elim (spot.inside) [
    | inl h ↦ let (f, e, nz) = field-at fs n it.pos t h in (f, e, rw (spot.here.0) e)
    | inr (none_here, first) ↦
        let (f, e, z) = end_at it spot.here.0 none_here first in (f, rw (← spot.here.0) e, e)
  ]

  -- pb_field_iter_begin
  pub begin-IsSpot : (b : Bool) × (it : FieldIter) × (begin fs dest ≡ ok b it) × IsSpot fs n dest it
  begin-IsSpot = elim (dec_lt 0 n) [
    | yes some_field ↦
        let (it, e, (es, ed, ep)) = begin-At fs n dest t some_field in
        (
          true,
          it,
          e,
          record { here = (es, ed, refl); inside = inl (omega (arith, ep, some_field)) },
        )
    | no empty ↦
        let (it, e, es, ep) = begin_empty-At fs n dest t (omega arith) in
        (false, it, e, record { here = es; inside = inr (omega arith, ep) })
  ]

  -- pb_field_iter_next
  pub next-IsSpot :
      (it : FieldIter)
      → IsSpot fs n dest it
      → (b : Bool) × (it' : FieldIter) × (next it ≡ ok b it') × IsSpot fs n dest it'
  next-IsSpot it spot = elim (spot.inside) [
    | inl h ↦
        let (it', step, a) = next-At fs n dest t it.pos it spot.here h in
        (
          ltb (suc it.pos) n,
          it',
          step,
          record { here = (a.0, a.1, refl); inside = inl (below it' a.2 h) },
        )
    | inr (none_here, first) ↦
        let (f, e, z) = end_at it spot.here.0 none_here first in
        (false, it, next_end it f e z, spot)
  ]
    where
      below :
          (it' : FieldIter)
          → it'.pos ≡ (if ltb (suc it.pos) n then suc it.pos else 0)
          → it.pos < n
          → it'.pos < n
      below it' e h = ground arith
