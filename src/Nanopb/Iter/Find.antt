-- ===== src/Nanopb/Iter/Find.antt =====
-- pb_field_iter_find over a whole table.
use test_gbksoft.Common.{
  ℕ, zero, suc, ◌+◌, ◌-◌, ◌≤◌, ◌<◌, ◌≡◌, ◌≢◌, sym, ◌∙◌, ap, arith, Bool, true, false, ◌==◌,
  if◌then◌else◌,
}
use test_gbksoft.Common.{some, List, length, get_elem?, Bool-cases, inl, inr}
use test_gbksoft.Common.Outcome.{Outcome, ok}
use native.Mathlib.Decide.{dec_lt}
use mathlib.Core.Option.{some-injective}
use test_gbksoft.Nanopb.Types.{Field}
use test_gbksoft.Nanopb.Iter.{FieldIter, next, wanted, find_loop, find, begin_at}
use test_gbksoft.Nanopb.Iter.Table.{
  IsTable, field-at, length-IsTable, At, next-inside, next_last, begin_at-At,
}

-- No field from `low` to below `high` is one that pb_field_iter_find takes.
abbrev pub Missed : List Field → ℕ → ℕ → ℕ → Type 0
Missed fs tag low high =
    (k : ℕ) → low ≤ k → k < high → (f : Field) → get_elem? fs k ≡ some f → wanted tag f ≡ false

-- What a search from the field at `start` ends with: the iterator at a field with the tag that is
-- no extension, or back where it was, and there is no such field.
pub data Search (fs : List Field) (n tag start : ℕ) : Outcome FieldIter Bool → Type 0 where
  hit :
      (it : FieldIter) (f : Field)
      → it.pos < n
      → get_elem? fs it.pos ≡ some f
      → wanted tag f ≡ true
      → Search fs n tag start (ok true it)
  miss : (it : FieldIter) → it.pos ≡ start → Missed fs tag 0 n → Search fs n tag start (ok false it)

Missed-suc :
    (fs : List Field) (tag i low : ℕ) (f : Field)
    → get_elem? fs i ≡ some f
    → wanted tag f ≡ false
    → Missed fs tag low i
    → Missed fs tag low (suc i)
Missed-suc fs tag i low f e w m k hl hk g eg = elim (dec_lt k i) [
  | yes below ↦ m k hl below g eg
  | no here ↦ same (omega arith)
]
  where
    same : k ≡ i → wanted tag g ≡ false
    same h = ap (wanted tag) (some-injective g f (sym eg ∙ ap (get_elem? fs) h ∙ e)) ∙ w

-- A round at a field that is wanted, and at one that is not.
find_loop-hit :
    (fs : List Field) (tag start fuel i dest : ℕ) (it : FieldIter) (f : Field)
    → At fs dest i it
    → get_elem? fs i ≡ some f
    → wanted tag f ≡ true
    → find_loop (suc fuel) start tag it ≡ ok true it
unfolding find_loop
find_loop-hit fs tag start fuel i dest it f (es, ed, ep) e w = rw (es, ep, e, w)

find_loop-miss :
    (fs : List Field) (tag start fuel i dest : ℕ) (it it' : FieldIter) (f : Field) (b : Bool)
    → At fs dest i it
    → get_elem? fs i ≡ some f
    → wanted tag f ≡ false
    → next it ≡ ok b it'
    → find_loop (suc fuel) start tag it
      ≡ (if it'.pos == start then ok false it' else find_loop fuel start tag it')
unfolding find_loop
find_loop-miss fs tag start fuel i dest it it' f b (es, ed, ep) e w h = rw (h, es, ep, e, w)

stops : (a b : ℕ) → a ≡ b → (a == b) ≡ true
stops a b h = ground arith

goes_on : (a b : ℕ) → a ≢ b → (a == b) ≡ false
goes_on a b h = ground arith

module _ (fs : List Field) (n dest tag : ℕ) (t : IsTable fs n) where
  Search-hit :
      (fuel i start : ℕ) (it : FieldIter) (f : Field)
      → At fs dest i it
      → i < n
      → get_elem? fs i ≡ some f
      → wanted tag f ≡ true
      → Search fs n tag start (find_loop (suc fuel) start tag it)
  Search-hit fuel i start it f a h e w =
      rw (find_loop-hit fs tag start fuel i dest it f a e w)
        (hit it f (omega (arith, a.2)) (ap (get_elem? fs) a.2 ∙ e) w)

  -- From a field before `start`, where all from `start` on and all before the field are missed.
  low_rounds :
      (d fuel i start : ℕ) (it : FieldIter)
      → At fs dest i it
      → suc (i + d) ≡ start
      → start < n
      → d < fuel
      → Missed fs tag start n
      → Missed fs tag 0 i
      → Search fs n tag start (find_loop fuel start tag it)
  low_rounds d zero i start it a hd hs hf high low = absurd (omega arith)
  low_rounds zero (suc fuel) i start it a hd hs hf high low =
      let (f, e, nz) = field-at fs n i t (omega arith) in
      let (it', step, a') = next-inside fs n dest t i it a (omega arith) in
      elim (Bool-cases (wanted tag f)) [
        | inl w ↦ Search-hit fuel i start it f a (omega arith) e w
        | inr w ↦
            rw
              (
                find_loop-miss fs tag start fuel i dest it it' f true a e w step,
                stops it'.pos start (omega (arith, a'.2)),
              )
              (miss it' (omega (arith, a'.2)) (all (Missed-suc fs tag i 0 f e w low)))
      ]
    where
      all : Missed fs tag 0 (suc i) → Missed fs tag 0 n
      all m k lo hi g eg = elim (dec_lt k start) [
        | yes below ↦ m k lo (omega arith) g eg
        | no above ↦ high k (omega arith) hi g eg
      ]
  low_rounds (suc d) (suc fuel) i start it a hd hs hf high low =
      let (f, e, nz) = field-at fs n i t (omega arith) in
      let (it', step, a') = next-inside fs n dest t i it a (omega arith) in
      elim (Bool-cases (wanted tag f)) [
        | inl w ↦ Search-hit fuel i start it f a (omega arith) e w
        | inr w ↦
            rw
              (
                find_loop-miss fs tag start fuel i dest it it' f true a e w step,
                goes_on it'.pos start (omega (arith, a'.2)),
              )
              (low_rounds d fuel (suc i) start it' a' (omega arith) hs (omega arith) high
                (Missed-suc fs tag i 0 f e w low))
      ]

  -- From a field at `start` or later, where all from `start` to the field are missed.
  high_rounds :
      (d fuel i start : ℕ) (it : FieldIter)
      → At fs dest i it
      → suc (i + d) ≡ n
      → start ≤ i
      → d + start < fuel
      → Missed fs tag start i
      → Search fs n tag start (find_loop fuel start tag it)
  high_rounds d zero i start it a hd hs hf seen = absurd (omega arith)
  high_rounds zero (suc fuel) i start it a hd hs hf seen =
      let (f, e, nz) = field-at fs n i t (omega arith) in
      let (first, e0, step) = next_last fs n dest t i it a (omega arith) in
      elim (Bool-cases (wanted tag f)) [
        | inl w ↦ Search-hit fuel i start it f a (omega arith) e w
        | inr w ↦
            rw
              (find_loop-miss fs tag start fuel i dest it (begin_at fs dest first) f false a e w
                step)
              (wrap start (begin_at fs dest first) (begin_at-At fs dest first) hs hf
                (Missed-suc fs tag i start f e w seen))
      ]
    where
      nothing : Missed fs tag 0 0
      nothing k lo hi g eg = absurd (omega arith)

      to_end : (s : ℕ) → Missed fs tag s (suc i) → Missed fs tag s n
      to_end s m k lo hi g eg = m k lo (omega arith) g eg

      wrap :
          (s : ℕ) (it' : FieldIter)
          → At fs dest 0 it'
          → s ≤ i
          → zero + s < suc fuel
          → Missed fs tag s (suc i)
          → Search fs n tag s (if it'.pos == s then ok false it' else find_loop fuel s tag it')
      wrap zero it' a' hs hf m =
          rw (stops it'.pos 0 (omega (arith, a'.2))) (miss it' a'.2 (to_end 0 m))
      wrap (suc s) it' a' hs hf m = rw (goes_on it'.pos (suc s) (omega (arith, a'.2))) (
          low_rounds s fuel 0 (suc s) it' a' (omega arith) (omega arith) (omega arith)
            (to_end (suc s) m) nothing)
  high_rounds (suc d) (suc fuel) i start it a hd hs hf seen =
      let (f, e, nz) = field-at fs n i t (omega arith) in
      let (it', step, a') = next-inside fs n dest t i it a (omega arith) in
      elim (Bool-cases (wanted tag f)) [
        | inl w ↦ Search-hit fuel i start it f a (omega arith) e w
        | inr w ↦
            rw
              (
                find_loop-miss fs tag start fuel i dest it it' f true a e w step,
                goes_on it'.pos start (omega (arith, a'.2)),
              )
              (high_rounds d fuel (suc i) start it' a' (omega arith) (omega arith) (omega arith)
                (Missed-suc fs tag i start f e w seen))
      ]

  -- From any field of a message with n fields, pb_field_iter_find ends: with true at a field of
  -- the message that has the tag and is no extension, or with false at the field where it began,
  -- and then no field of the message is such a one.
  pub find-Search :
      (i : ℕ) (it : FieldIter) → At fs dest i it → i < n → Search fs n tag i (find tag it)
  unfolding find
  find-Search i it (es, ed, ep) h =
      let a : At fs dest i it = (es, ed, ep) in
      let loop : find tag it ≡ find_loop (length fs) i tag it =
        ap (λ (l : List Field). find_loop (length l) it.pos tag it) es
        ∙ ap (λ (k : ℕ). find_loop (length fs) k tag it) ep in
      rw loop (
        high_rounds (n - suc i) (length fs) i i it a (omega arith) (omega arith)
          (omega (arith, length-IsTable fs n t)) (λ k lo hi. absurd (omega arith)))
