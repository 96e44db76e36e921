-- ===== src/Nanopb/Iter/Placed.antt =====
-- Where the fields of a message are in its structure, by recursion on the table of descriptors, and
-- that the iterator of pb_common.c visits them in this order.
use test_gbksoft.Common.{
  ℕ, suc, ◌+◌, ◌-◌, ◌*◌, ◌%◌, ◌^◌, ◌≤◌, ◌≡◌, ◌⊎◌, inl, inr, refl, sym, ap, ◌∙◌, arith, true, false,
  Bool, ◌&&◌, ◌==◌, if◌then◌else◌, some, List, [], ◌∷◌, length, get_elem?,
}
use test_gbksoft.Common.Outcome.{ok}
use test_gbksoft.Nanopb.Types.{Field, htype, atype}
use test_gbksoft.Nanopb.Iter.{FieldIter, begin, begin_at, advance, next, prev_size}
use test_gbksoft.Nanopb.Iter.Table.{
  IsTable, end_of, field_of, next_known, next_from-field, next_from_end, advance-pos, advance-start,
  advance-dest,
}

-- The bytes of a field in the structure: a pointer, a static array, or one item.
abbrev pub extent : Field → ℕ
extent f =
    if atype f.type == 0x80
    then 8
    else if (atype f.type == 0) && (htype f.type == 0x20)
    then f.data_size * f.array_size % 2 ^ 64
    else f.data_size

-- A later member of a union.
abbrev pub shares : Field → Field → Bool
shares prev f = (htype prev.type == 0x30) && (htype f.type == 0x30) && (f.data_offset == 2 ^ 32 - 1)

-- The address of the field behind another one. Offsets are from its end.
abbrev pub behind : Field → ℕ → Field → ℕ
behind prev p f = if shares prev f then p else (p + extent prev + f.data_offset) % 2 ^ 64

unfoldable pub placed_after : Field → ℕ → List Field → List (Field × ℕ)
placed_after prev p [] = []
placed_after prev p (f ∷ fs) =
    let rest = placed_after f (behind prev p f) fs in
    if f.tag == 0 then [] else (f, behind prev p f) ∷ rest

-- The fields of a structure at an address, with their addresses.
unfoldable pub placed : List Field → ℕ → List (Field × ℕ)
placed [] dest = []
placed (f ∷ fs) dest =
    let p = (dest + f.data_offset) % 2 ^ 64 in
    let rest = placed_after f p fs in if f.tag == 0 then [] else (f, p) ∷ rest

-- From an iterator on, these fields.
pub data Walk (fs : List Field) : FieldIter → List (Field × ℕ) → Type 0 where
  last_field :
      (it it' : FieldIter) (f : Field)
      → it.start ≡ fs
      → get_elem? fs it.pos ≡ some f
      → next it ≡ ok false it'
      → Walk fs it ((f, it.p_data) ∷ [])
  more_fields :
      (it it' : FieldIter) (f : Field) (rest : List (Field × ℕ))
      → it.start ≡ fs
      → get_elem? fs it.pos ≡ some f
      → next it ≡ ok true it'
      → Walk fs it' rest
      → Walk fs it ((f, it.p_data) ∷ rest)

prev_size-extent : (f : Field) → prev_size f ≡ extent f
unfolding prev_size
prev_size-extent f = ground arith

advance-data :
    (prev cur : Field) (it : FieldIter) → (advance prev cur it).p_data ≡ behind prev it.p_data cur
unfolding advance
advance-data prev cur it = ground (arith, prev_size-extent prev)

one_more : (j : ℕ) → suc j ≡ suc 0 + j
one_more j = omega arith

moved_to :
    (fs : List Field) (g : Field) (rest : List Field) (it : FieldIter) (q : ℕ)
    → it.p_data ≡ q
    → Walk fs it ((g, it.p_data) ∷ placed_after g it.p_data rest)
    → Walk fs it ((g, q) ∷ placed_after g q rest)
moved_to fs g rest it q e walk = rw (← e) walk

module _ (fs : List Field) (dest : ℕ) (first : Field) (e0 : get_elem? fs 0 ≡ some first) where
  Walk-after :
      (rest : List Field) (n i : ℕ) (it : FieldIter) (f : Field)
      → IsTable rest n
      → it.start ≡ fs
      → it.dest_struct ≡ dest
      → it.pos ≡ i
      → get_elem? fs i ≡ some f
      → (f.tag == 0) ≡ false
      → ((j : ℕ) → get_elem? rest j ≡ get_elem? fs (suc i + j))
      → Walk fs it ((f, it.p_data) ∷ placed_after f it.p_data rest)
  unfolding placed_after
  Walk-after rest n i it f (end_of g rest' z) es ed ep e nz same =
      let moved : FieldIter = record it { pos = suc it.pos } in
      rw z (
        last_field it (begin_at fs dest first) f es (ap (get_elem? fs) ep ∙ e) (
          next_known fs dest i it f g (es, ed, ep) e nz (later 0 (suc i) (omega arith))
          ∙ next_from_end fs dest moved f g first es ed z e0))
    where
      later : (j k : ℕ) → suc i + j ≡ k → get_elem? fs k ≡ get_elem? (g ∷ rest') j
      later j k h = ap (get_elem? fs) (sym h) ∙ sym (same j)
  Walk-after rest n i it f (field_of g rest' m nz' t) es ed ep e nz same =
      let moved : FieldIter = record it { pos = suc it.pos } in
      let there = later 0 (suc i) (omega arith) in
      let address : (advance f g moved).p_data ≡ behind f it.p_data g = advance-data f g moved in
      rw nz' (
        more_fields it (advance f g moved) f _ es (ap (get_elem? fs) ep ∙ e)
          (next_known fs dest i it f g (es, ed, ep) e nz there ∙ next_from-field f g moved nz')
          (moved_to fs g rest' (advance f g moved) _ address (
            Walk-after rest' m (suc i) (advance f g moved) g t (advance-start f g moved ∙ es)
              (advance-dest f g moved ∙ ed) (advance-pos f g moved ∙ ap (λ (k : ℕ). suc k) ep) there
              nz' (λ j. sym (later (suc j) (suc (suc i) + j) (omega arith))))))
    where
      later : (j k : ℕ) → suc i + j ≡ k → get_elem? fs k ≡ get_elem? (g ∷ rest') j
      later j k h = ap (get_elem? fs) (sym h) ∙ sym (same j)

-- pb_field_iter_begin and pb_field_iter_next visit the fields at their addresses.
pub begin-Walk :
    (fs : List Field) (n dest : ℕ)
    → IsTable fs n
    → ((it : FieldIter) × (begin fs dest ≡ ok true it)
        × (it.start ≡ fs)
        × Walk fs it (placed fs dest))
      ⊎ ((it : FieldIter) × (begin fs dest ≡ ok false it) × (placed fs dest ≡ []))
unfolding begin begin_at placed
begin-Walk fs n dest (end_of f rest z) = inr (begin_at fs dest f, rw z refl, rw z refl)
begin-Walk fs n dest (field_of f rest m nz t) = inl (
  begin_at fs dest f,
  rw nz refl,
  refl,
  rw nz (
      Walk-after (f ∷ rest) dest f refl rest m 0 (begin_at (f ∷ rest) dest f) f t refl refl refl
        refl nz (λ j. ap (get_elem? (f ∷ rest)) (one_more j))),
)

length-placed_after :
    (prev : Field) (p : ℕ) (fs : List Field) → length (placed_after prev p fs) ≤ length fs
unfolding placed_after
length-placed_after prev p [] = omega arith
length-placed_after prev p (f ∷ fs) = ground (arith, length-placed_after f (behind prev p f) fs)

pub length-placed : (fs : List Field) (dest : ℕ) → length (placed fs dest) ≤ length fs
unfolding placed
length-placed [] dest = omega arith
length-placed (f ∷ fs) dest =
    ground (arith, length-placed_after f ((dest + f.data_offset) % 2 ^ 64) fs)
