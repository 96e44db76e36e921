-- ===== src/Nanopb/Decode/Released.antt =====
-- What pb_release_single_field frees of a pointer field, in which order, and what it leaves.
use test_gbksoft.Common.{
  ◌*◌, ◌<◌, ◌≤◌, ◌⊎◌, inl, inr, sym, ap, List, [], ◌∷◌, ◌++◌, append_assoc, append-nil, ℕ, zero,
  suc, ◌+◌, ◌%◌, ◌^◌, ◌≡◌, ◌≢◌, ◌∙◌, refl, arith, Bool, true, false, ◌||◌, ◌==◌, ==_iff,
  if◌then◌else◌, some, get_elem?,
}
use test_gbksoft.Common.Outcome.{Outcome, ok, M, bind_outcome}
use test_gbksoft.Nanopb.Types.{Field, ltype, htype, atype}
use test_gbksoft.Nanopb.Types.Ltype
use test_gbksoft.Nanopb.Types.Htype
use test_gbksoft.Nanopb.Types.Atype
use test_gbksoft.Nanopb.Memory.{Mem, load, load-store, store, little_endian}
use test_gbksoft.Nanopb.Decode.Confined.{Outside, store_bytes-Outside}
use test_gbksoft.Nanopb.Iter.{FieldIter}
use test_gbksoft.Nanopb.Decode.State.{DecState, put}
use test_gbksoft.Nanopb.Decode.Env.{Env}
use test_gbksoft.Nanopb.Decode.Release.{
  freed, release_block, release_entries, release_array, release_pointer, release_inside,
  release_single_field,
}
use test_gbksoft.Nanopb.Decode.Apart.{load_agree, Apart, load-store-Apart, pointers, pointers_agree}

-- A call that returns, and what follows it.
bind_ok :
    {S : Type 0} {o r : Outcome S (Unit {0})} {s : S} (k : M S (Unit {0}))
    → o ≡ ok tt s
    → k s ≡ r
    → bind_outcome o (λ _. k) ≡ r
bind_ok k e h = rw e h

-- The addresses that pb_release_single_field frees before that of the field: the strings or byte
-- arrays of a repeated field.
unfoldable pub owned : Mem → Field → FieldIter → List ℕ
owned mem f it =
    if htype f.type == Htype.repeated
    then (if (ltype f.type == Ltype.string) || (ltype f.type == Ltype.bytes)
        then pointers mem (load mem 4 it.p_size) (load mem 8 it.p_data)
        else [])
    else []

-- free notes the addresses, in their order, and leaves the memory as it is.
module _ {σ : Type 0} (env : Env σ (List ℕ))
    (notes : (ptr : ℕ) (mem : Mem) (heap : List ℕ)
      → env.free ptr mem heap ≡ (mem, heap ++ (ptr ∷ []))) where
  -- It returns, has freed these, and has stored only in a range.
  record Frees (freed_here : List ℕ) (a n : ℕ) (s : DecState σ (List ℕ))
      (o : Outcome (DecState σ (List ℕ)) (Unit {0})) : Type 0 where
    after : DecState σ (List ℕ)
    returns : o ≡ ok tt after
    stream : after.stream ≡ s.stream
    heap : after.heap ≡ s.heap ++ freed_here
    elsewhere : Outside a n s.mem after.mem

  release_block-lem :
      (ptr : ℕ) (s : DecState σ (List ℕ))
      → release_block env ptr s ≡ ok tt (record s { heap = s.heap ++ (ptr ∷ []) })
  unfolding release_block freed
  release_block-lem ptr s = rw (notes ptr s.mem s.heap) refl

  release_entries-Frees :
      (count p : ℕ) (s : DecState σ (List ℕ))
      → p + 8 * count < 2 ^ 64
      → Frees (pointers s.mem count p) p (8 * count) s (release_entries env count p s)
  unfolding release_entries pointers
  release_entries-Frees zero p s h = record {
    after = s;
    returns = refl;
    stream = refl;
    heap = sym (append-nil s.heap);
    elsewhere = λ x out. refl;
  }
  release_entries-Frees (suc count) p s h =
      let ptr = load s.mem 8 p in
      let s1 : DecState σ (List ℕ) = record s {
        mem = store 8 p 0 s.mem;
        heap = s.heap ++ (ptr ∷ []);
      } in
      let rest = release_entries-Frees count (p + 8) s1 (omega (arith, h)) in
      record {
        after = rest.after;
        returns = rw (notes ptr s.mem s.heap, no_wrap) rest.returns;
        stream = rest.stream;
        heap =
            rest.heap
            ∙ append_assoc s.heap (ptr ∷ []) _
            ∙ ap (λ (l : List ℕ). s.heap ++ (ptr ∷ l))
                (pointers_agree s1.mem s.mem count (p + 8) (λ x lo hi. kept x (inr lo)));
        elsewhere = λ x out. rest.elsewhere x (inner x out) ∙ kept x (outer x out);
      }
    where
      no_wrap : (p + 8) % 2 ^ 64 ≡ p + 8
      no_wrap = omega (arith, h)

      kept : (x : ℕ) → (x < p) ⊎ (p + 8 ≤ x) → store 8 p 0 s.mem x ≡ s.mem x
      kept x out = store_bytes-Outside (little_endian 8 0) p s.mem x out

      inner : (x : ℕ) → (x < p) ⊎ (p + 8 * suc count ≤ x) → (x < p + 8) ⊎ (p + 8 + 8 * count ≤ x)
      inner x (inl l) = inl (omega (arith, l))
      inner x (inr l) = inr (omega (arith, l))

      outer : (x : ℕ) → (x < p) ⊎ (p + 8 * suc count ≤ x) → (x < p) ⊎ (p + 8 ≤ x)
      outer x (inl l) = inl l
      outer x (inr l) = inr (omega (arith, l))

  module _ (f : Field) (it : FieldIter) (s : DecState σ (List ℕ))
      (fits : load s.mem 8 it.p_data + 8 * load s.mem 4 it.p_size < 2 ^ 64)
      (entries_apart : Apart it.p_data 8 (load s.mem 8 it.p_data) (8 * load s.mem 4 it.p_size))
      (size_apart : Apart it.p_data 8 it.p_size 4) where
    -- The pointer of the field is not changed, and its count is 0 where there is one.
    record IsEmptied (o : Outcome (DecState σ (List ℕ)) (Unit {0})) : Type 0 where
      after : DecState σ (List ℕ)
      returns : o ≡ ok tt after
      stream : after.stream ≡ s.stream
      heap : after.heap ≡ s.heap ++ owned s.mem f it
      pointer : load after.mem 8 it.p_data ≡ load s.mem 8 it.p_data
      count :
          load after.mem 4 it.p_size
          ≡ (if htype f.type == Htype.repeated then 0 else load s.mem 4 it.p_size)

    release_array-IsEmptied : IsEmptied (release_array env f it s)
    unfolding release_array owned
    release_array-IsEmptied =
        by_type (htype f.type == 0x20) ((ltype f.type == 6) || (ltype f.type == 5)) refl refl
      where
        between :
            (x : ℕ)
            → it.p_data ≤ x
            → x < it.p_data + 8
            → Apart it.p_data 8 (load s.mem 8 it.p_data) (8 * load s.mem 4 it.p_size)
            → (x < load s.mem 8 it.p_data)
              ⊎ (load s.mem 8 it.p_data + 8 * load s.mem 4 it.p_size ≤ x)
        between x lo hi (inl h) = inl (omega (arith, h, hi))
        between x lo hi (inr h) = inr (omega (arith, h, lo))

        by_type :
            (a b : Bool)
            → (htype f.type == 0x20) ≡ a
            → ((ltype f.type == 6) || (ltype f.type == 5)) ≡ b
            → IsEmptied (release_array env f it s)
        by_type false b e e' = record {
          after = s;
          returns = rw (release_array, e) refl;
          stream = refl;
          heap = rw (owned, e) (sym (append-nil s.heap));
          pointer = refl;
          count = rw e refl;
        }
        by_type true false e e' = record {
          after = record s { mem = store 4 it.p_size 0 s.mem };
          returns = rw (release_array, e, e') refl;
          stream = refl;
          heap = rw (owned, e, e') (sym (append-nil s.heap));
          pointer = load-store-Apart s.mem 8 it.p_data 4 it.p_size 0 size_apart;
          count = rw e (load-store s.mem 4 it.p_size 0 (omega arith));
        }
        by_type true true e e' =
            let r =
              release_entries-Frees (load s.mem 4 it.p_size) (load s.mem 8 it.p_data) s fits in
            record {
              after = record (r.after) { mem = store 4 it.p_size 0 r.after.mem };
              returns = rw (release_array, e, e', r.returns) refl;
              stream = r.stream;
              heap = rw (owned, e, e') r.heap;
              pointer =
                  load-store-Apart r.after.mem 8 it.p_data 4 it.p_size 0 size_apart
                  ∙ load_agree r.after.mem s.mem 8 it.p_data
                      (λ x lo hi. r.elsewhere x (between x lo hi entries_apart));
              count = rw e (load-store r.after.mem 4 it.p_size 0 (omega arith));
            }

    differs : (a b : ℕ) → a ≢ b → (a == b) ≡ false
    differs a b h = ground arith

    -- Where free notes each address that it is given and leaves the memory as it is: for a pointer
    -- field that is not of a union, an extension or a submessage, whose pointer is apart from its
    -- count and from the array of pointers, as long as the count says, which does not wrap around,
    -- pb_release_single_field returns and leaves the stream as it was; it has freed, in this order
    -- and each once, the strings or byte arrays of a repeated field and then the pointer of the
    -- field; the pointer is NULL afterwards, and the count of a repeated field is 0, of another
    -- field what it was.
    pub release_single_field-frees :
        (lists fuel : ℕ)
        → get_elem? it.start it.pos ≡ some f
        → atype f.type ≡ Atype.pointer
        → htype f.type ≢ Htype.oneof
        → ltype f.type ≢ Ltype.extension
        → ltype f.type ≢ Ltype.submessage
        → (s' : DecState σ (List ℕ)) × (release_single_field env lists (suc fuel) it s ≡ ok tt s')
          × (s'.stream ≡ s.stream)
          × (s'.heap ≡ s.heap ++ (owned s.mem f it ++ (load s.mem 8 it.p_data ∷ [])))
          × (load s'.mem 8 it.p_data ≡ 0)
          × (load s'.mem 4 it.p_size
              ≡ (if htype f.type == Htype.repeated then 0 else load s.mem 4 it.p_size))
    unfolding release_single_field release_inside release_pointer
    release_single_field-frees lists fuel e pointer no_oneof no_extension no_message =
        let r = release_array-IsEmptied in
        (
          record (r.after) {
            mem = store 8 it.p_data 0 r.after.mem;
            heap = r.after.heap ++ (load r.after.mem 8 it.p_data ∷ []);
          },
          rw
              (
                release_single_field,
                e,
                differs (htype f.type) Htype.oneof no_oneof,
                differs (ltype f.type) Ltype.extension no_extension,
                differs (ltype f.type) Ltype.submessage no_message,
                (==_iff (atype f.type) Atype.pointer).1 pointer,
              )
              (bind_ok
                (λ x.
                  bind_outcome (release_block env (load x.mem 8 it.p_data) x)
                    (λ _. put 8 it.p_data 0))
                r.returns
                (bind_ok (put 8 it.p_data 0)
                  (release_block-lem (load r.after.mem 8 it.p_data) r.after) refl)),
          r.stream,
          rw (r.pointer, r.heap)
              (append_assoc s.heap (owned s.mem f it) (load s.mem 8 it.p_data ∷ [])),
          load-store r.after.mem 8 it.p_data 0 (omega arith),
          load-store-Apart r.after.mem 4 it.p_size 8 it.p_data 0 (turned size_apart) ∙ r.count,
        )
      where
        turned : Apart it.p_data 8 it.p_size 4 → Apart it.p_size 4 it.p_data 8
        turned (inl h) = inr h
        turned (inr h) = inl h
