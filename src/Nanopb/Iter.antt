-- ===== src/Nanopb/Iter.antt =====
-- pb_common.c: the iterator over the descriptors of a message.
pub mod Table
pub mod Find
pub mod Spot
pub mod Placed
use test_gbksoft.Common.{
  ℕ, zero, suc, ◌+◌, ◌-◌, ◌*◌, ◌%◌, ◌^◌, Bool, true, false, not, ◌&&◌, leb, ◌==◌,
}
use test_gbksoft.Common.{if◌then◌else◌, Option, none, some, List, length, get_elem?}
use test_gbksoft.Common.Outcome.{Outcome, ok, fault, stuck, M, bind_outcome}
use test_gbksoft.Nanopb.Types.{Field, ltype, htype, atype, size_max}
use test_gbksoft.Nanopb.Types.Ltype
use test_gbksoft.Nanopb.Types.Htype
use test_gbksoft.Nanopb.Types.Atype

-- pb_field_iter_t. `start` is the table of descriptors, `pos` the place of the current one in it;
-- the other pointers are addresses.
pub record FieldIter : Type 0 where
  pub start : List Field
  pub pos : ℕ
  pub required_field_index : ℕ
  pub dest_struct : ℕ
  pub p_data : ℕ
  pub p_size : ℕ

-- The functions never fail: what they return is the value, true or false.
module _ {S A : Type 0} where
  -- `*field`, for the descriptor at a place of the table, if there is one.
  abbrev pub with_field : Option Field → (Field → Outcome S A) → Outcome S A
  with_field none k = fault
  with_field (some f) k = k f

-- An address and a pb_ssize_t.
abbrev pub add_signed : ℕ → ℕ → ℕ
add_signed address offset =
    if leb (2 ^ 31) offset
    then (address + (2 ^ 64 - 2 ^ 32 + offset)) % 2 ^ 64
    else (address + offset) % 2 ^ 64

-- pb_field_iter_begin
unfoldable pub begin_at : List Field → ℕ → Field → FieldIter
begin_at fields dest_struct first =
    let p = (dest_struct + first.data_offset) % 2 ^ 64 in
    record {
      start = fields;
      pos = 0;
      required_field_index = 0;
      dest_struct = dest_struct;
      p_data = p;
      p_size = add_signed p first.size_offset;
    }

unfoldable pub begin : List Field → ℕ → Outcome FieldIter Bool
unfolding begin_at
begin fields dest_struct =
    with_field (get_elem? fields 0)
      λ first. ok (not (first.tag == 0)) (begin_at fields dest_struct first)

-- The size of a field in the structure.
prev_size : Field → ℕ
prev_size prev =
    if (atype prev.type == Atype.static) && (htype prev.type == Htype.repeated)
    then prev.data_size * prev.array_size % 2 ^ 64
    else if atype prev.type == Atype.pointer
    then 8
    else prev.data_size

-- The else part of pb_field_iter_next, with `pos` at the next field.
pub advance : Field → Field → FieldIter → FieldIter
unfolding prev_size
advance prev cur it =
    let p = (it.p_data + prev_size prev + cur.data_offset) % 2 ^ 64 in
    let index = it.required_field_index in
    if (htype prev.type == Htype.oneof)
      && (htype cur.type == Htype.oneof)
      && (cur.data_offset == size_max)
    then it
    else record it {
      required_field_index =
          if htype prev.type == Htype.required then (index + 1) % 2 ^ 32 else index;
      p_data = p;
      p_size = add_signed p cur.size_offset;
    }

-- Past the increment of `pos`.
pub next_from : Field → Field → FieldIter → Outcome FieldIter Bool
unfolding advance begin
next_from prev cur it =
    if cur.tag == 0
    then bind_outcome (begin it.start it.dest_struct) (λ _. ok false)
    else ok true (advance prev cur it)

-- pb_field_iter_next
unfoldable pub next : FieldIter → Outcome FieldIter Bool
unfolding next_from
next it = with_field (get_elem? it.start it.pos) λ prev.
    if prev.tag == 0
    then ok false it
    else with_field (get_elem? it.start (suc it.pos))
        λ cur. next_from prev cur (record it { pos = suc it.pos })

-- The test of pb_field_iter_find.
abbrev pub wanted : ℕ → Field → Bool
wanted tag f = (f.tag == tag) && not (ltype f.type == Ltype.extension)

-- The do-while of pb_field_iter_find, which ends at `start`.
unfoldable pub find_loop : ℕ → ℕ → ℕ → FieldIter → Outcome FieldIter Bool
find_loop zero start tag it = stuck
find_loop (suc fuel) start tag it = with_field (get_elem? it.start it.pos) λ f.
    let more : Outcome FieldIter Bool = bind_outcome (next it) λ _ it'.
      let again : Outcome FieldIter Bool = find_loop fuel start tag it' in
      if it'.pos == start then ok false it' else again in
    if wanted tag f then ok true it else more

-- pb_field_iter_find. Each round is at another field of the table.
unfoldable pub find : ℕ → FieldIter → Outcome FieldIter Bool
unfolding find_loop
find tag it = find_loop (length it.start) it.pos tag it
