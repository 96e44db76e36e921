-- ===== src/Nanopb/Encode/Unset.antt =====
-- Which fields of a message count as not set, apart from the loops of pb_encode.c.
use test_gbksoft.Common.{
  ℕ, zero, suc, ◌+◌, ◌-◌, ◌%◌, ◌^◌, ltb, Bool, true, false, not, ◌&&◌, ◌||◌, ◌==◌, if◌then◌else◌,
  Option, none, some, List, [], ◌∷◌,
}
use test_gbksoft.Nanopb.Types.{Field, FieldPtr, null, fields, default, ltype, htype, atype}
use test_gbksoft.Nanopb.Memory.{Mem, load}
use test_gbksoft.Nanopb.Iter.Placed.{placed}

-- An address, and an offset of 32 bits with a sign.
abbrev pub shifted : ℕ → ℕ → ℕ
shifted p offset =
    if ltb offset (2 ^ 31) then (p + offset) % 2 ^ 64 else (p + offset + 2 ^ 64 - 2 ^ 32) % 2 ^ 64

module _ (mem : Mem) where
  -- The count, the tag of a union or the has_ flag of a field, where it has one.
  abbrev pub presence : Field → ℕ → Option ℕ
  presence f p =
      if (htype f.type == 0x20) || (htype f.type == 0x30)
      then some (load mem 4 (shifted p f.size_offset))
      else if (htype f.type == 0x10) && not (f.size_offset == 0)
      then some (load mem 1 (shifted p f.size_offset))
      else none

  -- What is zero in a value that is not set: the length of bytes, the first character of a string,
  -- the declared length of bytes that have always that, or the whole value as one integer.
  abbrev pub measure : Field → ℕ → ℕ
  measure f p =
      if not (atype f.type == 0)
      then load mem f.data_size p
      else if ltype f.type == 5
      then load mem 4 p
      else if ltype f.type == 6
      then load mem 1 p
      else if ltype f.type == 9
      then f.data_size
      else load mem f.data_size p

abbrev pub is_message : Field → Bool
is_message f = (atype f.type == 0) && (ltype f.type == 7)

-- All the fields of a structure.
unfoldable pub all_unset : (Field → ℕ → Bool) → List (Field × ℕ) → Bool
all_unset check [] = true
all_unset check ((f, p) ∷ rest) = check f p && all_unset check rest

abbrev pub by_presence : Option ℕ → Bool → Bool
by_presence none value = value
by_presence (some n) value = n == 0

module _ (mem : Mem) (table : ℕ → List Field) where
  unfoldable pub message_unset : (Field → ℕ → Bool) → FieldPtr → ℕ → Bool
  unfolding all_unset
  message_unset check null p = false
  message_unset check (fields k) p = all_unset check (placed (table k) p)
  message_unset check (default bytes) p = false

  -- Each level of submessages takes one of the fuel.
  unfoldable pub unset : ℕ → Field → ℕ → Bool
  unfolding message_unset
  unset zero f p = false
  unset (suc fuel) f p =
      let below = message_unset (unset fuel) f.ptr p in
      not (htype f.type == 0x00)
      && by_presence (presence mem f p) (if is_message f then below else measure mem f p == 0)
