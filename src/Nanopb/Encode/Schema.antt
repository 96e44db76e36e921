-- ===== src/Nanopb/Encode/Schema.antt =====
-- Tables of descriptors that the encoder can follow: what the generated tables of a program keep.
use test_gbksoft.Common.{ℕ, zero, suc, ◌≤◌, ◌<◌, ◌≡◌, ◌≢◌, List, [], ◌∷◌, some, get_elem?, All}
use mathlib.Core.Option.{some-injective}
use test_gbksoft.Nanopb.Types.{Field, fields, ltype, htype, IsU32}
use test_gbksoft.Nanopb.Types.Ltype
use test_gbksoft.Nanopb.Types.Htype
use test_gbksoft.Nanopb.Iter.Table.{IsTable}

-- A descriptor of the table at `k`: the integers fit, the type has an encoder, a oneof field
-- has its which_ field, and a submessage has a table, at a lower address: messages do not contain
-- themselves.
pub record IsField (k : ℕ) (f : Field) : Type 0 where
  pub tag_fits : IsU32 f.tag
  pub data_fits : IsU32 f.data_size
  pub array_fits : IsU32 f.array_size
  pub encodable : ltype f.type ≤ 9
  pub regular : ltype f.type ≢ Ltype.extension
  pub message : ltype f.type ≡ Ltype.submessage → (k' : ℕ) × (f.ptr ≡ fields k') × (k' < k)
  pub described : htype f.type ≡ Htype.oneof → f.size_offset ≢ 0

pub record IsSchema (table : ℕ → List Field) : Type 0 where
  pub size : ℕ → ℕ
  pub ends : (k : ℕ) → IsTable (table k) (size k)
  pub each : (k : ℕ) → All (IsField k) (table k)

pub All-get :
    {A : Type 0} (P : A → Type 0) (xs : List A) (i : ℕ) (a : A)
    → All P xs
    → get_elem? xs i ≡ some a
    → P a
All-get P [] i a h e = absurd (cc e)
All-get P (x ∷ xs) zero a h e = let same = some-injective x a e in rw (← same) h.0
All-get P (x ∷ xs) (suc i) a h e = All-get P xs i a h.1 e
