-- ===== src/Common/Outcome.antt =====
-- What a C function does that works on a state `S`, returns a bool, and writes its result through
-- a pointer when it returns true.
use mathlib.Core.Option.{Option, none, some}

-- `fail` is `return false`; the state then is what the caller sees. `fault` is a memory access out
-- of range, which C leaves undefined. `stuck` is no C outcome: a loop of the model ran out of fuel.
pub data Outcome (S A : Type 0) : Type 0 where
  ok : A → S → Outcome S A
  fail : S → Outcome S A
  fault stuck : Outcome S A

abbrev pub M : Type 0 → Type 0 → Type 0
M S A = S → Outcome S A

abbrev pub bind_outcome : {S A B : Type 0} → Outcome S A → (A → M S B) → Outcome S B
bind_outcome (ok a s) k = k a s
bind_outcome (fail s) k = fail s
bind_outcome fault k = fault
bind_outcome stuck k = stuck

infixl 5 ◌>>=◌ ◌>>◌
abbrev pub ◌>>=◌ : {S A B : Type 0} → M S A → (A → M S B) → M S B
◌>>=◌ m k s = bind_outcome (m s) k

abbrev pub ◌>>◌ : {S B : Type 0} → M S (Unit {0}) → M S B → M S B
◌>>◌ m k s = bind_outcome (m s) (λ _. k)

abbrev pub return : {S A : Type 0} → A → M S A
return a s = ok a s

-- The result of a call whose `false` the caller looks into.
abbrev pub catch_outcome : {S A : Type 0} → Outcome S A → Outcome S (Option A)
catch_outcome (ok a s) = ok (some a) s
catch_outcome (fail s) = ok none s
catch_outcome fault = fault
catch_outcome stuck = stuck

abbrev pub try : {S A : Type 0} → M S A → M S (Option A)
try m s = catch_outcome (m s)
