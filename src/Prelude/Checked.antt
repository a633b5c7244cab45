-- ===== src/Prelude/Checked.antt =====
-- Outcomes of code that returns an error or panics, and keeps no state.
use mathlib.Core.Bool.{Bool, true, false}
use mathlib.Core.Option.{Option, none, some}

-- A value, an error, or a panic.
pub data Checked (E A : Type 0) : Type 0 where
  ok : A → Checked E A
  err : E → Checked E A
  panic : Checked E A

infixl 5 ◌>>=◌
abbrev pub ◌>>=◌ : {E A B : Type 0} → Checked E A → (A → Checked E B) → Checked E B
ok a >>= f = f a
err e >>= f = err e
panic >>= f = panic

-- `if test { return e }`.
abbrev pub refuse_if : {E : Type 0} → Bool → E → Checked E (Unit {0})
refuse_if true e = err e
refuse_if false e = ok tt

-- What a pointer points to; `none` is nil.
abbrev pub pointed : {E A : Type 0} → Option A → Checked E A
pointed none = panic
pointed (some a) = ok a
