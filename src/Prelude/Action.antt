-- ===== src/Prelude/Action.antt =====
-- Code that changes a state and may return an error: the state comes back in both cases.
use mathlib.Core.Path.{◌≡◌, refl}
use mathlib.Core.Logic.{◌⊎◌, inl, inr}
use mathlib.Core.Bool.{Bool, true, false}

pub data Result (E A : Type 0) : Type 0 where
  ok : A → Result E A
  err : E → Result E A

abbrev pub Action : Type 0 → Type 0 → Type 0 → Type 0
Action S E A = S → Result E A × S

-- What follows an outcome: the next action, or nothing after an error.
abbrev pub continue : {S E A B : Type 0} → Result E A × S → (A → Action S E B) → Result E B × S
continue (ok a, s) f = f a s
continue (err e, s) f = (err e, s)

infixl 5 ◌>>=◌ ◌>>◌
abbrev pub ◌>>=◌ : {S E A B : Type 0} → Action S E A → (A → Action S E B) → Action S E B
◌>>=◌ m f s = continue (m s) f

abbrev pub ◌>>◌ : {S E A B : Type 0} → Action S E A → Action S E B → Action S E B
m >> k = m >>= λ _. k

module _ {S E : Type 0} where
  abbrev pub pure : {A : Type 0} → A → Action S E A
  pure a s = (ok a, s)

  abbrev pub fail : {A : Type 0} → E → Action S E A
  fail e s = (err e, s)

  -- `if test { return e }`.
  abbrev pub fail_if : Bool → E → Action S E (Unit {0})
  fail_if true e s = (err e, s)
  fail_if false e s = (ok tt, s)

  abbrev pub modify : (S → S) → Action S E (Unit {0})
  modify f s = (ok tt, f s)

  abbrev pub gets : {A : Type 0} → (S → A) → Action S E A
  gets f s = (ok (f s), s)

pub Result-cases :
    {E A : Type 0} (r : Result E A) → ((a : A) × (r ≡ ok a)) ⊎ ((e : E) × (r ≡ err e))
Result-cases (ok a) = inl (a, refl)
Result-cases (err e) = inr (e, refl)

-- How a property of the outcome follows an action that comes first.
module _ {S E A B : Type 0} (P : Result E B × S → Type 0) where
  pub continue_cases :
      (p : Result E A × S) (f : A → Action S E B)
      → ((a : A) (s : S) → p ≡ (ok a, s) → P (f a s))
      → ((e : E) (s : S) → p ≡ (err e, s) → P (err e, s))
      → P (continue p f)
  continue_cases (ok a, s) f yes_case no_case = yes_case a s refl
  continue_cases (err e, s) f yes_case no_case = no_case e s refl

  -- The same for a result that leaves the state alone.
  pub value_cases :
      (r : Result E A) (s : S) (f : A → Action S E B)
      → ((a : A) → r ≡ ok a → P (f a s))
      → ((e : E) → r ≡ err e → P (err e, s))
      → P (continue (r, s) f)
  value_cases (ok a) s f yes_case no_case = yes_case a refl
  value_cases (err e) s f yes_case no_case = no_case e refl

module _ {S E B : Type 0} (P : Result E B × S → Type 0) where
  pub fail_if_cases :
      (b : Bool) (e : E) (f : Unit {0} → Action S E B) (s : S)
      → (b ≡ false → P (f tt s))
      → (b ≡ true → P (err e, s))
      → P (continue (fail_if b e s) f)
  fail_if_cases true e f s pass stop = stop refl
  fail_if_cases false e f s pass stop = pass refl

-- Where all of a chain succeeds, its first action does.
pub continue-ok :
    {S E A B : Type 0} (p : Result E A × S) (f : A → Action S E B) (b : B) (t : S)
    → continue p f ≡ (ok b, t)
    → (a : A) × (s : S) × (p ≡ (ok a, s)) × (f a s ≡ (ok b, t))
continue-ok (ok a, s) f b t h = (a, s, refl, h)
continue-ok (err e, s) f b t h = absurd cc
