-- ===== src/Bertlv/Ensures.antt =====
-- Postconditions on what a read returns.
use euicc_go.Prelude.{ℕ, ◌≡◌, refl, ◌≢◌, Bytes}
use euicc_go.Bertlv.Stream.{Error, Result, handle, ok, err, panic, out_of_fuel}
use mathlib.Core.Path.{subst}

-- The read kept within its fuel, and `P` holds of its value, count and rest if it has one.
pub data Ensures {ℓ κ} {A : Type ℓ} (P : A → ℕ → Bytes → Type κ) : Result A → Type (ℓ ⊔ κ) where
  holds : {a : A} {n : ℕ} {s : Bytes} → P a n s → Ensures P (ok a n s)
  failed : {e : Error} {n : ℕ} {s : Bytes} → Ensures P (err e n s)
  panics : Ensures P panic

abbrev ValueOr {ℓ κ} : {A : Type ℓ} → (A → ℕ → Bytes → Type κ) → Type κ → Result A → Type κ
ValueOr P Q (ok a n s) = P a n s
ValueOr P Q (err e n s) = Q
ValueOr P Q panic = Q
ValueOr P Q out_of_fuel = Q

module _ {ℓ κ} {A : Type ℓ} {P : A → ℕ → Bytes → Type κ} where
  pub Ensures-out_of_fuel : {r : Result A} → Ensures P r → r ≢ out_of_fuel
  Ensures-out_of_fuel (holds h) = cc
  Ensures-out_of_fuel failed = cc
  Ensures-out_of_fuel panics = cc

  Ensures-ValueOr : {r : Result A} (Q : Type κ) → Q → Ensures P r → ValueOr P Q r
  Ensures-ValueOr Q q (holds h) = h
  Ensures-ValueOr Q q failed = q
  Ensures-ValueOr Q q panics = q

  pub Ensures-ok : {r : Result A} {a : A} {n : ℕ} {s : Bytes} → Ensures P r → r ≡ ok a n s → P a n s
  Ensures-ok (holds h) e = subst (ValueOr P (Unit {κ})) e h
  Ensures-ok failed e = cc
  Ensures-ok panics e = cc

  pub Ensures-intro :
      (r : Result A)
      → r ≢ out_of_fuel
      → ((a : A) (n : ℕ) (s : Bytes) → r ≡ ok a n s → P a n s)
      → Ensures P r
  Ensures-intro (ok a n s) h k = holds (k a n s refl)
  Ensures-intro (err e n s) h k = failed
  Ensures-intro panic h k = panics
  Ensures-intro out_of_fuel h k = absurd (h refl)

  pub Ensures-handle {ℓ' κ'} :
      {B : Type ℓ'} {Q : B → ℕ → Bytes → Type κ'} {r : Result A}
      {on_error : Error → ℕ → Bytes → Result B} {next : A → ℕ → Bytes → Result B}
      → Ensures P r
      → ((e : Error) (n : ℕ) (s : Bytes) → Ensures Q (on_error e n s))
      → ((a : A) (n : ℕ) (s : Bytes) → P a n s → Ensures Q (next a n s))
      → Ensures Q (handle r on_error next)
  Ensures-handle (holds h) f k = k _ _ _ h
  Ensures-handle (failed {e} {n} {s}) f k = f e n s
  Ensures-handle panics f k = panics
