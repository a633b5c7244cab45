-- ===== src/Prelude/Masks.antt =====
-- Masks and shifts of one byte as arithmetic; each is a table of at most 256 entries.
use Prim.Native.Nat.{ℕ, zero, suc, ◌+◌, ◌*◌, ◌/◌, ◌%◌, ◌<◌, bit_and, bit_or}
use mathlib.Core.Path.{◌≡◌, refl}
use mathlib.Core.Bool.{Bool, false, true}
use mathlib.Core.Logic.{◌⊎◌, inl, inr}
use native.Mathlib.Omega.{arith}
use euicc_go.Prelude.Bitwise.{bit_or_add}
use euicc_go.Prelude.Tests.{◌==◌, if◌then◌else◌}

-- The two functions have the same values at all places before the given one.
unfoldable pub same_values : (ℕ → ℕ) → (ℕ → ℕ) → ℕ → Bool
same_values f g zero = true
same_values f g (suc k) = if f k == g k then same_values f g k else false

last_or_earlier : (k x : ℕ) → x < suc k → (x ≡ k) ⊎ (x < k)
last_or_earlier k x h = ground arith

module _ (f g : ℕ → ℕ) where
  same_values_step :
      (k : ℕ) → same_values f g (suc k) ≡ true → (f k ≡ g k) × (same_values f g k ≡ true)
  unfolding same_values
  same_values_step k h = ground arith

  pub agree : (places : ℕ) → same_values f g places ≡ true → (x : ℕ) → x < places → f x ≡ g x
  agree zero same x before = absurd (omega arith)
  agree (suc k) same x before =
      let (here, earlier) = same_values_step k same in
      elim (last_or_earlier k x before) [ inl e ↦ rw e here | inr l ↦ agree k earlier x l ]

pub and_1f : (b : ℕ) → b < 256 → bit_and b 0x1f ≡ b % 32
unfolding same_values
and_1f = agree _ _ 256 refl

pub and_7f : (b : ℕ) → b < 256 → bit_and b 0x7f ≡ b % 128
unfolding same_values
and_7f = agree _ _ 256 refl

pub or_80 : (b : ℕ) → b < 128 → bit_or b 0x80 ≡ b + 128
unfolding same_values
or_80 = agree _ _ 128 refl

pub and_0f : (b : ℕ) → b < 256 → bit_and b 0x0f ≡ b % 16
unfolding same_values
and_0f = agree _ _ 256 refl

pub and_80 : (b : ℕ) → b < 256 → bit_and b 0x80 ≡ b / 128 * 128
unfolding same_values
and_80 = agree _ _ 256 refl

pub and_1 : (b : ℕ) → b < 256 → bit_and b 1 ≡ b % 2
unfolding same_values
and_1 = agree _ _ 256 refl

-- The first byte of a tag: two bits of class, one of form, five of number.
pub tag_byte :
    (c f v : ℕ) → c < 4 → f < 2 → v < 32 → bit_or (bit_or (c * 64) (f * 32)) v ≡ c * 64 + f * 32 + v
tag_byte c f v hc hf hv =
    rw (bit_or_add 6 (c * 64) c (f * 32) (omega arith) (omega arith))
      (bit_or_add 5 (c * 64 + f * 32) (c * 2 + f) v (omega arith) (omega arith))
