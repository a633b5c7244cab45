-- ===== src/Sgp22/Profile/Digits.antt =====
-- The digits of a network's codes (v2/profile.go).
use euicc_go.Prelude.{
  ℕ, ◌+◌, ◌*◌, ◌/◌, ◌^◌, ◌<◌, ◌≡◌, refl, true, false, Option, none, some, [], ◌∷◌, Bytes, ◌==◌,
  arith,
}
use euicc_go.Prelude.Masks.{and_0f}
use euicc_go.Prelude.Checked.{ok}
use euicc_go.Sgp22.Profile.{OperatorId, low_digit, high_digit, mcc, mnc}

-- The three bytes of 3GPP TS 24.008: two digits to a byte, the lower half first. The third digit of the
-- network code stands with that of the country, 15 if there is none.
abbrev pub plmn_bytes : ℕ → ℕ → ℕ → ℕ → ℕ → Option ℕ → Bytes
plmn_bytes a b c x y third =
    (b * 16 + a) ∷ (elim third [ none ↦ 15 * 16 + c | some z ↦ z * 16 + c ]) ∷ (y * 16 + x) ∷ []

abbrev pub third_digit : Option ℕ → Bytes
third_digit none = []
third_digit (some z) = (48 + z) ∷ []

abbrev pub IsDigitOrNone : Option ℕ → Type 0
IsDigitOrNone none = Unit
IsDigitOrNone (some z) = z < 10

low_digit_lem : (h l : ℕ) → h < 16 → l < 10 → low_digit (h * 16 + l) ≡ 48 + l
low_digit_lem h l hh hl = rw (and_0f (h * 16 + l) (omega arith)) (omega arith)

high_digit_lem : (h l : ℕ) → h < 10 → l < 10 → high_digit (h * 16 + l) ≡ 48 + h
high_digit_lem h l hh hl = omega arith

module _ (id : OperatorId) (a b c x y : ℕ) (ha : a < 10) (hb : b < 10) (hc : c < 10) (hx : x < 10)
    (hy : y < 10) where
  -- A network's codes of two or three digits, encoded after 3GPP TS 24.008 in three bytes: MCC and MNC are their
  -- digits in ASCII.
  pub mcc-mnc :
      (third : Option ℕ)
      → IsDigitOrNone third
      → id.plmn ≡ plmn_bytes a b c x y third
      → (mcc id ≡ ok ((48 + a) ∷ (48 + b) ∷ (48 + c) ∷ []))
        × (mnc id ≡ ok ((48 + x) ∷ (48 + y) ∷ third_digit third))
  unfolding mcc mnc
  mcc-mnc none hz e =
      let fifteen : ((15 * 16 + c) / 2 ^ 4 == 0xf) ≡ true = ground arith in
      (
        rw
            (
              e,
              low_digit_lem b a (omega arith) ha,
              high_digit_lem b a hb ha,
              low_digit_lem 15 c (omega arith) hc,
            )
            refl,
        rw (e, fifteen, low_digit_lem y x (omega arith) hx, high_digit_lem y x hy hx) refl,
      )
  mcc-mnc (some z) hz e =
      let third : ((z * 16 + c) / 2 ^ 4 == 0xf) ≡ false = ground arith in
      (
        rw
            (
              e,
              low_digit_lem b a (omega arith) ha,
              high_digit_lem b a hb ha,
              low_digit_lem z c (omega arith) hc,
            )
            refl,
        rw
            (
              e,
              third,
              low_digit_lem y x (omega arith) hx,
              high_digit_lem y x hy hx,
              high_digit_lem z c hz hc,
            )
            refl,
      )
