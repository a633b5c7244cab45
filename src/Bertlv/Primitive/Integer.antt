-- ===== src/Bertlv/Primitive/Integer.antt =====
-- Integers of 64 bits written and read back (bertlv/primitive/integer.go).
use euicc_go.Prelude.{
  ℕ, zero, suc, ◌+◌, ◌-◌, ◌*◌, ◌/◌, ◌%◌, ◌^◌, ◌≤◌, ◌<◌, ◌≡◌, ◌∙◌, refl, ap, sym, bit_and, bit_xor,
  bit_xor_shifted, true, false, ◌&&◌, ◌||◌, not, ◌⊎◌, inl, inr, Bool-cases, [], ◌∷◌, Bytes, IsByte,
  All, length, to_byte, ltb, ◌==◌, if◌then◌else◌, arith,
}
use euicc_go.Prelude.Masks.{and_80}
use euicc_go.Bertlv.Primitive.{
  parsed, shift_right, fill, without_sign_bytes, marshal_int, from_sign, significant, accumulate,
  sign_word, unmarshal_int,
}

shift_right-lt : (x : ℕ) → x < 2 ^ 64 → shift_right x < 2 ^ 64
shift_right-lt x h = ground arith

-- What a byte that follows makes of the value.
next_byte : (n b : ℕ) → b < 256 → bit_xor (n * 2 ^ 8 % 2 ^ 64) b ≡ n * 256 % 2 ^ 64 + b
next_byte n b h =
    let e : n * 2 ^ 8 % 2 ^ 64 ≡ n % 2 ^ 56 * 2 ^ 8 = omega arith in
    rw e (bit_xor_shifted 8 (n % 2 ^ 56) b h ∙ omega arith)

shift_back : (x : ℕ) → x < 2 ^ 64 → shift_right x * 256 % 2 ^ 64 + x % 256 ≡ x
shift_back x h = ground arith

abbrev shifts : ℕ → ℕ → ℕ
shifts zero x = x
shifts (suc k) x = shifts k (shift_right x)

accumulate-fill :
    (k x : ℕ) (buf : Bytes)
    → x < 2 ^ 64
    → accumulate 8 (shifts k x) (fill k x buf) ≡ accumulate 8 x buf
unfolding accumulate fill
accumulate-fill zero x buf h = refl
accumulate-fill (suc k) x buf h =
    accumulate-fill k (shift_right x) (to_byte x ∷ buf) (shift_right-lt x h)
    ∙ ap (λ n. accumulate 8 n buf)
        (next_byte (shift_right x) (x % 256) (omega arith) ∙ shift_back x h)

fill-IsByte : (k x : ℕ) (buf : Bytes) → All IsByte buf → All IsByte (fill k x buf)
unfolding fill
fill-IsByte zero x buf h = h
fill-IsByte (suc k) x buf h = fill-IsByte k (shift_right x) (to_byte x ∷ buf) (omega arith, h)

length-fill : (k x : ℕ) (buf : Bytes) → length (fill k x buf) ≡ k + length buf
unfolding fill
length-fill zero x buf = omega arith
length-fill (suc k) x buf = omega (arith, length-fill k (shift_right x) (to_byte x ∷ buf))

-- The sign fills up from above.
positive_shift : (x m : ℕ) → x < 256 * m → 256 * m ≤ 2 ^ 63 → shift_right x < m
positive_shift x m h h' = ground arith

negative_shift :
    (x m : ℕ) → x < 2 ^ 64 → 2 ^ 64 ≤ x + 256 * m → 256 * m ≤ 2 ^ 63 → 2 ^ 64 ≤ shift_right x + m
negative_shift x m h h' h'' = ground arith

abbrev value : Bytes → ℕ
value s = accumulate 8 (sign_word 8 s) s

last_shift :
    (y : ℕ)
    → y < 2 ^ 64
    → (y < 128) ⊎ (2 ^ 64 ≤ y + 128)
    → (if ltb 0x7f (to_byte y) then 2 ^ 64 - 1 else 0) ≡ shift_right y
last_shift y h (inl l) = ground arith
last_shift y h (inr l) = ground arith

shifts-lt : (k x : ℕ) → x < 2 ^ 64 → shifts k x < 2 ^ 64
shifts-lt zero x h = h
shifts-lt (suc k) x h = shifts-lt k (shift_right x) (shift_right-lt x h)

seven_shifts : (x : ℕ) → x < 2 ^ 64 → (shifts 7 x < 128) ⊎ (2 ^ 64 ≤ shifts 7 x + 128)
seven_shifts x h = elim (Bool-cases (ltb x (2 ^ 63))) [
  | inl e ↦
      let p₀ : x < 256 * 2 ^ 55 = ground arith in
      let p₁ = positive_shift x (2 ^ 55) p₀ (omega arith) in
      let p₂ = positive_shift _ (2 ^ 47) p₁ (omega arith) in
      let p₃ = positive_shift _ (2 ^ 39) p₂ (omega arith) in
      let p₄ = positive_shift _ (2 ^ 31) p₃ (omega arith) in
      let p₅ = positive_shift _ (2 ^ 23) p₄ (omega arith) in
      let p₆ = positive_shift _ (2 ^ 15) p₅ (omega arith) in
      inl (positive_shift _ 128 p₆ (omega arith))
  | inr e ↦
      let p₀ : 2 ^ 64 ≤ x + 256 * 2 ^ 55 = ground arith in
      let p₁ = negative_shift x (2 ^ 55) h p₀ (omega arith) in
      let p₂ = negative_shift _ (2 ^ 47) (shifts-lt 1 x h) p₁ (omega arith) in
      let p₃ = negative_shift _ (2 ^ 39) (shifts-lt 2 x h) p₂ (omega arith) in
      let p₄ = negative_shift _ (2 ^ 31) (shifts-lt 3 x h) p₃ (omega arith) in
      let p₅ = negative_shift _ (2 ^ 23) (shifts-lt 4 x h) p₄ (omega arith) in
      let p₆ = negative_shift _ (2 ^ 15) (shifts-lt 5 x h) p₅ (omega arith) in
      inr (negative_shift _ 128 (shifts-lt 6 x h) p₆ (omega arith))
]

sign_word-fill : (x : ℕ) → x < 2 ^ 64 → sign_word 8 (fill 8 x []) ≡ shifts 8 x
unfolding fill
sign_word-fill x h = last_shift (shifts 7 x) (shifts-lt 7 x h) (seven_shifts x h)

value-fill : (x : ℕ) → x < 2 ^ 64 → value (fill 8 x []) ≡ x
unfolding accumulate
value-fill x h =
    ap (λ n. accumulate 8 n (fill 8 x [])) (sign_word-fill x h) ∙ accumulate-fill 8 x [] h

-- A sign byte in front, and the next byte of the same sign, do not change the value.
sign_byte :
    (b c : ℕ) (s : Bytes)
    → ((b ≡ 0) × (c < 128)) ⊎ ((b ≡ 0xff) × (128 ≤ c))
    → value (b ∷ c ∷ s) ≡ value (c ∷ s)
unfolding accumulate
sign_byte b c s (inl (e, h)) = let small : ltb 0x7f c ≡ false = ground arith in rw (e, small) refl
sign_byte b c s (inr (e, h)) = let large : ltb 0x7f c ≡ true = ground arith in rw (e, large) refl

without_sign_bytes_value : (s : Bytes) → All IsByte s → value (without_sign_bytes s) ≡ value s
unfolding without_sign_bytes
without_sign_bytes_value [] h = refl
without_sign_bytes_value (b ∷ []) h = refl
without_sign_bytes_value (b ∷ c ∷ s) (hb, (hc, hs)) =
    elim (Bool-cases
      (((b == 0) && (bit_and c 0x80 == 0)) || ((b == 0xff) && (bit_and c 0x80 == 0x80)))) [
        | inl e ↦ rw e (
            without_sign_bytes_value (c ∷ s) (hc, hs)
            ∙ sym (sign_byte b c s (ground (arith, and_80 c hc))))
        | inr e ↦ rw e refl
      ]

same_sign :
    (first b c : ℕ)
    → (first ≡ 0) ⊎ (first ≡ 0xff)
    → c < 256
    → (not (b == first) || not (c / 2 ^ 7 == first / 2 ^ 7)) ≡ false
    → ((b ≡ 0) × (c < 128)) ⊎ ((b ≡ 0xff) × (128 ≤ c))
same_sign first b c (inl k) h e = inl (ground arith, ground arith)
same_sign first b c (inr k) h e = inr (ground arith, ground arith)

from_sign_value :
    (first : ℕ) (s : Bytes)
    → (first ≡ 0) ⊎ (first ≡ 0xff)
    → All IsByte s
    → value (from_sign first s) ≡ value s
unfolding from_sign
from_sign_value first [] k h = refl
from_sign_value first (b ∷ []) k h = refl
from_sign_value first (b ∷ c ∷ []) k h = refl
from_sign_value first (b ∷ c ∷ d ∷ s) k (hb, hs) =
    elim (Bool-cases (not (b == first) || not (c / 2 ^ 7 == first / 2 ^ 7))) [
      | inl e ↦ rw e refl
      | inr e ↦ rw e (
          from_sign_value first (c ∷ d ∷ s) k hs
          ∙ sym (sign_byte b c (d ∷ s) (same_sign first b c k (hs.0) e)))
    ]

significant_value : (s : Bytes) → All IsByte s → value (significant s) ≡ value s
significant_value [] h = refl
significant_value (b ∷ s) h = elim (Bool-cases ((b == 0) || (b == 0xff))) [
  | inl e ↦ rw e (from_sign_value b (b ∷ s) (ground arith) h)
  | inr e ↦ rw e refl
]

abbrev Measured : Bytes → Type 0
Measured s = (1 ≤ length s) × (length s ≤ 8)

without_sign_bytes-Measured : (s : Bytes) → Measured s → Measured (without_sign_bytes s)
unfolding without_sign_bytes
without_sign_bytes-Measured [] h = h
without_sign_bytes-Measured (b ∷ []) h = h
without_sign_bytes-Measured (b ∷ c ∷ s) h =
    elim (Bool-cases
      (((b == 0) && (bit_and c 0x80 == 0)) || ((b == 0xff) && (bit_and c 0x80 == 0x80)))) [
        | inl e ↦ rw e (without_sign_bytes-Measured (c ∷ s) (omega arith, omega (arith, h.1)))
        | inr e ↦ rw e h
      ]

without_sign_bytes-IsByte : (s : Bytes) → All IsByte s → All IsByte (without_sign_bytes s)
unfolding without_sign_bytes
without_sign_bytes-IsByte [] h = h
without_sign_bytes-IsByte (b ∷ []) h = h
without_sign_bytes-IsByte (b ∷ c ∷ s) (hb, hs) =
    elim (Bool-cases
      (((b == 0) && (bit_and c 0x80 == 0)) || ((b == 0xff) && (bit_and c 0x80 == 0x80)))) [
        | inl e ↦ rw e (without_sign_bytes-IsByte (c ∷ s) hs)
        | inr e ↦ rw e (hb, hs)
      ]

unmarshal_int-value : (s : Bytes) → Measured s → All IsByte s → unmarshal_int 8 s ≡ parsed (value s)
unfolding unmarshal_int
unmarshal_int-value [] h bs = absurd (omega (arith, h.0))
unmarshal_int-value (b ∷ s) h bs =
    let fits : ltb 8 (length (b ∷ s)) ≡ false = ground (arith, h.1) in
    rw fits (ap parsed (significant_value (b ∷ s) bs))

-- Every int64, as its word, is written in one to eight bytes and read back.
pub unmarshal_int-marshal_int :
    (x : ℕ)
    → x < 2 ^ 64
    → (unmarshal_int 8 (marshal_int x) ≡ parsed x)
      × (1 ≤ length (marshal_int x))
      × (length (marshal_int x) ≤ 8)
unfolding marshal_int
unmarshal_int-marshal_int x h =
    let bytes = fill-IsByte 8 x [] tt in
    let measured : Measured (fill 8 x []) =
      (omega (arith, length-fill 8 x []), omega (arith, length-fill 8 x [])) in
    let (least, most) = without_sign_bytes-Measured (fill 8 x []) measured in
    (
      unmarshal_int-value _ (least, most) (without_sign_bytes-IsByte (fill 8 x []) bytes)
          ∙ ap parsed (without_sign_bytes_value (fill 8 x []) bytes ∙ value-fill x h),
      least,
      most,
    )
