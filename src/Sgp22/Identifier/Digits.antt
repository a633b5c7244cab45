-- ===== src/Sgp22/Identifier/Digits.antt =====
-- Identifiers of decimal digits, encoded and decoded (v2/identifier.go).
use euicc_go.Prelude.{
  ℕ, suc, ◌+◌, ◌-◌, ◌*◌, ◌/◌, ◌%◌, ◌≤◌, ◌<◌, ◌≡◌, refl, ap, false, Bool-cases, inl, inr, none, some,
  List, [], ◌∷◌, ◌++◌, map, Bytes, length, ◌==◌, All, arith, IsByte, length-append_bytes,
}
use euicc_go.Prelude.Masks.{agree, same_values}
use euicc_go.Sgp22.Identifier.{
  Text, is_invalid, any_invalid, digit_value, decode_string, hex_digit, encode_to_string,
  swap_halves, binary_coded_decimal_encode, before_last_f, or_all, binary_coded_decimal_decode,
}

abbrev pub IsDigit : ℕ → Type 0
IsDigit c = (48 ≤ c) × (c ≤ 57)

swap_halves-swap_halves : (b : ℕ) → b < 256 → swap_halves (swap_halves b) ≡ b
unfolding swap_halves same_values
swap_halves-swap_halves = agree (λ b. swap_halves (swap_halves b)) (λ b. b) 256 refl

map-swap_halves : (bs : Bytes) → All IsByte bs → map swap_halves (map swap_halves bs) ≡ bs
map-swap_halves [] h = refl
map-swap_halves (b ∷ bs) (h, hs) = rw (swap_halves-swap_halves b h, map-swap_halves bs hs)

-- The characters that `decode_string` meets: digits, and the 'F' that fills up.
abbrev IsFigure : ℕ → Type 0
IsFigure c = (48 ≤ c) × (c ≤ 70)

any_invalid-digits : (value : Text) → All IsDigit value → any_invalid value ≡ false
unfolding any_invalid
any_invalid-digits [] h = refl
any_invalid-digits (c ∷ value) (h, hs) =
    let v : is_invalid c ≡ false = ground arith in rw v (any_invalid-digits value hs)

before_last_f-digits : (value : Text) → All IsDigit value → before_last_f value ≡ none
unfolding before_last_f
before_last_f-digits [] h = refl
before_last_f-digits (c ∷ value) (h, hs) =
    let v : (c == 102) ≡ false = ground arith in rw (before_last_f-digits value hs, v)

before_last_f-append : (value : Text) → before_last_f (value ++ (102 ∷ [])) ≡ some value
unfolding before_last_f
before_last_f-append [] = refl
before_last_f-append (c ∷ value) = rw (before_last_f-append value)

-- A pair of digits is one byte, and the byte shows the pair.
digit_value_lem : (c : ℕ) → IsDigit c → digit_value c ≡ c - 48
digit_value_lem c h = ground arith

pair_back :
    (a b : ℕ)
    → IsDigit a
    → IsDigit b
    → (hex_digit ((digit_value a * 16 + digit_value b) / 16) ≡ a)
      × (hex_digit ((digit_value a * 16 + digit_value b) % 16) ≡ b)
      × IsByte (digit_value a * 16 + digit_value b)
pair_back a b ha hb =
    rw (digit_value_lem a ha, digit_value_lem b hb) (ground arith, ground arith, omega arith)

last_back :
    (a : ℕ)
    → IsDigit a
    → (hex_digit ((digit_value a * 16 + 15) / 16) ≡ a)
      × (hex_digit ((digit_value a * 16 + 15) % 16) ≡ 102)
      × IsByte (digit_value a * 16 + 15)
last_back a ha = rw (digit_value_lem a ha) (ground arith, ground arith, omega arith)

abbrev Shows : Bytes → Text → Type 0
Shows bytes text =
    (encode_to_string bytes ≡ text) × All IsByte bytes × (2 * length bytes ≡ length text)

Shows-pair :
    (a b : ℕ) (bytes : Bytes) (text : Text)
    → IsDigit a
    → IsDigit b
    → Shows bytes text
    → Shows ((digit_value a * 16 + digit_value b) ∷ bytes) (a ∷ b ∷ text)
unfolding encode_to_string
Shows-pair a b bytes text ha hb (e, h, l) =
    let (hi, lo, byte) = pair_back a b ha hb in (rw (hi, lo, e), (byte, h), omega arith)

even-Shows :
    (value : Text) → All IsDigit value → length value % 2 ≡ 0 → Shows (decode_string value) value
unfolding decode_string encode_to_string
even-Shows [] h e = (refl, tt, refl)
even-Shows (a ∷ []) h e = absurd (omega arith)
even-Shows (a ∷ b ∷ value) (ha, (hb, h)) e =
    Shows-pair a b (decode_string value) value ha hb (even-Shows value h (omega arith))

odd-Shows :
    (value : Text)
    → All IsDigit value
    → length value % 2 ≡ 1
    → Shows (decode_string (value ++ (70 ∷ []))) (value ++ (102 ∷ []))
unfolding decode_string encode_to_string
odd-Shows [] h e = absurd (omega arith)
odd-Shows (a ∷ []) (ha, h) e =
    let (hi, lo, byte) = last_back a ha in (rw (hi, lo), (byte, tt), refl)
odd-Shows (a ∷ b ∷ value) (ha, (hb, h)) e =
    Shows-pair a b (decode_string (value ++ (70 ∷ []))) (value ++ (102 ∷ [])) ha hb
      (odd-Shows value h (omega arith))

length-map_swap : (bs : Bytes) → length (map swap_halves bs) ≡ length bs
length-map_swap [] = refl
length-map_swap (b ∷ bs) = ap suc (length-map_swap bs)

-- What is encoded from a text that its bytes show is decoded to the part in front of the 'f'.
decoded :
    (value bytes text : List ℕ)
    → Shows bytes text
    → or_all text (before_last_f text) ≡ value
    → binary_coded_decimal_decode (map swap_halves bytes) ≡ value
unfolding binary_coded_decimal_decode
decoded value bytes text (e, h, l) f = rw (map-swap_halves bytes h, e) f

-- Every text of decimal digits, of either parity, is encoded without an error, two digits to a byte
-- (rounded up), and decoding the bytes gives the text back.
pub binary_coded_decimal_round_trip :
    (value : Text)
    → All IsDigit value
    → (id : Bytes) × (binary_coded_decimal_encode value ≡ some id)
      × (binary_coded_decimal_decode id ≡ value)
      × (length id ≡ (length value + 1) / 2)
unfolding binary_coded_decimal_encode
binary_coded_decimal_round_trip value h = elim (Bool-cases ((length value % 2) == 0)) [
  | inl even ↦
      let e : length value % 2 ≡ 0 = ground arith in
      let s = even-Shows value h e in
      (
        map swap_halves (decode_string value),
        rw (any_invalid-digits value h, even),
        decoded value (decode_string value) value s (rw (before_last_f-digits value h)),
        omega (arith, length-map_swap (decode_string value), s.2),
      )
  | inr odd ↦
      let e : length value % 2 ≡ 1 = ground arith in
      let s = odd-Shows value h e in
      (
        map swap_halves (decode_string (value ++ (70 ∷ []))),
        rw (any_invalid-digits value h, odd),
        decoded value (decode_string (value ++ (70 ∷ []))) (value ++ (102 ∷ [])) s
            (rw (before_last_f-append value)),
        omega (
          arith,
          length-map_swap (decode_string (value ++ (70 ∷ []))),
          s.2,
          length-append_bytes value (102 ∷ []),
        ),
      )
]
