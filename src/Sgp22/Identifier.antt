-- ===== src/Sgp22/Identifier.antt =====
-- v2/identifier.go: ICCID and IMEI, decimal digits two to a byte with the first one in the low half.
pub mod Digits
use euicc_go.Prelude.{
  ℕ, ◌+◌, ◌-◌, ◌*◌, ◌/◌, ◌%◌, ◌^◌, bit_and, bit_or, Bool, true, false, ◌&&◌, ◌||◌, not, Option,
  none, some, List, [], ◌∷◌, ◌++◌, map, Bytes, to_byte, length, ltb, ◌==◌, if◌then◌else◌,
}

-- A text is the list of its bytes; a character beyond ASCII is outside all three ranges either way.
abbrev pub Text : Type 0
Text = List ℕ

-- A character that is no hexadecimal digit.
abbrev pub is_invalid : ℕ → Bool
is_invalid r = (ltb r 48 || ltb 57 r) && ((ltb r 65 || ltb 70 r) && (ltb r 97 || ltb 102 r))

unfoldable pub any_invalid : Text → Bool
any_invalid [] = false
any_invalid (r ∷ value) = is_invalid r || any_invalid value

-- `hex.DecodeString` of an even number of digits.
abbrev pub digit_value : ℕ → ℕ
digit_value r = if ltb r 58 then r - 48 else if ltb r 71 then r - 55 else r - 87

unfoldable pub decode_string : Text → Bytes
decode_string (a ∷ b ∷ value) = (digit_value a * 16 + digit_value b) ∷ decode_string value
decode_string _ = []

-- `hex.EncodeToString`.
abbrev pub hex_digit : ℕ → ℕ
hex_digit n = if ltb n 10 then 48 + n else 87 + n

unfoldable pub encode_to_string : Bytes → Text
encode_to_string [] = []
encode_to_string (b ∷ bs) = hex_digit (b / 16) ∷ hex_digit (b % 16) ∷ encode_to_string bs

unfoldable pub swap_halves : ℕ → ℕ
swap_halves b = bit_or (bit_and (b / 2 ^ 4) 0x0f) (bit_and (to_byte (b * 2 ^ 4)) 0xf0)

abbrev pub padded : Text → Text
padded value = if length value % 2 == 0 then value else value ++ (70 ∷ [])

-- `none` is the error "invalid value".
unfoldable pub binary_coded_decimal_encode : Text → Option Bytes
binary_coded_decimal_encode value =
    if any_invalid value then none else some (map swap_halves (decode_string (padded value)))

-- What stands before the last 'f'; `none` where there is no such character.
unfoldable pub before_last_f : Text → Option Text
before_last_f [] = none
before_last_f (c ∷ points) = elim (before_last_f points) [
  | some front ↦ some (c ∷ front)
  | none ↦ if c == 102 then some [] else none
]

abbrev pub or_all : Text → Option Text → Text
or_all points none = points
or_all points (some front) = front

unfoldable pub binary_coded_decimal_decode : Bytes → Text
binary_coded_decimal_decode value =
    let points = encode_to_string (map swap_halves value) in or_all points (before_last_f points)
