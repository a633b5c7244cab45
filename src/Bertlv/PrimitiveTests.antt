-- ===== src/Bertlv/PrimitiveTests.antt =====
-- Integers and bit strings at concrete values.
use euicc_go.Prelude.{◌≤◌, ◌≡◌, refl, true, false, [], ◌∷◌, length, arith}
use euicc_go.Bertlv.Primitive.{
  parsed, invalid, marshal_int, unmarshal_int, fill, without_sign_bytes, marshal_bit_string,
  unmarshal_bit_string, pack,
}
use euicc_go.Bertlv.Primitive.Integer.{unmarshal_int-marshal_int}
use euicc_go.Bertlv.Primitive.BitString.{unmarshal_bit_string-marshal_bit_string}

-- -129.
unmarshal_int-marshal_int_example :
    (unmarshal_int 8 (marshal_int 18446744073709551487) ≡ parsed 18446744073709551487)
    × (1 ≤ length (marshal_int 18446744073709551487))
    × (length (marshal_int 18446744073709551487) ≤ 8)
unmarshal_int-marshal_int_example = unmarshal_int-marshal_int 18446744073709551487 (omega arith)

minus_129 : marshal_int 18446744073709551487 ≡ 0xff ∷ 0x7f ∷ []
unfolding marshal_int fill without_sign_bytes
minus_129 = refl

unmarshal_bit_string-marshal_bit_string_example :
    unmarshal_bit_string (marshal_bit_string (true ∷ false ∷ true ∷ []))
    ≡ parsed (true ∷ false ∷ true ∷ [])
unmarshal_bit_string-marshal_bit_string_example =
    unmarshal_bit_string-marshal_bit_string (true ∷ false ∷ true ∷ [])

three_bits : marshal_bit_string (true ∷ false ∷ true ∷ []) ≡ 5 ∷ 0xA0 ∷ []
unfolding marshal_bit_string pack
three_bits = refl

eight_bits :
    unmarshal_bit_string
      (marshal_bit_string (true ∷ true ∷ true ∷ true ∷ true ∷ true ∷ true ∷ true ∷ []))
    ≡ invalid
unfolding marshal_bit_string unmarshal_bit_string pack
eight_bits = refl
