-- ===== src/Sgp22/Examples.antt =====
-- Concrete runs of v2/, and its theorems at concrete inputs.
use euicc_go.Prelude.{
  ◌≡◌, refl, none, some, List, [], ◌∷◌, arith, Bytes, inl, inr, concat, lt_wf, dec_lt,
}
use euicc_go.Prelude.{length}
use euicc_go.Sgp22.Identifier.{
  binary_coded_decimal_encode, binary_coded_decimal_decode, any_invalid, decode_string, swap_halves,
  encode_to_string, before_last_f,
}
use euicc_go.Sgp22.Identifier.Digits.{binary_coded_decimal_round_trip}
use euicc_go.Bertlv.Tag.{new_tag, new_tag_loop, new_tag_byte, is_primitive}
use euicc_go.Bertlv.Tag.Read.{IsTag}
use euicc_go.Bertlv.Tlv.{
  Tlv, object, no_children, child, content_length, children_length, add_header,
}
use euicc_go.Bertlv.Tlv.Write.{bytes}
use euicc_go.Bertlv.Tlv.Valid.{IsTlv}
use euicc_go.Sgp22.Bpp.{success, segmented_bound_profile_package}
use euicc_go.Sgp22.Bpp.Segments.{IsPackage, segmented_bound_profile_package_whole}

abbrev channel : Tlv
channel = object (0xbf ∷ 0x23 ∷ []) [] (child (object (0x82 ∷ []) (1 ∷ []) no_children) no_children)

abbrev configure : Tlv
configure = object (0xa0 ∷ []) [] (child (object (0x87 ∷ []) (1 ∷ 2 ∷ []) no_children) no_children)

abbrev metadata : Tlv
metadata = object (0xa1 ∷ []) [] (child (object (0x88 ∷ []) (3 ∷ []) no_children) no_children)

abbrev elements : Tlv
elements = object (0xa3 ∷ []) [] (child (object (0x86 ∷ []) (4 ∷ []) no_children) no_children)

abbrev bpp : Tlv
bpp =
    object (0xbf ∷ 0x36 ∷ []) []
      (child channel (child configure (child metadata (child elements no_children))))

bpp-IsPackage : IsPackage bpp channel configure metadata none elements
unfolding new_tag new_tag_loop new_tag_byte lt_wf dec_lt
bpp-IsPackage = record {
  package_tag = refl;
  channel_tag = refl;
  configure_tag = refl;
  metadata_tag = refl;
  keys_tag = tt;
  elements_tag = refl;
  fields = refl;
  metadata_present = tt;
  elements_present = tt;
}

bpp-IsTlv : IsTlv bpp
unfolding IsTlv is_primitive children_length content_length add_header
bpp-IsTlv =
    (tag, inr (refl, refl, (part_i, (part_a, (part_b, (part_d, tt)))), (22, refl, omega arith)))
  where
    tag : IsTag (0xbf ∷ 0x36 ∷ [])
    tag = (omega arith, refl, omega arith, omega arith, refl)

    part_i : IsTlv channel
    part_i = (
      (omega arith, refl, omega arith, omega arith, refl),
      inr (
        refl,
        refl,
        ((omega arith, inl (refl, omega arith, omega arith, refl)), tt),
        (3, refl, omega arith),
      ),
    )

    part_a : IsTlv configure
    part_a = (
      omega arith,
      inr (
        refl,
        refl,
        ((omega arith, inl (refl, omega arith, omega arith, refl)), tt),
        (4, refl, omega arith),
      ),
    )

    part_b : IsTlv metadata
    part_b = (
      omega arith,
      inr (
        refl,
        refl,
        ((omega arith, inl (refl, omega arith, omega arith, refl)), tt),
        (3, refl, omega arith),
      ),
    )

    part_d : IsTlv elements
    part_d = (
      omega arith,
      inr (
        refl,
        refl,
        ((omega arith, inl (refl, omega arith, omega arith, refl)), tt),
        (3, refl, omega arith),
      ),
    )

segmented_bound_profile_package_whole_example :
    (out : List Bytes) × (segmented_bound_profile_package (some bpp) ≡ some (success out))
    × (bytes bpp ≡ some (concat out))
segmented_bound_profile_package_whole_example =
    segmented_bound_profile_package_whole bpp channel configure metadata none elements bpp-IsPackage
      bpp-IsTlv

-- "894": the last half byte is filled up.
iccid_example : binary_coded_decimal_encode (56 ∷ 57 ∷ 52 ∷ []) ≡ some (0x98 ∷ 0xf4 ∷ [])
unfolding binary_coded_decimal_encode any_invalid decode_string swap_halves
iccid_example = refl

-- "1F23" is taken as well, but shown as "1".
hexadecimal_example :
    (binary_coded_decimal_encode (49 ∷ 70 ∷ 50 ∷ 51 ∷ []) ≡ some (0xf1 ∷ 0x32 ∷ []))
    × (binary_coded_decimal_decode (0xf1 ∷ 0x32 ∷ []) ≡ 49 ∷ [])
unfolding binary_coded_decimal_encode any_invalid decode_string swap_halves
    binary_coded_decimal_decode encode_to_string before_last_f
hexadecimal_example = (refl, refl)

binary_coded_decimal_round_trip_example :
    (id : Bytes) × (binary_coded_decimal_encode (56 ∷ 57 ∷ 52 ∷ []) ≡ some id)
    × (binary_coded_decimal_decode id ≡ 56 ∷ 57 ∷ 52 ∷ [])
    × (length id ≡ 2)
binary_coded_decimal_round_trip_example =
    binary_coded_decimal_round_trip (56 ∷ 57 ∷ 52 ∷ [])
      ((omega arith, omega arith), ((omega arith, omega arith), ((omega arith, omega arith), tt)))
