-- ===== src/Sgp22/MessageTests.antt =====
-- Messages of v2/ at concrete values.
use euicc_go.Prelude.{◌≡◌, refl, some, List, [], ◌∷◌, Bytes, All, map, true, arith}
use euicc_go.Prelude.Checked.{ok, panic}
use euicc_go.Bertlv.Tag.{Tag, value_of, value_loop}
use euicc_go.Sgp22.Es10c.{unique_tags, contains}
use euicc_go.Sgp22.Es10c.Tags.{number, IsPart, firsts, AllNew, unique_tags_lem}
use euicc_go.Sgp22.Profile.{OperatorId, mcc, mnc}
use euicc_go.Sgp22.Profile.Digits.{mcc-mnc}

abbrev server : Bytes
server = 115 ∷ 109 ∷ 46 ∷ 101 ∷ 120 ∷ []

-- The ICCID, the name, and the ICCID again.
abbrev asked : List Tag
asked = (0x5A ∷ []) ∷ (0x92 ∷ []) ∷ (0x5A ∷ []) ∷ []

unique_tags_lem_example :
    (unique_tags [] asked ≡ ok (firsts [] asked))
    × IsPart (firsts [] asked) asked
    × AllNew [] (firsts [] asked)
    × All (λ t. contains (number t) (map number (firsts [] asked)) ≡ true) asked
unique_tags_lem_example = unique_tags_lem asked (omega arith, (omega arith, (omega arith, tt)))

asked_once : unique_tags [] asked ≡ ok ((0x5A ∷ []) ∷ (0x92 ∷ []) ∷ [])
unfolding unique_tags value_of value_loop
asked_once = refl

abbrev operator : OperatorId
operator = record { plmn = 0x13 ∷ 0x40 ∷ 0x62 ∷ []; gid1 = []; gid2 = [] }

mcc-mnc_example : (mcc operator ≡ ok (51 ∷ 49 ∷ 48 ∷ [])) × (mnc operator ≡ ok (50 ∷ 54 ∷ 52 ∷ []))
mcc-mnc_example =
    mcc-mnc operator 3 1 0 2 6 (omega arith) (omega arith) (omega arith) (omega arith) (omega arith)
      (some 4) (omega arith) refl

short_plmn : mnc (record { plmn = 0x13 ∷ 0x40 ∷ []; gid1 = []; gid2 = [] }) ≡ panic
unfolding mnc
short_plmn = refl
