-- ===== src/Lpa/CardTests.antt =====
-- Operations on a card at concrete answers.
use euicc_go.Prelude.{◌≡◌, refl, true, some, [], ◌∷◌, Bytes, inl, arith}
use euicc_go.Prelude.Checked.{ok, err}
use euicc_go.Bertlv.Tag.{is_primitive, is_constructed, form_of}
use euicc_go.Bertlv.Length.{marshal_length}
use euicc_go.Bertlv.Tlv.{object, no_children, len, add_header, content_length, children_length}
use euicc_go.Bertlv.Tlv.Write.{bytes, marshal_binary, write_to, write_children}
use euicc_go.Sgp22.Message.{Reply, not_disabled}
use euicc_go.Sgp22.Es10c.{valid_operation}
use euicc_go.Lpa.Card.{by_iccid, set_profile}
use euicc_go.Lpa.Card.Exchanges.{request_object, answer_bytes, set_profile-answered}

abbrev iccid : Bytes
iccid = 0x98 ∷ 0x10 ∷ 0x32 ∷ []

-- BF31 0A, A0 05 with 5A 03 and the ICCID, 81 01 FF.
abbrev enable_command : Bytes
enable_command = 0xBF ∷ 0x31 ∷ 10 ∷ 0xA0 ∷ 5 ∷ 0x5A ∷ 3 ∷ 0x98 ∷ 0x10 ∷ 0x32 ∷ 0x81 ∷ 1 ∷ 0xFF ∷ []

enable_written :
    bytes (request_object 49 (object (0x5A ∷ []) iccid no_children) true) ≡ some enable_command
unfolding bytes marshal_binary write_to write_children len add_header content_length children_length
    marshal_length is_primitive is_constructed form_of
enable_written = refl

-- A card that answers that the profile is not disabled.
abbrev busy_card : Bytes → Unit {0} → Reply Bytes × Unit {0}
busy_card command w = (ok (answer_bytes 49 2), w)

set_profile-answered_example :
    set_profile busy_card 49 (by_iccid iccid) true tt ≡ (valid_operation 49 2, tt)
set_profile-answered_example =
    set_profile-answered busy_card 49 2 (by_iccid iccid) (object (0x5A ∷ []) iccid no_children) true
      enable_command tt tt (inl refl) (omega arith) refl enable_written refl

not_disabled_run : valid_operation 49 2 ≡ err not_disabled
unfolding valid_operation
not_disabled_run = refl
