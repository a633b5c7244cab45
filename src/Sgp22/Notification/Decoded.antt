-- ===== src/Sgp22/Notification/Decoded.antt =====
-- The metadata of a notification read from its object (v2/notification.go).
use euicc_go.Prelude.{ℕ, Option, none, some, List, [], ◌∷◌, Bytes}
use euicc_go.Bertlv.Tag.{new_tag, universal, application, context_specific, primitive, constructed}
use euicc_go.Bertlv.Tlv.{Tlv, object, no_children}
use euicc_go.Bertlv.Primitive.{marshal_int}
use euicc_go.Sgp22.Message.{children_list}

abbrev pub value_object : ℕ → ℕ → Bytes → Option Tlv
value_object class n s = some (object (new_tag class primitive n) s no_children)

abbrev pub iccid_object : Option Bytes → List (Option Tlv)
iccid_object none = []
iccid_object (some s) = value_object application 26 s ∷ []

-- NotificationMetadata of SGP.22: the sequence number, the operation's bits, the address, and an
-- ICCID if there is one.
abbrev pub metadata_object : ℕ → Bytes → Bytes → Option Bytes → Tlv
metadata_object sequence_number operation address iccid =
    object (new_tag context_specific constructed 47) [] (
      children_list (
        value_object context_specific 0 (marshal_int sequence_number)
        ∷ value_object context_specific 1 operation
        ∷ value_object universal 12 address
        ∷ iccid_object iccid))

abbrev pub or_empty : Option Bytes → Bytes
or_empty none = []
or_empty (some s) = s
