-- ===== src/Sgp22/Message.antt =====
-- Objects made and read by the SGP.22 messages (bertlv/tlv_shorthand.go, v2/errors.go).
pub mod Tagged
use euicc_go.Prelude.{
  ℕ, Bool, true, false, not, Option, none, some, List, [], ◌∷◌, Bytes, if◌then◌else◌,
}
use euicc_go.Prelude.Checked.{Checked, ok, err, panic, ◌>>=◌, refuse_if, pointed}
use euicc_go.Bertlv.Tag.{Tag, is_primitive, is_constructed, tag_if}
use euicc_go.Bertlv.Tlv.{Tlv, Children, object, no_children, child, nil_child, tag_of, value_bytes}
use euicc_go.Bertlv.Selector.{first}
use euicc_go.Bertlv.Primitive.{Parsed, parsed, unchanged, invalid, panics}

pub data MessageError : Type 0 where
  -- ErrUnexpectedTag, ErrNothingToDelete, ErrICCIDNotFound, ErrCatBusy, ErrUndefined
  unexpected_tag nothing_to_delete iccid_not_found cat_busy undefined_error : MessageError
  -- "cannot unmarshal value on constructed", and a value that is not an integer or bit string
  constructed_value invalid_value : MessageError
  -- the texts of Valid: "incorrect input values", "iccid or aid not found",
  -- "profile not in disabled state", "profile not in enabled state", "disallowed by policy",
  -- "wrong profile re-enabling"
  incorrect_input not_found not_disabled not_enabled disallowed wrong_reenabling : MessageError
  -- "no eid found", "the nickname invalid utf-8 string", "the nickname too long",
  -- "notification does not exist", "invalid profile identifier", "unsupported version"
  no_eid invalid_nickname nickname_too_long no_notification invalid_identifier : MessageError
  unsupported_version invalid_address invalid_criteria : MessageError
  -- an answer that is no TLV object
  unreadable : MessageError
  -- an error of the transmitter, by its number
  transmission : ℕ → MessageError

abbrev pub Reply : Type 0 → Type 0
Reply A = Checked MessageError A

unfoldable pub new_value : Tag → Bytes → Reply Tlv
new_value t v = do c ← pointed (is_constructed t); if c then panic else ok (object t v no_children)

-- A child that is nil keeps its place.
abbrev pub children_list : List (Option Tlv) → Children
children_list [] = no_children
children_list (none ∷ xs) = nil_child (children_list xs)
children_list (some x ∷ xs) = child x (children_list xs)

unfoldable pub new_children : Tag → List (Option Tlv) → Reply Tlv
new_children t xs = do
  p ← pointed (is_primitive t)
  if p then panic else ok (object t [] (children_list xs))

-- `tlv.First(tag)` of a pointer that may be nil.
abbrev pub first_of : Option Tlv → Tag → Reply (Option Tlv)
first_of x t = do y ← pointed x; ok (first y t)

-- `tlv.First(tag).Value`.
abbrev pub value_at : Tlv → Tag → Reply Bytes
value_at x t = do y ← pointed (first x t); ok (value_bytes y)

abbrev pub check_tag : ℕ → ℕ → ℕ → Tlv → Reply (Unit {0})
check_tag class form n x = do
  b ← pointed (tag_if class form n (tag_of x))
  refuse_if (not b) unexpected_tag

-- What a decoder leaves in a variable that held `old`.
abbrev pub assigned : {A : Type 0} → A → Parsed A → Reply A
assigned old (parsed a) = ok a
assigned old unchanged = ok old
assigned old invalid = err invalid_value
assigned old panics = panic

-- `tlv.UnmarshalValue(…)` of a pointer that may be nil.
unfoldable pub unmarshal_value : {A : Type 0} → Option Tlv → (Bytes → Parsed A) → A → Reply A
unmarshal_value x decode old = do
  y ← pointed x
  p ← pointed (is_primitive (tag_of y))
  _ ← refuse_if (not p) constructed_value
  assigned old (decode (value_bytes y))
