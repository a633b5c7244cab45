-- ===== src/Sgp22/Profile.antt =====
-- v2/profile.go: the data of a profile.
pub mod Digits
use euicc_go.Prelude.{
  ℕ, zero, suc, ◌+◌, ◌/◌, ◌^◌, ltb, length, ◌++◌, bit_and, to_byte, Bool, true, false, not, ◌&&◌,
  ◌||◌, Option, none, some, List, [], ◌∷◌, Bytes, ◌==◌, if◌then◌else◌,
}
use euicc_go.Prelude.Checked.{Checked, ok, err, panic, ◌>>=◌, refuse_if, pointed}
use euicc_go.Bertlv.Tag.{
  new_tag, private, application, context_specific, primitive, constructed, tag_if,
}
use euicc_go.Bertlv.Tlv.{Tlv, tag_of, children_of, value_bytes}
use euicc_go.Bertlv.Selector.{first}
use euicc_go.Bertlv.Primitive.{Parsed, parsed, unchanged, invalid, panics, unmarshal_int}
use euicc_go.Sgp22.Message.{Reply, check_tag, value_at, unmarshal_value, unexpected_tag}
use euicc_go.Sgp22.Notification.{unmarshal_event, optional_value}
use euicc_go.Sgp22.Es10c.{each_child}

pub record OperatorId : Type 0 where
  pub plmn : Bytes
  pub gid1 : Bytes
  pub gid2 : Bytes

-- An index past the end is a panic.
abbrev pub byte_of : Bytes → ℕ → Reply ℕ
byte_of [] i = panic
byte_of (b ∷ s) zero = ok b
byte_of (b ∷ s) (suc i) = byte_of s i

-- The digits as text: '0' is 48, and the sums are bytes.
abbrev pub low_digit : ℕ → ℕ
low_digit b = to_byte (48 + bit_and b 0x0f)

abbrev pub high_digit : ℕ → ℕ
high_digit b = to_byte (48 + b / 2 ^ 4)

unfoldable pub mcc : OperatorId → Reply Bytes
mcc id = elim id.plmn [
  | [] ↦ ok []
  | b ∷ s ↦ (do b₁ ← byte_of s 0; ok (low_digit b ∷ high_digit b ∷ low_digit b₁ ∷ []))
]

unfoldable pub mnc : OperatorId → Reply Bytes
mnc id = if ltb (length id.plmn) 2 then ok [] else (do
  b₂ ← byte_of id.plmn 2
  b₁ ← byte_of id.plmn 1
  ok (low_digit b₂ ∷ high_digit b₂ ∷ (if b₁ / 2 ^ 4 == 0xf then [] else high_digit b₁ ∷ [])))

unfoldable pub unmarshal_operator_id : Tlv → Reply OperatorId
unmarshal_operator_id x = do
  _ ← check_tag context_specific constructed 23 x
  plmn ← value_at x (new_tag context_specific primitive 0)
  ok (record {
    plmn = plmn;
    gid1 = optional_value (first x (new_tag context_specific primitive 1));
    gid2 = optional_value (first x (new_tag context_specific primitive 2));
  })

pub record NotificationConfiguration : Type 0 where
  pub profile_management_operation : ℕ
  pub address : Bytes

-- The error of the decoder is dropped, and leaves the operation at 0.
abbrev pub event_or_zero : Parsed ℕ → Reply ℕ
event_or_zero (parsed n) = ok n
event_or_zero unchanged = ok 0
event_or_zero invalid = ok 0
event_or_zero panics = panic

abbrev pub unmarshal_configuration : Tlv → Reply NotificationConfiguration
unmarshal_configuration c = do
  address ← value_at c (new_tag context_specific primitive 1)
  operation ← value_at c (new_tag context_specific primitive 0)
  event ← event_or_zero (unmarshal_event operation)
  ok (record { profile_management_operation = event; address = address })

unfoldable pub unmarshal_configuration_info : Tlv → Reply (List NotificationConfiguration)
unmarshal_configuration_info x = do
  _ ← check_tag context_specific constructed 22 x
  each_child unmarshal_configuration (children_of x)

pub record ProfileInfo : Type 0 where
  pub iccid : Bytes
  pub isdp_aid : Bytes
  pub profile_state : ℕ
  pub profile_nickname : Bytes
  pub service_provider_name : Bytes
  pub profile_name : Bytes
  pub icon : Bytes
  pub profile_class : ℕ
  pub profile_owner : OperatorId
  pub notification_configuration_info : List NotificationConfiguration

-- ProfileClassProvisioning, or `ProfileClass(profileClass.Value[0])` of an int8.
abbrev pub class_or_default : Option Tlv → Reply ℕ
class_or_default none = ok 1
class_or_default (some x) = byte_of (value_bytes x) 0

abbrev pub configuration_or_none : Option Tlv → Reply (List NotificationConfiguration)
configuration_or_none none = ok []
configuration_or_none (some x) = unmarshal_configuration_info x

abbrev pub owner_or_empty : Option Tlv → Reply OperatorId
owner_or_empty none = ok (record { plmn = []; gid1 = []; gid2 = [] })
owner_or_empty (some x) = unmarshal_operator_id x

unfoldable pub unmarshal_profile_info : Tlv → Reply ProfileInfo
unmarshal_profile_info x = do
  is_info ← pointed (tag_if private constructed 3 (tag_of x))
  is_metadata ← pointed (tag_if context_specific constructed 37 (tag_of x))
  _ ← refuse_if (not is_info && not is_metadata) unexpected_tag
  iccid ← value_at x (new_tag application primitive 26)
  provider ← value_at x (new_tag context_specific primitive 17)
  name ← value_at x (new_tag context_specific primitive 18)
  profile_class ← class_or_default (first x (new_tag context_specific primitive 21))
  profile_state ←
      if is_info
      then unmarshal_value (first x (new_tag context_specific primitive 112)) (unmarshal_int 1) 0
      else ok 0
  configuration ← configuration_or_none (first x (new_tag context_specific constructed 22))
  owner ← owner_or_empty (first x (new_tag context_specific constructed 23))
  ok (record {
    iccid = iccid;
    isdp_aid = optional_value (first x (new_tag application primitive 15));
    profile_state = profile_state;
    profile_nickname = optional_value (first x (new_tag context_specific primitive 16));
    service_provider_name = provider;
    profile_name = name;
    icon = optional_value (first x (new_tag context_specific primitive 20));
    profile_class = profile_class;
    profile_owner = owner;
    notification_configuration_info = configuration;
  })
