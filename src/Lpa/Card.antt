-- ===== src/Lpa/Card.antt =====
-- lpa/es10a.go, lpa/es10b.go, lpa/es10c.go: the operations on a card, over the transmitter of
-- driver/transmitter.go.
pub mod Exchanges
use euicc_go.Prelude.{
  ℕ, Bool, true, false, Option, none, some, List, [], ◌∷◌, ◌++◌, Bytes, ◌||◌, ◌==◌, if◌then◌else◌,
}
use euicc_go.Prelude.Checked.{Checked, ok, err, panic, ◌>>=◌, pointed}
use euicc_go.Bertlv.Stream
use euicc_go.Bertlv.Tag.{Tag, new_tag, application, context_specific, primitive, constructed}
use euicc_go.Bertlv.Tlv.{Tlv}
use euicc_go.Bertlv.Tlv.Write.{bytes}
use euicc_go.Bertlv.Tlv.Read.{read_from}
use euicc_go.Bertlv.Primitive.{marshal_int, marshal_bit_string}
use euicc_go.Sgp22.Message.{
  Reply, MessageError, new_value, invalid_identifier, invalid_criteria, unreadable,
}
use euicc_go.Sgp22.Notification.{NotificationMetadata, PendingNotification, marshal_event}
use euicc_go.Sgp22.Profile.{ProfileInfo, unmarshal_profile_info}
use euicc_go.Sgp22.Es10b.{
  marshal_challenge, unmarshal_challenge, marshal_info, unmarshal_info, marshal_list_notification,
  unmarshal_list_notification, marshal_retrieve, unmarshal_retrieve, valid_retrieve, marshal_sent,
  unmarshal_sent, valid_sent, marshal_addresses, unmarshal_addresses, marshal_set_address,
  unmarshal_set_address, valid_set_address,
}
use euicc_go.Sgp22.Es10c.{
  marshal_profile_info_list, unmarshal_profile_info_list, enable_profile, disable_profile,
  delete_profile, marshal_operation, unmarshal_operation, valid_operation, marshal_memory_reset,
  unmarshal_memory_reset, valid_memory_reset, marshal_get_data, unmarshal_get_data,
  marshal_set_nickname, unmarshal_set_nickname, valid_set_nickname,
}

-- `tlv.UnmarshalBinary`. The reader never runs out of fuel.
abbrev pub unmarshal_binary : Bytes → Reply Tlv
unmarshal_binary s = elim (read_from s) [
  | euicc_go.Bertlv.Stream.ok x n rest ↦ ok x
  | euicc_go.Bertlv.Stream.err e n rest ↦ err unreadable
  | euicc_go.Bertlv.Stream.panic ↦ panic
  | euicc_go.Bertlv.Stream.out_of_fuel ↦ panic
]

-- What identifies a profile: an ICCID, the AID of its ISD-P, or a value of another type.
pub data Identifier : Type 0 where
  by_iccid by_aid : Bytes → Identifier
  by_other : Identifier

-- What a list of profiles is restricted to. `nil` and a value of another type restrict nothing.
pub data ProfileCriteria : Type 0 where
  any_profile : ProfileCriteria
  with_iccid with_aid : Bytes → ProfileCriteria
  with_class : ℕ → ProfileCriteria

pub data NotificationCriteria : Type 0 where
  with_sequence_number with_event : ℕ → NotificationCriteria
  with_other : NotificationCriteria

abbrev pub always_valid : {A : Type 0} → A → Reply (Unit {0})
always_valid a = ok tt

abbrev pub dropped : {A W : Type 0} → Reply A × W → Reply (Unit {0}) × W
dropped (r, w) = ((do _ ← r; ok tt), w)

abbrev pub identifier_object : Identifier → Reply Tlv
identifier_object (by_iccid s) = new_value (new_tag application primitive 26) s
identifier_object (by_aid s) = new_value (new_tag application primitive 15) s
identifier_object by_other = err invalid_identifier

abbrev pub criteria_object : ProfileCriteria → Reply (Option Tlv)
criteria_object any_profile = ok none
criteria_object (with_iccid s) = do x ← new_value (new_tag application primitive 26) s; ok (some x)
criteria_object (with_aid s) = do x ← new_value (new_tag application primitive 15) s; ok (some x)
criteria_object (with_class n) = do
  x ← new_value (new_tag context_specific primitive 21) (marshal_int n)
  ok (some x)

-- TagICCID to TagProfileOwner.
abbrev pub default_tags : List Tag
default_tags =
    new_tag application primitive 26
    ∷ new_tag application primitive 15
    ∷ new_tag context_specific primitive 112
    ∷ new_tag context_specific primitive 16
    ∷ new_tag context_specific primitive 17
    ∷ new_tag context_specific primitive 18
    ∷ new_tag context_specific primitive 19
    ∷ new_tag context_specific primitive 20
    ∷ new_tag context_specific primitive 21
    ∷ new_tag context_specific constructed 23
    ∷ []

abbrev pub is_filtered : List ℕ → ℕ → Bool
is_filtered [] event = false
is_filtered (f ∷ filters) event = (f == event) || is_filtered filters event

abbrev pub default_filters : List ℕ → List ℕ
default_filters [] = 0 ∷ 1 ∷ 2 ∷ 3 ∷ []
default_filters (f ∷ filters) = f ∷ filters

abbrev pub notification_criteria : NotificationCriteria → Reply Tlv
notification_criteria (with_sequence_number n) =
    new_value (new_tag context_specific primitive 0) (marshal_int n)
notification_criteria (with_event n) = do
  s ← pointed (marshal_event n)
  new_value (new_tag context_specific primitive 1) s
notification_criteria with_other = err invalid_criteria

-- `TransmitRaw` is a parameter: the answer of the card to a command, and its next state.
module _ {W : Type 0} (transmit_raw : Bytes → W → Reply Bytes × W) where
  -- `Transmit` behind the marshalling of the request.
  abbrev pub exchanged : {A : Type 0} → (Tlv → Reply A) → Reply Bytes → W → Reply A × W
  exchanged unmarshal (ok command) w =
      let (answer, w') = transmit_raw command w in
      ((do s ← answer; x ← unmarshal_binary s; unmarshal x), w')
  exchanged unmarshal (err e) w = (err e, w)
  exchanged unmarshal panic w = (panic, w)

  -- `InvokeAPDU`: a response that was read is also asked whether it is valid.
  unfoldable pub invoke_apdu :
      {A : Type 0} → Reply Tlv → (Tlv → Reply A) → (A → Reply (Unit {0})) → W → Reply A × W
  invoke_apdu request unmarshal valid w =
      let command = (do x ← request; pointed (bytes x)) in
      let (response, w') = exchanged unmarshal command w in
      ((do a ← response; _ ← valid a; ok a), w')

  unfoldable pub set_profile : ℕ → Identifier → Bool → W → Reply (Unit {0}) × W
  set_profile operation identifier refresh w = dropped (
      invoke_apdu
        (do x ← identifier_object identifier; marshal_operation operation (some x) refresh)
        (unmarshal_operation operation) (valid_operation operation) w)

  unfoldable pub enable : Identifier → Bool → W → Reply (Unit {0}) × W
  enable = set_profile enable_profile

  unfoldable pub disable : Identifier → Bool → W → Reply (Unit {0}) × W
  disable = set_profile disable_profile

  unfoldable pub delete : Identifier → W → Reply (Unit {0}) × W
  delete identifier = set_profile delete_profile identifier false

  unfoldable pub memory_reset : W → Reply (Unit {0}) × W
  memory_reset w = dropped (
      invoke_apdu (marshal_memory_reset true true true) unmarshal_memory_reset valid_memory_reset w)

  unfoldable pub eid : W → Reply Bytes × W
  eid = invoke_apdu marshal_get_data unmarshal_get_data always_valid

  unfoldable pub set_nickname : (Bytes → Bool) → Bytes → Bytes → W → Reply (Unit {0}) × W
  set_nickname utf8_valid iccid nickname w = dropped (
      invoke_apdu (marshal_set_nickname utf8_valid iccid nickname) unmarshal_set_nickname
        valid_set_nickname w)

  unfoldable pub list_profile : ProfileCriteria → List Tag → W → Reply (List ProfileInfo) × W
  list_profile criteria tags =
      invoke_apdu
        (do c ← criteria_object criteria; marshal_profile_info_list c (default_tags ++ tags))
        (unmarshal_profile_info_list unmarshal_profile_info) always_valid

  unfoldable pub euicc_challenge : W → Reply Bytes × W
  euicc_challenge = invoke_apdu marshal_challenge unmarshal_challenge always_valid

  unfoldable pub euicc_info1 : W → Reply Tlv × W
  euicc_info1 = invoke_apdu (marshal_info 1) unmarshal_info always_valid

  unfoldable pub euicc_info2 : W → Reply Tlv × W
  euicc_info2 = invoke_apdu (marshal_info 2) unmarshal_info always_valid

  unfoldable pub list_notification : List ℕ → W → Reply (List NotificationMetadata) × W
  list_notification filters =
      invoke_apdu (marshal_list_notification (is_filtered (default_filters filters)))
        unmarshal_list_notification always_valid

  unfoldable pub retrieve_notification_list :
      NotificationCriteria → W → Reply (List PendingNotification) × W
  retrieve_notification_list criteria =
      invoke_apdu (do c ← notification_criteria criteria; marshal_retrieve (some c))
        unmarshal_retrieve valid_retrieve

  unfoldable pub remove_notification_from_list : ℕ → W → Reply (Unit {0}) × W
  remove_notification_from_list sequence_number w =
      dropped (invoke_apdu (marshal_sent sequence_number) unmarshal_sent valid_sent w)

  unfoldable pub euicc_configured_addresses : W → Reply (Bytes × Bytes) × W
  euicc_configured_addresses = invoke_apdu marshal_addresses unmarshal_addresses always_valid

  unfoldable pub set_default_dp_address : (Bytes → Bool) → Bytes → W → Reply (Unit {0}) × W
  set_default_dp_address utf8_valid address w = dropped (
      invoke_apdu (marshal_set_address utf8_valid address) unmarshal_set_address valid_set_address
        w)
