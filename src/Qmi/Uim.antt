-- ===== src/Qmi/Uim.antt =====
-- driver/qmi/uim/messages.go: the messages of the UIM service.
pub mod Slots
pub mod Client
use euicc_go.Prelude.{
  ◌^◌, ℕ, zero, suc, ◌+◌, ◌*◌, ◌/◌, ◌%◌, Bool, true, false, ◌&&◌, ◌||◌, Option, none, some, List,
  [], ◌∷◌, Bytes, length, take, drop, to_byte, leb, ltb, ◌==◌, if◌then◌else◌,
}
use euicc_go.Prelude.Action.{Result, ok, err, Action, ◌>>=◌, ◌>>◌, pure, fail, fail_if}
use euicc_go.Qmi.Tlvs.{QmiTlv, find_tlv}

pub data UimError : Type 0 where
  -- "could not find slot status in response", and of the card's status, the channel and the APDU
  no_slot_status no_card_status no_channel no_response : UimError
  -- "read …" of a value that ends early
  short_read : UimError
  -- "AID length %d exceeds QMI limit %d", "APDU command length %d exceeds QMI limit %d"
  aid_too_long command_too_long : ℕ → UimError
  -- QMIErrorNotSupported, and another error of the transport
  not_supported : UimError
  transport_error : ℕ → UimError
  -- "sim did not become available after slot %d activation err: %w", without and with an error
  not_available : ℕ → UimError
  not_available_after : ℕ → UimError → UimError

-- Reads of a `bytes.Reader`: what it has still to deliver is the state.
abbrev pub Reading : Type 0 → Type 0
Reading A = Action Bytes UimError A

unfoldable pub read_uint8 : Reading ℕ
read_uint8 [] = (err short_read, [])
read_uint8 (b ∷ s) = (ok b, s)

-- Little endian words.
unfoldable pub read_uint16 : Reading ℕ
read_uint16 = do lo ← read_uint8; hi ← read_uint8; pure (lo + hi * 256)

unfoldable pub read_uint32 : Reading ℕ
read_uint32 = do lo ← read_uint16; hi ← read_uint16; pure (lo + hi * 65536)

abbrev pub take_bytes : ℕ → Reading Bytes
take_bytes n s = if leb n (length s) then (ok (take n s), drop n s) else (err short_read, [])

unfoldable pub read_uint8_array : Reading Bytes
read_uint8_array = do n ← read_uint8; take_bytes n

unfoldable pub skip_bytes : ℕ → Reading (Unit {0})
skip_bytes n s = if ltb (length s) n then (err short_read, s) else (ok tt, drop n s)

abbrev pub slot_state_active : ℕ
slot_state_active = 1

pub record Slot : Type 0 where
  pub card_state : ℕ
  pub slot_state : ℕ
  pub logical_slot : ℕ
  pub iccid : Bytes

pub record SlotStatus : Type 0 where
  pub slots : List Slot
  pub activated_slot : ℕ

unfoldable pub read_slot : Reading Slot
read_slot = do
  card_state ← read_uint32
  slot_state ← read_uint32
  logical_slot ← read_uint8
  iccid ← read_uint8_array
  pure (record {
    card_state = card_state;
    slot_state = slot_state;
    logical_slot = logical_slot;
    iccid = iccid;
  })

-- `uint8(i + 1)` of an active slot, or what it was.
abbrev pub activated : ℕ → ℕ → Slot → ℕ
activated i old slot = if slot.slot_state == slot_state_active then to_byte (i + 1) else old

-- The slots from the i-th on, with the active one so far.
unfoldable pub read_slots : ℕ → ℕ → ℕ → Reading SlotStatus
read_slots zero i active = pure (record { slots = []; activated_slot = active })
read_slots (suc more) i active = do
  slot ← read_slot
  rest ← read_slots more (i + 1) (activated i active slot)
  pure (record { slots = slot ∷ rest.slots; activated_slot = rest.activated_slot })

unfoldable pub unmarshal_slot_status : List QmiTlv → Result UimError SlotStatus
unmarshal_slot_status ts = elim (find_tlv ts 0x10) [
  | none ↦ err no_slot_status
  | some tlv ↦ ((do count ← read_uint8; read_slots count 0 0) tlv.value).0
]

pub record Application : Type 0 where
  pub kind : ℕ
  pub state : ℕ

pub record UimCard : Type 0 where
  pub state : ℕ
  pub applications : List Application

unfoldable pub read_applications : ℕ → Reading (List Application)
read_applications zero = pure []
read_applications (suc more) = do
  kind ← read_uint8
  state ← read_uint8
  skip_bytes 4
  read_uint8_array
  skip_bytes 7
  rest ← read_applications more
  pure (record { kind = kind; state = state } ∷ rest)

unfoldable pub read_cards : ℕ → Reading (List UimCard)
read_cards zero = pure []
read_cards (suc more) = do
  state ← read_uint8
  skip_bytes 4
  count ← read_uint8
  applications ← read_applications count
  rest ← read_cards more
  pure (record { state = state; applications = applications } ∷ rest)

pub record CardStatus : Type 0 where
  pub index_gw_primary : ℕ
  pub index_1x_primary : ℕ
  pub index_gw_secondary : ℕ
  pub index_1x_secondary : ℕ
  pub cards : List UimCard

unfoldable pub read_card_status : Reading CardStatus
read_card_status = do
  gw ← read_uint16
  first_1x ← read_uint16
  gw_secondary ← read_uint16
  second_1x ← read_uint16
  count ← read_uint8
  cards ← read_cards count
  pure (record {
    index_gw_primary = gw;
    index_1x_primary = first_1x;
    index_gw_secondary = gw_secondary;
    index_1x_secondary = second_1x;
    cards = cards;
  })

unfoldable pub unmarshal_card_status : List QmiTlv → Result UimError CardStatus
unmarshal_card_status ts = elim (find_tlv ts 0x10) [
  | none ↦ err no_card_status
  | some tlv ↦ (read_card_status tlv.value).0
]

-- A USIM that is ready, on a card that is present.
abbrev pub ready_application : List Application → Bool
ready_application [] = false
ready_application (a ∷ apps) = ((a.kind == 2) && (a.state == 7)) || ready_application apps

abbrev pub ready_card : List UimCard → Bool
ready_card [] = false
ready_card (c ∷ cards) = ((c.state == 1) && ready_application c.applications) || ready_card cards

unfoldable pub ready : CardStatus → Bool
ready status = ready_card status.cards

abbrev pub first_of_value : Bytes → Result UimError ℕ
first_of_value [] = err no_channel
first_of_value (b ∷ s) = ok b

unfoldable pub unmarshal_open_channel : List QmiTlv → Result UimError ℕ
unmarshal_open_channel ts = elim (find_tlv ts 0x10) [
  | none ↦ err no_channel
  | some tlv ↦ first_of_value tlv.value
]

abbrev pub counted_response : Bytes → Result UimError Bytes
counted_response (lo ∷ hi ∷ s) =
    if leb (lo + hi * 256) (length s) then ok (take (lo + hi * 256) s) else err no_response
counted_response s = err no_response

unfoldable pub unmarshal_transmit_apdu : List QmiTlv → Result UimError Bytes
unmarshal_transmit_apdu ts = elim (find_tlv ts 0x10) [
  | none ↦ err no_response
  | some tlv ↦ counted_response tlv.value
]

-- `{Type: …, Len: uint16(len(value)), Value: value}`.
abbrev pub field : ℕ → Bytes → QmiTlv
field t s = record { kind = t; len_field = length s % 65536; value = s }

-- A message's number and its TLVs.
abbrev pub switch_slot_request : ℕ → ℕ → ℕ × List QmiTlv
switch_slot_request logical_slot physical_slot = (
  0x46,
  field 0x01 (logical_slot ∷ [])
      ∷ field 0x02 (
          physical_slot % 256
          ∷ physical_slot / 256 % 256
          ∷ physical_slot / 65536 % 256
          ∷ physical_slot / 16777216 % 256
          ∷ [])
      ∷ [],
)

abbrev pub open_logical_channel_request : ℕ → Bytes → ℕ × List QmiTlv
open_logical_channel_request slot aid =
    (0x42, field 0x10 (to_byte (length aid) ∷ aid) ∷ field 0x01 (slot ∷ []) ∷ [])

abbrev pub close_logical_channel_request : ℕ → ℕ → ℕ × List QmiTlv
close_logical_channel_request slot channel =
    (0x3F, field 0x01 (slot ∷ []) ∷ field 0x11 (channel ∷ []) ∷ [])

abbrev pub transmit_apdu_request : ℕ → ℕ → Bytes → ℕ × List QmiTlv
transmit_apdu_request slot channel command = (
  0x3B,
  field 0x10 (channel ∷ [])
      ∷ field 0x02 (to_byte (length command) ∷ to_byte (length command / 2 ^ 8) ∷ command)
      ∷ field 0x01 (slot ∷ [])
      ∷ [],
)
