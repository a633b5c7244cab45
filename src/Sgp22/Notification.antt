-- ===== src/Sgp22/Notification.antt =====
-- v2/notification.go: notifications and their metadata.
pub mod Decoded
use euicc_go.Prelude.{
  ℕ, zero, suc, ◌+◌, ◌%◌, Bool, true, false, Option, none, some, List, [], ◌∷◌, Bytes, length, ltb,
  ◌==◌, if◌then◌else◌,
}
use euicc_go.Prelude.Checked.{Checked, ok, err, panic, ◌>>=◌, refuse_if, pointed}
use euicc_go.Bertlv.Tag.{
  new_tag, universal, application, context_specific, primitive, constructed, tag_if,
}
use euicc_go.Bertlv.Tlv.{Tlv, tag_of, value_bytes, count, children_of}
use euicc_go.Bertlv.Selector.{first, select}
use euicc_go.Bertlv.Primitive.{
  Parsed, parsed, unchanged, invalid, panics, marshal_int, unmarshal_int, marshal_bit_string,
  unmarshal_bit_string,
}
use euicc_go.Sgp22.Message.{
  Reply, check_tag, value_at, unmarshal_value, first_of, no_notification, unexpected_tag,
}

-- `slices.Index(bits, true)` as a byte: 255 for -1.
abbrev pub index_of_set : ℕ → List Bool → ℕ
index_of_set i [] = 255
index_of_set i (true ∷ bits) = i % 256
index_of_set i (false ∷ bits) = index_of_set (i + 1) bits

unfoldable pub unmarshal_event : Bytes → Parsed ℕ
unmarshal_event s = elim (unmarshal_bit_string s) [
  | parsed bits ↦ parsed (index_of_set 0 bits)
  | unchanged ↦ unchanged
  | invalid ↦ invalid
  | panics ↦ panics
]

-- `bits[*n] = true` of four bits; `none` is its panic.
unfoldable pub marshal_event : ℕ → Option Bytes
marshal_event n =
    if ltb n 4
    then some (marshal_bit_string ((n == 0) ∷ (n == 1) ∷ (n == 2) ∷ (n == 3) ∷ []))
    else none

-- The sequence number is the word of an int64; an absent ICCID is empty.
pub record NotificationMetadata : Type 0 where
  pub sequence_number : ℕ
  pub profile_management_operation : ℕ
  pub address : Bytes
  pub iccid : Bytes

abbrev pub optional_value : Option Tlv → Bytes
optional_value none = []
optional_value (some x) = value_bytes x

unfoldable pub unmarshal_metadata : Tlv → Reply NotificationMetadata
unmarshal_metadata x = do
  _ ← check_tag context_specific constructed 47 x
  address ← value_at x (new_tag universal primitive 12)
  sequence_number ←
      unmarshal_value (first x (new_tag context_specific primitive 0)) (unmarshal_int 8) 0
  let iccid = optional_value (first x (new_tag application primitive 26))
  operation ← unmarshal_value (first x (new_tag context_specific primitive 1)) unmarshal_event 0
  ok (record {
    sequence_number = sequence_number;
    profile_management_operation = operation;
    address = address;
    iccid = iccid;
  })

pub record PendingNotification : Type 0 where
  pub pending_notification : Tlv
  pub notification : NotificationMetadata

abbrev pub or_first : Option Tlv → Option Tlv → Option Tlv
or_first none y = y
or_first (some x) y = some x

-- The metadata of an object that may be missing: `UnmarshalBERTLV(nil)` reads its tag.
abbrev pub metadata_of : Option Tlv → Reply NotificationMetadata
metadata_of x = do y ← pointed x; unmarshal_metadata y

unfoldable pub unmarshal_pending : Tlv → Reply PendingNotification
unmarshal_pending x = do
  _ ← check_tag context_specific constructed 0 x
  _ ← refuse_if (count (children_of x) == 0) no_notification
  pending ← pointed (
      or_first (first x (new_tag context_specific constructed 55))
        (first x (new_tag universal constructed 16)))
  installed ← pointed (tag_if context_specific constructed 55 (tag_of pending))
  notification ← metadata_of (
      if installed
      then select pending
          (new_tag context_specific constructed 39 ∷ new_tag context_specific constructed 47 ∷ [])
      else first pending (new_tag context_specific constructed 47))
  ok (record { pending_notification = pending; notification = notification })
