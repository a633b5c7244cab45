-- ===== src/Sgp22/Es10b.antt =====
-- v2/es10b.go and v2/es10a.go: the requests about notifications, the eUICC's data and its addresses.
use euicc_go.Prelude.{
  ℕ, Bool, not, ◌&&◌, ◌||◌, Option, none, some, List, [], ◌∷◌, Bytes, ◌==◌, if◌then◌else◌,
}
use euicc_go.Prelude.Int.{pos}
use euicc_go.Prelude.Checked.{ok, err, ◌>>=◌, refuse_if, pointed}
use euicc_go.Bertlv.Tag.{
  new_tag, context_specific, primitive, constructed, value_of, class_of, is_constructed,
}
use euicc_go.Bertlv.Tlv.{Tlv, tag_of, children_of, value_bytes}
use euicc_go.Bertlv.Selector.{first, at}
use euicc_go.Bertlv.Primitive.{marshal_int, marshal_bit_string}
use euicc_go.Sgp22.Message.{
  Reply, new_value, new_children, check_tag, unexpected_tag, undefined_error, nothing_to_delete,
  unsupported_version, invalid_address,
}
use euicc_go.Sgp22.Notification.{
  NotificationMetadata, PendingNotification, unmarshal_metadata, unmarshal_pending, optional_value,
}
use euicc_go.Sgp22.Es10c.{each_child, result_of}

unfoldable pub marshal_challenge : Reply Tlv
marshal_challenge = new_children (new_tag context_specific constructed 46) []

-- `tlv.At(0).Value`; no children, or a nil one, is a panic.
unfoldable pub unmarshal_challenge : Tlv → Reply Bytes
unmarshal_challenge x = do
  _ ← check_tag context_specific constructed 46 x
  c ← pointed (at x (pos 0))
  y ← pointed c
  ok (value_bytes y)

unfoldable pub marshal_info : ℕ → Reply Tlv
marshal_info version =
    if version == 1
    then new_children (new_tag context_specific constructed 32) []
    else if version == 2
    then new_children (new_tag context_specific constructed 34) []
    else err unsupported_version

unfoldable pub unmarshal_info : Tlv → Reply Tlv
unmarshal_info x = do
  c ← pointed (class_of (tag_of x))
  f ← pointed (is_constructed (tag_of x))
  _ ← refuse_if (not ((c == context_specific) && f)) unexpected_tag
  value ← pointed (value_of (tag_of x))
  if (value == 32) || (value == 34) then ok x else err unexpected_tag

-- The filter, a map, is a function.
unfoldable pub marshal_list_notification : (ℕ → Bool) → Reply Tlv
marshal_list_notification filter = do
  bits ←
      new_value (new_tag context_specific primitive 1)
        (marshal_bit_string (filter 0 ∷ filter 1 ∷ filter 2 ∷ filter 3 ∷ []))
  new_children (new_tag context_specific constructed 40) (some bits ∷ [])

unfoldable pub unmarshal_list_notification : Tlv → Reply (List NotificationMetadata)
unmarshal_list_notification x = do
  list ← pointed (first x (new_tag context_specific constructed 0))
  each_child unmarshal_metadata (children_of list)

unfoldable pub marshal_retrieve : Option Tlv → Reply Tlv
marshal_retrieve none = new_children (new_tag context_specific constructed 43) []
marshal_retrieve (some c) = do
  x ← new_children (new_tag context_specific constructed 0) (some c ∷ [])
  new_children (new_tag context_specific constructed 43) (some x ∷ [])

unfoldable pub unmarshal_retrieve : Tlv → Reply (List PendingNotification)
unmarshal_retrieve x = do
  _ ← check_tag context_specific constructed 43 x
  each_child unmarshal_pending (children_of x)

abbrev pub valid_retrieve : List PendingNotification → Reply (Unit {0})
valid_retrieve [] = err undefined_error
valid_retrieve (n ∷ ns) = ok tt

-- The sequence number is the word of an int64.
unfoldable pub marshal_sent : ℕ → Reply Tlv
marshal_sent sequence_number = do
  x ← new_value (new_tag context_specific primitive 0) (marshal_int sequence_number)
  new_children (new_tag context_specific constructed 48) (some x ∷ [])

unfoldable pub unmarshal_sent : Tlv → Reply ℕ
unmarshal_sent x = do _ ← check_tag context_specific constructed 48 x; result_of x

unfoldable pub valid_sent : ℕ → Reply (Unit {0})
valid_sent result =
    if result == 0
    then ok tt
    else if result == 1
    then err nothing_to_delete
    else err undefined_error

unfoldable pub marshal_addresses : Reply Tlv
marshal_addresses = new_children (new_tag context_specific constructed 60) []

-- The default SM-DP+ address and the root SM-DS address; an absent one is empty.
unfoldable pub unmarshal_addresses : Tlv → Reply (Bytes × Bytes)
unmarshal_addresses x = do
  _ ← check_tag context_specific constructed 60 x
  ok (
    optional_value (first x (new_tag context_specific primitive 0)),
    optional_value (first x (new_tag context_specific primitive 1)),
  )

-- `utf8.Valid` is a parameter.
unfoldable pub marshal_set_address : (Bytes → Bool) → Bytes → Reply Tlv
marshal_set_address utf8_valid address = do
  _ ← refuse_if (not (utf8_valid address)) invalid_address
  x ← new_value (new_tag context_specific primitive 0) address
  new_children (new_tag context_specific constructed 63) (some x ∷ [])

unfoldable pub unmarshal_set_address : Tlv → Reply ℕ
unmarshal_set_address x = do _ ← check_tag context_specific constructed 63 x; result_of x

unfoldable pub valid_set_address : ℕ → Reply (Unit {0})
valid_set_address result = if result == 0 then ok tt else err undefined_error
