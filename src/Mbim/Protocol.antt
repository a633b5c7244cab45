-- ===== src/Mbim/Protocol.antt =====
-- driver/mbim/protocol.go: the requests of the session, and what is read from their answers.
pub mod Slots
pub mod Buffers
use euicc_go.Prelude.{
  ℕ, zero, suc, ◌+◌, ◌-◌, ◌*◌, ◌/◌, ◌%◌, ◌^◌, Bool, ◌||◌, not, some, List, [], ◌∷◌, ◌++◌, Bytes,
  length, ltb, ◌==◌, if◌then◌else◌,
}
use euicc_go.Mbim.Words.{Checked, ok, ◌>>=◌, refuse_if, uint32_at, put_uint32}
use euicc_go.Mbim.Message.{
  MessageError, data_too_short, buffer_too_short, invalid_slot_size, slot_too_short, Request,
  open_device, close_device, command_request, slice,
}

-- driver/mbim/constants.go: the UUIDs of the services.
abbrev pub service_basic_connect : Bytes
service_basic_connect =
    0xA2 ∷ 0x89 ∷ 0xCC ∷ 0x33 ∷ 0xBC ∷ 0xBB ∷ 0x8B ∷ 0x4F ∷ 0xB6 ∷ 0xB0 ∷ 0x13 ∷ 0x3E ∷ 0xC2 ∷ 0xAA
    ∷ 0xE6 ∷ 0xDF ∷ []

abbrev pub service_ms_uicc_low_level_access : Bytes
service_ms_uicc_low_level_access =
    0xC2 ∷ 0xF6 ∷ 0x58 ∷ 0x8E ∷ 0xF0 ∷ 0x37 ∷ 0x4B ∷ 0xC9 ∷ 0x86 ∷ 0x65 ∷ 0xF4 ∷ 0xD4 ∷ 0x4B ∷ 0xD0
    ∷ 0x93 ∷ 0x67 ∷ []

abbrev pub service_ms_basic_connect_extensions : Bytes
service_ms_basic_connect_extensions =
    0x3D ∷ 0x01 ∷ 0xDC ∷ 0xC5 ∷ 0xFE ∷ 0xF5 ∷ 0x4D ∷ 0x05 ∷ 0x0D ∷ 0x3A ∷ 0xBE ∷ 0xF7 ∷ 0x05 ∷ 0x8E
    ∷ 0x9A ∷ 0xAF ∷ []

abbrev pub service_mbim_proxy_control : Bytes
service_mbim_proxy_control =
    0x83 ∷ 0x8C ∷ 0xF7 ∷ 0xFB ∷ 0x8D ∷ 0x0D ∷ 0x4D ∷ 0x7F ∷ 0x87 ∷ 0x1E ∷ 0xD7 ∷ 0x1D ∷ 0xBE ∷ 0xFB
    ∷ 0xB3 ∷ 0x9B ∷ []

abbrev pub command_type_query : ℕ
command_type_query = 0

abbrev pub command_type_set : ℕ
command_type_set = 1

-- An answer without fields.
abbrev pub unmarshal_nothing : Bytes → Checked MessageError (Unit {0})
unmarshal_nothing s = ok tt

-- Words of 16 bits in little endian order.
abbrev pub put_uint16s : List ℕ → Bytes
put_uint16s [] = []
put_uint16s (u ∷ us) = u % 256 ∷ u / 256 % 256 ∷ put_uint16s us

-- `utf16.Encode` of the path's runes is a parameter.
unfoldable pub proxy_config_request : (Bytes → List ℕ) → ℕ → Bytes → ℕ → Request (Unit {0})
proxy_config_request utf16 transaction_id device_path timeout =
    let path = put_uint16s (utf16 device_path ++ (0 ∷ [])) in
    command_request transaction_id service_mbim_proxy_control 1 command_type_set
      (put_uint32 12 ++ (put_uint32 (length path) ++ (put_uint32 timeout ++ path)))
      (some unmarshal_nothing)

unfoldable pub open_device_request : ℕ → Request (Unit {0})
open_device_request transaction_id = record {
  message_type = 1;
  transaction_id = transaction_id;
  payload = open_device;
  response = some unmarshal_nothing;
}

unfoldable pub close_request : ℕ → Request (Unit {0})
close_request transaction_id = record {
  message_type = 2;
  transaction_id = transaction_id;
  payload = close_device;
  response = some unmarshal_nothing;
}

-- The table of offsets and sizes, from an entry on; `dataOffset+i*4` is a uint32.
unfoldable pub slot_table : ℕ → ℕ → ℕ → Bytes
slot_table data_offset i zero = []
slot_table data_offset i (suc more) =
    put_uint32 (data_offset + i * 4) ++ (put_uint32 4 ++ slot_table data_offset (i + 1) more)

abbrev pub slot_words : List ℕ → Bytes
slot_words [] = []
slot_words (slot ∷ slots) = put_uint32 slot ++ slot_words slots

unfoldable pub slot_mappings_data : ℕ → List ℕ → Bytes
slot_mappings_data map_count slots =
    put_uint32 map_count
    ++ (if ltb 0 map_count
        then slot_table (4 + map_count * 8) 0 map_count ++ slot_words slots
        else [])

-- The entries of the table from the i-th on.
unfoldable pub read_slots : Bytes → ℕ → ℕ → Checked MessageError (List ℕ)
read_slots s i zero = ok []
read_slots s i (suc more) = do
  let entry_offset = (4 + i * 8) % 2 ^ 32
  offset ← uint32_at s entry_offset
  size ← uint32_at s (entry_offset + 4)
  _ ← refuse_if (not (size == 4)) invalid_slot_size
  _ ←
      refuse_if (ltb (length s % 2 ^ 32) offset || ltb (length s % 2 ^ 32 - offset) size)
        slot_too_short
  slot ← uint32_at s offset
  rest ← read_slots s (i + 1) more
  ok (slot ∷ rest)

-- `uint32((len(data)-4)/8)`, and `int(tableEnd)`.
unfoldable pub unmarshal_slot_mappings : Bytes → Checked MessageError (List ℕ)
unmarshal_slot_mappings s = do
  _ ← refuse_if (ltb (length s) 4) data_too_short
  map_count ← uint32_at s 0
  if map_count == 0 then ok [] else do
    _ ← refuse_if (ltb ((length s - 4) / 8 % 2 ^ 32) map_count) buffer_too_short
    _ ← refuse_if (ltb (length s) ((4 + map_count * 8) % 2 ^ 32)) buffer_too_short
    read_slots s 0 map_count

unfoldable pub device_slot_mappings_request : ℕ → ℕ → List ℕ → Request (List ℕ)
device_slot_mappings_request transaction_id map_count slots =
    command_request transaction_id service_ms_basic_connect_extensions 7
      (if ltb 0 map_count then command_type_set else command_type_query)
      (slot_mappings_data map_count slots) (some unmarshal_slot_mappings)

-- SubscriberReadyStatusResponse and CloseLogicalChannelResponse, each one word.
unfoldable pub unmarshal_word : Bytes → Checked MessageError ℕ
unmarshal_word s = do _ ← refuse_if (ltb (length s) 4) data_too_short; uint32_at s 0

unfoldable pub subscriber_ready_status_request : ℕ → Request ℕ
subscriber_ready_status_request transaction_id =
    command_request transaction_id service_basic_connect 2 command_type_query []
      (some unmarshal_word)

-- The status, the channel, and the response to the selection; `int(16+n)` is of a uint32 sum.
unfoldable pub unmarshal_open_channel : Bytes → Checked MessageError (ℕ × ℕ × Bytes)
unmarshal_open_channel s = do
  _ ← refuse_if (ltb (length s) 12) data_too_short
  status ← uint32_at s 0
  channel ← uint32_at s 4
  n ← uint32_at s 8
  _ ← refuse_if (ltb (length s) ((16 + n) % 2 ^ 32)) buffer_too_short
  response ← slice s 16 ((16 + n) % 2 ^ 32)
  ok (status, channel, response)

unfoldable pub open_logical_channel_request : ℕ → Bytes → ℕ → ℕ → Request (ℕ × ℕ × Bytes)
open_logical_channel_request transaction_id app_id select_p2_arg group =
    command_request transaction_id service_ms_uicc_low_level_access 2 command_type_set
      (put_uint32 (length app_id)
        ++ (put_uint32 16 ++ (put_uint32 select_p2_arg ++ (put_uint32 group ++ app_id))))
      (some unmarshal_open_channel)

unfoldable pub close_logical_channel_request : ℕ → ℕ → ℕ → Request ℕ
close_logical_channel_request transaction_id channel group =
    command_request transaction_id service_ms_uicc_low_level_access 3 command_type_set
      (put_uint32 channel ++ put_uint32 group) (some unmarshal_word)

-- The status and the response of the card.
unfoldable pub unmarshal_transmit_apdu : Bytes → Checked MessageError (ℕ × Bytes)
unmarshal_transmit_apdu s = do
  _ ← refuse_if (ltb (length s) 8) data_too_short
  status ← uint32_at s 0
  n ← uint32_at s 4
  _ ← refuse_if (ltb (length s) ((12 + n) % 2 ^ 32)) buffer_too_short
  response ← slice s 12 ((12 + n) % 2 ^ 32)
  ok (status, response)

unfoldable pub transmit_apdu_request : ℕ → ℕ → ℕ → ℕ → Bytes → Request (ℕ × Bytes)
transmit_apdu_request transaction_id channel secure_messaging class_byte_type apdu =
    command_request transaction_id service_ms_uicc_low_level_access 4 command_type_set
      (put_uint32 channel
        ++ (put_uint32 secure_messaging
            ++ (put_uint32 class_byte_type
                ++ (put_uint32 (length apdu) ++ (put_uint32 20 ++ apdu)))))
      (some unmarshal_transmit_apdu)
