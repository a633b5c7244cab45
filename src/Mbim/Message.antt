-- ===== src/Mbim/Message.antt =====
-- driver/mbim/types.go: commands, requests and the messages that answer them.
pub mod Done
pub mod Whole
use euicc_go.Prelude.{
  ℕ, ◌+◌, ◌-◌, ◌%◌, ◌^◌, Bool, true, false, ◌&&◌, ◌||◌, not, Option, none, some, [], ◌++◌, Bytes,
  length, take, drop, replicate, ltb, leb, ◌==◌, if◌then◌else◌,
}
use euicc_go.Mbim.Words.{Checked, ok, err, panic, ◌>>=◌, refuse_if, uint32_at, put_uint32}

pub data MessageError : Type 0 where
  -- "MBIM response too short: %d", "MBIM command response too short: %d"
  response_too_short : ℕ → MessageError
  -- "MBIM response length mismatch: header=%d actual=%d"
  length_mismatch : ℕ → ℕ → MessageError
  -- "unexpected MBIM response message type %#x"
  unexpected_type : ℕ → MessageError
  -- "MBIM status response length %d, want 16", and of a function error
  wrong_length : ℕ → MessageError
  -- an MBIMStatus, and an MBIMProtocolError
  status_error protocol_error : ℕ → MessageError
  -- "unsupported MBIM fragmented response: fragment %d of %d"
  fragmented_response : ℕ → ℕ → MessageError
  -- "MBIM command response buffer length %d exceeds remaining %d"
  buffer_too_long : ℕ → ℕ → MessageError
  -- what the decoders of driver/mbim/protocol.go refuse: "… data too short", "… buffer too short",
  -- "… slot data has invalid size", "… slot data too short"
  data_too_short buffer_too_short invalid_slot_size slot_too_short : MessageError

pub record Command : Type 0 where
  pub fragment_total : ℕ
  pub fragment_current : ℕ
  pub service_id : Bytes
  pub command_id : ℕ
  pub command_type : ℕ
  pub data_bytes : Bytes

-- `(*Command).MarshalBinary`; DataLength is set from the data.
unfoldable pub marshal_command : Command → Bytes
marshal_command c =
    put_uint32 c.fragment_total
    ++ (put_uint32 c.fragment_current
        ++ (c.service_id
            ++ (put_uint32 c.command_id
                ++ (put_uint32 c.command_type
                    ++ (put_uint32 (length c.data_bytes) ++ c.data_bytes)))))

-- What implements `encoding.BinaryMarshaler`: OpenDeviceRequest, CloseRequest and Command.
pub data Payload : Type 0 where
  open_device close_device : Payload
  command_payload : Command → Payload

abbrev pub max_control_transfer : ℕ
max_control_transfer = 4096

abbrev pub marshal_payload : Payload → Bytes
marshal_payload open_device = put_uint32 max_control_transfer
marshal_payload close_device = []
marshal_payload (command_payload c) = marshal_command c

-- How the buffer of a response is read: `Response`, which may be nil.
abbrev pub Decoder : Type 0 → Type 0
Decoder A = Option (Bytes → Checked MessageError A)

pub record Request (A : Type 0) : Type 0 where
  pub message_type : ℕ
  pub transaction_id : ℕ
  pub payload : Payload
  pub response : Decoder A

-- The fields of a message, with its length, its transaction and the rest.
abbrev pub message : ℕ → ℕ → Bytes → Bytes
message message_type transaction_id body =
    put_uint32 message_type
    ++ (put_uint32 (12 + length body) ++ (put_uint32 transaction_id ++ body))

unfoldable pub marshal_request : {A : Type 0} → Request A → Bytes
marshal_request r = message r.message_type r.transaction_id (marshal_payload r.payload)

abbrev pub response_message_type : ℕ → Option ℕ
response_message_type t =
    if t == 1
    then some 0x80000001
    else if t == 2
    then some 0x80000002
    else if t == 3
    then some 0x80000003
    else none

-- A response whose decoding succeeded, with what its buffer was decoded to.
pub record CommandResponse (A : Type 0) : Type 0 where
  pub message_type : ℕ
  pub message_length : ℕ
  pub transaction_id : ℕ
  pub fragment_total : ℕ
  pub fragment_current : ℕ
  pub service_id : Bytes
  pub command_id : ℕ
  pub status : ℕ
  pub response_length : ℕ
  pub response_buffer : Bytes
  pub response : Option A

-- `s[from:to]`.
abbrev pub slice : {E : Type 0} → Bytes → ℕ → ℕ → Checked E Bytes
slice s from to =
    if leb from to && leb to (length s) then ok (take (to - from) (drop from s)) else panic

module _ {A : Type 0} (decoder : Decoder A) where
  abbrev pub decoded : Bytes → Checked MessageError (Option A)
  decoded buffer = elim decoder [
    | none ↦ ok none
    | some decode ↦ (do a ← decode buffer; ok (some a))
  ]

  unfoldable pub unmarshal_status_done :
      Bytes → CommandResponse A → Checked MessageError (CommandResponse A)
  unmarshal_status_done s r = do
    _ ← refuse_if (not (length s == 16)) (wrong_length (length s))
    status ← uint32_at s 12
    _ ← refuse_if (not (status == 0)) (status_error status)
    a ← decoded []
    ok (record r { status = status; response = a })

  unfoldable pub unmarshal_command_done :
      Bytes → CommandResponse A → Checked MessageError (CommandResponse A)
  unmarshal_command_done s r = do
    _ ← refuse_if (ltb (length s) 48) (response_too_short (length s))
    total ← uint32_at s 12
    current ← uint32_at s 16
    service ← slice s 20 36
    command ← uint32_at s 36
    status ← uint32_at s 40
    _ ← refuse_if (not (status == 0)) (status_error status)
    _ ← refuse_if (not (total == 1) || not (current == 0)) (fragmented_response current total)
    len ← uint32_at s 44
    _ ← refuse_if (ltb ((length s - 48) % 2 ^ 32) len) (buffer_too_long len (length s - 48))
    buffer ← slice s 48 ((48 + len) % 2 ^ 32)
    a ← decoded buffer
    ok (record r {
      fragment_total = total;
      fragment_current = current;
      service_id = service;
      command_id = command;
      status = status;
      response_length = len;
      response_buffer = buffer;
      response = a;
    })

  unfoldable pub unmarshal_function_error : Bytes → Checked MessageError (CommandResponse A)
  unmarshal_function_error s = do
    _ ← refuse_if (not (length s == 16)) (wrong_length (length s))
    code ← uint32_at s 12
    err (protocol_error code)

  -- The fields before the switch on the message's type; the others are still zero.
  abbrev pub started : ℕ → ℕ → ℕ → CommandResponse A
  started message_type len transaction_id = record {
    message_type = message_type;
    message_length = len;
    transaction_id = transaction_id;
    fragment_total = 0;
    fragment_current = 0;
    service_id = replicate 16 0;
    command_id = 0;
    status = 0;
    response_length = 0;
    response_buffer = [];
    response = none;
  }

  unfoldable pub unmarshal_response : Bytes → Checked MessageError (CommandResponse A)
  unmarshal_response s = do
    _ ← refuse_if (ltb (length s) 12) (response_too_short (length s))
    message_type ← uint32_at s 0
    len ← uint32_at s 4
    transaction_id ← uint32_at s 8
    _ ← refuse_if (not (len == length s % 2 ^ 32)) (length_mismatch len (length s))
    let r = started message_type len transaction_id
    if (message_type == 0x80000001) || (message_type == 0x80000002)
        then unmarshal_status_done s r
        else if message_type == 0x80000003
        then unmarshal_command_done s r
        else if message_type == 0x80000004
        then unmarshal_function_error s
        else err (unexpected_type message_type)

-- The request of a command in one fragment, as driver/mbim/protocol.go makes them.
abbrev pub command_request : {A : Type 0} → ℕ → Bytes → ℕ → ℕ → Bytes → Decoder A → Request A
command_request transaction_id service_id command_id command_type s decoder = record {
  message_type = 3;
  transaction_id = transaction_id;
  payload = command_payload (record {
    fragment_total = 1;
    fragment_current = 0;
    service_id = service_id;
    command_id = command_id;
    command_type = command_type;
    data_bytes = s;
  });
  response = decoder;
}
