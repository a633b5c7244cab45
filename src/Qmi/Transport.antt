-- ===== src/Qmi/Transport.antt =====
-- driver/qmi/transport/qmi/: the bytes of a request, and what is read from those of an answer.
pub mod Frames
use euicc_go.Prelude.{
  ℕ, zero, suc, ◌+◌, ◌*◌, ◌/◌, ◌%◌, Bool, true, false, not, Option, none, some, List, [], ◌∷◌, ◌++◌,
  Bytes, length, to_byte, ltb, ◌==◌, if◌then◌else◌,
}
use euicc_go.Prelude.Action.{Result, ok, err}
use euicc_go.Qmi.Tlvs.{QmiTlv, TlvError, ReadOutcome, WriteOutcome, read_tlvs, write_tlvs}

pub record QmiRequest : Type 0 where
  pub client_id : ℕ
  pub transaction_id : ℕ
  pub service_type : ℕ
  pub message_id : ℕ
  pub value : List QmiTlv

pub data FrameError : Type 0 where
  bad_tlvs : TlvError → FrameError
  -- "QMI message TLVs length %d exceeds limit %d"
  tlvs_too_long : ℕ → ℕ → FrameError
  -- "data too short: got %d bytes", "unexpected QMUX marker 0x%02X"
  data_too_short unexpected_marker : ℕ → FrameError
  -- "QMUX length mismatch: got %d bytes, header declares %d", and of the TLVs, got and parsed
  qmux_length tlvs_length tlvs_parsed : ℕ → ℕ → FrameError
  -- "read … header"
  short_header : FrameError

-- A complete message.
pub record QmiResponse : Type 0 where
  pub service_type : ℕ
  pub client_id : ℕ
  pub transaction_id : ℕ
  pub message_id : ℕ
  pub message_type : ℕ
  pub message_length : ℕ
  pub value : List QmiTlv

abbrev pub service_control : ℕ
service_control = 0

abbrev pub max_value_length : ℕ → ℕ
max_value_length service = if service == service_control then 65523 else 65522

-- A little endian word and what follows.
abbrev pub word : ℕ → Bytes → Bytes
word n s = n % 256 ∷ n / 256 % 256 ∷ s

-- Header[uint8] or Header[uint16], with the encoded TLVs.
abbrev pub sdu_bytes : ℕ → QmiRequest → Bytes → Bytes
sdu_bytes message_type r value =
    if r.service_type == service_control
    then message_type ∷ to_byte r.transaction_id ∷ word r.message_id (word (length value) value)
    else message_type ∷ word r.transaction_id (word r.message_id (word (length value) value))

-- The QMUX header, with what it is before.
abbrev pub qmux_bytes : QmiRequest → Bytes → Bytes
qmux_bytes r sdu = 1 ∷ word (length sdu + 5) (0 ∷ r.service_type ∷ r.client_id ∷ sdu)

abbrev pub framed : ℕ → QmiRequest → WriteOutcome → Result FrameError Bytes
framed message_type r w = elim w.failure [
  | some e ↦ err (bad_tlvs e)
  | none ↦
      if ltb (max_value_length r.service_type) (length w.output)
      then err (tlvs_too_long (length w.output) (max_value_length r.service_type))
      else ok (qmux_bytes r (sdu_bytes message_type r w.output))
]

-- `bytes` of a message of any type; the code writes requests, and reads responses in the same form.
unfoldable pub message_bytes : ℕ → QmiRequest → Result FrameError Bytes
message_bytes message_type r = framed message_type r (write_tlvs r.value)

abbrev pub message_type_request : ℕ
message_type_request = 0

abbrev pub request_bytes : QmiRequest → Result FrameError Bytes
request_bytes = message_bytes message_type_request

abbrev with_value : QmiResponse → ReadOutcome → Result FrameError QmiResponse
with_value h o = elim o.failure [
  | some e ↦ err (bad_tlvs e)
  | none ↦
      if o.read == h.message_length
      then ok (record h { value = o.tlvs })
      else err (tlvs_parsed o.read h.message_length)
]

abbrev message_of : QmiResponse → Bytes → Result FrameError QmiResponse
message_of h s =
    if not (length s == h.message_length)
    then err (tlvs_length (length s) h.message_length)
    else if h.message_length == 0
    then ok h
    else with_value h (read_tlvs s [])

abbrev response : ℕ → ℕ → ℕ → ℕ → ℕ → ℕ → QmiResponse
response service client message_type txn message_id n = record {
  service_type = service;
  client_id = client;
  transaction_id = txn;
  message_id = message_id;
  message_type = message_type;
  message_length = n;
  value = [];
}

abbrev control_message : ℕ → ℕ → Bytes → Result FrameError QmiResponse
control_message service client (t ∷ txn ∷ i₀ ∷ i₁ ∷ n₀ ∷ n₁ ∷ s) =
    message_of (response service client t txn (i₀ + i₁ * 256) (n₀ + n₁ * 256)) s
control_message service client s = err short_header

abbrev service_message : ℕ → ℕ → Bytes → Result FrameError QmiResponse
service_message service client (t ∷ x₀ ∷ x₁ ∷ i₀ ∷ i₁ ∷ n₀ ∷ n₁ ∷ s) =
    message_of (response service client t (x₀ + x₁ * 256) (i₀ + i₁ * 256) (n₀ + n₁ * 256)) s
service_message service client s = err short_header

abbrev qmux_message : Bytes → Result FrameError QmiResponse
qmux_message (marker ∷ n₀ ∷ n₁ ∷ flags ∷ service ∷ client ∷ s) =
    if not (marker == 1)
    then err (unexpected_marker marker)
    else if not (6 + length s == n₀ + n₁ * 256 + 1)
    then err (qmux_length (6 + length s) (n₀ + n₁ * 256 + 1))
    else if service == service_control
    then control_message service client s
    else service_message service client s
qmux_message s = err short_header

unfoldable pub unmarshal_binary : Bytes → Result FrameError QmiResponse
unmarshal_binary s = if ltb (length s) 12 then err (data_too_short (length s)) else qmux_message s
