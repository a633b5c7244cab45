-- ===== src/Qmi/Transport/Frames.antt =====
-- A message is read back from its bytes (driver/qmi/transport/qmi/).
use euicc_go.Prelude.{
  ℕ, ◌+◌, ◌*◌, ◌/◌, ◌%◌, ◌≤◌, ◌<◌, ◌≡◌, ◌≢◌, refl, ap, false, none, List, [], ◌∷◌, Bytes, length,
  All, ltb, ◌==◌, arith,
}
use euicc_go.Prelude.Action.{ok}
use euicc_go.Qmi.Tlvs.{QmiTlv, write_tlvs, read_tlvs, tlvs_error, find_tlv, read_loop, outcome}
use euicc_go.Qmi.Tlvs.Codec.{IsQmiTlv, read_tlvs-write_tlvs}
use euicc_go.Qmi.Transport.{
  QmiRequest, QmiResponse, message_bytes, unmarshal_binary, qmux_bytes, sdu_bytes,
}

-- A request of a service other than the control service, with TLVs of which one is a result of success.
pub record IsServiceMessage (r : QmiRequest) : Type 0 where
  pub service : r.service_type ≢ 0
  pub transaction : r.transaction_id < 65536
  pub message : r.message_id < 65536
  pub tlvs : All IsQmiTlv r.value
  pub success : tlvs_error r.value ≡ none

-- What a message is read as.
abbrev pub message_read : ℕ → QmiRequest → ℕ → QmiResponse
message_read message_type r n = record {
  service_type = r.service_type;
  client_id = r.client_id;
  transaction_id = r.transaction_id;
  message_id = r.message_id;
  message_type = message_type;
  message_length = n;
  value = r.value;
}

-- An encoding with a result is not empty.
result_needs_bytes :
    (value : Bytes) (ts : List QmiTlv)
    → read_tlvs value [] ≡ outcome (length value) ts none
    → 0 < length value
unfolding read_tlvs read_loop tlvs_error find_tlv
result_needs_bytes [] ts e = ground arith
result_needs_bytes (b ∷ value) ts e = omega arith

frame_read :
    (t : ℕ) (r : QmiRequest) (value : Bytes)
    → IsServiceMessage r
    → length value ≤ 65522
    → read_tlvs value [] ≡ outcome (length value) r.value none
    → 0 < length value
    → unmarshal_binary (qmux_bytes r (sdu_bytes t r value)) ≡ ok (message_read t r (length value))
unfolding unmarshal_binary
frame_read t r value h short e some_value =
    let other : r.service_type == 0 ≡ false = ground (arith, h.service) in
    let txn : r.transaction_id % 256 + r.transaction_id / 256 % 256 * 256 ≡ r.transaction_id =
      omega (arith, h.transaction) in
    let message : r.message_id % 256 + r.message_id / 256 % 256 * 256 ≡ r.message_id =
      omega (arith, h.message) in
    let len : length value % 256 + length value / 256 % 256 * 256 ≡ length value =
      omega (arith, short) in
    rw (other, txn, message, len, e) (ground arith)

-- A message of a service other than the control service, with a transaction id and a message id of 16 bits
-- and TLVs whose lengths are those of their values, one of them a result of success, is written without an
-- error where the TLVs take at most 65,522 bytes, and the bytes are read back to the message.
pub unmarshal_binary-message_bytes :
    (t : ℕ) (r : QmiRequest)
    → IsServiceMessage r
    → length (write_tlvs r.value).output ≤ 65522
    → (s : Bytes) × (message_bytes t r ≡ ok s)
      × (unmarshal_binary s ≡ ok (message_read t r (length (write_tlvs r.value).output)))
unfolding message_bytes
unmarshal_binary-message_bytes t r h short =
    let (value, w, e) = read_tlvs-write_tlvs r.value [] h.tlvs in
    let other : r.service_type == 0 ≡ false = ground (arith, h.service) in
    let size : length (write_tlvs r.value).output ≡ length value = ap (λ o. length o.output) w in
    let short' : length value ≤ 65522 = omega (arith, size, short) in
    let fits : ltb 65522 (length value) ≡ false = ground (arith, short') in
    let e' = rw h.success at e in
    (
      qmux_bytes r (sdu_bytes t r value),
      rw (w, other, fits) refl,
      rw size (frame_read t r value h short' e' (result_needs_bytes value r.value e')),
    )
