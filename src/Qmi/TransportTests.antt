-- ===== src/Qmi/TransportTests.antt =====
-- Messages of QMI (driver/qmi/transport/qmi/) at concrete inputs.
use euicc_go.Prelude.{◌≡◌, ◌≤◌, refl, [], ◌∷◌, Bytes, length, arith}
use euicc_go.Prelude.Action.{ok}
use euicc_go.Qmi.Tlvs.{write_tlvs, tlvs_error, find_tlv, result_error}
use euicc_go.Qmi.Transport.{QmiRequest, message_bytes, request_bytes, unmarshal_binary}
use euicc_go.Qmi.Transport.Frames.{IsServiceMessage, message_read, unmarshal_binary-message_bytes}

-- A response of the UIM service: success, and a channel.
abbrev channel_opened : QmiRequest
channel_opened = record {
  client_id = 5;
  transaction_id = 0x0102;
  service_type = 0x0B;
  message_id = 0x42;
  value =
      record { kind = 2; len_field = 4; value = 0 ∷ 0 ∷ 0 ∷ 0 ∷ [] }
      ∷ record { kind = 0x10; len_field = 1; value = 1 ∷ [] }
      ∷ [];
}

channel_opened-IsServiceMessage : IsServiceMessage channel_opened
unfolding tlvs_error find_tlv result_error
channel_opened-IsServiceMessage = record {
  service = ground arith;
  transaction = omega arith;
  message = omega arith;
  tlvs = ground arith;
  success = refl;
}

channel_opened_short : length (write_tlvs channel_opened.value).output ≤ 65522
unfolding write_tlvs
channel_opened_short = omega arith

unmarshal_binary-message_bytes_example :
    (s : Bytes) × (message_bytes 2 channel_opened ≡ ok s)
    × (unmarshal_binary s
        ≡ ok (message_read 2 channel_opened (length (write_tlvs channel_opened.value).output)))
unmarshal_binary-message_bytes_example =
    unmarshal_binary-message_bytes 2 channel_opened channel_opened-IsServiceMessage
      channel_opened_short

-- GetCardStatus.
abbrev card_status : QmiRequest
card_status = record {
  client_id = 5;
  transaction_id = 0x0102;
  service_type = 0x0B;
  message_id = 0x2F;
  value = [];
}

request_written :
    request_bytes card_status ≡ ok (1 ∷ 12 ∷ 0 ∷ 0 ∷ 0x0B ∷ 5 ∷ 0 ∷ 2 ∷ 1 ∷ 0x2F ∷ 0 ∷ 0 ∷ 0 ∷ [])
unfolding message_bytes write_tlvs
request_written = refl
