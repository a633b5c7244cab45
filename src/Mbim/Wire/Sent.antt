-- ===== src/Mbim/Wire/Sent.antt =====
-- What a request puts on the connection (driver/mbim/types.go: `Request.WriteTo`).
use euicc_go.Prelude.{ℕ, ◌++◌, Bytes, length}
use euicc_go.Mbim.Words.{put_uint32}
use euicc_go.Mbim.Message.{Decoder, command_request, marshal_request}

module _ {A : Type 0} (transaction_id : ℕ) (service_id : Bytes) (command_id command_type : ℕ)
    (s : Bytes) (decoder : Decoder A) where
  abbrev pub sent_request : Bytes
  sent_request =
      marshal_request (command_request transaction_id service_id command_id command_type s decoder)

  -- What stands behind the twenty bytes of the header.
  abbrev rest : Bytes
  rest =
      service_id
      ++ (put_uint32 command_id ++ (put_uint32 command_type ++ (put_uint32 (length s) ++ s)))
