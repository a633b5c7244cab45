-- ===== src/Mbim/Message/Whole.antt =====
-- A message in one fragment, by its two headers (driver/mbim/types.go, driver/mbim/fragment.go).
use euicc_go.Prelude.{ℕ, ◌+◌, ◌≡◌, refl, ◌++◌, Bytes, length, arith}
use euicc_go.Mbim.Words.{put_uint32}
use euicc_go.Mbim.Fragment.{header}
use euicc_go.Mbim.Message.{message}

pub message-header :
    (message_type transaction_id : ℕ) (rest : Bytes)
    → message message_type transaction_id (put_uint32 1 ++ (put_uint32 0 ++ rest))
      ≡ header message_type (20 + length rest) transaction_id 1 0 ++ rest
message-header message_type transaction_id rest =
    let e : 12 + length (put_uint32 1 ++ (put_uint32 0 ++ rest)) ≡ 20 + length rest = omega arith in
    rw e refl
