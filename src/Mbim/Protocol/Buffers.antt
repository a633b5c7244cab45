-- ===== src/Mbim/Protocol/Buffers.antt =====
-- The buffers in the answers to OpenChannel and APDU (driver/mbim/protocol.go).
use euicc_go.Prelude.{
  ℕ, ◌+◌, ◌-◌, ◌%◌, ◌^◌, ◌≤◌, ◌<◌, ◌≡◌, ◌↔◌, true, false, ◌++◌, Bytes, length, take, drop, ltb, leb,
  le→ltb, arith,
}
use euicc_go.Mbim.Words.{Checked, ok, panic, ◌>>=◌, refuse_if, put_uint32, put_uint32_lem}
use euicc_go.Mbim.Message.{MessageError, buffer_too_short, slice}
use euicc_go.Mbim.Protocol.{unmarshal_transmit_apdu, unmarshal_open_channel}

-- `if len(data) < int(from+n)`, and `data[from:from+n]`.
module _ {A : Type 0} (s : Bytes) (from n : ℕ) (f : Bytes → A) (n_short : n < 2 ^ 32)
    (from_short : from < 2 ^ 32) where
  abbrev cut_out : Checked MessageError A
  cut_out = do
    _ ← refuse_if (ltb (length s) ((from + n) % 2 ^ 32)) buffer_too_short
    response ← slice s from ((from + n) % 2 ^ 32)
    ok (f response)

  cut_out-inside : from + n ≤ length s → from + n < 2 ^ 32 → cut_out ≡ ok (f (take n (drop from s)))
  cut_out-inside h h' =
      let e : (from + n) % 2 ^ 32 ≡ from + n = omega arith in
      let room : ltb (length s) (from + n) ≡ false = ground arith in
      let order : leb from (from + n) ≡ true = ground arith in
      let inside : leb (from + n) (length s) ≡ true = ground arith in
      let len : from + n - from ≡ n = omega arith in rw (e, room, order, inside, len)

  cut_out-panic_iff : (cut_out ≡ panic) ↔ ((2 ^ 32 ≤ from + n) × (from + n - 2 ^ 32 ≤ length s))
  cut_out-panic_iff = ground arith

-- A status, the length of the response, and the rest.
abbrev pub apdu_answer : ℕ → ℕ → Bytes → Bytes
apdu_answer status n rest = put_uint32 status ++ (put_uint32 n ++ rest)

abbrev pub channel_answer : ℕ → ℕ → ℕ → Bytes → Bytes
channel_answer status channel n rest =
    put_uint32 status ++ (put_uint32 channel ++ (put_uint32 n ++ rest))

module _ (status n : ℕ) (n_short : n < 2 ^ 32) where
  unmarshal_transmit_apdu-cut_out :
      (rest : Bytes)
      → status < 2 ^ 32
      → unmarshal_transmit_apdu (apdu_answer status n rest)
        ≡ cut_out (apdu_answer status n rest) 12 n (λ r. (status, r)) n_short (omega arith)
  unfolding unmarshal_transmit_apdu
  unmarshal_transmit_apdu-cut_out rest h =
      let long : ltb (length (apdu_answer status n rest)) 8 ≡ false = le→ltb _ _ (omega arith) in
      rw (long, put_uint32_lem status h, put_uint32_lem n n_short)

  unmarshal_open_channel-cut_out :
      (channel : ℕ) (rest : Bytes)
      → status < 2 ^ 32
      → channel < 2 ^ 32
      → unmarshal_open_channel (channel_answer status channel n rest)
        ≡ cut_out
            (channel_answer status channel n rest)
            16
            n
            (λ r. (status, channel, r))
            n_short
            (omega arith)
  unfolding unmarshal_open_channel
  unmarshal_open_channel-cut_out channel rest h h' =
      let long : ltb (length (channel_answer status channel n rest)) 12 ≡ false =
        le→ltb _ _ (omega arith) in
      rw (long, put_uint32_lem status h, put_uint32_lem channel h', put_uint32_lem n n_short)

  -- The answer to TransmitAPDU with a status, a response length and anything behind them, and the answer to OpenLogicalChannel with a channel
  -- between the two: decoding panics exactly where the length added to the offset of the response is 2^32 or more and wraps
  -- around to no more bytes than there are.
  pub unmarshal-panic_iff :
      (channel : ℕ) (rest : Bytes)
      → status < 2 ^ 32
      → channel < 2 ^ 32
      → ((unmarshal_transmit_apdu (apdu_answer status n rest) ≡ panic)
          ↔ ((2 ^ 32 ≤ 12 + n) × (12 + n - 2 ^ 32 ≤ length (apdu_answer status n rest))))
        × ((unmarshal_open_channel (channel_answer status channel n rest) ≡ panic) ↔ (
            (2 ^ 32 ≤ 16 + n) × (16 + n - 2 ^ 32 ≤ length (channel_answer status channel n rest))))
  unmarshal-panic_iff channel rest h h' = (
    rw (unmarshal_transmit_apdu-cut_out rest h) (
        cut_out-panic_iff (apdu_answer status n rest) 12 n (λ r. (status, r)) n_short
          (omega arith)),
    rw (unmarshal_open_channel-cut_out channel rest h h') (
        cut_out-panic_iff (channel_answer status channel n rest) 16 n (λ r. (status, channel, r))
          n_short (omega arith)),
  )
