-- ===== src/Mbim/Fragment/Frame.antt =====
-- One frame read back (driver/mbim/fragment.go: `fragment.UnmarshalBinary`).
use euicc_go.Prelude.{
  ℕ, ◌+◌, ◌%◌, ◌^◌, ◌<◌, ◌≡◌, true, false, ◌++◌, Bytes, length, ltb, leb, ◌==◌, le→ltb, arith,
}
use euicc_go.Mbim.Words.{ok, put_uint32_lem}
use euicc_go.Mbim.Fragment.{header, is_fragment_message, unmarshal_fragment}

module _ (message_type transaction_id total current : ℕ) (payload : Bytes)
    (message_type_short : message_type < 2 ^ 32) (transaction_id_short : transaction_id < 2 ^ 32)
    (total_short : total < 2 ^ 32) (number : current < total)
    (payload_short : 20 + length payload < 2 ^ 32)
    (fragments : is_fragment_message message_type ≡ true) where
  abbrev frame : Bytes
  frame = header message_type (20 + length payload) transaction_id total current ++ payload

  length-frame : length frame ≡ 20 + length payload
  length-frame = omega arith

  pub unmarshal_fragment-header :
      unmarshal_fragment frame
      ≡ ok (record {
        message_type = message_type;
        transaction_id = transaction_id;
        total = total;
        current = current;
        payload = payload;
      })
  unfolding unmarshal_fragment
  unmarshal_fragment-header =
      let long : ltb (length frame) 20 ≡ false = le→ltb _ _ (omega arith) in
      let same : ((20 + length payload) == (length frame % 2 ^ 32)) ≡ true = ground arith in
      let some_fragments : (total == 0) ≡ false = ground arith in
      let inside : leb total current ≡ false = ground arith in
      rw (
        long,
        put_uint32_lem message_type message_type_short,
        fragments,
        put_uint32_lem (20 + length payload) payload_short,
        same,
        put_uint32_lem transaction_id transaction_id_short,
        put_uint32_lem total total_short,
        put_uint32_lem current (omega arith),
        some_fragments,
        inside,
      )
