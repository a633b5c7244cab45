-- ===== src/Mbim/WireTests.antt =====
-- Requests written to a connection, and their answers read from it.
use euicc_go.Prelude.{
  ◌+◌, ◌-◌, ◌^◌, ◌≤◌, ◌≡◌, ◌↔◌, inl, refl, none, some, List, [], ◌∷◌, ◌++◌, Bytes, take, drop, map,
  arith,
}
use euicc_go.Mbim.Words.{ok, panic, put_uint32}
use euicc_go.Mbim.Fragment.{header, frames, frames_loop}
use euicc_go.Mbim.Message.{Decoder, message}
use euicc_go.Mbim.Message.Done.{command_done}
use euicc_go.Mbim.Wire.{Arrival, byte, lapse, read_from}
use euicc_go.Mbim.Wire.Traffic.{Traffic, done, idle, other, ours}
use euicc_go.Mbim.Wire.Answered.{delivered, read_from-command_done}
use euicc_go.Mbim.Protocol.{
  transmit_apdu_request, service_ms_uicc_low_level_access, slot_mappings_data,
  unmarshal_slot_mappings, unmarshal_transmit_apdu, unmarshal_open_channel,
}
use euicc_go.Mbim.Protocol.Slots.{unmarshal_slot_mappings-slot_mappings_data}
use euicc_go.Mbim.Protocol.Buffers.{unmarshal-panic_iff, apdu_answer, channel_answer}

unmarshal_slot_mappings-slot_mappings_data_example :
    unmarshal_slot_mappings (slot_mappings_data 2 (1 ∷ 4294967295 ∷ [])) ≡ ok (1 ∷ 4294967295 ∷ [])
unmarshal_slot_mappings-slot_mappings_data_example =
    unmarshal_slot_mappings-slot_mappings_data (1 ∷ 4294967295 ∷ [])
      (omega arith, (omega arith, tt)) (omega arith)

-- A length of 2^32 - 1 behind a status: eleven with the offset.
unmarshal-panic_iff_example :
    ((unmarshal_transmit_apdu (apdu_answer 0x90 4294967295 (0 ∷ 0 ∷ 0 ∷ 0 ∷ [])) ≡ panic)
      ↔ ((2 ^ 32 ≤ 12 + 4294967295) × (12 + 4294967295 - 2 ^ 32 ≤ 12)))
    × ((unmarshal_open_channel (channel_answer 0x90 1 4294967295 (0 ∷ 0 ∷ 0 ∷ 0 ∷ [])) ≡ panic)
        ↔ ((2 ^ 32 ≤ 16 + 4294967295) × (16 + 4294967295 - 2 ^ 32 ≤ 16)))
unmarshal-panic_iff_example =
    unmarshal-panic_iff 0x90 4294967295 (omega arith) 1 (0 ∷ 0 ∷ 0 ∷ 0 ∷ []) (omega arith)
      (omega arith)

wrapped_length : unmarshal_transmit_apdu (apdu_answer 0x90 4294967295 (0 ∷ 0 ∷ 0 ∷ 0 ∷ [])) ≡ panic
unfolding unmarshal_transmit_apdu
wrapped_length = refl

abbrev request_data : Bytes
request_data = put_uint32 1 ++ put_uint32 0

abbrev none_decoder : Decoder (Unit {0})
none_decoder = none

-- The status 9000, two bytes, their offset and the bytes.
abbrev apdu_buffer : Bytes
apdu_buffer = put_uint32 0x90 ++ (put_uint32 2 ++ (put_uint32 12 ++ (1 ∷ 2 ∷ [])))

abbrev apdu_done : Bytes
apdu_done = command_done 5 service_ms_uicc_low_level_access 4 apdu_buffer

abbrev done_start : Bytes
done_start = header 0x80000003 50 5 2 0 ++ take 30 (drop 20 apdu_done)

abbrev done_end : Bytes
done_end = header 0x80000003 32 5 2 1 ++ drop 30 (drop 20 apdu_done)

abbrev indication : Bytes
indication = message 0x80000007 0 (1 ∷ [])

done_frames : frames apdu_done 50 ≡ ok (done_start ∷ done_end ∷ [])
unfolding frames frames_loop
done_frames = refl

abbrev incoming : List Arrival
incoming = map byte indication ++ (map byte done_start ++ (lapse ∷ (map byte done_end ++ [])))

incoming_traffic : Traffic 5 (done_start ∷ done_end ∷ []) 4 incoming
incoming_traffic =
    other indication
      (
        0x80000007,
        0,
        (1 ∷ [], refl, omega arith, omega arith, omega arith),
        inl λ e. absurd (omega arith),
      )
      (ours done_start (drop 12 done_start, refl, omega arith, omega arith, omega arith)
        (idle (ours done_end (drop 12 done_end, refl, omega arith, omega arith, omega arith) done)))

read_from-command_done_example :
    read_from (transmit_apdu_request 5 1 0 0 (0x80 ∷ 0xCA ∷ [])) (λ conn. none) 30 incoming
    ≡ delivered
        (transmit_apdu_request 5 1 0 0 (0x80 ∷ 0xCA ∷ []))
        (48 + 14)
        (ok (some (0x90, 1 ∷ 2 ∷ [])))
unfolding transmit_apdu_request unmarshal_transmit_apdu
read_from-command_done_example =
    read_from-command_done (transmit_apdu_request 5 1 0 0 (0x80 ∷ 0xCA ∷ [])) refl (omega arith)
      (λ conn. none) (λ conn. refl) service_ms_uicc_low_level_access refl 4 (omega arith)
      apdu_buffer (omega arith) 50 (done_start ∷ done_end ∷ []) (omega arith) done_frames 4 incoming
      incoming_traffic 30 (omega arith)
