-- ===== src/Qmi/UimTests.antt =====
-- The messages and the client of the UIM service (driver/qmi/uim/) at concrete inputs.
use euicc_go.Prelude.{
  ℕ, ◌+◌, ◌*◌, ◌≤◌, ◌≡◌, refl, ◌⊎◌, some, List, [], ◌∷◌, length, All, ◌==◌, if◌then◌else◌, arith,
}
use euicc_go.Prelude.Action.{Result, ok, err}
use euicc_go.Qmi.Tlvs.{QmiTlv, find_tlv}
use euicc_go.Qmi.Uim.{
  UimError, transport_error, Slot, unmarshal_slot_status, unmarshal_card_status, read_uint8,
  read_uint16, read_uint32, read_uint8_array, read_slots, read_slot, read_card_status, read_cards,
  read_applications, skip_bytes, ready, field,
}
use euicc_go.Qmi.Uim.Slots.{slots_bytes, IsLastActive, unmarshal_slot_status_lem}
use euicc_go.Qmi.Uim.Client.{
  UimRequest, Client, connect, ensure_slot_activated, current_activated_slot, switch_slot,
  wait_for_slot_activation, wait_loop,
}
use euicc_go.Qmi.Uim.Client.Fits.{IsFit, requests, connect_outcome}
use euicc_go.Qmi.Uim.Client.Calls.{
  UimCall, to_connect, to_open, to_close, to_transmit, all_called, all_called-IsFit,
}

-- The second slot is active.
abbrev two_slots : List Slot
two_slots =
    record { card_state = 2; slot_state = 0; logical_slot = 0; iccid = [] }
    ∷ record { card_state = 2; slot_state = 1; logical_slot = 1; iccid = 0x89 ∷ 0x44 ∷ [] }
    ∷ []

abbrev slots_tlv : QmiTlv
slots_tlv = field 0x10 (2 ∷ slots_bytes two_slots (0xFF ∷ []))

abbrev slots_answer : List QmiTlv
slots_answer = field 2 (0 ∷ 0 ∷ 0 ∷ 0 ∷ []) ∷ slots_tlv ∷ []

slots_answer_found : find_tlv slots_answer 0x10 ≡ some slots_tlv
unfolding find_tlv
slots_answer_found = refl

unmarshal_slot_status_lem_example :
    (n : ℕ) × (unmarshal_slot_status slots_answer
      ≡ ok (record { slots = two_slots; activated_slot = n }))
    × IsLastActive 0 0 two_slots n
unmarshal_slot_status_lem_example =
    unmarshal_slot_status_lem slots_answer slots_tlv two_slots (0xFF ∷ []) slots_answer_found refl
      (ground arith) (omega arith)

-- One card with a USIM that is ready.
abbrev card_answer : List QmiTlv
card_answer =
    field 0x10 (
      0 ∷ 0 ∷ 0xFF ∷ 0xFF ∷ 0xFF ∷ 0xFF ∷ 0xFF ∷ 0xFF ∷ 1 ∷ 1 ∷ 0 ∷ 0 ∷ 0 ∷ 0 ∷ 1 ∷ 2 ∷ 7 ∷ 0 ∷ 0
      ∷ 0 ∷ 0 ∷ 1 ∷ 0xA0 ∷ 0 ∷ 0 ∷ 0 ∷ 0 ∷ 0 ∷ 0 ∷ 0 ∷ [])
    ∷ []

-- A modem whose second slot is active, and whose card is ready at the given number of requests.
abbrev modem : ℕ → ℕ → UimRequest → ℕ → Result UimError (List QmiTlv) × ℕ
modem client txn (m, ts) n =
    if m == 0x47
    then (ok slots_answer, n + 1)
    else if m == 0x2F
    then (if n == 4 then ok card_answer else err (transport_error 1), n + 1)
    else (ok (field 0x10 (2 ∷ 0 ∷ 0x90 ∷ 0 ∷ []) ∷ []), n + 1)

abbrev new_client : Client ℕ
new_client = record { slot = 1; client_id = 5; txn_id = 0; channel = 0; world = 0; sent = [] }

-- The slots, the switch, and three times the card.
connect_counts : requests (connect modem new_client).1 ≡ 5
unfolding connect ensure_slot_activated current_activated_slot switch_slot wait_for_slot_activation
    wait_loop unmarshal_slot_status unmarshal_card_status find_tlv read_uint8 read_uint16
    read_uint32 read_uint8_array read_slots read_slot read_card_status read_cards read_applications
    skip_bytes ready
connect_counts = refl

connect_outcome_example :
    All IsFit (connect modem new_client).1.sent
    × (requests (connect modem new_client).1 ≤ requests new_client + 12)
    × ((connect modem new_client).1.channel ≡ new_client.channel)
    × ((((connect modem new_client).0 ≡ ok tt) × ((connect modem new_client).1.slot ≡ 1))
        ⊎ ((e : UimError) × ((connect modem new_client).0 ≡ err e)
            × ((connect modem new_client).1.slot ≡ new_client.slot)))
connect_outcome_example = connect_outcome modem new_client tt

abbrev some_calls : List UimCall
some_calls =
    to_connect ∷ to_open (0xA0 ∷ 0 ∷ []) ∷ to_transmit (0 ∷ 0xA4 ∷ 4 ∷ 0 ∷ []) ∷ to_close 1 ∷ []

all_called-IsFit_example :
    All IsFit (all_called modem some_calls new_client).sent
    × (requests (all_called modem some_calls new_client)
        ≤ requests new_client + 12 * length some_calls)
all_called-IsFit_example = all_called-IsFit modem some_calls new_client tt
