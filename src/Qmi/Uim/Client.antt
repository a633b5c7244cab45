-- ===== src/Qmi/Uim/Client.antt =====
-- driver/qmi/uim/client.go: the calls of a client of the UIM service. A transport's `Transmit` is a
-- parameter; the delays between two attempts are not modelled.
pub mod Fits
pub mod Calls
use euicc_go.Prelude.{
  ℕ, zero, suc, ◌+◌, ◌%◌, ◌^◌, Bool, true, false, Option, none, some, List, [], ◌∷◌, Bytes, length,
  ltb, ◌==◌, if◌then◌else◌,
}
use euicc_go.Prelude.Action.{Result, ok, err, Action, ◌>>=◌, ◌>>◌, continue, pure, fail_if}
use euicc_go.Qmi.Tlvs.{QmiTlv}
use euicc_go.Qmi.Uim.{
  UimError, not_supported, not_available, not_available_after, aid_too_long, command_too_long,
  SlotStatus, CardStatus, unmarshal_slot_status, unmarshal_card_status, ready, switch_slot_request,
  open_logical_channel_request, unmarshal_open_channel, close_logical_channel_request,
  transmit_apdu_request, unmarshal_transmit_apdu,
}

-- A message's number and its TLVs.
abbrev pub UimRequest : Type 0
UimRequest = ℕ × List QmiTlv

-- A client, with the requests that it gave to the transport, the last one first.
pub record Client (W : Type 0) : Type 0 where
  pub slot : ℕ
  pub client_id : ℕ
  pub txn_id : ℕ
  pub channel : ℕ
  pub world : W
  pub sent : List UimRequest

abbrev pub max_aid_length : ℕ
max_aid_length = 0xFF

-- MaxEncodedMessageLength less the two headers.
abbrev pub max_qmux_service_tlv_length : ℕ
max_qmux_service_tlv_length = 65522

abbrev pub max_transmit_apdu_command_length : ℕ
max_transmit_apdu_command_length = 65509

abbrev pub get_slot_status_request : UimRequest
get_slot_status_request = (0x47, [])

abbrev pub get_card_status_request : UimRequest
get_card_status_request = (0x2F, [])

-- `Response.UnmarshalResponse`, after the transport's own errors.
abbrev pub answered :
    {A : Type 0}
    → (List QmiTlv → Result UimError A)
    → Result UimError (List QmiTlv)
    → Result UimError A
answered decode (ok ts) = decode ts
answered decode (err e) = err e

-- SwitchSlotResponse and CloseLogicalChannelResponse.
abbrev pub unmarshal_nothing : List QmiTlv → Result UimError (Unit {0})
unmarshal_nothing ts = ok tt

module _ {W : Type 0} (transport : ℕ → ℕ → UimRequest → W → Result UimError (List QmiTlv) × W) where
  -- A request with the next transaction id.
  abbrev pub request :
      {A : Type 0} → UimRequest → (List QmiTlv → Result UimError A) → Action (Client W) UimError A
  request message decode c =
      let txn = (c.txn_id + 1) % 2 ^ 32 in
      let (r, w) = transport c.client_id (txn % 2 ^ 16) message c.world in
      (answered decode r, record c { txn_id = txn; world = w; sent = message ∷ c.sent })

  unfoldable pub current_activated_slot : Action (Client W) UimError ℕ
  current_activated_slot = do
    status ← request get_slot_status_request unmarshal_slot_status
    pure status.activated_slot

  unfoldable pub switch_slot : Action (Client W) UimError (Unit {0})
  switch_slot c = request (switch_slot_request 1 c.slot) unmarshal_nothing c

  abbrev gave_up : ℕ → Option UimError → UimError
  gave_up slot none = not_available slot
  gave_up slot (some e) = not_available_after slot e

  -- The loop, with the attempts left and the last error.
  unfoldable pub wait_loop : ℕ → Option UimError → Action (Client W) UimError (Unit {0})
  wait_loop zero e c = (err (gave_up c.slot e), c)
  wait_loop (suc n) e c =
      let (r, c') = request get_card_status_request unmarshal_card_status c in
      elim r [
        | err e' ↦ wait_loop n (some e') c'
        | ok status ↦ let rest = wait_loop n none c' in if ready status then (ok tt, c') else rest
      ]

  unfoldable pub wait_for_slot_activation : Action (Client W) UimError (Unit {0})
  wait_for_slot_activation = wait_loop 10 none

  abbrev examined : Result UimError ℕ × Client W → Result UimError (Unit {0}) × Client W
  examined (err not_supported, c) = (ok tt, c)
  examined (err e, c) = (err e, c)
  examined (ok slot, c) =
      if slot == c.slot then (ok tt, c) else (switch_slot >> wait_for_slot_activation) c

  unfoldable pub ensure_slot_activated : Action (Client W) UimError (Unit {0})
  ensure_slot_activated c = examined (current_activated_slot c)

  unfoldable pub connect : Action (Client W) UimError (Unit {0})
  connect = do ensure_slot_activated; λ c. (ok tt, record c { slot = 1 })

  unfoldable pub open_logical_channel : Bytes → Action (Client W) UimError ℕ
  open_logical_channel aid = do
    fail_if (ltb max_aid_length (length aid)) (aid_too_long (length aid))
    channel ← λ c. request (open_logical_channel_request c.slot aid) unmarshal_open_channel c
    λ c. (ok channel, record c { channel = channel })

  unfoldable pub close_logical_channel : ℕ → Action (Client W) UimError (Unit {0})
  close_logical_channel channel c =
      request (close_logical_channel_request c.slot channel) unmarshal_nothing c

  unfoldable pub transmit : Bytes → Action (Client W) UimError Bytes
  transmit command = do
    fail_if (ltb max_transmit_apdu_command_length (length command))
        (command_too_long (length command))
    λ c. request (transmit_apdu_request c.slot c.channel command) unmarshal_transmit_apdu c
