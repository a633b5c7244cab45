-- ===== src/Mbim/Session.antt =====
-- The session with a modem (driver/mbim/mbim.go). The exchange of a message with the modem is a
-- parameter; the delays between two attempts are not modelled.
pub mod Bounds
use euicc_go.Prelude.{
  ℕ, zero, suc, ◌+◌, ◌*◌, ◌/◌, ◌%◌, ◌^◌, Bool, true, false, ◌||◌, not, Option, none, some, List, [],
  ◌∷◌, ◌++◌, Bytes, to_byte, ◌==◌, if◌then◌else◌,
}
use euicc_go.Prelude.Action.{Result, ok, err, Action, ◌>>=◌, ◌>>◌, continue, pure, fail_if}

pub data SessionError : Type 0 where
  -- an error of the transport, by its number; io.EOF
  transport : ℕ → SessionError
  end_of_file : SessionError
  -- "device %s is not connected", "no slot mappings found"
  not_connected : Bytes → SessionError
  no_slot_mappings : SessionError
  -- "sim did not become available …", with the last ready state, and with the last error
  not_available : Option ℕ → SessionError
  not_available_after : SessionError → Option ℕ → SessionError
  -- "… logical channel status %04X"
  bad_status : ℕ → SessionError
  -- `errors.Join`
  joined : SessionError → SessionError → SessionError

-- What a request with a transaction id is answered, and `conn.Close`.
pub record Modem (W : Type 0) : Type 0 where
  pub proxy_config : ℕ → Bytes → W → Result SessionError (Unit {0}) × W
  pub open_device : ℕ → W → Result SessionError (Unit {0}) × W
  pub slot_mappings : ℕ → W → Result SessionError (List ℕ) × W
  pub map_slot : ℕ → ℕ → W → Result SessionError (Unit {0}) × W
  pub ready_state : ℕ → W → Result SessionError ℕ × W
  -- the status and the channel
  pub open_channel : ℕ → Bytes → W → Result SessionError (ℕ × ℕ) × W
  -- the channel and the command; the response and the status
  pub transmit : ℕ → ℕ → Bytes → W → Result SessionError (Bytes × ℕ) × W
  pub close_channel : ℕ → ℕ → W → Result SessionError ℕ × W
  pub close_device : ℕ → W → Result SessionError (Unit {0}) × W
  pub close : W → Option SessionError × W

-- An MBIM.
pub record Session (W : Type 0) : Type 0 where
  pub device : Bytes
  pub slot : ℕ
  pub txn_id : ℕ
  pub channel : ℕ
  pub world : W

-- MBIMSubscriberReadyStateInitialized, MBIMSubscriberReadyStateNoEsimProfile.
abbrev pub is_available : ℕ → Bool
is_available state = (state == 1) || (state == 7)

abbrev pub slot_activation_attempts : ℕ
slot_activation_attempts = 10

unfoldable pub uicc_status_word : ℕ → Bytes
uicc_status_word status = to_byte status ∷ to_byte (status / 2 ^ 8) ∷ []

-- The two bytes of the status word, the first one the higher.
unfoldable pub uicc_status_code : ℕ → ℕ
uicc_status_code status = to_byte status * 2 ^ 8 + to_byte (status / 2 ^ 8)

unfoldable pub uicc_status_ok : ℕ → Bool
uicc_status_ok status = (status == 0) || (uicc_status_code status == 0x9000)

module _ {W : Type 0} (modem : Modem W) where
  -- `atomic.AddUint32(&m.txnID, 1)`, and the request with it.
  abbrev pub request :
      {A : Type 0} → (ℕ → W → Result SessionError A × W) → Action (Session W) SessionError A
  request f s =
      let txn = (s.txn_id + 1) % 2 ^ 32 in
      let (r, w) = f txn s.world in (r, record s { txn_id = txn; world = w })

  abbrev first_slot : List ℕ → Action (Session W) SessionError ℕ
  first_slot [] s = (err no_slot_mappings, s)
  first_slot (slot ∷ slots) s = (ok (slot % 2 ^ 8), s)

  unfoldable pub current_activated_slot : Action (Session W) SessionError ℕ
  current_activated_slot = do slots ← request modem.slot_mappings; first_slot slots

  unfoldable pub activate_slot : ℕ → Action (Session W) SessionError (Unit {0})
  activate_slot slot = request (λ txn. modem.map_slot txn slot)

  abbrev gave_up : Option SessionError → Option ℕ → SessionError
  gave_up none seen = not_available seen
  gave_up (some e) seen = not_available_after e seen

  -- The loop of `waitForSlotActivation`, with the attempts left, the last error and the last state.
  unfoldable pub wait_loop :
      ℕ → Option SessionError → Option ℕ → Action (Session W) SessionError (Unit {0})
  wait_loop zero e seen s = (err (gave_up e seen), s)
  wait_loop (suc n) e seen s =
      let (r, s') = request modem.ready_state s in
      elim r [
        | err e' ↦ wait_loop n (some e') seen s'
        | ok state ↦
            let rest = wait_loop n none (some state) s' in
            if is_available state then (ok tt, s') else rest
      ]

  unfoldable pub wait_for_slot_activation : Action (Session W) SessionError (Unit {0})
  wait_for_slot_activation = wait_loop slot_activation_attempts none none

  unfoldable pub ensure_slot_activated : Action (Session W) SessionError (Unit {0})
  ensure_slot_activated = do
    slot ← current_activated_slot
    λ s. if slot == s.slot then (ok tt, s) else (activate_slot s.slot >> wait_for_slot_activation) s

  abbrev configured :
      Result SessionError (Unit {0}) × Session W → Result SessionError (Unit {0}) × Session W
  configured (ok _, s) = (ok tt, s)
  configured (err end_of_file, s) = (err (not_connected s.device), s)
  configured (err e, s) = (err e, s)

  unfoldable pub configure_proxy : Action (Session W) SessionError (Unit {0})
  configure_proxy s = configured (request (λ txn. modem.proxy_config txn s.device) s)

  unfoldable pub open_device : Action (Session W) SessionError (Unit {0})
  open_device = request modem.open_device

  abbrev join : SessionError → Option SessionError → SessionError
  join e none = e
  join e (some e') = joined e e'

  abbrev closed : Session W → Option SessionError × Session W
  closed s = let (e, w) = modem.close s.world in (e, record s { world = w })

  -- The deferred function of `Connect`.
  abbrev pub deferred :
      Result SessionError (Unit {0}) × Session W → Result SessionError (Unit {0}) × Session W
  deferred (ok _, s) = (ok tt, s)
  deferred (err e, s) = let (e', s') = closed s in (err (join e e'), s')

  unfoldable pub connect_steps : Action (Session W) SessionError (Unit {0})
  connect_steps = do configure_proxy; open_device; ensure_slot_activated

  unfoldable pub connect : Action (Session W) SessionError (Unit {0})
  connect s = deferred (connect_steps s)

  unfoldable pub open_logical_channel : Bytes → Action (Session W) SessionError ℕ
  open_logical_channel aid = do
    answer ← request (λ txn. modem.open_channel txn aid)
    fail_if (not (uicc_status_ok answer.0)) (bad_status (uicc_status_code answer.0))
    λ s. (ok (to_byte answer.1), record s { channel = answer.1 })

  unfoldable pub transmit : Bytes → Action (Session W) SessionError Bytes
  transmit command s =
      continue (request (λ txn. modem.transmit txn s.channel command) s)
        (λ answer. pure (answer.0 ++ uicc_status_word answer.1))

  unfoldable pub close_logical_channel : ℕ → Action (Session W) SessionError (Unit {0})
  close_logical_channel channel = do
    status ← request (λ txn. modem.close_channel txn channel)
    fail_if (not (uicc_status_ok status)) (bad_status (uicc_status_code status))

  abbrev both :
      Result SessionError (Unit {0}) → Option SessionError → Result SessionError (Unit {0})
  both (ok _) none = ok tt
  both (ok _) (some e) = err e
  both (err e) e' = err (join e e')

  unfoldable pub disconnect : Action (Session W) SessionError (Unit {0})
  disconnect s =
      let (r, s') = request modem.close_device s in let (e, s'') = closed s' in (both r e, s'')
