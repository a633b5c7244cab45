-- ===== src/Ccid/Operations.antt =====
-- The methods of a reader (driver/ccid/ccid.go).
use euicc_go.Prelude.{
  ℕ, ◌+◌, ◌-◌, Bool, true, false, ◌&&◌, not, none, List, [], ◌∷◌, Bytes, ◌==◌, if◌then◌else◌,
}
use euicc_go.Prelude.Action.{Result, ok, err, Action, ◌>>=◌, ◌>>◌, pure, fail_if, continue}
use euicc_go.Card.Status.{status_ok, status_has_more}
use euicc_go.Card.Channels.{
  CardError, reader_closed, not_connected, reader_connected, reader_required, bad_status, Link,
  or_else, lift,
}
use euicc_go.Ccid.{
  Pcsc, Reader, Host, call, update, io_request_for_protocol, result_option, connect_command,
}

abbrev is_empty : Bytes → Bool
is_empty [] = true
is_empty (b ∷ bs) = false

-- The value that `NewWithReader` returns.
abbrev pub fresh : Bytes → Reader
fresh name = record { io_send = none; channel = 0; reader = name; is_open = false; closed = false }

module _ {W : Type 0} (pcsc : Pcsc W) where
  unfoldable pub acquire_pcsc : Action (Host W) CardError (Unit {0})
  acquire_pcsc h =
      if h.refs == 0
      then continue (call pcsc.initialize h)
          (λ _ h'. (ok tt, record h' { refs = h'.refs + 1; initialized = true }))
      else (ok tt, record h { refs = h.refs + 1 })

  unfoldable pub release_pcsc : Host W → Host W
  release_pcsc h =
      if h.refs == 0
      then h
      else if h.refs - 1 == 0
      then record h { refs = 0; initialized = false; world = pcsc.finalize h.world }
      else record h { refs = h.refs - 1 }

  abbrev contexted :
      Bytes → Result CardError (Unit {0}) × Host W → Result CardError (Unit {0}) × Host W
  contexted name (ok _, h) = (ok tt, record h { self = fresh name })
  contexted name (err e, h) = (err e, release_pcsc h)

  -- On an error there is no reader: `self` is then the one that was there before.
  unfoldable pub new_with_reader : Bytes → Action (Host W) CardError (Unit {0})
  new_with_reader name = do acquire_pcsc; λ h. contexted name (call pcsc.new_context h)

  unfoldable pub transmit : Bytes → Action (Host W) CardError Bytes
  transmit command h =
      if not h.self.is_open
      then (if h.self.closed then (err reader_closed, h) else (err not_connected, h))
      else call (pcsc.transmit command) h

  unfoldable pub disconnect_card : Action (Host W) CardError (Unit {0})
  disconnect_card h =
      if not h.self.is_open
      then (ok tt, h)
      else continue (call pcsc.disconnect h)
          (λ _. update (λ r. record r { is_open = false; io_send = none; channel = 0 }))

  abbrev released : Result CardError (Unit {0}) × Host W → Result CardError (Unit {0}) × Host W
  released (err e, h) = (err e, h)
  released (ok _, h) =
      let h' = record h { self = record h.self { closed = true } } in (ok tt, release_pcsc h')

  unfoldable pub disconnect : Action (Host W) CardError (Unit {0})
  disconnect h =
      if h.self.closed
      then (ok tt, h)
      else continue (disconnect_card h) (λ _ h'. released (call pcsc.release h'))

  abbrev protocol_set : ℕ → Action (Host W) CardError (Unit {0})
  protocol_set protocol = do
    update (λ r. record r {
      io_send = result_option (io_request_for_protocol protocol);
      is_open = true;
    })
    or_else (lift (io_request_for_protocol protocol)) disconnect_card
    pure tt

  abbrev initialized_card : Bytes → Action (Host W) CardError (Unit {0})
  initialized_card response =
      or_else
        (fail_if (not (status_ok response) && not (status_has_more response)) (bad_status response))
        disconnect_card

  unfoldable pub connect : Action (Host W) CardError (Unit {0})
  connect h =
      if h.self.closed
      then (err reader_closed, h)
      else if is_empty h.self.reader
      then (err reader_required, h)
      else (do
        protocol ← call (pcsc.connect h.self.reader)
        protocol_set protocol
        response ← or_else (transmit connect_command) disconnect_card
        initialized_card response)
          h

  unfoldable pub set_reader : Bytes → Action (Host W) CardError (Unit {0})
  set_reader name h =
      if h.self.closed
      then (err reader_closed, h)
      else if h.self.is_open
      then (err reader_connected, h)
      else update (λ r. record r { reader = name }) h

  unfoldable pub list_readers : Action (Host W) CardError (List Bytes)
  list_readers h = if h.self.closed then (err reader_closed, h) else call pcsc.list_readers h

  abbrev pub ccid_link : Link (Host W)
  ccid_link = record {
    transmit = transmit;
    channel = λ h. h.self.channel;
    set_channel = λ n h. record h { self = record h.self { channel = n } };
  }
