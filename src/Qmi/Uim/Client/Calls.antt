-- ===== src/Qmi/Uim/Client/Calls.antt =====
-- Any calls of a client of the UIM service (driver/qmi/uim/client.go).
use euicc_go.Prelude.{
  ℕ, ◌+◌, ◌*◌, ◌≤◌, inl, inr, Bool-cases, List, [], ◌∷◌, Bytes, length, All, ltb, arith,
}
use euicc_go.Prelude.Action.{Result, Result-cases}
use euicc_go.Qmi.Tlvs.{QmiTlv}
use euicc_go.Qmi.Uim.{UimError, open_logical_channel_request, unmarshal_open_channel}
use euicc_go.Qmi.Uim.Client.{
  UimRequest, Client, max_aid_length, max_transmit_apdu_command_length, request, connect,
  open_logical_channel, close_logical_channel, transmit,
}
use euicc_go.Qmi.Uim.Client.Fits.{
  IsFit, requests, request-Sends, connect_outcome, open_logical_channel_request-IsFit,
  close_logical_channel_request-IsFit, transmit_apdu_request-IsFit,
}

pub data UimCall : Type 0 where
  to_connect : UimCall
  to_open : Bytes → UimCall
  to_close : ℕ → UimCall
  to_transmit : Bytes → UimCall

module _ {W : Type 0} (transport : ℕ → ℕ → UimRequest → W → Result UimError (List QmiTlv) × W) where
  abbrev pub called : UimCall → Client W → Client W
  called to_connect c = (connect transport c).1
  called (to_open aid) c = (open_logical_channel transport aid c).1
  called (to_close channel) c = (close_logical_channel transport channel c).1
  called (to_transmit command) c = (transmit transport command c).1

  abbrev pub all_called : List UimCall → Client W → Client W
  all_called [] c = c
  all_called (call ∷ calls) c = all_called calls (called call c)

  -- What a call sends.
  abbrev Sent : Client W → Client W → Type 0
  Sent c c' = All IsFit c'.sent × (requests c' ≤ requests c + 12)

  open_logical_channel-Sent :
      (aid : Bytes) (c : Client W)
      → All IsFit c.sent
      → Sent c (open_logical_channel transport aid c).1
  unfolding open_logical_channel
  open_logical_channel-Sent aid c hs = elim (Bool-cases (ltb max_aid_length (length aid))) [
    | inl b ↦ rw b (hs, omega arith)
    | inr b ↦
        let made =
          request-Sends transport (open_logical_channel_request c.slot aid) unmarshal_open_channel c
            (open_logical_channel_request-IsFit c.slot aid (ground arith)) in
        elim (Result-cases
          (request transport (open_logical_channel_request c.slot aid) unmarshal_open_channel
            c).0) [
              | inl (n, r) ↦ rw (b, r) (made.fits hs, omega arith)
              | inr (e, r) ↦ rw (b, r) (made.fits hs, omega arith)
            ]
  ]

  transmit-Sent :
      (command : Bytes) (c : Client W) → All IsFit c.sent → Sent c (transmit transport command c).1
  unfolding transmit
  transmit-Sent command c hs =
      elim (Bool-cases (ltb max_transmit_apdu_command_length (length command))) [
        | inl b ↦ rw b (hs, omega arith)
        | inr b ↦
            rw b (
              (transmit_apdu_request-IsFit c.slot c.channel command (ground arith), hs),
              omega arith,
            )
      ]

  called-Sent : (call : UimCall) (c : Client W) → All IsFit c.sent → Sent c (called call c)
  unfolding close_logical_channel
  called-Sent to_connect c hs =
      let (fits, few, _, _) = connect_outcome transport c hs in (fits, few)
  called-Sent (to_open aid) c hs = open_logical_channel-Sent aid c hs
  called-Sent (to_close n) c hs = ((close_logical_channel_request-IsFit c.slot n, hs), omega arith)
  called-Sent (to_transmit command) c hs = transmit-Sent command c hs

  -- After any calls, with AIDs and commands of any length, on a client all of whose requests the transport
  -- could encode, the same holds; each call has sent at most twelve requests.
  pub all_called-IsFit :
      (calls : List UimCall) (c : Client W)
      → All IsFit c.sent
      → All IsFit (all_called calls c).sent
        × (requests (all_called calls c) ≤ requests c + 12 * length calls)
  all_called-IsFit [] c hs = (hs, omega arith)
  all_called-IsFit (call ∷ calls) c hs =
      let (fits, few) = called-Sent call c hs in
      let (fits', few') = all_called-IsFit calls (called call c) fits in
      (fits', omega (arith, few, few'))
