-- ===== src/Lpa/Download.antt =====
-- The download of a profile (lpa/download.go).
pub mod Recorded
pub mod Counts
pub mod Closes
pub mod Crash
use euicc_go.Prelude.{
  ℕ, Bool, true, false, not, ◌&&◌, Option, none, some, List, [], ◌∷◌, Bytes, bytes_eq,
  if◌then◌else◌,
}
use euicc_go.Prelude.Action.{Result, ok, err, Action, ◌>>=◌, ◌>>◌, continue, pure}
use euicc_go.Bertlv.Tag.{universal, primitive, new_tag, is_primitive}
use euicc_go.Bertlv.Tlv.{Tlv, tag_of, value_bytes}
use euicc_go.Sgp22.Identifier.{Text, binary_coded_decimal_encode}
use euicc_go.Lpa.{
  LpaError, Failure, panicked, failed, smdp_required, imei_required, invalid_imei, code_required,
  cancel_failed, executed_success, AuthenticateClientResponse, BoundProfilePackageResponse,
  InitiateAuthenticationResponse, AuthenticateServerRequest, CancelSessionReason, postponed,
  metadata_mismatch, load_bpp_execution_error, ActivationCode,
}
use euicc_go.Lpa.Session.{
  Services, Session, initiate_authentication, authenticate_client_call, prepare_download_call,
  cancel_session_call,
}
use euicc_go.Lpa.Install.{LoadResponse, install, lift, first_of, pointed}
use euicc_go.Lpa.Authentication.{
  ClientOutcome, accepted, refused, client_crashed, is_empty, confirmation_code_required, attached,
  examined, asked, initiated, initiate, authenticate_client, authenticate_server,
}

pub data DownloadStage : Type 0 where
  authenticate_client_stage authenticate_server_stage install_stage : DownloadStage

-- The callbacks, each of which may be nil; a nil `opts` has none.
pub record DownloadOptions (W P : Type 0) : Type 0 where
  pub on_progress : Option (DownloadStage → W → W)
  pub on_confirm : Option (P → W → Bool × W)
  pub on_enter_confirmation_code : Option (W → Bytes × W)

-- What `DownloadProfile` returns, the response and the error, or its panic.
pub data Ending (N : Type 0) : Type 0 where
  ended : Option (LoadResponse N) → Option LpaError → Ending N
  crashed : Ending N

module _ {W U P N : Type 0} (services : Services W U P N) where
  unfoldable pub validate : ActivationCode U → Option LpaError
  validate ac = elim ac.smdp [
    | none ↦ some smdp_required
    | some address ↦
        if is_empty (services.host address)
        then some smdp_required
        else if is_empty ac.imei
        then some imei_required
        else none
  ]

  -- The error with which a download ends, in case the cancellation does not panic.
  abbrev pub wrapped :
      {A : Type 0}
      → Option (LoadResponse N)
      → LpaError
      → Result Failure A × Session W U
      → Ending N × Session W U
  wrapped result e (ok _, s) = (ended result (some e), s)
  wrapped result e (err (failed e'), s) = (ended result (some (cancel_failed e e')), s)
  wrapped result e (err panicked, s) = (crashed, s)

  -- `return result, c.abort(…)`.
  unfoldable pub abort :
      U
      → Bytes
      → Option (LoadResponse N)
      → LpaError
      → CancelSessionReason
      → Session W U
      → Ending N × Session W U
  abort address transaction_id result e reason s =
      wrapped result e (cancel_session_call services address transaction_id reason s)

  abbrev pub unwrapped : {A : Type 0} → Result Failure A × Session W U → Ending N × Session W U
  unwrapped (ok _, s) = (ended none none, s)
  unwrapped (err (failed e), s) = (ended none (some e), s)
  unwrapped (err panicked, s) = (crashed, s)

  -- `_, err := c.cancelSession(…); return nil, err`.
  unfoldable pub postpone : U → Bytes → Session W U → Ending N × Session W U
  postpone address transaction_id s =
      unwrapped (cancel_session_call services address transaction_id postponed s)

  module _ (options : DownloadOptions W P) where
    abbrev pub progress : DownloadStage → Session W U → Session W U
    progress stage s = elim options.on_progress [
      | none ↦ s
      | some call ↦ record s { world = call stage s.world }
    ]

    -- `opts.OnConfirm != nil && !opts.OnConfirm(metadata)`.
    abbrev pub declined : P → Session W U → Bool × Session W U
    declined metadata s = elim options.on_confirm [
      | none ↦ (false, s)
      | some call ↦ let (agreed, w) = call metadata s.world in (not agreed, record s { world = w })
    ]

    abbrev pub stopped : P → Session W U → Bool × Session W U
    stopped metadata s = if services.done s.world then (true, s) else declined metadata s

    -- The confirmation code is asked for where the profile needs one and there is none.
    abbrev pub code_entered : Bool → Session W U → Session W U
    code_entered required s =
        if required && is_empty s.activation.confirmation_code
        then (elim options.on_enter_confirmation_code [
          | none ↦ s
          | some call ↦
              let (code, w) = call s.world in
              record s { activation = record s.activation { confirmation_code = code }; world = w }
        ])
        else s

    abbrev pub installed :
        U
        → Bytes
        → Result Failure (LoadResponse N × Option LpaError) × Session W U
        → Ending N × Session W U
    installed address transaction_id (ok (result, none), s) = (ended (some result) none, s)
    installed address transaction_id (ok (result, some e), s) =
        abort address transaction_id (some result) e load_bpp_execution_error s
    installed address transaction_id (err (failed e), s) =
        abort address transaction_id none e load_bpp_execution_error s
    installed address transaction_id (err panicked, s) = (crashed, s)

    -- From the answer of `authenticateServer` on.
    unfoldable pub install_stage_of :
        U
        → AuthenticateClientResponse
        → Result Failure BoundProfilePackageResponse × Session W U
        → Ending N × Session W U
    install_stage_of address client (err panicked, s) = (crashed, s)
    install_stage_of address client (err (failed e), s) =
        abort address client.transaction_id none e postponed s
    install_stage_of address client (ok server, s) =
        let s' = progress install_stage s in
        if services.done s'.world
        then postpone address server.transaction_id s'
        else installed address server.transaction_id (install services server s')

    unfoldable pub server_stage :
        U → AuthenticateClientResponse → Session W U → Ending N × Session W U
    server_stage address client s =
        let s' = progress authenticate_server_stage s in
        if services.done s'.world
        then postpone address client.transaction_id s'
        else install_stage_of address client (authenticate_server services address client s')

    unfoldable pub code_stage :
        U → AuthenticateClientResponse → Bool → Session W U → Ending N × Session W U
    code_stage address client required s =
        let s' = code_entered required s in
        if required && is_empty s'.activation.confirmation_code
        then abort address client.transaction_id none code_required postponed s'
        else server_stage address client s'

    abbrev pub confirmed :
        U → AuthenticateClientResponse → Bool → Bool × Session W U → Ending N × Session W U
    confirmed address client required (true, s) = postpone address client.transaction_id s
    confirmed address client required (false, s) = code_stage address client required s

    unfoldable pub client_stage : U → ClientOutcome P × Session W U → Ending N × Session W U
    client_stage address (client_crashed, s) = (crashed, s)
    client_stage address (refused none e, s) = (ended none (some e), s)
    client_stage address (refused (some response) e, s) = elim response.header [
      | none ↦ (crashed, s)
      | some h ↦
          if executed_success h.execution_status
          then abort address response.transaction_id none e metadata_mismatch s
          else (ended none (some e), s)
    ]
    client_stage address (accepted response metadata required, s) =
        confirmed address response required (stopped metadata s)

    unfoldable pub download_profile : Session W U → Ending N × Session W U
    download_profile s = elim (validate s.activation) [
      | some e ↦ (ended none (some e), s)
      | none ↦ elim s.activation.smdp [
        | none ↦ (crashed, s)
        | some address ↦
            client_stage address
              (authenticate_client services address (progress authenticate_client_stage s))
      ]
    ]
