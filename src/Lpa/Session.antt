-- ===== src/Lpa/Session.antt =====
-- The calls that a download makes to the card and to the server (lpa/es9p.go, lpa/es10b.go, and
-- `InvokeHTTP` of v2/types.go).
use euicc_go.Prelude.{Bool, Option, none, some, Bytes, if◌then◌else◌}
use euicc_go.Prelude.Action.{Result, ok, err, Action, ◌>>=◌}
use euicc_go.Bertlv.Tlv.{Tlv}
use euicc_go.Lpa.{
  LpaError, Failure, panicked, failed, rejected, Header, executed_success,
  InitiateAuthenticationResponse, AuthenticateClientResponse, BoundProfilePackageResponse,
  CancelSessionResponse, AuthenticateServerRequest, PrepareDownloadRequest, CardAnswer,
  InitiateAuthenticationRequest, CancelSessionReason, ActivationCode,
}

-- The card behind its transmitter, the HTTP client, and the parsers of v2/ that the download uses.
-- A card's answer has passed `Valid`; the server's comes back as far as it was decoded, with the
-- error of `SendRequest`.
pub record Services (W U P N : Type 0) : Type 0 where
  pub host : U → Bytes
  pub get_challenge : W → Result LpaError Bytes × W
  pub get_info : W → Result LpaError (Option Tlv) × W
  pub authenticate_server : AuthenticateServerRequest → W → Result LpaError CardAnswer × W
  pub prepare_download : PrepareDownloadRequest → W → Result LpaError CardAnswer × W
  pub cancel_session : Bytes → CancelSessionReason → W → Result LpaError CardAnswer × W
  pub transmit_raw : Bytes → W → Result LpaError Bytes × W
  pub send_initiate_authentication :
      U → InitiateAuthenticationRequest → W → (Option LpaError × InitiateAuthenticationResponse) × W
  pub send_authenticate_client :
      U → CardAnswer → W → (Option LpaError × AuthenticateClientResponse) × W
  pub send_bound_profile_package :
      U → CardAnswer → W → (Option LpaError × BoundProfilePackageResponse) × W
  pub send_cancel_session : U → CardAnswer → W → (Option LpaError × CancelSessionResponse) × W
  pub profile_info : Option Tlv → Result Failure P
  pub notification_metadata : Option Tlv → Result Failure N
  -- whether `ctx.Done()` is closed
  pub done : W → Bool

pub record Session (W U : Type 0) : Type 0 where
  pub activation : ActivationCode U
  pub world : W

-- The end of `InvokeHTTP`. The response comes back with an error as well.
unfoldable pub http_outcome :
    {A : Type 0} → Option LpaError → Option Header → A → Result Failure A × A
http_outcome (some e) header a = (err (failed e), a)
http_outcome none none a = (err panicked, a)
http_outcome none (some h) a =
    if executed_success h.execution_status then (ok a, a) else elim h.execution_status [
      | none ↦ (err panicked, a)
      | some s ↦ elim s.status_code_data [
        | none ↦ (err panicked, a)
        | some d ↦ (err (failed (rejected d)), a)
      ]
    ]

abbrev pub lifted : {A : Type 0} → Result LpaError A → Result Failure A
lifted (ok a) = ok a
lifted (err e) = err (failed e)

module _ {W U P N : Type 0} (services : Services W U P N) where
  -- A call of the card.
  abbrev pub card : {A : Type 0} → (W → Result LpaError A × W) → Action (Session W U) Failure A
  card f s = let (r, w) = f s.world in (lifted r, record s { world = w })

  -- `InvokeHTTP`, from what `SendRequest` left.
  abbrev pub invoke_http :
      {A : Type 0}
      → (A → Option Header)
      → (W → (Option LpaError × A) × W)
      → Session W U
      → (Result Failure A × A) × Session W U
  invoke_http header send s =
      let (answer, w) = send s.world in
      (http_outcome answer.0 (header answer.1) answer.1, record s { world = w })

  abbrev pub accepted_answer :
      {A : Type 0} → (Result Failure A × A) × Session W U → Result Failure A × Session W U
  accepted_answer (r, s) = (r.0, s)

  unfoldable pub euicc_challenge : Action (Session W U) Failure Bytes
  euicc_challenge = card services.get_challenge

  unfoldable pub euicc_info1 : Action (Session W U) Failure (Option Tlv)
  euicc_info1 = card services.get_info

  unfoldable pub initiate_authentication :
      U → Action (Session W U) Failure InitiateAuthenticationResponse
  initiate_authentication address = do
    challenge ← euicc_challenge
    info1 ← euicc_info1
    λ s. accepted_answer (
        invoke_http (λ r. r.header)
          (services.send_initiate_authentication address
            (record { challenge = challenge; info1 = info1; address = services.host address }))
          s)

  -- The response that comes back is nil where the card failed.
  unfoldable pub authenticate_client_call :
      U
      → AuthenticateServerRequest
      → Session W U
      → (Result Failure AuthenticateClientResponse × Option AuthenticateClientResponse)
        × Session W U
  authenticate_client_call address request s =
      posted (card (services.authenticate_server request) s)
    where
      posted :
          Result Failure CardAnswer × Session W U
          → (Result Failure AuthenticateClientResponse × Option AuthenticateClientResponse)
            × Session W U
      posted (err e, s) = ((err e, none), s)
      posted (ok answer, s) =
          let ((r, response), s') =
            invoke_http (λ r. r.header) (services.send_authenticate_client address answer) s in
          ((r, some response), s')

  unfoldable pub prepare_download_call :
      U → PrepareDownloadRequest → Action (Session W U) Failure BoundProfilePackageResponse
  prepare_download_call address request = do
    answer ← card (services.prepare_download request)
    λ s.
        accepted_answer
          (invoke_http (λ r. r.header) (services.send_bound_profile_package address answer) s)

  unfoldable pub cancel_session_call :
      U → Bytes → CancelSessionReason → Action (Session W U) Failure CancelSessionResponse
  cancel_session_call address transaction_id reason = do
    answer ← card (services.cancel_session transaction_id reason)
    λ s.
        accepted_answer
          (invoke_http (λ r. r.header) (services.send_cancel_session address answer) s)

  unfoldable pub invoke_raw_apdu : Bytes → Action (Session W U) Failure Bytes
  invoke_raw_apdu command = card (services.transmit_raw command)
