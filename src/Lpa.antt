-- ===== src/Lpa.antt =====
-- The local profile assistant (lpa/): the values that its operations exchange with the card and with
-- the SM-DP+, after v2/es9p.go, v2/es10b.go and v2/rsp_header.go.
pub mod Session
pub mod Install
pub mod Authentication
pub mod Download
pub mod Options
pub mod Card
pub mod Code
mod Examples
mod CardTests
mod Inputs
use euicc_go.Prelude.{ℕ, Bool, true, false, Option, none, some, List, [], ◌∷◌, Bytes, bytes_eq}
use euicc_go.Prelude.Action.{Result}
use euicc_go.Bertlv.Tlv.{Tlv}
use euicc_go.Sgp22.Bpp.{BppError}
use euicc_go.Sgp22.Identifier.{Text}

pub record StatusCodeData : Type 0 where
  pub subject_code : Bytes
  pub reason_code : Bytes
  pub message : Bytes

pub data LpaError : Type 0 where
  -- an error of the card, the transport or the callers' libraries, by its number
  service : ℕ → LpaError
  -- `errors.New(status.StatusCodeData.Error())`
  rejected : StatusCodeData → LpaError
  smdp_required imei_required invalid_imei code_required unexpected_tag invalid_tlv : LpaError
  invalid_package : BppError → LpaError
  -- `LoadBoundProfilePackageError`: the command and the reason
  load_error : ℕ → ℕ → LpaError
  -- "%w (cancel session error: %v)"
  cancel_failed : LpaError → LpaError → LpaError

-- What a call may end with in place of a value.
pub data Failure : Type 0 where
  panicked : Failure
  failed : LpaError → Failure

pub record ExecutionStatus : Type 0 where
  pub status : Bytes
  pub status_code_data : Option StatusCodeData

pub record Header : Type 0 where
  pub execution_status : Option ExecutionStatus

-- "Executed-Success".
abbrev pub success_text : Bytes
success_text =
    69 ∷ 120 ∷ 101 ∷ 99 ∷ 117 ∷ 116 ∷ 101 ∷ 100 ∷ 45 ∷ 83 ∷ 117 ∷ 99 ∷ 99 ∷ 101 ∷ 115 ∷ 115 ∷ []

unfoldable pub executed_success : Option ExecutionStatus → Bool
executed_success none = false
executed_success (some s) = bytes_eq s.status success_text

-- The answers of the server. `none` is a nil pointer.
pub record InitiateAuthenticationResponse : Type 0 where
  pub header : Option Header
  pub transaction_id : Bytes
  pub signed1 : Option Tlv
  pub signature1 : Option Tlv
  pub used_issuer : Option Tlv
  pub certificate : Option Tlv

pub record AuthenticateClientResponse : Type 0 where
  pub header : Option Header
  pub transaction_id : Bytes
  pub profile_metadata : Option Tlv
  pub signed2 : Option Tlv
  pub signature2 : Option Tlv
  pub certificate : Option Tlv

pub record BoundProfilePackageResponse : Type 0 where
  pub header : Option Header
  pub transaction_id : Bytes
  pub bound_profile_package : Option Tlv

pub record CancelSessionResponse : Type 0 where
  pub header : Option Header

-- What the card is asked.
pub record AuthenticateServerRequest : Type 0 where
  pub transaction_id : Bytes
  pub signed1 : Option Tlv
  pub signature1 : Option Tlv
  pub used_issuer : Option Tlv
  pub certificate : Option Tlv
  pub imei : Bytes
  pub matching_id : Bytes

pub record PrepareDownloadRequest : Type 0 where
  pub transaction_id : Bytes
  pub profile_metadata : Option Tlv
  pub signed2 : Option Tlv
  pub signature2 : Option Tlv
  pub certificate : Option Tlv
  pub confirmation_code : Bytes

-- What the card answers, and the server is sent: `ES9AuthenticateClientRequest`,
-- `ES9BoundProfilePackageRequest` and `ES9CancelSessionRequest` have the same fields.
pub record CardAnswer : Type 0 where
  pub transaction_id : Bytes
  pub response : Option Tlv

pub record InitiateAuthenticationRequest : Type 0 where
  pub challenge : Bytes
  pub info1 : Option Tlv
  pub address : Bytes

pub data CancelSessionReason : Type 0 where
  end_user_rejection postponed timeout ppr_not_allowed : CancelSessionReason
  metadata_mismatch load_bpp_execution_error undefined : CancelSessionReason

-- The fields of `ActivationCode` that the download reads; `U` stands for `url.URL`.
pub record ActivationCode (U : Type 0) : Type 0 where
  pub smdp : Option U
  pub matching_id : Bytes
  pub imei : Text
  pub oid : Bytes
  pub confirmation_code : Bytes
