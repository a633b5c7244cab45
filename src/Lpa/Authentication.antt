-- ===== src/Lpa/Authentication.antt =====
-- The authentication of a download (`authenticateClient` and `authenticateServer` of
-- lpa/download.go).
use euicc_go.Prelude.{Bool, true, false, Option, none, some, List, [], ◌∷◌, Bytes, bytes_eq}
use euicc_go.Prelude.Action.{Result, ok, err, Action, ◌>>=◌, continue, pure}
use euicc_go.Bertlv.Tag.{universal, primitive, new_tag, is_primitive}
use euicc_go.Bertlv.Tlv.{Tlv, tag_of, value_bytes}
use euicc_go.Sgp22.Identifier.{binary_coded_decimal_encode}
use euicc_go.Lpa.{
  LpaError, Failure, panicked, failed, invalid_imei, AuthenticateClientResponse,
  BoundProfilePackageResponse, InitiateAuthenticationResponse, AuthenticateServerRequest,
}
use euicc_go.Lpa.Session.{
  Services, Session, initiate_authentication, authenticate_client_call, prepare_download_call,
}
use euicc_go.Lpa.Install.{lift, first_of, pointed}

-- What `authenticateClient` returns; a response may come with an error.
pub data ClientOutcome (P : Type 0) : Type 0 where
  accepted : AuthenticateClientResponse → P → Bool → ClientOutcome P
  refused : Option AuthenticateClientResponse → LpaError → ClientOutcome P
  client_crashed : ClientOutcome P

abbrev pub is_empty : {A : Type 0} → List A → Bool
is_empty [] = true
is_empty (x ∷ xs) = false

abbrev imei_of : {S : Type 0} → Option Bytes → Action S Failure Bytes
imei_of none s = (err (failed invalid_imei), s)
imei_of (some imei) s = (ok imei, s)

-- `UnmarshalValue(primitive.UnmarshalBool(&required))`, whose error is dropped.
abbrev bool_of : {S : Type 0} → Tlv → Action S Failure Bool
bool_of x s = elim (is_primitive (tag_of x)) [
  | none ↦ (err panicked, s)
  | some false ↦ (ok false, s)
  | some true ↦ (ok (bytes_eq (value_bytes x) (0xff ∷ [])), s)
]

unfoldable pub confirmation_code_required : {S : Type 0} → Option Tlv → Action S Failure Bool
confirmation_code_required signed2 = do
  found ← first_of signed2 (new_tag universal primitive 1)
  x ← pointed found
  bool_of x

module _ {W U P N : Type 0} (services : Services W U P N) where
  abbrev pub attached :
      AuthenticateClientResponse
      → Result Failure (P × Bool) × Session W U
      → ClientOutcome P × Session W U
  attached response (ok (metadata, required), s) = (accepted response metadata required, s)
  attached response (err (failed e), s) = (refused (some response) e, s)
  attached response (err panicked, s) = (client_crashed, s)

  abbrev pub examined :
      (Result Failure AuthenticateClientResponse × Option AuthenticateClientResponse) × Session W U
      → ClientOutcome P × Session W U
  examined ((err panicked, response), s) = (client_crashed, s)
  examined ((err (failed e), response), s) = (refused response e, s)
  examined ((ok response, _), s) = attached response (
      (do
        metadata ← lift (services.profile_info response.profile_metadata)
        required ← confirmation_code_required response.signed2
        pure (metadata, required))
        s)

  abbrev pub asked :
      InitiateAuthenticationResponse → Bytes → Session W U → AuthenticateServerRequest
  asked response imei s = record {
    transaction_id = response.transaction_id;
    signed1 = response.signed1;
    signature1 = response.signature1;
    used_issuer = response.used_issuer;
    certificate = response.certificate;
    imei = imei;
    matching_id = s.activation.matching_id;
  }

  abbrev pub initiated :
      U
      → Result Failure (InitiateAuthenticationResponse × Bytes) × Session W U
      → ClientOutcome P × Session W U
  initiated address (err panicked, s) = (client_crashed, s)
  initiated address (err (failed e), s) = (refused none e, s)
  initiated address (ok (response, imei), s) =
      examined (authenticate_client_call services address (asked response imei s) s)

  unfoldable pub initiate :
      U → Action (Session W U) Failure (InitiateAuthenticationResponse × Bytes)
  initiate address = do
    response ← initiate_authentication services address
    λ s.
        continue (imei_of (binary_coded_decimal_encode s.activation.imei) s)
          (λ imei. pure (response, imei))

  unfoldable pub authenticate_client : U → Session W U → ClientOutcome P × Session W U
  authenticate_client address s = initiated address (initiate address s)

  unfoldable pub authenticate_server :
      U → AuthenticateClientResponse → Action (Session W U) Failure BoundProfilePackageResponse
  authenticate_server address client s =
      prepare_download_call services address
        (record {
          transaction_id = client.transaction_id;
          profile_metadata = client.profile_metadata;
          signed2 = client.signed2;
          signature2 = client.signature2;
          certificate = client.certificate;
          confirmation_code = s.activation.confirmation_code;
        })
        s
