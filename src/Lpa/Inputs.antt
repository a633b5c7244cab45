-- ===== src/Lpa/Inputs.antt =====
-- Options and texts of activation codes (lpa/euicc.go, lpa/download.go).
use euicc_go.Prelude.{◌≡◌, refl, none, some, Option, [], ◌∷◌, Bytes}
use euicc_go.Prelude.Action.{ok}
use euicc_go.Lpa.{
  LpaError, service, failed, unexpected_tag, Header, success_text, executed_success,
  InitiateAuthenticationResponse, AuthenticateClientResponse, BoundProfilePackageResponse,
  CancelSessionResponse, CardAnswer, ActivationCode, cancel_failed,
}
use euicc_go.Lpa.Options
use euicc_go.Lpa.Options.{
  Options, index_panic, invalid_size, IsNormal, normalize, set_defaults, validate_mss,
  validate_admin_protocol_version, normalize-IsNormal, normalize-panics_iff,
}
use euicc_go.Lpa.Code.{marshal_text, unmarshal_text, unmarshal_text-marshal_text}
use euicc_go.Prelude.{drop}
use euicc_go.Prelude.Int.{pos}

abbrev defaulted : Options (Unit {0}) (Unit {0})
defaulted = record {
  channel = some tt;
  aid = none;
  mss = pos 0;
  admin_protocol_version = 118 ∷ 50 ∷ 46 ∷ 50 ∷ [];
  logger = none;
  timeout = pos 0;
}

defaulted_run : (normalize tt defaulted).0 ≡ ok tt
unfolding normalize set_defaults euicc_go.Lpa.Options.validate validate_mss
    validate_admin_protocol_version
defaulted_run = refl

normalize-IsNormal_example :
    IsNormal (normalize tt defaulted).1
    × (normalize tt (normalize tt defaulted).1 ≡ (ok tt, (normalize tt defaulted).1))
normalize-IsNormal_example = normalize-IsNormal tt defaulted defaulted_run

abbrev letter_v : Options (Unit {0}) (Unit {0})
letter_v = record defaulted { admin_protocol_version = 118 ∷ [] }

-- The URL is its host, and the parser takes "https://" off.
abbrev host_only : Bytes → Option Bytes
host_only s = some (drop 8 s)

abbrev coded : ActivationCode Bytes
coded = record {
  smdp = some (97 ∷ 46 ∷ 98 ∷ []);
  matching_id = 77 ∷ [];
  imei = [];
  oid = [];
  confirmation_code = 49 ∷ 50 ∷ [];
}

-- "LPA:1$a.b$M$$1".
abbrev coded_text : Bytes
coded_text = 76 ∷ 80 ∷ 65 ∷ 58 ∷ 49 ∷ 36 ∷ 97 ∷ 46 ∷ 98 ∷ 36 ∷ 77 ∷ 36 ∷ 36 ∷ 49 ∷ []

coded_run : marshal_text (λ u. u) host_only coded ≡ ok coded_text
unfolding marshal_text
coded_run = refl

unmarshal_text-marshal_text_example :
    unmarshal_text (λ u. u) host_only (some coded_text) coded
    ≡ (ok tt, record coded { smdp = coded.smdp; matching_id = coded.matching_id; oid = coded.oid })
unmarshal_text-marshal_text_example =
    unmarshal_text-marshal_text (λ u. u) host_only coded coded (97 ∷ 46 ∷ 98 ∷ []) coded_text refl
      refl refl refl refl refl coded_run
