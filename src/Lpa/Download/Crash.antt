-- ===== src/Lpa/Download/Crash.antt =====
-- What a failing network does to a download (lpa/download.go).
use euicc_go.Prelude.{◌≡◌, none, some, Bytes, arith}
use euicc_go.Prelude.Action.{ok}
use euicc_go.Lpa.{
  LpaError, AuthenticateClientResponse, AuthenticateServerRequest, InitiateAuthenticationResponse,
  CardAnswer,
}
use euicc_go.Lpa.Session.{Services, Session, http_outcome, authenticate_client_call}
use euicc_go.Lpa.Download.{
  DownloadOptions, crashed, authenticate_client_stage, progress, client_stage, download_profile,
  validate,
}
use euicc_go.Lpa.Authentication.{asked, initiate, initiated, authenticate_client}

module _ {W U P N : Type 0} (services : Services W U P N) (options : DownloadOptions W P) where
  -- The server's answer has no header: then the outcome's response has none.
  refused_crash :
      (address : U) (response : InitiateAuthenticationResponse) (imei : Bytes) (t : Session W U)
      (answer : CardAnswer) (e : LpaError) (reply : AuthenticateClientResponse)
      → ((r : AuthenticateServerRequest) (w : W) → (services.authenticate_server r w).0 ≡ ok answer)
      → ((w : W) → (services.send_authenticate_client address answer w).0 ≡ (some e, reply))
      → reply.header ≡ none
      → (client_stage services options address
          (initiated services address (ok (response, imei), t))).0
        ≡ crashed
  unfolding client_stage authenticate_client_call http_outcome
  refused_crash address response imei t answer e reply card server nil =
      let request = asked services response imei t in
      let w = (services.authenticate_server request t.world).1 in
      ground (arith, card request t.world, server w)

  -- Where the request AuthenticateClient ends with an error before a header was decoded, as it does
  -- when the server cannot be reached, DownloadProfile panics: the download was valid, its session
  -- was initiated and the card has answered.
  pub download_profile-crashed :
      (s : Session W U) (address : U) (response : InitiateAuthenticationResponse) (imei : Bytes)
      (t : Session W U) (answer : CardAnswer) (e : LpaError) (reply : AuthenticateClientResponse)
      → validate services s.activation ≡ none
      → s.activation.smdp ≡ some address
      → initiate services address (progress services options authenticate_client_stage s)
        ≡ (ok (response, imei), t)
      → ((r : AuthenticateServerRequest) (w : W) → (services.authenticate_server r w).0 ≡ ok answer)
      → ((w : W) → (services.send_authenticate_client address answer w).0 ≡ (some e, reply))
      → reply.header ≡ none
      → (download_profile services options s).0 ≡ crashed
  unfolding download_profile authenticate_client
  download_profile-crashed s address response imei t answer e reply v a i card server nil =
      rw (download_profile, v, a, authenticate_client, i)
        (refused_crash address response imei t answer e reply card server nil)
