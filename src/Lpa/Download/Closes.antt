-- ===== src/Lpa/Download/Closes.antt =====
-- Every session that the server opens is closed (lpa/download.go).
use euicc_go.Prelude.{
  ℕ, ◌+◌, ◌≤◌, ◌≡◌, ◌≢◌, refl, Bool, true, false, Option, none, some, Option-cases, inl, inr, [],
  Bytes, arith,
}
use euicc_go.Prelude.Action.{Result, ok, err}
use euicc_go.Lpa.{
  LpaError, Failure, panicked, failed, AuthenticateClientResponse, AuthenticateServerRequest,
  InitiateAuthenticationResponse, BoundProfilePackageResponse, load_bpp_execution_error, postponed,
  code_required, metadata_mismatch,
}
use euicc_go.Lpa.Session.{Services, Session, http_outcome, authenticate_client_call}
use euicc_go.Lpa.Install.{LoadResponse, install}
use euicc_go.Lpa.Download.{
  DownloadOptions, Ending, crashed, install_stage_of, server_stage, confirmed, installed, progress,
  install_stage, authenticate_server_stage, authenticate_client_stage, code_entered, stopped,
  code_stage, client_stage, download_profile, validate,
}
use euicc_go.Lpa.Authentication.{
  ClientOutcome, accepted, refused, client_crashed, authenticate_client, authenticate_server,
  examined, initiate, initiated, confirmation_code_required,
}
use euicc_go.Lpa.Download.Recorded.{
  Account, recorded, carried, answered_well, sessions, cancellations, latest, IsNamed, installs,
}
use euicc_go.Lpa.Download.Counts.{
  calls, Same, initiate_authentication-Same, named_by, prepare_download-Packaged, install-Same,
  Closed, abort-Closed, postpone-Closed,
}

module _ {W U P N : Type 0} (given : Services W U P N) where
  abbrev services : Services (Account W) U P N
  services = recorded given

  -- The sessions that an outcome of `authenticateClient` leaves open, and their transaction.
  abbrev opens : ClientOutcome P → ℕ
  opens (accepted r metadata required) = 1
  opens (refused (some r) e) = answered_well r.header
  opens (refused none e) = 0
  opens client_crashed = 0

  abbrev id_of : ClientOutcome P → Bytes
  id_of (accepted r metadata required) = r.transaction_id
  id_of (refused (some r) e) = r.transaction_id
  id_of (refused none e) = []
  id_of client_crashed = []

  -- The code has not panicked, and the sessions opened since `s` are those of the outcome.
  Opened : Session (Account W) U → ClientOutcome P × Session (Account W) U → Type 0
  Opened s p =
      p.0 ≢ client_crashed
      → IsNamed (calls given s)
      → (sessions (calls given p.1) ≡ sessions (calls given s) + opens p.0)
        × (cancellations (calls given p.1) ≡ cancellations (calls given s))
        × IsNamed (calls given p.1)
        × (opens p.0 ≡ 1 → latest (calls given p.1) ≡ some (id_of p.0))

  examined-Opened :
      (address : U) (request : AuthenticateServerRequest) (s : Session (Account W) U)
      → Opened s (examined services (authenticate_client_call services address request s))
  unfolding Opened authenticate_client_call http_outcome confirmation_code_required
  examined-Opened address request s h named = ground (arith, named)

  initiated-Opened :
      (address : U)
      (p : Result Failure (InitiateAuthenticationResponse × Bytes) × Session (Account W) U)
      → Opened p.1 (initiated services address p)
  unfolding Opened
  initiated-Opened address (err panicked, s) h named = absurd (h refl)
  initiated-Opened address (err (failed e), s) h named = ground (arith, named)
  initiated-Opened address (ok (response, imei), s) h named = examined-Opened address _ s h named

  initiate-Same :
      (address : U) (s : Session (Account W) U) → Same given s (initiate services address s).1
  unfolding initiate
  initiate-Same address s = ground (arith, initiate_authentication-Same given address s)

  authenticate_client-Opened :
      (address : U) (s : Session (Account W) U) → Opened s (authenticate_client services address s)
  unfolding Opened authenticate_client initiate
  authenticate_client-Opened address s h named =
      let s' = (initiate services address s).1 in
      let same : calls given s' ≡ calls given s = (initiate-Same address s).same in
      let named' : IsNamed (calls given s') = rw same named in
      let o = initiated-Opened address (initiate services address s) h named' in rw same at o

  module _ (given_options : DownloadOptions W P) where
    abbrev options : DownloadOptions (Account W) P
    options = carried given_options

    installed-Closed :
        (address : U) (t : Bytes)
        (p : Result Failure (LoadResponse N × Option LpaError) × Session (Account W) U)
        → Closed given 1 t p.1 (installed services options address t p)
    unfolding Closed
    installed-Closed address t (ok (result, none), s) h named hs = (refl, refl, hs)
    installed-Closed address t (ok (result, some e), s) h named hs =
        abort-Closed given address t (some result) e load_bpp_execution_error s h named hs
    installed-Closed address t (err (failed e), s) h named hs =
        abort-Closed given address t none e load_bpp_execution_error s h named hs
    installed-Closed address t (err panicked, s) h named hs = absurd (h refl)

    install_stage_of-Closed :
        (address : U) (client : AuthenticateClientResponse)
        (p : Result Failure BoundProfilePackageResponse × Session (Account W) U)
        → Closed given 1
            (named_by given client.transaction_id p.0)
            p.1
            (install_stage_of services options address client p)
    unfolding Closed install_stage_of
    install_stage_of-Closed address client (err panicked, s) h named hs = absurd (h refl)
    install_stage_of-Closed address client (err (failed e), s) h named hs =
        abort-Closed given address client.transaction_id none e postponed s h named hs
    install_stage_of-Closed address client (ok server, s) h named hs =
        let s' = progress services options install_stage s in
        let same : calls given s' ≡ calls given s = ground arith in
        let after = install-Same given server s' in
        ground (
          arith,
          same,
          named,
          hs,
          after.same,
          postpone-Closed given address server.transaction_id s',
          installed-Closed address server.transaction_id (install services server s'),
        )

    server_stage-Closed :
        (address : U) (client : AuthenticateClientResponse) (s : Session (Account W) U)
        → Closed given 1 client.transaction_id s (server_stage services options address client s)
    unfolding Closed server_stage
    server_stage-Closed address client s h named hs =
        let s' = progress services options authenticate_server_stage s in
        let same : calls given s' ≡ calls given s = ground arith in
        let named' : latest (calls given s') ≡ some client.transaction_id = rw same named in
        let hs' : IsNamed (calls given s') = rw same hs in
        let p = authenticate_server services address client s' in
        let packaged =
          prepare_download-Packaged given address client client.transaction_id s' named' hs' in
        ground (
          arith,
          same,
          named',
          hs',
          packaged,
          postpone-Closed given address client.transaction_id s',
          install_stage_of-Closed address client p,
        )

    code_stage-Closed :
        (address : U) (client : AuthenticateClientResponse) (required : Bool)
        (s : Session (Account W) U)
        → Closed given 1 client.transaction_id s
            (code_stage services options address client required s)
    unfolding Closed code_stage
    code_stage-Closed address client required s h named hs =
        let s' = code_entered services options required s in
        let same : calls given s' ≡ calls given s = ground arith in
        ground (
          arith,
          same,
          named,
          hs,
          abort-Closed given address client.transaction_id none code_required postponed s',
          server_stage-Closed address client s',
        )

    stopped_calls :
        (metadata : P) (s : Session (Account W) U)
        → calls given (stopped services options metadata s).1 ≡ calls given s
    stopped_calls metadata s = ground arith

    confirmed-Closed :
        (address : U) (client : AuthenticateClientResponse) (required : Bool)
        (p : Bool × Session (Account W) U)
        → Closed given 1 client.transaction_id p.1
            (confirmed services options address client required p)
    confirmed-Closed address client required (true, s) =
        postpone-Closed given address client.transaction_id s
    confirmed-Closed address client required (false, s) =
        code_stage-Closed address client required s

    client_stage-Closed :
        (address : U) (p : ClientOutcome P × Session (Account W) U)
        → (client_stage services options address p).0 ≢ crashed
        → IsNamed (calls given p.1)
        → (opens p.0 ≡ 1 → latest (calls given p.1) ≡ some (id_of p.0))
        → (sessions (calls given (client_stage services options address p).1)
            ≡ sessions (calls given p.1))
          × (cancellations (calls given (client_stage services options address p).1)
                + installs (client_stage services options address p).0
              ≡ cancellations (calls given p.1) + opens p.0)
          × IsNamed (calls given (client_stage services options address p).1)
    unfolding Closed client_stage
    client_stage-Closed address (client_crashed, s) h hs named = absurd (h refl)
    client_stage-Closed address (refused none e, s) h hs named = ground (arith, hs)
    client_stage-Closed address (refused (some r) e, s) h hs named =
        ground
          (arith, hs, named, abort-Closed given address r.transaction_id none e metadata_mismatch s)
    client_stage-Closed address (accepted r metadata required, s) h hs named =
        let t = stopped services options metadata s in
        let same : calls given t.1 ≡ calls given s = stopped_calls metadata s in
        let named' : latest (calls given t.1) ≡ some r.transaction_id = rw same (named refl) in
        let hs' : IsNamed (calls given t.1) = rw same hs in
        let c = confirmed-Closed address r required t h named' hs' in rw same at c

    opens-bounds : (c : ClientOutcome P) → opens c ≤ 1
    opens-bounds c = ground arith

    client_lives :
        (address : U) (p : ClientOutcome P × Session (Account W) U)
        → (client_stage services options address p).0 ≢ crashed
        → p.0 ≢ client_crashed
    unfolding client_stage
    client_lives address p h = ground arith

    -- What the account says in the end, and what the download returns.
    abbrev pub Settled : Ending N × Session (Account W) U → Type 0
    Settled p =
        (sessions (calls given p.1) ≡ cancellations (calls given p.1) + installs p.0)
        × (sessions (calls given p.1) ≤ 1)
        × IsNamed (calls given p.1)

    run-Settled :
        (address : U) (s : Session (Account W) U)
        → calls given s ≡ []
        → (client_stage services options address (authenticate_client services address s)).0
          ≢ crashed
        → Settled (client_stage services options address (authenticate_client services address s))
    unfolding Opened
    run-Settled address s fresh h =
        let a = authenticate_client services address s in
        let none_yet : IsNamed (calls given s) = rw fresh tt in
        let (opened, uncancelled, named, id) =
          authenticate_client-Opened address s (client_lives address a h) none_yet in
        let (kept, closed, named') = client_stage-Closed address a h named id in
        let z : (sessions (calls given s) ≡ 0) × (cancellations (calls given s) ≡ 0) =
          rw fresh (refl, refl) in
        (omega (arith, opens-bounds a.0), omega (arith, opens-bounds a.0), named')

    -- A card and a server that keep account of a download, from an empty account on. Where the download
    -- does not panic: the server answered AuthenticateClient with success for at most one session; the
    -- card was told exactly once to cancel that session, unless a response comes back without an error,
    -- and was not told so otherwise; each CancelSession had the transaction id that the server named in
    -- its last answer with success to AuthenticateClient or GetBoundProfilePackage.
    pub download_profile-Closes :
        (s : Session (Account W) U)
        → calls given s ≡ []
        → (download_profile services options s).0 ≢ crashed
        → Settled (download_profile services options s)
    unfolding download_profile validate
    download_profile-Closes s fresh h =
        let s' = progress services options authenticate_client_stage s in
        let same : calls given s' ≡ [] = ground (arith, fresh) in
        elim (Option-cases s.activation.smdp) [
          | inl e ↦ ground (arith, fresh)
          | inr (address, e) ↦ ground (arith, fresh, run-Settled address s' same)
        ]
