-- ===== src/Lpa/Download/Counts.antt =====
-- What the calls of a download do to the account of its sessions (lpa/download.go).
use euicc_go.Prelude.{ℕ, ◌+◌, ◌≡◌, ◌≢◌, Option, some, List, [], ◌∷◌, Bytes, arith}
use euicc_go.Prelude.Action.{Result, ok, err, continue_cases}
use euicc_go.Lpa.{
  LpaError, Failure, AuthenticateClientResponse, BoundProfilePackageResponse, CancelSessionReason,
}
use euicc_go.Lpa.Session.{
  Services, Session, http_outcome, euicc_challenge, euicc_info1, initiate_authentication,
  prepare_download_call, cancel_session_call, invoke_raw_apdu,
}
use euicc_go.Sgp22.Bpp.{segmented_bound_profile_package}
use euicc_go.Lpa.Install.{
  segments_of, LoadResponse, install, load, valid, unmarshal_response, result_of,
}
use euicc_go.Lpa.Download.{Ending, crashed, abort, postpone}
use euicc_go.Lpa.Download.Recorded.{
  Account, Call, recorded, sessions, cancellations, latest, IsNamed, installs,
}
use euicc_go.Lpa.Authentication.{authenticate_server}

module _ {W U P N : Type 0} (given : Services W U P N) where
  abbrev services : Services (Account W) U P N
  services = recorded given

  abbrev pub calls : Session (Account W) U → List Call
  calls s = s.world.1

  -- The account is as before.
  pub record Same (s s' : Session (Account W) U) : Type 0 where
    pub same : calls s' ≡ calls s

  pub initiate_authentication-Same :
      (address : U) (s : Session (Account W) U)
      → Same s (initiate_authentication services address s).1
  unfolding initiate_authentication euicc_challenge euicc_info1
  initiate_authentication-Same address s = ground arith

  -- The transaction that the server named last, once it has answered with a package or an error.
  abbrev pub named_by : Bytes → Result Failure BoundProfilePackageResponse → Bytes
  named_by id (ok r) = r.transaction_id
  named_by id (err e) = id

  -- No session was opened or cancelled, and the transaction is still named.
  pub record Packaged (id : Bytes) (s : Session (Account W) U)
      (p : Result Failure BoundProfilePackageResponse × Session (Account W) U) : Type 0 where
    pub sessions : sessions (calls p.1) ≡ sessions (calls s)
    pub cancellations : cancellations (calls p.1) ≡ cancellations (calls s)
    pub latest : latest (calls p.1) ≡ some (named_by id p.0)
    pub named : IsNamed (calls p.1)

  pub prepare_download-Packaged :
      (address : U) (client : AuthenticateClientResponse) (id : Bytes) (s : Session (Account W) U)
      → latest (calls s) ≡ some id
      → IsNamed (calls s)
      → Packaged id s (authenticate_server services address client s)
  unfolding authenticate_server prepare_download_call http_outcome
  prepare_download-Packaged address client id s h hs = ground (arith, h, hs)

  load-Same :
      (commands : List Bytes) (s : Session (Account W) U) → Same s (load services commands s).1
  unfolding load invoke_raw_apdu
  load-Same [] s = ground arith
  load-Same (c ∷ cs) s =
      let w = (given.transmit_raw c s.world.0).1 in
      let s' = record s { world = (w, s.world.1) } in ground (arith, load-Same cs s')

  result_of_state : (r : Bytes) (s : Session (Account W) U) → (result_of services r s).1 ≡ s
  unfolding result_of unmarshal_response valid
  result_of_state r s = ground arith

  abbrev Later :
      {A : Type 0} → Session (Account W) U → Result Failure A × Session (Account W) U → Type 0
  Later s p = Same s p.1

  pub install-Same :
      (server : BoundProfilePackageResponse) (s : Session (Account W) U)
      → Same s (install services server s).1
  unfolding install
  install-Same server s =
      continue_cases (Later s)
        (segments_of (segmented_bound_profile_package server.bound_profile_package) s) _
        (λ commands s' e.
          let f : s' ≡ s = ground arith in
          continue_cases (Later s) (load services commands s') _
            (λ r s'' e'. ground (arith, load-Same commands s', result_of_state r s''))
            (λ f s'' e'. ground (arith, load-Same commands s')))
        (λ f s' e. ground arith)

  -- Of `k` open sessions none is left, unless the code panics, and what was cancelled is the transaction,
  -- which the server named last.
  unfoldable pub Closed :
      ℕ → Bytes → Session (Account W) U → Ending N × Session (Account W) U → Type 0
  Closed k id s p =
      p.0 ≢ crashed
      → latest (calls s) ≡ some id
      → IsNamed (calls s)
      → (sessions (calls p.1) ≡ sessions (calls s))
        × (cancellations (calls p.1) + installs p.0 ≡ cancellations (calls s) + k)
        × IsNamed (calls p.1)

  pub abort-Closed :
      (address : U) (id : Bytes) (result : Option (LoadResponse N)) (e : LpaError)
      (reason : CancelSessionReason) (s : Session (Account W) U)
      → Closed 1 id s (abort services address id result e reason s)
  unfolding Closed abort cancel_session_call
  abort-Closed address id result e reason s h named hs = ground (arith, named, hs)

  pub postpone-Closed :
      (address : U) (id : Bytes) (s : Session (Account W) U)
      → Closed 1 id s (postpone services address id s)
  unfolding Closed postpone cancel_session_call
  postpone-Closed address id s h named hs = ground (arith, named, hs)
