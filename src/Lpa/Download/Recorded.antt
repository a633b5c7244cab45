-- ===== src/Lpa/Download/Recorded.antt =====
-- A card and a server that keep account of what a download has to do with their sessions
-- (lpa/download.go).
use euicc_go.Prelude.{
  ℕ, ◌+◌, ◌≡◌, Bool, false, Option, none, some, List, [], ◌∷◌, Bytes, if◌then◌else◌,
}
use euicc_go.Lpa.{
  LpaError, Header, executed_success, AuthenticateClientResponse, BoundProfilePackageResponse,
  CancelSessionReason,
}
use euicc_go.Lpa.Session.{Services}
use euicc_go.Lpa.Download.{DownloadOptions, Ending, ended, crashed}

pub data Call : Type 0 where
  -- the server's answer to AuthenticateClient, as far as it was decoded
  authenticated : AuthenticateClientResponse → Call
  -- the server's answer to GetBoundProfilePackage, with the error of `SendRequest`
  packaged : Option LpaError → BoundProfilePackageResponse → Call
  -- CancelSession on the card, with the transaction id
  cancelled : Bytes → CancelSessionReason → Call

-- The newest call is the first.
abbrev pub Account : Type 0 → Type 0
Account W = W × List Call

abbrev plain : {A W : Type 0} → (W → A × W) → Account W → A × Account W
plain f (w, calls) = let (a, w') = f w in (a, (w', calls))

abbrev pub recorded : {W U P N : Type 0} → Services W U P N → Services (Account W) U P N
recorded services = record {
  host = services.host;
  get_challenge = plain services.get_challenge;
  get_info = plain services.get_info;
  authenticate_server = λ request. plain (services.authenticate_server request);
  prepare_download = λ request. plain (services.prepare_download request);
  cancel_session = λ id reason (w, calls).
      plain (services.cancel_session id reason) (w, cancelled id reason ∷ calls);
  transmit_raw = λ command. plain (services.transmit_raw command);
  send_initiate_authentication =
      λ address request. plain (services.send_initiate_authentication address request);
  send_authenticate_client = λ address answer (w, calls).
      let (r, w') = services.send_authenticate_client address answer w in
      (r, (w', authenticated r.1 ∷ calls));
  send_bound_profile_package = λ address answer (w, calls).
      let (r, w') = services.send_bound_profile_package address answer w in
      (r, (w', packaged r.0 r.1 ∷ calls));
  send_cancel_session = λ address answer. plain (services.send_cancel_session address answer);
  profile_info = services.profile_info;
  notification_metadata = services.notification_metadata;
  done = λ w. services.done w.0;
}

abbrev carried_progress : {A W : Type 0} → Option (A → W → W) → Option (A → Account W → Account W)
carried_progress none = none
carried_progress (some call) = some (λ a w. (call a w.0, w.1))

abbrev carried_confirm :
    {A W : Type 0} → Option (A → W → Bool × W) → Option (A → Account W → Bool × Account W)
carried_confirm none = none
carried_confirm (some call) = some (λ a. plain (call a))

abbrev carried_code : {W : Type 0} → Option (W → Bytes × W) → Option (Account W → Bytes × Account W)
carried_code none = none
carried_code (some call) = some (plain call)

-- The callbacks, which leave the account alone.
abbrev pub carried : {W P : Type 0} → DownloadOptions W P → DownloadOptions (Account W) P
carried options = record {
  on_progress = carried_progress options.on_progress;
  on_confirm = carried_confirm options.on_confirm;
  on_enter_confirmation_code = carried_code options.on_enter_confirmation_code;
}

abbrev pub is_success : Option Header → Bool
is_success none = false
is_success (some h) = executed_success h.execution_status

abbrev pub answered_well : Option Header → ℕ
answered_well header = if is_success header then 1 else 0

-- The sessions for which the server answered AuthenticateClient with success.
abbrev pub sessions : List Call → ℕ
sessions [] = 0
sessions (authenticated r ∷ cs) = answered_well r.header + sessions cs
sessions (packaged e r ∷ cs) = sessions cs
sessions (cancelled id reason ∷ cs) = sessions cs

abbrev pub cancellations : List Call → ℕ
cancellations [] = 0
cancellations (authenticated r ∷ cs) = cancellations cs
cancellations (packaged e r ∷ cs) = cancellations cs
cancellations (cancelled id reason ∷ cs) = 1 + cancellations cs

-- The transaction id in the server's last answer with success.
abbrev pub latest : List Call → Option Bytes
latest [] = none
latest (authenticated r ∷ cs) =
    let before = latest cs in if is_success r.header then some r.transaction_id else before
latest (packaged none r ∷ cs) =
    let before = latest cs in if is_success r.header then some r.transaction_id else before
latest (packaged (some e) r ∷ cs) = latest cs
latest (cancelled id reason ∷ cs) = latest cs

-- Each CancelSession names the transaction of the server's last answer with success before it.
abbrev pub IsNamed : List Call → Type 0
IsNamed [] = Unit
IsNamed (authenticated r ∷ cs) = IsNamed cs
IsNamed (packaged e r ∷ cs) = IsNamed cs
IsNamed (cancelled id reason ∷ cs) = (latest cs ≡ some id) × IsNamed cs

-- A profile is installed where a response comes back without an error.
abbrev pub installs : {N : Type 0} → Ending N → ℕ
installs (ended (some r) none) = 1
installs (ended (some r) (some e)) = 0
installs (ended none e) = 0
installs crashed = 0
