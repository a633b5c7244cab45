-- ===== src/Lpa/Install/Stops.antt =====
-- Which segments of a profile package are sent (`install` of lpa/download.go).
use euicc_go.Prelude.{
  ◌≡◌, ◌≢◌, refl, ap, ◌∙◌, ◌⊎◌, inl, inr, Option, some, List, [], ◌∷◌, ◌++◌, Bytes, arith,
}
use euicc_go.Prelude.Action.{ok, Action, continue-ok}
use mathlib.Core.Path.{subst}
use euicc_go.Sgp22.Bpp.{success, segmented_bound_profile_package}
use euicc_go.Lpa.{LpaError, Failure, BoundProfilePackageResponse}
use euicc_go.Lpa.Session.{Services, Session, invoke_raw_apdu}
use euicc_go.Lpa.Install.{LoadResponse, segments_of, load, result_of, install}

module _ {W U P N : Type 0} (services : Services W U P N) where
  -- The exchanges with the card in which it is sent the segments in turn: it answers each of them with
  -- nothing but the last one, whose answer is given; the given answer is empty where it answers none.
  pub data Exchanged : List Bytes → W → Bytes → W → Type 0 where
    ended : {w : W} → Exchanged [] w [] w
    silent :
        {c : Bytes} {cs : List Bytes} {w w' w'' : W} {r : Bytes}
        → services.transmit_raw c w ≡ (ok [], w')
        → Exchanged cs w' r w''
        → Exchanged (c ∷ cs) w r w''
    answered :
        {c r : Bytes} {w w' : W}
        → services.transmit_raw c w ≡ (ok r, w')
        → r ≢ []
        → Exchanged (c ∷ []) w r w'

  -- The segments sent, and those not sent: there are none of these where the card answered none.
  pub record Sent (commands : List Bytes) (s s' : Session W U) (r : Bytes) : Type 0 where
    pub before : List Bytes
    pub after : List Bytes
    pub whole : commands ≡ before ++ after
    pub exchanged : Exchanged before s.world r s'.world
    pub activation : s'.activation ≡ s.activation
    pub stopped : (after ≡ []) ⊎ (r ≢ [])

  -- What follows the answer to a segment.
  abbrev go_on : List Bytes → Bytes → Action (Session W U) Failure Bytes
  go_on cs a t = elim a [ [] ↦ load services cs t | b ∷ bs ↦ (ok (b ∷ bs), t) ]

  -- What the call of the card gave.
  raw_answer :
      (c : Bytes) (s : Session W U) (a : Bytes) (t : Session W U)
      → invoke_raw_apdu services c s ≡ (ok a, t)
      → (services.transmit_raw c s.world ≡ (ok a, t.world)) × (t.activation ≡ s.activation)
  unfolding invoke_raw_apdu
  raw_answer c s a t e = ground arith

  answered-Sent :
      (c : Bytes) (cs : List Bytes) (s : Session W U) (r : Bytes) (s' : Session W U) (a : Bytes)
      (t : Session W U)
      → services.transmit_raw c s.world ≡ (ok a, t.world)
      → t.activation ≡ s.activation
      → go_on cs a t ≡ (ok r, s')
      → (load services cs t ≡ (ok r, s') → Sent cs t s' r)
      → Sent (c ∷ cs) s s' r
  answered-Sent c cs s r s' [] t e f k later =
      let rest = later k in
      record {
        before = c ∷ rest.before;
        after = rest.after;
        whole = ap (λ x. c ∷ x) rest.whole;
        exchanged = silent e rest.exchanged;
        activation = rest.activation ∙ f;
        stopped = rest.stopped;
      }
  answered-Sent c cs s r s' (b ∷ bs) t e f k later =
      let same : t ≡ s' = ap (λ p. p.1) k in
      let given : b ∷ bs ≡ r = ground arith in
      let some_answer : r ≢ [] = ground arith in
      record {
        before = c ∷ [];
        after = cs;
        whole = refl;
        exchanged = answered (rw (same, given) at e) some_answer;
        activation = rw same at f;
        stopped = inr some_answer;
      }

  load-Sent :
      (commands : List Bytes) (s : Session W U) (r : Bytes) (s' : Session W U)
      → load services commands s ≡ (ok r, s')
      → Sent commands s s' r
  unfolding load
  load-Sent [] s r s' h =
      let same : s ≡ s' = ap (λ p. p.1) h in
      let nothing : [] ≡ r = ground arith in
      let base : Sent [] s s [] = record {
        before = [];
        after = [];
        whole = refl;
        exchanged = ended;
        activation = refl;
        stopped = inl refl;
      } in
      subst (λ x. Sent [] s s' x) nothing (subst (λ u. Sent [] s u []) same base)
  load-Sent (c ∷ cs) s r s' h =
      let (a, t, e, k) = continue-ok (invoke_raw_apdu services c s) (go_on cs) r s' h in
      let (e', f) = raw_answer c s a t e in
      answered-Sent c cs s r s' a t e' f k (load-Sent cs t r s')

  -- Where an installation returns a response, the package was cut into segments. The card was sent a part
  -- of them from the first on, in their order and each once: it answered each with no bytes, up to
  -- the first that it answered with some, which is the last that was sent; all were sent where there is
  -- none. The response is what is decoded of that answer, or of no bytes where there is none.
  pub install-Sent :
      (response : BoundProfilePackageResponse) (s : Session W U)
      (out : LoadResponse N × Option LpaError) (s' : Session W U)
      → install services response s ≡ (ok out, s')
      → (commands : List Bytes) × (segmented_bound_profile_package response.bound_profile_package
          ≡ some (success commands))
        × (r : Bytes) × (t : Session W U) × Sent commands s t r
        × (result_of services r t ≡ (ok out, s'))
  unfolding install
  install-Sent response s out s' h =
      let (commands, s₁, e, k) =
        continue-ok (segments_of (segmented_bound_profile_package response.bound_profile_package) s)
          _ out s' h in
      let (r, t, e', k') = continue-ok (load services commands s₁) _ out s' k in
      let z : s₁ ≡ s = ground arith in
      let sent : Sent commands s t r =
        subst (λ u. Sent commands u t r) z (load-Sent commands s₁ r t e') in
      (commands, ground arith, r, t, sent, k')
