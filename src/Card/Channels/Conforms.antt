-- ===== src/Card/Channels/Conforms.antt =====
-- A card that keeps account of its open channels, after ISO 7816-4.
use euicc_go.Prelude.{
  ℕ, ◌≤◌, ◌<◌, ◌≡◌, refl, true, false, Bool, ◌&&◌, not, List, [], ◌∷◌, ◌++◌, Bytes, length, ltb,
  leb, if◌then◌else◌, arith,
}
use euicc_go.Prelude.Action.{Result, ok, err}
use euicc_go.Card.Status.{status_ok}
use euicc_go.Card.Channels.{CardError, Link, head_or_zero, open_command, close_command}

-- The channel that a response to MANAGE CHANNEL grants.
abbrev pub granted : Result CardError Bytes → List ℕ
granted (err e) = []
granted (ok response) =
    if leb 3 (length response) && status_ok response then head_or_zero response ∷ [] else []

abbrev pub closing_accepted : Result CardError Bytes → Bool
closing_accepted (err e) = false
closing_accepted (ok response) = leb 2 (length response) && status_ok response

-- ISO 7816-4: MANAGE CHANNEL opens a channel, numbered from 1 to 19, exactly if its response says so, and
-- closes one likewise; SELECT leaves the channels as they are.
pub record Conforms {S : Type 0} (link : Link S) (opened : S → List ℕ) : Type 0 where
  pub opens :
      (s : S)
      → opened (link.transmit open_command s).1
        ≡ granted (link.transmit open_command s).0 ++ opened s
  pub numbers :
      (s : S) (response : Bytes)
      → (link.transmit open_command s).0 ≡ ok response
      → status_ok response ≡ true
      → (0 < head_or_zero response) × (head_or_zero response ≤ 19)
  pub selects :
      (s : S) (cla : ℕ) (command : Bytes)
      → opened (link.transmit (cla ∷ 0xa4 ∷ command) s).1 ≡ opened s
  pub closes :
      (s : S) (n : ℕ) (others : List ℕ)
      → opened s ≡ n ∷ others
      → opened (link.transmit (close_command n) s).1
        ≡ (if closing_accepted (link.transmit (close_command n) s).0 then others else n ∷ others)
  pub set_opened : (s : S) (n : ℕ) → opened (link.set_channel n s) ≡ opened s
  pub set_lem : (s : S) (n : ℕ) → link.channel (link.set_channel n s) ≡ n

pub not-eq-false : (b : Bool) → not b ≡ false → b ≡ true
not-eq-false true h = refl
not-eq-false false h = cc

module _ (response : Bytes) where
  pub granted_good :
      ltb (length response) 3 ≡ false
      → not (status_ok response) ≡ false
      → granted (ok response) ≡ head_or_zero response ∷ []
  granted_good long good = ground arith

  pub granted_bad : not (status_ok response) ≡ true → granted (ok response) ≡ []
  granted_bad bad = ground arith

  pub granted_short : ltb (length response) 3 ≡ true → granted (ok response) ≡ []
  granted_short short = ground arith

module _ (response : Bytes) where
  pub closing_accepted_good :
      ltb (length response) 2 ≡ false
      → not (status_ok response) ≡ false
      → closing_accepted (ok response) ≡ true
  closing_accepted_good long good = ground arith

  pub closing_accepted_bad :
      not (status_ok response) ≡ true → closing_accepted (ok response) ≡ false
  closing_accepted_bad bad = ground arith

  pub closing_accepted_short :
      ltb (length response) 2 ≡ true → closing_accepted (ok response) ≡ false
  closing_accepted_short short = ground arith
