-- ===== src/Card/Channels/NoLeak.antt =====
-- What `OpenLogicalChannel` leaves open on a card (driver/ccid/ccid.go, driver/at/at.go).
use euicc_go.Prelude.{
  ℕ, ◌≤◌, ◌<◌, ◌≡◌, refl, sym, ap, ◌∙◌, ◌⊎◌, inl, inr, Bool, true, false, ◌&&◌, not, List, ◌∷◌,
  ◌++◌, Bytes, to_byte, length, ltb, ◌==◌, if◌then◌else◌, Bool-cases, arith,
}
use euicc_go.Prelude.Action.{
  Result, ok, err, ◌>>◌, fail_if, continue, continue_cases, fail_if_cases,
}
use euicc_go.Card.Status.{status_ok, status_has_more}
use euicc_go.Card.Channels.{
  CardError, joined, Link, or_else, cleaned, lift, join, validate_logical_channel, with_class,
  short_response, bad_status, select_aid_command, head_or_zero, open_command, close_command,
  open_channel, select_aid, close_logical_channel, open_logical_channel, class_byte_for_channel,
}
use euicc_go.Card.Channels.Conforms.{
  granted, closing_accepted, Conforms, not-eq-false, granted_good, granted_bad, granted_short,
  closing_accepted_good, closing_accepted_bad, closing_accepted_short,
}

-- A command that was built selects.
built :
    (r : Result CardError ℕ) (aid command : Bytes)
    → with_class r aid ≡ ok command
    → (cla : ℕ) × (rest : Bytes) × (command ≡ cla ∷ 0xa4 ∷ rest)
built (ok cla) aid command h = (cla, 0x04 ∷ 0x00 ∷ to_byte (length aid) ∷ aid, ground arith)
built (err e) aid command h = absurd cc

tests_unchanged :
    {S : Type 0} (b c : Bool) (e f : CardError) (s : S) → ((fail_if b e >> fail_if c f) s).1 ≡ s
tests_unchanged true c e f s = refl
tests_unchanged false true e f s = refl
tests_unchanged false false e f s = refl

abbrev left : List ℕ → ℕ → Bool → List ℕ
left others n done = if done then others else n ∷ others

module _ {S : Type 0} (link : Link S) (opened : S → List ℕ) (conforms : Conforms link opened) where
  open link use {transmit, channel, set_channel}
  open conforms use {opens, numbers, selects, closes, set_opened, set_lem}

  abbrev pub InRange : ℕ → Type 0
  InRange n = (0 < n) × (n ≤ 19)

  abbrev Opened : S → Result CardError ℕ × S → Type 0
  Opened s (ok n, s') = (opened s' ≡ n ∷ opened s) × InRange n
  Opened s (err e, s') = opened s' ≡ opened s

  valid_channel : (n : ℕ) → InRange n → validate_logical_channel n ≡ ok tt
  unfolding validate_logical_channel
  valid_channel n h = ground arith

  open_channel-Opened : (s : S) → Opened s (open_channel link s)
  unfolding open_channel
  open_channel-Opened s =
      continue_cases (Opened s) (transmit open_command s) _
        (λ response s' e.
          let o : opened s' ≡ granted (ok response) ++ opened s = rw e at (opens s) in
          fail_if_cases (Opened s) (ltb (length response) 3) _ _ s'
            (λ long.
              fail_if_cases (Opened s) (not (status_ok response)) _ _ s'
                (λ good.
                  let h : InRange (head_or_zero response) =
                    numbers s response (ap (λ p. p.0) e) (not-eq-false (status_ok response) good) in
                  rw (valid_channel (head_or_zero response) h)
                    (o ∙ ap (λ g. g ++ opened s) (granted_good response long good), h))
                (λ bad. o ∙ ap (λ g. g ++ opened s) (granted_bad response bad)))
            (λ short. o ∙ ap (λ g. g ++ opened s) (granted_short response short)))
        (λ e s' h. rw h at (opens s))

  Unchanged : S → Result CardError (Unit {0}) × S → Type 0
  Unchanged s p = opened p.1 ≡ opened s

  select_aid_opened : (n : ℕ) (aid : Bytes) (s : S) → opened (select_aid link n aid s).1 ≡ opened s
  unfolding select_aid Unchanged
  select_aid_opened n aid s =
      continue_cases (Unchanged s) (lift (select_aid_command n aid) s) _
        (λ command s' e.
          let (cla, rest, c) =
            built (class_byte_for_channel 0 n) aid command
              (unfold select_aid_command in ap (λ p. p.0) e) in
          let same : s' ≡ s = sym (ap (λ p. p.1) e) in
          let kept : opened (transmit command s').1 ≡ opened s =
            ap (λ k. opened (transmit k s').1) c ∙ selects s' cla rest ∙ ap opened same in
          continue_cases (Unchanged s) (transmit command s') _
            (λ response s'' e'.
              ap opened (
                tests_unchanged (ltb (length response) 2)
                  (not (status_ok response) && not (status_has_more response))
                  (short_response response) (bad_status response) s'')
              ∙ (rw e' at kept))
            (λ f s'' e'. rw e' at kept))
        (λ e s' h. ap opened (sym (ap (λ p. p.1) h)))

  -- What `CloseLogicalChannel` says and does of the channel opened last.
  Closed : List ℕ → ℕ → Result CardError (Unit {0}) × S → Type 0
  Closed others n (ok _, s') = opened s' ≡ others
  Closed others n (err e, s') = opened s' ≡ n ∷ others

  forget : (n : ℕ) (s : S) → opened (if channel s == n then set_channel 0 s else s) ≡ opened s
  forget n s = elim (Bool-cases (channel s == n)) [
    | inl t ↦ rw t (set_opened s 0)
    | inr t ↦ rw t refl
  ]

  close_logical_channel-Closed :
      (n : ℕ) (others : List ℕ) (s : S)
      → InRange n
      → opened s ≡ n ∷ others
      → Closed others n (close_logical_channel link n s)
  unfolding close_logical_channel Closed
  close_logical_channel-Closed n others s h o = rw (valid_channel n h) (
      continue_cases (Closed others n) (transmit (close_command n) s) _
        (λ response s' e.
          let c : opened s' ≡ (if closing_accepted (ok response) then others else n ∷ others) =
            rw e at (closes s n others o) in
          fail_if_cases (Closed others n) (ltb (length response) 2) _ _ s'
            (λ long.
              fail_if_cases (Closed others n) (not (status_ok response)) _ _ s'
                (λ good.
                  forget n s' ∙ c ∙ ap (left others n) (closing_accepted_good response long good))
                (λ bad. c ∙ ap (left others n) (closing_accepted_bad response bad)))
            (λ short. c ∙ ap (left others n) (closing_accepted_short response short)))
        (λ e s' e'. rw e' at (closes s n others o)))

  -- Nothing more is left open, or the closing failed as well and the error says both.
  abbrev pub Released : List ℕ → CardError → S → Type 0
  Released others e s' =
      (opened s' ≡ others)
      ⊎ ((n : ℕ) × (f : CardError) × (g : CardError) × (e ≡ joined f g) × (opened s' ≡ n ∷ others))

  Selected : List ℕ → ℕ → Result CardError (Unit {0}) × S → Type 0
  Selected others n (ok _, s') = opened s' ≡ n ∷ others
  Selected others n (err e, s') = Released others e s'

  released :
      (others : List ℕ) (n : ℕ) (e : CardError) (p : Result CardError (Unit {0}) × S)
      → Closed others n p
      → Released others (join e p.0) p.1
  unfolding Closed
  released others n e (ok _, s') h = inl h
  released others n e (err f, s') h = inr (n, e, f, refl, h)

  or_else-Selected :
      (others : List ℕ) (n : ℕ) (p : Result CardError (Unit {0}) × S)
      → InRange n
      → opened p.1 ≡ n ∷ others
      → Selected others n (cleaned p (close_logical_channel link n))
  unfolding Selected
  or_else-Selected others n (ok _, s') r h = h
  or_else-Selected others n (err e, s') r h =
      released others n e (close_logical_channel link n s')
        (close_logical_channel-Closed n others s' r h)

  abbrev pub LeavesOpen : S → Result CardError ℕ × S → Type 0
  LeavesOpen s (ok n, s') = (opened s' ≡ n ∷ opened s) × (channel s' ≡ n) × InRange n
  LeavesOpen s (err e, s') = Released (opened s) e s'

  finished :
      (aid : Bytes) (s : S) (n : ℕ) (s' : S)
      → InRange n
      → Selected (opened s) n (or_else (select_aid link n aid) (close_logical_channel link n) s')
      → LeavesOpen s (
          continue
            (or_else (select_aid link n aid) (close_logical_channel link n) s')
            (λ _ s''. (ok n, set_channel n s'')))
  unfolding Selected
  finished aid s n s' r h =
      continue_cases (LeavesOpen s)
        (or_else (select_aid link n aid) (close_logical_channel link n) s') _
        (λ _ s'' e. (set_opened s'' n ∙ (rw e at h), set_lem s'' n, r)) (λ f s'' e. rw e at h)

  -- On a card that keeps account of its channels as ISO 7816-4 says: where the call returns a channel,
  -- this one has been opened, no other, it lies between 1 and 19, and it is the link's own; where it
  -- returns an error, no more channels are open than before, unless closing failed as well, which the
  -- error then says beside the first.
  pub open_logical_channel-LeavesOpen :
      (aid : Bytes) (s : S) → LeavesOpen s (open_logical_channel link aid s)
  unfolding open_logical_channel
  open_logical_channel-LeavesOpen aid s =
      fail_if_cases (LeavesOpen s) (ltb 255 (length aid)) _ _ s
        (λ fits.
          continue_cases (LeavesOpen s) (open_channel link s) _
            (λ n s' e.
              let o : Opened s (ok n, s') = rw e at (open_channel-Opened s) in
              let selected : Selected (opened s) n
                  (or_else (select_aid link n aid) (close_logical_channel link n) s') =
                or_else-Selected (opened s) n (select_aid link n aid s') o.1
                  (select_aid_opened n aid s' ∙ o.0) in
              finished aid s n s' o.1 selected)
            (λ e s' h. inl (rw h at (open_channel-Opened s))))
        (λ long. inl refl)
