-- ===== src/Card/Channels/Frame.antt =====
-- What the link keeps, the operations on logical channels keep (driver/ccid/ccid.go).
use euicc_go.Prelude.{
  ℕ, ◌≤◌, ◌≡◌, refl, ap, inl, inr, true, false, Bool, ◌&&◌, not, Bytes, length, ltb, ◌==◌,
  Bool-cases, arith, if◌then◌else◌,
}
use euicc_go.Prelude.Action.{
  Result, ok, err, ◌>>◌, fail_if, continue_cases, value_cases, fail_if_cases,
}
use euicc_go.Card.Status.{status_ok, status_has_more}
use euicc_go.Card.Channels.{
  CardError, short_response, bad_status, Link, cleaned, validate_logical_channel,
  select_aid_command, head_or_zero, open_command, close_command, open_channel, select_aid,
  close_logical_channel, open_logical_channel,
}

validate-ok : (n : ℕ) → validate_logical_channel n ≡ ok tt → n ≤ 19
unfolding validate_logical_channel
validate-ok n h = ground arith

-- A relation between a state and a later one, which an exchange keeps, and a new channel number
-- where the exchange before it was answered.
pub record Framed {S : Type 0} (link : Link S) (R : S → S → Type 0) (Live : S → Type 0)
    : Type 0 where
  pub same : (s : S) → R s s
  pub follow : (s t u : S) → R s t → R t u → R s u
  pub exchanged : (c : Bytes) (s : S) → R s (link.transmit c s).1
  pub answered :
      (c : Bytes) (s : S) (a : Bytes) → (link.transmit c s).0 ≡ ok a → Live (link.transmit c s).1
  pub set : (n : ℕ) (s : S) → n ≤ 19 → Live s → R s (link.set_channel n s)

module _ {S : Type 0} (link : Link S) (R : S → S → Type 0) (Live : S → Type 0)
    (framed : Framed link R Live) where
  open link use {transmit, channel, set_channel}

  abbrev Related : S → Result CardError (Unit {0}) × S → Type 0
  Related s p = R s p.1

  abbrev RelatedN : S → Result CardError ℕ × S → Type 0
  RelatedN s p = R s p.1

  -- The state is related to the one before; after an answer the link is live.
  Goes : (A : Type 0) → S → Result CardError A × S → Type 0
  Goes A s (ok a, s') = R s s' × Live s'
  Goes A s (err e, s') = R s s'

  Numbered : S → Result CardError ℕ × S → Type 0
  Numbered s (ok n, s') = (n ≤ 19) × R s s' × Live s'
  Numbered s (err e, s') = R s s'

  transmit-Goes : (c : Bytes) (s : S) → Goes Bytes s (transmit c s)
  unfolding Goes
  transmit-Goes c s = of (transmit c s) refl
    where
      of : (p : Result CardError Bytes × S) → transmit c s ≡ p → Goes Bytes s p
      of (ok a, s') e =
          (rw e at (framed.exchanged c s), rw e at (framed.answered c s a (ap (λ p. p.0) e)))
      of (err f, s') e = rw e at (framed.exchanged c s)

  open_channel-Numbered : (s : S) → Numbered s (open_channel link s)
  unfolding Goes Numbered open_channel
  open_channel-Numbered s =
      continue_cases (Numbered s) (transmit open_command s) _
        (λ response s' e.
          let g : Goes Bytes s (ok response, s') = rw e at (transmit-Goes open_command s) in
          fail_if_cases (Numbered s) (ltb (length response) 3) _ _ s'
            (λ _.
              fail_if_cases (Numbered s) (not (status_ok response)) _ _ s'
                (λ _.
                  value_cases (Numbered s) (validate_logical_channel (head_or_zero response)) s' _
                    (λ _ v. (validate-ok (head_or_zero response) v, g.0, g.1)) (λ f v. g.0))
                (λ _. g.0))
            (λ _. g.0))
        (λ e s' h. rw h at (transmit-Goes open_command s))

  tests-Goes :
      (b c : Bool) (e f : CardError) (s s' : S)
      → R s s' × Live s'
      → Goes (Unit {0}) s ((fail_if b e >> fail_if c f) s')
  unfolding Goes
  tests-Goes true c e f s s' h = h.0
  tests-Goes false true e f s s' h = h.0
  tests-Goes false false e f s s' h = h

  select_aid-Goes : (n : ℕ) (aid : Bytes) (s : S) → Goes (Unit {0}) s (select_aid link n aid s)
  unfolding Goes select_aid
  select_aid-Goes n aid s =
      value_cases (Goes (Unit {0}) s) (select_aid_command n aid) s _
        (λ command _.
          continue_cases (Goes (Unit {0}) s) (transmit command s) _
            (λ response s' e.
              tests-Goes (ltb (length response) 2)
                (not (status_ok response) && not (status_has_more response))
                (short_response response) (bad_status response) s s'
                (rw e at (transmit-Goes command s)))
            (λ f s' e. rw e at (transmit-Goes command s)))
        (λ e _. framed.same s)

  reset :
      (n : ℕ) (s s' : S) → R s s' × Live s' → R s (if channel s' == n then set_channel 0 s' else s')
  reset n s s' (h, l) = elim (Bool-cases (channel s' == n)) [
    | inl t ↦ rw t (framed.follow s s' (set_channel 0 s') h (framed.set 0 s' (omega arith) l))
    | inr t ↦ rw t h
  ]

  pub close_logical_channel_related : (n : ℕ) (s : S) → R s (close_logical_channel link n s).1
  unfolding close_logical_channel Goes
  close_logical_channel_related n s =
      value_cases (Related s) (validate_logical_channel n) s _
        (λ _ _.
          continue_cases (Related s) (transmit (close_command n) s) _
            (λ response s' e.
              let g : Goes Bytes s (ok response, s') =
                rw e at (transmit-Goes (close_command n) s) in
              fail_if_cases (Related s) (ltb (length response) 2) _ _ s'
                (λ _.
                  fail_if_cases (Related s) (not (status_ok response)) _ _ s' (λ _. reset n s s' g)
                    (λ _. g.0))
                (λ _. g.0))
            (λ f s' e. rw e at (framed.exchanged (close_command n) s)))
        (λ f _. framed.same s)

  cleaned-Goes :
      (s : S) (n : ℕ) (p : Result CardError (Unit {0}) × S)
      → Goes (Unit {0}) s p
      → Goes (Unit {0}) s (cleaned p (close_logical_channel link n))
  unfolding Goes
  cleaned-Goes s n (ok _, s') h = h
  cleaned-Goes s n (err e, s') h =
      framed.follow s s' (close_logical_channel link n s').1 h (close_logical_channel_related n s')

  pub open_logical_channel_related : (aid : Bytes) (s : S) → R s (open_logical_channel link aid s).1
  unfolding open_logical_channel Goes Numbered
  open_logical_channel_related aid s =
      fail_if_cases (RelatedN s) (ltb 255 (length aid)) _ _ s
        (λ _.
          continue_cases (RelatedN s) (open_channel link s) _
            (λ n s' e.
              let g : Numbered s (ok n, s') = rw e at (open_channel-Numbered s) in
              continue_cases (RelatedN s)
                (cleaned (select_aid link n aid s') (close_logical_channel link n)) _
                (λ _ s'' e'.
                  let c : Goes (Unit {0}) s' (ok tt, s'') =
                    rw e' at
                      (cleaned-Goes s' n (select_aid link n aid s') (select_aid-Goes n aid s')) in
                  framed.follow s s' (set_channel n s'') g.1
                    (framed.follow s' s'' (set_channel n s'') c.0 (framed.set n s'' g.0 c.1)))
                (λ f s'' e'. framed.follow s s' s'' g.1 (
                  rw e' at
                    (cleaned-Goes s' n (select_aid link n aid s') (select_aid-Goes n aid s')))))
            (λ f s' e. rw e at (open_channel-Numbered s)))
        (λ _. framed.same s)
