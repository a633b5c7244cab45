-- ===== src/Card/Examples.antt =====
-- A card with one channel to give, and what is left open on it.
use euicc_go.Prelude.{
  ℕ, ◌≡◌, ap, ◌∙◌, ◌≤◌, ◌<◌, refl, Bool, true, false, List, [], ◌∷◌, ◌++◌, Bytes, ◌==◌,
  if◌then◌else◌, arith,
}
use euicc_go.Prelude.Action.{Result, ok, err}
use euicc_go.Card.Status.{status_ok, status_has_more}
use euicc_go.Card.Channels.{
  CardError, Link, bad_status, open_logical_channel, open_channel, select_aid,
  close_logical_channel, validate_logical_channel, select_aid_command, class_byte_for_channel,
  head_or_zero,
}
use euicc_go.Card.Channels.Conforms.{Conforms, granted, closing_accepted}
use euicc_go.Card.Channels.NoLeak.{LeavesOpen, open_logical_channel-LeavesOpen}

record OneChannel : Type 0 where
  in_use : List ℕ
  current : ℕ

abbrev refusal : Bytes
refusal = 0x6a ∷ 0x81 ∷ []

abbrev give : List ℕ → ℕ → Result CardError Bytes × OneChannel
give [] c = (ok (1 ∷ 0x90 ∷ 0 ∷ []), record { in_use = 1 ∷ []; current = c })
give (n ∷ ns) c = (ok refusal, record { in_use = n ∷ ns; current = c })

abbrev take_back : List ℕ → ℕ → ℕ → Result CardError Bytes × OneChannel
take_back [] m c = (ok refusal, record { in_use = []; current = c })
take_back (n ∷ ns) m c =
    if n == m
    then (ok (0x90 ∷ 0 ∷ []), record { in_use = ns; current = c })
    else (ok refusal, record { in_use = n ∷ ns; current = c })

-- SELECT is refused.
abbrev exchange : Bytes → OneChannel → Result CardError Bytes × OneChannel
exchange (cla ∷ ins ∷ p1 ∷ p2 ∷ c) s =
    if ins == 0x70
    then (if p1 == 0 then give s.in_use s.current else take_back s.in_use p2 s.current)
    else (ok refusal, s)
exchange _ s = (ok refusal, s)

abbrev card : Link OneChannel
card = record {
  transmit = exchange;
  channel = λ s. s.current;
  set_channel = λ n s. record s { current = n };
}

good : Result CardError Bytes → Bool
good (ok response) = status_ok response
good (err e) = false

card_opens : (u : List ℕ) (c : ℕ) → (give u c).1.in_use ≡ granted (give u c).0 ++ u
unfolding status_ok
card_opens [] c = refl
card_opens (n ∷ ns) c = refl

card_numbers :
    (u : List ℕ) (c : ℕ) (response : Bytes)
    → (give u c).0 ≡ ok response
    → status_ok response ≡ true
    → (0 < head_or_zero response) × (head_or_zero response ≤ 19)
unfolding status_ok good
card_numbers [] c response e h = ground arith
card_numbers (n ∷ ns) c response e h = let f : status_ok refusal ≡ true = ap good e ∙ h in absurd cc

card_selects :
    (s : OneChannel) (cla : ℕ) (command : Bytes)
    → (exchange (cla ∷ 0xa4 ∷ command) s).1.in_use ≡ s.in_use
card_selects s cla [] = refl
card_selects s cla (a ∷ []) = refl
card_selects s cla (a ∷ b ∷ command) = refl

card_closes :
    (u : List ℕ) (c n : ℕ) (others : List ℕ)
    → u ≡ n ∷ others
    → (take_back u n c).1.in_use
      ≡ (if closing_accepted (take_back u n c).0 then others else n ∷ others)
unfolding status_ok
card_closes u c n others e = let t : (n == n) ≡ true = ground arith in rw (e, t) refl

card-Conforms : Conforms card (λ s. s.in_use)
card-Conforms = record {
  opens = λ s. card_opens s.in_use s.current;
  numbers = λ s. card_numbers s.in_use s.current;
  selects = card_selects;
  closes = λ s n others. card_closes s.in_use s.current n others;
  set_opened = λ s n. refl;
  set_lem = λ s n. refl;
}

abbrev idle : OneChannel
idle = record { in_use = []; current = 0 }

-- The channel is opened, SELECT is refused, and the channel is closed again.
refused_run : open_logical_channel card (0xa0 ∷ []) idle ≡ (err (bad_status refusal), idle)
unfolding open_logical_channel open_channel select_aid close_logical_channel
    validate_logical_channel select_aid_command class_byte_for_channel status_ok status_has_more
refused_run = refl

open_logical_channel-LeavesOpen_example :
    LeavesOpen card (λ s. s.in_use) card-Conforms idle (open_logical_channel card (0xa0 ∷ []) idle)
open_logical_channel-LeavesOpen_example =
    open_logical_channel-LeavesOpen card (λ s. s.in_use) card-Conforms (0xa0 ∷ []) idle
