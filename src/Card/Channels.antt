-- ===== src/Card/Channels.antt =====
-- Logical channels opened, selected and closed (driver/ccid/ccid.go; driver/at/at.go has the same).
pub mod Conforms
pub mod Frame
pub mod NoLeak
use euicc_go.Prelude.{
  ℕ, ◌-◌, bit_and, bit_or, ◌||◌, ◌&&◌, not, [], ◌∷◌, Bytes, to_byte, length, ltb, leb, ◌==◌,
  if◌then◌else◌, Bool,
}
use euicc_go.Prelude.Action.{Result, ok, err, Action, ◌>>=◌, ◌>>◌, pure, fail_if, modify}
use euicc_go.Card.Status.{status_ok, status_has_more}

pub data CardError : Type 0 where
  -- an error of the link, by its number
  link_error : ℕ → CardError
  -- "ccid reader is closed", "… is not connected", "… is connected", "… is required"
  reader_closed not_connected reader_connected reader_required : CardError
  -- "unsupported active PC/SC protocol: %s"
  unsupported_protocol : ℕ → CardError
  -- a response that is too short, or has another status than it should
  short_response bad_status : Bytes → CardError
  -- "AID length %d exceeds short APDU limit"
  long_aid : ℕ → CardError
  -- "invalid logical channel %d", "logical channel %d exceeds maximum %d"
  invalid_channel channel_too_high : ℕ → CardError
  -- `errors.Join` of two errors
  joined : CardError → CardError → CardError

abbrev pub join : CardError → Result CardError (Unit {0}) → CardError
join e (ok _) = e
join e (err e') = joined e e'

-- What the code uses of its receiver: the exchange of bytes, and the field `channel`.
pub record Link (S : Type 0) : Type 0 where
  pub transmit : Bytes → Action S CardError Bytes
  pub channel : S → ℕ
  pub set_channel : ℕ → S → S

abbrev pub cleaned :
    {S A : Type 0} → Result CardError A × S → Action S CardError (Unit {0}) → Result CardError A × S
cleaned (ok a, s) cleanup = (ok a, s)
cleaned (err e, s) cleanup = let (r, s') = cleanup s in (err (join e r), s')

-- `errors.Join(err, cleanup())`: the clean-up runs when the action has failed.
abbrev pub or_else :
    {S A : Type 0} → Action S CardError A → Action S CardError (Unit {0}) → Action S CardError A
or_else m cleanup s = cleaned (m s) cleanup

unfoldable pub validate_logical_channel : ℕ → Result CardError (Unit {0})
validate_logical_channel channel =
    if (channel == 0) || ltb 19 channel then err (invalid_channel channel) else ok tt

unfoldable pub class_byte_for_channel : ℕ → ℕ → Result CardError ℕ
class_byte_for_channel cla channel =
    if ltb channel 4
    then ok (bit_or (bit_and cla 0x9c) channel)
    else if leb channel 19
    then ok (bit_or (bit_or (bit_and cla 0xb0) 0x40) (channel - 4))
    else err (channel_too_high channel)

abbrev pub with_class : Result CardError ℕ → Bytes → Result CardError Bytes
with_class (err e) aid = err e
with_class (ok cla) aid =
    if ltb 255 (length aid)
    then err (long_aid (length aid))
    else ok (cla ∷ 0xa4 ∷ 0x04 ∷ 0x00 ∷ to_byte (length aid) ∷ aid)

unfoldable pub select_aid_command : ℕ → Bytes → Result CardError Bytes
select_aid_command channel aid = with_class (class_byte_for_channel 0 channel) aid

abbrev pub lift : {S A : Type 0} → Result CardError A → Action S CardError A
lift r s = (r, s)

abbrev pub head_or_zero : Bytes → ℕ
head_or_zero [] = 0
head_or_zero (b ∷ bs) = b

abbrev pub open_command : Bytes
open_command = 0x00 ∷ 0x70 ∷ 0x00 ∷ 0x00 ∷ 0x01 ∷ []

abbrev pub close_command : ℕ → Bytes
close_command channel = 0x00 ∷ 0x70 ∷ 0x80 ∷ channel ∷ 0x00 ∷ []

module _ {S : Type 0} (link : Link S) where
  open link use {transmit, channel, set_channel}

  -- The response has three bytes at least where its first is read.
  unfoldable pub open_channel : Action S CardError ℕ
  open_channel = do
    response ← transmit open_command
    fail_if (ltb (length response) 3) (short_response response)
    fail_if (not (status_ok response)) (bad_status response)
    lift (validate_logical_channel (head_or_zero response))
    pure (head_or_zero response)

  unfoldable pub select_aid : ℕ → Bytes → Action S CardError (Unit {0})
  select_aid n aid = do
    command ← lift (select_aid_command n aid)
    response ← transmit command
    fail_if (ltb (length response) 2) (short_response response)
    fail_if (not (status_ok response) && not (status_has_more response)) (bad_status response)

  unfoldable pub close_logical_channel : ℕ → Action S CardError (Unit {0})
  close_logical_channel n = do
    lift (validate_logical_channel n)
    response ← transmit (close_command n)
    fail_if (ltb (length response) 2) (short_response response)
    fail_if (not (status_ok response)) (bad_status response)
    modify (λ s. if channel s == n then set_channel 0 s else s)

  unfoldable pub open_logical_channel : Bytes → Action S CardError ℕ
  open_logical_channel aid = do
    fail_if (ltb 255 (length aid)) (long_aid (length aid))
    n ← open_channel
    or_else (select_aid n aid) (close_logical_channel n)
    modify (set_channel n)
    pure n
