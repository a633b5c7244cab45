-- ===== src/Ccid.antt =====
-- driver/ccid/ccid.go: a reader of the PC/SC library, and the count of the readers that use it.
pub mod Operations
pub mod Accounts
pub mod Life
mod Examples
use euicc_go.Prelude.{
  ℕ, ◌+◌, ◌-◌, Bool, true, false, ◌&&◌, not, Option, none, some, List, [], ◌∷◌, Bytes, ◌==◌,
  if◌then◌else◌,
}
use euicc_go.Prelude.Action.{Result, ok, err, Action, ◌>>=◌, ◌>>◌, pure, fail, fail_if, modify}
use euicc_go.Card.Channels.{
  CardError, link_error, reader_closed, not_connected, reader_connected, reader_required,
  unsupported_protocol, bad_status, Link, join, lift,
}

-- github.com/ElMostafaIdrassi/goscard, over the state `W` of the world: each call answers, or fails
-- with the number of an error. A protocol is 1 for T=0, 2 for T=1, or another number.
pub record Pcsc (W : Type 0) : Type 0 where
  pub initialize : W → Result ℕ (Unit {0}) × W
  pub finalize : W → W
  pub new_context : W → Result ℕ (Unit {0}) × W
  pub connect : Bytes → W → Result ℕ ℕ × W
  pub transmit : Bytes → W → Result ℕ Bytes × W
  pub disconnect : W → Result ℕ (Unit {0}) × W
  pub release : W → Result ℕ (Unit {0}) × W
  pub list_readers : W → Result ℕ (List Bytes) × W

-- A CCIDReader. `io_send` is nil or stands for the protocol; the handles of the context and of the
-- card are part of the world.
pub record Reader : Type 0 where
  pub io_send : Option ℕ
  pub channel : ℕ
  pub reader : Bytes
  pub is_open : Bool
  pub closed : Bool

-- A reader, with what the package and the world share: `pcsc.refs`, and whether goscard is
-- initialized.
pub record Host (W : Type 0) : Type 0 where
  pub self : Reader
  pub refs : ℕ
  pub initialized : Bool
  pub world : W

abbrev pub linked : {A : Type 0} → Result ℕ A → Result CardError A
linked (ok a) = ok a
linked (err e) = err (link_error e)

module _ {W : Type 0} where
  abbrev pub call : {A : Type 0} → (W → Result ℕ A × W) → Action (Host W) CardError A
  call f h = let (r, w) = f h.world in (linked r, record h { world = w })

  abbrev pub update : (Reader → Reader) → Action (Host W) CardError (Unit {0})
  update f h = (ok tt, record h { self = f h.self })

abbrev pub io_request_for_protocol : ℕ → Result CardError ℕ
io_request_for_protocol protocol =
    if protocol == 1
    then ok 1
    else if protocol == 2
    then ok 2
    else err (unsupported_protocol protocol)

abbrev pub result_option : Result CardError ℕ → Option ℕ
result_option (ok a) = some a
result_option (err e) = none

abbrev pub connect_command : Bytes
connect_command =
    0x80 ∷ 0xaa ∷ 0x00 ∷ 0x00 ∷ 0x0a ∷ 0xa9 ∷ 0x08 ∷ 0x81 ∷ 0x00 ∷ 0x82 ∷ 0x01 ∷ 0x01 ∷ 0x83 ∷ 0x01
    ∷ 0x07 ∷ []
