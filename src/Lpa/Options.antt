-- ===== src/Lpa/Options.antt =====
-- The options of the client and their defaults (lpa/euicc.go).
use euicc_go.Prelude.{
  ◌≡◌, ◌≢◌, ◌↔◌, ◌*◌, ◌^◌, Bool, true, false, Option, none, some, [], ◌∷◌, Bytes, ltb, leb, ◌==◌,
  if◌then◌else◌, arith,
}
use euicc_go.Prelude.Int.{ℤ, pos, negsuc}
use euicc_go.Prelude.Action.{Result, ok, err, Action, ◌>>◌, fail_if}

pub data OptionsError : Type 0 where
  -- "invalid maximum APDU size: %d"
  invalid_mss : ℤ → OptionsError
  -- "unsupported admin protocol version: %s"
  unsupported_version : Bytes → OptionsError
  channel_required : OptionsError
  -- `s[0]` of an empty text
  index_panic : OptionsError

-- The channel and the logger are opaque; `none` is nil. The timeout is in nanoseconds.
pub record Options (C L : Type 0) : Type 0 where
  pub channel : Option C
  pub aid : Option Bytes
  pub mss : ℤ
  pub admin_protocol_version : Bytes
  pub logger : Option L
  pub timeout : ℤ

abbrev pub gsma_isdr_application_aid : Bytes
gsma_isdr_application_aid =
    0xA0 ∷ 0x00 ∷ 0x00 ∷ 0x05 ∷ 0x59 ∷ 0x10 ∷ 0x10 ∷ 0xFF ∷ 0xFF ∷ 0xFF ∷ 0xFF ∷ 0x89 ∷ 0x00 ∷ 0x00
    ∷ 0x01 ∷ 0x00 ∷ []

-- "2.5.0".
abbrev pub default_version : Bytes
default_version = 50 ∷ 46 ∷ 53 ∷ 46 ∷ 48 ∷ []

abbrev pub nonzero_or : ℤ → ℤ → ℤ
nonzero_or d (pos n) = if n == 0 then d else pos n
nonzero_or d (negsuc n) = negsuc n

abbrev pub present_or : {A : Type 0} → A → Option A → Option A
present_or d none = some d
present_or d (some a) = some a

abbrev pub nonempty_or : Bytes → Bytes → Bytes
nonempty_or d [] = d
nonempty_or d (b ∷ bs) = b ∷ bs

abbrev pub invalid_size : ℤ → Bool
invalid_size (pos n) = ltb 254 n
invalid_size (negsuc n) = true

-- The version without its "v"; the first byte of an empty text is a panic.
abbrev pub without_v : Bytes → Result OptionsError Bytes
without_v [] = err index_panic
without_v (b ∷ bs) = if b == 118 then ok bs else ok (b ∷ bs)

abbrev pub supported : Bytes → Result OptionsError (Unit {0})
supported [] = err index_panic
supported (b ∷ bs) = if b == 50 then ok tt else err (unsupported_version (b ∷ bs))

abbrev pub usable_size : ℤ → Bool
usable_size (pos n) = if n == 0 then false else leb n 254
usable_size (negsuc n) = false

abbrev pub second_version : Bytes → Bool
second_version [] = false
second_version (b ∷ bs) = b == 50

module _ {C L : Type 0} where
  -- What the client may rely on.
  pub record IsNormal (o : Options C L) : Type 0 where
    pub channel : o.channel ≢ none
    pub aid : o.aid ≢ none
    pub logger : o.logger ≢ none
    pub mss : usable_size o.mss ≡ true
    pub version : second_version o.admin_protocol_version ≡ true
    pub timeout : o.timeout ≢ pos 0

  unfoldable pub validate_mss : Action (Options C L) OptionsError (Unit {0})
  validate_mss o = fail_if (invalid_size o.mss) (invalid_mss o.mss) o

  abbrev stripped : Result OptionsError Bytes → Action (Options C L) OptionsError (Unit {0})
  stripped (err e) o = (err e, o)
  stripped (ok version) o = (supported version, record o { admin_protocol_version = version })

  unfoldable pub validate_admin_protocol_version : Action (Options C L) OptionsError (Unit {0})
  validate_admin_protocol_version o = stripped (without_v o.admin_protocol_version) o

  abbrev channel_present : Option C → Action (Options C L) OptionsError (Unit {0})
  channel_present none o = (err channel_required, o)
  channel_present (some c) o = (ok tt, o)

  unfoldable pub validate : Action (Options C L) OptionsError (Unit {0})
  validate = do validate_mss; validate_admin_protocol_version; λ o. channel_present o.channel o

  module _ (default_logger : L) where
    unfoldable pub set_defaults : Options C L → Options C L
    set_defaults o = record {
      channel = o.channel;
      aid = present_or gsma_isdr_application_aid o.aid;
      mss = nonzero_or (pos 254) o.mss;
      admin_protocol_version = nonempty_or default_version o.admin_protocol_version;
      logger = present_or default_logger o.logger;
      timeout = nonzero_or (pos (30 * 10 ^ 9)) o.timeout;
    }

    unfoldable pub normalize : Action (Options C L) OptionsError (Unit {0})
    normalize o = validate (set_defaults o)

    -- Options that Normalize accepts have a channel, an AID, a logger, a maximum size of 1 to 254, a
    -- version that begins with "2" and a timeout other than 0; and Normalize leaves them as they
    -- are when it is called again.
    pub normalize-IsNormal :
        (o : Options C L)
        → (normalize o).0 ≡ ok tt
        → IsNormal (normalize o).1 × (normalize (normalize o).1 ≡ (ok tt, (normalize o).1))
    unfolding normalize validate validate_mss validate_admin_protocol_version set_defaults
    normalize-IsNormal o h = (
      record {
        channel = ground arith;
        aid = ground arith;
        logger = ground arith;
        mss = ground arith;
        version = ground arith;
        timeout = ground arith;
      },
      ground arith,
    )

    -- Normalize panics exactly where the size is 0 to 254 and the version is the one letter "v".
    pub normalize-panics_iff :
        (o : Options C L)
        → ((normalize o).0 ≡ err index_panic)
          ↔ ((invalid_size o.mss ≡ false) × (o.admin_protocol_version ≡ 118 ∷ []))
    unfolding normalize validate validate_mss validate_admin_protocol_version set_defaults
    normalize-panics_iff o = ground arith
