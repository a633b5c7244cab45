-- ===== src/Apdu/Request.antt =====
-- apdu/request.go: a command and its bytes.
pub mod Decode
use euicc_go.Prelude.{
  ℕ, Option, none, some, [], ◌∷◌, ◌++◌, Bytes, to_byte, length, ltb, if◌then◌else◌,
}

pub record Request : Type 0 where
  pub cla : ℕ
  pub ins : ℕ
  pub p1 : ℕ
  pub p2 : ℕ
  pub payload : Bytes
  pub le : Option ℕ

abbrev pub le_bytes : Option ℕ → Bytes
le_bytes none = []
le_bytes (some le) = le ∷ []

-- The length byte is the low eight bits of the payload's length.
abbrev pub payload_bytes : Bytes → Bytes
payload_bytes d = if ltb 0 (length d) then to_byte (length d) ∷ d else []

unfoldable pub apdu : Request → Bytes
apdu r = r.cla ∷ r.ins ∷ r.p1 ∷ r.p2 ∷ (payload_bytes r.payload ++ le_bytes r.le)
