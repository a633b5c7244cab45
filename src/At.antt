-- ===== src/At.antt =====
-- driver/at/: a card behind the AT commands of a modem. The serial port is scripted: what each call
-- of Write and of ReadString gives from now on.
pub mod Csim
pub mod Commands
pub mod Replies
mod Examples
use euicc_go.Prelude.{
  ℕ, zero, suc, ◌+◌, Bool, true, false, ◌&&◌, ◌||◌, List, [], ◌∷◌, ◌++◌, Bytes, bytes_eq, length,
  drop, leb, ◌==◌, if◌then◌else◌,
}
use euicc_go.Prelude.Action.{Result, ok, err}

-- After the scripts, a read fails (with the number `idle`, such as a timeout's) and a write takes
-- all that it is given. A write gives the number of bytes that it took.
pub record Port : Type 0 where
  pub incoming : List (Result ℕ Bytes)
  pub idle : ℕ
  pub takes : List (Result ℕ ℕ)
  pub written : Bytes
  pub channel : ℕ

pub data AtError : Type 0 where
  -- an error of the port, by its number
  port_error : ℕ → AtError
  -- io.ErrShortWrite
  short_write : AtError
  -- `errors.New(line)`: the modem refuses
  refused : Bytes → AtError
  -- "invalid CSIM response: …"
  invalid_csim : AtError
  -- "invalid response status word", "connect APDU: …"
  no_status connect_status : AtError

-- `unicode.IsSpace` of the character at the front, in UTF-8: its number of bytes, or 0.
abbrev pub is_space : ℕ → Bool
is_space b = (leb 9 b && leb b 13) || (b == 32)

abbrev pub is_space_of_two : ℕ → ℕ → Bool
is_space_of_two b c = (b == 0xC2) && ((c == 0x85) || (c == 0xA0))

abbrev pub is_space_of_three : ℕ → ℕ → ℕ → Bool
is_space_of_three b c d =
    ((b == 0xE1) && ((c == 0x9A) && (d == 0x80)))
    || (((b == 0xE2)
          && ((c == 0x80)
              && ((leb 0x80 d && leb d 0x8A) || ((d == 0xA8) || ((d == 0xA9) || (d == 0xAF))))))
        || (((b == 0xE2) && ((c == 0x81) && (d == 0x9F)))
            || ((b == 0xE3) && ((c == 0x80) && (d == 0x80)))))

abbrev pub space_size : Bytes → ℕ
space_size [] = 0
space_size (b ∷ []) = if is_space b then 1 else 0
space_size (b ∷ c ∷ []) = if is_space b then 1 else if is_space_of_two b c then 2 else 0
space_size (b ∷ c ∷ d ∷ s) =
    if is_space b
    then 1
    else if is_space_of_two b c
    then 2
    else if is_space_of_three b c d
    then 3
    else 0

-- A round takes a byte at least, so the length is enough fuel.
abbrev pub trim_left_loop : ℕ → Bytes → Bytes
trim_left_loop zero s = s
trim_left_loop (suc fuel) s = elim (space_size s) [
  | zero ↦ s
  | suc n ↦ trim_left_loop fuel (drop (suc n) s)
]

abbrev pub trim_left : Bytes → Bytes
trim_left s = trim_left_loop (length s) s

-- All is cut off from where there is but white space.
abbrev pub trim_right : Bytes → Bytes
trim_right [] = []
trim_right (b ∷ s) =
    let rest = trim_right s in elim (trim_left (b ∷ s)) [ [] ↦ [] | c ∷ cs ↦ b ∷ rest ]

abbrev pub trim_space : Bytes → Bytes
trim_space s = trim_right (trim_left s)

abbrev pub has_prefix : Bytes → Bytes → Bool
has_prefix [] s = true
has_prefix (p ∷ ps) [] = false
has_prefix (p ∷ ps) (b ∷ bs) = (p == b) && has_prefix ps bs

-- "OK", "ERROR", "+CME ERROR:" and "+CMS ERROR:".
abbrev pub ok_line : Bytes
ok_line = 79 ∷ 75 ∷ []

abbrev pub error_line : Bytes
error_line = 69 ∷ 82 ∷ 82 ∷ 79 ∷ 82 ∷ []

abbrev pub cme_error : Bytes
cme_error = 43 ∷ 67 ∷ 77 ∷ 69 ∷ 32 ∷ 69 ∷ 82 ∷ 82 ∷ 79 ∷ 82 ∷ 58 ∷ []

abbrev pub cms_error : Bytes
cms_error = 43 ∷ 67 ∷ 77 ∷ 83 ∷ 32 ∷ 69 ∷ 82 ∷ 82 ∷ 79 ∷ 82 ∷ 58 ∷ []

-- The cases of the switch in `sendCommand`.
abbrev pub is_skipped : Bytes → Bytes → Bool
is_skipped command line = bytes_eq line [] || bytes_eq line command

abbrev pub is_error : Bytes → Bool
is_error line = bytes_eq line error_line || (has_prefix cme_error line || has_prefix cms_error line)

-- The line is added to what was gathered, after a line feed if that is not empty.
abbrev pub add_line : Bytes → Bytes → Bytes
add_line [] line = line
add_line (b ∷ bs) line = (b ∷ bs) ++ (10 ∷ line)
