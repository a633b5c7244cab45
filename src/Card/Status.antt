-- ===== src/Card/Status.antt =====
-- The tests on a response's status (driver/ccid/ccid.go; driver/at has the same).
use euicc_go.Prelude.{
  ℕ, ◌-◌, Bool, false, ◌&&◌, Option, none, some, Bytes, length, get_elem?, leb, ◌==◌,
}

-- A byte that the test of the length has found to be there.
abbrev byte_is : Option ℕ → ℕ → Bool
byte_is none b = false
byte_is (some a) b = a == b

unfoldable pub status_ok : Bytes → Bool
status_ok response =
    leb 2 (length response)
    && (byte_is (get_elem? response (length response - 2)) 0x90
        && byte_is (get_elem? response (length response - 1)) 0)

unfoldable pub status_has_more : Bytes → Bool
status_has_more response =
    leb 2 (length response) && byte_is (get_elem? response (length response - 2)) 0x61
