-- ===== src/Apdu/Response.antt =====
-- apdu/response.go: data and the two status bytes behind it. `none` is the panic of a response of
-- fewer than two bytes.
pub mod Status
use euicc_go.Prelude.{
  ℕ, ◌+◌, ◌-◌, ◌*◌, ◌^◌, bit_or, Bool, true, false, Option, none, some, ◌>>=◌, [], ◌∷◌, Bytes,
  length, take, get_elem?, ltb, ◌==◌, if◌then◌else◌,
}

abbrev pub Response : Type 0
Response = Bytes

-- `r[len(r)-k]`.
unfoldable pub from_end : ℕ → Response → Option ℕ
from_end k r = if ltb (length r) k then none else get_elem? r (length r - k)

-- `r[0 : len(r)-2]`.
unfoldable pub response_data : Response → Option Bytes
response_data r = if ltb (length r) 2 then none else some (take (length r - 2) r)

unfoldable pub sw1 : Response → Option ℕ
unfolding from_end
sw1 r = from_end 2 r

unfoldable pub sw2 : Response → Option ℕ
unfolding from_end
sw2 r = from_end 1 r

-- The big endian number of the last two bytes.
unfoldable pub sw : Response → Option ℕ
unfolding from_end
sw r = do hi ← from_end 2 r; lo ← from_end 1 r; some (bit_or (hi * 2 ^ 8) lo)

unfoldable pub is_ok : Response → Option Bool
unfolding sw
is_ok r = do s ← sw r; some (s == 0x9000)

unfoldable pub has_more : Response → Option Bool
unfolding sw1
has_more r = do s ← sw1 r; some (s == 0x61)
