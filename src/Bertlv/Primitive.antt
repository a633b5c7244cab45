-- ===== src/Bertlv/Primitive.antt =====
-- bertlv/primitive/: the contents of primitive objects.
pub mod Integer
pub mod BitString
use euicc_go.Prelude.{
  ℕ, zero, suc, ◌+◌, ◌-◌, ◌*◌, ◌/◌, ◌%◌, ◌^◌, bit_and, bit_xor, Bool, true, false, ◌&&◌, ◌||◌, not,
  List, [], ◌∷◌, ◌++◌, Bytes, length, take, to_byte, ltb, leb, ◌==◌, if◌then◌else◌,
}

-- A value, an error, or a panic. An empty integer leaves the value as it was.
pub data Parsed (A : Type 0) : Type 0 where
  parsed : A → Parsed A
  unchanged : Parsed A
  invalid : Parsed A
  panics : Parsed A

-- A signed integer of so many bytes is its word: the numbers from 2^(8·size - 1) on are negative.
-- `value >> 8` on an int64 fills up with the sign.
abbrev pub shift_right : ℕ → ℕ
shift_right x = if ltb x (2 ^ 63) then x / 256 else x / 256 + 255 * 2 ^ 56

-- The loop over `buf`, from its last byte.
unfoldable pub fill : ℕ → ℕ → Bytes → Bytes
fill zero x buf = buf
fill (suc i) x buf = fill i (shift_right x) (to_byte x ∷ buf)

-- The sign bytes in front are left out as long as the next byte has the same sign.
unfoldable pub without_sign_bytes : Bytes → Bytes
without_sign_bytes [] = []
without_sign_bytes (b ∷ []) = b ∷ []
without_sign_bytes (b ∷ c ∷ s) =
    if ((b == 0) && (bit_and c 0x80 == 0)) || ((b == 0xff) && (bit_and c 0x80 == 0x80))
    then without_sign_bytes (c ∷ s)
    else b ∷ c ∷ s

-- `MarshalInt`, of the word of an int64.
unfoldable pub marshal_int : ℕ → Bytes
marshal_int x = without_sign_bytes (fill 8 x [])

-- `data[index:]` after the loop over `len(data) - 1`, where `first` is `data[0]`: the last index that
-- it reaches is kept.
unfoldable pub from_sign : ℕ → Bytes → Bytes
from_sign first [] = []
from_sign first (b ∷ []) = b ∷ []
from_sign first (b ∷ c ∷ []) = b ∷ c ∷ []
from_sign first (b ∷ c ∷ d ∷ s) =
    if not (b == first) || not (c / 2 ^ 7 == first / 2 ^ 7)
    then b ∷ c ∷ d ∷ s
    else from_sign first (c ∷ d ∷ s)

abbrev pub significant : Bytes → Bytes
significant [] = []
significant (b ∷ s) = if (b == 0) || (b == 0xff) then from_sign b (b ∷ s) else b ∷ s

-- `n = Int(int64(n) << 8)` and `n ^= Int(data[index])`.
unfoldable pub accumulate : ℕ → ℕ → Bytes → ℕ
accumulate size n [] = n
accumulate size n (b ∷ s) = accumulate size (bit_xor (n * 2 ^ 8 % 2 ^ (8 * size)) b) s

-- The value before the loop: 0 or -1.
abbrev pub sign_word : ℕ → Bytes → ℕ
sign_word size [] = 0
sign_word size (b ∷ s) = if ltb 0x7f b then 2 ^ (8 * size) - 1 else 0

-- `UnmarshalInt`, for an integer type of so many bytes.
unfoldable pub unmarshal_int : ℕ → Bytes → Parsed ℕ
unmarshal_int size [] = unchanged
unmarshal_int size (b ∷ s) =
    if ltb size (length (b ∷ s))
    then invalid
    else parsed (accumulate size (sign_word size (significant (b ∷ s))) (significant (b ∷ s)))

abbrev pub marshal_bool : Bool → Bytes
marshal_bool true = 0xff ∷ []
marshal_bool false = 0x00 ∷ []

unfoldable pub unmarshal_bool : Bytes → Bool
unmarshal_bool [] = false
unmarshal_bool (b ∷ []) = b == 0xff
unmarshal_bool (b ∷ c ∷ s) = false

-- One bit as a number.
abbrev pub bit : Bool → ℕ
bit true = 1
bit false = 0

-- A byte of eight bits, the first one the highest (`x = 7 - byte(index%8)`).
abbrev pub octet : Bool → Bool → Bool → Bool → Bool → Bool → Bool → Bool → ℕ
octet a b c d e f g h =
    bit a * 128 + bit b * 64 + bit c * 32 + bit d * 16 + bit e * 8 + bit f * 4 + bit g * 2 + bit h

-- The bytes behind the number of padding bits: the last one has fewer than eight bits, and may have none.
unfoldable pub pack : List Bool → Bytes
pack (a ∷ b ∷ c ∷ d ∷ e ∷ f ∷ g ∷ h ∷ bits) = octet a b c d e f g h ∷ pack bits
pack (a ∷ b ∷ c ∷ d ∷ e ∷ f ∷ g ∷ []) = octet a b c d e f g false ∷ []
pack (a ∷ b ∷ c ∷ d ∷ e ∷ f ∷ []) = octet a b c d e f false false ∷ []
pack (a ∷ b ∷ c ∷ d ∷ e ∷ []) = octet a b c d e false false false ∷ []
pack (a ∷ b ∷ c ∷ d ∷ []) = octet a b c d false false false false ∷ []
pack (a ∷ b ∷ c ∷ []) = octet a b c false false false false false ∷ []
pack (a ∷ b ∷ []) = octet a b false false false false false false ∷ []
pack (a ∷ []) = octet a false false false false false false false ∷ []
pack [] = octet false false false false false false false false ∷ []

unfoldable pub marshal_bit_string : List Bool → Bytes
marshal_bit_string bits = (8 - length bits % 8) ∷ pack bits

-- So many bits, from the bit of a byte that `7 - x` numbers.
unfoldable pub unpack : ℕ → Bytes → List Bool
unpack n [] = []
unpack n (b ∷ s) = take n (
    (b / 128 % 2 == 1)
    ∷ (b / 64 % 2 == 1)
    ∷ (b / 32 % 2 == 1)
    ∷ (b / 16 % 2 == 1)
    ∷ (b / 8 % 2 == 1)
    ∷ (b / 4 % 2 == 1)
    ∷ (b / 2 % 2 == 1)
    ∷ (b % 2 == 1)
    ∷ unpack (n - 8) s)

abbrev pub last_byte : ℕ → Bytes → ℕ
last_byte b [] = b
last_byte b (c ∷ s) = last_byte c s

-- `data[len(data)-1]&((1<<data[0])-1)`, whose bytes are below 256; the test on the number of padding
-- bits comes before.
unfoldable pub unmarshal_bit_string : Bytes → Parsed (List Bool)
unmarshal_bit_string [] = panics
unmarshal_bit_string (padding ∷ s) =
    if ltb 7 padding
      || (((length s == 0) && ltb 0 padding) || not (last_byte padding s % 2 ^ padding == 0))
    then invalid
    else parsed (unpack (length s * 8 - padding) s)
