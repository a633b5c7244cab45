-- ===== src/Prelude/Bitwise.antt =====
-- `bit_or` of a shifted word and a word that fits below the shift is their sum, and `bit_and` with
-- a mask of low bits is a remainder. Both operations stand for one recursion on binary digits.
use Prim.Native.Nat.{
  ℕ, zero, suc, ◌+◌, ◌*◌, ◌/◌, ◌%◌, ◌^◌, ◌≤◌, ◌<◌, min, max, bit_or, bit_and, digits,
  bit_or-bitwise, bit_and-bitwise, bit_xor, bit_xor-bitwise, differ,
}
use mathlib.Core.Path.{◌≡◌, refl, ap}
use native.Mathlib.Omega.{arith}
use native.Mathlib.Nat.{pow-suc, le_refl}

-- What the recursion needs of its bound: any bound that is no less than the first word will do.
module _ (tail : ℕ → ℕ) (digit : ℕ → ℕ → ℕ) where
  enough_digits :
      (room room' word mask : ℕ)
      → word ≤ room
      → word ≤ room'
      → digits tail digit room word mask ≡ digits tail digit room' word mask
  enough_digits zero zero word mask le le' = refl
  enough_digits zero (suc room') (suc word) mask le le' = elim le [ ]
  enough_digits (suc room) zero (suc word) mask le le' = elim le' [ ]
  enough_digits (suc room) (suc room') (suc word) mask le le' =
      omega (arith, enough_digits room room' (suc word / 2) (mask / 2) (omega arith) (omega arith))
  enough_digits zero (suc room') zero mask le le' = refl
  enough_digits (suc room) zero zero mask le le' = refl
  enough_digits (suc room) (suc room') zero mask le le' = refl

-- One binary digit of each operation.
or_digit : (x y : ℕ) → bit_or x y ≡ max (x % 2) (y % 2) + 2 * bit_or (x / 2) (y / 2)
or_digit zero y = omega (arith, bit_or-bitwise 0 y, bit_or-bitwise 0 (y / 2))
or_digit (suc x) y =
    let half = suc x / 2 in
    let same = enough_digits (λ t. t) max x half half (y / 2) (omega arith) (omega arith) in
    omega (arith, same, bit_or-bitwise (suc x) y, bit_or-bitwise half (y / 2))

and_digit : (x y : ℕ) → bit_and x y ≡ min (x % 2) (y % 2) + 2 * bit_and (x / 2) (y / 2)
and_digit zero y = omega (arith, bit_and-bitwise 0 y, bit_and-bitwise 0 (y / 2))
and_digit (suc x) y =
    let half = suc x / 2 in
    let same = enough_digits (λ t. zero) min x half half (y / 2) (omega arith) (omega arith) in
    omega (arith, same, bit_and-bitwise (suc x) y, bit_and-bitwise half (y / 2))

-- A second word of 0, by halving the first.
or_nothing : (bound x : ℕ) → x ≤ bound → bit_or x 0 ≡ x
or_nothing zero x le = let e : x ≡ 0 = omega arith in rw e (bit_or-bitwise 0 0)
or_nothing (suc bound) zero le = bit_or-bitwise 0 0
or_nothing (suc bound) (suc x) le =
    omega (arith, or_digit (suc x) 0, or_nothing bound (suc x / 2) (omega arith))

and_nothing : (bound x : ℕ) → x ≤ bound → bit_and x 0 ≡ 0
and_nothing zero x le = let e : x ≡ 0 = omega arith in rw e (bit_and-bitwise 0 0)
and_nothing (suc bound) zero le = bit_and-bitwise 0 0
and_nothing (suc bound) (suc x) le =
    omega (arith, and_digit (suc x) 0, and_nothing bound (suc x / 2) (omega arith))

pow_step : (k : ℕ) → 2 ^ suc k ≡ 2 * 2 ^ k
pow_step k = omega (arith, pow-suc 2 k)

halve_scaled : (k a : ℕ) → a * 2 ^ suc k ≡ 2 * (a * 2 ^ k)
halve_scaled k a = omega (arith, ap (λ (t : ℕ). a * t) (pow_step k))

half_double : (y : ℕ) → 2 * y / 2 ≡ y
half_double y = omega arith

or_even : (y b : ℕ) → bit_or (2 * y) b ≡ b % 2 + 2 * bit_or y (b / 2)
or_even y b = omega (arith, or_digit (2 * y) b, ap (λ (t : ℕ). bit_or t (b / 2)) (half_double y))

pub bit_or_shifted : (k a b : ℕ) → b < 2 ^ k → bit_or (a * 2 ^ k) b ≡ a * 2 ^ k + b
bit_or_shifted zero a b h =
    let e : b ≡ 0 = omega arith in rw e (omega (arith, or_nothing _ (a * 1) (le_refl _)))
bit_or_shifted (suc k) a b h =
    rw (halve_scaled k a)
      (omega (arith, or_even (a * 2 ^ k) b, bit_or_shifted k a (b / 2) (omega (arith, pow_step k))))

-- The same with the shifted word written out.
pub bit_or_add : (k x a b : ℕ) → x ≡ a * 2 ^ k → b < 2 ^ k → bit_or x b ≡ x + b
bit_or_add k x a b e h = rw e (bit_or_shifted k a b h)

-- The lowest bit of any word.
pub and_1_word : (x : ℕ) → bit_and x 1 ≡ x % 2
and_1_word x = omega (arith, and_digit x 1, and_nothing _ (x / 2) (le_refl _))

and_three_bits : (x : ℕ) → bit_and x 0b111 ≡ x % 8
and_three_bits x = omega (arith, and_digit x 0b111, and_digit (x / 2) 0b11, and_1_word (x / 2 / 2))

and_five_bits : (x : ℕ) → bit_and x 0b11111 ≡ x % 32
and_five_bits x =
    omega (arith, and_digit x 0b11111, and_digit (x / 2) 0b1111, and_three_bits (x / 2 / 2))

-- The low seven bits of any word.
pub and_7f_word : (x : ℕ) → bit_and x 0x7f ≡ x % 128
and_7f_word x = omega (arith, and_digit x 0x7f, and_digit (x / 2) 0x3f, and_five_bits (x / 2 / 2))

xor_digit : (x y : ℕ) → bit_xor x y ≡ differ (x % 2) (y % 2) + 2 * bit_xor (x / 2) (y / 2)
xor_digit zero y = omega (arith, bit_xor-bitwise 0 y, bit_xor-bitwise 0 (y / 2))
xor_digit (suc x) y =
    let half = suc x / 2 in
    let same = enough_digits (λ t. t) differ x half half (y / 2) (omega arith) (omega arith) in
    omega (arith, same, bit_xor-bitwise (suc x) y, bit_xor-bitwise half (y / 2))

xor_even : (y b : ℕ) → bit_xor (2 * y) b ≡ b % 2 + 2 * bit_xor y (b / 2)
xor_even y b =
    let even : 2 * y % 2 ≡ 0 = omega arith in
    omega (
      arith,
      xor_digit (2 * y) b,
      ap (λ (t : ℕ). bit_xor t (b / 2)) (half_double y),
      ap (λ (t : ℕ). differ t (b % 2)) even,
    )

differ_nothing : (x : ℕ) → differ x 0 ≡ x
differ_nothing zero = refl
differ_nothing (suc x) = refl

xor_nothing : (bound x : ℕ) → x ≤ bound → bit_xor x 0 ≡ x
xor_nothing zero x le = let e : x ≡ 0 = omega arith in rw e (bit_xor-bitwise 0 0)
xor_nothing (suc bound) zero le = bit_xor-bitwise 0 0
xor_nothing (suc bound) (suc x) le = omega (
  arith,
  xor_digit (suc x) 0,
  differ_nothing (suc x % 2),
  xor_nothing bound (suc x / 2) (omega arith),
)

-- Exclusive or with a word whose low bits are zero.
pub bit_xor_shifted : (k a b : ℕ) → b < 2 ^ k → bit_xor (a * 2 ^ k) b ≡ a * 2 ^ k + b
bit_xor_shifted zero a b h =
    let e : b ≡ 0 = omega arith in rw e (omega (arith, xor_nothing _ (a * 1) (le_refl _)))
bit_xor_shifted (suc k) a b h =
    rw (halve_scaled k a) (
      omega
        (arith, xor_even (a * 2 ^ k) b, bit_xor_shifted k a (b / 2) (omega (arith, pow_step k))))
