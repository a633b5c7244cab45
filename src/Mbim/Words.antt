-- ===== src/Mbim/Words.antt =====
-- 32-bit words in little endian order (`binary.LittleEndian`).
pub use euicc_go.Prelude.Checked.{Checked, ok, err, panic, ◌>>=◌, refuse_if}
use euicc_go.Prelude.{
  ℕ, ◌+◌, ◌*◌, ◌/◌, ◌%◌, ◌^◌, ◌<◌, ◌≡◌, none, some, [], ◌∷◌, Bytes, get_elem?, arith,
}

abbrev pub byte_at : {E : Type 0} → Bytes → ℕ → Checked E ℕ
byte_at s k = elim (get_elem? s k) [ none ↦ panic | some b ↦ ok b ]

-- `PutUint32` of `uint32(n)`.
abbrev pub put_uint32 : ℕ → Bytes
put_uint32 n = n % 256 ∷ n / 256 % 256 ∷ n / 65536 % 256 ∷ n / 16777216 % 256 ∷ []

-- `Uint32(b[k:k+4])`.
abbrev pub uint32_at : {E : Type 0} → Bytes → ℕ → Checked E ℕ
uint32_at s k = do
  b₀ ← byte_at s k
  b₁ ← byte_at s (k + 1)
  b₂ ← byte_at s (k + 2)
  b₃ ← byte_at s (k + 3)
  ok (b₀ + b₁ * 256 + b₂ * 65536 + b₃ * 16777216)

-- The four bytes of a number below 2^32 are read as that number.
pub put_uint32_lem :
    (n : ℕ)
    → n < 2 ^ 32
    → n % 256 + n / 256 % 256 * 256 + n / 65536 % 256 * 65536 + n / 16777216 % 256 * 16777216 ≡ n
put_uint32_lem n h = omega arith
