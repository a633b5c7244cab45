-- ===== src/Bertlv/Length/Codec.antt =====
-- `readLength` against `marshalLength` (bertlv/length.go).
use euicc_go.Prelude.{
  ℕ, ◌+◌, ◌*◌, ◌/◌, ◌%◌, ◌^◌, ◌≤◌, ◌<◌, ◌≡◌, refl, bit_or, bit_or_add, some, [], ◌∷◌, ◌++◌, arith,
  Bytes, IsByte, All, length, ltb, ◌==◌, if◌then◌else◌, leb, Bool-cases, inl, inr, dec_lt,
}
use euicc_go.Bertlv.Stream.{ok, err, unsupported_length}
use euicc_go.Bertlv.Length.{marshal_length, read_one, read_two, read_three, read_length}

-- The bytes of a length below 2 ^ 24, and how many they are.
abbrev pub length_octets : ℕ → ℕ
length_octets n = if ltb n 128 then 1 else if ltb n 256 then 2 else if ltb n 65536 then 3 else 4

join_two : (a b : ℕ) → b < 256 → bit_or (a * 2 ^ 8) b ≡ a * 256 + b
join_two a b h = bit_or_add 8 _ a b refl h

join_three :
    (a b c : ℕ)
    → b < 256
    → c < 256
    → bit_or (bit_or (a * 2 ^ 16) (b * 2 ^ 8)) c ≡ a * 65536 + b * 256 + c
join_three a b c hb hc =
    rw (bit_or_add 16 (a * 2 ^ 16) a (b * 2 ^ 8) refl (omega arith))
      (bit_or_add 8 (a * 2 ^ 16 + b * 2 ^ 8) (a * 256 + b) c (omega arith) hc)

-- What is wanted of the octets of a length.
abbrev pub Codes : ℕ → ℕ → Bytes → Bytes → Type 0
Codes n count rest octets =
    (marshal_length n ≡ some octets)
    × (length octets ≡ length_octets n)
    × All IsByte octets
    × (read_length count (octets ++ rest) ≡ ok n (count + length octets) rest)

Codes-one : (n count : ℕ) (rest : Bytes) → n < 128 → Codes n count rest (n % 256 ∷ [])
unfolding marshal_length read_length
Codes-one n count rest h = (ground arith, ground arith, omega arith, ground arith)

Codes-two :
    (n count : ℕ) (rest : Bytes) → 128 ≤ n → n < 256 → Codes n count rest (0x81 ∷ n % 256 ∷ [])
unfolding marshal_length read_length read_one
Codes-two n count rest lo hi = (ground arith, ground arith, omega arith, ground arith)

Codes-three :
    (n count : ℕ) (rest : Bytes)
    → 256 ≤ n
    → n < 65536
    → Codes n count rest (0x82 ∷ n / 2 ^ 8 % 256 ∷ n % 256 ∷ [])
unfolding marshal_length read_length read_two
Codes-three n count rest lo hi = (
  ground arith,
  ground arith,
  omega arith,
  rw (join_two (n / 2 ^ 8 % 256) (n % 256) (omega arith)) (ground arith),
)

Codes-four :
    (n count : ℕ) (rest : Bytes)
    → 65536 ≤ n
    → n < 2 ^ 24
    → Codes n count rest (0x83 ∷ n / 2 ^ 16 % 256 ∷ n / 2 ^ 8 % 256 ∷ n % 256 ∷ [])
unfolding marshal_length read_length read_three
Codes-four n count rest lo hi = (
  ground arith,
  ground arith,
  omega arith,
  rw (join_three (n / 2 ^ 16 % 256) (n / 2 ^ 8 % 256) (n % 256) (omega arith) (omega arith))
      (ground arith),
)

pub length_octets-Codes :
    (n : ℕ)
    → n < 2 ^ 24
    → (octets : Bytes) × ((count : ℕ) (rest : Bytes) → Codes n count rest octets)
length_octets-Codes n h = elim (dec_lt n 128) [
  | yes p ↦ (_, λ count rest. Codes-one n count rest p)
  | no p ↦ elim (dec_lt n 256) [
    | yes q ↦ (_, λ count rest. Codes-two n count rest (omega arith) q)
    | no q ↦ elim (dec_lt n 65536) [
      | yes r ↦ (_, λ count rest. Codes-three n count rest (omega arith) r)
      | no r ↦ (_, λ count rest. Codes-four n count rest (omega arith) h)
    ]
  ]
]

-- Every length below 2 ^ 24 is written in one to four bytes, each a byte, and read back with
-- whatever follows left in the reader.
pub read_length-marshal_length :
    (n count : ℕ) (rest : Bytes)
    → n < 2 ^ 24
    → (octets : Bytes) × (marshal_length n ≡ some octets)
      × (length octets ≡ length_octets n)
      × All IsByte octets
      × (read_length count (octets ++ rest) ≡ ok n (count + length octets) rest)
read_length-marshal_length n count rest h =
    let (octets, c) = length_octets-Codes n h in
    let (em, eo, bo, er) = c count rest in (octets, em, eo, bo, er)

-- What a successful read took: at least one byte, and the length is below 2 ^ 24.
abbrev pub Took : ℕ → Bytes → ℕ → ℕ → Bytes → Type 0
Took count s n k rest =
    (n < 2 ^ 24)
    × (octets : Bytes) × (s ≡ octets ++ rest)
    × (k ≡ count + length octets)
    × (0 < length octets)

read_one_sound :
    (count : ℕ) (s : Bytes) (n k : ℕ) (rest : Bytes)
    → All IsByte s
    → read_one count s ≡ ok n k rest
    → Took count s n k rest
unfolding read_one
read_one_sound count [] n k rest hs h = cc
read_one_sound count (a ∷ s) n k rest hs h = (ground arith, a ∷ [], cc, ground arith, omega arith)

read_two_sound :
    (count : ℕ) (s : Bytes) (n k : ℕ) (rest : Bytes)
    → All IsByte s
    → read_two count s ≡ ok n k rest
    → Took count s n k rest
unfolding read_two
read_two_sound count [] n k rest hs h = cc
read_two_sound count (a ∷ []) n k rest hs h = cc
read_two_sound count (a ∷ b ∷ s) n k rest (ha, (hb, hs)) h =
    (ground (arith, join_two a b hb), a ∷ b ∷ [], cc, ground arith, omega arith)

read_three_sound :
    (count : ℕ) (s : Bytes) (n k : ℕ) (rest : Bytes)
    → All IsByte s
    → read_three count s ≡ ok n k rest
    → Took count s n k rest
unfolding read_three
read_three_sound count [] n k rest hs h = cc
read_three_sound count (a ∷ []) n k rest hs h = cc
read_three_sound count (a ∷ b ∷ []) n k rest hs h = cc
read_three_sound count (a ∷ b ∷ c ∷ s) n k rest (ha, (hb, (hc, hs))) h =
    (ground (arith, join_three a b c hb hc), a ∷ b ∷ c ∷ [], cc, ground arith, omega arith)

Took-cons :
    (count b : ℕ) (s : Bytes) (n k : ℕ) (rest : Bytes)
    → Took (count + 1) s n k rest
    → Took count (b ∷ s) n k rest
Took-cons count b s n k rest (h, octets, e, ek, l) = (h, b ∷ octets, rw e, omega arith, omega arith)

short_form_sound :
    (count b : ℕ) (s : Bytes) (n k : ℕ) (rest : Bytes)
    → IsByte b
    → (if leb 0x80 b then err unsupported_length (count + 1) s else ok b (count + 1) s)
      ≡ ok n k rest
    → Took count (b ∷ s) n k rest
short_form_sound count b s n k rest hb h =
    (ground arith, b ∷ [], ground arith, ground arith, omega arith)

-- A length that is read is below 2 ^ 24, and the reader is left behind the octets that gave it, of
-- which there is at least one.
pub read_length_sound :
    (count : ℕ) (s : Bytes) (n k : ℕ) (rest : Bytes)
    → All IsByte s
    → read_length count s ≡ ok n k rest
    → Took count s n k rest
unfolding read_length
read_length_sound count [] n k rest hs h = cc
read_length_sound count (b ∷ s) n k rest (hb, hs) h = elim (Bool-cases (b == 0x81)) [
  | inl p ↦ Took-cons count b s n k rest (read_one_sound (count + 1) s n k rest hs (rw p at h))
  | inr p ↦ elim (Bool-cases (b == 0x82)) [
    | inl q ↦
        Took-cons count b s n k rest (read_two_sound (count + 1) s n k rest hs (rw (p, q) at h))
    | inr q ↦ elim (Bool-cases (b == 0x83)) [
      | inl r ↦
          Took-cons count b s n k rest
            (read_three_sound (count + 1) s n k rest hs (rw (p, q, r) at h))
      | inr r ↦ short_form_sound count b s n k rest hb (rw (p, q, r) at h)
    ]
  ]
]
