-- ===== src/Bertlv/Primitive/BitString.antt =====
-- Bit strings written and read back (bertlv/primitive/bitstring.go).
use euicc_go.Prelude.{
  ℕ, suc, ◌+◌, ◌-◌, ◌*◌, ◌/◌, ◌%◌, ◌^◌, ◌<◌, ◌≡◌, ◌≢◌, ◌∙◌, refl, Bool, true, false, inl, inr,
  Bool-cases, List, [], ◌∷◌, Bytes, length, take, take-length, ltb, ◌==◌, if◌then◌else◌, arith,
}
use euicc_go.Bertlv.Primitive.{
  parsed, invalid, bit, octet, pack, unpack, last_byte, marshal_bit_string, unmarshal_bit_string,
}

bit-lt : (a : Bool) → bit a < 2
bit-lt true = omega arith
bit-lt false = omega arith

is_set : (a : Bool) (n : ℕ) → n ≡ bit a → (n == 1) ≡ a
is_set true n e = ground arith
is_set false n e = ground arith

module _ (a b c d e f g h : Bool) where
  abbrev o : ℕ
  o = octet a b c d e f g h

  low_bits :
      (bit a < 2)
      × (bit b < 2)
      × (bit c < 2)
      × (bit d < 2)
      × (bit e < 2)
      × (bit f < 2)
      × (bit g < 2)
      × (bit h < 2)
  low_bits = (bit-lt a, bit-lt b, bit-lt c, bit-lt d, bit-lt e, bit-lt f, bit-lt g, bit-lt h)

  -- The tests of the eight bits of a byte give its bits.
  unpack-octet :
      (n : ℕ) (s : Bytes)
      → unpack n (o ∷ s) ≡ take n (a ∷ b ∷ c ∷ d ∷ e ∷ f ∷ g ∷ h ∷ unpack (n - 8) s)
  unfolding unpack
  unpack-octet n s =
      let (la, lb, lc, ld, le, lf, lg, lh) = low_bits in
      rw (
        is_set a (o / 128 % 2) (omega arith),
        is_set b (o / 64 % 2) (omega arith),
        is_set c (o / 32 % 2) (omega arith),
        is_set d (o / 16 % 2) (omega arith),
        is_set e (o / 8 % 2) (omega arith),
        is_set f (o / 4 % 2) (omega arith),
        is_set g (o / 2 % 2) (omega arith),
        is_set h (o % 2) (omega arith),
      )

unpack-pack : (bits : List Bool) → unpack (length bits) (pack bits) ≡ bits
unfolding pack
unpack-pack (a ∷ b ∷ c ∷ d ∷ e ∷ f ∷ g ∷ h ∷ bits) =
    let n = length bits in
    let rest : suc (suc (suc (suc (suc (suc (suc (suc n))))))) - 8 ≡ n = omega arith in
    unpack-octet a b c d e f g h (length (a ∷ b ∷ c ∷ d ∷ e ∷ f ∷ g ∷ h ∷ bits)) (pack bits)
    ∙ rw (rest, unpack-pack bits, take-length bits) refl
unpack-pack (a ∷ b ∷ c ∷ d ∷ e ∷ f ∷ g ∷ []) = unpack-octet a b c d e f g false 7 []
unpack-pack (a ∷ b ∷ c ∷ d ∷ e ∷ f ∷ []) = unpack-octet a b c d e f false false 6 []
unpack-pack (a ∷ b ∷ c ∷ d ∷ e ∷ []) = unpack-octet a b c d e false false false 5 []
unpack-pack (a ∷ b ∷ c ∷ d ∷ []) = unpack-octet a b c d false false false false 4 []
unpack-pack (a ∷ b ∷ c ∷ []) = unpack-octet a b c false false false false false 3 []
unpack-pack (a ∷ b ∷ []) = unpack-octet a b false false false false false false 2 []
unpack-pack (a ∷ []) = unpack-octet a false false false false false false false 1 []
unpack-pack [] = unpack-octet false false false false false false false false 0 []

length-pack : (bits : List Bool) → length (pack bits) ≡ length bits / 8 + 1
unfolding pack
length-pack (a ∷ b ∷ c ∷ d ∷ e ∷ f ∷ g ∷ h ∷ bits) = omega (arith, length-pack bits)
length-pack (a ∷ b ∷ c ∷ d ∷ e ∷ f ∷ g ∷ []) = refl
length-pack (a ∷ b ∷ c ∷ d ∷ e ∷ f ∷ []) = refl
length-pack (a ∷ b ∷ c ∷ d ∷ e ∷ []) = refl
length-pack (a ∷ b ∷ c ∷ d ∷ []) = refl
length-pack (a ∷ b ∷ c ∷ []) = refl
length-pack (a ∷ b ∷ []) = refl
length-pack (a ∷ []) = refl
length-pack [] = refl

-- The bits behind the last one are zero.
last_byte-pack :
    (bits : List Bool) (p b : ℕ)
    → length bits % 8 ≢ 0
    → length bits % 8 + p ≡ 8
    → last_byte b (pack bits) % 2 ^ p ≡ 0
unfolding pack
last_byte-pack (a ∷ b ∷ c ∷ d ∷ e ∷ f ∷ g ∷ h ∷ bits) p x n k =
    last_byte-pack bits p _ (λ z. n (omega arith)) (omega arith)
last_byte-pack (a ∷ b ∷ c ∷ d ∷ e ∷ f ∷ g ∷ []) p x n k =
    let z : p ≡ 1 = omega arith in rw z (omega arith)
last_byte-pack (a ∷ b ∷ c ∷ d ∷ e ∷ f ∷ []) p x n k =
    let z : p ≡ 2 = omega arith in rw z (omega arith)
last_byte-pack (a ∷ b ∷ c ∷ d ∷ e ∷ []) p x n k = let z : p ≡ 3 = omega arith in rw z (omega arith)
last_byte-pack (a ∷ b ∷ c ∷ d ∷ []) p x n k = let z : p ≡ 4 = omega arith in rw z (omega arith)
last_byte-pack (a ∷ b ∷ c ∷ []) p x n k = let z : p ≡ 5 = omega arith in rw z (omega arith)
last_byte-pack (a ∷ b ∷ []) p x n k = let z : p ≡ 6 = omega arith in rw z (omega arith)
last_byte-pack (a ∷ []) p x n k = let z : p ≡ 7 = omega arith in rw z (omega arith)
last_byte-pack [] p x n k = absurd (n refl)

-- Bits that are written are read back unless their number is a multiple of eight: then eight padding
-- bits are written, which reading refuses.
pub unmarshal_bit_string-marshal_bit_string :
    (bits : List Bool)
    → unmarshal_bit_string (marshal_bit_string bits)
      ≡ (if length bits % 8 == 0 then invalid else parsed bits)
unfolding unmarshal_bit_string marshal_bit_string
unmarshal_bit_string-marshal_bit_string bits = elim (Bool-cases (length bits % 8 == 0)) [
  | inl e ↦ let eight : ltb 7 (8 - length bits % 8) ≡ true = ground arith in rw (eight, e) refl
  | inr e ↦
      let p = 8 - length bits % 8 in
      let some_bits : length bits % 8 ≢ 0 = ground arith in
      let few : ltb 7 p ≡ false = ground arith in
      let bytes : (length (pack bits) == 0) ≡ false = ground (arith, length-pack bits) in
      let count : length (pack bits) * 8 - p ≡ length bits = omega (arith, length-pack bits) in
      let zeros = last_byte-pack bits p p some_bits (omega arith) in
      rw (few, bytes, zeros, count, e, unpack-pack bits) refl
]
