-- ===== src/Bertlv/Tlv/Parts.antt =====
-- What each part of the reader takes off the stream (bertlv/tlv_reader.go).
use euicc_go.Prelude.{
  ℕ, zero, suc, ◌+◌, ◌^◌, ◌≤◌, ◌<◌, ◌≡◌, ◌≢◌, refl, ap, ◌∙◌, ◌⊎◌, inl, inr, Bool, true, false, some,
  [], ◌∷◌, ◌++◌, append_assoc, Bytes, IsByte, All, All-split, length, length-append_bytes, take,
  drop, take-append-drop, length-take, leb, ◌==◌, arith, Bool-cases, leb→le, sym,
}
use euicc_go.Bertlv.Stream.{Result, out_of_fuel}
use euicc_go.Bertlv.Ensures.{Ensures, holds, failed, panics, Ensures-intro}
use euicc_go.Bertlv.Tag.{Tag, read_tag, read_tag_loop, is_primitive, is_constructed}
use euicc_go.Bertlv.Tag.Read.{IsTag, read_tag_sound}
use euicc_go.Bertlv.Length.{read_length, read_one, read_two, read_three}
use euicc_go.Bertlv.Length.Codec.{Took, read_length_sound}
use euicc_go.Bertlv.Tlv.{Tlv, Children, object, no_children, child, nil_child}
use euicc_go.Bertlv.Tlv.Valid.{is_constructed_lem}
use euicc_go.Bertlv.Tlv.Read.{read_value}

-- An object as the reader makes them.
unfoldable mutual
  pub IsRead : Tlv → Type 0
  IsRead (object t v cs) =
      IsTag t
      × (((is_primitive t ≡ some true) × All IsByte v × (length v < 2 ^ 24) × (cs ≡ no_children))
          ⊎ ((is_primitive t ≡ some false) × (v ≡ []) × AreRead cs))

  pub AreRead : Children → Type 0
  AreRead no_children = Unit
  AreRead (nil_child cs) = ⊥
  AreRead (child x cs) = IsRead x × AreRead cs

pub Ensures-weaken :
    {P Q : Tlv → ℕ → Bytes → Type 0} {r : Result Tlv}
    → Ensures P r
    → ((x : Tlv) (n : ℕ) (s : Bytes) → P x n s → Q x n s)
    → Ensures Q r
Ensures-weaken (holds h) k = holds (k _ _ _ h)
Ensures-weaken failed k = failed
Ensures-weaken panics k = panics

pub IsTag-pos : (t : Tag) → IsTag t → 0 < length t
IsTag-pos [] h = absurd h
IsTag-pos (b ∷ t) h = omega arith

read_tag_loop-ne-out_of_fuel :
    (room : ℕ) (tag : Tag) (s : Bytes) → read_tag_loop room tag s ≢ out_of_fuel
unfolding read_tag_loop
read_tag_loop-ne-out_of_fuel zero tag s = λ e. cc
read_tag_loop-ne-out_of_fuel (suc room) tag [] = λ e. cc
read_tag_loop-ne-out_of_fuel (suc room) tag (b ∷ s) =
    ground (arith, read_tag_loop-ne-out_of_fuel room (tag ++ (b ∷ [])) s)

read_tag-ne-out_of_fuel : (s : Bytes) → read_tag s ≢ out_of_fuel
unfolding read_tag
read_tag-ne-out_of_fuel [] = λ e. cc
read_tag-ne-out_of_fuel (b ∷ s) = ground (arith, read_tag_loop-ne-out_of_fuel 10 (b ∷ []) s)

read_one-ne-out_of_fuel : (n : ℕ) (s : Bytes) → read_one n s ≢ out_of_fuel
unfolding read_one
read_one-ne-out_of_fuel n [] = λ e. cc
read_one-ne-out_of_fuel n (a ∷ s) = λ e. cc

read_two-ne-out_of_fuel : (n : ℕ) (s : Bytes) → read_two n s ≢ out_of_fuel
unfolding read_two
read_two-ne-out_of_fuel n [] = λ e. cc
read_two-ne-out_of_fuel n (a ∷ []) = λ e. cc
read_two-ne-out_of_fuel n (a ∷ b ∷ s) = λ e. cc

read_three-ne-out_of_fuel : (n : ℕ) (s : Bytes) → read_three n s ≢ out_of_fuel
unfolding read_three
read_three-ne-out_of_fuel n [] = λ e. cc
read_three-ne-out_of_fuel n (a ∷ []) = λ e. cc
read_three-ne-out_of_fuel n (a ∷ b ∷ []) = λ e. cc
read_three-ne-out_of_fuel n (a ∷ b ∷ c ∷ s) = λ e. cc

read_length-ne-out_of_fuel : (n : ℕ) (s : Bytes) → read_length n s ≢ out_of_fuel
unfolding read_length
read_length-ne-out_of_fuel n [] = λ e. cc
read_length-ne-out_of_fuel n (b ∷ s) = ground (
  arith,
  read_one-ne-out_of_fuel (n + 1) s,
  read_two-ne-out_of_fuel (n + 1) s,
  read_three-ne-out_of_fuel (n + 1) s,
)

pub read_tag-Ensures :
    (s : Bytes)
    → All IsByte s
    → Ensures (λ t n rest. (s ≡ t ++ rest) × IsTag t × (n ≡ length t)) (read_tag s)
read_tag-Ensures s hs =
    Ensures-intro (read_tag s) (read_tag-ne-out_of_fuel s)
      (λ t n rest. read_tag_sound s t n rest hs)

pub read_length-Ensures :
    (count : ℕ) (s : Bytes)
    → All IsByte s
    → Ensures (λ n k rest. Took count s n k rest) (read_length count s)
read_length-Ensures count s hs =
    Ensures-intro (read_length count s) (read_length-ne-out_of_fuel count s)
      (λ n k rest. read_length_sound count s n k rest hs)

-- The bytes that a read took, in front of what it left.
abbrev pub Consumed : ℕ → Bytes → ℕ → Bytes → Type 0
Consumed count s k rest = (taken : Bytes) × (s ≡ taken ++ rest) × (k ≡ count + length taken)

abbrev pub IsValue : Tag → ℕ → Bytes → Tlv → ℕ → Bytes → Type 0
IsValue t count s x k rest =
    (v : Bytes) × (x ≡ object t v no_children)
    × All IsByte v
    × (length v < 2 ^ 24)
    × Consumed count s k rest

pub Consumed-bytes :
    (count : ℕ) (s : Bytes) (k : ℕ) (rest : Bytes)
    → All IsByte s
    → Consumed count s k rest
    → All IsByte rest
Consumed-bytes count s k rest hs (taken, e, _) = (All-split IsByte taken rest (rw e at hs)).1

-- The value of the declared length, off the front of the stream.
taken-IsValue :
    (t : Tag) (n count : ℕ) (s : Bytes)
    → All IsByte s
    → n < 2 ^ 24
    → n ≤ length s
    → IsValue t count s (object t (take n s) no_children) (count + n) (drop n s)
taken-IsValue t n count s hs hn l =
    let e = take-append-drop n s in
    let bytes = All-split IsByte (take n s) (drop n s) (rw e hs) in
    let size : length (take n s) ≡ n = omega (arith, length-take n s) in
    (take n s, refl, bytes.0, rw size hn, (take n s, sym e, rw size))

pub read_value-Ensures :
    (t : Tag) (n count : ℕ) (s : Bytes)
    → All IsByte s
    → n < 2 ^ 24
    → Ensures (IsValue t count s) (read_value t n count s)
unfolding read_value
read_value-Ensures t n count s hs hn = elim (Bool-cases (n == 0)) [
  | inl p ↦ rw p (holds ([], refl, tt, omega arith, ([], refl, omega arith)))
  | inr p ↦ elim (Bool-cases (leb n (length s))) [
    | inl q ↦ rw (p, q) (holds (taken-IsValue t n count s hs hn (leb→le n (length s) q)))
    | inr q ↦ rw (p, q) failed
  ]
]

abbrev pub ReadTlv : Bytes → Tlv → ℕ → Bytes → Type 0
ReadTlv s x n rest = IsRead x × (length rest + 2 ≤ length s) × Consumed 0 s n rest

abbrev pub ReadChildren : ℕ → Bytes → Children → ℕ → Bytes → Type 0
ReadChildren count s cs k rest = AreRead cs × Consumed count s k rest

-- The parts of an object, put together.
pub object-ReadTlv :
    (t octets s₁ s₂ s : Bytes) (x : Tlv) (n₂ k : ℕ) (rest : Bytes)
    → s ≡ t ++ s₁
    → s₁ ≡ octets ++ s₂
    → 0 < length octets
    → IsTag t
    → n₂ ≡ length t + length octets
    → IsRead x
    → Consumed n₂ s₂ k rest
    → ReadTlv s x k rest
object-ReadTlv t octets s₁ s₂ s x n₂ k rest e e₁ l ht en hx (taken, e₂, ek) = (
  hx,
  omega (
    arith,
    ap length whole,
    length-append_bytes t (octets ++ (taken ++ rest)),
    length-append_bytes octets (taken ++ rest),
    length-append_bytes taken rest,
    IsTag-pos t ht,
  ),
  (
    t ++ (octets ++ taken),
    whole ∙ simp append_assoc,
    omega (arith, length-append_bytes t (octets ++ taken), length-append_bytes octets taken),
  ),
)
  where
    whole : s ≡ t ++ (octets ++ (taken ++ rest))
    whole = rw (e, e₁, e₂)

pub value-IsRead :
    (t v : Bytes)
    → IsTag t
    → is_primitive t ≡ some true
    → All IsByte v
    → length v < 2 ^ 24
    → IsRead (object t v no_children)
unfolding IsRead
value-IsRead t v ht hp hv hl = (ht, inl (hp, hv, hl, refl))

pub children-IsRead :
    (t : Bytes) (cs : Children)
    → IsTag t
    → is_primitive t ≡ some false
    → AreRead cs
    → IsRead (object t [] cs)
unfolding IsRead
children-IsRead t cs ht hp hcs = (ht, inr (hp, refl, hcs))

pub child-ReadChildren :
    (count n k : ℕ) (s s₁ s₂ : Bytes) (x : Tlv) (cs : Children)
    → ReadTlv s x n s₁
    → ReadChildren (count + n) s₁ cs k s₂
    → ReadChildren count s (child x cs) k s₂
unfolding IsRead
child-ReadChildren count n k s s₁ s₂ x cs (hx, l, (a, ea, en)) (hcs, (b, eb, ek)) =
    ((hx, hcs), (a ++ b, rw (ea, eb, append_assoc a b s₂), omega (arith, length-append_bytes a b)))

pub no_children-ReadChildren : (count : ℕ) (s : Bytes) → ReadChildren count s no_children count s
unfolding IsRead
no_children-ReadChildren count s = (tt, ([], refl, omega arith))

form_split :
    (t : Tag) (p : Bool)
    → is_primitive t ≡ some p
    → ((is_primitive t ≡ some true) × (is_constructed t ≡ some false))
      ⊎ ((is_primitive t ≡ some false) × (is_constructed t ≡ some true))
form_split t true e = inl (e, is_constructed_lem t true e)
form_split t false e = inr (e, is_constructed_lem t false e)

pub form-cases :
    (t : Tag)
    → IsTag t
    → ((is_primitive t ≡ some true) × (is_constructed t ≡ some false))
      ⊎ ((is_primitive t ≡ some false) × (is_constructed t ≡ some true))
unfolding is_primitive
form-cases [] h = absurd h
form-cases (b ∷ bs) h = form_split (b ∷ bs) _ refl
