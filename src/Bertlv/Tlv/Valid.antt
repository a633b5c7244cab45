-- ===== src/Bertlv/Tlv/Valid.antt =====
-- The objects that can be encoded: what the writer's checks and the length octets ask for
-- (bertlv/tlv_writer.go, bertlv/length.go).
use euicc_go.Prelude.{
  ℕ, ◌^◌, ◌<◌, ◌≡◌, ◌⊎◌, Bool, true, false, not, some, [], ◌∷◌, IsByte, All, length, arith,
  and_1_word, ◌/◌,
}
use euicc_go.Bertlv.Tag.{Tag, is_primitive, is_constructed}
use euicc_go.Bertlv.Tag.Read.{IsTag}
use euicc_go.Bertlv.Tlv.{Tlv, Children, object, no_children, child, nil_child, children_length}

-- The children's encodings take less than 2 ^ 24 bytes together.
abbrev pub Fits : Children → Type 0
Fits cs = (n : ℕ) × (children_length cs ≡ some n) × (n < 2 ^ 24)

unfoldable mutual
  pub IsTlv : Tlv → Type 0
  IsTlv (object t v cs) =
      IsTag t
      × (((is_primitive t ≡ some true) × All IsByte v × (length v < 2 ^ 24) × (cs ≡ no_children))
          ⊎ ((is_primitive t ≡ some false) × (v ≡ []) × AreTlvs cs × Fits cs))

  pub AreTlvs : Children → Type 0
  AreTlvs no_children = Unit
  AreTlvs (nil_child cs) = AreTlvs cs
  AreTlvs (child x cs) = IsTlv x × AreTlvs cs

-- A tag is constructed exactly if it is not primitive.
pub is_constructed_lem :
    (t : Tag) (p : Bool) → is_primitive t ≡ some p → is_constructed t ≡ some (not p)
unfolding is_primitive is_constructed
is_constructed_lem [] p h = cc
is_constructed_lem (b ∷ bs) p h = ground (arith, and_1_word (b / 32))
