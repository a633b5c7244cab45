-- ===== src/Sgp22/Bpp/Whole.antt =====
-- The segments of a package, one after the other, are its encoding (v2/bpp.go).
use euicc_go.Prelude.{
  ℕ, ◌≡◌, refl, sym, ap, ◌∙◌, false, Option, none, some, List, [], ◌∷◌, ◌++◌, append_assoc,
  append-nil, arith, Bytes, concat, concat-append, Option-cases, inl, inr,
}
use euicc_go.Bertlv.Tag.{Tag, is_primitive}
use euicc_go.Bertlv.Length.{marshal_length}
use euicc_go.Bertlv.Tlv.{
  Tlv, Children, object, no_children, child, nil_child, tag_of, children_of, len, content_length,
  children_length,
}
use euicc_go.Bertlv.Tlv.Write.{write_to, write_children, marshal_binary, bytes}
use euicc_go.Bertlv.Tlv.Valid.{IsTlv, AreTlvs, Fits}
use euicc_go.Bertlv.Length.Codec.{length_octets-Codes}
use euicc_go.Bertlv.Tlv.Sizes.{write_to_constructed}
use euicc_go.Bertlv.Tlv.Codes.{IsTlv-Codes}
use euicc_go.Sgp22.Bpp.{lengths, marshal_header, each_bytes, optional_bytes, segments}

-- No nil among the children.
abbrev pub AllPresent : Children → Type 0
AllPresent no_children = Unit
AllPresent (nil_child cs) = ⊥
AllPresent (child x cs) = AllPresent cs

lengths-children_length : (cs : Children) → AllPresent cs → lengths cs ≡ children_length cs
unfolding lengths children_length len
lengths-children_length no_children h = refl
lengths-children_length (nil_child cs) h = absurd h
lengths-children_length (child x cs) h = elim (Option-cases (content_length x)) [
  | inl e ↦ rw e
  | inr (n, e) ↦ rw (e, lengths-children_length cs h)
]

marshal_header_lem :
    (t : Tag) (v octets : Bytes) (cs : Children) (n : ℕ)
    → AllPresent cs
    → children_length cs ≡ some n
    → marshal_length n ≡ some octets
    → marshal_header (object t v cs) ≡ some (t ++ octets)
unfolding marshal_header marshal_length
marshal_header_lem t v octets cs n h e m = rw (lengths-children_length cs h, e) (ground arith)

bytes_lem :
    (x : Tlv)
    → IsTlv x
    → (out : Bytes) × (bytes x ≡ some out)
      × (write_to x ≡ some (record { out = out; error = none }))
unfolding bytes marshal_binary
bytes_lem x h = let (out, y, (ew, el, _, _, _, _)) = IsTlv-Codes x h in (out, rw (el, ew), ew)

each_bytes_lem :
    (cs : Children)
    → AreTlvs cs
    → AllPresent cs
    → (bs : List Bytes) × (each_bytes cs ≡ some bs)
      × (write_children cs ≡ some (record { out = concat bs; error = none }))
unfolding each_bytes write_children IsTlv
each_bytes_lem no_children h p = ([], refl, refl)
each_bytes_lem (nil_child cs) h p = absurd p
each_bytes_lem (child x cs) (h, hs) p =
    let (out, eb, ew) = bytes_lem x h in
    let (bs, es, ews) = each_bytes_lem cs hs p in (out ∷ bs, rw (eb, es), rw (ew, ews))

-- A constructed object that can be encoded has no value, and children that can be.
constructed_parts :
    (t : Tag) (v : Bytes) (cs : Children)
    → IsTlv (object t v cs)
    → is_primitive t ≡ some false
    → (v ≡ []) × AreTlvs cs × Fits cs
unfolding IsTlv
constructed_parts t v cs (_, inl (p, _, _, _)) c = cc
constructed_parts t v cs (_, inr (p, hv, hs, f)) c = (hv, hs, f)

pub IsTlv-children :
    (x : Tlv) → IsTlv x → is_primitive (tag_of x) ≡ some false → AreTlvs (children_of x)
IsTlv-children (object t v cs) h c = (constructed_parts t v cs h c).1

same_out :
    (x : Tlv) (a b : Bytes)
    → write_to x ≡ some (record { out = a; error = none })
    → write_to x ≡ some (record { out = b; error = none })
    → a ≡ b
same_out x a b p q = cc

-- What a constructed object is cut into.
abbrev pub Cut : Tlv → Type 0
Cut x =
    (header : Bytes) × (bs : List Bytes) × (marshal_header x ≡ some header)
    × (each_bytes (children_of x) ≡ some bs)
    × (bytes x ≡ some (header ++ concat bs))

object-Cut :
    (t : Tag) (cs : Children)
    → IsTlv (object t [] cs)
    → is_primitive t ≡ some false
    → AllPresent cs
    → Cut (object t [] cs)
object-Cut t cs h c p =
    let (_, hs, (n, en, hn)) = constructed_parts t [] cs h c in
    let (bs, es, ew) = each_bytes_lem cs hs p in
    let (octets, codes) = length_octets-Codes n hn in
    let (em, _, _, _) = codes 0 [] in
    let (out, eb, eo) = bytes_lem (object t [] cs) h in
    let e =
      same_out (object t [] cs) out ((t ++ octets) ++ concat bs) eo
        (write_to_constructed t cs octets (concat bs) n c en hn em ew) in
    (t ++ octets, bs, marshal_header_lem t [] octets cs n p en em, es, eb ∙ ap some e)

-- A header and the bytes of each child make up a constructed object.
header_and_children :
    (x : Tlv) → IsTlv x → is_primitive (tag_of x) ≡ some false → AllPresent (children_of x) → Cut x
header_and_children (object t v cs) h c p =
    let hv = (constructed_parts t v cs h c).0 in rw hv (object-Cut t cs (rw hv at h) c p)

-- The children of a package, in the order of the specification; the second sequence of 87 is optional.
abbrev pub package_children : Tlv → Tlv → Tlv → Option Tlv → Tlv → Children
package_children i a b none d = child i (child a (child b (child d no_children)))
package_children i a b (some c) d = child i (child a (child b (child c (child d no_children))))

OptionalIsTlv : Option Tlv → Type 0
OptionalIsTlv none = Unit
OptionalIsTlv (some c) = IsTlv c

-- Every child of the package can be encoded.
abbrev AreParts : Tlv → Tlv → Tlv → Option Tlv → Tlv → Type 0
AreParts i a b c d = IsTlv i × IsTlv a × IsTlv b × OptionalIsTlv c × IsTlv d

package-AreParts :
    (i a b : Tlv) (c : Option Tlv) (d : Tlv)
    → AreTlvs (package_children i a b c d)
    → AreParts i a b c d
unfolding IsTlv OptionalIsTlv
package-AreParts i a b none d (hi, (ha, (hb, (hd, _)))) = (hi, ha, hb, tt, hd)
package-AreParts i a b (some c) d (hi, (ha, (hb, (hc, (hd, _))))) = (hi, ha, hb, hc, hd)

package-AllPresent :
    (i a b : Tlv) (c : Option Tlv) (d : Tlv) → AllPresent (package_children i a b c d)
package-AllPresent i a b none d = tt
package-AllPresent i a b (some c) d = tt

optional_bytes_lem :
    (c : Option Tlv) → OptionalIsTlv c → (keys : List Bytes) × (optional_bytes c ≡ some keys)
unfolding optional_bytes OptionalIsTlv
optional_bytes_lem none h = ([], refl)
optional_bytes_lem (some c) h = let (out, e, _) = bytes_lem c h in (out ∷ [], rw e)

-- The bytes of the package's children, from those of its parts.
each_bytes-package :
    (i a b : Tlv) (c : Option Tlv) (d : Tlv) (bi ba bb bd : Bytes) (keys : List Bytes)
    → bytes i ≡ some bi
    → bytes a ≡ some ba
    → bytes b ≡ some bb
    → optional_bytes c ≡ some keys
    → bytes d ≡ some bd
    → each_bytes (package_children i a b c d) ≡ some (bi ∷ ba ∷ bb ∷ (keys ++ (bd ∷ [])))
unfolding each_bytes optional_bytes
each_bytes-package i a b none d bi ba bb bd keys ei ea eb ec ed =
    let ek : keys ≡ [] = cc in rw (ei, ea, eb, ed, ek)
each_bytes-package i a b (some c) d bi ba bb bd keys ei ea eb ec ed =
    elim (Option-cases (bytes c)) [
      | inl e ↦ cc (rw e at ec)
      | inr (out, e) ↦ let ek : keys ≡ out ∷ [] = cc (rw e at ec) in rw (ei, ea, eb, e, ed, ek)
    ]

concat_segments :
    (header bi ba header_b header_d : Bytes) (kids keys elements : List Bytes)
    → concat ((header ++ bi) ∷ ba ∷ header_b ∷ (kids ++ (keys ++ (header_d ∷ elements))))
      ≡ header
        ++ concat
            (bi ∷ ba ∷ (header_b ++ concat kids) ∷ (keys ++ ((header_d ++ concat elements) ∷ [])))
concat_segments header bi ba header_b header_d kids keys elements =
    simp (concat-append, append_assoc, append-nil)

module _ (bpp i a b : Tlv) (c : Option Tlv) (d : Tlv) (valid : IsTlv bpp)
    (form : is_primitive (tag_of bpp) ≡ some false)
    (shape : children_of bpp ≡ package_children i a b c d)
    (form_b : is_primitive (tag_of b) ≡ some false) (present_b : AllPresent (children_of b))
    (form_d : is_primitive (tag_of d) ≡ some false) (present_d : AllPresent (children_of d)) where
  -- The segments, one after the other, are the encoding of the package.
  pub segments_whole :
      (out : List Bytes) × (segments bpp i a b c d ≡ some out) × (bytes bpp ≡ some (concat out))
  unfolding segments
  segments_whole =
      let parts = rw shape at (IsTlv-children bpp valid form) in
      let (hi, ha, hb, hc, hd) = package-AreParts i a b c d parts in
      let (header, bs, eh, ebs, ew) =
        header_and_children bpp valid form (rw shape (package-AllPresent i a b c d)) in
      let (bi, ei, _) = bytes_lem i hi in
      let (ba, ea, _) = bytes_lem a ha in
      let (header_b, kids, ehb, ekids, eb) = header_and_children b hb form_b present_b in
      let (header_d, elements, ehd, eel, ed) = header_and_children d hd form_d present_d in
      let (keys, ec) = optional_bytes_lem c hc in
      let all =
        each_bytes-package i a b c d bi ba (header_b ++ concat kids) (header_d ++ concat elements)
          keys ei ea eb ec ed in
      let same : bs
          ≡ bi ∷ ba ∷ (header_b ++ concat kids) ∷ (keys ++ ((header_d ++ concat elements) ∷ [])) =
        cc (rw shape at ebs, all) in
      (
        (header ++ bi) ∷ ba ∷ header_b ∷ (kids ++ (keys ++ (header_d ∷ elements))),
        rw (eh, ei, ea, ehb, ekids, ec, ehd, eel),
        ew
            ∙ ap some (
                ap (λ (k : List Bytes). header ++ concat k) same
                ∙ sym (concat_segments header bi ba header_b header_d kids keys elements)),
      )
