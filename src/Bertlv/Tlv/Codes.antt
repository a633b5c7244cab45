-- ===== src/Bertlv/Tlv/Codes.antt =====
-- The encoding of an object with what the reader makes of it (bertlv/tlv_writer.go, bertlv/tlv_reader.go).
use euicc_go.Prelude.{
  ℕ, zero, suc, ◌+◌, ◌*◌, ◌^◌, ◌≤◌, ◌<◌, ◌≡◌, refl, ap, sym, ◌∙◌, inl, inr, true, false, none, some,
  [], ◌∷◌, ◌++◌, append_assoc, Bytes, IsByte, All, All-append, length, length-append_bytes, arith,
  Option-cases,
}
use euicc_go.Bertlv.Stream.{ok}
use euicc_go.Bertlv.Tag.{Tag, is_primitive}
use euicc_go.Bertlv.Tag.Read.{IsTag}
use euicc_go.Bertlv.Length.Codec.{length_octets, length_octets-Codes}
use euicc_go.Bertlv.Tlv.{
  Tlv, Children, object, no_children, child, nil_child, content_length, children_length, len, clone,
  clone_children,
}
use euicc_go.Bertlv.Tlv.Write.{write_to, write_children}
use euicc_go.Bertlv.Tlv.Read.{read_tlv, read_children}
use euicc_go.Bertlv.Tlv.Valid.{IsTlv, AreTlvs}
use euicc_go.Bertlv.Tlv.Steps.{
  read_tlv_primitive, read_tlv_constructed, read_children_done, read_children_more,
}
use euicc_go.Bertlv.Tlv.Sizes.{
  add_header_lem, content_length_primitive, content_length_constructed, write_to_primitive,
  write_to_constructed,
}

-- The reader spends a unit at once: with more fuel than a bound it has the bound still left.
by_fuel {ℓ} :
    (bound : ℕ) (P : ℕ → Type ℓ)
    → ((left : ℕ) → bound ≤ left → P (suc left))
    → (fuel : ℕ) → bound < fuel
    → P fuel
by_fuel bound P next (suc left) above = next left (omega arith)
by_fuel bound P next zero above = elim above [ ]

-- `out` is the encoding of `x`, `y` its clone, and the reader takes the one to the other.
abbrev pub Codes : Tlv → Bytes → Tlv → Type 0
Codes x out y =
    (write_to x ≡ some (record { out = out; error = none }))
    × (len x ≡ some (length out))
    × (clone x ≡ some y)
    × All IsByte out
    × (0 < length out)
    × ((rest : Bytes) (f : ℕ)
        → 2 * length out < f
        → read_tlv f (out ++ rest) ≡ ok y (length out) rest)

abbrev pub CodesAll : Children → Bytes → Children → Type 0
CodesAll cs out ys =
    (write_children cs ≡ some (record { out = out; error = none }))
    × (children_length cs ≡ some (length out))
    × (clone_children cs ≡ some ys)
    × All IsByte out
    × ((t : Tag) (total index count : ℕ) (rest : Bytes) (f : ℕ)
        → 2 * length out + 1 < f
        → index + length out ≡ total
        → total < 2 ^ 24
        → read_children f t total index count (out ++ rest) ≡ ok ys (count + length out) rest)

IsTag-bytes : (t : Tag) → IsTag t → All IsByte t × (0 < length t)
IsTag-bytes [] h = absurd h
IsTag-bytes (b ∷ []) h = ((h.0, tt), omega arith)
IsTag-bytes (b ∷ c ∷ bs) h = ((h.0, h.2), omega arith)

-- The three parts of an encoding, regrouped.
regroup : (a b c rest : Bytes) → ((a ++ b) ++ c) ++ rest ≡ a ++ (b ++ (c ++ rest))
regroup a b c rest = simp append_assoc

length_three : (a b c : Bytes) → length ((a ++ b) ++ c) ≡ length a + length b + length c
length_three a b c = simp length-append_bytes

len_lem :
    (t : Tag) (v octets out : Bytes) (cs : Children)
    → content_length (object t v cs) ≡ some (length out)
    → length out < 2 ^ 24
    → length octets ≡ length_octets (length out)
    → len (object t v cs) ≡ some (length ((t ++ octets) ++ out))
unfolding len
len_lem t v octets out cs e h l =
    rw (e, length_three t octets out) (add_header_lem t (length out) h ∙ ap some (omega arith))

clone_primitive :
    (t : Tag) (v : Bytes)
    → is_primitive t ≡ some true
    → clone (object t v no_children) ≡ some (object t v no_children)
unfolding clone
clone_primitive t v h = rw h

clone_constructed :
    (t : Tag) (cs ys : Children)
    → is_primitive t ≡ some false
    → clone_children cs ≡ some ys
    → clone (object t [] cs) ≡ some (object t [] ys)
unfolding clone
clone_constructed t cs ys h e = rw (h, e)

primitive-Codes :
    (t : Tag) (v : Bytes)
    → IsTag t
    → is_primitive t ≡ some true
    → All IsByte v
    → length v < 2 ^ 24
    → (out : Bytes) × (y : Tlv) × Codes (object t v no_children) out y
primitive-Codes t v ht hp hv hl =
    let (octets, c) = length_octets-Codes (length v) hl in
    let (em, eo, bo, _) = c 0 [] in
    let (bt, pos) = IsTag-bytes t ht in
    (
      (t ++ octets) ++ v,
      object t v no_children,
      (
        write_to_primitive t v octets hp hl em,
        len_lem t v octets v no_children (content_length_primitive t v no_children hp) hl eo,
        clone_primitive t v hp,
        All-append IsByte (t ++ octets) v (All-append IsByte t octets bt bo) hv,
        rw (length_three t octets v) (omega arith),
        λ rest. by_fuel _ _ λ f' h.
            rw (regroup t octets v rest, length_three t octets v)
              (read_tlv_primitive f' t octets v rest ht hp ((c (length t) (v ++ rest)).3)),
      ),
    )

constructed-Codes :
    (t : Tag) (cs : Children) (out : Bytes) (ys : Children)
    → IsTag t
    → is_primitive t ≡ some false
    → length out < 2 ^ 24
    → CodesAll cs out ys
    → (out : Bytes) × (y : Tlv) × Codes (object t [] cs) out y
constructed-Codes t cs out ys ht hp hl (ew, el, ec, bytes, reads) =
    let (octets, c) = length_octets-Codes (length out) hl in
    let (em, eo, bo, _) = c 0 [] in
    let (bt, pos) = IsTag-bytes t ht in
    (
      (t ++ octets) ++ out,
      object t [] ys,
      (
        write_to_constructed t cs octets out (length out) hp el hl em ew,
        len_lem t [] octets out cs (content_length_constructed t [] cs hp ∙ el) hl eo,
        clone_constructed t cs ys hp ec,
        All-append IsByte (t ++ octets) out (All-append IsByte t octets bt bo) bytes,
        rw (length_three t octets out) (omega arith),
        λ rest. by_fuel _ _ λ f' h.
            rw (regroup t octets out rest, length_three t octets out)
              (read_tlv_constructed f' t octets out rest ys ht hp ((c (length t) (out ++ rest)).3) (
                reads t (length out) 0 _ rest f' (omega (arith, length_three t octets out))
                  (omega arith) hl)),
      ),
    )

no_children-CodesAll : CodesAll no_children [] no_children
unfolding write_children children_length clone_children
no_children-CodesAll = (
  refl,
  refl,
  refl,
  tt,
  λ t total index count rest.
      by_fuel _ _ λ f' h e hl.
        rw (read_children_done f' t total index count rest (omega arith)) (ground arith),
)

children_length-child :
    (x : Tlv) (cs : Children) (l m : ℕ)
    → len x ≡ some l
    → children_length cs ≡ some m
    → children_length (child x cs) ≡ some (l + m)
unfolding len children_length
children_length-child x cs l m el em = elim (Option-cases (content_length x)) [
  | inl e ↦ cc (rw e at el)
  | inr (n, e) ↦ rw (e, rw e at el, em)
]

child-CodesAll :
    (x : Tlv) (cs : Children) (a b : Bytes) (y : Tlv) (ys : Children)
    → Codes x a y
    → CodesAll cs b ys
    → CodesAll (child x cs) (a ++ b) (child y ys)
unfolding write_children clone_children
child-CodesAll x cs a b y ys (ew, el, ec, ba, pos, reads) (ew', el', ec', bb, reads') = (
  rw (ew, ew'),
  children_length-child x cs (length a) (length b) el el' ∙ ap some (sym (length-append_bytes a b)),
  rw (ec, ec'),
  All-append IsByte a b ba bb,
  λ t total index count rest. by_fuel _ _ λ f' h e hl. rw (append_assoc a b rest) (
      read_children_more f' t total index count (length a) _ _ (b ++ rest) rest y ys
        (omega (arith, length-append_bytes a b)) hl pos
        (reads (b ++ rest) f' (omega (arith, length-append_bytes a b)))
        (reads' t total (index + length a) (count + length a) rest f'
            (omega (arith, length-append_bytes a b)) (omega (arith, length-append_bytes a b)) hl
          ∙ ap (λ k. ok ys k rest) (omega (arith, length-append_bytes a b)))),
)

nil_child-CodesAll :
    (cs : Children) (out : Bytes) (ys : Children)
    → CodesAll cs out ys
    → CodesAll (nil_child cs) out ys
unfolding write_children children_length clone_children
nil_child-CodesAll cs out ys c = c

mutual
  unfolding IsTlv

  object-Codes : (x : Tlv) → IsTlv x → (out : Bytes) × (y : Tlv) × Codes x out y
  object-Codes (object t v cs) (ht, inl (hp, hv, hl, hc)) = rw hc (primitive-Codes t v ht hp hv hl)
  object-Codes (object t v cs) (ht, inr (hp, hv, hcs, (n, en, hn))) =
      let (out, ys, c) = children-Codes cs hcs in
      rw hv (constructed-Codes t cs out ys ht hp (ground (arith, c.1)) c)

  children-Codes :
      (cs : Children) → AreTlvs cs → (out : Bytes) × (ys : Children) × CodesAll cs out ys
  children-Codes no_children h = ([], no_children, no_children-CodesAll)
  children-Codes (nil_child cs) h =
      let (out, ys, c) = children-Codes cs h in (out, ys, nil_child-CodesAll cs out ys c)
  children-Codes (child x cs) (h, hs) =
      let (a, y, c) = object-Codes x h in
      let (b, ys, cs') = children-Codes cs hs in
      (a ++ b, child y ys, child-CodesAll x cs a b y ys c cs')

-- Every object that can be encoded has an encoding and a clone, and the reader relates them.
pub IsTlv-Codes : (x : Tlv) → IsTlv x → (out : Bytes) × (y : Tlv) × Codes x out y
IsTlv-Codes = object-Codes
