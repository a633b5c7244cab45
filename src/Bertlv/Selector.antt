-- ===== src/Bertlv/Selector.antt =====
-- bertlv/tlv_selector.go: the children of an object by tag and by index. Of a *TLV that is returned,
-- `none` is nil.
pub mod Laws
use euicc_go.Prelude.{
  ℕ, zero, suc, ◌-◌, Bool, true, false, Option, none, some, List, [], ◌∷◌, Bytes, ltb,
  if◌then◌else◌,
}
use euicc_go.Prelude.Int.{ℤ, pos, negsuc}
use euicc_go.Bertlv.Tag.{Tag, equal}
use euicc_go.Bertlv.Tlv.{
  Tlv, Children, object, no_children, child, nil_child, tag_of, children_of, count,
}

unfoldable pub first_child : Tag → Children → Option Tlv
first_child t no_children = none
first_child t (nil_child cs) = first_child t cs
first_child t (child x cs) = if equal (tag_of x) t then some x else first_child t cs

unfoldable pub first : Tlv → Tag → Option Tlv
unfolding first_child
first x t = first_child t (children_of x)

unfoldable pub find_children : Tag → Children → List Tlv
find_children t no_children = []
find_children t (nil_child cs) = find_children t cs
find_children t (child x cs) =
    if equal (tag_of x) t then x ∷ find_children t cs else find_children t cs

unfoldable pub find : Tlv → Tag → List Tlv
unfolding find_children
find x t = find_children t (children_of x)

unfoldable pub select : Tlv → List Tag → Option Tlv
select next [] = some next
select next (t ∷ tags) = elim (first next t) [ none ↦ none | some found ↦ select found tags ]

-- `tlv.Children[i]`; the outer `none` is a panic.
unfoldable pub child_at : Children → ℕ → Option (Option Tlv)
child_at no_children i = none
child_at (child x cs) zero = some (some x)
child_at (nil_child cs) zero = some none
child_at (child x cs) (suc i) = child_at cs i
child_at (nil_child cs) (suc i) = child_at cs i

-- A negative index counts from the end: -1 is the last child.
unfoldable pub at : Tlv → ℤ → Option (Option Tlv)
unfolding child_at
at x (pos i) = if ltb i (count (children_of x)) then child_at (children_of x) i else none
at x (negsuc j) =
    if ltb j (count (children_of x))
    then child_at (children_of x) (count (children_of x) - suc j)
    else none
