-- ===== src/Bertlv/Selector/Laws.antt =====
-- Laws of the selectors (bertlv/tlv_selector.go).
use euicc_go.Prelude.{
  ℕ, zero, suc, ◌+◌, ◌-◌, ◌<◌, ◌≡◌, ◌≢◌, refl, none, List, [], ◌∷◌, ◌++◌, arith, All, Bool-cases,
  inl, inr, bytes_eq_sound, Option-cases, ◌>>=◌, lt→ltb,
}
use euicc_go.Prelude.Int.{pos, negsuc}
use euicc_go.Bertlv.Tag.{Tag, equal}
use euicc_go.Bertlv.Tlv.{Tlv, Children, no_children, child, nil_child, tag_of, children_of, count}
use euicc_go.Bertlv.Selector.{first_child, first, find_children, find, select, child_at, at}
use mathlib.Core.List.{head?}

first_child-find : (t : Tag) (cs : Children) → first_child t cs ≡ head? (find_children t cs)
unfolding first_child find_children
first_child-find t no_children = refl
first_child-find t (nil_child cs) = first_child-find t cs
first_child-find t (child x cs) = ground (arith, first_child-find t cs)

find_children-tags : (t : Tag) (cs : Children) → All (λ x. tag_of x ≡ t) (find_children t cs)
unfolding find_children equal
find_children-tags t no_children = tt
find_children-tags t (nil_child cs) = find_children-tags t cs
find_children-tags t (child x cs) = elim (Bool-cases (equal (tag_of x) t)) [
  | inl p ↦ rw p (bytes_eq_sound (tag_of x) t p, find_children-tags t cs)
  | inr p ↦ rw p (find_children-tags t cs)
]

-- `First` is the head of `Find`, and all that `Find` returns has the tag asked for.
pub first-find :
    (x : Tlv) (t : Tag) → (first x t ≡ head? (find x t)) × All (λ y. tag_of y ≡ t) (find x t)
unfolding first find
first-find x t = (first_child-find t (children_of x), find_children-tags t (children_of x))

-- Selecting along two paths in turn is selecting along both.
pub select-append :
    (x : Tlv) (ts us : List Tag) → select x (ts ++ us) ≡ (select x ts >>= λ y. select y us)
unfolding select
select-append x [] us = refl
select-append x (t ∷ ts) us = elim (Option-cases (first x t)) [
  | inl e ↦ rw (e, select) refl
  | inr (y, e) ↦ rw (e, select) (select-append y ts us)
]

child_at-ne-none : (cs : Children) (i : ℕ) → i < count cs → child_at cs i ≢ none
unfolding child_at
child_at-ne-none no_children i h = absurd (omega arith)
child_at-ne-none (child x cs) zero h = λ e. cc
child_at-ne-none (nil_child cs) zero h = λ e. cc
child_at-ne-none (child x cs) (suc i) h = child_at-ne-none cs i (omega arith)
child_at-ne-none (nil_child cs) (suc i) h = child_at-ne-none cs i (omega arith)

-- `At` does not panic on an index from -n to n - 1, for n children, and a negative index is the
-- same as that index with n added.
pub at_in_range :
    (x : Tlv) (i j : ℕ)
    → i + j + 1 ≡ count (children_of x)
    → (at x (pos i) ≢ none) × (at x (negsuc j) ≡ at x (pos i))
unfolding at
at_in_range x i j h =
    let e : count (children_of x) - suc j ≡ i = omega arith in
    rw
      (
        lt→ltb i (count (children_of x)) (omega arith),
        lt→ltb j (count (children_of x)) (omega arith),
        e,
      )
      (child_at-ne-none (children_of x) i (omega arith), refl)
