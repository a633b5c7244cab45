-- ===== src/Sgp22/Bpp/Validation.antt =====
-- What `ValidBoundProfilePackage` checks (v2/bpp.go).
use euicc_go.Prelude.{
  ◌≡◌, ◌≢◌, ◌↔◌, refl, true, none, some, List, [], ◌∷◌, All, Option-cases, Bool-cases, inl, inr,
}
use euicc_go.Bertlv.Tag.{new_tag, equal, context_specific, constructed}
use euicc_go.Bertlv.Tlv.{Tlv, tag_of}
use euicc_go.Bertlv.Selector.{first}
use euicc_go.Sgp22.Bpp.{Field, field_tag, missing, items, joined, valid_bound_profile_package}

-- The package has the field.
abbrev pub Has : Tlv → Field → Type 0
Has bpp f = first bpp (field_tag f) ≢ none

missing-All : (bpp : Tlv) (fs : List Field) → missing bpp fs ≡ [] → All (Has bpp) fs
unfolding missing
missing-All bpp [] h = tt
missing-All bpp (f ∷ fs) h = elim (Option-cases (first bpp (field_tag f))) [
  | inl e ↦ cc (rw (e, missing) at h)
  | inr (x, e) ↦ (rw e (λ q. cc), missing-All bpp fs (rw (e, missing) at h))
]

All-missing : (bpp : Tlv) (fs : List Field) → All (Has bpp) fs → missing bpp fs ≡ []
unfolding missing
All-missing bpp [] h = refl
All-missing bpp (f ∷ fs) (h, hs) = elim (Option-cases (first bpp (field_tag f))) [
  | inl e ↦ absurd (h e)
  | inr (x, e) ↦ rw (e, missing) (All-missing bpp fs hs)
]

joined-none : (fs : List Field) → joined fs ≡ none → fs ≡ []
joined-none [] h = refl
joined-none (f ∷ fs) h = cc

-- The check passes exactly on a package with the right tag that has the four required fields; so
-- no lookup that the segmentation makes of them is nil.
pub valid_bound_profile_package-eq-none_iff :
    (bpp : Tlv)
    → (valid_bound_profile_package (some bpp) ≡ none) ↔ (
        (equal (tag_of bpp) (new_tag context_specific constructed 54) ≡ true) × All (Has bpp) items)
unfolding valid_bound_profile_package
valid_bound_profile_package-eq-none_iff bpp = (
  λ h. elim (Bool-cases (equal (tag_of bpp) (new_tag context_specific constructed 54))) [
    | inl e ↦ (e, missing-All bpp items (joined-none _ (rw e at h)))
    | inr e ↦ cc (rw e at h)
  ],
  λ (e, hs). rw (e, All-missing bpp items hs),
)
