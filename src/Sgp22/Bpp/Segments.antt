-- ===== src/Sgp22/Bpp/Segments.antt =====
-- Where a package has its fields in order, its segments are its encoding (v2/bpp.go).
use euicc_go.Prelude.{
  ℕ, ◌<◌, ◌≡◌, false, Option, none, some, List, [], ◌∷◌, arith, Bytes, concat, bytes_eq_refl,
}
use euicc_go.Bertlv.Tag.{Tag, new_tag, equal, is_primitive, context_specific, constructed}
use euicc_go.Bertlv.Tlv.{Tlv, tag_of, children_of}
use euicc_go.Bertlv.Tlv.Write.{bytes}
use euicc_go.Bertlv.Tlv.Valid.{IsTlv}
use euicc_go.Bertlv.Selector.{first, first_child}
use euicc_go.Sgp22.Bpp.{
  initialise_secure_channel, first_87, sequence_88, sequence_86, field_tag, success,
  segmented_bound_profile_package, valid_bound_profile_package, missing,
}
use euicc_go.Sgp22.Bpp.Whole.{AllPresent, package_children, segments_whole}
use euicc_go.Bertlv.Tag.New.{new_tag_fields, new_tag_short, new_tag_long}

constructed_tag :
    (t : Tag) (v : ℕ)
    → v < 128
    → t ≡ new_tag context_specific constructed v
    → is_primitive t ≡ some false
unfolding is_primitive
constructed_tag t v h e = rw (e, (new_tag_fields 2 1 v (omega arith) (omega arith) h).1)

tag_54 : new_tag 2 1 54 ≡ 191 ∷ 54 ∷ []
tag_54 = new_tag_long 2 1 54 (omega arith) (omega arith) (omega arith) (omega arith)

tag_35 : new_tag 2 1 35 ≡ 191 ∷ 35 ∷ []
tag_35 = new_tag_long 2 1 35 (omega arith) (omega arith) (omega arith) (omega arith)

tag_0 : new_tag 2 1 0 ≡ 160 ∷ []
tag_0 = new_tag_short 2 1 0 (omega arith) (omega arith) (omega arith)

tag_1 : new_tag 2 1 1 ≡ 161 ∷ []
tag_1 = new_tag_short 2 1 1 (omega arith) (omega arith) (omega arith)

tag_2 : new_tag 2 1 2 ≡ 162 ∷ []
tag_2 = new_tag_short 2 1 2 (omega arith) (omega arith) (omega arith)

tag_3 : new_tag 2 1 3 ≡ 163 ∷ []
tag_3 = new_tag_short 2 1 3 (omega arith) (omega arith) (omega arith)

abbrev OptionalTag : Option Tlv → Type 0
OptionalTag none = Unit
OptionalTag (some c) = tag_of c ≡ new_tag context_specific constructed 2

ruleset tags = (tag_54, tag_35, tag_0, tag_1, tag_2, tag_3)

module _ (i a b d : Tlv) (ti : tag_of i ≡ field_tag initialise_secure_channel)
    (ta : tag_of a ≡ field_tag first_87) (tb : tag_of b ≡ field_tag sequence_88)
    (td : tag_of d ≡ field_tag sequence_86) where
  look_35 : (c : Option Tlv) → first_child (new_tag 2 1 35) (package_children i a b c d) ≡ some i
  unfolding first_child equal
  look_35 none = rw (ti, tag_35)
  look_35 (some c) = rw (ti, tag_35)

  look_0 : (c : Option Tlv) → first_child (new_tag 2 1 0) (package_children i a b c d) ≡ some a
  unfolding first_child equal
  look_0 none = rw (ti, ta, tag_35, tag_0)
  look_0 (some c) = rw (ti, ta, tag_35, tag_0)

  look_1 : (c : Option Tlv) → first_child (new_tag 2 1 1) (package_children i a b c d) ≡ some b
  unfolding first_child equal
  look_1 none = rw (ti, ta, tb, tag_35, tag_0, tag_1)
  look_1 (some c) = rw (ti, ta, tb, tag_35, tag_0, tag_1)

  look_2 :
      (c : Option Tlv)
      → OptionalTag c
      → first_child (new_tag 2 1 2) (package_children i a b c d) ≡ c
  unfolding first_child equal
  look_2 none tc = rw (ti, ta, tb, td, tag_35, tag_0, tag_1, tag_2, tag_3)
  look_2 (some c) tc = rw (ti, ta, tb, tc, tag_35, tag_0, tag_1, tag_2)

  look_3 :
      (c : Option Tlv)
      → OptionalTag c
      → first_child (new_tag 2 1 3) (package_children i a b c d) ≡ some d
  unfolding first_child equal
  look_3 none tc = rw (ti, ta, tb, td, tag_35, tag_0, tag_1, tag_3)
  look_3 (some c) tc = rw (ti, ta, tb, tc, td, tag_35, tag_0, tag_1, tag_2, tag_3)

-- A package with its fields in the order of the specification, each with its tag, and no nil
-- among the elements of the sequences that are cut.
pub record IsPackage (bpp i a b : Tlv) (c : Option Tlv) (d : Tlv) : Type 0 where
  pub package_tag : tag_of bpp ≡ new_tag context_specific constructed 54
  pub channel_tag : tag_of i ≡ field_tag initialise_secure_channel
  pub configure_tag : tag_of a ≡ field_tag first_87
  pub metadata_tag : tag_of b ≡ field_tag sequence_88
  pub keys_tag : OptionalTag c
  pub elements_tag : tag_of d ≡ field_tag sequence_86
  pub fields : children_of bpp ≡ package_children i a b c d
  pub metadata_present : AllPresent (children_of b)
  pub elements_present : AllPresent (children_of d)

module _ (bpp i a b : Tlv) (c : Option Tlv) (d : Tlv) (p : IsPackage bpp i a b c d) where
  find_35 : first bpp (new_tag 2 1 35) ≡ some i
  unfolding first
  find_35 =
      rw (p.fields) (look_35 i a b d p.channel_tag p.configure_tag p.metadata_tag p.elements_tag c)

  find_0 : first bpp (new_tag 2 1 0) ≡ some a
  unfolding first
  find_0 =
      rw (p.fields) (look_0 i a b d p.channel_tag p.configure_tag p.metadata_tag p.elements_tag c)

  find_1 : first bpp (new_tag 2 1 1) ≡ some b
  unfolding first
  find_1 =
      rw (p.fields) (look_1 i a b d p.channel_tag p.configure_tag p.metadata_tag p.elements_tag c)

  find_2 : first bpp (new_tag 2 1 2) ≡ c
  unfolding first
  find_2 =
      rw (p.fields)
        (look_2 i a b d p.channel_tag p.configure_tag p.metadata_tag p.elements_tag c p.keys_tag)

  find_3 : first bpp (new_tag 2 1 3) ≡ some d
  unfolding first
  find_3 =
      rw (p.fields)
        (look_3 i a b d p.channel_tag p.configure_tag p.metadata_tag p.elements_tag c p.keys_tag)

  package_valid : valid_bound_profile_package (some bpp) ≡ none
  unfolding valid_bound_profile_package missing equal
  package_valid =
      rw (p.package_tag, bytes_eq_refl (new_tag 2 1 54), find_35, find_0, find_1, find_3, missing)

  -- A package that can be encoded and has its fields in order is cut without an error, and the
  -- segments, one after the other, are its encoding.
  pub segmented_bound_profile_package_whole :
      IsTlv bpp
      → (out : List Bytes) × (segmented_bound_profile_package (some bpp) ≡ some (success out))
        × (bytes bpp ≡ some (concat out))
  unfolding segmented_bound_profile_package
  segmented_bound_profile_package_whole valid =
      let (out, es, eb) =
        segments_whole bpp i a b c d valid (constructed_tag _ 54 (omega arith) p.package_tag)
          p.fields (constructed_tag _ 1 (omega arith) p.metadata_tag) p.metadata_present
          (constructed_tag _ 3 (omega arith) p.elements_tag) p.elements_present in
      (
        out,
        rw (
          package_valid, segmented_bound_profile_package, find_35, find_0, find_1, find_3, find_2,
          es,
        ),
        eb,
      )
