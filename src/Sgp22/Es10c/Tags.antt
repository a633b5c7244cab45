-- ===== src/Sgp22/Es10c/Tags.antt =====
-- The tags of a list of profiles, each number once (v2/es10c.go: `unqiueTags`).
use euicc_go.Prelude.{
  ℕ, ◌<◌, ◌≡◌, ◌∙◌, refl, sym, ap, ◌==◌, if◌then◌else◌, true, false, ◌||◌, inl, inr, Bool-cases,
  none, some, List, [], ◌∷◌, length, to_byte, map, All, arith,
}
use euicc_go.Prelude.Checked.{ok}
use euicc_go.Bertlv.Tag.{Tag, value_of}
use euicc_go.Sgp22.Es10c.{contains, unique_tags}

-- The low byte of a tag's number.
unfoldable pub number : Tag → ℕ
number t = elim (value_of t) [ none ↦ 0 | some v ↦ to_byte v ]

-- A list with elements left out.
pub data IsPart : List Tag → List Tag → Type 0 where
  nothing : IsPart [] []
  kept : (t : Tag) {ts us : List Tag} → IsPart ts us → IsPart (t ∷ ts) (t ∷ us)
  left_out : (t : Tag) {ts us : List Tag} → IsPart ts us → IsPart ts (t ∷ us)

-- Each number is none of those before it, nor of the given ones.
abbrev pub AllNew : List ℕ → List Tag → Type 0
AllNew seen [] = Unit
AllNew seen (t ∷ ts) = (contains (number t) seen ≡ false) × AllNew (number t ∷ seen) ts

abbrev pub Present : List ℕ → List Tag → Tag → Type 0
Present seen ts t = (contains (number t) seen || contains (number t) (map number ts)) ≡ true

still_there :
    (seen : List ℕ) (t u : Tag) (ts : List Tag)
    → Present (number t ∷ seen) ts u
    → Present seen (t ∷ ts) u
still_there seen t u ts h = ground (arith, h)

all_later :
    (seen : List ℕ) (t : Tag) (ts us : List Tag)
    → All (Present (number t ∷ seen) ts) us
    → All (Present seen (t ∷ ts)) us
all_later seen t ts [] h = tt
all_later seen t ts (u ∷ us) (h, hs) = (still_there seen t u ts h, all_later seen t ts us hs)

abbrev Unique : List ℕ → List Tag → Type 0
Unique seen tags =
    (ts : List Tag) × (unique_tags seen tags ≡ ok ts)
    × IsPart ts tags
    × AllNew seen ts
    × All (Present seen ts) tags

numbered : (t : Tag) → 0 < length t → (v : ℕ) × (value_of t ≡ some v) × (to_byte v ≡ number t)
unfolding value_of number
numbered [] h = absurd (omega arith)
numbered (b ∷ bs) h = (_, refl, refl)

module _ (seen : List ℕ) (t : Tag) (tags : List Tag) (v : ℕ) (e : value_of t ≡ some v)
    (same : to_byte v ≡ number t) where
  step_seen : contains (number t) seen ≡ true → unique_tags seen (t ∷ tags) ≡ unique_tags seen tags
  unfolding unique_tags
  step_seen h =
      let h' : contains (to_byte v) seen ≡ true = rw same h in rw (e, unique_tags, h') refl

  step_fresh :
      (ts : List Tag)
      → contains (number t) seen ≡ false
      → unique_tags (number t ∷ seen) tags ≡ ok ts
      → unique_tags seen (t ∷ tags) ≡ ok (t ∷ ts)
  unfolding unique_tags
  step_fresh ts h r =
      let h' : contains (to_byte v) seen ≡ false = rw same h in
      let r' : unique_tags (to_byte v ∷ seen) tags ≡ ok ts = rw same r in
      rw (e, unique_tags, h', r') refl

kept_from : (seen : List ℕ) (tags : List Tag) → All (λ t. 0 < length t) tags → Unique seen tags
unfolding unique_tags
kept_from seen [] h = ([], refl, nothing, tt, tt)
kept_from seen (t ∷ tags) (h, hs) =
    let (v, e, same) = numbered t h in
    elim (Bool-cases (contains (number t) seen)) [
      | inl is_seen ↦
          let (ts, result, part, distinct, present) = kept_from seen tags hs in
          (
            ts,
            step_seen seen t tags v e same is_seen ∙ result,
            left_out t part,
            distinct,
            (rw is_seen refl, present),
          )
      | inr fresh ↦
          let (ts, result, part, distinct, present) = kept_from (number t ∷ seen) tags hs in
          (
            t ∷ ts,
            step_fresh seen t tags v e same ts fresh result,
            kept t part,
            (fresh, distinct),
            (ground arith, all_later seen t ts tags present),
          )
    ]

-- The tags whose number has a low byte that none of the given ones and no earlier tag of the list has.
abbrev pub firsts : List ℕ → List Tag → List Tag
firsts seen [] = []
firsts seen (t ∷ ts) =
    let rest = firsts (number t ∷ seen) ts in if contains (number t) seen then rest else t ∷ rest

unique_tags-firsts :
    (seen earlier : List ℕ) (tags : List Tag)
    → ((n : ℕ) → contains n seen ≡ contains n earlier)
    → All (λ t. 0 < length t) tags
    → unique_tags seen tags ≡ ok (firsts earlier tags)
unfolding unique_tags
unique_tags-firsts seen earlier [] same h = refl
unique_tags-firsts seen earlier (t ∷ tags) same (h, hs) =
    let (v, e, low) = numbered t h in
    elim (Bool-cases (contains (number t) seen)) [
      | inl is_seen ↦
          let was : contains (number t) earlier ≡ true = sym (same (number t)) ∙ is_seen in
          let still : (n : ℕ) → contains n seen ≡ contains n (number t ∷ earlier) = λ n.
            elim (Bool-cases (n == number t)) [
              | inl b ↦ let m : n ≡ number t = ground (arith, b) in rw (m, is_seen) (ground arith)
              | inr b ↦ rw b (same n)
            ] in
          step_seen seen t tags v e low is_seen
          ∙ unique_tags-firsts seen (number t ∷ earlier) tags still hs
          ∙ rw was refl
      | inr fresh ↦
          let was : contains (number t) earlier ≡ false = sym (same (number t)) ∙ fresh in
          let still : (n : ℕ) → contains n (number t ∷ seen) ≡ contains n (number t ∷ earlier) =
            λ n. ap (λ b. (n == number t) || b) (same n) in
          step_fresh seen t tags v e low (firsts (number t ∷ earlier) tags) fresh
            (unique_tags-firsts (number t ∷ seen) (number t ∷ earlier) tags still hs)
          ∙ rw was refl
    ]

-- Of any tags that are not empty, those are asked for, in their order, whose number has a low byte that no
-- earlier tag of the list has: of several with the same low byte only the first one, whatever their
-- classes and the rest of their numbers. So no two in the result have the same low byte, and the low byte of
-- every tag's number is that of a tag in the result.
pub unique_tags_lem :
    (tags : List Tag)
    → All (λ t. 0 < length t) tags
    → (unique_tags [] tags ≡ ok (firsts [] tags))
      × IsPart (firsts [] tags) tags
      × AllNew [] (firsts [] tags)
      × All (λ t. contains (number t) (map number (firsts [] tags)) ≡ true) tags
unique_tags_lem tags h =
    let (ts, result, part, distinct, present) = kept_from [] tags h in
    let whole = unique_tags-firsts [] [] tags (λ n. refl) h in
    let same : ts ≡ firsts [] tags = cc in
    (whole, rw same at part, rw same at distinct, rw same at present)
