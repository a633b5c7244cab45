-- ===== src/Bertlv/Tag/Read.antt =====
-- What `Tag.ReadFrom` accepts (bertlv/tag.go).
use euicc_go.Prelude.{
  ℕ, zero, suc, ◌+◌, ◌%◌, ◌≤◌, ◌<◌, ◌≡◌, refl, ◌↔◌, ◌≢◌, Bool, true, false, [], ◌∷◌, ◌++◌, arith,
  Bytes, IsByte, All, All-split, length, length-append_bytes, append_assoc, ltb, if◌then◌else◌, ap,
  ◌∙◌, dec_lt, ℕ_discrete, lt→ltb,
}
use euicc_go.Prelude.Masks.{and_1f}
use euicc_go.Bertlv.Stream.{Result, ok, panic}
use euicc_go.Bertlv.Tag.{Tag, read_tag_loop, read_tag, new_tag}
use euicc_go.Bertlv.Tag.New.{Continued, new_tag_short, new_tag_long}

-- Bytes with the top bit set, then one without.
abbrev pub ends : Bytes → Bool
ends [] = false
ends (b ∷ []) = ltb b 128
ends (b ∷ bs) = if ltb b 128 then false else ends bs

-- One byte whose low five bits are not all set, or such a byte followed by at most ten more.
abbrev pub IsTag : Tag → Type 0
IsTag [] = ⊥
IsTag (b ∷ []) = IsByte b × (b % 32 ≢ 31)
IsTag (b ∷ bs) = IsByte b × (b % 32 ≡ 31) × All IsByte bs × (length bs ≤ 10) × (ends bs ≡ true)

read_tag_loop-ends :
    (room : ℕ) (tag : Tag) (s rest : Bytes)
    → ends s ≡ true
    → length s ≤ room
    → read_tag_loop room tag (s ++ rest) ≡ ok (tag ++ s) (length tag + length s) rest
unfolding read_tag_loop
read_tag_loop-ends room tag [] rest h k = cc
read_tag_loop-ends zero tag (b ∷ s) rest h k = absurd (omega arith)
read_tag_loop-ends (suc room) tag (b ∷ []) rest h k = ground arith
read_tag_loop-ends (suc room) tag (b ∷ c ∷ s) rest h k = ground (
  arith,
  read_tag_loop-ends room (tag ++ (b ∷ [])) (c ∷ s) rest,
  append_assoc tag (b ∷ []) (c ∷ s),
  length-append_bytes tag (b ∷ []),
)

-- A well-formed tag is read whole, and nothing behind it.
pub read_tag-append : (t rest : Bytes) → IsTag t → read_tag (t ++ rest) ≡ ok t (length t) rest
unfolding read_tag
read_tag-append [] rest h = absurd h
read_tag-append (b ∷ []) rest h = ground (arith, and_1f b)
read_tag-append (b ∷ c ∷ s) rest h =
    ground (arith, and_1f b, read_tag_loop-ends 10 (b ∷ []) (c ∷ s) rest)

ends_cons : (b : ℕ) (bs : Bytes) → 128 ≤ b → ends bs ≡ true → ends (b ∷ bs) ≡ true
ends_cons b [] h k = cc
ends_cons b (c ∷ bs) h k = ground arith

read_tag_loop_sound :
    (room : ℕ) (tag s : Bytes) (t : Tag) (n : ℕ) (rest : Bytes)
    → read_tag_loop room tag s ≡ ok t n rest
    → (more : Bytes) × (s ≡ more ++ rest)
      × (t ≡ tag ++ more)
      × (n ≡ length t)
      × (length more ≤ room)
      × (ends more ≡ true)
unfolding read_tag_loop
read_tag_loop_sound zero tag s t n rest h = cc
read_tag_loop_sound (suc room) tag [] t n rest h = cc
read_tag_loop_sound (suc room) tag (b ∷ s) t n rest h = elim (dec_lt b 128) [
  | yes p ↦ (
    b ∷ [],
    ground arith,
    ground arith,
    ground (arith, length-append_bytes tag (b ∷ [])),
    omega arith,
    ground arith,
  )
  | no p ↦
      let (more, e, et, en, l, k) =
        read_tag_loop_sound room (tag ++ (b ∷ [])) s t n rest (ground arith) in
      (
        b ∷ more,
        ap (◌∷◌ b) e,
        et ∙ append_assoc tag (b ∷ []) more,
        en,
        omega arith,
        ends_cons b more (omega arith) k,
      )
]

long_IsTag :
    (b : ℕ) (bs : Bytes)
    → IsByte b
    → b % 32 ≡ 31
    → All IsByte bs
    → length bs ≤ 10
    → ends bs ≡ true
    → IsTag (b ∷ bs)
long_IsTag b [] hb h hs l k = cc
long_IsTag b (c ∷ bs) hb h hs l k = (hb, h, hs, l, k)

-- On a stream of bytes, what the reader returns is a well-formed tag that it took off the front.
pub read_tag_sound :
    (s : Bytes) (t : Tag) (n : ℕ) (rest : Bytes)
    → All IsByte s
    → read_tag s ≡ ok t n rest
    → (s ≡ t ++ rest) × IsTag t × (n ≡ length t)
unfolding read_tag
read_tag_sound [] t n rest hs h = cc
read_tag_sound (b ∷ s) t n rest (hb, hs) h = elim (ℕ_discrete (b % 32) 31) [
  | yes p ↦
      let (more, e, et, en, l, k) =
        read_tag_loop_sound 10 (b ∷ []) s t n rest (ground (arith, and_1f b)) in
      let bytes = All-split IsByte more rest (rw e at hs) in
      (rw et (ap (◌∷◌ b) e), rw et (long_IsTag b more hb p bytes.0 l k), en)
  | no p ↦
      let one : Result Tag = ok (b ∷ []) 1 s in
      let found : one ≡ ok t n rest = ground (arith, and_1f b) in
      let et : t ≡ b ∷ [] = cc in (rw et (cc), rw et (hb, p), rw et (cc))
]

-- `Tag.ReadFrom` returns a tag, its length and what is left exactly when the stream is that tag,
-- well formed, and what is left.
pub read_tag-eq-ok_iff :
    (s : Bytes) (t : Tag) (n : ℕ) (rest : Bytes)
    → All IsByte s
    → (read_tag s ≡ ok t n rest) ↔ ((s ≡ t ++ rest) × IsTag t × (n ≡ length t))
read_tag-eq-ok_iff s t n rest hs =
    (read_tag_sound s t n rest hs, λ (e, h, en). rw (e, en) (read_tag-append t rest h))

-- The tags that the library makes are well formed.
pub new_tag-IsTag : (c f v : ℕ) → c < 4 → f < 2 → v < 128 → IsTag (new_tag c f v)
new_tag-IsTag c f v hc hf hv = elim (dec_lt v 31) [
  | yes p ↦ rw (new_tag_short c f v hc hf p) (omega arith)
  | no p ↦
      rw (new_tag_long c f v hc hf (omega arith) hv)
        (omega arith, omega arith, omega arith, omega arith, lt→ltb v 128 hv)
]

read_tag_loop_overruns :
    (room : ℕ) (tag more rest : Bytes)
    → All Continued more
    → length more ≡ room
    → read_tag_loop room tag (more ++ rest) ≡ panic
unfolding read_tag_loop
read_tag_loop_overruns zero tag more rest h l = refl
read_tag_loop_overruns (suc room) tag [] rest h l = absurd (omega arith)
read_tag_loop_overruns (suc room) tag (b ∷ more) rest (hb, h) l =
    ground (arith, read_tag_loop_overruns room (tag ++ (b ∷ [])) more rest h (omega arith))

read_tag_loop_panics :
    (room : ℕ) (tag s : Bytes)
    → read_tag_loop room tag s ≡ panic
    → (more : Bytes) × (rest : Bytes) × (s ≡ more ++ rest)
      × All Continued more
      × (length more ≡ room)
unfolding read_tag_loop
read_tag_loop_panics zero tag s h = ([], s, refl, tt, refl)
read_tag_loop_panics (suc room) tag [] h = cc
read_tag_loop_panics (suc room) tag (b ∷ s) h = elim (dec_lt b 128) [
  | yes p ↦ absurd (ground arith)
  | no p ↦
      let (more, rest, e, c, l) = read_tag_loop_panics room (tag ++ (b ∷ [])) s (ground arith) in
      (b ∷ more, rest, ap (◌∷◌ b) e, (omega arith, c), ap suc l)
]

-- A first byte that announces more, ten bytes that each announce one more, and any others.
abbrev pub Overlong : Bytes → Type 0
Overlong s =
    (b : ℕ) × (more : Bytes) × (rest : Bytes) × (s ≡ b ∷ (more ++ rest))
    × (b % 32 ≡ 31)
    × All Continued more
    × (length more ≡ 10)

Overlong-panic : (s : Bytes) → All IsByte s → Overlong s → read_tag s ≡ panic
unfolding read_tag
Overlong-panic s hs (b, more, rest, e, h, c, l) =
    let hb = (rw e at hs).0 in
    rw e (ground (arith, and_1f b, read_tag_loop_overruns 10 (b ∷ []) more rest c l))

panic-Overlong : (s : Bytes) → All IsByte s → read_tag s ≡ panic → Overlong s
unfolding read_tag
panic-Overlong [] hs h = cc
panic-Overlong (b ∷ s) (hb, hs) h = elim (ℕ_discrete (b % 32) 31) [
  | yes p ↦
      let (more, rest, e, c, l) = read_tag_loop_panics 10 (b ∷ []) s (ground (arith, and_1f b)) in
      (b, more, rest, ap (◌∷◌ b) e, p, c, l)
  | no p ↦ absurd (ground (arith, and_1f b))
]

-- `Tag.ReadFrom` panics exactly on the streams whose tag runs past eleven bytes.
pub read_tag-eq-panic_iff : (s : Bytes) → All IsByte s → (read_tag s ≡ panic) ↔ Overlong s
read_tag-eq-panic_iff s hs = (panic-Overlong s hs, Overlong-panic s hs)
