-- ===== src/Qmi/Tlvs/Sound.antt =====
-- What a successful read says of the stream (driver/qmi/protocol/tlv.go: `ReadFrom`).
use euicc_go.Prelude.{
  ℕ, zero, suc, ◌+◌, ◌*◌, ◌/◌, ◌%◌, ◌≤◌, ◌≡◌, refl, sym, ap, ◌∙◌, IsByte, Bool-cases, inl, inr,
  take-append-drop, length-take, length-drop, All-split, true, none, some, List, [], ◌∷◌, ◌++◌,
  append_assoc, append-nil, Bytes, length, take, drop, leb, leb→le, All, arith,
}
use euicc_go.Qmi.Tlvs.{QmiTlv, short_value, tlvs_error, outcome, read_loop, read_tlvs, write_tlvs}
use euicc_go.Qmi.Tlvs.Codec.{IsQmiTlv, encodings, write_tlvs_lem, read_loop-fits, read_loop-short}

abbrev Reads : ℕ → Bytes → ℕ → List QmiTlv → Type 0
Reads fuel s read before =
    (ts : List QmiTlv) × (read_loop fuel s read before
      ≡ outcome (read + length s) (before ++ ts) (tlvs_error (before ++ ts)))
    × (encodings ts ≡ s)
    × All IsQmiTlv ts

module _ (fuel t lo hi : ℕ) (s : Bytes) (read : ℕ) (before : List QmiTlv) where
  abbrev n : ℕ
  n = lo + hi * 256

  abbrev first_tlv : QmiTlv
  first_tlv = record { kind = t; len_field = n; value = take n s }

  first_tlv-IsQmiTlv : IsByte t → IsByte lo → IsByte hi → n ≤ length s → IsQmiTlv first_tlv
  first_tlv-IsQmiTlv ht hl hh fits = (ht, omega arith, omega (arith, length-take n s))

  Reads-step :
      IsByte t
      → IsByte lo
      → IsByte hi
      → leb n (length s) ≡ true
      → Reads fuel (drop n s) (read + 3 + n) (before ++ (first_tlv ∷ []))
      → Reads (suc fuel) (t ∷ lo ∷ hi ∷ s) read before
  Reads-step ht hl hh fits (ts, e, c, h) =
      let le : n ≤ length s = leb→le n (length s) fits in
      let lo_back : n % 256 ≡ lo = omega arith in
      let hi_back : n / 256 % 256 ≡ hi = omega arith in
      let total : read + 3 + n + length (drop n s) ≡ read + length (t ∷ lo ∷ hi ∷ s) =
        omega (arith, length-drop n s) in
      (
        first_tlv ∷ ts,
        read_loop-fits fuel t lo hi s read before fits
            ∙ e
            ∙ rw (total, append_assoc before (first_tlv ∷ []) ts),
        rw (lo_back, hi_back, c, take-append-drop n s),
        (first_tlv-IsQmiTlv ht hl hh le, h),
      )

read_loop_sound :
    (fuel : ℕ) (s : Bytes) (read : ℕ) (before : List QmiTlv)
    → All IsByte s
    → length s ≤ fuel
    → (read_loop fuel s read before).failure ≡ none
    → Reads fuel s read before
unfolding read_loop
read_loop_sound fuel [] read before hb hf h =
    let z : read + 0 ≡ read = omega arith in ([], rw (append-nil before, z), refl, tt)
read_loop_sound fuel (t ∷ []) read before hb hf h = absurd cc
read_loop_sound fuel (t ∷ lo ∷ []) read before hb hf h = absurd cc
read_loop_sound zero (t ∷ lo ∷ hi ∷ s) read before hb hf h = absurd cc
read_loop_sound (suc fuel) (t ∷ lo ∷ hi ∷ s) read before (ht, (hl, (hh, hb))) hf h =
    elim (Bool-cases (leb (lo + hi * 256) (length s))) [
      | inl fits ↦
          let n = lo + hi * 256 in
          let b : All IsByte (take (lo + hi * 256) s) × All IsByte (drop (lo + hi * 256) s) =
            All-split IsByte (take (lo + hi * 256) s) (drop (lo + hi * 256) s)
              (rw (take-append-drop (lo + hi * 256) s) hb) in
          Reads-step fuel t lo hi s read before ht hl hh fits (
            read_loop_sound fuel (drop (lo + hi * 256) s) (read + 3 + (lo + hi * 256)) _ b.1
              (omega (arith, length-drop (lo + hi * 256) s))
              (sym (ap (λ o. o.failure) (read_loop-fits fuel t lo hi s read before fits)) ∙ h))
      | inr short ↦
          let e : some short_value ≡ none =
            sym (ap (λ o. o.failure) (read_loop-short fuel t lo hi s read before short)) ∙ h in
          absurd cc
    ]

-- A read of bytes into an empty list that ends without an error took the whole stream; the list it
-- returns has a success as its result, and WriteTo gives for it the very bytes that were read.
pub read_tlvs_sound :
    (s : Bytes)
    → All IsByte s
    → (read_tlvs s []).failure ≡ none
    → (ts : List QmiTlv) × (read_tlvs s [] ≡ outcome (length s) ts none)
      × (write_tlvs ts ≡ record { output = s; failure = none })
      × (tlvs_error ts ≡ none)
unfolding read_tlvs
read_tlvs_sound s hb h =
    let (ts, e, c, hs) = read_loop_sound (length s) s 0 [] hb (omega arith) h in
    let z : 0 + length s ≡ length s = omega arith in
    let f : tlvs_error ts ≡ none = sym (ap (λ o. o.failure) e) ∙ h in
    (ts, e ∙ rw (z, f), rw (write_tlvs_lem ts hs, c), f)
