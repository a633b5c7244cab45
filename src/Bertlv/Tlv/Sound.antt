-- ===== src/Bertlv/Tlv/Sound.antt =====
-- What the reader accepts, and that it always returns (bertlv/tlv_reader.go).
use euicc_go.Prelude.{
  ℕ, zero, suc, ◌+◌, ◌*◌, ◌%◌, ◌^◌, ◌<◌, ◌≡◌, ◌≢◌, refl, ap, ◌∙◌, inl, inr, some, ◌++◌, Bytes,
  IsByte, All, All-split, length, length-append_bytes, ltb, arith, Bool-cases,
}
use euicc_go.Bertlv.Stream.{ok, out_of_fuel}
use euicc_go.Bertlv.Ensures.{
  Ensures, holds, failed, Ensures-out_of_fuel, Ensures-ok, Ensures-handle,
}
use euicc_go.Bertlv.Tag.{Tag}
use euicc_go.Bertlv.Tlv.{
  Tlv, Children, object, no_children, child, nil_child, clone, clone_children,
}
use euicc_go.Bertlv.Tlv.Read.{read_tlv, read_children, read_from}
use euicc_go.Bertlv.Tlv.Parts.{
  read_tag-Ensures, read_length-Ensures, read_value-Ensures, object-ReadTlv, value-IsRead,
  children-IsRead, child-ReadChildren, no_children-ReadChildren, form-cases, IsTag-pos,
  Ensures-weaken, Consumed-bytes, ReadTlv, ReadChildren, IsRead, AreRead,
}

-- One induction on the fuel. An object takes two bytes at least, so the fuel, two units for each
-- byte of the stream and one more, stays above its bound at the next call.
mutual
  unfolding read_tlv

  read_tlv-Ensures :
      (f : ℕ) (s : Bytes) → 2 * length s < f → All IsByte s → Ensures (ReadTlv s) (read_tlv f s)
  read_tlv-Ensures zero s l hs = absurd (omega arith)
  read_tlv-Ensures (suc f) s l hs =
      Ensures-handle (read_tag-Ensures s hs) (λ e n rest. failed)
        λ t n₁ s₁ (e, ht, en).
          let hs₁ = (All-split IsByte t s₁ (rw e at hs)).1 in
          let size = ap length e ∙ length-append_bytes t s₁ in
          Ensures-handle (read_length-Ensures n₁ s₁ hs₁) (λ e n rest. failed)
            λ len n₂ s₂ (hl, octets, e₁, ek, pos).
              let hs₂ = (All-split IsByte octets s₂ (rw e₁ at hs₁)).1 in
              let size₁ = ap length e₁ ∙ length-append_bytes octets s₂ in
              let en₂ : n₂ ≡ length t + length octets = omega arith in
              elim (form-cases t ht) [
                | inl (p, c) ↦ rw c (
                    Ensures-weaken (read_value-Ensures t len n₂ s₂ hs₂ hl)
                      λ x k rest (v, ex, bytes, size, taken).
                        object-ReadTlv t octets s₁ s₂ s x n₂ k rest e e₁ pos ht en₂
                          (rw ex (value-IsRead t v ht p bytes size)) taken)
                | inr (p, c) ↦ rw c (
                    Ensures-handle
                      (read_children-Ensures f t len 0 n₂ s₂ (omega (arith, IsTag-pos t ht)) hs₂)
                      (λ e n rest. failed)
                      λ cs k rest (hcs, taken). holds (
                        object-ReadTlv t octets s₁ s₂ s _ n₂ k rest e e₁ pos ht en₂
                          (children-IsRead t cs ht p hcs) taken))
              ]

  read_children-Ensures :
      (f : ℕ) (t : Tag) (total index count : ℕ) (s : Bytes)
      → 2 * length s + 1 < f
      → All IsByte s
      → Ensures (ReadChildren count s) (read_children f t total index count s)
  read_children-Ensures zero t total index count s l hs = absurd (omega arith)
  read_children-Ensures (suc f) t total index count s l hs = elim (Bool-cases (ltb index total)) [
    | inl p ↦
        rw (p, read_children)
          (Ensures-handle (read_tlv-Ensures f s (omega arith) hs) (λ e n rest. failed)
            λ x n s₁ (hx, shorter, taken).
              Ensures-handle
                (read_children-Ensures f t total ((index + n % 2 ^ 32) % 2 ^ 32) (count + n) s₁
                  (omega arith) (Consumed-bytes 0 s n s₁ hs taken))
                (λ e n rest. failed)
                λ cs k s₂ r.
                  holds (child-ReadChildren count n k s s₁ s₂ x cs (hx, shorter, taken) r))
    | inr p ↦ rw (p, read_children) (holds (no_children-ReadChildren count s))
  ]

-- On every stream of bytes the reader returns: the fuel it is given is enough.
pub read_from-ne-out_of_fuel : (s : Bytes) → All IsByte s → read_from s ≢ out_of_fuel
unfolding read_from
read_from-ne-out_of_fuel s hs =
    Ensures-out_of_fuel (read_tlv-Ensures (2 * length s + 1) s (omega arith) hs)

pub read_from_sound :
    (s : Bytes) (x : Tlv) (n : ℕ) (rest : Bytes)
    → All IsByte s
    → read_from s ≡ ok x n rest
    → IsRead x × (taken : Bytes) × (s ≡ taken ++ rest) × (n ≡ length taken)
unfolding read_from
read_from_sound s x n rest hs e =
    let (hx, _, taken) = Ensures-ok (read_tlv-Ensures (2 * length s + 1) s (omega arith) hs) e in
    (hx, taken.0, taken.1, omega (arith, taken.2))

mutual
  unfolding IsRead clone

  IsRead-clone : (x : Tlv) → IsRead x → clone x ≡ some x
  IsRead-clone (object t v cs) (ht, inl (hp, hv, hl, hc)) = rw (hp, hc)
  IsRead-clone (object t v cs) (ht, inr (hp, hv, hcs)) = rw (hp, hv, AreRead-clone cs hcs)

  AreRead-clone : (cs : Children) → AreRead cs → clone_children cs ≡ some cs
  AreRead-clone no_children h = refl
  AreRead-clone (nil_child cs) h = absurd h
  AreRead-clone (child x cs) (h, hs) = rw (IsRead-clone x h, AreRead-clone cs hs)

-- `Clone` of an object that was read is that object.
pub clone_read :
    (s : Bytes) (x : Tlv) (n : ℕ) (rest : Bytes)
    → All IsByte s
    → read_from s ≡ ok x n rest
    → clone x ≡ some x
clone_read s x n rest hs e = IsRead-clone x (read_from_sound s x n rest hs e).0
