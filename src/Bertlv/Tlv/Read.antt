-- ===== src/Bertlv/Tlv/Read.antt =====
-- bertlv/tlv_reader.go: decoding.
use euicc_go.Prelude.{
  ℕ, zero, suc, ◌+◌, ◌-◌, ◌*◌, ◌%◌, ◌^◌, true, false, none, some, [], Bytes, length, take, drop,
  ltb, leb, ◌==◌, if◌then◌else◌,
}
use euicc_go.Bertlv.Stream.{
  Result, handle, ok, err, panic, out_of_fuel, invalid_length, invalid_child, short_value,
}
use euicc_go.Bertlv.Tag.{Tag, read_tag, is_constructed}
use euicc_go.Bertlv.Length.{read_length}
use euicc_go.Bertlv.Tlv.{Tlv, Children, object, no_children, child}

-- `t.Value`, where the declared length is not 0. `count` is the reader's counter.
unfoldable pub read_value : Tag → ℕ → ℕ → Bytes → Result Tlv
read_value t n count s =
    if n == 0
    then ok (object t [] no_children) count s
    else if leb n (length s)
    then ok (object t (take n s) no_children) (count + n) (drop n s)
    else err (short_value t) (count + length s) []

-- Each call costs a unit of fuel, since what a child leaves is no structural part of the input.
-- `index` is a uint32 that wraps; a child that runs past the declared length is kept.
unfoldable mutual
  pub read_tlv : ℕ → Bytes → Result Tlv
  read_tlv zero s = out_of_fuel
  read_tlv (suc fuel) s =
      handle (read_tag s) (λ e n rest. err e 0 rest)
        λ t n₁ s₁.
          handle (read_length n₁ s₁) (λ e n rest. err (invalid_length t e) n rest)
            λ len n₂ s₂. elim (is_constructed t) [
              | none ↦ panic
              | some true ↦
                  handle (read_children fuel t len 0 n₂ s₂) err
                    λ cs n₃ s₃. ok (object t [] cs) n₃ s₃
              | some false ↦ read_value t len n₂ s₂
            ]

  pub read_children : ℕ → Tag → ℕ → ℕ → ℕ → Bytes → Result Children
  read_children zero t len index count s = out_of_fuel
  read_children (suc fuel) t len index count s = elim (ltb index len) [
    | false ↦ ok no_children count s
    | true ↦
        handle (read_tlv fuel s)
          (λ e n rest. err (invalid_child t e) (count + (length s - length rest)) rest)
          λ x n s₁.
            handle (read_children fuel t len ((index + n % 2 ^ 32) % 2 ^ 32) (count + n) s₁) err
              λ cs k s₂. ok (child x cs) k s₂
  ]

unfoldable pub read_from : Bytes → Result Tlv
read_from s = read_tlv (2 * length s + 1) s
