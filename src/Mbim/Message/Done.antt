-- ===== src/Mbim/Message/Done.antt =====
-- What is decoded from a message that answers a command (driver/mbim/types.go).
use euicc_go.Prelude.{
  ℕ, zero, suc, ◌+◌, ◌-◌, ◌%◌, ◌^◌, ◌<◌, ◌≡◌, false, true, [], ◌∷◌, ◌++◌, Bytes, length, arith,
  le→ltb, leb, ltb, ◌==◌, take-length, drop,
}
use euicc_go.Mbim.Words.{ok, ◌>>=◌, put_uint32, put_uint32_lem}
use euicc_go.Mbim.Message.{Decoder, decoded, message, unmarshal_command_done, unmarshal_response}

-- A property of all lists of a length, stated of their elements.
abbrev Elementwise : ℕ → (Bytes → Type 0) → Type 0
Elementwise zero P = P []
Elementwise (suc n) P = (b : ℕ) → Elementwise n (λ s. P (b ∷ s))

elementwise : (n : ℕ) (P : Bytes → Type 0) → Elementwise n P → (s : Bytes) → length s ≡ n → P s
elementwise zero P h [] e = h
elementwise zero P h (b ∷ s) e = absurd (omega arith)
elementwise (suc n) P h [] e = absurd (omega arith)
elementwise (suc n) P h (b ∷ s) e = elementwise n (λ t. P (b ∷ t)) (h b) s (omega arith)

-- The message that a command was done, with its buffer.
abbrev pub command_done : ℕ → Bytes → ℕ → Bytes → Bytes
command_done transaction_id service_id command_id buffer = message 0x80000003 transaction_id (
    put_uint32 1
    ++ (put_uint32 0
        ++ (service_id
            ++ (put_uint32 command_id
                ++ (put_uint32 0 ++ (put_uint32 (length buffer) ++ buffer))))))

module _ {A : Type 0} (decoder : Decoder A) (transaction_id command_id : ℕ) (buffer : Bytes)
    (transaction_id_short : transaction_id < 2 ^ 32) (command_id_short : command_id < 2 ^ 32)
    (short : 48 + length buffer < 2 ^ 32) where
  abbrev pub DecodesTo : Bytes → Type 0
  DecodesTo service_id =
      unmarshal_response decoder (command_done transaction_id service_id command_id buffer) ≡ (do
        a ← decoded decoder buffer
        ok (record {
          message_type = 0x80000003;
          message_length = 48 + length buffer;
          transaction_id = transaction_id;
          fragment_total = 1;
          fragment_current = 0;
          service_id = service_id;
          command_id = command_id;
          status = 0;
          response_length = length buffer;
          response_buffer = buffer;
          response = a;
        }))

  pub unmarshal_response-command_done :
      (service_id : Bytes) → length service_id ≡ 16 → DecodesTo service_id
  unfolding unmarshal_response unmarshal_command_done
  unmarshal_response-command_done =
      elementwise 16 DecodesTo λ b₀ b₁ b₂ b₃ b₄ b₅ b₆ b₇ b₈ b₉ c₀ c₁ c₂ c₃ c₄ c₅.
        let s =
          command_done transaction_id
            (b₀ ∷ b₁ ∷ b₂ ∷ b₃ ∷ b₄ ∷ b₅ ∷ b₆ ∷ b₇ ∷ b₈ ∷ b₉ ∷ c₀ ∷ c₁ ∷ c₂ ∷ c₃ ∷ c₄ ∷ c₅ ∷ [])
            command_id buffer in
        let len = 12 + length (drop 12 s) in
        let total : len ≡ 48 + length buffer = omega arith in
        let same : ((48 + length buffer) == (length s % 2 ^ 32)) ≡ true = ground arith in
        let long : ltb (length s) 12 ≡ false = le→ltb _ _ (omega arith) in
        let long_enough : ltb (length s) 48 ≡ false = le→ltb _ _ (omega arith) in
        let service_inside : leb 36 (length s) ≡ true = ground arith in
        let inside : ltb ((length s - 48) % 2 ^ 32) (length buffer) ≡ false = ground arith in
        let end : (48 + length buffer) % 2 ^ 32 ≡ 48 + length buffer = omega arith in
        let after : leb 48 (48 + length buffer) ≡ true = ground arith in
        let within : leb (48 + length buffer) (length s) ≡ true = ground arith in
        let rest : 48 + length buffer - 48 ≡ length buffer = omega arith in
        rw (
          long,
          total,
          put_uint32_lem (48 + length buffer) short,
          same,
          put_uint32_lem transaction_id transaction_id_short,
          long_enough,
          service_inside,
          put_uint32_lem command_id command_id_short,
          put_uint32_lem (length buffer) (omega arith),
          inside,
          end,
          after,
          within,
          rest,
          take-length buffer,
        )
