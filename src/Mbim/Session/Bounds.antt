-- ===== src/Mbim/Session/Bounds.antt =====
-- What a session asks of the modem (driver/mbim/mbim.go).
use euicc_go.Prelude.{
  ℕ, zero, suc, ◌+◌, ◌%◌, ◌^◌, ◌≤◌, ◌≡◌, refl, ◌⊎◌, inl, inr, Bool-cases, Option, none, some, List,
  [], ◌∷◌, ◌==◌, arith,
}
use euicc_go.Prelude.Action.{Result, ok, err, Result-cases}
use euicc_go.Mbim.Session.{
  SessionError, Modem, Session, request, current_activated_slot, activate_slot, wait_loop,
  wait_for_slot_activation, ensure_slot_activated, configure_proxy, open_device, connect_steps,
  deferred, connect, is_available, end_of_file,
}

-- What a modem was asked: a request with its transaction id, or to close the connection.
pub data Contact : Type 0 where
  requested : ℕ → Contact
  close_called : Contact

-- A modem that keeps account of it, the newest first.
abbrev pub Account : Type 0 → Type 0
Account W = W × List Contact

abbrev logged : {A W : Type 0} → Contact → (W → A × W) → Account W → A × Account W
logged c f (w, contacts) = let (a, w') = f w in (a, (w', c ∷ contacts))

abbrev pub recorded : {W : Type 0} → Modem W → Modem (Account W)
recorded modem = record {
  proxy_config = λ txn device. logged (requested txn) (modem.proxy_config txn device);
  open_device = λ txn. logged (requested txn) (modem.open_device txn);
  slot_mappings = λ txn. logged (requested txn) (modem.slot_mappings txn);
  map_slot = λ txn slot. logged (requested txn) (modem.map_slot txn slot);
  ready_state = λ txn. logged (requested txn) (modem.ready_state txn);
  open_channel = λ txn aid. logged (requested txn) (modem.open_channel txn aid);
  transmit = λ txn channel command. logged (requested txn) (modem.transmit txn channel command);
  close_channel = λ txn channel. logged (requested txn) (modem.close_channel txn channel);
  close_device = λ txn. logged (requested txn) (modem.close_device txn);
  close = logged close_called modem.close;
}

-- So many requests with consecutive ids modulo 2^32 after the given id, up to an id.
pub data Consecutive (id : ℕ) (contacts : List Contact) : ℕ → ℕ → List Contact → Type 0 where
  no_request : Consecutive id contacts 0 id contacts
  one_more :
      (n last : ℕ) (later : List Contact)
      → Consecutive id contacts n last later
      → Consecutive id contacts
          (n + 1)
          ((last + 1) % 2 ^ 32)
          (requested ((last + 1) % 2 ^ 32) ∷ later)

module _ {W : Type 0} (modem : Modem W) where
  -- At most `k` requests were made with consecutive ids, and the connection was not closed.
  record Made (k : ℕ) (s s' : Session (Account W)) : Type 0 where
    count : ℕ
    few : count ≤ k
    ids : Consecutive s.txn_id s.world.1 count s'.txn_id s'.world.1

  weaker : {k m : ℕ} {s s' : Session (Account W)} → Made k s s' → k ≤ m → Made m s s'
  weaker made h = record { count = made.count; few = omega (arith, made.few, h); ids = made.ids }

  -- A request after those made.
  asked :
      {k : ℕ} {s₀ s : Session (Account W)} {w : W}
      → Made k s₀ s
      → let txn = (s.txn_id + 1) % 2 ^ 32 in
        Made (k + 1) s₀ (record s { txn_id = txn; world = (w, requested txn ∷ s.world.1) })
  asked {s₀} made = record {
    count = made.count + 1;
    few = omega (arith, made.few);
    ids = one_more made.count _ _ made.ids;
  }

  wait_loop-Made :
      (n k : ℕ) (e : Option SessionError) (seen : Option ℕ) (s₀ s : Session (Account W))
      → Made k s₀ s
      → Made (k + n) s₀ (wait_loop (recorded modem) n e seen s).1
  unfolding wait_loop
  wait_loop-Made zero k e seen s₀ s made = weaker made (omega arith)
  wait_loop-Made (suc n) k e seen s₀ s made =
      let answer = request (recorded modem) (recorded modem).ready_state s in
      elim (Result-cases answer.0) [
        | inl (state, r) ↦ elim (Bool-cases (is_available state)) [
          | inl b ↦ rw (r, wait_loop, b) (weaker (asked made) (omega arith))
          | inr b ↦
              rw (r, wait_loop, b)
                (weaker (wait_loop-Made n (k + 1) none (some state) s₀ answer.1 (asked made))
                  (omega arith))
        ]
        | inr (e', r) ↦
            rw (r, wait_loop)
              (weaker (wait_loop-Made n (k + 1) (some e') seen s₀ answer.1 (asked made))
                (omega arith))
      ]

  ensure_slot_activated-Made :
      (k : ℕ) (s₀ s : Session (Account W))
      → Made k s₀ s
      → Made (k + 12) s₀ (ensure_slot_activated (recorded modem) s).1
  unfolding ensure_slot_activated current_activated_slot activate_slot wait_for_slot_activation
  ensure_slot_activated-Made k s₀ s made =
      let first = request (recorded modem) (recorded modem).slot_mappings s in
      let s' = first.1 in
      let second = request (recorded modem) (λ txn. (recorded modem).map_slot txn s'.slot) s' in
      let one : Made (k + 1) s₀ s' = asked made in
      let two : Made (k + 2) s₀ second.1 = weaker (asked one) (omega arith) in
      elim (Result-cases first.0) [
        | inr (e, r) ↦ rw r (weaker (asked made) (omega arith))
        | inl ([], r) ↦ rw r (weaker (asked made) (omega arith))
        | inl (slot ∷ slots, r) ↦ elim (Bool-cases (slot % 2 ^ 8 == s'.slot)) [
          | inl b ↦ rw (r, b) (weaker (asked made) (omega arith))
          | inr b ↦ elim (Result-cases second.0) [
            | inr (e, r') ↦ rw (r, b, r') (weaker two (omega arith))
            | inl (a, r') ↦
                rw (r, b, r')
                  (weaker (wait_loop-Made 10 (k + 2) none none s₀ second.1 two) (omega arith))
          ]
        ]
      ]

  connect_steps-Made : (s : Session (Account W)) → Made 14 s (connect_steps (recorded modem) s).1
  unfolding connect_steps configure_proxy open_device
  connect_steps-Made s =
      let start : Made 0 s s = record { count = 0; few = omega arith; ids = no_request } in
      let first = request (recorded modem) (λ txn. (recorded modem).proxy_config txn s.device) s in
      let s' = first.1 in
      let second = request (recorded modem) (recorded modem).open_device s' in
      let one : Made 1 s s' = weaker (asked start) (omega arith) in
      let two : Made 2 s second.1 = weaker (asked one) (omega arith) in
      elim (Result-cases first.0) [
        | inr (end_of_file, r) ↦ rw r (weaker one (omega arith))
        | inr (e, r) ↦ rw r (weaker one (omega arith))
        | inl (a, r) ↦ elim (Result-cases second.0) [
          | inr (e, r') ↦ rw (r, r') (weaker two (omega arith))
          | inl (b, r') ↦ rw (r, r') (ensure_slot_activated-Made 2 s second.1 two)
        ]
      ]

  -- The requests that were made, and whether the connection was closed after them.
  abbrev pub Connected :
      Session (Account W) → Result SessionError (Unit {0}) × Session (Account W) → Type 0
  Connected s p =
      (n : ℕ) × (last : ℕ) × (asked : List Contact) × (n ≤ 14)
      × Consecutive s.txn_id s.world.1 n last asked
      × (((p.0 ≡ ok tt) × (p.1.world.1 ≡ asked))
          ⊎ ((e : SessionError) × (p.0 ≡ err e) × (p.1.world.1 ≡ close_called ∷ asked)))

  deferred-Connected :
      (s : Session (Account W)) (p : Result SessionError (Unit {0}) × Session (Account W))
      → Made 14 s p.1
      → Connected s (deferred (recorded modem) p)
  deferred-Connected s (ok _, t) made =
      (made.count, t.txn_id, t.world.1, made.few, made.ids, inl (refl, refl))
  deferred-Connected s (err e, t) made =
      (made.count, t.txn_id, t.world.1, made.few, made.ids, inr (_, refl, refl))

  -- What a modem gets from Connect, whatever it answers: at most fourteen requests, the first with the
  -- transaction id after the session's, each other one with the id after that of the one before, modulo
  -- 2^32; then, exactly where Connect returns an error, one call that closes the connection.
  pub connect-bounded : (s : Session (Account W)) → Connected s (connect (recorded modem) s)
  unfolding connect
  connect-bounded s = deferred-Connected s (connect_steps (recorded modem) s) (connect_steps-Made s)
