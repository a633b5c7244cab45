-- ===== src/Apdu/Transmitter/Card.antt =====
-- The card's side of STORE DATA: blocks put together again (apdu/transmitter.go: `Write`).
use euicc_go.Prelude.{
  ℕ, suc, ◌+◌, ◌%◌, ◌≤◌, ◌<◌, ◌≡◌, refl, Bool, false, ◌&&◌, Option, none, some, ◌>>=◌, List, [],
  ◌∷◌, ◌++◌, append-nil, Bytes, length, concat, All, if◌then◌else◌, ◌==◌, arith,
}
use euicc_go.Apdu.Request.Decode.{decode, decode-apdu}
use euicc_go.Apdu.Request.{Request, apdu}
use euicc_go.Apdu.Transmitter.Blocks.{Answered, direct, fetched, block_command, commands}
use euicc_go.Apdu.Transmitter.Fetch.{get_responses}

-- Block `i` of a command: numbered by P2, with P1 0x91 on the last and 0x11 on the others.
-- `none` is a sequence that the card does not take for a whole command.
abbrev last_block : ℕ → Request → Option Bytes
last_block i r = if (r.p2 == i) && (r.p1 == 0x91) then some r.payload else none

abbrev inner_block : ℕ → Request → Option Bytes → Option Bytes
inner_block i r none = none
inner_block i r (some rest) =
    if (r.p2 == i) && (r.p1 == 0x11) then some (r.payload ++ rest) else none

unfoldable pub reassemble : ℕ → List Bytes → Option Bytes
reassemble i [] = none
reassemble i (c ∷ []) = do r ← decode c; last_block i r
reassemble i (c ∷ c' ∷ cs) = do r ← decode c; inner_block i r (reassemble (suc i) (c' ∷ cs))

-- The commands whose instruction is STORE DATA.
abbrev is_store : Bytes → Bool
is_store (cla ∷ ins ∷ c) = ins == 0xe2
is_store _ = false

unfoldable pub stores : List Bytes → List Bytes
stores [] = []
stores (c ∷ cs) = if is_store c then c ∷ stores cs else stores cs

-- The blocks alone, without the commands that fetch responses.
abbrev pub blocks : ℕ → ℕ → ℕ → List Bytes → List Bytes
blocks cla chunks i [] = []
blocks cla chunks i (d ∷ ds) = block_command cla chunks i d ∷ blocks cla chunks ((i + 1) % 256) ds

stores-get_responses :
    (cla le : ℕ) (ps : List (Bytes × ℕ)) (cs : List Bytes)
    → stores (get_responses cla le ps ++ cs) ≡ stores cs
unfolding stores apdu
stores-get_responses cla le [] cs = refl
stores-get_responses cla le (p ∷ ps) cs = stores-get_responses cla p.1 ps cs

pub stores-commands :
    (cla chunks i : ℕ) (ds : List Bytes) (answers : List Answered)
    → length ds ≡ length answers
    → stores (commands cla chunks i ds answers) ≡ blocks cla chunks i ds
unfolding stores apdu
stores-commands cla chunks i [] [] h = refl
stores-commands cla chunks i [] (a ∷ answers) h = absurd (omega arith)
stores-commands cla chunks i (d ∷ ds) [] h = absurd (omega arith)
stores-commands cla chunks i (d ∷ ds) (direct e ∷ answers) h =
    rw (stores-commands cla chunks ((i + 1) % 256) ds answers (omega arith))
stores-commands cla chunks i (d ∷ ds) (fetched e le ps last ∷ answers) h = rw (
  stores-get_responses cla le ps (commands cla chunks ((i + 1) % 256) ds answers),
  stores-commands cla chunks ((i + 1) % 256) ds answers (omega arith),
)

abbrev block_request : ℕ → ℕ → ℕ → Bytes → Request
block_request cla chunks i d = record {
  cla = cla;
  ins = 0xe2;
  p1 = if i == chunks then 0x91 else 0x11;
  p2 = i;
  payload = d;
  le = none;
}

module _ (cla chunks : ℕ) (below : chunks < 256) where
  decode_block :
      (i : ℕ) (d : Bytes)
      → length d ≤ 255
      → decode (block_command cla chunks i d) ≡ some (block_request cla chunks i d)
  decode_block i d h = decode-apdu (block_request cla chunks i d) h

  last_block-blocks :
      (i j : ℕ) (d : Bytes)
      → i ≡ chunks
      → j ≡ i
      → last_block i (block_request cla chunks j d) ≡ some (d ++ [])
  last_block-blocks i j d h e = rw (append-nil d) (ground arith)

  inner_block-blocks :
      (i j : ℕ) (d rest : Bytes)
      → i < chunks
      → j ≡ i
      → inner_block i (block_request cla chunks j d) (some rest) ≡ some (d ++ rest)
  inner_block-blocks i j d rest h e = ground arith

  reassemble-blocks :
      (i j : ℕ) (d : Bytes) (ds : List Bytes)
      → i + length ds ≡ chunks
      → j ≡ i
      → All (λ d. length d ≤ 255) (d ∷ ds)
      → reassemble i (blocks cla chunks j (d ∷ ds)) ≡ some (concat (d ∷ ds))
  unfolding reassemble
  reassemble-blocks i j d [] e ej (h, hs) =
      rw (decode_block j d h) (last_block-blocks i j d (omega arith) ej)
  reassemble-blocks i j d (d' ∷ ds) e ej (h, hs) =
      rw
        (
          decode_block j d h,
          reassemble-blocks (suc i) ((j + 1) % 256) d' ds (omega arith) (omega arith) hs,
        )
        (inner_block-blocks i j d (d' ++ concat ds) (omega arith) ej)

  -- The mark of the last block never comes when the count of blocks is the number it compares with.
  reassemble-unmarked :
      (i j : ℕ) (d : Bytes) (ds : List Bytes)
      → suc i + length ds ≡ chunks
      → j ≡ i
      → All (λ d. length d ≤ 255) (d ∷ ds)
      → reassemble i (blocks cla chunks j (d ∷ ds)) ≡ none
  unfolding reassemble
  reassemble-unmarked i j d [] e ej (h, hs) = rw (decode_block j d h) (ground arith)
  reassemble-unmarked i j d (d' ∷ ds) e ej (h, hs) = rw (
    decode_block j d h,
    reassemble-unmarked (suc i) ((j + 1) % 256) d' ds (omega arith) (omega arith) hs,
  )

  pub reassemble-whole :
      (ds : List Bytes)
      → length ds ≡ suc chunks
      → All (λ d. length d ≤ 255) ds
      → reassemble 0 (blocks cla chunks 0 ds) ≡ some (concat ds)
  reassemble-whole [] e h = absurd (omega arith)
  reassemble-whole (d ∷ ds) e h = reassemble-blocks 0 0 d ds (omega arith) refl h

  pub reassemble-short :
      (ds : List Bytes)
      → length ds ≡ chunks
      → All (λ d. length d ≤ 255) ds
      → reassemble 0 (blocks cla chunks 0 ds) ≡ none
  unfolding reassemble
  reassemble-short [] e h = refl
  reassemble-short (d ∷ ds) e h = reassemble-unmarked 0 0 d ds (omega arith) refl h
