-- ===== src/Apdu/Transmitter/Chunks.antt =====
-- The chunks of a command: their bytes, their sizes and their number (apdu/transmitter.go: the
-- `slices.Chunk` of `Write`).
use euicc_go.Prelude.{
  ℕ, zero, suc, ◌+◌, ◌-◌, ◌*◌, ◌/◌, ◌%◌, ◌≤◌, ◌<◌, ◌≡◌, refl, [], ◌∷◌, Bytes, length, concat, drop,
  length-drop, length-take, take-append-drop, All, arith, ap,
}
use native.Mathlib.Nat.{div-add-mod'}
use euicc_go.Apdu.Transmitter.{chunk_loop, chunk}

chunk_loop_lem :
    (fuel size : ℕ) (bs : Bytes)
    → 0 < size
    → length bs ≤ fuel
    → concat (chunk_loop fuel size bs) ≡ bs
unfolding chunk_loop
chunk_loop_lem fuel size [] hs h = refl
chunk_loop_lem zero size (b ∷ bs) hs h = absurd (omega arith)
chunk_loop_lem (suc fuel) size (b ∷ bs) hs h =
    rw (chunk_loop_lem fuel size (drop size (b ∷ bs)) hs (omega (arith, length-drop size (b ∷ bs))))
      (take-append-drop size (b ∷ bs))

pub concat-chunk : (size : ℕ) (bs : Bytes) → 0 < size → concat (chunk size bs) ≡ bs
unfolding chunk
concat-chunk size bs h = chunk_loop_lem (length bs) size bs h (omega arith)

chunk_loop-All :
    (fuel size : ℕ) (bs : Bytes) → size ≤ 255 → All (λ d. length d ≤ 255) (chunk_loop fuel size bs)
unfolding chunk_loop
chunk_loop-All fuel size [] h = tt
chunk_loop-All zero size (b ∷ bs) h = tt
chunk_loop-All (suc fuel) size (b ∷ bs) h =
    (omega (arith, length-take size (b ∷ bs)), chunk_loop-All fuel size (drop size (b ∷ bs)) h)

length-chunk_loop_none :
    (fuel size : ℕ) (bs : Bytes) → length bs ≡ 0 → length (chunk_loop fuel size bs) ≡ 0
unfolding chunk_loop
length-chunk_loop_none fuel size [] h = refl
length-chunk_loop_none fuel size (b ∷ bs) h = absurd (omega arith)

length-chunk_loop :
    (q fuel size : ℕ) (bs : Bytes)
    → length bs ≤ fuel
    → q * size < length bs
    → length bs ≤ q * size + size
    → length (chunk_loop fuel size bs) ≡ suc q
unfolding chunk_loop
length-chunk_loop q fuel size [] hf h h' = absurd (omega arith)
length-chunk_loop q zero size (b ∷ bs) hf h h' = absurd (omega arith)
length-chunk_loop zero (suc fuel) size (b ∷ bs) hf h h' = ap suc (
    length-chunk_loop_none fuel size (drop size (b ∷ bs))
      (omega (arith, length-drop size (b ∷ bs))))
length-chunk_loop (suc q) (suc fuel) size (b ∷ bs) hf h h' =
    let m : suc q * size ≡ q * size + size = omega arith in
    let l : length (drop size (b ∷ bs)) ≡ suc (length bs) - size = length-drop size (b ∷ bs) in
    ap suc
      (length-chunk_loop q fuel size (drop size (b ∷ bs)) (omega arith) (omega arith) (omega arith))

module _ (size : ℕ) (bs : Bytes) where
  pub count_rounded_up :
      0 < size → 0 < length bs % size → length (chunk size bs) ≡ suc (length bs / size)
  unfolding chunk
  count_rounded_up hm hr =
      length-chunk_loop (length bs / size) (length bs) size bs (omega arith) (omega arith)
        (omega arith)

  multiple : (k : ℕ) → k ≡ length bs / size → length bs % size ≡ 0 → length bs ≡ k * size
  multiple k e hr =
      let p : k * size ≡ length bs / size * size = ap (λ c. c * size) e in
      omega (arith, div-add-mod' (length bs) size)

  pub count_exact :
      (k : ℕ) → k ≡ length bs / size → 0 < size → length bs % size ≡ 0 → length (chunk size bs) ≡ k
  unfolding chunk
  count_exact zero e hm hr =
      let l : length bs ≡ 0 * size = multiple 0 e hr in
      length-chunk_loop_none (length bs) size bs (omega arith)
  count_exact (suc q) e hm hr =
      let l : length bs ≡ suc q * size = multiple (suc q) e hr in
      let m : suc q * size ≡ q * size + size = omega arith in
      length-chunk_loop q (length bs) size bs (omega arith) (omega arith) (omega arith)

  pub chunk-All : size ≤ 255 → All (λ d. length d ≤ 255) (chunk size bs)
  unfolding chunk
  chunk-All h = chunk_loop-All (length bs) size bs h
