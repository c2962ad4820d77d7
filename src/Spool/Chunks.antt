-- ===== src/Spool/Chunks.antt =====
-- Cutting records into chunks loses none, and no chunk is too large (agent/offline_buffer.go,
-- `chunkSamples`; agent/spike_buffer.go, `chunkSpikes`).
use beacle.Prelude.{
  ℕ, suc, zero, ◌≤◌, List, [], ◌∷◌, ◌++◌, take, drop, length, All, length-take, length-drop,
  take-append-drop, if◌then◌else◌, arith, ◌≡◌, ◌∙◌, refl, ap, ◌==◌,
}
use beacle.Spool.{chunk_loop, chunks}

abbrev pub concat : {A : Type 0} → List (List A) → List A
concat [] = []
concat (xs ∷ xss) = xs ++ concat xss

module _ {A : Type 0} where
  concat-chunk_loop :
      (fuel size : ℕ) (xs : List A)
      → length xs ≤ fuel
      → 1 ≤ size
      → concat (chunk_loop fuel size xs) ≡ xs
  unfolding chunk_loop
  concat-chunk_loop fuel size [] h k = refl
  concat-chunk_loop zero size (x ∷ xs) h k = ground (arith, h)
  concat-chunk_loop (suc fuel) size (x ∷ xs) h k =
      ap (λ r. take size (x ∷ xs) ++ r)
        (concat-chunk_loop fuel size (drop size (x ∷ xs))
          (omega (arith, length-drop size (x ∷ xs), h, k)) k)
      ∙ take-append-drop size (x ∷ xs)

  sizes-chunk_loop :
      (fuel size : ℕ) (xs : List A)
      → 1 ≤ size
      → All (λ c. (1 ≤ length c) × (length c ≤ size)) (chunk_loop fuel size xs)
  unfolding chunk_loop
  sizes-chunk_loop fuel size [] k = tt
  sizes-chunk_loop zero size (x ∷ xs) k = tt
  sizes-chunk_loop (suc fuel) size (x ∷ xs) k = (
    (omega (arith, length-take size (x ∷ xs), k), omega (arith, length-take size (x ∷ xs))),
    sizes-chunk_loop fuel size (drop size (x ∷ xs)) k,
  )

  -- The loop that cuts records into chunks ends with all of them cut: the chunks hold every record,
  -- in order, and each has at least one record and at most the size that was asked for, or the
  -- usual one if that is 0.
  pub chunks_whole :
      (usual : ℕ) (xs : List A) (size : ℕ)
      → 1 ≤ usual
      → (concat (chunks usual xs size) ≡ xs)
        × All
            (λ c. (1 ≤ length c) × (length c ≤ (if size == 0 then usual else size)))
            (chunks usual xs size)
  unfolding chunks
  chunks_whole usual [] size k = (refl, tt)
  chunks_whole usual (x ∷ xs) size k = (
    concat-chunk_loop (length (x ∷ xs)) _ (x ∷ xs) (omega arith) (positive usual size k),
    sizes-chunk_loop (length (x ∷ xs)) _ (x ∷ xs) (positive usual size k),
  )
    where
      positive : (usual size : ℕ) → 1 ≤ usual → 1 ≤ (if size == 0 then usual else size)
      positive usual size k = ground (arith, k)
