-- ===== src/Scheduler/Chunks.antt =====
-- src/rwkv7_scheduler/scheduler.py: the lengths of prefill chunks, and the slices of a batch.
use rwkv_agent.Base.{
  ℕ, zero, suc, ◌+◌, ◌%◌, ◌≤◌, ◌<◌, ◌≡◌, refl, ◌∙◌, ap, ◌⊎◌, List, [], ◌∷◌, ◌++◌, length, take,
  drop, arith,
}
use rwkv_agent.Scheduler.Prefill.{chunk_length, batches_from, batches}

-- For a positive chunk size and tokens left, a chunk has a token, takes no more than there are, and ends at the next multiple of the chunk
-- size that the request has seen or before it: no chunk crosses a multiple. It
-- takes all there are, or ends at the multiple.
pub chunk_length-bounds :
    (quantum seen left : ℕ)
    → 0 < quantum
    → 0 < left
    → (0 < chunk_length quantum seen left)
      × (chunk_length quantum seen left ≤ left)
      × (seen % quantum + chunk_length quantum seen left ≤ quantum)
      × ((chunk_length quantum seen left ≡ left)
          ⊎ (seen % quantum + chunk_length quantum seen left ≡ quantum))
unfolding chunk_length
chunk_length-bounds quantum seen left q l = ground (arith)

-- The elements of the slices, in order.
unfoldable pub joined {ℓ} : {A : Type ℓ} → List (List A) → List A
joined [] = []
joined (b ∷ bs) = b ++ joined bs

-- Every slice has between one and `limit` elements.
unfoldable pub AllSized {ℓ} : {A : Type ℓ} → ℕ → List (List A) → Type 0
AllSized limit [] = Unit {0}
AllSized limit (b ∷ bs) = (0 < length b) × (length b ≤ limit) × AllSized limit bs

module _ {ℓ} {A : Type ℓ} where
  take-drop : (n : ℕ) (xs : List A) → take n xs ++ drop n xs ≡ xs
  take-drop zero xs = refl
  take-drop (suc n) [] = refl
  take-drop (suc n) (x ∷ xs) = ap (λ ys. x ∷ ys) (take-drop n xs)

  length-take : (n : ℕ) (xs : List A) → (length (take n xs) ≤ n) × (length (take n xs) ≤ length xs)
  length-take zero xs = omega arith
  length-take (suc n) [] = omega arith
  length-take (suc n) (x ∷ xs) = omega (arith, length-take n xs)

  length-drop : (n : ℕ) (xs : List A) → length (drop n xs) + n ≤ length xs + n
  length-drop zero xs = omega arith
  length-drop (suc n) [] = omega arith
  length-drop (suc n) (x ∷ xs) = omega (arith, length-drop n xs)

  batches_from-joined :
      (fuel limit : ℕ) (xs : List A)
      → 0 < limit
      → length xs ≤ fuel
      → (joined (batches_from fuel limit xs) ≡ xs) × AllSized limit (batches_from fuel limit xs)
  unfolding batches_from joined AllSized
  batches_from-joined zero limit [] p e = (refl, tt)
  batches_from-joined zero limit (x ∷ xs) p e = absurd (omega (arith, e))
  batches_from-joined (suc fuel) limit [] p e = (refl, tt)
  batches_from-joined (suc fuel) zero (x ∷ xs) p e = absurd (omega (arith, p))
  batches_from-joined (suc fuel) (suc limit) (x ∷ xs) p e =
      let (whole, sized) =
        batches_from-joined fuel (suc limit) (drop limit xs) p
          (omega (arith, e, length-drop limit xs)) in
      (
        ap (λ ys. x ∷ (take limit xs ++ ys)) whole ∙ ap (λ ys. x ∷ ys) (take-drop limit xs),
        (omega arith, omega (arith, length-take limit xs), sized),
      )

  -- The slices of `_batches` have every element once and in order, and each has between one and
  -- `limit` elements, if `limit` is not zero.
  pub batches-joined :
      (limit : ℕ) (xs : List A)
      → 0 < limit
      → (joined (batches limit xs) ≡ xs) × AllSized limit (batches limit xs)
  unfolding batches
  batches-joined limit xs p = batches_from-joined (length xs) limit xs p (omega arith)
