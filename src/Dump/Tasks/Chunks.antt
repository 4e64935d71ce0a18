-- ===== src/Dump/Tasks/Chunks.antt =====
-- The cut of what a query found into segments of bounded size.
mod Tests
use slice_db.Prelude.{
  ℕ, zero, suc, ◌+◌, ◌-◌, ◌*◌, ◌/◌, ◌≤◌, ◌<◌, ◌≡◌, ap, ◌∙◌, List, ◌++◌, map, concat, slice, take,
  drop, length, All, drop-add, take-add, take_all, length-take, length-drop, arith,
}
use slice_db.Dump.Tasks.{range_step, chunks, max_size}

module _ {ℓ} {A : Type ℓ} (size : ℕ) (found : List A) where
  cut : ℕ → ℕ → List (List A)
  cut n start = map (λ i. slice found i (i + size)) (range_step n start size)

  concat-cut : (n start : ℕ) → concat (cut n start) ≡ take (n * size) (drop start found)
  unfolding cut
  concat-cut zero start = let e : 0 * size ≡ 0 = omega arith in rw e
  concat-cut (suc n) start =
      let e : start + size - start ≡ size = omega arith in
      let m : suc n * size ≡ size + n * size = grind arith in
      rw (e, m, concat-cut n (start + size), take-add size (n * size) (drop start found))
        (ap (λ t. take size (drop start found) ++ take (n * size) t) (drop-add start size found))

  cut_sizes :
      (n start : ℕ)
      → 0 < size
      → start + n * size < length found + size
      → All (λ c. (0 < length c) × (length c ≤ size)) (cut n start)
  unfolding cut
  cut_sizes zero start p h = tt
  cut_sizes (suc n) start p h =
      let m : suc n * size ≡ size + n * size = grind arith in
      let e : start + size - start ≡ size = omega arith in
      let long = length-take size (drop start found) in
      let rest = length-drop start found in
      (
        (rw e (omega (arith, long, rest)), rw e (omega (arith, long))),
        cut_sizes n (start + size) p (omega arith),
      )

pub chunks_lem :
    (found : List ℕ)
    → (concat (chunks max_size found) ≡ found)
      × All (λ c. (0 < length c) × (length c ≤ max_size)) (chunks max_size found)
unfolding chunks cut
chunks_lem found =
    let n = (length found + (max_size - 1)) / max_size in
    (
      concat-cut max_size found n 0 ∙ take_all (n * max_size) found (omega arith),
      cut_sizes max_size found n 0 (omega arith) (omega arith),
    )
