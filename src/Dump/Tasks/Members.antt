-- ===== src/Dump/Tasks/Members.antt =====
-- Membership in chunks, in sorted lists of references, and in what is new.
use mathlib.Core.List.{Memᴰ}
use mathlib.Core.List.Memᴰ
use slice_db.Prelude.{
  ℕ, ◌≤◌, ◌<◌, refl, ap, inl, inr, List, [], ◌∷◌, concat, All, All-map, Bool-cases, arith, ◌==◌,
}
use slice_db.Prelude.Int.{ℤ, leb_ℤ}
use slice_db.Collection.Numpy.{count, count-append}
use slice_db.Collection.IntSet.Laws.{missing, count-missing}
use slice_db.Dump.Tasks.{chunks, max_size, insert_by, sorted_by}
use slice_db.Dump.Tasks.Chunks.{chunks_lem}

-- Row `v` is among the rows.
abbrev pub Has : List ℕ → ℕ → Type 0
Has ids v = 0 < count v ids

count-concat : (cs : List (List ℕ)) → All (λ c. (v : ℕ) → count v c ≤ count v (concat cs)) cs
count-concat [] = tt
count-concat (c ∷ cs) = (
  λ v. omega (arith, count-append v c (concat cs)),
  All-map _ _ cs (λ d h v. omega (arith, h v, count-append v c (concat cs))) (count-concat cs),
)

-- A row of a chunk is a row that was found.
pub Has-chunk :
    (found : List ℕ) → All (λ c. (v : ℕ) → Has c v → Has found v) (chunks max_size found)
Has-chunk found =
    let e = (chunks_lem found).0 in
    All-map _ _ (chunks max_size found) (λ c h v m. omega (arith, h v, ap (count v) e))
      (count-concat (chunks max_size found))

Has-concat {ℓ} :
    (Q : ℕ → Type ℓ) (cs : List (List ℕ)) (v : ℕ)
    → All (λ c. (w : ℕ) → Has c w → Q w) cs
    → Has (concat cs) v
    → Q v
unfolding count
Has-concat Q [] v h m = absurd (omega arith)
Has-concat Q (c ∷ cs) v h m = elim (Bool-cases (count v c == 0)) [
  | inl e ↦ Has-concat Q cs v h.1 (ground (arith, count-append v c (concat cs)))
  | inr e ↦ h.0 v (ground arith)
]

-- What holds of the rows of every chunk holds of every row that was found.
pub Has-found {ℓ} :
    (Q : ℕ → Type ℓ) (found : List ℕ) (v : ℕ)
    → All (λ c. (w : ℕ) → Has c w → Q w) (chunks max_size found)
    → Has found v
    → Q v
Has-found Q found v h m =
    let e = (chunks_lem found).0 in
    Has-concat Q (chunks max_size found) v h (omega (arith, ap (count v) e))

pub Has-missing : (a ids : List ℕ) (v : ℕ) → Has (missing a ids) v → Has ids v
Has-missing a ids v h = ground (arith, count-missing a ids v)

module _ {ℓ} {A : Type ℓ} (key : A → ℤ) where
  mem-insert_by :
      (x y : A) (xs : List A)
      → (Memᴰ y (insert_by key x xs) → Memᴰ y (x ∷ xs))
        × (Memᴰ y (x ∷ xs) → Memᴰ y (insert_by key x xs))
  unfolding insert_by
  mem-insert_by x y [] = (λ m. m, λ m. m)
  mem-insert_by x y (z ∷ zs) = elim (Bool-cases (leb_ℤ (key x) (key z))) [
    | inl e ↦ rw e (λ m. m, λ m. m)
    | inr e ↦ rw e (
      λ m. elim (Memᴰ.cases_cons m) [
        | inl h ↦ Memᴰ.tail (Memᴰ.head h)
        | inr h ↦ elim (Memᴰ.cases_cons ((mem-insert_by x y zs).0 h)) [
          | inl k ↦ Memᴰ.head k
          | inr k ↦ Memᴰ.tail (Memᴰ.tail k)
        ]
      ],
      λ m. elim (Memᴰ.cases_cons m) [
        | inl h ↦ Memᴰ.tail ((mem-insert_by x y zs).1 (Memᴰ.head h))
        | inr h ↦ elim (Memᴰ.cases_cons h) [
          | inl k ↦ Memᴰ.head k
          | inr k ↦ Memᴰ.tail ((mem-insert_by x y zs).1 (Memᴰ.tail k))
        ]
      ],
    )
  ]

  -- Sorting keeps the members.
  pub mem-sorted_by :
      (y : A) (xs : List A)
      → (Memᴰ y (sorted_by key xs) → Memᴰ y xs) × (Memᴰ y xs → Memᴰ y (sorted_by key xs))
  unfolding sorted_by
  mem-sorted_by y [] = (λ m. m, λ m. m)
  mem-sorted_by y (x ∷ xs) = (
    λ m. elim (Memᴰ.cases_cons ((mem-insert_by x y (sorted_by key xs)).0 m)) [
      | inl h ↦ Memᴰ.head h
      | inr h ↦ Memᴰ.tail ((mem-sorted_by y xs).0 h)
    ],
    λ m. (mem-insert_by x y (sorted_by key xs)).1 (elim (Memᴰ.cases_cons m) [
      | inl h ↦ Memᴰ.head h
      | inr h ↦ Memᴰ.tail ((mem-sorted_by y xs).1 h)
    ]),
  )

pub All-mem {ℓ κ} :
    {A : Type ℓ} (P : A → Type κ) (xs : List A) → ((x : A) → Memᴰ x xs → P x) → All P xs
All-mem P [] h = tt
All-mem P (x ∷ xs) h = (h x (Memᴰ.head refl), All-mem P xs (λ y m. h y (Memᴰ.tail m)))

pub mem-All {ℓ κ} : {A : Type ℓ} (P : A → Type κ) (x : A) (xs : List A) → All P xs → Memᴰ x xs → P x
mem-All P x [] h m = absurd (Memᴰ.not-nil m)
mem-All P x (y ∷ ys) h m = elim (Memᴰ.cases_cons m) [
  | inl e ↦ rw e h.0
  | inr k ↦ mem-All P x ys h.1 k
]
