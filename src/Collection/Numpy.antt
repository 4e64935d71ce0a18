-- ===== src/Collection/Numpy.antt =====
-- What slice_db/collection/set.py uses of numpy, as a parameter with numpy's documented behaviour:
-- binary search from both sides in a sorted array, and sorting.
use slice_db.Prelude.{
  ℕ, suc, ◌+◌, ◌≤◌, ◌≡◌, refl, List, [], ◌∷◌, ◌++◌, All, length, ltb, leb, ◌==◌, if◌then◌else◌,
  arith,
}

abbrev pub IsSorted : List ℕ → Type 0
IsSorted [] = Unit
IsSorted (x ∷ xs) = All (λ y. x ≤ y) xs × IsSorted xs

-- How many of the numbers lie below `v`, at most at `v`, and at `v`.
unfoldable pub count_lt : ℕ → List ℕ → ℕ
count_lt v [] = 0
count_lt v (x ∷ xs) = if ltb x v then suc (count_lt v xs) else count_lt v xs

unfoldable pub count_le : ℕ → List ℕ → ℕ
count_le v [] = 0
count_le v (x ∷ xs) = if leb x v then suc (count_le v xs) else count_le v xs

unfoldable pub count : ℕ → List ℕ → ℕ
count v [] = 0
count v (x ∷ xs) = let n = count v xs in if x == v then suc n else n

pub record Numpy : Type 0 where
  pub searchsorted_left : List ℕ → ℕ → ℕ
  pub searchsorted_right : List ℕ → ℕ → ℕ
  pub sort : List ℕ → List ℕ

pub record IsNumpy (np : Numpy) : Type 0 where
  pub left : (a : List ℕ) (v : ℕ) → IsSorted a → np.searchsorted_left a v ≡ count_lt v a
  pub right : (a : List ℕ) (v : ℕ) → IsSorted a → np.searchsorted_right a v ≡ count_le v a
  pub sorted : (a : List ℕ) → IsSorted (np.sort a)
  pub same : (a : List ℕ) (v : ℕ) → count v (np.sort a) ≡ count v a
  pub size : (a : List ℕ) → length (np.sort a) ≡ length a

pub count-append : (v : ℕ) (xs ys : List ℕ) → count v (xs ++ ys) ≡ count v xs + count v ys
unfolding count
count-append v [] ys = omega arith
count-append v (x ∷ xs) ys = ground (arith, count-append v xs ys)

-- A numpy: insertion sort, and searching by counting.
unfoldable pub insert : ℕ → List ℕ → List ℕ
insert x [] = x ∷ []
insert x (y ∷ ys) = let rest = insert x ys in if leb x y then x ∷ y ∷ ys else y ∷ rest

unfoldable pub sort : List ℕ → List ℕ
unfolding insert
sort [] = []
sort (x ∷ xs) = insert x (sort xs)

abbrev pub counting : Numpy
counting = record {
  searchsorted_left = λ a v. count_lt v a;
  searchsorted_right = λ a v. count_le v a;
  sort = sort;
}

All-insert : (b x : ℕ) (xs : List ℕ) → b ≤ x → All (λ y. b ≤ y) xs → All (λ y. b ≤ y) (insert x xs)
unfolding insert
All-insert b x [] h hs = (h, tt)
All-insert b x (y ∷ ys) h hs = ground (arith, All-insert b x ys h hs.1)

All-weaken : (a b : ℕ) (xs : List ℕ) → a ≤ b → All (λ y. b ≤ y) xs → All (λ y. a ≤ y) xs
All-weaken a b [] h hs = tt
All-weaken a b (x ∷ xs) h hs = (omega arith, All-weaken a b xs h hs.1)

insert-IsSorted : (x : ℕ) (xs : List ℕ) → IsSorted xs → IsSorted (insert x xs)
unfolding insert
insert-IsSorted x [] s = (tt, tt)
insert-IsSorted x (y ∷ ys) s =
    ground (arith, insert-IsSorted x ys s.1, All-insert y x ys, All-weaken x y ys)

count-insert : (v x : ℕ) (xs : List ℕ) → count v (insert x xs) ≡ count v (x ∷ xs)
unfolding insert count
count-insert v x [] = refl
count-insert v x (y ∷ ys) = ground (arith, count-insert v x ys)

length-insert : (x : ℕ) (xs : List ℕ) → length (insert x xs) ≡ suc (length xs)
unfolding insert
length-insert x [] = refl
length-insert x (y ∷ ys) = ground (arith, length-insert x ys)

sort-IsSorted : (xs : List ℕ) → IsSorted (sort xs)
unfolding sort
sort-IsSorted [] = tt
sort-IsSorted (x ∷ xs) = insert-IsSorted x (sort xs) (sort-IsSorted xs)

count-sort : (xs : List ℕ) (v : ℕ) → count v (sort xs) ≡ count v xs
unfolding sort count
count-sort [] v = refl
count-sort (x ∷ xs) v = ground (arith, count-insert v x (sort xs), count-sort xs v)

length-sort : (xs : List ℕ) → length (sort xs) ≡ length xs
unfolding sort
length-sort [] = refl
length-sort (x ∷ xs) = omega (arith, length-insert x (sort xs), length-sort xs)

pub counting-IsNumpy : IsNumpy counting
counting-IsNumpy = record {
  left = λ a v s. refl;
  right = λ a v s. refl;
  sorted = sort-IsSorted;
  same = count-sort;
  size = length-sort;
}
