-- ===== src/Collection/IntSet/Laws.antt =====
-- What `IntSet.add` returns, and what it keeps.
use slice_db.Prelude.{
  ℕ, ◌+◌, ◌≤◌, ◌<◌, ◌≡◌, refl, ◌∙◌, List, [], ◌∷◌, ◌++◌, map, length, length-append, ◌==◌,
  if◌then◌else◌, Bool-cases, inl, inr, arith,
}
use slice_db.Collection.Numpy.{IsSorted, count_lt, count_le, count, Numpy, IsNumpy, count-append}
use slice_db.Collection.IntSet.{IntSet, absent_items, add_new, add}

-- The items that are not in the array, in their order.
unfoldable pub missing : List ℕ → List ℕ → List ℕ
missing a [] = []
missing a (x ∷ xs) = let rest = missing a xs in if count x a == 0 then x ∷ rest else rest

count_le-eq : (v : ℕ) (a : List ℕ) → count_le v a ≡ count_lt v a + count v a
unfolding count_le count_lt count
count_le-eq v [] = refl
count_le-eq v (x ∷ a) = ground (arith, count_le-eq v a)

module _ {np : Numpy} (laws : IsNumpy np) (s : IntSet) (sorted : IsSorted s.array) where
  absent_items-eq :
      (items : List ℕ)
      → absent_items items
          (map (np.searchsorted_left s.array) items)
          (map (np.searchsorted_right s.array) items)
        ≡ missing s.array items
  unfolding absent_items missing
  absent_items-eq [] = refl
  absent_items-eq (x ∷ items) = ground (
    arith,
    laws.left s.array x sorted,
    laws.right s.array x sorted,
    count_le-eq x s.array,
    absent_items-eq items,
  )

-- What a set holds after `new` came to it.
pub record Grows (s : IntSet) (new : List ℕ) (t : IntSet) : Type 0 where
  pub sorted : IsSorted t.array
  pub counts : (v : ℕ) → count v t.array ≡ count v s.array + count v new
  pub size : length t.array ≡ length s.array + length new

module _ {np : Numpy} (laws : IsNumpy np) (s : IntSet) (sorted : IsSorted s.array) where
  add_new-Grows : (new : List ℕ) → ((add_new np s new).1 ≡ new) × Grows s new (add_new np s new).0
  unfolding add_new count
  add_new-Grows [] =
      (refl, record { sorted = sorted; counts = λ v. omega arith; size = omega arith })
  add_new-Grows (x ∷ xs) =
      let all = s.array ++ (x ∷ xs) in
      (
        refl,
        record {
          sorted = laws.sorted all;
          counts = λ v. laws.same all v ∙ count-append v s.array (x ∷ xs);
          size = laws.size all ∙ length-append s.array (x ∷ xs);
        },
      )

  -- `add` on a sorted array returns the items that were not in the set, in their order and as often
  -- as they were given; the array stays sorted, and holds the old numbers and the returned ones,
  -- each as often as both together.
  pub add_lem :
      (items : List ℕ)
      → ((add np s items).1 ≡ missing s.array items)
        × Grows s (missing s.array items) (add np s items).0
  unfolding add
  add_lem items = rw (absent_items-eq laws s sorted items) (add_new-Grows (missing s.array items))

pub count-missing :
    (a items : List ℕ) (v : ℕ)
    → count v (missing a items) ≡ (if count v a == 0 then count v items else 0)
unfolding count missing
count-missing a [] v = ground arith
count-missing a (x ∷ items) v = elim (Bool-cases (x == v)) [
  | inl e ↦ let same : x ≡ v = ground arith in rw same (ground (arith, count-missing a items v))
  | inr ne ↦ ground (arith, count-missing a items v)
]

-- Every number at most once.
abbrev pub IsDistinct : List ℕ → Type 0
IsDistinct a = (v : ℕ) → count v a ≤ 1

-- Adding to a set items that are themselves distinct leaves every number in it at most once, and
-- every item in it exactly once.
pub add-IsDistinct :
    {np : Numpy} (laws : IsNumpy np) (s : IntSet) (items : List ℕ)
    → IsSorted s.array
    → IsDistinct s.array
    → IsDistinct items
    → IsDistinct (add np s items).0.array
      × ((v : ℕ) → 0 < count v items → count v (add np s items).0.array ≡ 1)
add-IsDistinct laws s items sorted one distinct =
    let (_, grows) = add_lem laws s sorted items in
    (
      λ v. ground (arith, grows.counts v, count-missing s.array items v, one v, distinct v),
      λ v h. ground (arith, grows.counts v, count-missing s.array items v, one v, distinct v),
    )

missing-none :
    (a items : List ℕ) → ((v : ℕ) → 0 < count v items → 0 < count v a) → missing a items ≡ []
unfolding missing count
missing-none a [] h = refl
missing-none a (x ∷ items) h = ground (arith, h x, missing-none a items (λ v p. h v (ground arith)))

-- The same items added again: none is new, and the set stays as it is.
pub add-add :
    {np : Numpy} (laws : IsNumpy np) (s : IntSet) (items : List ℕ)
    → IsSorted s.array
    → add np (add np s items).0 items ≡ ((add np s items).0, [])
add-add {np} laws s items sorted =
    let (_, grows) = add_lem laws s sorted items in
    let t = (add np s items).0 in
    let none_new : missing t.array items ≡ [] =
      missing-none t.array items
        (λ v h. ground (arith, grows.counts v, count-missing s.array items v)) in
    (unfold add in
      rw (absent_items-eq laws t grows.sorted items, none_new) (unfold add_new in refl))
