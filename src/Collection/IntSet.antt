-- ===== src/Collection/IntSet.antt =====
-- slice_db/collection/set.py: a set of integers kept as a sorted array.
pub mod Laws
mod Tests
use slice_db.Prelude.{ℕ, List, [], ◌∷◌, ◌++◌, map, ◌==◌, if◌then◌else◌}
use slice_db.Collection.Numpy.{Numpy}

pub record IntSet : Type 0 where
  pub array : List ℕ

abbrev pub empty : IntSet
empty = record { array = [] }

-- [item for item, i, j in zip(items, left, right) if i == j]
unfoldable pub absent_items : List ℕ → List ℕ → List ℕ → List ℕ
absent_items (item ∷ items) (i ∷ left) (j ∷ right) =
    let rest = absent_items items left right in if i == j then item ∷ rest else rest
absent_items _ _ _ = []

-- The branch on `if items`. `resize` and the assignment to the last places put the items behind
-- the array. The method returns the new items, beside the set that it changes.
unfoldable pub add_new : Numpy → IntSet → List ℕ → IntSet × List ℕ
add_new np s [] = (s, [])
add_new np s (x ∷ xs) = (record { array = np.sort (s.array ++ (x ∷ xs)) }, x ∷ xs)

unfoldable pub add : Numpy → IntSet → List ℕ → IntSet × List ℕ
unfolding absent_items add_new
add np s items =
    let left = map (np.searchsorted_left s.array) items in
    let right = map (np.searchsorted_right s.array) items in
    add_new np s (absent_items items left right)
