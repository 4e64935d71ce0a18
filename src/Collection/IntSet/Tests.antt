-- ===== src/Collection/IntSet/Tests.antt =====
-- Adding to a set with the numpy that counts.
use slice_db.Prelude.{ℕ, ◌<◌, ◌≡◌, List, [], ◌∷◌, arith}
use slice_db.Collection.Numpy.{IsSorted, count, counting, counting-IsNumpy}
use slice_db.Collection.IntSet.{IntSet, add}
use slice_db.Collection.IntSet.Laws.{missing, Grows, add_lem, IsDistinct, add-IsDistinct, add-add}

abbrev old : IntSet
old = record { array = 2 ∷ 5 ∷ [] }

abbrev items : List ℕ
items = 7 ∷ 2 ∷ []

old-IsSorted : IsSorted old.array
old-IsSorted = ((omega arith, tt), (tt, tt))

old-IsDistinct : IsDistinct old.array
unfolding count
old-IsDistinct v = ground arith

items-IsDistinct : IsDistinct items
unfolding count
items-IsDistinct v = ground arith

add_lem_example :
    ((add counting old items).1 ≡ missing old.array items)
    × Grows old (missing old.array items) (add counting old items).0
add_lem_example = add_lem counting-IsNumpy old old-IsSorted items

add-IsDistinct_example :
    IsDistinct (add counting old items).0.array
    × ((v : ℕ) → 0 < count v items → count v (add counting old items).0.array ≡ 1)
add-IsDistinct_example =
    add-IsDistinct counting-IsNumpy old items old-IsSorted old-IsDistinct items-IsDistinct

add-add_example : add counting (add counting old items).0 items ≡ ((add counting old items).0, [])
add-add_example = add-add counting-IsNumpy old items old-IsSorted
