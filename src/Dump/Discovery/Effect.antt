-- ===== src/Dump/Discovery/Effect.antt =====
-- What `_DiscoveryResult.add` changes, and what it keeps.
use slice_db.Prelude.{
  ℕ, ◌+◌, ◌≡◌, refl, ap, ◌∙◌, ◌↔◌, Str, List, [], ◌∷◌, ◌++◌, Option, none, some, length, arith,
  if◌then◌else◌, str_eq, str_eq_iff,
}
use slice_db.Prelude.Dict.{Dict, get, put, get-put}
use slice_db.Collection.Numpy.{Numpy, IsNumpy, IsSorted, count}
use slice_db.Collection.IntSet.{IntSet, empty}
use slice_db.Collection.IntSet
use slice_db.Collection.IntSet.Laws.{missing, add_lem, Grows}
use slice_db.Formats.{ManifestTableSegment}
use slice_db.Dump.Schema.{Table}
use slice_db.Dump.Discovery.{
  TableSegment, DiscoveryResult, fresh, ids_of, manifest_of, add_segment, add,
}

-- The row IDs that are known of a table.
abbrev pub rows : DiscoveryResult → Str → List ℕ
rows r id = (ids_of r id).array

abbrev pub sum_counts : List ManifestTableSegment → ℕ
sum_counts [] = 0
sum_counts (s ∷ ss) = s.row_count + sum_counts ss

-- The rows that the manifest promises for a table.
abbrev pub manifest_rows : DiscoveryResult → Str → ℕ
manifest_rows r id = elim (get r.table_manifests id) [ none ↦ 0 | some m ↦ sum_counts m.segments ]

abbrev pub total_rows : Dict IntSet → ℕ
total_rows [] = 0
total_rows ((id, s) ∷ d) = length s.array + total_rows d

abbrev pub set_of : Dict IntSet → Str → IntSet
set_of d id = elim (get d id) [ none ↦ empty | some s ↦ s ]

-- The result's parts agree: arrays are sorted, the manifest promises for each table as many rows as
-- are known, a table is in the manifest exactly when it has a row, and `row_count` is the sum.
pub record IsConsistent (r : DiscoveryResult) : Type 0 where
  pub sorted : (id : Str) → IsSorted (rows r id)
  pub promised : (id : Str) → manifest_rows r id ≡ length (rows r id)
  pub listed : (id : Str) → (get r.table_manifests id ≡ none) ↔ (length (rows r id) ≡ 0)
  pub total : r.id_count ≡ total_rows r.row_ids

pub fresh-IsConsistent : IsConsistent fresh
unfolding get
fresh-IsConsistent = record {
  sorted = λ id. tt;
  promised = λ id. refl;
  listed = λ id. (λ _. refl, λ _. refl);
  total = refl;
}

total_rows-put :
    (d : Dict IntSet) (k : Str) (s : IntSet)
    → total_rows (put d k s) + length (set_of d k).array ≡ total_rows d + length s.array
unfolding get put
total_rows-put [] k s = omega arith
total_rows-put ((j, t) ∷ d) k s = ground (arith, total_rows-put d k s)

pub sum_counts-append :
    (xs ys : List ManifestTableSegment) → sum_counts (xs ++ ys) ≡ sum_counts xs + sum_counts ys
sum_counts-append [] ys = omega arith
sum_counts-append (x ∷ xs) ys = omega (arith, sum_counts-append xs ys)

set_of-put :
    (d : Dict IntSet) (k j : Str) (s : IntSet)
    → (set_of (put d k s) j).array ≡ (if str_eq k j then s.array else (set_of d j).array)
set_of-put d k j s = ground (arith, get-put d k j s)

-- The rows of a segment, if there is one.
abbrev pub segment_rows : Option TableSegment → List ℕ
segment_rows none = []
segment_rows (some s) = s.row_ids

abbrev pub IsOf : Table → Option TableSegment → Type 0
IsOf t none = Unit
IsOf t (some s) = s.table ≡ t

module _ (r : DiscoveryResult) (t : Table) where
  add_segment-row_ids : (new : List ℕ) → (add_segment r t new).0.row_ids ≡ r.row_ids
  unfolding add_segment
  add_segment-row_ids [] = refl
  add_segment-row_ids (x ∷ xs) = refl

  add_segment-rows :
      (new : List ℕ) → (segment_rows (add_segment r t new).1 ≡ new) × IsOf t (add_segment r t new).1
  unfolding add_segment
  add_segment-rows [] = (refl, tt)
  add_segment-rows (x ∷ xs) = (refl, refl)

  add_segment-id_count : (new : List ℕ) → (add_segment r t new).0.id_count ≡ r.id_count + length new
  unfolding add_segment
  add_segment-id_count [] = omega arith
  add_segment-id_count (x ∷ xs) = refl

  add_segment-manifest_rows :
      (new : List ℕ) (j : Str)
      → manifest_rows (add_segment r t new).0 j
        ≡ manifest_rows r j + (if str_eq t.id j then length new else 0)
  unfolding add_segment
  add_segment-manifest_rows [] j = ground arith
  add_segment-manifest_rows (x ∷ xs) j =
      let m = manifest_of r t in
      let last : ManifestTableSegment = record { row_count = length (x ∷ xs) } in
      ground (
        arith,
        get-put r.table_manifests t.id j (record m { segments = m.segments ++ last ∷ [] }),
        sum_counts-append m.segments (last ∷ []),
        str_eq_iff t.id j,
      )

  add_segment-listed :
      (new : List ℕ) (j : Str)
      → (get (add_segment r t new).0.table_manifests j ≡ none)
        ↔ ((get r.table_manifests j ≡ none) × ((if str_eq t.id j then length new else 0) ≡ 0))
  unfolding add_segment
  add_segment-listed [] j = ground arith
  add_segment-listed (x ∷ xs) j =
      let m = manifest_of r t in
      let last : ManifestTableSegment = record { row_count = length (x ∷ xs) } in
      ground
        (arith, get-put r.table_manifests t.id j (record m { segments = m.segments ++ last ∷ [] }))

-- The effect of `add` on what is known.
pub record Effect (r : DiscoveryResult) (t : Table) (ids : List ℕ) (r' : DiscoveryResult)
    (seg : Option TableSegment) : Type 0 where
  pub found : segment_rows seg ≡ missing (rows r t.id) ids
  pub of_table : IsOf t seg
  pub counts :
      (j : Str) (v : ℕ)
      → count v (rows r' j)
        ≡ count v (rows r j) + (if str_eq t.id j then count v (missing (rows r t.id) ids) else 0)
  pub consistent : IsConsistent r'

module _ {np : Numpy} (laws : IsNumpy np) (r : DiscoveryResult) (h : IsConsistent r) (t : Table)
    (ids : List ℕ) where
  abbrev grown : IntSet
  grown = (IntSet.add np (ids_of r t.id) ids).0

  abbrev new : List ℕ
  new = missing (rows r t.id) ids

  abbrev noted : DiscoveryResult
  noted = record r { row_ids = put r.row_ids t.id grown }

  grows : Grows (ids_of r t.id) new grown
  grows = (add_lem laws (ids_of r t.id) (h.sorted t.id) ids).1

  add-eq : add np r t ids ≡ add_segment noted t new
  unfolding add
  add-eq = ap (add_segment noted t) (add_lem laws (ids_of r t.id) (h.sorted t.id) ids).0

  rows_after :
      (j : Str) → rows (add np r t ids).0 j ≡ (if str_eq t.id j then grown.array else rows r j)
  rows_after j =
      ap (λ p. (set_of p.0.row_ids j).array) add-eq
      ∙ ap (λ d. (set_of d j).array) (add_segment-row_ids noted t new)
      ∙ set_of-put r.row_ids t.id j grown

  after-IsConsistent : IsConsistent (add np r t ids).0
  after-IsConsistent = record {
    sorted = λ j. ground (arith, rows_after j, h.sorted j, grows.sorted);
    promised = λ j. ground (
      arith,
      rows_after j,
      h.promised j,
      grows.size,
      str_eq_iff t.id j,
      ap (λ p. manifest_rows p.0 j) add-eq,
      add_segment-manifest_rows noted t new j,
    );
    listed = λ j. ground (
      arith,
      rows_after j,
      h.listed j,
      grows.size,
      str_eq_iff t.id j,
      ap (λ p. get p.0.table_manifests j) add-eq,
      add_segment-listed noted t new j,
    );
    total = omega (
      arith,
      ap (λ p. p.0.id_count) add-eq,
      add_segment-id_count noted t new,
      h.total,
      grows.size,
      total_rows-put r.row_ids t.id grown,
      ap (λ p. total_rows p.0.row_ids) add-eq,
      ap total_rows (add_segment-row_ids noted t new),
    );
  }

  -- From a consistent result `add` returns a segment of the table with exactly the rows that were
  -- not known, or none where all were; it adds those rows to the table and none to another; and
  -- the result is consistent again, segment counts, row count and manifest included.
  pub add-Effect : Effect r t ids (add np r t ids).0 (add np r t ids).1
  add-Effect = record {
    found = ap (λ p. segment_rows p.1) add-eq ∙ (add_segment-rows noted t new).0;
    of_table = rw add-eq ((add_segment-rows noted t new).1);
    counts = λ j v. ground (arith, rows_after j, grows.counts v, str_eq_iff t.id j);
    consistent = after-IsConsistent;
  }
