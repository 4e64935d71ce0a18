-- ===== src/Dump/Discovery/Numbers.antt =====
-- The indexes that `_DiscoveryResult.add` gives its segments.
use slice_db.Prelude.{
  ℕ, suc, ◌+◌, ◌≡◌, refl, Str, List, [], ◌∷◌, ◌++◌, Option, none, some, length, arith,
  if◌then◌else◌, str_eq, str_eq_iff, Bool, true, false, Bool-cases, Option-cases, inl, inr, ap, ◌∙◌,
}
use slice_db.Prelude.Dict.{get, put, get-put}
use slice_db.Collection.Numpy.{Numpy}
use slice_db.Formats.{ManifestTableSegment, ManifestTable}
use slice_db.Dump.Schema.{Table}
use slice_db.Dump.Discovery.{TableSegment, DiscoveryResult, ids_of, manifest_of, add_segment, add}
use slice_db.Collection.IntSet

-- The segments that the manifest lists for a table.
abbrev pub listed_segments : Option ManifestTable → List ManifestTableSegment
listed_segments none = []
listed_segments (some m) = m.segments

abbrev pub segments : DiscoveryResult → Str → List ManifestTableSegment
segments r id = listed_segments (get r.table_manifests id)

-- A measure of an index and a row count, summed over listed segments.
abbrev pub listed_weight : (ℕ → ℕ → ℕ) → ℕ → List ManifestTableSegment → ℕ
listed_weight g i [] = 0
listed_weight g i (s ∷ ss) = g i s.row_count + listed_weight g (suc i) ss

-- The same measure of a segment, when it is of the table.
abbrev pub number_weight : (ℕ → ℕ → ℕ) → Str → TableSegment → ℕ
number_weight g id s = if str_eq s.table.id id then g s.index (length s.row_ids) else 0

abbrev pub option_weight : (TableSegment → ℕ) → Option TableSegment → ℕ
option_weight m none = 0
option_weight m (some s) = m s

listed_weight-append :
    (g : ℕ → ℕ → ℕ) (i : ℕ) (ss : List ManifestTableSegment) (s : ManifestTableSegment)
    → listed_weight g i (ss ++ s ∷ []) ≡ listed_weight g i ss + g (i + length ss) s.row_count
listed_weight-append g i [] s = let e : i + 0 ≡ i = omega arith in rw e (omega arith)
listed_weight-append g i (x ∷ ss) s =
    let e : i + suc (length ss) ≡ suc i + length ss = omega arith in
    rw e (omega (arith, listed_weight-append g (suc i) ss s))

manifest_of-segments :
    (r : DiscoveryResult) (t : Table) → (manifest_of r t).segments ≡ segments r t.id
manifest_of-segments r t = elim (Option-cases (get r.table_manifests t.id)) [
  | inl e ↦ rw (manifest_of, e)
  | inr (m, e) ↦ rw (manifest_of, e)
]

listed-if :
    (b : Bool) (m : ManifestTable) (o : Option ManifestTable)
    → listed_segments (if b then some m else o) ≡ (if b then m.segments else listed_segments o)
listed-if true m o = refl
listed-if false m o = refl

add_segment-numbers :
    (g : ℕ → ℕ → ℕ) (r : DiscoveryResult) (t : Table) (new : List ℕ) (id : Str)
    → listed_weight g 0 (segments (add_segment r t new).0 id)
      ≡ listed_weight g 0 (segments r id)
        + option_weight (number_weight g id) (add_segment r t new).1
unfolding add_segment
add_segment-numbers g r t [] id = omega arith
add_segment-numbers g r t (x ∷ xs) id =
    let old : List ManifestTableSegment = (manifest_of r t).segments in
    let last : ManifestTableSegment = record { row_count = length (x ∷ xs) } in
    let grown : ManifestTable = record (manifest_of r t) { segments = old ++ last ∷ [] } in
    ap (listed_weight g 0) (
      ap listed_segments (get-put r.table_manifests t.id id grown)
      ∙ listed-if (str_eq t.id id) grown (get r.table_manifests id))
    ∙ (elim (Bool-cases (str_eq t.id id)) [
      | inl e ↦ rw e (
          listed_weight-append g 0 old last
          ∙ ground (
            arith,
            ap (listed_weight g 0)
                (manifest_of-segments r t ∙ ap (segments r) ((str_eq_iff t.id id).0 e)),
          ))
      | inr e ↦ rw e (omega arith)
    ])

-- `add` lists its segment, when it returns one, at the end of the segments of its table, at the
-- index and with the number of rows that the segment has; it lists nothing else.
pub add-numbers :
    (g : ℕ → ℕ → ℕ) (r : DiscoveryResult) (t : Table) (np : Numpy) (ids : List ℕ) (id : Str)
    → listed_weight g 0 (segments (add np r t ids).0 id)
      ≡ listed_weight g 0 (segments r id) + option_weight (number_weight g id) (add np r t ids).1
unfolding add
add-numbers g r t np ids id =
    let (known, new) = IntSet.add np (ids_of r t.id) ids in
    add_segment-numbers g (record r { row_ids = put r.row_ids t.id known }) t new id
