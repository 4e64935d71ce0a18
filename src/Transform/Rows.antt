-- ===== src/Transform/Rows.antt =====
-- What the transformation does to the rows that PostgreSQL writes, field by field.
use slice_db.Prelude.{
  Str, List, [], ◌∷◌, ◌++◌, map, none, some, Result, ok, err, index_error, ◌>>=◌, map_ok, get_elem?,
}
use slice_db.Pg.Copy.{Field, RawRow, newline, serialize_field, serialize_raw_row}
use slice_db.Pg.Copy.RoundTrip.{tabbed_field}
use slice_db.Transform.{Counts, FieldTransform, set_elem, write_line}

-- A row of fields, transformed at one place: what the transformer is given is the field, with a tab
-- for each vertical tab.
unfoldable pub apply_to : FieldTransform → List Field → Counts → Result (List Field × Counts)
unfolding set_elem
apply_to f row counts = elim (get_elem? row f.index) [
  | none ↦ err index_error
  | some field ↦ f.transform (tabbed_field field) counts >>= λ answer.
      let (new, after) = answer in ok (set_elem row f.index new, after)
]

unfoldable pub apply_all : List FieldTransform → List Field → Counts → Result (List Field × Counts)
unfolding apply_to
apply_all [] row counts = ok (row, counts)
apply_all (f ∷ fs) row counts =
    apply_to f row counts >>= λ done. let (new, after) = done in apply_all fs new after

abbrev pub written : List Field × Counts → RawRow × Counts
written (row, counts) = (map serialize_field row, counts)

-- A line of COPY's output.
abbrev pub line_of : Field × List Field → Str
line_of (f, fs) = serialize_raw_row (map serialize_field (f ∷ fs)) ++ newline ∷ []

-- The rows transformed one after the other, as text.
unfoldable pub table_of :
    List FieldTransform → List (Field × List Field) → Counts → Result (Str × Counts)
unfolding apply_all
table_of fields [] counts = ok ([], counts)
table_of fields ((f, fs) ∷ rows) counts = apply_all fields (f ∷ fs) counts >>= λ done.
    let (row, after) = done in
    map_ok (write_line (map serialize_field row)) (table_of fields rows after)
