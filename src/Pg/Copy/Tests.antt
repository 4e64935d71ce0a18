-- ===== src/Pg/Copy/Tests.antt =====
-- Runs of the COPY format, those of the project's own tests among them.
use slice_db.Prelude.{◌≡◌, refl, [], ◌∷◌, none, some, ok, err, index_error, codes, map}
use slice_db.Pg.Copy.{parse_field, serialize_field, parse_raw_row, serialize_raw_row}
use slice_db.Pg.Copy.RoundTrip.{
  tabbed_field, parse_field-serialize_field, parse_raw_row-serialize_raw_row, IsFlat,
  serialize_field-IsFlat,
}
use slice_db.Pg.Copy.Escape.{
  unescape_field, parse_field-eq-unescape, escape, serialize_field-eq-escape,
}

parse_plain : parse_field (codes "a") ≡ ok (some (codes "a"))
unfolding parse_field
parse_plain = refl

parse_null : parse_field (codes "\\N") ≡ ok none
unfolding parse_field
parse_null = refl

parse_newline : parse_field (codes "a\\nb") ≡ ok (some (codes "a\nb"))
unfolding parse_field
parse_newline = refl

parse_cut_off : parse_field (codes "ab\\") ≡ err index_error
unfolding parse_field
parse_cut_off = refl

-- A vertical tab does not come back.
parse_vertical_tab : parse_field (serialize_field (some (11 ∷ []))) ≡ ok (some (9 ∷ []))
unfolding parse_field serialize_field
parse_vertical_tab = refl

parse_field-serialize_field_example :
    parse_field (serialize_field (some (codes "a\\N\t")))
    ≡ ok (tabbed_field (some (codes "a\\N\t")))
parse_field-serialize_field_example = parse_field-serialize_field (some (codes "a\\N\t"))

parse_raw_row-serialize_raw_row_example :
    map parse_field (parse_raw_row (serialize_raw_row (map serialize_field (none ∷ some [] ∷ []))))
    ≡ map (λ g. ok (tabbed_field g)) (none ∷ some [] ∷ [])
parse_raw_row-serialize_raw_row_example = parse_raw_row-serialize_raw_row none (some [] ∷ [])

parse_field-eq-unescape_example : parse_field (codes "a\\\\n") ≡ unescape_field (codes "a\\\\n")
parse_field-eq-unescape_example = parse_field-eq-unescape (codes "a\\\\n")

serialize_field-eq-escape_example : serialize_field (some (codes "\\\t")) ≡ escape (codes "\\\t")
serialize_field-eq-escape_example = serialize_field-eq-escape (codes "\\\t")

serialize_field-IsFlat_example : IsFlat (serialize_field (some (codes "\t\n")))
serialize_field-IsFlat_example = serialize_field-IsFlat (some (codes "\t\n"))
