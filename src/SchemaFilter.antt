-- ===== src/SchemaFilter.antt =====
-- slice_db/cli/schema_filter.py, `children`: which references of a schema a dump follows back.
pub mod Visit
pub mod Returns
mod Tests
use slice_db.Prelude.{
  ℕ, zero, suc, Str, List, [], ◌∷◌, length, Bool, true, false, any, none, some, Result, ok, err,
  key_error, value_error, fuel, ◌>>=◌, map_ok, str_eq, if◌then◌else◌,
}
use slice_db.Prelude.Dict.{Dict, get, put, values}
use slice_db.Formats.{Direction, forward, reverse, direction_eq, DumpReference, DumpSchema}
use slice_db.Dump.Schema.{Reference, Table, Schema, init, get_table, object}

abbrev pub is_listed : Str → List Str → Bool
is_listed id ids = any (str_eq id) ids

-- The tables that `visit` calls itself with, by the references to a table.
unfoldable pub to_visit : List Reference → List Str
to_visit [] = []
to_visit (r ∷ rs) =
    let rest = to_visit rs in
    if any (direction_eq reverse) r.directions then r.table ∷ rest else rest

unfoldable pub children_of : Schema → Str → List Str
unfolding to_visit object
children_of schema id = to_visit (object schema id).reverse_references

-- for reference in …: visit(reference.table), with what `go` does for a table
unfoldable pub visit_each :
    (Str → List Str → Result (List Str)) → List Str → List Str → Result (List Str)
visit_each go [] seen = ok seen
visit_each go (id ∷ ids) seen = go id seen >>= λ more. visit_each go ids more

-- visit, on the set `child_ids`; `rounds` bounds the depth of the calls.
unfoldable pub visit : (Str → List Str) → ℕ → Str → List Str → Result (List Str)
unfolding visit_each
visit children zero id seen = err fuel
visit children (suc rounds) id seen = elim (is_listed id seen) [
  | true ↦ ok seen
  | false ↦ visit_each (visit children rounds) (children id) (id ∷ seen)
]

-- directions.remove(DumpReferenceDirection.REVERSE), with ValueError
unfoldable pub remove_reverse : List Direction → Result (List Direction)
remove_reverse [] = err value_error
remove_reverse (reverse ∷ directions) = ok directions
remove_reverse (forward ∷ directions) = map_ok (λ rest. forward ∷ rest) (remove_reverse directions)

-- input_config.references[id].directions.remove(…)
unfoldable pub cut : Dict DumpReference → Str → Result (Dict DumpReference)
unfolding remove_reverse get put
cut references id = elim (get references id) [
  | none ↦ err key_error
  | some r ↦
      map_ok (λ directions. put references id (record r { directions = directions }))
        (remove_reverse r.directions)
]

-- The loop over the references to a table, and the loop over the tables
unfoldable pub cut_each :
    List Str → Dict DumpReference → List Reference → Result (Dict DumpReference)
unfolding cut
cut_each child_ids references [] = ok references
cut_each child_ids references (r ∷ rs) = elim (is_listed r.table child_ids) [
  | true ↦ cut references r.id >>= λ more. cut_each child_ids more rs
  | false ↦ cut_each child_ids references rs
]

unfoldable pub cut_tables : List Str → Dict DumpReference → List Table → Result (Dict DumpReference)
unfolding cut_each
cut_tables child_ids references [] = ok references
cut_tables child_ids references (t ∷ ts) = elim (is_listed t.id child_ids) [
  | true ↦ cut_tables child_ids references ts
  | false ↦
      cut_each child_ids references t.reverse_references >>= λ more. cut_tables child_ids more ts
]

-- children, for the tables of the argument
unfoldable pub children : ℕ → List Str → DumpSchema → Result DumpSchema
unfolding init get_table children_of visit visit_each cut_tables
children rounds table_ids config = init config >>= λ schema.
    visit_each (λ id seen. get_table schema id >>= λ t. visit (children_of schema) rounds t.id seen)
      table_ids []
    >>= λ child_ids.
        map_ok (λ references. record config { references = references })
          (cut_tables child_ids config.references (values schema.tables))
