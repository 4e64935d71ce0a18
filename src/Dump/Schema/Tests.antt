-- ===== src/Dump/Schema/Tests.antt =====
-- Schemas of two tables, with a reference between them, and with one to a table that is not there.
use mathlib.Core.List.{Memᴰ}
use slice_db.Prelude.{
  ◌≡◌, refl, inr, Str, codes, [], ◌∷◌, false, none, some, ok, err, attribute_error,
}
use slice_db.Prelude.Dict.{Dict, get, put}
use slice_db.Prelude.Int.{pos}
use slice_db.Formats.{forward, reverse, DumpReference, DumpTable, DumpSchema}
use slice_db.Dump.Schema.{
  Reference, Table, Schema, init_sequences, init_tables, init, new_reference,
}
use slice_db.Dump.Schema.Linked.{from_table, to_table, init-references}
use slice_db.Dump.Schema.Missing.{init-dangling}

abbrev table_config : DumpTable
table_config = record { columns = codes "id" ∷ []; name = codes "t"; schema = none; sequences = [] }

abbrev to : Str → DumpReference
to target = record {
  columns = codes "id" ∷ [];
  reference_columns = codes "id" ∷ [];
  reference_table = target;
  table = codes "c";
  directions = forward ∷ reverse ∷ [];
  deferrable = false;
}

abbrev config_to : Str → DumpSchema
config_to target = record {
  references = (codes "r", to target) ∷ [];
  sequences = [];
  tables = (codes "c", table_config) ∷ (codes "p", table_config) ∷ [];
}

abbrev bare : Str → Table
bare id = record {
  id = id;
  name = codes "t";
  schema = none;
  columns = codes "id" ∷ [];
  references = [];
  reverse_references = [];
  row_count = pos 0;
  sequences = [];
}

abbrev made : Dict Table
made = (codes "c", bare (codes "c")) ∷ (codes "p", bare (codes "p")) ∷ []

abbrev reference : Reference
reference = new_reference (codes "r") (to (codes "p"))

abbrev child : Table
child = record (bare (codes "c")) { references = reference ∷ [] }

abbrev whole : Schema
whole = record {
  sequences = [];
  tables =
      (codes "c", child)
      ∷ (codes "p", record (bare (codes "p")) { reverse_references = reference ∷ [] })
      ∷ [];
  references = (codes "r", reference) ∷ [];
}

whole_made : init (config_to (codes "p")) ≡ ok whole
unfolding init get put
whole_made = refl

child_found : get whole.tables (codes "c") ≡ some child
unfolding get
child_found = refl

tables_made : init_tables (init_sequences [] []) [] (config_to (codes "q")).tables ≡ ok made
unfolding init_tables init_sequences put
tables_made = refl

absent : get made (codes "q") ≡ none
unfolding get
absent = refl

init-references_example :
    (child.id ≡ codes "c")
    × (child.references ≡ from_table (codes "c") (config_to (codes "p")).references)
    × (child.reverse_references ≡ to_table (codes "c") (config_to (codes "p")).references)
init-references_example =
    init-references (config_to (codes "p")) whole (codes "c") child whole_made child_found

init-dangling_example : init (config_to (codes "q")) ≡ err attribute_error
init-dangling_example =
    init-dangling (config_to (codes "q")) made (codes "r") (to (codes "q")) tables_made
      (Memᴰ.head refl) (inr absent)
