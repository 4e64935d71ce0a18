-- ===== src/SchemaFilter/Tests.antt =====
-- Tables that refer to each other in a circle, and a reference that is followed forward only.
use mathlib.Core.List.{Memᴰ}
use mathlib.Core.List.Memᴰ
use slice_db.Prelude.{
  ◌≡◌, refl, false, Str, codes, List, [], ◌∷◌, none, err, value_error, str_eq, if◌then◌else◌,
}
use slice_db.Prelude.Dict.{get, put}
use slice_db.Formats.{forward, DumpTable, DumpSchema}
use slice_db.Dump.Schema.{
  init, init_sequences, init_tables, find_sequences, init_references, table_of_reference, get_table,
  object,
}
use slice_db.SchemaFilter.{
  visit_each, visit, children_of, to_visit, cut, cut_each, cut_tables, remove_reverse, children,
}

abbrev all : List Str
all = codes "a" ∷ codes "b" ∷ []

-- b is the child of a, and a that of b.
abbrev next : Str → List Str
next id = if str_eq id (codes "a") then codes "b" ∷ [] else codes "a" ∷ []

abbrev chosen : List Str
chosen = codes "a" ∷ []

abbrev plain : Str → DumpTable
plain id = record { columns = codes "id" ∷ []; name = id; schema = none; sequences = [] }

-- c refers to p, and is selected; the reference is followed forward only.
abbrev config : DumpSchema
config = record {
  references =
      (
        codes "r",
        record {
          columns = codes "id" ∷ [];
          reference_columns = codes "id" ∷ [];
          reference_table = codes "p";
          table = codes "c";
          directions = forward ∷ [];
          deferrable = false;
        },
      )
      ∷ [];
  sequences = [];
  tables = (codes "c", plain (codes "c")) ∷ (codes "p", plain (codes "p")) ∷ [];
}

forward_only_raises : children 5 (codes "c" ∷ []) config ≡ err value_error
unfolding children init init_sequences init_tables find_sequences init_references table_of_reference
    get put get_table object visit_each visit children_of to_visit cut cut_each cut_tables
    remove_reverse
forward_only_raises = refl
