-- ===== src/Dump/Schema.antt =====
-- slice_db/dump.py, class `Schema`: the graph of tables and references that a dump follows.
-- A Python `Reference` holds its two `Table` objects and each table lists its references; here the
-- schema's dictionary of tables is the store of those objects, and a reference holds their ids.
pub mod Linked
pub mod Missing
pub mod Filed
mod Tests
use slice_db.Prelude.{
  Str, List, [], ◌∷◌, ◌++◌, Option, none, some, Result, ok, err, key_error, attribute_error, ◌>>=◌,
}
use slice_db.Prelude.Int.{ℤ, pos}
use slice_db.Prelude.Dict.{Dict, get, put, values}
use slice_db.Formats.{Direction, DumpReference, DumpSequence, DumpTable, DumpSchema}

pub record Sequence : Type 0 where
  pub id : Str
  pub schema : Str
  pub name : Str

pub record Reference : Type 0 where
  pub directions : List Direction
  pub id : Str
  pub table : Str
  pub columns : List Str
  pub reference_table : Str
  pub reference_columns : List Str

pub record Table : Type 0 where
  pub id : Str
  pub name : Str
  pub schema : Option Str
  pub columns : List Str
  pub references : List Reference
  pub reverse_references : List Reference
  pub row_count : ℤ
  pub sequences : List Sequence

pub record Schema : Type 0 where
  pub sequences : Dict Sequence
  pub tables : Dict Table
  pub references : Dict Reference

-- d[k], with KeyError
abbrev pub item {ℓ} : {V : Type ℓ} → Dict V → Str → Result V
item d k = elim (get d k) [ none ↦ err key_error | some v ↦ ok v ]

unfoldable pub init_sequences : Dict Sequence → Dict DumpSequence → Dict Sequence
init_sequences made [] = made
init_sequences made ((id, s) ∷ rest) =
    init_sequences (put made id (record { id = id; schema = s.schema; name = s.name })) rest

unfoldable pub find_sequences : Dict Sequence → List Str → Result (List Sequence)
find_sequences made [] = ok []
find_sequences made (id ∷ ids) = do s ← item made id; ss ← find_sequences made ids; ok (s ∷ ss)

unfoldable pub init_tables : Dict Sequence → Dict Table → Dict DumpTable → Result (Dict Table)
unfolding find_sequences
init_tables sequences made [] = ok made
init_tables sequences made ((id, config) ∷ rest) = do
  ss ← find_sequences sequences config.sequences
  let table : Table = record {
    id = id;
    name = config.name;
    schema = config.schema;
    columns = config.columns;
    references = [];
    reverse_references = [];
    row_count = pos 0;
    sequences = ss;
  }
  init_tables sequences (put made id table) rest

-- table.references.append(reference), on the object that the store has under `id`
abbrev append_reference : Reference → Table → Table
append_reference r t = record t { references = t.references ++ r ∷ [] }

abbrev append_reverse : Reference → Table → Table
append_reverse r t = record t { reverse_references = t.reverse_references ++ r ∷ [] }

abbrev change : Dict Table → Str → (Table → Table) → Dict Table
change tables id f = elim (get tables id) [ none ↦ tables | some t ↦ put tables id (f t) ]

-- A missing table is to be reported by `raise Exception(...)`, but the message reads an attribute
-- `id` that a `DumpReference` has not: an AttributeError takes the exception's place.
unfoldable pub table_of_reference : Dict Table → Str → Result Table
table_of_reference tables id = elim (get tables id) [ none ↦ err attribute_error | some t ↦ ok t ]

abbrev pub new_reference : Str → DumpReference → Reference
new_reference id config = record {
  directions = config.directions;
  id = id;
  table = config.table;
  columns = config.columns;
  reference_table = config.reference_table;
  reference_columns = config.reference_columns;
}

abbrev pub attach : Dict Table → Reference → Dict Table
attach tables r =
    change (change tables r.table (append_reference r)) r.reference_table (append_reverse r)

unfoldable pub init_references : Schema → Dict DumpReference → Result Schema
unfolding table_of_reference
init_references s [] = ok s
init_references s ((id, config) ∷ rest) = do
  _ ← table_of_reference s.tables config.table
  _ ← table_of_reference s.tables config.reference_table
  let r = new_reference id config
  init_references (record s { tables = attach s.tables r; references = put s.references id r }) rest

-- Schema.__init__
unfoldable pub init : DumpSchema → Result Schema
unfolding init_sequences init_tables init_references
init config = do
  let sequences = init_sequences [] config.sequences
  tables ← init_tables sequences [] config.tables
  init_references (record { sequences = sequences; tables = tables; references = [] })
      config.references

-- Schema.get_sequence
unfoldable pub get_sequence : Schema → Str → Result Sequence
get_sequence s id = item s.sequences id

-- Schema.get_table
unfoldable pub get_table : Schema → Str → Result Table
get_table s id = item s.tables id

-- Schema.tables
abbrev pub tables : Schema → List Table
tables s = values s.tables

-- The table object that a reference holds. `init` makes references between the tables of `tables`
-- only; another id has an empty table here.
unfoldable pub object : Schema → Str → Table
object s id = elim (get s.tables id) [
  | none ↦ record {
    id = id;
    name = [];
    schema = none;
    columns = [];
    references = [];
    reverse_references = [];
    row_count = pos 0;
    sequences = [];
  }
  | some t ↦ t
]
