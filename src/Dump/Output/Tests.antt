-- ===== src/Dump/Output/Tests.antt =====
-- A slice of one table without references, written with a transformer on one of its columns.
use slice_db.Prelude.{ℕ, Str, codes, List, [], ◌∷◌, none, some, ok}
use slice_db.Prelude.Int.{pos}
use slice_db.Prelude.Dict.{Dict, get, put}
use slice_db.Prelude.Decimal.{decimal_loop}
use slice_db.Collection.Numpy.{counting, count, count_lt, count_le, sort}
use slice_db.Collection.IntSet
use slice_db.Transform.{
  Counts, FieldTransform, transform_table, apply_fields, without_last, set_elem,
}
use slice_db.Slice.{Archive, segment_path, schema_path, write_segment, write_schema}
use slice_db.Dump.Schema.{Table, Schema, object}
use slice_db.Dump.Discovery.{add}
use slice_db.Dump.Tasks.{Database, Root, TableTask, System, run, start, chunks}
use slice_db.Dump.Output.{Write, statement, weave, segment_text, text_of, write_entry, write_all}

abbrev table : Table
table = record {
  id = codes "p";
  name = codes "p";
  schema = none;
  columns = codes "id" ∷ [];
  references = [];
  reverse_references = [];
  row_count = pos 2;
  sequences = [];
}

abbrev schema : Schema
schema = record { sequences = []; tables = (codes "p", table) ∷ []; references = [] }

abbrev db : Database
db = record { condition = λ t c. 3 ∷ 5 ∷ []; join = λ distinct f fc t tc ids. [] }

abbrev roots : List Root
roots = record { table = table; condition = [] } ∷ []

abbrev schedule : List ℕ
schedule = 0 ∷ 0 ∷ 0 ∷ 0 ∷ 0 ∷ []

abbrev done : System
done = run schema db counting (start schema db roots) schedule

abbrev lines : TableTask → List Str
lines w = codes "a\n" ∷ codes "b\n" ∷ []

abbrev hide : FieldTransform
hide = record { index = 0; transform = λ text counts. ok (some (codes "x"), counts) }

abbrev transformers : Dict (List FieldTransform)
transformers = (codes "p", hide ∷ []) ∷ []

abbrev counts : Counts
counts _ = 0

program : Unit {0}
unfolding run start add IntSet.add sort get put chunks object count count_lt count_le write_all
    text_of write_entry weave segment_text transform_table apply_fields without_last set_elem
    decimal_loop segment_path write_segment write_schema schema_path
program = tt

abbrev archive : Archive
archive = (codes "pre-data/1.sql", codes "SET") ∷ (codes "p/1.tsv", codes "x\nx\n") ∷ []

abbrev statements : List Write
statements = statement (codes "pre-data") 0 (codes "SET") ∷ []
