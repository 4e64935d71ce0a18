-- ===== src/Dump/Entry.antt =====
-- slice_db/dump.py, `dump`: from the configuration to the slice and its manifest.
pub mod Fresh
pub mod Frame
pub mod SectionTasks
pub mod Rows
pub mod Restored
pub mod Unknown
mod Tests
use slice_db.Prelude.{
  ℕ, Str, codes, List, [], ◌∷◌, map, Bool, true, false, Option, none, some, Result, ok, err,
  exception, fuel, map_ok, ◌>>=◌,
}
use slice_db.Prelude.Int.{ℤ}
use slice_db.Prelude.Dict.{Dict, get}
use slice_db.Collection.Numpy.{Numpy}
use slice_db.Formats.{DumpRoot, DumpSchema, Manifest, ManifestTable}
use slice_db.Pg.Copy.{Field}
use slice_db.Transform.{Answer, Counts, FieldTransform, Transformer, table_fields}
use slice_db.Slice.{Archive, write_manifest}
use slice_db.Dump.Schema.{Sequence, Table, Schema, init, get_table}
use slice_db.Dump.Discovery.{DiscoveryResult}
use slice_db.Dump.Tasks.{Database, Root, Task, TableTask, System, run, start}
use slice_db.Dump.Output.{Write, segment, weave, write_all}
use slice_db.Dump.Sections.{section_count, schema_task}
use slice_db.Dump.Sequences.{dump_sequences}

-- for root_config in root_configs: a table that is not there is an exception.
unfoldable pub find_roots : Schema → List DumpRoot → Result (List Root)
unfolding get
find_roots schema [] = ok []
find_roots schema (config ∷ configs) = elim (get schema.tables config.table) [
  | none ↦ err exception
  | some t ↦
      map_ok (λ roots. record { table = t; condition = config.condition } ∷ roots)
        (find_roots schema configs)
]

-- transformers, of the columns of the tables of a transform file; `call` is a call of a transformer.
unfoldable pub find_transformers :
    Dict Transformer
    → (Str → Field → Counts → Answer)
    → Schema
    → Dict (Dict Str)
    → Result (Dict (List FieldTransform))
unfolding get_table table_fields
find_transformers transforms call schema [] = ok []
find_transformers transforms call schema ((id, columns) ∷ rest) = get_table schema id >>= λ t.
    table_fields transforms call columns t.columns >>= λ fields.
    map_ok (λ more. (id, fields) ∷ more) (find_transformers transforms call schema rest)

-- for row, table in zip(result, tables)
unfoldable pub zip_row_counts : List ℤ → Dict Table → Dict Table
zip_row_counts [] tables = tables
zip_row_counts (n ∷ ns) [] = []
zip_row_counts (n ∷ ns) ((id, t) ∷ tables) =
    (id, record t { row_count = n }) ∷ zip_row_counts ns tables

-- _set_row_counts; `reltuples` is what the query answers, a number for each table in their order
abbrev pub set_row_counts : List ℤ → Schema → Schema
set_row_counts reltuples schema = record schema { tables = zip_row_counts reltuples schema.tables }

-- queue.finished() returns when no task is left. A schedule that ends before is no run of the
-- program: `fuel` is raised for it here.
abbrev pub if_all_ended : System → Result System
if_all_ended s = elim s.pool [ [] ↦ ok s | task ∷ tasks ↦ err fuel ]

-- Manifest(...)
unfoldable pub make_manifest : DiscoveryResult → Manifest
unfolding section_count
make_manifest r = record {
  post_data = record { count = section_count r (codes "post-data") };
  pre_data = record { count = section_count r (codes "pre-data") };
  sequences = r.sequence_manifests;
  tables = r.table_manifests;
}

-- The tasks of the sections, when the schema is included: the result, and the writes by the choices
-- of the event loop.
unfoldable pub schema_tasks :
    (Str → Result Str) → Bool → List Bool → DiscoveryResult → Result (DiscoveryResult × List Write)
unfolding schema_task weave
schema_tasks pg_dump false choices r = ok (r, [])
schema_tasks pg_dump true choices r = schema_task pg_dump (codes "pre-data") r >>= λ first.
    schema_task pg_dump (codes "post-data") first.0 >>= λ second.
    ok (second.0, weave choices first.1 second.1)

-- What a dump asks the database and the libraries: the queries of the tasks, the lines of COPY, what
-- pg_dump writes, the row counts and last values, and the text of a manifest as JSON.
pub record Environment : Type 0 where
  pub db : Database
  pub np : Numpy
  pub lines : TableTask → List Str
  pub pg_dump : Str → Result Str
  pub reltuples : List ℤ
  pub last_value : Sequence → ℤ
  pub in_set_order : List Str → List Str
  pub json : Manifest → Str
  pub fork : Bool

-- The choices of the event loop: which task goes on, and whose write is next.
pub record Choices : Type 0 where
  pub schedule : List ℕ
  pub sections : List Bool
  pub writes : List Bool

-- _dump_rows
unfoldable pub dump_rows :
    Environment
    → Choices
    → Schema
    → List Root
    → Dict (List FieldTransform)
    → Bool
    → Result (DiscoveryResult × Archive)
unfolding run start schema_tasks weave write_all
dump_rows env choices schema roots transformers include_schema =
    if_all_ended (run schema env.db env.np (start schema env.db roots) choices.schedule) >>= λ s.
    schema_tasks env.pg_dump include_schema choices.sections s.result >>= λ tasks.
    write_all env.lines transformers env.fork [] (λ _. 0)
      (weave choices.writes (map segment s.output) tasks.1)
    >>= λ written. ok (tasks.0, written.0)

-- dump, with the output to a slice: the manifest and the entries. The look-ups of roots and
-- transformers stand after the row counts, which they do not read: here a root holds the table's
-- fields and not the object that changes.
unfoldable pub dump :
    Environment
    → Choices
    → DumpSchema
    → List DumpRoot
    → Dict Transformer
    → (Str → Field → Counts → Answer)
    → Dict (Dict Str)
    → Bool
    → Result (Manifest × Archive)
unfolding init find_roots find_transformers zip_row_counts dump_rows dump_sequences make_manifest
    write_manifest
dump env choices config root_configs transforms call columns include_schema =
    init config >>= λ made.
    let schema = set_row_counts env.reltuples made in
    find_roots schema root_configs >>= λ roots.
    find_transformers transforms call schema columns >>= λ transformers.
    dump_rows env choices schema roots transformers include_schema >>= λ rows.
    dump_sequences env.last_value env.in_set_order schema rows.0 rows.1 >>= λ all.
    let m = make_manifest all.0 in ok (m, write_manifest all.1 (env.json m))
