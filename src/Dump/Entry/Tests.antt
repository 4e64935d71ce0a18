-- ===== src/Dump/Entry/Tests.antt =====
-- A whole dump of one table with a transformer and a sequence, and of a schema.
use slice_db.Prelude.{Str, codes, List, [], ◌∷◌, true, false, none, some, ok}
use slice_db.Prelude.Int.{pos}
use slice_db.Prelude.Dict.{Dict}
use slice_db.Collection.Numpy.{counting, count}
use slice_db.Collection.IntSet
use slice_db.Formats.{DumpRoot, DumpSchema, Manifest}
use slice_db.Pg.Copy.{Field}
use slice_db.Transform.{Answer, Counts, Transformer}
use slice_db.Slice.{Archive}
use slice_db.Dump.Schema.{Sequence, Schema}
use slice_db.Dump.Tasks.{Database}
use slice_db.Dump.Entry.{Environment, Choices}

abbrev config : DumpSchema
config = record {
  references = [];
  sequences = (codes "s", record { schema = codes "public"; name = codes "p_id_seq" }) ∷ [];
  tables =
      (
        codes "p",
        record {
          columns = codes "id" ∷ codes "name" ∷ [];
          name = codes "p";
          schema = none;
          sequences = codes "s" ∷ [];
        },
      )
      ∷ [];
}

abbrev db : Database
db = record { condition = λ t c. 3 ∷ 5 ∷ []; join = λ distinct f fc t tc ids. [] }

abbrev env : Environment
env = record {
  db = db;
  np = counting;
  lines = λ w. codes "1\tAda\n" ∷ codes "2\tBo\n" ∷ [];
  pg_dump = λ section. ok (codes "SET a;--\n");
  reltuples = pos 2 ∷ [];
  last_value = λ s. pos 7;
  in_set_order = λ ids. ids;
  json = λ m. codes "{}";
  fork = true;
}

abbrev choices : Choices
choices = record {
  schedule = 0 ∷ 0 ∷ 0 ∷ 0 ∷ 0 ∷ [];
  sections = false ∷ [];
  writes = false ∷ true ∷ [];
}

abbrev roots : List DumpRoot
roots = record { table = codes "p"; condition = [] } ∷ []

abbrev transforms : Dict Transformer
transforms = (codes "hide", Transformer.const (some (codes "x"))) ∷ []

abbrev call : Str → Field → Counts → Answer
call name text counts = ok (some (codes "x"), counts)

abbrev columns : Dict (Dict Str)
columns = (codes "p", (codes "name", codes "hide") ∷ []) ∷ []

abbrev manifest : Manifest
manifest = record {
  post_data = record { count = 1 };
  pre_data = record { count = 1 };
  sequences = (codes "s", record { name = codes "p_id_seq"; schema = codes "public" }) ∷ [];
  tables =
      (
        codes "p",
        record {
          columns = codes "id" ∷ codes "name" ∷ [];
          name = codes "p";
          schema = none;
          segments = record { row_count = 2 } ∷ [];
        },
      )
      ∷ [];
}

abbrev archive : Archive
archive =
    (codes "post-data/1.sql", codes "SET a")
    ∷ (codes "p/1.tsv", codes "1\tx\n2\tx\n")
    ∷ (codes "pre-data/1.sql", codes "SET a")
    ∷ (codes "s.txt", codes "7")
    ∷ (codes "manifest.json", codes "{}")
    ∷ []

abbrev sequence : Sequence
sequence = record { id = codes "s"; schema = codes "public"; name = codes "p_id_seq" }

abbrev made : Schema
made = record {
  sequences = (codes "s", sequence) ∷ [];
  tables =
      (
        codes "p",
        record {
          id = codes "p";
          name = codes "p";
          schema = none;
          columns = codes "id" ∷ codes "name" ∷ [];
          references = [];
          reverse_references = [];
          row_count = pos 0;
          sequences = sequence ∷ [];
        },
      )
      ∷ [];
  references = [];
}

abbrev more_roots : List DumpRoot
more_roots =
    record { table = codes "p"; condition = [] } ∷ record { table = codes "q"; condition = [] } ∷ []
