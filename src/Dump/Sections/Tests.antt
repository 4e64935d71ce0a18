-- ===== src/Dump/Sections/Tests.antt =====
-- A section of two statements and the comment at the end.
use slice_db.Prelude.{
  ◌+◌, ◌*◌, ◌≡◌, ◌≢◌, refl, ap, Str, codes, List, [], ◌∷◌, length, true, false, Result, ok, ◌>>=◌,
  str_eq, arith,
}
use slice_db.Prelude.Decimal.{decimal_loop}
use slice_db.Prelude.Dict.{get, put}
use slice_db.Pg.Token.{other, comment}
use slice_db.Pg.Token.Grammar.{ends, split, finish, next, cuts}
use slice_db.Pg.Token.Loop.{parse_statements-eq-split}
use slice_db.Pg.Token.Pieces.{rejoin, IsEnded}
use slice_db.Transform.{Counts}
use slice_db.Slice.{Archive, schema_path, write_schema}
use slice_db.Dump.Discovery.{DiscoveryResult, fresh}
use slice_db.Dump.Tasks.{TableTask}
use slice_db.Dump.Output.{Write, statement, write_entry, weave, text_of, write_all}
use slice_db.Restore.{execute_all}
use slice_db.Restore.Reads.{scripts}
use slice_db.Dump.Sections.{
  section_count, count_statement, all_but_last, count_statements, statement_writes, returned_pieces,
  statements, schema_task,
}
use slice_db.Dump.Sections.Restored.{IsApart, schema_task-scripts}

abbrev text : Str
text = codes "SET a='b;';\nSET c;--end\n"

abbrev pieces : List Str
pieces = codes "SET a='b;'" ∷ codes "\nSET c" ∷ codes "--end\n" ∷ []

whole : ends other text ≢ comment
unfolding ends
whole e = ground arith

parsed : statements text ≡ ok pieces
unfolding split cuts next finish
parsed =
    ap returned_pieces (parse_statements-eq-split text (2 * length text + 2) whole (omega arith))

abbrev pg_dump : Str → Result Str
pg_dump section = ok text

none_before : section_count fresh (codes "pre-data") ≡ 0
unfolding section_count get
none_before = refl

abbrev counted : DiscoveryResult
counted = record fresh { section_counts = (codes "pre-data", 2) ∷ [] }

abbrev own_writes : List Write
own_writes =
    statement (codes "pre-data") 0 (codes "SET a='b;'")
    ∷ statement (codes "pre-data") 1 (codes "\nSET c")
    ∷ []

task_ends : schema_task pg_dump (codes "pre-data") fresh ≡ ok (counted, own_writes)
unfolding schema_task all_but_last count_statements count_statement statement_writes section_count
    put get
task_ends =
    ap
      (λ o. o >>= λ ps. ok (
        count_statements fresh (codes "pre-data") (all_but_last ps),
        statement_writes (codes "pre-data") 0 (all_but_last ps),
      ))
      parsed

-- A statement of the other section is written in between.
abbrev other_writes : List Write
other_writes = statement (codes "post-data") 0 (codes "SET d") ∷ []

abbrev lines : TableTask → List Str
lines w = []

abbrev counts : Counts
counts _ = 0

abbrev archive : Archive
archive =
    (codes "pre-data/1.sql", codes "SET a='b;'")
    ∷ (codes "post-data/1.sql", codes "SET d")
    ∷ (codes "pre-data/2.sql", codes "\nSET c")
    ∷ []

apart : IsApart (codes "pre-data") other_writes
unfolding IsApart
apart = (λ e. sections_differ (ap (λ s. str_eq s (codes "post-data")) e), tt)
  where
    sections_differ : true ≡ false → ⊥
    sections_differ e = cc

written :
    write_all lines [] true [] counts (weave (false ∷ true ∷ []) other_writes own_writes)
    ≡ ok (archive, counts)
unfolding write_all text_of write_entry weave write_schema schema_path decimal_loop put
written = refl

schema_task-scripts_example :
    (ps : List Str) × (statements text ≡ ok ps)
    × IsEnded (rejoin ps) text
    × (scripts archive (execute_all (codes "pre-data") 0 (section_count counted (codes "pre-data")))
        ≡ ok (all_but_last ps))
schema_task-scripts_example =
    schema_task-scripts lines [] true pg_dump (codes "pre-data") text fresh counted own_writes
      other_writes (false ∷ true ∷ []) [] archive counts counts refl whole none_before task_ends
      apart written
