-- ===== src/Dump/Sections.antt =====
-- slice_db/dump.py, class `_SchemaTask`: the schema of a section, statement by statement.
-- `pg_dump` is `_pg_dump_section`: the text that the program pg_dump writes for a section, or the
-- exception for its exit code. The temporary file between them is left out.
pub mod Counts
pub mod Restored
mod Tests
use slice_db.Prelude.{
  ℕ, zero, suc, ◌+◌, ◌*◌, Str, List, [], ◌∷◌, length, none, some, Result, ok, err, fuel, ◌>>=◌,
}
use slice_db.Prelude.Dict.{get, put}
use slice_db.Pg.Token.{Outcome, done, raised, out_of_fuel, parse_statements}
use slice_db.Dump.Discovery.{DiscoveryResult}
use slice_db.Dump.Output.{Write, statement}

-- section_counts[section], of a defaultdict
unfoldable pub section_count : DiscoveryResult → Str → ℕ
unfolding get
section_count r section = elim (get r.section_counts section) [ none ↦ 0 | some n ↦ n ]

-- section_counts[section] += 1
unfoldable pub count_statement : DiscoveryResult → Str → DiscoveryResult
unfolding section_count put
count_statement r section = record r {
  section_counts = put r.section_counts section (section_count r section + 1);
}

-- statements[:-1]
unfoldable pub all_but_last {ℓ} : {A : Type ℓ} → List A → List A
all_but_last [] = []
all_but_last (s ∷ []) = []
all_but_last (s ∷ t ∷ ss) = s ∷ all_but_last (t ∷ ss)

-- The loop of _SchemaTask.__call__, from an index on: what it counts, and what it writes. The counter
-- is the task's own, so other tasks between two rounds change nothing that it reads.
unfoldable pub count_statements : DiscoveryResult → Str → List Str → DiscoveryResult
unfolding count_statement
count_statements r section [] = r
count_statements r section (s ∷ ss) = count_statements (count_statement r section) section ss

unfoldable pub statement_writes : Str → ℕ → List Str → List Write
statement_writes section i [] = []
statement_writes section i (s ∷ ss) = statement section i s ∷ statement_writes section (suc i) ss

abbrev pub returned_pieces : Outcome → Result (List Str)
returned_pieces (done pieces) = ok pieces
returned_pieces (raised e) = err e
returned_pieces out_of_fuel = err fuel

-- list(parse_statements(text)). The rounds are enough, unless the text ends in a comment without a
-- newline: then the loop of the program does not end, and `fuel` is raised here.
abbrev pub statements : Str → Result (List Str)
statements text = returned_pieces (parse_statements text (2 * length text + 2))

-- _SchemaTask.__call__: the result after it, and its writes, which stand between those of other tasks.
unfoldable pub schema_task :
    (Str → Result Str) → Str → DiscoveryResult → Result (DiscoveryResult × List Write)
unfolding all_but_last count_statements statement_writes
schema_task pg_dump section r = pg_dump section >>= λ text. statements text >>= λ pieces.
    let ss = all_but_last pieces in
    ok (count_statements r section ss, statement_writes section 0 ss)
