-- ===== src/Dump/Tasks/Sample.antt =====
-- A small database, and runs of the tasks over it: table c refers to table p, row 1 of p is the
-- parent of the rows 10 and 11 of c.
use mathlib.Core.List.{Memᴰ}
use slice_db.Prelude.{
  ℕ, ◌≡◌, refl, Str, codes, List, [], ◌∷◌, Bool, true, false, ◌&&◌, ◌||◌, any, none, ok, str_eq,
  if◌then◌else◌, ◌==◌, ==_iff, Bool-cases, inl, inr, arith,
}
use slice_db.Prelude.Dict.{get, put}
use slice_db.Prelude.Int.{pos}
use slice_db.Collection.Numpy.{counting, counting-IsNumpy, count, count_lt, count_le, sort}
use slice_db.Collection.IntSet
use slice_db.Formats.{forward, reverse, DumpSchema}
use slice_db.Dump.Schema.{Reference, Table, Schema, object, init}
use slice_db.Dump.Discovery.{add}
use slice_db.Dump.Discovery.Effect.{rows, IsConsistent}
use slice_db.Dump.Tasks.{Database, Root, TableTask, System, run, start, follows, to_table, chunks}
use slice_db.Dump.Tasks.Ops.{written_count, written_weight}
use slice_db.Dump.Tasks.Numbers.{written-listed}
use slice_db.Dump.Discovery.Numbers.{segments, listed_weight, number_weight}
use slice_db.Dump.Tasks.Partition.{written_exactly, run-IsConsistent}
use slice_db.Dump.Tasks.Members.{Has}
use slice_db.Dump.Tasks.Sound.{Match, IsDatabase, Reach, run-Reach}
use slice_db.Dump.Tasks.Closed.{roots_known, references_closed}

-- The rows that match one of the given rows, from all rows of the table.
select : (ℕ → Bool) → List ℕ → List ℕ
select p [] = []
select p (b ∷ bs) = let rest = select p bs in if p b then b ∷ rest else rest

abbrev universe : List ℕ
universe = 1 ∷ 10 ∷ 11 ∷ []

abbrev same : Match
same f fc t tc a b = (a == 1 && (b == 10 || b == 11)) || (b == 1 && (a == 10 || a == 11))

abbrev db : Database
db = record {
  condition = λ t c. if str_eq c (codes "child") then 10 ∷ [] else 1 ∷ [];
  join = λ distinct f fc t tc ids. select (λ b. any (λ a. same f fc t tc a b) ids) universe;
}

Has-select : (p : ℕ → Bool) (bs : List ℕ) (b : ℕ) → Has (select p bs) b → p b ≡ true
unfolding select count
Has-select p [] b h = absurd (omega arith)
Has-select p (c ∷ bs) b h = elim (Bool-cases (c == b)) [
  | inl e ↦
      let eq : c ≡ b = (==_iff c b).0 e in
      elim (Bool-cases (p c)) [ inl on ↦ rw eq at on | inr off ↦ Has-select p bs b (ground arith) ]
  | inr e ↦ Has-select p bs b (ground arith)
]

select-Has : (p : ℕ → Bool) (bs : List ℕ) (b : ℕ) → Has bs b → p b ≡ true → Has (select p bs) b
unfolding select count
select-Has p [] b h e = absurd (omega arith)
select-Has p (c ∷ bs) b h e = elim (Bool-cases (c == b)) [
  | inl same_row ↦
      let eq : c ≡ b = (==_iff c b).0 same_row in let on : p c ≡ true = rw eq e in ground arith
  | inr other ↦ ground (arith, select-Has p bs b)
]

Has-any : (q : ℕ → Bool) (ids : List ℕ) → any q ids ≡ true → (a : ℕ) × Has ids a × (q a ≡ true)
unfolding count
Has-any q [] h = cc
Has-any q (x ∷ ids) h = elim (Bool-cases (q x)) [
  | inl on ↦ (x, ground arith, on)
  | inr off ↦ let (a, inside, e) = Has-any q ids (ground arith) in (a, ground arith, e)
]

any-Has : (q : ℕ → Bool) (ids : List ℕ) (a : ℕ) → Has ids a → q a ≡ true → any q ids ≡ true
unfolding count
any-Has q [] a h e = absurd (omega arith)
any-Has q (x ∷ ids) a h e = elim (Bool-cases (x == a)) [
  | inl here ↦ let eq : x ≡ a = (==_iff x a).0 here in let on : q x ≡ true = rw eq e in rw on
  | inr there ↦ let rest = any-Has q ids a (ground arith) e in ground arith
]

same-universe :
    (f : Table) (fc : List Str) (t : Table) (tc : List Str) (a b : ℕ)
    → same f fc t tc a b ≡ true
    → Has universe b
unfolding count
same-universe f fc t tc a b h = ground arith

db-IsDatabase : IsDatabase db same
db-IsDatabase = record {
  joined = λ distinct f fc t tc ids b h.
      Has-any (λ a. same f fc t tc a b) ids
        (Has-select (λ c. any (λ a. same f fc t tc a c) ids) universe b h);
  matched = λ distinct f fc t tc ids a b inside e.
      select-Has (λ c. any (λ x. same f fc t tc x c) ids) universe b (same-universe f fc t tc a b e)
        (any-Has (λ x. same f fc t tc x b) ids a inside e);
}

abbrev config : DumpSchema
config = record {
  references =
      (
        codes "c.p",
        record {
          columns = codes "p_id" ∷ [];
          reference_columns = codes "id" ∷ [];
          reference_table = codes "p";
          table = codes "c";
          directions = forward ∷ reverse ∷ [];
          deferrable = false;
        },
      )
      ∷ [];
  sequences = [];
  tables =
      (
        codes "p",
        record { columns = codes "id" ∷ []; name = codes "p"; schema = none; sequences = [] },
      )
      ∷ (
        codes "c",
        record {
          columns = codes "id" ∷ codes "p_id" ∷ [];
          name = codes "c";
          schema = none;
          sequences = [];
        },
      )
      ∷ [];
}

abbrev reference : Reference
reference = record {
  directions = forward ∷ reverse ∷ [];
  id = codes "c.p";
  table = codes "c";
  columns = codes "p_id" ∷ [];
  reference_table = codes "p";
  reference_columns = codes "id" ∷ [];
}

abbrev parent : Table
parent = record {
  id = codes "p";
  name = codes "p";
  schema = none;
  columns = codes "id" ∷ [];
  references = [];
  reverse_references = reference ∷ [];
  row_count = pos 0;
  sequences = [];
}

abbrev child : Table
child = record {
  id = codes "c";
  name = codes "c";
  schema = none;
  columns = codes "id" ∷ codes "p_id" ∷ [];
  references = reference ∷ [];
  reverse_references = [];
  row_count = pos 0;
  sequences = [];
}

abbrev schema : Schema
schema = record {
  sequences = [];
  tables = (codes "p", parent) ∷ (codes "c", child) ∷ [];
  references = (codes "c.p", reference) ∷ [];
}

init-config : init config ≡ ok schema
unfolding init get put
init-config = refl

abbrev roots : List Root
roots =
    record { table = child; condition = codes "child" }
    ∷ record { table = parent; condition = [] }
    ∷ []

program : Unit {0}
unfolding run start add IntSet.add sort select get put follows chunks object count count_lt count_le
program = tt

abbrev zeros : List ℕ
zeros = 0 ∷ 0 ∷ 0 ∷ 0 ∷ 0 ∷ 0 ∷ 0 ∷ 0 ∷ 0 ∷ 0 ∷ 0 ∷ 0 ∷ 0 ∷ 0 ∷ 0 ∷ 0 ∷ []

-- The task of the parent's root runs before the task of the child's segment, or after it.
abbrev parent_early : System
parent_early = run schema db counting (start schema db roots) zeros

abbrev parent_late_schedule : List ℕ
parent_late_schedule = 0 ∷ 0 ∷ 0 ∷ 1 ∷ 1 ∷ 1 ∷ 1 ∷ 1 ∷ zeros

abbrev parent_late : System
parent_late = run schema db counting (start schema db roots) parent_late_schedule

parent_early_done : parent_early.pool ≡ []
unfolding program
parent_early_done = refl

parent_late_done : parent_late.pool ≡ []
unfolding program
parent_late_done = refl

-- What is dumped depends on the order of the tasks: row 11 of c is found in one run only, since a
-- row that was first found from a child is not asked for its children again.
order_matters :
    (rows parent_early.result (codes "c") ≡ 10 ∷ 11 ∷ [])
    × (rows parent_late.result (codes "c") ≡ 10 ∷ [])
unfolding program
order_matters = (refl, refl)

written_exactly_example :
    written_count (codes "c") 11 parent_early.output
    ≡ count 11 (rows parent_early.result (codes "c"))
written_exactly_example =
    written_exactly schema db counting-IsNumpy roots zeros (codes "c") 11 parent_early_done

run-IsConsistent_example : IsConsistent parent_late.result
run-IsConsistent_example = run-IsConsistent schema db counting-IsNumpy roots parent_late_schedule

eleven_known : Has (rows parent_early.result (codes "c")) 11
unfolding program
eleven_known = omega arith

run-Reach_example : (t : Table) × (t.id ≡ codes "c") × Reach schema db same roots t 11
run-Reach_example =
    run-Reach schema db same db-IsDatabase roots counting-IsNumpy zeros (codes "c") 11 eleven_known

ten_asked : Has (db.condition child (codes "child")) 10
unfolding count
ten_asked = omega arith

roots_known_example : Has (rows parent_late.result (codes "c")) 10
roots_known_example =
    roots_known schema db roots counting-IsNumpy parent_late_schedule
      (record { table = child; condition = codes "child" }) 10 parent_late_done (Memᴰ.head refl)
      ten_asked

abbrev parent_task : TableTask
parent_task = record {
  segment = record { index = 0; row_ids = 1 ∷ []; table = parent };
  source_direction = none;
  source_reference = none;
}

parent_written : Memᴰ parent_task parent_early.output
unfolding program
parent_written = Memᴰ.tail (Memᴰ.head refl)

one_inside : Has parent_task.segment.row_ids 1
unfolding count
one_inside = omega arith

parent_follows : follows schema db parent_task reference reverse ≡ true
unfolding follows
parent_follows = refl

references_closed_example :
    Has (rows parent_early.result (to_table schema db reference reverse).id) 11
references_closed_example =
    references_closed schema db same db-IsDatabase roots counting-IsNumpy zeros parent_task
      reference reverse 1 11 parent_early_done parent_written one_inside (Memᴰ.head refl)
      parent_follows refl

abbrev at_second : ℕ → ℕ → ℕ
at_second i n = if i == 1 then n else 0

written-listed_example :
    written_weight (number_weight at_second (codes "c")) parent_early.output
    ≡ listed_weight at_second 0 (segments parent_early.result (codes "c"))
written-listed_example =
    written-listed schema db counting-IsNumpy roots zeros at_second (codes "c") parent_early_done
