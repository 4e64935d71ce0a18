-- ===== src/Dump/Tasks/Numbers.antt =====
-- The written segments are those that the manifest lists.
use slice_db.Prelude.{
  ℕ, ◌+◌, ◌≡◌, refl, ap, Str, List, [], ◌∷◌, ◌++◌, map, Option, none, some, arith, inl, inr, ◌⊎◌,
  true, false,
}
use slice_db.Prelude.Dict.{get}
use slice_db.Collection.Numpy.{Numpy, IsNumpy}
use slice_db.Dump.Schema.{Schema}
use slice_db.Dump.Discovery.{TableSegment, add}
use slice_db.Dump.Discovery.Numbers.{
  segments, listed_weight, number_weight, option_weight, add-numbers,
}
use slice_db.Dump.Tasks.{
  Database, Root, Op, add_rows, start_tasks, write, Task, System, table_task, if_found, perform,
  run, start, root_task,
}
use slice_db.Dump.Tasks.Rules.{task_of, run_rule}
use slice_db.Dump.Tasks.Ops.{
  found_weight, written_weight, pool_weight, found_weight-append, written_weight-append,
  pool_weight-append, IsReady, root_task_lem, table_task_lem,
}
use slice_db.Dump.Tasks.Partition.{Accounts, All-middle, perform-Accounts, roots-Accounts}

-- Each segment that the manifest lists was written, or is to be written or to get its task.
record Numbered (s : System) : Type 0 where
  accounts : Accounts s
  numbers :
      (g : ℕ → ℕ → ℕ) (id : Str)
      → listed_weight g 0 (segments s.result id)
        ≡ written_weight (number_weight g id) s.output + pool_weight (number_weight g id) s.pool

if_found-weight :
    (schema : Schema) (db : Database) (m : TableSegment → ℕ) (seg : Option TableSegment)
    → found_weight m (if_found schema db seg) ≡ option_weight m seg
if_found-weight schema db m none = refl
if_found-weight schema db m (some s) = omega arith

unstarted :
    (m : TableSegment → ℕ) (found : List TableSegment)
    → (found ≡ []) ⊎ (false ≡ true)
    → found_weight m found ≡ 0
unstarted m found (inl e) = rw e
unstarted m found (inr e) = cc

module _ (schema : Schema) (db : Database) {np : Numpy} (laws : IsNumpy np) where
  perform-numbers :
      (s : System) (front : List Task) (found : List TableSegment) (ops : List Op)
      (back : List Task)
      → s.pool ≡ front ++ (task_of found ops ∷ back)
      → Numbered s
      → (g : ℕ → ℕ → ℕ) (id : Str)
      → listed_weight g 0 (segments (perform schema db np s front found ops back).result id)
        ≡ written_weight (number_weight g id) (perform schema db np s front found ops back).output
          + pool_weight (number_weight g id) (perform schema db np s front found ops back).pool
  unfolding perform
  perform-numbers s front found [] back e h g id =
      let m = number_weight g id in
      let (f, t, b) = All-middle IsReady front (task_of found []) back (rw e at h.accounts.ready) in
      omega (
        arith,
        h.numbers g id,
        ap (pool_weight m) e,
        unstarted m found t.0,
        pool_weight-append m front (task_of found [] ∷ back),
        pool_weight-append m front back,
      )
  perform-numbers s front found (add_rows t ids ∷ ops) back e h g id =
      let m = number_weight g id in
      let new = if_found schema db (add np s.result t ids).1 in
      omega (
        arith,
        h.numbers g id,
        ap (pool_weight m) e,
        add-numbers g s.result t np ids id,
        pool_weight-append m front (task_of found (add_rows t ids ∷ ops) ∷ back),
        pool_weight-append m front (task_of (found ++ new) ops ∷ back),
        found_weight-append m found new,
        if_found-weight schema db m (add np s.result t ids).1,
      )
  perform-numbers s front found (start_tasks d r ∷ ops) back e h g id =
      let m = number_weight g id in
      let (ready, new_weight) = table_task_lem schema db d r found in
      omega (
        arith,
        h.numbers g id,
        ap (pool_weight m) e,
        new_weight m,
        pool_weight-append m front (task_of found (start_tasks d r ∷ ops) ∷ back),
        pool_weight-append m front
            (task_of [] ops ∷ (back ++ map (table_task schema db d r) found)),
        pool_weight-append m back (map (table_task schema db d r) found),
      )
  perform-numbers s front found (write w ∷ ops) back e h g id =
      let m = number_weight g id in
      omega (
        arith,
        h.numbers g id,
        ap (pool_weight m) e,
        written_weight-append m s.output (w ∷ []),
        pool_weight-append m front (task_of found (write w ∷ ops) ∷ back),
        pool_weight-append m front (task_of found ops ∷ back),
      )

  perform-Numbered :
      (s : System) (front : List Task) (found : List TableSegment) (ops : List Op)
      (back : List Task)
      → s.pool ≡ front ++ (task_of found ops ∷ back)
      → Numbered s
      → Numbered (perform schema db np s front found ops back)
  perform-Numbered s front found ops back e h = record {
    accounts = perform-Accounts schema db laws s front found ops back e h.accounts;
    numbers = perform-numbers s front found ops back e h;
  }

  roots-weight :
      (roots : List Root) (m : TableSegment → ℕ)
      → pool_weight m (map (root_task schema db) roots) ≡ 0
  unfolding root_task
  roots-weight [] m = refl
  roots-weight (root ∷ roots) m =
      omega (arith, (root_task_lem schema db root).1 m, roots-weight roots m)

  roots-Numbered : (roots : List Root) → Numbered (start schema db roots)
  unfolding start get
  roots-Numbered roots = record {
    accounts = roots-Accounts schema db laws roots;
    numbers = λ g id. omega (arith, roots-weight roots (number_weight g id));
  }

-- In whatever order the tasks run, when none is left the written segments of a table are those that
-- the manifest lists for it, each once, with its index in the list and its number of rows: any
-- measure of index and row count has the same sum over both.
pub written-listed :
    (schema : Schema) (db : Database) {np : Numpy} (laws : IsNumpy np) (roots : List Root)
    (schedule : List ℕ) (g : ℕ → ℕ → ℕ) (id : Str)
    → (run schema db np (start schema db roots) schedule).pool ≡ []
    → written_weight (number_weight g id) (run schema db np (start schema db roots) schedule).output
      ≡ listed_weight g 0 (segments (run schema db np (start schema db roots) schedule).result id)
written-listed schema db {np} laws roots schedule g id e =
    let all : Numbered (run schema db np (start schema db roots) schedule) =
      run_rule schema db np Numbered (perform-Numbered schema db laws) (start schema db roots)
        schedule (roots-Numbered schema db laws roots) in
    omega (arith, all.numbers g id, ap (pool_weight (number_weight g id)) e)
