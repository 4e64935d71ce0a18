-- ===== src/Dump/Tasks/Partition.antt =====
-- Every discovered row is written exactly once.
use slice_db.Prelude.{
  ℕ, ◌+◌, ◌≡◌, refl, ap, ◌⊎◌, inl, inr, Str, List, [], ◌∷◌, ◌++◌, map, All, All-append, true, false,
  Option, none, some, str_eq, if◌then◌else◌, arith,
}
use slice_db.Prelude.Dict.{get}
use slice_db.Collection.Numpy.{Numpy, IsNumpy, count}
use slice_db.Dump.Schema.{Table, Schema}
use slice_db.Dump.Discovery.{TableSegment, add}
use slice_db.Dump.Discovery.Effect.{
  rows, IsConsistent, fresh-IsConsistent, add-Effect, segment_rows, IsOf,
}
use slice_db.Dump.Tasks.{
  Database, Root, Op, add_rows, start_tasks, write, Task, System, root_task, table_task, if_found,
  perform, run, start,
}
use slice_db.Dump.Tasks.Rules.{task_of, run_rule}
use slice_db.Dump.Tasks.Ops.{
  found_weight, written_count, pool_weight, segment_count, found_weight-append,
  written_weight-append, pool_weight-append, IsReady, root_task_lem, table_task_lem,
}

-- Each known row is in one segment that was written, or that is to be written or to get its task.
pub record Accounts (s : System) : Type 0 where
  pub consistent : IsConsistent s.result
  pub ready : All IsReady s.pool
  pub counts :
      (id : Str) (v : ℕ)
      → count v (rows s.result id)
        ≡ written_count id v s.output + pool_weight (segment_count id v) s.pool

pub All-middle {ℓ κ} :
    {A : Type ℓ} (P : A → Type κ) (xs : List A) (y : A) (ys : List A)
    → All P (xs ++ (y ∷ ys))
    → All P xs × P y × All P ys
All-middle P [] y ys h = (tt, h.0, h.1)
All-middle P (x ∷ xs) y ys h = let (a, b, c) = All-middle P xs y ys h.1 in ((h.0, a), b, c)

if_found-count :
    (schema : Schema) (db : Database) (id : Str) (v : ℕ) (t : Table) (seg : Option TableSegment)
    → IsOf t seg
    → found_weight (segment_count id v) (if_found schema db seg)
      ≡ (if str_eq t.id id then count v (segment_rows seg) else 0)
unfolding count
if_found-count schema db id v t none h = ground arith
if_found-count schema db id v t (some s) h = rw h (omega arith)

empty_of_ready :
    (id : Str) (v : ℕ) (found : List TableSegment)
    → (found ≡ []) ⊎ (false ≡ true)
    → found_weight (segment_count id v) found ≡ 0
empty_of_ready id v found (inl e) = rw e
empty_of_ready id v found (inr e) = cc

module _ (schema : Schema) (db : Database) {np : Numpy} (laws : IsNumpy np) where
  pub perform-Accounts :
      (s : System) (front : List Task) (found : List TableSegment) (ops : List Op)
      (back : List Task)
      → s.pool ≡ front ++ (task_of found ops ∷ back)
      → Accounts s
      → Accounts (perform schema db np s front found ops back)
  unfolding perform
  perform-Accounts s front found [] back e h =
      let (f, t, b) = All-middle IsReady front (task_of found []) back (rw e at h.ready) in
      record {
        consistent = h.consistent;
        ready = All-append IsReady front back f b;
        counts = λ id v. omega (
          arith,
          h.counts id v,
          ap (pool_weight (segment_count id v)) e,
          empty_of_ready id v found t.0,
          pool_weight-append (segment_count id v) front (task_of found [] ∷ back),
          pool_weight-append (segment_count id v) front back,
        );
      }
  perform-Accounts s front found (add_rows t ids ∷ ops) back e h =
      let (f, k, b) =
        All-middle IsReady front (task_of found (add_rows t ids ∷ ops)) back (rw e at h.ready) in
      let effect = add-Effect laws s.result h.consistent t ids in
      record {
        consistent = effect.consistent;
        ready = All-append IsReady front _ f ((inr k.1.0, k.1.1), b);
        counts = λ id v. ground (
          arith,
          h.counts id v,
          ap (pool_weight (segment_count id v)) e,
          effect.counts id v,
          effect.found,
          pool_weight-append (segment_count id v) front
              (task_of found (add_rows t ids ∷ ops) ∷ back),
          pool_weight-append (segment_count id v) front
              (task_of (found ++ if_found schema db (add np s.result t ids).1) ops ∷ back),
          found_weight-append (segment_count id v) found
              (if_found schema db (add np s.result t ids).1),
          if_found-count schema db id v t (add np s.result t ids).1 effect.of_table,
        );
      }
  perform-Accounts s front found (start_tasks d r ∷ ops) back e h =
      let (f, k, b) =
        All-middle IsReady front (task_of found (start_tasks d r ∷ ops)) back (rw e at h.ready) in
      let (new_ready, new_counts) = table_task_lem schema db d r found in
      record {
        consistent = h.consistent;
        ready =
            All-append IsReady front _ f ((inl refl, k.1), All-append IsReady back _ b new_ready);
        counts = λ id v. omega (
          arith,
          h.counts id v,
          ap (pool_weight (segment_count id v)) e,
          new_counts (segment_count id v),
          pool_weight-append (segment_count id v) front
              (task_of found (start_tasks d r ∷ ops) ∷ back),
          pool_weight-append (segment_count id v) front
              (task_of [] ops ∷ (back ++ map (table_task schema db d r) found)),
          pool_weight-append (segment_count id v) back (map (table_task schema db d r) found),
        );
      }
  perform-Accounts s front found (write w ∷ ops) back e h =
      let (f, k, b) =
        All-middle IsReady front (task_of found (write w ∷ ops)) back (rw e at h.ready) in
      record {
        consistent = h.consistent;
        ready = All-append IsReady front _ f (k, b);
        counts = λ id v. omega (
          arith,
          h.counts id v,
          ap (pool_weight (segment_count id v)) e,
          written_weight-append (segment_count id v) s.output (w ∷ []),
          pool_weight-append (segment_count id v) front (task_of found (write w ∷ ops) ∷ back),
          pool_weight-append (segment_count id v) front (task_of found ops ∷ back),
        );
      }

  roots-IsReady : (roots : List Root) → All IsReady (map (root_task schema db) roots)
  roots-IsReady [] = tt
  roots-IsReady (root ∷ roots) = ((root_task_lem schema db root).0, roots-IsReady roots)

  roots-count :
      (roots : List Root) (id : Str) (v : ℕ)
      → pool_weight (segment_count id v) (map (root_task schema db) roots) ≡ 0
  unfolding root_task
  roots-count [] id v = refl
  roots-count (root ∷ roots) id v =
      omega (arith, (root_task_lem schema db root).1 (segment_count id v), roots-count roots id v)

  pub roots-Accounts : (roots : List Root) → Accounts (start schema db roots)
  unfolding start count get
  roots-Accounts roots = record {
    consistent = fresh-IsConsistent;
    ready = roots-IsReady roots;
    counts = λ id v. omega (arith, roots-count roots id v);
  }

  pub run-Accounts :
      (roots : List Root) (schedule : List ℕ)
      → Accounts (run schema db np (start schema db roots) schedule)
  run-Accounts roots schedule =
      run_rule schema db np Accounts perform-Accounts (start schema db roots) schedule
        (roots-Accounts roots)

-- In whatever order the tasks run, when none is left each row that was discovered of a table has
-- been written as often as it is known, which is once where it was found once; no row is written
-- that is not known.
pub written_exactly :
    (schema : Schema) (db : Database) {np : Numpy} (laws : IsNumpy np) (roots : List Root)
    (schedule : List ℕ) (id : Str) (v : ℕ)
    → (run schema db np (start schema db roots) schedule).pool ≡ []
    → written_count id v (run schema db np (start schema db roots) schedule).output
      ≡ count v (rows (run schema db np (start schema db roots) schedule).result id)
written_exactly schema db laws roots schedule id v e = omega (
  arith,
  (run-Accounts schema db laws roots schedule).counts id v,
  ap (pool_weight (segment_count id v)) e,
)

-- At every moment of every run the result's parts agree: the arrays are sorted, the manifest
-- promises for each table as many rows as are known, a table is in the manifest exactly when it has
-- a row, and the row count is the sum.
pub run-IsConsistent :
    (schema : Schema) (db : Database) {np : Numpy} (laws : IsNumpy np) (roots : List Root)
    (schedule : List ℕ)
    → IsConsistent (run schema db np (start schema db roots) schedule).result
run-IsConsistent schema db laws roots schedule =
    (run-Accounts schema db laws roots schedule).consistent
