-- ===== src/Dump/Tasks.antt =====
-- slice_db/dump_temp_table.py: the tasks that discover rows and write them. A task is the list of
-- its atomic steps, the parts between two `await`s; which task runs next is the event loop's choice.
-- All transactions of a dump read one snapshot, so a query's answer does not depend on the moment.
pub mod Rules
pub mod Chunks
pub mod Ops
pub mod Partition
pub mod Numbers
pub mod Members
pub mod Sound
pub mod Kept
pub mod Complete
pub mod Closed
mod Sample
use slice_db.Prelude.{
  ℕ, zero, suc, ◌+◌, ◌-◌, ◌*◌, ◌/◌, Str, List, [], ◌∷◌, ◌++◌, map, concat, Bool, true, false, not,
  ◌&&◌, any, Option, none, some, get_elem?, take, drop, slice, length, str_eq, if◌then◌else◌,
}
use slice_db.Prelude.Int.{ℤ, leb_ℤ}
use slice_db.Collection.Numpy.{Numpy}
use slice_db.Formats.{Direction, forward, reverse, direction_eq}
use slice_db.Dump.Schema.{Reference, Table, Schema, object}
use slice_db.Dump.Discovery.{TableSegment, DiscoveryResult, fresh, add}

-- The queries that the tasks send to PostgreSQL, at the snapshot of the dump: `condition` is
-- SELECT ctid FROM table WHERE condition ORDER BY 1, and `join` is SELECT [DISTINCT] b.ctid FROM a
-- JOIN b ON (from_columns) = (to_columns) for the rows `ids` of a, ORDER BY 1.
pub record Database : Type 0 where
  pub condition : Table → Str → List ℕ
  pub join :
      (distinct : Bool) (from_table : Table) (from_columns : List Str) (to_table : Table)
      (to_columns : List Str) (ids : List ℕ)
      → List ℕ

-- Root
pub record Root : Type 0 where
  pub table : Table
  pub condition : Str

abbrev pub max_size : ℕ
max_size = 1000 * 50

-- range(start, …, size), for a number of rounds
abbrev pub range_step : ℕ → ℕ → ℕ → List ℕ
range_step zero start size = []
range_step (suc n) start size = start ∷ range_step n (start + size) size

-- found_ids[i : i + size] for i in range(0, len(found_ids), size)
unfoldable pub chunks : ℕ → List ℕ → List (List ℕ)
chunks size found =
    map (λ i. slice found i (i + size)) (range_step ((length found + (size - 1)) / size) 0 size)

-- sorted(xs, key=key): stable
pub insert_by {ℓ} : {A : Type ℓ} → (A → ℤ) → A → List A → List A
insert_by key x [] = x ∷ []
insert_by key x (y ∷ ys) =
    let rest = insert_by key x ys in if leb_ℤ (key x) (key y) then x ∷ y ∷ ys else y ∷ rest

unfoldable pub sorted_by {ℓ} : {A : Type ℓ} → (A → ℤ) → List A → List A
unfolding insert_by
sorted_by key [] = []
sorted_by key (x ∷ xs) = insert_by key x (sorted_by key xs)

-- _TableTask
pub record TableTask : Type 0 where
  pub segment : TableSegment
  pub source_direction : Option Direction
  pub source_reference : Option Reference

-- The atomic steps of a task.
pub data Op : Type 0 where
  -- result.add, for one chunk
  add_rows : Table → List ℕ → Op
  -- the tasks for the new segments are started
  start_tasks : Option Direction → Option Reference → Op
  -- the rows of the segment are copied to the output
  write : TableTask → Op

pub record Task : Type 0 where
  pub found : List TableSegment
  pub ops : List Op

pub record System : Type 0 where
  pub result : DiscoveryResult
  pub pool : List Task
  pub output : List TableTask

module _ (schema : Schema) (db : Database) where
  -- The steps that take what a query found into the result, and start the tasks.
  abbrev pub take_in : Table → List ℕ → Option Direction → Option Reference → List Op
  take_in t found d r =
      map (λ chunk. add_rows t chunk) (chunks max_size found) ++ start_tasks d r ∷ []

  -- _discover_table_condition
  unfoldable pub root_task : Root → Task
  unfolding chunks
  root_task root = record {
    found = [];
    ops = take_in root.table (db.condition root.table root.condition) none none;
  }

  abbrev pub to_table : Reference → Direction → Table
  to_table r forward = object schema r.reference_table
  to_table r reverse = object schema r.table

  -- _discover_reference
  unfoldable pub discover_reference : TableSegment → Reference → Direction → List ℕ
  discover_reference segment r forward =
      db.join true (object schema r.table) r.columns (object schema r.reference_table)
        r.reference_columns segment.row_ids
  discover_reference segment r reverse =
      db.join false (object schema r.reference_table) r.reference_columns (object schema r.table)
        r.columns segment.row_ids

  -- self.source_direction == direction and self.source_reference is reference
  unfoldable pub came_by : TableTask → Direction → Reference → Bool
  came_by task d r = elim task.source_direction [
    | none ↦ false
    | some source ↦ elim task.source_reference [
      | none ↦ false
      | some q ↦ direction_eq source d && str_eq q.id r.id
    ]
  ]

  -- Whether _process_reference goes on to the query.
  unfoldable pub follows : TableTask → Reference → Direction → Bool
  unfolding came_by
  follows task r forward = any (direction_eq forward) r.directions && not (came_by task reverse r)
  follows task r reverse = any (direction_eq reverse) r.directions && not (came_by task forward r)

  -- _TableTask._process_reference
  unfoldable pub process_reference : TableTask → Direction → Reference → List Op
  unfolding follows discover_reference chunks
  process_reference task d r =
      if follows task r d
      then take_in (to_table r d) (discover_reference task.segment r d) (some d) (some r)
      else []

  -- sorted(self.segment.table.references, key=…), and the same of the reverse references
  unfoldable pub to_parents : TableTask → List Reference
  unfolding sorted_by
  to_parents task =
      sorted_by (λ r. (object schema r.reference_table).row_count) task.segment.table.references

  unfoldable pub to_children : TableTask → List Reference
  unfolding sorted_by
  to_children task =
      sorted_by (λ r. (object schema r.table).row_count) task.segment.table.reverse_references

  -- _TableTask.__call__
  unfoldable pub table_ops : TableTask → List Op
  unfolding process_reference to_parents to_children
  table_ops task =
      concat (map (process_reference task forward) (to_parents task))
      ++ (concat (map (process_reference task reverse) (to_children task)) ++ write task ∷ [])

  unfoldable pub table_task : Option Direction → Option Reference → TableSegment → Task
  unfolding table_ops
  table_task d r segment = record {
    found = [];
    ops = table_ops (record { segment = segment; source_direction = d; source_reference = r });
  }

  abbrev pub if_found : Option TableSegment → List TableSegment
  if_found none = []
  if_found (some s) = s ∷ []

  -- The next step of the task between `front` and `back`. A task without steps is done.
  unfoldable pub perform :
      Numpy → System → List Task → List TableSegment → List Op → List Task → System
  unfolding table_task
  perform np s front found [] back = record s { pool = front ++ back }
  perform np s front found (add_rows t ids ∷ ops) back =
      let (r, segment) = add np s.result t ids in
      record s {
        result = r;
        pool = front ++ (record { found = found ++ if_found segment; ops = ops } ∷ back);
      }
  perform np s front found (start_tasks d r ∷ ops) back = record s {
    pool = front ++ (record { found = []; ops = ops } ∷ (back ++ map (table_task d r) found));
  }
  perform np s front found (write task ∷ ops) back = record s {
    pool = front ++ (record { found = found; ops = ops } ∷ back);
    output = s.output ++ task ∷ [];
  }

  -- The event loop goes on with the task at place `i` of the pool.
  unfoldable pub step : Numpy → System → ℕ → System
  unfolding perform
  step np s i = elim (get_elem? s.pool i) [
    | none ↦ s
    | some task ↦ perform np s (take i s.pool) task.found task.ops (drop (suc i) s.pool)
  ]

  -- A run, by the choices of the event loop.
  unfoldable pub run : Numpy → System → List ℕ → System
  unfolding step
  run np s [] = s
  run np s (i ∷ schedule) = run np (step np s i) schedule

  -- TempTableStrategy.start
  unfoldable pub start : List Root → System
  unfolding root_task
  start roots = record { result = fresh; pool = map root_task roots; output = [] }
