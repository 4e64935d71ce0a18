-- ===== src/Dump/Tasks/Ops.antt =====
-- What the steps of a task promise together: what they write, and that the segments which they find
-- get their tasks.
use slice_db.Prelude.{
  ℕ, ◌+◌, ◌≡◌, refl, ◌⊎◌, inl, inr, Str, List, [], ◌∷◌, ◌++◌, map, concat, All, Bool, true, false,
  ◌||◌, Option, none, some, str_eq, if◌then◌else◌, Bool-cases, arith,
}
use slice_db.Collection.Numpy.{count}
use slice_db.Formats.{Direction, forward, reverse}
use slice_db.Dump.Schema.{Reference, Table, Schema}
use slice_db.Dump.Discovery.{TableSegment}
use slice_db.Dump.Tasks.{
  Database, Root, TableTask, Op, add_rows, start_tasks, write, Task, take_in, root_task,
  process_reference, follows, table_ops, table_task, chunks, max_size, to_parents, to_children,
}

-- A measure of segments, summed over several, over what was written, over the steps of a task that
-- are yet to write, and over what the tasks of a pool hold or are yet to write.
abbrev pub found_weight : (TableSegment → ℕ) → List TableSegment → ℕ
found_weight m [] = 0
found_weight m (s ∷ ss) = m s + found_weight m ss

abbrev pub written_weight : (TableSegment → ℕ) → List TableTask → ℕ
written_weight m [] = 0
written_weight m (w ∷ ws) = m w.segment + written_weight m ws

abbrev pub ops_weight : (TableSegment → ℕ) → List Op → ℕ
ops_weight m [] = 0
ops_weight m (add_rows t ids ∷ ops) = ops_weight m ops
ops_weight m (start_tasks d r ∷ ops) = ops_weight m ops
ops_weight m (write w ∷ ops) = m w.segment + ops_weight m ops

abbrev pub pool_weight : (TableSegment → ℕ) → List Task → ℕ
pool_weight m [] = 0
pool_weight m (t ∷ ts) = found_weight m t.found + ops_weight m t.ops + pool_weight m ts

-- How often row `v` of table `id` stands in a segment, and in what was written.
abbrev pub segment_count : Str → ℕ → TableSegment → ℕ
segment_count id v s = if str_eq s.table.id id then count v s.row_ids else 0

abbrev pub written_count : Str → ℕ → List TableTask → ℕ
written_count id v = written_weight (segment_count id v)

module _ (m : TableSegment → ℕ) where
  pub found_weight-append :
      (xs ys : List TableSegment)
      → found_weight m (xs ++ ys) ≡ found_weight m xs + found_weight m ys
  found_weight-append [] ys = omega arith
  found_weight-append (x ∷ xs) ys = omega (arith, found_weight-append xs ys)

  pub written_weight-append :
      (xs ys : List TableTask)
      → written_weight m (xs ++ ys) ≡ written_weight m xs + written_weight m ys
  written_weight-append [] ys = omega arith
  written_weight-append (x ∷ xs) ys = omega (arith, written_weight-append xs ys)

  pub pool_weight-append :
      (xs ys : List Task) → pool_weight m (xs ++ ys) ≡ pool_weight m xs + pool_weight m ys
  pool_weight-append [] ys = omega arith
  pool_weight-append (x ∷ xs) ys = omega (arith, pool_weight-append xs ys)

  ops_weight-append :
      (xs ys : List Op) → ops_weight m (xs ++ ys) ≡ ops_weight m xs + ops_weight m ys
  ops_weight-append [] ys = omega arith
  ops_weight-append (add_rows t ids ∷ xs) ys = omega (arith, ops_weight-append xs ys)
  ops_weight-append (start_tasks d r ∷ xs) ys = omega (arith, ops_weight-append xs ys)
  ops_weight-append (write w ∷ xs) ys = omega (arith, ops_weight-append xs ys)

  ops_weight-add_rows :
      (t : Table) (cs : List (List ℕ)) → ops_weight m (map (λ c. add_rows t c) cs) ≡ 0
  ops_weight-add_rows t [] = refl
  ops_weight-add_rows t (c ∷ cs) = ops_weight-add_rows t cs

-- There is a step that starts tasks.
abbrev pub has_start : List Op → Bool
has_start [] = false
has_start (add_rows t ids ∷ ops) = has_start ops
has_start (start_tasks d r ∷ ops) = true
has_start (write w ∷ ops) = has_start ops

-- Whatever finds a segment is followed by a step that starts its task.
abbrev pub IsFlushed : List Op → Type 0
IsFlushed [] = Unit
IsFlushed (add_rows t ids ∷ ops) = (has_start ops ≡ true) × IsFlushed ops
IsFlushed (start_tasks d r ∷ ops) = IsFlushed ops
IsFlushed (write w ∷ ops) = IsFlushed ops

abbrev pub IsReady : Task → Type 0
IsReady t = ((t.found ≡ []) ⊎ (has_start t.ops ≡ true)) × IsFlushed t.ops

has_start-append : (xs ys : List Op) → has_start (xs ++ ys) ≡ (has_start xs || has_start ys)
has_start-append [] ys = refl
has_start-append (add_rows t ids ∷ xs) ys = has_start-append xs ys
has_start-append (start_tasks d r ∷ xs) ys = refl
has_start-append (write w ∷ xs) ys = has_start-append xs ys

IsFlushed-append : (xs ys : List Op) → IsFlushed xs → IsFlushed ys → IsFlushed (xs ++ ys)
IsFlushed-append [] ys hx hy = hy
IsFlushed-append (add_rows t ids ∷ xs) ys hx hy =
    (ground (arith, has_start-append xs ys, hx.0), IsFlushed-append xs ys hx.1 hy)
IsFlushed-append (start_tasks d r ∷ xs) ys hx hy = IsFlushed-append xs ys hx hy
IsFlushed-append (write w ∷ xs) ys hx hy = IsFlushed-append xs ys hx hy

IsFlushed-add_rows :
    (t : Table) (cs : List (List ℕ)) (d : Option Direction) (r : Option Reference)
    → IsFlushed (map (λ c. add_rows t c) cs ++ start_tasks d r ∷ [])
IsFlushed-add_rows t [] d r = tt
IsFlushed-add_rows t (c ∷ cs) d r = (
  ground (arith, has_start-append (map (λ c. add_rows t c) cs) (start_tasks d r ∷ [])),
  IsFlushed-add_rows t cs d r,
)

-- Steps that write nothing and flush.
abbrev IsQuiet : List Op → Type 0
IsQuiet ops = IsFlushed ops × ((m : TableSegment → ℕ) → ops_weight m ops ≡ 0)

IsQuiet-append : (xs ys : List Op) → IsQuiet xs → IsQuiet ys → IsQuiet (xs ++ ys)
IsQuiet-append xs ys hx hy = (
  IsFlushed-append xs ys hx.0 hy.0,
  λ m. omega (arith, ops_weight-append m xs ys, hx.1 m, hy.1 m),
)

module _ (schema : Schema) (db : Database) where
  take_in-IsQuiet :
      (t : Table) (found : List ℕ) (d : Option Direction) (r : Option Reference)
      → IsQuiet (take_in schema db t found d r)
  take_in-IsQuiet t found d r = (
    IsFlushed-add_rows t (chunks max_size found) d r,
    λ m. omega (
      arith,
      ops_weight-append m (map (λ c. add_rows t c) (chunks max_size found)) (start_tasks d r ∷ []),
      ops_weight-add_rows m t (chunks max_size found),
    ),
  )

  process_reference-IsQuiet :
      (task : TableTask) (d : Direction) (r : Reference)
      → IsQuiet (process_reference schema db task d r)
  unfolding process_reference
  process_reference-IsQuiet task d r = elim (Bool-cases (follows schema db task r d)) [
    | inl e ↦ rw e (take_in-IsQuiet _ _ (some d) (some r))
    | inr e ↦ rw e (tt, λ m. refl)
  ]

  concat-IsQuiet :
      (task : TableTask) (d : Direction) (rs : List Reference)
      → IsQuiet (concat (map (process_reference schema db task d) rs))
  concat-IsQuiet task d [] = (tt, λ m. refl)
  concat-IsQuiet task d (r ∷ rs) =
      IsQuiet-append (process_reference schema db task d r) _ (process_reference-IsQuiet task d r)
        (concat-IsQuiet task d rs)

  -- The steps of a table task write its segment once, and flush.
  pub table_ops_lem :
      (task : TableTask)
      → IsFlushed (table_ops schema db task)
        × ((m : TableSegment → ℕ) → ops_weight m (table_ops schema db task) ≡ m task.segment)
  unfolding table_ops
  table_ops_lem task =
      let xs =
        concat (map (process_reference schema db task forward) (to_parents schema db task)) in
      let ys =
        concat (map (process_reference schema db task reverse) (to_children schema db task)) in
      let hx : IsQuiet xs = concat-IsQuiet task forward (to_parents schema db task) in
      let hy : IsQuiet ys = concat-IsQuiet task reverse (to_children schema db task) in
      (
        IsFlushed-append xs _ hx.0 (IsFlushed-append ys (write task ∷ []) hy.0 tt),
        λ m. omega (
          arith,
          ops_weight-append m xs (ys ++ write task ∷ []),
          hx.1 m,
          hy.1 m,
          ops_weight-append m ys (write task ∷ []),
        ),
      )

  pub root_task_lem :
      (root : Root)
      → IsReady (root_task schema db root)
        × ((m : TableSegment → ℕ) → ops_weight m (root_task schema db root).ops ≡ 0)
  unfolding root_task
  root_task_lem root =
      let quiet = take_in-IsQuiet root.table (db.condition root.table root.condition) none none in
      ((inl refl, quiet.0), quiet.1)

  pub table_task_lem :
      (d : Option Direction) (r : Option Reference) (found : List TableSegment)
      → All IsReady (map (table_task schema db d r) found)
        × ((m : TableSegment → ℕ)
            → pool_weight m (map (table_task schema db d r) found) ≡ found_weight m found)
  unfolding table_task
  table_task_lem d r [] = (tt, λ m. refl)
  table_task_lem d r (s ∷ ss) =
      let own =
        table_ops_lem (record { segment = s; source_direction = d; source_reference = r }) in
      let rest = table_task_lem d r ss in
      (((inl refl, own.0), rest.0), λ m. omega (arith, own.1 m, rest.1 m))
