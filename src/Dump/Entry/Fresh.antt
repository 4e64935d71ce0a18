-- ===== src/Dump/Entry/Fresh.antt =====
-- What the discovery of rows leaves alone in the result.
use slice_db.Prelude.{ℕ, ◌≡◌, refl, List, [], ◌∷◌, ◌++◌}
use slice_db.Collection.Numpy.{Numpy}
use slice_db.Dump.Schema.{Table, Schema}
use slice_db.Dump.Discovery.{TableSegment, DiscoveryResult, ids_of, add_segment, add}
use slice_db.Prelude.Dict.{put}
use slice_db.Collection.IntSet
use slice_db.Dump.Tasks.{
  Database, Root, Op, add_rows, start_tasks, write, Task, System, perform, run, start,
}
use slice_db.Dump.Tasks.Rules.{task_of, run_rule}

-- No sequence and no statement is in the result.
abbrev pub IsFresh : DiscoveryResult → Type 0
IsFresh r = (r.sequence_manifests ≡ []) × (r.section_counts ≡ [])

add_segment-IsFresh :
    (r : DiscoveryResult) (t : Table) (new : List ℕ) → IsFresh r → IsFresh (add_segment r t new).0
unfolding add_segment
add_segment-IsFresh r t [] h = h
add_segment-IsFresh r t (x ∷ xs) h = h

add-IsFresh :
    (np : Numpy) (r : DiscoveryResult) (t : Table) (ids : List ℕ)
    → IsFresh r
    → IsFresh (add np r t ids).0
unfolding add
add-IsFresh np r t ids h =
    let (known, new) = IntSet.add np (ids_of r t.id) ids in
    add_segment-IsFresh (record r { row_ids = put r.row_ids t.id known }) t new h

module _ (schema : Schema) (db : Database) (np : Numpy) where
  perform-IsFresh :
      (s : System) (front : List Task) (found : List TableSegment) (ops : List Op)
      (back : List Task)
      → s.pool ≡ front ++ (task_of found ops ∷ back)
      → IsFresh s.result
      → IsFresh (perform schema db np s front found ops back).result
  unfolding perform
  perform-IsFresh s front found [] back e h = h
  perform-IsFresh s front found (add_rows t ids ∷ ops) back e h = add-IsFresh np s.result t ids h
  perform-IsFresh s front found (start_tasks d r ∷ ops) back e h = h
  perform-IsFresh s front found (write w ∷ ops) back e h = h

  pub run-IsFresh :
      (roots : List Root) (schedule : List ℕ)
      → IsFresh (run schema db np (start schema db roots) schedule).result
  unfolding start
  run-IsFresh roots schedule =
      run_rule schema db np (λ s. IsFresh s.result) perform-IsFresh (start schema db roots) schedule
        (refl, refl)
