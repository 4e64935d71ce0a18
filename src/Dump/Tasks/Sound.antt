-- ===== src/Dump/Tasks/Sound.antt =====
-- Every row that is discovered can be reached from the roots.
use mathlib.Core.List.{Memᴰ}
use slice_db.Prelude.{
  ℕ, ◌≡◌, refl, inl, inr, Str, List, [], ◌∷◌, ◌++◌, map, concat, All, All-append, Bool, true, false,
  any, Option, none, some, str_eq, str_eq_iff, Bool-cases, arith, ◌==◌,
}
use slice_db.Prelude.Dict.{get}
use slice_db.Collection.Numpy.{Numpy, IsNumpy, count}
use slice_db.Collection.IntSet.Laws.{missing}
use slice_db.Formats.{Direction, forward, reverse, direction_eq}
use slice_db.Dump.Schema.{Reference, Table, Schema, object}
use slice_db.Dump.Discovery.{TableSegment, DiscoveryResult}
use slice_db.Dump.Discovery.Effect.{rows, Effect, add-Effect, segment_rows, IsOf}
use slice_db.Dump.Tasks.{
  Database, Root, TableTask, Op, add_rows, start_tasks, write, Task, System, root_task, table_task,
  table_ops, if_found, perform, run, start, to_table, discover_reference, follows,
  process_reference, take_in, chunks, max_size, to_parents, to_children,
}
use slice_db.Dump.Tasks.Rules.{task_of, run_rule}
use slice_db.Dump.Tasks.Partition.{Accounts, perform-Accounts, roots-Accounts, All-middle}
use slice_db.Dump.Tasks.Members.{Has, Has-chunk, Has-missing, mem-sorted_by}

-- Whether row `a` of one table and row `b` of another have the same values in the columns.
abbrev pub Match : Type 0
Match =
    (from_table : Table) (from_columns : List Str) (to_table : Table) (to_columns : List Str)
    (a b : ℕ)
    → Bool

-- What a join gives: the rows of the second table that match one of the given rows.
pub record IsDatabase (db : Database) (same : Match) : Type 0 where
  pub joined :
      (distinct : Bool) (f : Table) (fc : List Str) (t : Table) (tc : List Str) (ids : List ℕ)
      (b : ℕ)
      → Has (db.join distinct f fc t tc ids) b
      → (a : ℕ) × Has ids a × (same f fc t tc a b ≡ true)
  pub matched :
      (distinct : Bool) (f : Table) (fc : List Str) (t : Table) (tc : List Str) (ids : List ℕ)
      (a b : ℕ)
      → Has ids a
      → same f fc t tc a b ≡ true
      → Has (db.join distinct f fc t tc ids) b

abbrev pub references_of : Table → Direction → List Reference
references_of t forward = t.references
references_of t reverse = t.reverse_references

-- Row `b` is related to row `a` by the reference, in that direction.
abbrev pub Related : Schema → Match → Reference → Direction → ℕ → ℕ → Type 0
Related s same r forward a b =
    same (object s r.table) r.columns (object s r.reference_table) r.reference_columns a b ≡ true
Related s same r reverse a b =
    same (object s r.reference_table) r.reference_columns (object s r.table) r.columns a b ≡ true

-- The rows that lead from the roots along references, in their directions.
pub data Reach (schema : Schema) (db : Database) (same : Match) (roots : List Root)
    : Table → ℕ → Type 0 where
  from_root :
      (root : Root) (v : ℕ)
      → Memᴰ root roots
      → Has (db.condition root.table root.condition) v
      → Reach schema db same roots root.table v
  along :
      {t : Table} {a : ℕ} (r : Reference) (d : Direction) (b : ℕ)
      → Reach schema db same roots t a
      → Memᴰ r (references_of t d)
      → any (direction_eq d) r.directions ≡ true
      → Related schema same r d a b
      → Reach schema db same roots (to_table schema db r d) b

module _ (schema : Schema) (db : Database) (same : Match) (laws : IsDatabase db same)
    (roots : List Root) where
  abbrev Reached : Table → ℕ → Type 0
  Reached = Reach schema db same roots

  -- Only reached rows are in the segment, or will be added by the step.
  abbrev SegmentReached : TableSegment → Type 0
  SegmentReached s = (v : ℕ) → Has s.row_ids v → Reached s.table v

  abbrev OpReached : Op → Type 0
  OpReached (add_rows t ids) = (v : ℕ) → Has ids v → Reached t v
  OpReached (start_tasks d r) = Unit
  OpReached (write w) = Unit

  abbrev TaskReached : Task → Type 0
  TaskReached t = All SegmentReached t.found × All OpReached t.ops

  take_in-OpReached :
      (t : Table) (found : List ℕ) (d : Option Direction) (r : Option Reference)
      → ((v : ℕ) → Has found v → Reached t v)
      → All OpReached (take_in schema db t found d r)
  take_in-OpReached t found d r h =
      All-append OpReached (map (λ c. add_rows t c) (chunks max_size found)) (start_tasks d r ∷ [])
        (adds (chunks max_size found) (Has-chunk found)) (tt, tt)
    where
      adds :
          (cs : List (List ℕ))
          → All (λ c. (v : ℕ) → Has c v → Has found v) cs
          → All OpReached (map (λ c. add_rows t c) cs)
      adds [] k = tt
      adds (c ∷ cs) k = ((λ v m. h v (k.0 v m)), adds cs k.1)

  discover-Reached :
      (s : TableSegment) (r : Reference) (d : Direction)
      → SegmentReached s
      → Memᴰ r (references_of s.table d)
      → any (direction_eq d) r.directions ≡ true
      → (v : ℕ) → Has (discover_reference schema db s r d) v
      → Reached (to_table schema db r d) v
  unfolding discover_reference
  discover-Reached s r forward h m on v found =
      let (a, inside, e) = laws.joined true _ _ _ _ s.row_ids v found in
      along r forward v (h a inside) m on e
  discover-Reached s r reverse h m on v found =
      let (a, inside, e) = laws.joined false _ _ _ _ s.row_ids v found in
      along r reverse v (h a inside) m on e

  follows-on :
      (task : TableTask) (r : Reference) (d : Direction)
      → follows schema db task r d ≡ true
      → any (direction_eq d) r.directions ≡ true
  unfolding follows
  follows-on task r forward h = ground arith
  follows-on task r reverse h = ground arith

  process-OpReached :
      (task : TableTask) (d : Direction) (r : Reference)
      → SegmentReached task.segment
      → Memᴰ r (references_of task.segment.table d)
      → All OpReached (process_reference schema db task d r)
  unfolding process_reference
  process-OpReached task d r h m = elim (Bool-cases (follows schema db task r d)) [
    | inl e ↦ rw e (
        take_in-OpReached _ _ (some d) (some r)
          (discover-Reached task.segment r d h m (follows-on task r d e)))
    | inr e ↦ rw e tt
  ]

  concat-OpReached :
      (task : TableTask) (d : Direction) (rs : List Reference)
      → SegmentReached task.segment
      → ((r : Reference) → Memᴰ r rs → Memᴰ r (references_of task.segment.table d))
      → All OpReached (concat (map (process_reference schema db task d) rs))
  concat-OpReached task d [] h m = tt
  concat-OpReached task d (r ∷ rs) h m =
      All-append OpReached (process_reference schema db task d r) _
        (process-OpReached task d r h (m r (Memᴰ.head refl)))
        (concat-OpReached task d rs h (λ q k. m q (Memᴰ.tail k)))

  table_ops-OpReached :
      (task : TableTask) → SegmentReached task.segment → All OpReached (table_ops schema db task)
  unfolding table_ops
  table_ops-OpReached task h =
      All-append OpReached
        (concat (map (process_reference schema db task forward) (to_parents schema db task))) _
        (concat-OpReached task forward (to_parents schema db task) h (λ r m.
          (mem-sorted_by (λ q. (object schema q.reference_table).row_count) r
              task.segment.table.references).0
            (unfold to_parents in m)))
        (All-append OpReached
          (concat (map (process_reference schema db task reverse) (to_children schema db task))) _
          (concat-OpReached task reverse (to_children schema db task) h (λ r m.
            (mem-sorted_by (λ q. (object schema q.table).row_count) r
                task.segment.table.reverse_references).0
              (unfold to_children in m)))
          (tt, tt))

  tasks-TaskReached :
      (d : Option Direction) (r : Option Reference) (found : List TableSegment)
      → All SegmentReached found
      → All TaskReached (map (table_task schema db d r) found)
  unfolding table_task
  tasks-TaskReached d r [] h = tt
  tasks-TaskReached d r (s ∷ ss) h = ((tt, table_ops-OpReached _ h.0), tasks-TaskReached d r ss h.1)

  -- Only reached rows are known, and only reached rows will be.
  pub record IsSound (s : System) : Type 0 where
    pub accounts : Accounts s
    pub known :
        (id : Str) (v : ℕ) → Has (rows s.result id) v → (t : Table) × (t.id ≡ id) × Reached t v
    pub waiting : All TaskReached s.pool

  found-SegmentReached :
      (t : Table) (ids a : List ℕ) (seg : Option TableSegment)
      → ((v : ℕ) → Has ids v → Reached t v)
      → segment_rows seg ≡ missing a ids
      → IsOf t seg
      → All SegmentReached (if_found schema db seg)
  found-SegmentReached t ids a none h e k = tt
  found-SegmentReached t ids a (some s) h e k =
      ((λ v m. rw k (h v (Has-missing a ids v (rw e at m)))), tt)

  known-add :
      (r : DiscoveryResult) (t : Table) (ids : List ℕ) {r' : DiscoveryResult}
      {seg : Option TableSegment}
      → Effect r t ids r' seg
      → (id : Str) (v : ℕ) → (Has (rows r id) v → (u : Table) × (u.id ≡ id) × Reached u v)
      → ((w : ℕ) → Has ids w → Reached t w)
      → Has (rows r' id) v
      → (u : Table) × (u.id ≡ id) × Reached u v
  known-add r t ids effect id v old new m = elim (Bool-cases (str_eq t.id id)) [
    | inl here ↦ elim (Bool-cases (count v (rows r id) == 0)) [
      | inl e ↦ (
        t,
        (str_eq_iff t.id id).0 here,
        new v (Has-missing (rows r t.id) ids v (ground (arith, effect.counts id v))),
      )
      | inr e ↦ old (ground arith)
    ]
    | inr there ↦ old (ground (arith, effect.counts id v))
  ]

  module _ {np : Numpy} (numpy : IsNumpy np) where
    perform-IsSound :
        (s : System) (front : List Task) (found : List TableSegment) (ops : List Op)
        (back : List Task)
        → s.pool ≡ front ++ (task_of found ops ∷ back)
        → IsSound s
        → IsSound (perform schema db np s front found ops back)
    perform-IsSound s front found [] back e h =
        let (f, k, b) = All-middle TaskReached front (task_of found []) back (rw e at h.waiting) in
        record {
          accounts = perform-Accounts schema db numpy s front found [] back e h.accounts;
          known = unfold perform in h.known;
          waiting = unfold perform in All-append TaskReached front back f b;
        }
    perform-IsSound s front found (add_rows t ids ∷ ops) back e h =
        let (f, k, b) =
          All-middle TaskReached front (task_of found (add_rows t ids ∷ ops)) back
            (rw e at h.waiting) in
        let effect = add-Effect numpy s.result h.accounts.consistent t ids in
        record {
          accounts =
              perform-Accounts schema db numpy s front found (add_rows t ids ∷ ops) back e
                h.accounts;
          known =
              unfold perform in
              λ id v m. known-add s.result t ids effect id v (h.known id v) k.1.0 m;
          waiting =
              unfold perform in
              All-append TaskReached front _ f (
                (
                  All-append SegmentReached found _ k.0 (
                      found-SegmentReached t ids (rows s.result t.id) _ k.1.0 effect.found
                        effect.of_table),
                  k.1.1,
                ),
                b,
              );
        }
    perform-IsSound s front found (start_tasks d r ∷ ops) back e h =
        let (f, k, b) =
          All-middle TaskReached front (task_of found (start_tasks d r ∷ ops)) back
            (rw e at h.waiting) in
        record {
          accounts =
              perform-Accounts schema db numpy s front found (start_tasks d r ∷ ops) back e
                h.accounts;
          known = unfold perform in h.known;
          waiting =
              unfold perform in
              All-append TaskReached front _ f
                ((tt, k.1.1), All-append TaskReached back _ b (tasks-TaskReached d r found k.0));
        }
    perform-IsSound s front found (write w ∷ ops) back e h =
        let (f, k, b) =
          All-middle TaskReached front (task_of found (write w ∷ ops)) back (rw e at h.waiting) in
        record {
          accounts =
              perform-Accounts schema db numpy s front found (write w ∷ ops) back e h.accounts;
          known = unfold perform in h.known;
          waiting = unfold perform in All-append TaskReached front _ f ((k.0, k.1.1), b);
        }

    roots-TaskReached :
        (rs : List Root)
        → ((root : Root) → Memᴰ root rs → Memᴰ root roots)
        → All TaskReached (map (root_task schema db) rs)
    unfolding root_task
    roots-TaskReached [] m = tt
    roots-TaskReached (root ∷ rs) m = (
      (
        tt,
        take_in-OpReached root.table (db.condition root.table root.condition) none none
            (λ v found. from_root root v (m root (Memᴰ.head refl)) found),
      ),
      roots-TaskReached rs (λ q k. m q (Memᴰ.tail k)),
    )

    start-IsSound : IsSound (start schema db roots)
    start-IsSound = record {
      accounts = roots-Accounts schema db numpy roots;
      known = unfold start count get in λ id v m. absurd (omega arith);
      waiting = unfold start in roots-TaskReached roots (λ root m. m);
    }

    pub run-IsSound :
        (schedule : List ℕ) → IsSound (run schema db np (start schema db roots) schedule)
    run-IsSound schedule =
        run_rule schema db np IsSound perform-IsSound (start schema db roots) schedule start-IsSound

-- In whatever order the tasks run, and at every moment, each row that is known of a table is reached
-- from the rows of the roots along references in directions that they allow.
pub run-Reach :
    (schema : Schema) (db : Database) (same : Match) (laws : IsDatabase db same) (roots : List Root)
    {np : Numpy} (numpy : IsNumpy np) (schedule : List ℕ) (id : Str) (v : ℕ)
    → Has (rows (run schema db np (start schema db roots) schedule).result id) v
    → (t : Table) × (t.id ≡ id) × Reach schema db same roots t v
run-Reach schema db same laws roots numpy schedule id v h =
    (run-IsSound schema db same laws roots numpy schedule).known id v h
