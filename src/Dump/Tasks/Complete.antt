-- ===== src/Dump/Tasks/Complete.antt =====
-- When no task is left, what the roots ask for is known, and so is every row that is related to a
-- written one by a reference that its task followed.
use mathlib.Core.List.{Memᴰ}
use mathlib.Core.List.Memᴰ
use mathlib.Core.Path.{subst}
use slice_db.Prelude.{
  ℕ, ◌≡◌, refl, inl, inr, List, [], ◌∷◌, ◌++◌, map, concat, All, All-append, All-map, Bool, true,
  false, Option, some,
}
use slice_db.Collection.Numpy.{Numpy, IsNumpy}
use slice_db.Formats.{Direction, forward, reverse}
use slice_db.Dump.Schema.{Reference, Table, Schema}
use slice_db.Dump.Discovery.{TableSegment}
use slice_db.Dump.Tasks.{
  Database, Root, TableTask, Op, add_rows, start_tasks, write, Task, System, table_task, table_ops,
  perform, follows, process_reference, take_in, chunks, max_size, to_parents, to_children,
}
use slice_db.Dump.Tasks.Rules.{task_of}
use slice_db.Dump.Tasks.Partition.{perform-Accounts, All-middle}
use slice_db.Dump.Tasks.Members.{All-mem}
use slice_db.Dump.Tasks.Kept.{
  IsPending, IsPending-right, IsKept, IsKept-perform, WriteKept, OpKept, TaskKept, IsComplete,
  WriteKept-keep, TaskKept-keep, asked-keep,
}

module _ (schema : Schema) (db : Database) where
  -- The only task that a task's own steps write is the task itself.
  abbrev WritesOnly : System → TableTask → Op → Type 0
  WritesOnly s w op = WriteKept schema db s w → OpKept schema db s op

  module _ (s : System) (w : TableTask) where
    take_in-WritesOnly :
        (t : Table) (found : List ℕ) (d : Option Direction) (r : Option Reference)
        → All (WritesOnly s w) (take_in schema db t found d r)
    take_in-WritesOnly t found d r =
        All-append (WritesOnly s w) (map (λ c. add_rows t c) (chunks max_size found))
          (start_tasks d r ∷ []) (adds (chunks max_size found)) ((λ h. tt), tt)
      where
        adds : (cs : List (List ℕ)) → All (WritesOnly s w) (map (λ c. add_rows t c) cs)
        adds [] = tt
        adds (c ∷ cs) = ((λ h. tt), adds cs)

    concat-WritesOnly :
        (d : Direction) (rs : List Reference)
        → All (WritesOnly s w) (concat (map (process_reference schema db w d) rs))
    unfolding process_reference
    concat-WritesOnly d [] = tt
    concat-WritesOnly d (r ∷ rs) =
        All-append (WritesOnly s w) (process_reference schema db w d r) _
          (one (follows schema db w r d) refl) (concat-WritesOnly d rs)
      where
        one :
            (b : Bool)
            → follows schema db w r d ≡ b
            → All (WritesOnly s w) (process_reference schema db w d r)
        one true e = rw (process_reference, e) (take_in-WritesOnly _ _ (some d) (some r))
        one false e = rw (process_reference, e) tt

    table_ops-OpKept : WriteKept schema db s w → All (OpKept schema db s) (table_ops schema db w)
    unfolding table_ops
    table_ops-OpKept h =
        All-map (WritesOnly s w) (OpKept schema db s) (table_ops schema db w) (λ op k. k h)
          (All-append (WritesOnly s w) _ _ (concat-WritesOnly forward (to_parents schema db w)) (
            All-append (WritesOnly s w) _ _ (concat-WritesOnly reverse (to_children schema db w))
              ((λ k. k), tt)))

  abbrev started : Option Direction → Option Reference → TableSegment → TableTask
  started d r seg = record { segment = seg; source_direction = d; source_reference = r }

  IsPending-started :
      (d : Option Direction) (r : Option Reference) (seg : TableSegment) (found : List TableSegment)
      (op : Op)
      → Memᴰ seg found
      → Memᴰ op (table_ops schema db (started d r seg))
      → IsPending op (map (table_task schema db d r) found)
  unfolding table_task
  IsPending-started d r seg [] op m k = absurd (Memᴰ.not-nil m)
  IsPending-started d r seg (s ∷ found) op m k = elim (Memᴰ.cases_cons m) [
    | inl e ↦ inl (rw (← e) k)
    | inr h ↦ inr (IsPending-started d r seg found op h k)
  ]

  started-TaskKept :
      (s : System) (d : Option Direction) (r : Option Reference) (all found : List TableSegment)
      → ((seg : TableSegment) → Memᴰ seg found → Memᴰ seg all)
      → ((op : Op) → IsPending op (map (table_task schema db d r) all) → IsPending op s.pool)
      → All (TaskKept schema db s) (map (table_task schema db d r) found)
  unfolding table_task
  started-TaskKept s d r all [] m p = tt
  started-TaskKept s d r all (seg ∷ found) m p = (
    table_ops-OpKept s (started d r seg) (
        All-mem (IsKept s) (table_ops schema db (started d r seg)) (λ op k. inr (
          p op
            (unfold table_task in IsPending-started d r seg all op (m seg (Memᴰ.head refl)) k)))),
    started-TaskKept s d r all found (λ q k. m q (Memᴰ.tail k)) p,
  )

  -- What an operation writes has `Q`.
  abbrev Writes {ℓ} : (TableTask → Type ℓ) → Op → Type ℓ
  Writes Q (add_rows t ids) = Unit
  Writes Q (start_tasks d r) = Unit
  Writes Q (write w) = Q w

  perform_written {ℓ} :
      (Q : TableTask → Type ℓ) (np : Numpy) (s : System) (front : List Task)
      (found : List TableSegment) (ops : List Op) (back : List Task)
      → All (Writes Q) ops
      → All Q s.output
      → All Q (perform schema db np s front found ops back).output
  unfolding perform
  perform_written Q np s front found [] back k h = h
  perform_written Q np s front found (add_rows t ids ∷ ops) back k h = h
  perform_written Q np s front found (start_tasks d r ∷ ops) back k h = h
  perform_written Q np s front found (write w ∷ ops) back k h =
      All-append Q s.output (w ∷ []) h (k.0, tt)

  perform_waiting {ℓ} :
      (Q : TableTask → Type ℓ) (np : Numpy) (s : System) (front : List Task)
      (found : List TableSegment) (ops : List Op) (back : List Task)
      → All (λ t. All (Writes Q) t.ops) front
      → All (Writes Q) ops
      → All (λ t. All (Writes Q) t.ops) back
      → ((d : Option Direction) (r : Option Reference) (rest : List Op)
          → ops ≡ start_tasks d r ∷ rest
          → All (λ t. All (Writes Q) t.ops) (map (table_task schema db d r) found))
      → All (λ t. All (Writes Q) t.ops) (perform schema db np s front found ops back).pool
  unfolding perform
  perform_waiting Q np s front found [] back f k b h = All-append _ front back f b
  perform_waiting Q np s front found (add_rows t ids ∷ ops) back f k b h =
      All-append _ front _ f (k.1, b)
  perform_waiting Q np s front found (start_tasks d r ∷ ops) back f k b h =
      All-append _ front _ f (k.1, All-append _ back _ b (h d r ops refl))
  perform_waiting Q np s front found (write w ∷ ops) back f k b h = All-append _ front _ f (k.1, b)

  IsPending-perform :
      (np : Numpy) (s : System) (front : List Task) (found : List TableSegment) (ops : List Op)
      (back : List Task) (d : Option Direction) (r : Option Reference) (rest : List Op)
      → ops ≡ start_tasks d r ∷ rest
      → (op : Op) → IsPending op (map (table_task schema db d r) found)
      → IsPending op (perform schema db np s front found ops back).pool
  IsPending-perform np s front found ops back d r rest e op p =
      rw e (unfold perform in IsPending-right op front _ (inr (IsPending-right op back _ p)))

  module _ (roots : List Root) {np : Numpy} (numpy : IsNumpy np) where
    pub perform-IsComplete :
        (s : System) (front : List Task) (found : List TableSegment) (ops : List Op)
        (back : List Task)
        → s.pool ≡ front ++ (task_of found ops ∷ back)
        → IsComplete schema db roots s
        → IsComplete schema db roots (perform schema db np s front found ops back)
    perform-IsComplete s front found ops back e h =
        let s' : System = perform schema db np s front found ops back in
        let keep = IsKept-perform schema db numpy s front found ops back e h.accounts in
        let (f, k, b) =
          All-middle (TaskKept schema db s) front (task_of found ops) back
            (subst (λ p. All (TaskKept schema db s) p) e h.waiting) in
        let on = TaskKept-keep schema db roots s s' keep in
        let k' = on (task_of found ops) k in
        record {
          accounts = perform-Accounts schema db numpy s front found ops back e h.accounts;
          asked = asked-keep schema db roots s s' keep roots h.asked;
          written =
              perform_written (WriteKept schema db s') np s front found ops back k'
                (All-map _ _ s.output (WriteKept-keep schema db roots s s' keep) h.written);
          waiting =
              perform_waiting (WriteKept schema db s') np s front found ops back
                (All-map _ _ front on f) k' (All-map _ _ back on b)
                (λ d r rest q.
                  started-TaskKept s' d r found found (λ seg m. m)
                    (IsPending-perform np s front found ops back d r rest q));
        }
