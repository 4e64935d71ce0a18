-- ===== src/Dump/Tasks/Closed.antt =====
-- What is known at the end of a run: the rows of the roots, closed under the references followed.
use mathlib.Core.Path.{subst}
use mathlib.Core.List.{Memᴰ}
use mathlib.Core.List.Memᴰ
use slice_db.Prelude.{
  ℕ, ◌≡◌, inl, inr, List, [], ◌∷◌, ◌++◌, map, concat, All, All-map, true, false, Option, none, some,
}
use slice_db.Collection.Numpy.{Numpy, IsNumpy}
use slice_db.Formats.{Direction, forward, reverse}
use slice_db.Dump.Schema.{Reference, Table, Schema, object}
use slice_db.Dump.Discovery.{TableSegment, DiscoveryResult}
use slice_db.Dump.Discovery.Effect.{rows}
use slice_db.Dump.Tasks.{
  Database, Root, TableTask, Op, add_rows, start_tasks, System, root_task, table_ops, run, start,
  to_table, discover_reference, follows, process_reference, take_in, chunks, max_size, to_parents,
  to_children,
}
use slice_db.Dump.Tasks.Rules.{run_rule}
use slice_db.Dump.Tasks.Partition.{roots-Accounts}
use slice_db.Dump.Tasks.Members.{Has, Has-found, mem-sorted_by, All-mem, mem-All}
use slice_db.Dump.Tasks.Sound.{Match, IsDatabase, references_of, Related}
use slice_db.Dump.Tasks.Kept.{IsCovered, IsPending, IsKept, OpKept, TaskKept, IsComplete}
use slice_db.Dump.Tasks.Complete.{perform-IsComplete}

All-left {ℓ κ} : {A : Type ℓ} (P : A → Type κ) (xs ys : List A) → All P (xs ++ ys) → All P xs
All-left P [] ys h = tt
All-left P (x ∷ xs) ys h = (h.0, All-left P xs ys h.1)

All-right {ℓ κ} : {A : Type ℓ} (P : A → Type κ) (xs ys : List A) → All P (xs ++ ys) → All P ys
All-right P [] ys h = h
All-right P (x ∷ xs) ys h = All-right P xs ys h.1

module _ (schema : Schema) (db : Database) where
  adds-OpKept :
      (s : System) (t : Table) (cs : List (List ℕ)) (d : Option Direction) (r : Option Reference)
      → All (OpKept schema db s) (map (λ c. add_rows t c) cs ++ start_tasks d r ∷ [])
  adds-OpKept s t [] d r = (tt, tt)
  adds-OpKept s t (c ∷ cs) d r = (tt, adds-OpKept s t cs d r)

  roots-TaskKept :
      (s : System) (roots : List Root)
      → All (TaskKept schema db s) (map (root_task schema db) roots)
  unfolding root_task
  roots-TaskKept s [] = tt
  roots-TaskKept s (root ∷ roots) = (
    adds-OpKept s root.table (chunks max_size (db.condition root.table root.condition)) none none,
    roots-TaskKept s roots,
  )

  root-IsPending :
      (roots : List Root) (root : Root) (op : Op)
      → Memᴰ root roots
      → Memᴰ op (root_task schema db root).ops
      → IsPending op (map (root_task schema db) roots)
  root-IsPending [] root op m k = absurd (Memᴰ.not-nil m)
  root-IsPending (q ∷ roots) root op m k = elim (Memᴰ.cases_cons m) [
    | inl e ↦ inl (rw (← e) k)
    | inr h ↦ inr (root-IsPending roots root op h k)
  ]

  module _ (roots : List Root) {np : Numpy} (numpy : IsNumpy np) where
    start-IsKept :
        (root : Root) (op : Op)
        → Memᴰ root roots
        → Memᴰ op (root_task schema db root).ops
        → IsKept (start schema db roots) op
    unfolding start
    start-IsKept root op m k = inr (root-IsPending roots root op m k)

    start-IsComplete : IsComplete schema db roots (start schema db roots)
    start-IsComplete = record {
      accounts = roots-Accounts schema db numpy roots;
      asked =
          All-mem _ roots
            (λ root m. All-mem _ (root_task schema db root).ops (λ op k. start-IsKept root op m k));
      written = unfold start in tt;
      waiting = unfold start in roots-TaskKept (start schema db roots) roots;
    }

    run-IsComplete :
        (schedule : List ℕ)
        → IsComplete schema db roots (run schema db np (start schema db roots) schedule)
    run-IsComplete schedule =
        run_rule schema db np (IsComplete schema db roots)
          (perform-IsComplete schema db roots numpy) (start schema db roots) schedule
          start-IsComplete

  IsCovered-of_kept :
      (s : System) (ops : List Op) → s.pool ≡ [] → All (IsKept s) ops → All (IsCovered s.result) ops
  IsCovered-of_kept s ops e =
      All-map _ _ ops (λ op k. elim k [ inl c ↦ c | inr p ↦ absurd (subst (IsPending op) e p) ])

  covered_rows :
      (r : DiscoveryResult) (t : Table) (found : List ℕ) (d : Option Direction)
      (q : Option Reference) (v : ℕ)
      → All (IsCovered r) (take_in schema db t found d q)
      → Has found v
      → Has (rows r t.id) v
  covered_rows r t found d q v h m =
      Has-found (λ w. Has (rows r t.id) w) found v
        (of_chunks (chunks max_size found) (All-left (IsCovered r) _ (start_tasks d q ∷ []) h)) m
    where
      of_chunks :
          (cs : List (List ℕ))
          → All (IsCovered r) (map (λ c. add_rows t c) cs)
          → All (λ c. (w : ℕ) → Has c w → Has (rows r t.id) w) cs
      of_chunks [] k = tt
      of_chunks (c ∷ cs) k = (k.0, of_chunks cs k.1)

  IsCovered-process :
      (res : DiscoveryResult) (w : TableTask) (d : Direction) (rs : List Reference) (r : Reference)
      → All (IsCovered res) (concat (map (process_reference schema db w d) rs))
      → Memᴰ r rs
      → All (IsCovered res) (process_reference schema db w d r)
  IsCovered-process res w d [] r h m = absurd (Memᴰ.not-nil m)
  IsCovered-process res w d (q ∷ rs) r h m = elim (Memᴰ.cases_cons m) [
    | inl e ↦ rw e (All-left (IsCovered res) (process_reference schema db w d q) _ h)
    | inr k ↦
        IsCovered-process res w d rs r
          (All-right (IsCovered res) (process_reference schema db w d q) _ h) k
  ]

  mem-to_parents :
      (w : TableTask) (r : Reference)
      → Memᴰ r w.segment.table.references
      → Memᴰ r (to_parents schema db w)
  unfolding to_parents
  mem-to_parents w r =
      (mem-sorted_by (λ q. (object schema q.reference_table).row_count) r
        w.segment.table.references).1

  mem-to_children :
      (w : TableTask) (r : Reference)
      → Memᴰ r w.segment.table.reverse_references
      → Memᴰ r (to_children schema db w)
  unfolding to_children
  mem-to_children w r =
      (mem-sorted_by (λ q. (object schema q.table).row_count) r
        w.segment.table.reverse_references).1

  covered_reference :
      (res : DiscoveryResult) (w : TableTask) (d : Direction) (r : Reference) (v : ℕ)
      → All (IsCovered res) (table_ops schema db w)
      → Memᴰ r (references_of w.segment.table d)
      → follows schema db w r d ≡ true
      → Has (discover_reference schema db w.segment r d) v
      → Has (rows res (to_table schema db r d).id) v
  unfolding table_ops
  covered_reference res w forward r v h m e found =
      let all = All-left (IsCovered res) _ _ h in
      let inside = mem-to_parents w r m in
      covered_rows res _ _ (some forward) (some r) v
        (rw (process_reference, e) at
          (IsCovered-process res w forward (to_parents schema db w) r all inside))
        found
  covered_reference res w reverse r v h m e found =
      let all = All-left (IsCovered res) _ _ (All-right (IsCovered res) _ _ h) in
      let inside = mem-to_children w r m in
      covered_rows res _ _ (some reverse) (some r) v
        (rw (process_reference, e) at
          (IsCovered-process res w reverse (to_children schema db w) r all inside))
        found

  discover-Related :
      (same : Match) (laws : IsDatabase db same) (s : TableSegment) (r : Reference) (d : Direction)
      (a b : ℕ)
      → Has s.row_ids a
      → Related schema same r d a b
      → Has (discover_reference schema db s r d) b
  unfolding discover_reference
  discover-Related same laws s r forward a b m e = laws.matched true _ _ _ _ s.row_ids a b m e
  discover-Related same laws s r reverse a b m e = laws.matched false _ _ _ _ s.row_ids a b m e

-- In whatever order the tasks run, when none is left, every row that a root's condition selects is
-- known of its table.
pub roots_known :
    (schema : Schema) (db : Database) (roots : List Root) {np : Numpy} (numpy : IsNumpy np)
    (schedule : List ℕ) (root : Root) (v : ℕ)
    → (run schema db np (start schema db roots) schedule).pool ≡ []
    → Memᴰ root roots
    → Has (db.condition root.table root.condition) v
    → Has (rows (run schema db np (start schema db roots) schedule).result root.table.id) v
unfolding root_task
roots_known schema db roots {np} numpy schedule root v e m found =
    let s = run schema db np (start schema db roots) schedule in
    let h = run-IsComplete schema db roots numpy schedule in
    covered_rows schema db s.result root.table (db.condition root.table root.condition) none none v
      (IsCovered-of_kept schema db s (root_task schema db root).ops e
        (mem-All _ root roots h.asked m))
      found

-- In whatever order the tasks run, when none is left, each row that is related to a row of a written
-- segment by a reference of the segment's table is known, in either direction that the task of the
-- segment follows: one that the reference allows, and not back the way that the segment was found.
pub references_closed :
    (schema : Schema) (db : Database) (same : Match) (laws : IsDatabase db same) (roots : List Root)
    {np : Numpy} (numpy : IsNumpy np) (schedule : List ℕ) (w : TableTask) (r : Reference)
    (d : Direction) (a b : ℕ)
    → (run schema db np (start schema db roots) schedule).pool ≡ []
    → Memᴰ w (run schema db np (start schema db roots) schedule).output
    → Has w.segment.row_ids a
    → Memᴰ r (references_of w.segment.table d)
    → follows schema db w r d ≡ true
    → Related schema same r d a b
    → Has
        (rows
          (run schema db np (start schema db roots) schedule).result
          (to_table schema db r d).id)
        b
references_closed schema db same laws roots {np} numpy schedule w r d a b e m inside k on related =
    let s = run schema db np (start schema db roots) schedule in
    let h = run-IsComplete schema db roots numpy schedule in
    covered_reference schema db s.result w d r b
      (IsCovered-of_kept schema db s (table_ops schema db w) e (mem-All _ w s.output h.written m)) k
      on (discover-Related schema db same laws w.segment r d a b inside related)
