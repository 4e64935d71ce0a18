-- ===== src/Dump/Tasks/Kept.antt =====
-- Steps that are covered, or still to be made, and that no step of the event loop loses one.
use mathlib.Core.List.{Memᴰ}
use mathlib.Core.List.Memᴰ
use slice_db.Prelude.{
  ℕ, ◌≡◌, ◌⊎◌, inl, inr, List, [], ◌∷◌, ◌++◌, All, All-map, Option, str_eq_refl, arith,
}
use slice_db.Collection.Numpy.{Numpy, IsNumpy}
use slice_db.Collection.IntSet.Laws.{count-missing}
use slice_db.Dump.Schema.{Table, Schema}
use slice_db.Dump.Discovery.{TableSegment, DiscoveryResult}
use slice_db.Dump.Discovery.Effect.{rows, Effect, add-Effect}
use slice_db.Dump.Tasks.{
  Database, Root, TableTask, Op, add_rows, start_tasks, write, Task, System, root_task, table_ops,
  perform,
}
use slice_db.Dump.Tasks.Rules.{task_of}
use slice_db.Dump.Tasks.Partition.{Accounts}
use slice_db.Dump.Tasks.Members.{Has}

-- The step adds no row any more that is not known.
abbrev pub IsCovered : DiscoveryResult → Op → Type 0
IsCovered r (add_rows t ids) = (v : ℕ) → Has ids v → Has (rows r t.id) v
IsCovered r (start_tasks d q) = Unit
IsCovered r (write w) = Unit

-- The step is still to be made.
abbrev pub IsPending : Op → List Task → Type 0
IsPending op [] = ⊥
IsPending op (t ∷ ts) = Memᴰ op t.ops ⊎ IsPending op ts

pub IsPending-left : (op : Op) (xs ys : List Task) → IsPending op xs → IsPending op (xs ++ ys)
IsPending-left op [] ys h = absurd h
IsPending-left op (x ∷ xs) ys (inl m) = inl m
IsPending-left op (x ∷ xs) ys (inr h) = inr (IsPending-left op xs ys h)

pub IsPending-right : (op : Op) (xs ys : List Task) → IsPending op ys → IsPending op (xs ++ ys)
IsPending-right op [] ys h = h
IsPending-right op (x ∷ xs) ys h = inr (IsPending-right op xs ys h)

IsPending-cases :
    (op : Op) (xs ys : List Task) → IsPending op (xs ++ ys) → IsPending op xs ⊎ IsPending op ys
IsPending-cases op [] ys h = inr h
IsPending-cases op (x ∷ xs) ys (inl m) = inl (inl m)
IsPending-cases op (x ∷ xs) ys (inr h) = elim (IsPending-cases op xs ys h) [
  | inl k ↦ inl (inr k)
  | inr k ↦ inr k
]

abbrev pub IsKept : System → Op → Type 0
IsKept s op = IsCovered s.result op ⊎ IsPending op s.pool

IsCovered-add :
    {r r' : DiscoveryResult} {t : Table} {ids : List ℕ} {seg : Option TableSegment} (op : Op)
    → Effect r t ids r' seg
    → IsCovered r op
    → IsCovered r' op
IsCovered-add (add_rows u is) effect h = λ v m. omega (arith, h v m, effect.counts u.id v)
IsCovered-add (start_tasks d q) effect h = tt
IsCovered-add (write w) effect h = tt

IsCovered-now :
    {r r' : DiscoveryResult} {seg : Option TableSegment} (t : Table) (ids : List ℕ)
    → Effect r t ids r' seg
    → IsCovered r' (add_rows t ids)
IsCovered-now {r} t ids effect =
    λ v m. ground (arith, effect.counts t.id v, str_eq_refl t.id, count-missing (rows r t.id) ids v)

module _ (schema : Schema) (db : Database) where
  module _ {np : Numpy} (numpy : IsNumpy np) where
    -- A step that was covered or pending is so after any step of the event loop.
    pub IsKept-perform :
        (s : System) (front : List Task) (found : List TableSegment) (ops : List Op)
        (back : List Task)
        → s.pool ≡ front ++ (task_of found ops ∷ back)
        → Accounts s
        → (op : Op) → IsKept s op
        → IsKept (perform schema db np s front found ops back) op
    unfolding perform
    IsKept-perform s front found [] back e h op (inl c) = inl c
    IsKept-perform s front found [] back e h op (inr p) =
        elim (IsPending-cases op front _ (rw e at p)) [
          | inl q ↦ inr (IsPending-left op front back q)
          | inr (inl m) ↦ absurd (Memᴰ.not-nil m)
          | inr (inr q) ↦ inr (IsPending-right op front back q)
        ]
    IsKept-perform s front found (add_rows t ids ∷ ops) back e h op (inl c) =
        inl (IsCovered-add op (add-Effect numpy s.result h.consistent t ids) c)
    IsKept-perform s front found (add_rows t ids ∷ ops) back e h op (inr p) =
        elim (IsPending-cases op front _ (rw e at p)) [
          | inl q ↦ inr (IsPending-left op front _ q)
          | inr (inl m) ↦ elim (Memᴰ.cases_cons m) [
            | inl same ↦
                inl (rw same (IsCovered-now t ids (add-Effect numpy s.result h.consistent t ids)))
            | inr k ↦ inr (IsPending-right op front _ (inl k))
          ]
          | inr (inr q) ↦ inr (IsPending-right op front _ (inr q))
        ]
    IsKept-perform s front found (start_tasks d r ∷ ops) back e h op (inl c) = inl c
    IsKept-perform s front found (start_tasks d r ∷ ops) back e h op (inr p) =
        elim (IsPending-cases op front _ (rw e at p)) [
          | inl q ↦ inr (IsPending-left op front _ q)
          | inr (inl m) ↦ elim (Memᴰ.cases_cons m) [
            | inl same ↦ inl (rw same tt)
            | inr k ↦ inr (IsPending-right op front _ (inl k))
          ]
          | inr (inr q) ↦ inr (IsPending-right op front _ (inr (IsPending-left op back _ q)))
        ]
    IsKept-perform s front found (write w ∷ ops) back e h op (inl c) = inl c
    IsKept-perform s front found (write w ∷ ops) back e h op (inr p) =
        elim (IsPending-cases op front _ (rw e at p)) [
          | inl q ↦ inr (IsPending-left op front _ q)
          | inr (inl m) ↦ elim (Memᴰ.cases_cons m) [
            | inl same ↦ inl (rw same tt)
            | inr k ↦ inr (IsPending-right op front _ (inl k))
          ]
          | inr (inr q) ↦ inr (IsPending-right op front _ (inr q))
        ]

  -- Every step of the task that writes is covered or pending.
  abbrev pub WriteKept : System → TableTask → Type 0
  WriteKept s w = All (IsKept s) (table_ops schema db w)

  abbrev pub OpKept : System → Op → Type 0
  OpKept s (add_rows t ids) = Unit
  OpKept s (start_tasks d r) = Unit
  OpKept s (write w) = WriteKept s w

  abbrev pub TaskKept : System → Task → Type 0
  TaskKept s t = All (OpKept s) t.ops

  module _ (roots : List Root) where
    pub record IsComplete (s : System) : Type 0 where
      pub accounts : Accounts s
      pub asked : All (λ root. All (IsKept s) (root_task schema db root).ops) roots
      pub written : All (WriteKept s) s.output
      pub waiting : All (TaskKept s) s.pool

    module _ (s s' : System) (keep : (op : Op) → IsKept s op → IsKept s' op) where
      pub WriteKept-keep : (w : TableTask) → WriteKept s w → WriteKept s' w
      WriteKept-keep w = All-map _ _ (table_ops schema db w) keep

      pub OpKept-keep : (op : Op) → OpKept s op → OpKept s' op
      OpKept-keep (add_rows t ids) h = tt
      OpKept-keep (start_tasks d r) h = tt
      OpKept-keep (write w) h = WriteKept-keep w h

      pub TaskKept-keep : (t : Task) → TaskKept s t → TaskKept s' t
      TaskKept-keep t = All-map _ _ t.ops OpKept-keep

      pub asked-keep :
          (rs : List Root)
          → All (λ root. All (IsKept s) (root_task schema db root).ops) rs
          → All (λ root. All (IsKept s') (root_task schema db root).ops) rs
      asked-keep rs = All-map _ _ rs (λ root. All-map _ _ (root_task schema db root).ops keep)
