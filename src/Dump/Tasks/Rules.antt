-- ===== src/Dump/Tasks/Rules.antt =====
-- How an invariant of one step holds of a whole run.
use slice_db.Prelude.{
  ℕ, zero, suc, ◌≡◌, ap, List, [], ◌∷◌, ◌++◌, some, get_elem?, take, drop, Option-cases, inl, inr,
}
use slice_db.Collection.Numpy.{Numpy}
use slice_db.Dump.Discovery.{TableSegment}
use slice_db.Dump.Schema.{Schema}
use slice_db.Dump.Tasks.{Database, Task, Op, System, perform, step, run}

get_elem?-split {ℓ} :
    {A : Type ℓ} (xs : List A) (i : ℕ) (x : A)
    → get_elem? xs i ≡ some x
    → xs ≡ take i xs ++ (x ∷ drop (suc i) xs)
get_elem?-split [] i x h = cc
get_elem?-split (y ∷ xs) zero x h = cc
get_elem?-split (y ∷ xs) (suc i) x h = ap (λ t. y ∷ t) (get_elem?-split xs i x h)

abbrev pub task_of : List TableSegment → List Op → Task
task_of found ops = record { found = found; ops = ops }

module _ {ℓ} (schema : Schema) (db : Database) (np : Numpy) (P : System → Type ℓ)
    (keep : (s : System) (front : List Task) (found : List TableSegment) (ops : List Op)
        (back : List Task)
      → s.pool ≡ front ++ (task_of found ops ∷ back)
      → P s
      → P (perform schema db np s front found ops back)) where
  step_rule : (s : System) (i : ℕ) → P s → P (step schema db np s i)
  unfolding step
  step_rule s i h = elim (Option-cases (get_elem? s.pool i)) [
    | inl e ↦ rw (e, step) h
    | inr (task, e) ↦
        rw (e, step)
          (keep s (take i s.pool) task.found task.ops (drop (suc i) s.pool)
            (get_elem?-split s.pool i task e) h)
  ]

  pub run_rule : (s : System) (schedule : List ℕ) → P s → P (run schema db np s schedule)
  unfolding run
  run_rule s [] h = h
  run_rule s (i ∷ schedule) h = run_rule (step schema db np s i) schedule (step_rule s i h)
