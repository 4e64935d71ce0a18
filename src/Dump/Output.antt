-- ===== src/Dump/Output.antt =====
-- The end of `_TableTask.__call__` in slice_db/dump_temp_table.py, which writes a segment to the
-- slice, and `_SliceOutput` of slice_db/dump.py: its lock makes each write one step. Files hold text
-- here: UTF-8 is left out, and so is the temporary file between the database and the slice.
pub mod Found
pub mod Entries
pub mod Complete
mod Tests
use slice_db.Prelude.{
  ℕ, ◌++◌, if◌then◌else◌, Str, List, [], ◌∷◌, ◌++◌, concat, Bool, true, false, none, some, Result,
  ok, err, exception, ◌>>=◌,
}
use slice_db.Prelude.Dict.{Dict, get}
use slice_db.Transform.{Counts, FieldTransform, transform_table}
use slice_db.Slice.{Archive, write_segment, write_schema}
use slice_db.Dump.Tasks.{TableTask}

-- What the parent process sees of a transformation in a forked one: its exit code, and the file that
-- it wrote. The transformers' counters have grown in the other process only.
abbrev pub in_child : Counts → Result (Str × Counts) → Result (Str × Counts)
in_child counts (ok (text, after)) = ok (text, counts)
in_child counts (err e) = err exception

-- What a task writes between the lock and its release: a segment, or a statement of a section.
pub data Write : Type 0 where
  segment : TableTask → Write
  statement : (section : Str) (index : ℕ) (text : Str) → Write

-- _SliceOutput.open_segment, _SliceOutput.open_schema
unfoldable pub write_entry : Archive → Write → Str → Archive
unfolding write_segment write_schema
write_entry a (segment w) text = write_segment a w.segment.table.id w.segment.index text
write_entry a (statement section i _) text = write_schema a section i text

-- The writes of two tasks or groups of tasks, by the choices of the event loop.
unfoldable pub weave {ℓ} : {A : Type ℓ} → List Bool → List A → List A → List A
weave [] xs ys = xs ++ ys
weave (b ∷ bs) [] ys = ys
weave (b ∷ bs) (x ∷ xs) [] = x ∷ xs
weave (b ∷ bs) (x ∷ xs) (y ∷ ys) =
    let first = weave bs xs (y ∷ ys) in
    let second = weave bs (x ∷ xs) ys in if b then x ∷ first else y ∷ second

-- `lines` gives the lines that COPY writes for the rows of a segment.
module _ (lines : TableTask → List Str) where
  -- What is copied to the slice for a segment; `fork` is hasattr(os, "fork").
  unfoldable pub segment_text :
      Dict (List FieldTransform) → Bool → TableTask → Counts → Result (Str × Counts)
  unfolding get
  segment_text transformers fork w counts = elim (get transformers w.segment.table.id) [
    | none ↦ ok (concat (lines w), counts)
    | some fields ↦ elim fork [
      | true ↦ in_child counts (transform_table fields (lines w) counts)
      | false ↦ transform_table fields (lines w) counts
    ]
  ]

  -- What is written to the slice at once.
  unfoldable pub text_of :
      Dict (List FieldTransform) → Bool → Write → Counts → Result (Str × Counts)
  unfolding segment_text
  text_of transformers fork (segment w) counts = segment_text transformers fork w counts
  text_of transformers fork (statement section i text) counts = ok (text, counts)

  -- The writes to the slice, in their order: each holds the lock of _SliceOutput.
  unfoldable pub write_all :
      Dict (List FieldTransform) → Bool → Archive → Counts → List Write → Result (Archive × Counts)
  unfolding text_of write_entry
  write_all transformers fork a counts [] = ok (a, counts)
  write_all transformers fork a counts (w ∷ ws) = text_of transformers fork w counts >>= λ written.
      let (text, after) = written in write_all transformers fork (write_entry a w text) after ws
