-- ===== src/Dump/Entry/Restored.antt =====
-- A restore can read what a dump wrote.
use slice_db.Prelude.{ℕ, ◌≡◌, Str, codes, List, Bool, some, ok, get_elem?}
use slice_db.Prelude.Dict.{Dict, get}
use slice_db.Formats.{Manifest, ManifestSequence, ManifestTable, ManifestTableSegment}
use slice_db.Transform.{FieldTransform}
use slice_db.Slice.{Archive, open_manifest, read_sequence}
use slice_db.Dump.Schema.{Sequence, Schema}
use slice_db.Dump.Output.Complete.{IsHeld}
use slice_db.Dump.Sequences.Restored.{manifest_of}
use slice_db.Dump.Entry.{Environment}
use slice_db.Dump.Entry.SectionTasks.{IsSection}

-- What a restore reads, by the manifest: the manifest itself; for each segment that it lists, the text
-- of the rows of a task's segment, with its table, index and number of rows; for each section that is
-- included, as many schema files as are counted, with the statements that pg_dump wrote but the
-- last; for each sequence, the last value of a sequence with its id, schema and name.
pub record IsRestorable (env : Environment) (include : Bool) (m : Manifest) (a : Archive)
    : Type 0 where
  manifest : open_manifest a ≡ ok (env.json m)
  transformers : Dict (List FieldTransform)
  held :
      (id : Str) (t : ManifestTable) (i : ℕ) (s : ManifestTableSegment)
      → get m.tables id ≡ some t
      → get_elem? t.segments i ≡ some s
      → IsHeld env.lines transformers env.fork a id i s
  pre_data : IsSection env.pg_dump include (codes "pre-data") m.pre_data.count a
  post_data : IsSection env.pg_dump include (codes "post-data") m.post_data.count a
  values :
      (id : Str) (x : ManifestSequence)
      → get m.sequences id ≡ some x
      → (s : Sequence) × (s.id ≡ id)
        × (x ≡ manifest_of s)
        × (read_sequence a id ≡ ok (env.last_value s))
