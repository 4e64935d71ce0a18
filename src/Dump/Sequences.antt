-- ===== src/Dump/Sequences.antt =====
-- slice_db/dump.py, `_dump_sequences`: the values of the sequences of the dumped tables.
pub mod Owned
pub mod Restored
mod Tests
use slice_db.Prelude.{Str, List, [], ◌∷◌, ◌++◌, map, Result, ok, err, map_ok, ◌>>=◌}
use slice_db.Prelude.Int.{ℤ}
use slice_db.Prelude.Dict.{keys}
use slice_db.Slice.{Archive, write_sequence}
use slice_db.Dump.Schema.{Sequence, Schema, get_table, get_sequence}
use slice_db.Dump.Discovery.{DiscoveryResult, add_sequence}

abbrev pub id_of : Sequence → Str
id_of s = s.id

-- The ids that are added to the set `sequence_ids`, for the tables of the manifest
unfoldable pub sequence_ids : Schema → List Str → Result (List Str)
unfolding get_table
sequence_ids schema [] = ok []
sequence_ids schema (table_id ∷ ids) = get_table schema table_id >>= λ table.
    map_ok (λ more. map id_of table.sequences ++ more) (sequence_ids schema ids)

-- `last_value` is the answer to SELECT last_value FROM a sequence.
module _ (last_value : Sequence → ℤ) where
  -- for sequence_id in sequence_ids, with `output.write_sequence` of _SliceOutput
  unfoldable pub write_sequences :
      Schema → List Str → DiscoveryResult → Archive → Result (DiscoveryResult × Archive)
  unfolding get_sequence add_sequence write_sequence
  write_sequences schema [] r a = ok (r, a)
  write_sequences schema (id ∷ ids) r a = get_sequence schema id >>= λ sequence.
      write_sequences schema ids (add_sequence r sequence)
        (write_sequence a sequence.id (last_value sequence))

  -- _dump_sequences; `in_set_order` is list(set(ids)), in the order in which Python goes through a
  -- set.
  unfoldable pub dump_sequences :
      (List Str → List Str)
      → Schema
      → DiscoveryResult
      → Archive
      → Result (DiscoveryResult × Archive)
  unfolding sequence_ids write_sequences
  dump_sequences in_set_order schema r a = sequence_ids schema (keys r.table_manifests) >>= λ ids.
      write_sequences schema (in_set_order ids) r a
