-- ===== src/Dump/Sequences/Tests.antt =====
-- Two tables with sequences, of which one is in the manifest.
use mathlib.Core.List.Memᴰ
use slice_db.Prelude.{◌≡◌, ◌≢◌, refl, ap, inl, inr, Str, codes, List, [], ◌∷◌, none, ok}
use slice_db.Prelude.Int.{ℤ, negsuc}
use slice_db.Prelude.Dict.{get, put, keys}
use slice_db.Formats.{DumpSchema, DumpTable}
use slice_db.Slice.{Archive}
use slice_db.Dump.Schema.{
  Sequence, Table, Schema, init, init_sequences, init_tables, find_sequences, init_references,
}
use slice_db.Dump.Discovery.{DiscoveryResult, fresh}
use slice_db.Dump.Sequences.{dump_sequences}
use slice_db.Dump.Sequences.Owned.{IsOwned, HasTables}
use slice_db.Dump.Sequences.Restored.{IsWritten, IsKept, dump_sequences-read}

abbrev with_sequence : Str → DumpTable
with_sequence id = record { columns = []; name = id; schema = none; sequences = id ∷ [] }

abbrev config : DumpSchema
config = record {
  references = [];
  sequences =
      (codes "a", record { schema = codes "s"; name = codes "a_seq" })
      ∷ (codes "b", record { schema = codes "s"; name = codes "b_seq" })
      ∷ [];
  tables = (codes "a", with_sequence (codes "a")) ∷ (codes "b", with_sequence (codes "b")) ∷ [];
}

abbrev sequence_a : Sequence
sequence_a = record { id = codes "a"; schema = codes "s"; name = codes "a_seq" }

abbrev sequence_b : Sequence
sequence_b = record { id = codes "b"; schema = codes "s"; name = codes "b_seq" }

abbrev table_of : Sequence → Table
table_of s = record {
  id = s.id;
  name = s.id;
  schema = none;
  columns = [];
  references = [];
  reverse_references = [];
  row_count = ℤ.pos 0;
  sequences = s ∷ [];
}

abbrev schema : Schema
schema = record {
  sequences = (codes "a", sequence_a) ∷ (codes "b", sequence_b) ∷ [];
  tables = (codes "a", table_of sequence_a) ∷ (codes "b", table_of sequence_b) ∷ [];
  references = [];
}

made : init config ≡ ok schema
unfolding init init_sequences init_tables find_sequences init_references put get
made = refl

abbrev dumped : DiscoveryResult
dumped = record fresh {
  table_manifests =
      (codes "a", record { columns = []; name = codes "a"; schema = none; segments = [] }) ∷ [];
}

abbrev last_value : Sequence → ℤ
last_value s = negsuc 4

abbrev same_order : List Str → List Str
same_order ids = ids

has_a : HasTables schema (keys dumped.table_manifests)
unfolding get
has_a id m = elim (Memᴰ.cases_cons m) [
  | inl e ↦ (table_of sequence_a, ap (get schema.tables) e)
  | inr none_left ↦ absurd (Memᴰ.not-nil none_left)
]

dump_sequences-read_example :
    (end : DiscoveryResult × Archive) × (dump_sequences last_value same_order schema dumped []
      ≡ ok end)
    × ((s : Sequence) → IsOwned schema (keys dumped.table_manifests) s → IsWritten last_value s end)
    × ((id : Str)
        → ((s : Sequence) → IsOwned schema (keys dumped.table_manifests) s → s.id ≢ id)
        → IsKept last_value id dumped [] end)
dump_sequences-read_example =
    dump_sequences-read last_value config schema same_order dumped [] made (λ ids id. refl) has_a
