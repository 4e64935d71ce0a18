-- ===== src/Dump/Discovery.antt =====
-- slice_db/dump.py, class `_DiscoveryResult`: which rows of which table were found, and in which
-- segments.
pub mod Effect
pub mod Numbers
use slice_db.Prelude.{ℕ, ◌+◌, Str, List, [], ◌∷◌, ◌++◌, Option, none, some, length}
use slice_db.Prelude.Dict.{Dict, get, put}
use slice_db.Collection.Numpy.{Numpy}
use slice_db.Collection.IntSet.{IntSet, empty}
use slice_db.Collection.IntSet
use slice_db.Formats.{ManifestSequence, ManifestTable, ManifestTableSegment}
use slice_db.Dump.Schema.{Table, Sequence}

pub record TableSegment : Type 0 where
  pub index : ℕ
  pub row_ids : List ℕ
  pub table : Table

pub record DiscoveryResult : Type 0 where
  pub id_count : ℕ
  pub row_ids : Dict IntSet
  pub sequence_manifests : Dict ManifestSequence
  pub table_manifests : Dict ManifestTable
  pub section_counts : Dict ℕ

abbrev pub fresh : DiscoveryResult
fresh = record {
  id_count = 0;
  row_ids = [];
  sequence_manifests = [];
  table_manifests = [];
  section_counts = [];
}

-- self._row_ids[id], of a defaultdict
abbrev pub ids_of : DiscoveryResult → Str → IntSet
ids_of r id = elim (get r.row_ids id) [ none ↦ empty | some s ↦ s ]

abbrev pub new_manifest : Table → ManifestTable
new_manifest t = record { columns = t.columns; name = t.name; schema = t.schema; segments = [] }

-- The manifest of the table, made when there is none.
abbrev pub manifest_of : DiscoveryResult → Table → ManifestTable
manifest_of r t = elim (get r.table_manifests t.id) [ none ↦ new_manifest t | some m ↦ m ]

-- What `add` does with the new ids, when there are any.
unfoldable pub add_segment :
    DiscoveryResult → Table → List ℕ → DiscoveryResult × Option TableSegment
add_segment r t [] = (r, none)
add_segment r t (x ∷ xs) =
    let new_ids = x ∷ xs in
    let m = manifest_of r t in
    (
      record r {
        id_count = r.id_count + length new_ids;
        table_manifests =
            put r.table_manifests t.id
              (record m { segments = m.segments ++ record { row_count = length new_ids } ∷ [] });
      },
      some (record { index = length m.segments; row_ids = new_ids; table = t }),
    )

-- add
unfoldable pub add :
    Numpy → DiscoveryResult → Table → List ℕ → DiscoveryResult × Option TableSegment
unfolding add_segment
add np r t row_ids =
    let (ids, new_ids) = IntSet.add np (ids_of r t.id) row_ids in
    add_segment (record r { row_ids = put r.row_ids t.id ids }) t new_ids

-- add_sequence
unfoldable pub add_sequence : DiscoveryResult → Sequence → DiscoveryResult
add_sequence r s = record r {
  sequence_manifests = put r.sequence_manifests s.id (record { name = s.name; schema = s.schema });
}

-- row_count
abbrev pub row_count : DiscoveryResult → ℕ
row_count r = r.id_count
