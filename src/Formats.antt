-- ===== src/Formats.antt =====
-- slice_db/formats: the data classes of the dump schema, the manifest and the transform file, as
-- they stand after a file is loaded. Reading and writing JSON is the libraries' work.
use slice_db.Prelude.{ℕ, Str, List, Option, Bool}
use slice_db.Prelude.Dict.{Dict}

-- DumpReferenceDirection
pub data Direction : Type 0 where
  forward reverse : Direction

abbrev pub direction_eq : Direction → Direction → Bool
direction_eq forward forward = Bool.true
direction_eq reverse reverse = Bool.true
direction_eq _ _ = Bool.false

pub record DumpReference : Type 0 where
  pub columns : List Str
  pub reference_columns : List Str
  pub reference_table : Str
  pub table : Str
  pub directions : List Direction
  pub deferrable : Bool

pub record DumpSequence : Type 0 where
  pub schema : Str
  pub name : Str

pub record DumpTable : Type 0 where
  pub columns : List Str
  pub name : Str
  pub schema : Option Str
  pub sequences : List Str

pub record DumpSchema : Type 0 where
  pub references : Dict DumpReference
  pub sequences : Dict DumpSequence
  pub tables : Dict DumpTable

pub record DumpRoot : Type 0 where
  pub table : Str
  pub condition : Str

pub record ManifestSchema : Type 0 where
  pub count : ℕ

pub record ManifestSequence : Type 0 where
  pub name : Str
  pub schema : Str

pub record ManifestTableSegment : Type 0 where
  pub row_count : ℕ

pub record ManifestTable : Type 0 where
  pub columns : List Str
  pub name : Str
  pub schema : Option Str
  pub segments : List ManifestTableSegment

pub record Manifest : Type 0 where
  pub post_data : ManifestSchema
  pub pre_data : ManifestSchema
  pub sequences : Dict ManifestSequence
  pub tables : Dict ManifestTable
