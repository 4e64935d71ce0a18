-- ===== src/Dump/Entry/Unknown.antt =====
-- A root of a table that is not in the schema.
use mathlib.Core.List.{Memᴰ}
use mathlib.Core.List.Memᴰ
use slice_db.Prelude.{List}
use slice_db.Prelude.Dict.{Dict}
use slice_db.Dump.Schema.{Schema}
