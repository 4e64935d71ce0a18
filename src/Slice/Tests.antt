-- ===== src/Slice/Tests.antt =====
-- A slice with the segment of a table that is called like a section.
use slice_db.Prelude.{codes, [], ◌∷◌}
use slice_db.Slice.{Archive, manifest_path}

abbrev archive : Archive
archive = (manifest_path, codes "{}") ∷ (codes "pre-data/1.sql", codes "CREATE") ∷ []
