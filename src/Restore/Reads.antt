-- ===== src/Restore/Reads.antt =====
-- slice_db/restore.py: what a restore reads from the slice for its actions.
use slice_db.Prelude.{Str, List, [], ◌∷◌, Result, ok, map_ok, ◌>>=◌}
use slice_db.Slice.{Archive, open_schema, open_entry}
use slice_db.Restore.{Action, execute_schema, set_sequence, defer, restore_items}

-- The texts that are executed for the schema files, in order.
unfoldable pub scripts : Archive → List Action → Result (List Str)
unfolding open_entry
scripts a [] = ok []
scripts a (execute_schema section i ∷ actions) =
    open_schema a section i >>= λ text. map_ok (λ texts. text ∷ texts) (scripts a actions)
scripts a (set_sequence id ∷ actions) = scripts a actions
scripts a (defer constraints ∷ actions) = scripts a actions
scripts a (restore_items items ∷ actions) = scripts a actions
