-- ===== src/Dump/Tasks/Chunks/Tests.antt =====
-- The chunks of a few rows.
use slice_db.Prelude.{◌≡◌, refl, [], ◌∷◌}
use slice_db.Dump.Tasks.{chunks}

-- Chunks of two rows.
chunks_two : chunks 2 (4 ∷ 5 ∷ 6 ∷ []) ≡ (4 ∷ 5 ∷ []) ∷ (6 ∷ []) ∷ []
unfolding chunks
chunks_two = refl
