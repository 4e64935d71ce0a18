-- ===== src/SchemaFilter/Returns.antt =====
-- The visit ends, and finds what references lead to.
use slice_db.Prelude.{ℕ, ◌+◌, Str, List, [], ◌∷◌, if◌then◌else◌}
use slice_db.SchemaFilter.{is_listed}

-- How many of some ids are not in the set.
abbrev left : List Str → List Str → ℕ
left [] seen = 0
left (u ∷ us) seen = (if is_listed u seen then 0 else 1) + left us seen
