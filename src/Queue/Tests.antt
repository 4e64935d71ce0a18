-- ===== src/Queue/Tests.antt =====
-- Two futures of which one fails, and the other is cancelled.
use slice_db.Prelude.{List, [], ◌∷◌, some, key_error, exception}
use slice_db.Queue.{QueueEvent, added, done}

abbrev events : List QueueEvent
events = added 1 ∷ added 2 ∷ done 2 (some key_error) ∷ done 1 (some exception) ∷ []
