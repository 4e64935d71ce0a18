-- ===== src/Queue/First.antt =====
-- What a queue raises is the first exception of its futures.
use slice_db.Prelude.{List, [], ◌∷◌, Option, none, some, Exn}
use slice_db.Queue.{Queue, QueueEvent, added, done}

-- The first exception of the futures that ended.
unfoldable pub first_exception : List QueueEvent → Option Exn
first_exception [] = none
first_exception (added f ∷ events) = first_exception events
first_exception (done f none ∷ events) = first_exception events
first_exception (done f (some e) ∷ events) = some e

abbrev or_first : Option Exn → Option Exn → Option Exn
or_first none later = later
or_first (some e) later = some e
