-- ===== src/Queue.antt =====
-- slice_db/concurrent/queue.py: waiting for a set of futures that grows, until one fails.
pub mod First
mod Tests
use slice_db.Prelude.{
  ℕ, List, [], ◌∷◌, ◌++◌, Bool, true, false, Option, none, some, Result, ok, err, ◌==◌,
  if◌then◌else◌, Exn, any,
}

-- Queue: `_exception`, `_futures`, and the futures that `_cancel` has asked to stop.
pub record Queue : Type 0 where
  pub exception : Option Exn
  pub futures : List ℕ
  pub cancelled : List ℕ

-- Queue.__init__
abbrev pub new_queue : Queue
new_queue = record { exception = none; futures = []; cancelled = [] }

-- _cancel
unfoldable pub cancel_all : Queue → Queue
cancel_all q = record q { cancelled = q.cancelled ++ q.futures }

-- self._exception = exception; self._cancel(), unless there is an exception already
unfoldable pub fail : Queue → Option Exn → Option Exn → Queue
unfolding cancel_all
fail q none none = q
fail q none (some e) = cancel_all (record q { exception = some e })
fail q (some first) e = q

-- self._futures.remove(future)
unfoldable pub remove : ℕ → List ℕ → List ℕ
remove f [] = []
remove f (x ∷ futures) = if x == f then futures else x ∷ remove f futures

abbrev pub remove_future : Queue → ℕ → Queue
remove_future q f = record q { futures = remove f q.futures }

-- _done, of a future that ended with an exception or none; a cancelled one has CancelledError.
unfoldable pub finish : Queue → ℕ → Option Exn → Queue
unfolding fail remove
finish q f e = remove_future (fail q q.exception e) f

-- add
unfoldable pub enqueue : Queue → ℕ → Queue
enqueue q f = record q {
  futures = if any (λ x. x == f) q.futures then q.futures else f ∷ q.futures;
}

-- The `except` block of `finished`: the waiting task itself is cancelled.
unfoldable pub interrupt : Queue → Exn → Queue
unfolding cancel_all
interrupt q e = cancel_all (record q { exception = some e })

-- `if self._exception is not None: raise self._exception`
abbrev pub outcome : Option Exn → Result (List ℕ)
outcome none = ok []
outcome (some e) = err e

-- finished: None while it waits
unfoldable pub finished_queue : Queue → Option (Result (List ℕ))
finished_queue q = elim q.futures [ [] ↦ some (outcome q.exception) | f ∷ futures ↦ none ]

pub data QueueEvent : Type 0 where
  added : ℕ → QueueEvent
  done : ℕ → Option Exn → QueueEvent

unfoldable pub on_event : Queue → QueueEvent → Queue
unfolding finish enqueue
on_event q (added f) = enqueue q f
on_event q (done f e) = finish q f e

unfoldable pub on_events : Queue → List QueueEvent → Queue
unfolding on_event
on_events q [] = q
on_events q (e ∷ events) = on_events (on_event q e) events
