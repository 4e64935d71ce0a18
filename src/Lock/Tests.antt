-- ===== src/Lock/Tests.antt =====
-- A semaphore of one, with three tasks.
use slice_db.Prelude.{◌≡◌, refl, List, [], ◌∷◌}
use slice_db.Lock.{
  Event, acquire, exit, cancel_waiting, happen, happen_all, unused, try_acquire, release,
  wake_up_next, pop_waiter, cancel_waiter,
}
use slice_db.Lock.Invariant.{IsSafe, happen_all-IsSafe}

abbrev events : List Event
events = acquire 1 ∷ acquire 2 ∷ acquire 3 ∷ cancel_waiting 3 ∷ exit ∷ []

-- The last waiter has been cancelled, so the one before is woken.
second_woken : (happen_all (unused 1) events).woken ≡ 2 ∷ []
unfolding happen_all happen try_acquire release wake_up_next pop_waiter cancel_waiter
second_woken = refl

happen_all-IsSafe_example : IsSafe 1 (happen_all (unused 1) events)
happen_all-IsSafe_example = happen_all-IsSafe 1 events
