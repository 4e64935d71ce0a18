-- ===== src/Lock.antt =====
-- slice_db/concurrent/lock.py: the semaphore that serves the last waiter first.
pub mod Invariant
mod Tests
use slice_db.Prelude.{
  ℕ, zero, suc, ◌-◌, List, [], ◌∷◌, Bool, true, false, Option, none, some, get_elem?, take, drop,
  ◌++◌, ltb, ◌==◌, if◌then◌else◌,
}

-- A future of `_waiters`; one that is done was cancelled.
pub record Waiter : Type 0 where
  pub task : ℕ
  pub done : Bool

-- LifoSemaphore; the last of `_waiters` stands first.
pub record LifoSemaphore : Type 0 where
  pub value : ℕ
  pub waiters : List Waiter

-- The semaphore and its tasks: those whose future has its result, and which have not run since, and
-- how many have acquired and not released.
pub record Tasks : Type 0 where
  pub semaphore : LifoSemaphore
  pub woken : List ℕ
  pub holders : ℕ

-- LifoSemaphore.__init__
abbrev pub new_semaphore : ℕ → LifoSemaphore
new_semaphore value = record { value = value; waiters = [] }

-- The loop of _wake_up_next, and whom it wakes.
unfoldable pub pop_waiter : List Waiter → List Waiter × Option ℕ
pop_waiter [] = ([], none)
pop_waiter (w ∷ waiters) = elim w.done [
  | true ↦ pop_waiter waiters
  | false ↦ (waiters, some w.task)
]

abbrev pub add_woken : Option ℕ → List ℕ → List ℕ
add_woken none woken = woken
add_woken (some t) woken = t ∷ woken

-- _wake_up_next
unfoldable pub wake_up_next : Tasks → Tasks
unfolding pop_waiter
wake_up_next s =
    let (waiters, next) = pop_waiter s.semaphore.waiters in
    record s {
      semaphore = record { value = s.semaphore.value; waiters = waiters };
      woken = add_woken next s.woken;
    }

-- acquire, up to its end or to `await fut`: the test of the loop, for a task that comes to it
unfoldable pub try_acquire : Tasks → ℕ → Tasks
try_acquire s t =
    if ltb 0 s.semaphore.value
    then record s {
      semaphore = record { value = s.semaphore.value - 1; waiters = s.semaphore.waiters };
      holders = suc s.holders;
    }
    else record s {
      semaphore = record {
        value = s.semaphore.value;
        waiters = record { task = t; done = false } ∷ s.semaphore.waiters;
      };
    }

-- release, by a task that has acquired
unfoldable pub release : Tasks → ℕ → Tasks
unfolding wake_up_next
release s zero = s
release s (suc holders) = wake_up_next (record s {
  semaphore = record { value = suc s.semaphore.value; waiters = s.semaphore.waiters };
  holders = holders;
})

-- fut.cancel() of the futures of a task that waits
unfoldable pub cancel_waiter : ℕ → List Waiter → List Waiter
cancel_waiter t [] = []
cancel_waiter t (w ∷ waiters) =
    (if w.task == t then record { task = t; done = true } else w) ∷ cancel_waiter t waiters

-- What happens to the semaphore: a task comes to acquire, a task releases, the woken task at a place
-- runs, and the `except` block of a task that is cancelled, before and after it was woken.
pub data Event : Type 0 where
  acquire : ℕ → Event
  exit : Event
  run_woken : ℕ → Event
  cancel_waiting : ℕ → Event
  cancel_woken : ℕ → Event

abbrev pub without : Tasks → ℕ → Tasks
without s k = record s { woken = take k s.woken ++ drop (suc k) s.woken }

abbrev pub if_free : Tasks → Tasks
if_free s = if ltb 0 s.semaphore.value then wake_up_next s else s

unfoldable pub happen : Tasks → Event → Tasks
unfolding try_acquire release cancel_waiter wake_up_next
happen s (acquire t) = try_acquire s t
happen s exit = release s s.holders
happen s (run_woken k) = elim (get_elem? s.woken k) [
  | none ↦ s
  | some t ↦ try_acquire (without s k) t
]
happen s (cancel_waiting t) = record s {
  semaphore = record { value = s.semaphore.value; waiters = cancel_waiter t s.semaphore.waiters };
}
happen s (cancel_woken k) = elim (get_elem? s.woken k) [ none ↦ s | some t ↦ if_free (without s k) ]

unfoldable pub happen_all : Tasks → List Event → Tasks
unfolding happen
happen_all s [] = s
happen_all s (e ∷ events) = happen_all (happen s e) events

abbrev pub unused : ℕ → Tasks
unused value = record { semaphore = new_semaphore value; woken = []; holders = 0 }
