-- ===== src/Lock/Invariant.antt =====
-- The semaphore admits no more than it may, and no wake-up is lost.
use mathlib.Core.Path.{subst}
use slice_db.Prelude.{
  ℕ, zero, suc, ◌+◌, ◌≤◌, ◌≡◌, refl, ap, sym, ◌∙◌, List, [], ◌∷◌, ◌++◌, Bool, true, false, Option,
  some, get_elem?, take, drop, length, ltb, if◌then◌else◌, arith, Bool-cases, Option-cases, inl,
  inr,
}
use slice_db.Lock.{
  Waiter, Tasks, pop_waiter, add_woken, wake_up_next, try_acquire, release, cancel_waiter, Event,
  acquire, exit, run_woken, cancel_waiting, cancel_woken, without, if_free, happen, happen_all,
  unused,
}

-- Whether a future waits that is not cancelled.
unfoldable pub is_live : List Waiter → Bool
is_live [] = false
is_live (w ∷ waiters) = if w.done then is_live waiters else true

pub record IsSafe (n : ℕ) (s : Tasks) : Type 0 where
  pub admitted : s.holders + s.semaphore.value ≡ n
  pub awake : is_live s.semaphore.waiters ≡ true → s.semaphore.value ≤ length s.woken

pop_waiter-done :
    (w : Waiter) (waiters : List Waiter)
    → w.done ≡ true
    → (pop_waiter (w ∷ waiters) ≡ pop_waiter waiters) × (is_live (w ∷ waiters) ≡ is_live waiters)
unfolding pop_waiter is_live
pop_waiter-done w waiters e = ground arith

pop_waiter-live :
    (w : Waiter) (waiters : List Waiter)
    → w.done ≡ false
    → (pop_waiter (w ∷ waiters) ≡ (waiters, some w.task)) × (is_live (w ∷ waiters) ≡ true)
unfolding pop_waiter is_live
pop_waiter-live w waiters e = ground arith

WakesNext : List Waiter → List ℕ → List Waiter × Option ℕ → Type 0
WakesNext waiters woken popped =
    is_live popped.0 ≡ true
    → (length (add_woken popped.1 woken) ≡ suc (length woken)) × (is_live waiters ≡ true)

pop_waiter-WakesNext :
    (waiters : List Waiter) (woken : List ℕ) → WakesNext waiters woken (pop_waiter waiters)
unfolding WakesNext
pop_waiter-WakesNext [] woken = λ h. unfold pop_waiter is_live in cc
pop_waiter-WakesNext (w ∷ waiters) woken = elim (Bool-cases w.done) [
  | inl e ↦
      let (popped, live) = pop_waiter-done w waiters e in
      subst (λ p. WakesNext (w ∷ waiters) woken p) (sym popped)
        (λ h. let (more, before) = pop_waiter-WakesNext waiters woken h in (more, live ∙ before))
  | inr e ↦
      let (popped, live) = pop_waiter-live w waiters e in
      subst (λ p. WakesNext (w ∷ waiters) woken p) (sym popped) (λ h. (refl, live))
]

-- One wake-up short of safe.
record IsNearlySafe (n : ℕ) (s : Tasks) : Type 0 where
  admitted : s.holders + s.semaphore.value ≡ n
  awake : is_live s.semaphore.waiters ≡ true → s.semaphore.value ≤ suc (length s.woken)

wake_up_next-IsSafe : (n : ℕ) (s : Tasks) → IsNearlySafe n s → IsSafe n (wake_up_next s)
unfolding wake_up_next WakesNext
wake_up_next-IsSafe n s h = record {
  admitted = h.admitted;
  awake = λ live.
      let (more, before) = pop_waiter-WakesNext s.semaphore.waiters s.woken live in
      let bound = h.awake before in omega (arith, more, bound);
}

try_acquire-IsSafe : (n : ℕ) (s : Tasks) (t : ℕ) → IsNearlySafe n s → IsSafe n (try_acquire s t)
unfolding try_acquire is_live
try_acquire-IsSafe n s t h = elim (Bool-cases (ltb 0 s.semaphore.value)) [
  | inl e ↦ rw e (record {
    admitted = ground (arith, h.admitted, e);
    awake = λ live. ground (arith, h.awake live, e);
  })
  | inr e ↦ rw e (record { admitted = h.admitted; awake = λ live. ground (arith, e) })
]

release-IsSafe :
    (n : ℕ) (s : Tasks) (holders : ℕ)
    → s.holders ≡ holders
    → IsSafe n s
    → IsSafe n (release s holders)
unfolding release
release-IsSafe n s zero e h = h
release-IsSafe n s (suc holders) e h =
    wake_up_next-IsSafe n
      (record s {
        semaphore = record { value = suc s.semaphore.value; waiters = s.semaphore.waiters };
        holders = holders;
      })
      (record {
        admitted = omega (arith, h.admitted, e);
        awake = λ live. omega (arith, h.awake live);
      })

length-without :
    (xs : List ℕ) (k t : ℕ)
    → get_elem? xs k ≡ some t
    → suc (length (take k xs ++ drop (suc k) xs)) ≡ length xs
length-without [] k t h = cc
length-without (x ∷ xs) zero t h = refl
length-without (x ∷ xs) (suc k) t h = ap suc (length-without xs k t h)

without-IsNearlySafe :
    (n : ℕ) (s : Tasks) (k t : ℕ)
    → get_elem? s.woken k ≡ some t
    → IsSafe n s
    → IsNearlySafe n (without s k)
without-IsNearlySafe n s k t e h = record {
  admitted = h.admitted;
  awake = λ live. omega (arith, h.awake live, length-without s.woken k t e);
}

if_free-IsSafe : (n : ℕ) (s : Tasks) → IsNearlySafe n s → IsSafe n (if_free s)
if_free-IsSafe n s h = elim (Bool-cases (ltb 0 s.semaphore.value)) [
  | inl e ↦ rw e (wake_up_next-IsSafe n s h)
  | inr e ↦ rw e (record { admitted = h.admitted; awake = λ live. ground (arith, e) })
]

cancel_waiter-live :
    (t : ℕ) (waiters : List Waiter)
    → is_live (cancel_waiter t waiters) ≡ true
    → is_live waiters ≡ true
unfolding cancel_waiter is_live
cancel_waiter-live t [] h = h
cancel_waiter-live t (w ∷ waiters) h = ground (arith, cancel_waiter-live t waiters)

happen-IsSafe : (n : ℕ) (s : Tasks) (e : Event) → IsSafe n s → IsSafe n (happen s e)
unfolding happen
happen-IsSafe n s (acquire t) h =
    try_acquire-IsSafe n s t
      (record { admitted = h.admitted; awake = λ live. omega (arith, h.awake live) })
happen-IsSafe n s exit h = release-IsSafe n s s.holders refl h
happen-IsSafe n s (run_woken k) h = elim (Option-cases (get_elem? s.woken k)) [
  | inl e ↦ rw (happen, e) h
  | inr (t, e) ↦
      rw (happen, e) (try_acquire-IsSafe n (without s k) t (without-IsNearlySafe n s k t e h))
]
happen-IsSafe n s (cancel_waiting t) h = record {
  admitted = h.admitted;
  awake = λ live. h.awake (cancel_waiter-live t s.semaphore.waiters live);
}
happen-IsSafe n s (cancel_woken k) h = elim (Option-cases (get_elem? s.woken k)) [
  | inl e ↦ rw (happen, e) h
  | inr (t, e) ↦ rw (happen, e) (if_free-IsSafe n (without s k) (without-IsNearlySafe n s k t e h))
]

events-IsSafe :
    (n : ℕ) (s : Tasks) (events : List Event) → IsSafe n s → IsSafe n (happen_all s events)
unfolding happen_all
events-IsSafe n s [] h = h
events-IsSafe n s (e ∷ events) h = events-IsSafe n (happen s e) events (happen-IsSafe n s e h)

unused-IsSafe : (n : ℕ) → IsSafe n (unused n)
unfolding is_live
unused-IsSafe n = record { admitted = omega arith; awake = λ live. cc }

-- From an unused semaphore of `n`, after any events: those who hold it and its value make `n`, so no
-- more than `n` hold it; and while a task waits that is not cancelled, at least as many woken tasks
-- are about to run as the semaphore has places free.
pub happen_all-IsSafe : (n : ℕ) (events : List Event) → IsSafe n (happen_all (unused n) events)
happen_all-IsSafe n events = events-IsSafe n (unused n) events (unused-IsSafe n)
