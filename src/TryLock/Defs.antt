-- ===== src/TryLock/Defs.antt =====
-- Multithreading/q1.c: three threads that try two locks.
-- A step is one call of `pthread_mutex_trylock` or `pthread_mutex_unlock` by one of the threads, or the
-- pause and the `count--` at the end of its round. What is printed is not modelled.
use os_in_parts.Prelude.{
  ℕ, zero, suc, ◌-◌, ◌<◌, ◌≡◌, Bool, true, false, Option, none, some, if◌then◌else◌, update,
}

abbrev pub num_threads : ℕ
num_threads = 3

abbrev pub rounds : ℕ
rounds = 3

-- Where a thread stands, with its `count`: at the test of its loop, before it tries lock B, before it
-- releases B, before it releases A, and before its pause.
pub data Place : Type 0 where
  looping : ℕ → Place
  holding_a : ℕ → Place
  holding_both : ℕ → Place
  releasing : ℕ → Place
  pausing : ℕ → Place

-- The locks, which are taken or not, and the threads.
pub record Locks : Type 0 where
  pub lock_a : Bool
  pub lock_b : Bool
  pub threads : ℕ → Place

abbrev pub initial : Locks
initial = record { lock_a = false; lock_b = false; threads = λ _. Place.looping rounds }

abbrev pub enter : ℕ → Place → Locks → Locks
enter i place s = record s { threads = update s.threads i place }

-- The step of the thread at `i`. No call waits, so it is none only for a thread that has ended.
unfoldable pub step_in : Place → ℕ → Locks → Option Locks
step_in (Place.looping zero) i s = none
step_in (Place.looping (suc count)) i s = some (
    if s.lock_a
    then enter i (Place.pausing (suc count)) s
    else enter i (Place.holding_a (suc count)) (record s { lock_a = true }))
step_in (Place.holding_a count) i s = some (
    if s.lock_b
    then enter i (Place.releasing count) s
    else enter i (Place.holding_both count) (record s { lock_b = true }))
step_in (Place.holding_both count) i s =
    some (enter i (Place.releasing count) (record s { lock_b = false }))
step_in (Place.releasing count) i s =
    some (enter i (Place.pausing count) (record s { lock_a = false }))
step_in (Place.pausing count) i s = some (enter i (Place.looping (count - 1)) s)

unfoldable pub step : ℕ → Locks → Option Locks
unfolding step_in
step i s = step_in (s.threads i) i s

-- The states after `k` steps of the threads, in any order.
pub data Reached : ℕ → Locks → Type 0 where
  start : Reached 0 initial
  next :
      {k : ℕ} {s s' : Locks} (i : ℕ)
      → Reached k s
      → i < num_threads
      → step i s ≡ some s'
      → Reached (suc k) s'
