-- ===== src/TryLock/Examples.antt =====
-- Multithreading/q1.c: the first steps of a run.
use os_in_parts.Prelude.{ℕ, ◌+◌, ◌≤◌, ◌<◌, ◌≡◌, ◌≢◌, refl, arith, ◌⊎◌, false, some}
use os_in_parts.TryLock.Defs.{num_threads, Place, Locks, initial, step_in, step, Reached}
use os_in_parts.TryLock.Locks.{has_a, all_steps, Reached-b_free, Reached-unlocked}

-- Thread 1 takes lock A, and thread 0 goes to its pause.
taken : (s : Locks) × (step 1 initial ≡ some s)
unfolding step step_in
taken = (_, refl)

refused : (s : Locks) × (step 0 taken.0 ≡ some s)
unfolding step step_in taken
refused = (_, refl)

refused-threads :
    (refused.0.threads 0 ≡ Place.pausing 3) × (refused.0.threads 1 ≡ Place.holding_a 3)
unfolding taken refused
refused-threads = (refl, refl)

two_steps : Reached 2 refused.0
two_steps =
    Reached.next 0 (Reached.next 1 Reached.start (omega arith) taken.1) (omega arith) refused.1

Reached-b_free_example :
    ((i j : ℕ)
      → i < num_threads
      → j < num_threads
      → i ≢ j
      → has_a (refused.0.threads i) + has_a (refused.0.threads j) ≤ 1)
    × ((i count : ℕ)
        → i < num_threads
        → refused.0.threads i ≡ Place.holding_a count
        → refused.0.lock_b ≡ false)
Reached-b_free_example = Reached-b_free 2 refused.0 two_steps

Reached-unlocked_example :
    (2 ≤ all_steps)
    × ((i : ℕ)
        → i < num_threads
        → ((s' : Locks) × (step i refused.0 ≡ some s')) ⊎ (refused.0.threads i ≡ Place.looping 0))
    × (((i : ℕ) → i < num_threads → refused.0.threads i ≡ Place.looping 0)
        → (refused.0.lock_a ≡ false) × (refused.0.lock_b ≡ false))
Reached-unlocked_example = Reached-unlocked 2 refused.0 two_steps
