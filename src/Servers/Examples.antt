-- ===== src/Servers/Examples.antt =====
-- Multithreading/q2.c: the first steps of a run.
use os_in_parts.Prelude.{ℕ, ◌+◌, ◌≤◌, ◌<◌, ◌≡◌, refl, ◌⊎◌, none, some, arith}
use os_in_parts.Servers.Defs.{
  total_servers, max_tasks, Phase, Servers, initial, sem_wait, step_in, step, Reached,
}
use os_in_parts.Servers.Invariant.{holds}
use os_in_parts.Servers.Calls.{all_calls, Reached-exclusive}
use os_in_parts.Servers.Deadlock.{Reached-completes}

-- Server 4 has taken channel 0.
taken : (s : Servers) × (step 4 initial ≡ some s)
unfolding step step_in sem_wait
taken = (_, refl)

one_step : Reached 1 taken.0
one_step = Reached.moved Reached.start (omega arith) taken.1

-- Server 0 waits for it.
zero-blocked : step 0 taken.0 ≡ none
unfolding step step_in sem_wait taken
zero-blocked = refl

Reached-exclusive_example : holds (taken.0.phase 0) 0 0 + holds (taken.0.phase 4) 4 0 ≤ 1
Reached-exclusive_example =
    Reached-exclusive 1 taken.0 0 0 4 one_step (omega arith) (omega arith) (omega arith)
      (λ e. omega arith)

Reached-completes_example :
    (1 ≤ all_calls)
    × (((i : ℕ) × (s' : Servers) × (i < total_servers) × (step i taken.0 ≡ some s'))
        ⊎ ((1 ≡ all_calls)
            × ((i : ℕ)
                → i < total_servers
                → (taken.0.phase i ≡ Phase.finished) × (taken.0.task_count i ≡ max_tasks))))
Reached-completes_example = Reached-completes 1 taken.0 one_step
