-- ===== src/Servers/Defs.antt =====
-- Multithreading/q2.c: five servers that share five channels, each a semaphore.
-- The servers are threads. A step is one call of `sem_wait` or `sem_post` by one of them, with what
-- it does before its next call, which touches nothing that is shared; a thread that waits takes no
-- step while its semaphore is 0.
use os_in_parts.Prelude.{
  ℕ, suc, ◌+◌, ◌-◌, ◌%◌, ◌<◌, ◌≡◌, Option, none, some, ltb, ◌==◌, if◌then◌else◌, update,
}

abbrev pub total_servers : ℕ
total_servers = 5

abbrev pub max_tasks : ℕ
max_tasks = 3

-- Where a server stands in its loop: before the first wait, before the second, before the post of
-- its left channel, before the post of its right one, and past the loop.
pub data Phase : Type 0 where
  waiting holding_first processing posted finished : Phase

-- The semaphores, and the phase and `task_count` of each thread.
pub record Servers : Type 0 where
  pub channels : ℕ → ℕ
  pub phase : ℕ → Phase
  pub task_count : ℕ → ℕ

-- What `main` sets up.
abbrev pub initial : Servers
initial = record { channels = λ _. 1; phase = λ _. Phase.waiting; task_count = λ _. 0 }

abbrev pub left_channel : ℕ → ℕ
left_channel server_id = server_id

abbrev pub right_channel : ℕ → ℕ
right_channel server_id = (server_id + 1) % total_servers

-- The channel that is waited for first, by the test of the two numbers, and the other one.
abbrev pub first_channel : ℕ → ℕ
first_channel i = if ltb (left_channel i) (right_channel i) then left_channel i else right_channel i

abbrev pub second_channel : ℕ → ℕ
second_channel i =
    if ltb (left_channel i) (right_channel i) then right_channel i else left_channel i

-- `none` is a call that blocks.
unfoldable pub sem_wait : ℕ → Servers → Option Servers
sem_wait c s =
    if s.channels c == 0
    then none
    else some (record s { channels = update s.channels c (s.channels c - 1) })

unfoldable pub sem_post : ℕ → Servers → Servers
sem_post c s = record s { channels = update s.channels c (s.channels c + 1) }

abbrev pub enter : ℕ → Phase → Servers → Servers
enter i phase s = record s { phase = update s.phase i phase }

-- The step of a wait that returns.
abbrev pub entered : ℕ → Phase → Option Servers → Option Servers
entered i phase none = none
entered i phase (some s) = some (enter i phase s)

-- The end of a round: `task_count++`, and the test of the loop.
unfoldable pub next_task : ℕ → Servers → Servers
next_task i s =
    let count = s.task_count i + 1 in
    enter i (if ltb count max_tasks then Phase.waiting else Phase.finished)
      (record s { task_count = update s.task_count i count })

-- The step of the server at `i` in a phase; `none` is a server that waits or has ended.
unfoldable pub step_in : Phase → ℕ → Servers → Option Servers
unfolding sem_wait sem_post next_task
step_in Phase.waiting i s = entered i Phase.holding_first (sem_wait (first_channel i) s)
step_in Phase.holding_first i s = entered i Phase.processing (sem_wait (second_channel i) s)
step_in Phase.processing i s = some (enter i Phase.posted (sem_post (left_channel i) s))
step_in Phase.posted i s = some (next_task i (sem_post (right_channel i) s))
step_in Phase.finished i s = none

unfoldable pub step : ℕ → Servers → Option Servers
unfolding step_in
step i s = step_in (s.phase i) i s

-- The states after `k` steps of the servers, in any order.
pub data Reached : ℕ → Servers → Type 0 where
  start : Reached 0 initial
  moved :
      {k i : ℕ} {s s' : Servers}
      → Reached k s
      → i < total_servers
      → step i s ≡ some s'
      → Reached (suc k) s'
