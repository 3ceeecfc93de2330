-- ===== src/ThreadPool/Run.antt =====
-- Multithreading/q4p2.c: the workers of the pool, while `main` adds its tasks.
-- A step is one call of `add_task` by `main`, the turn of a worker in which it takes a task, or the rest of
-- its round, which writes one element and touches nothing else that is shared.
use os_in_parts.Prelude.{
  ℕ, suc, ◌+◌, ◌*◌, ◌%◌, ◌<◌, ◌≡◌, ◌≢◌, Option, none, some, List, [], ◌∷◌, update,
}
use os_in_parts.ThreadPool.{Task, Pool, initialize_threadpool, add_task, take_task}
use os_in_parts.ThreadPool.Product.{Matrix, execute}
use os_in_parts.ThreadPool.Parallel.{create_tasks}

-- The tasks that `main` has not added yet, the task that each worker has taken, and the result.
pub record Working : Type 0 where
  pub pool : Pool
  pub to_add : List Task
  pub workers : ℕ → Option Task
  pub result : Matrix

pub data Move : Type 0 where
  add : Move
  take : ℕ → Move
  work : ℕ → Move

abbrev pub set_up : (m n p : ℕ) → Matrix → Working
set_up m n p c = record {
  pool = initialize_threadpool (m * p);
  to_add = create_tasks m n p;
  workers = λ _. none;
  result = c;
}

abbrev pub add_next : Working → List Task → Option Working
add_next s [] = none
add_next s (task ∷ tasks) = some (record s { pool = add_task task s.pool; to_add = tasks })

-- A worker without a task looks into the queue.
abbrev pub look : ℕ → Working → Option Task → Option (Option Task × Pool) → Option Working
look w s (some task) found = none
look w s none none = none
look w s none (some (task, pool)) =
    some (record s { pool = pool; workers = update s.workers w task })

abbrev pub finish : Matrix → Matrix → ℕ → Working → Option Task → Option Working
finish a b w s none = none
finish a b w s (some task) =
    some (record s { workers = update s.workers w none; result = execute a b task s.result })

-- `none` is a move that cannot be made.
unfoldable pub step : Matrix → Matrix → Move → Working → Option Working
step a b Move.add s = add_next s s.to_add
step a b (Move.take w) s = look w s (s.workers w) (take_task s.pool)
step a b (Move.work w) s = finish a b w s (s.workers w)

abbrev pub IsWorker : ℕ → Move → Type 0
IsWorker cores Move.add = Unit
IsWorker cores (Move.take w) = w < cores
IsWorker cores (Move.work w) = w < cores

-- The queue would not look empty after one more task.
abbrev pub HasRoom : Pool → Type 0
HasRoom pool = (pool.rear + 1) % pool.queue_size ≢ pool.front

-- The states after `k` steps in which the workers keep up: `main` adds a task only while there is room.
pub data KeptUp (a b : Matrix) (cores : ℕ) (initial : Working) : ℕ → Working → Type 0 where
  start : KeptUp a b cores initial 0 initial
  next :
      {k : ℕ} {s s' : Working} (move : Move)
      → KeptUp a b cores initial k s
      → IsWorker cores move
      → (move ≡ Move.add → HasRoom s.pool)
      → step a b move s ≡ some s'
      → KeptUp a b cores initial (suc k) s'
