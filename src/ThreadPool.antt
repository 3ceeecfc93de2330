-- ===== src/ThreadPool.antt =====
-- Multithreading/q4p2.c: the queue of tasks that the workers of a thread pool share.
-- The body of `add_task`, and that of a worker up to its unlock, hold the lock, so each is one step.
-- The calls of `pthread_cond_wait` and `pthread_cond_signal` decide when a worker looks again, and not
-- what it finds. A slot of the array that has not been written holds no task.
pub mod Queue
pub mod Product
pub mod Same
pub mod Parallel
pub mod Run
pub mod Workers
pub mod Kept
pub mod Finished
mod Examples
use os_in_parts.Prelude.{
  ℕ, ◌+◌, ◌%◌, Option, none, some, List, [], ◌∷◌, ◌==◌, if◌then◌else◌, update,
}

-- The matrices that a task points to are the same for all tasks.
pub record Task : Type 0 where
  pub row : ℕ
  pub col : ℕ
  pub n : ℕ

pub record Pool : Type 0 where
  pub task_queue : ℕ → Option Task
  pub queue_size : ℕ
  pub front : ℕ
  pub rear : ℕ

abbrev pub initialize_threadpool : ℕ → Pool
initialize_threadpool max_tasks = record {
  task_queue = λ _. none;
  queue_size = max_tasks;
  front = 0;
  rear = 0;
}

unfoldable pub add_task : Task → Pool → Pool
add_task task pool = record pool {
  task_queue = update pool.task_queue pool.rear (some task);
  rear = (pool.rear + 1) % pool.queue_size;
}

-- A worker's turn; `none` is a worker that goes on waiting.
unfoldable pub take_task : Pool → Option (Option Task × Pool)
take_task pool =
    if pool.front == pool.rear
    then none
    else some
        (pool.task_queue pool.front, record pool { front = (pool.front + 1) % pool.queue_size })

-- The loop of `main` that adds the tasks.
unfoldable pub add_tasks : List Task → Pool → Pool
add_tasks [] pool = pool
add_tasks (task ∷ tasks) pool = add_tasks tasks (add_task task pool)
