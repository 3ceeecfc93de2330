-- ===== src/ThreadPool/Examples.antt =====
-- Multithreading/q4p2.c: small pools.
use os_in_parts.Prelude.{ℕ, ◌+◌, ◌*◌, ◌≤◌, ◌<◌, ◌≡◌, ◌⊎◌, refl, none, some, [], ◌∷◌, arith}
use os_in_parts.ThreadPool.Product.{
  Matrix, sequential_matrix_multiplication, fill_rows, fill_row, accumulate,
}
use os_in_parts.ThreadPool.Parallel.{
  parallel_worker, create_tasks, task_rows, task_row, parallel-sequential_matrix_multiplication,
}
use os_in_parts.ThreadPool.Run.{Working, set_up, IsWorker, HasRoom, KeptUp}
use os_in_parts.ThreadPool.Run as Pooled
use os_in_parts.ThreadPool.Finished.{CanMove, KeptUp-sequential_matrix_multiplication}
use os_in_parts.Threads.Run.{Run, Move, fresh, step, Reached}
use os_in_parts.ThreadPool.{Task, initialize_threadpool, add_task, take_task, add_tasks}
use os_in_parts.ThreadPool.Queue.{IsQueue, initialize-IsQueue, add_task-IsQueue, add_tasks_lost}

abbrev task : ℕ → Task
task col = record { row = 0; col = col; n = 2 }

one_task : IsQueue (add_task (task 0) (initialize_threadpool 4)) (task 0 ∷ [])
one_task =
    add_task-IsQueue (initialize_threadpool 4) (task 0) [] (initialize-IsQueue 4 (omega arith))
      (omega arith)

-- A product of one row and two columns.
add_tasks_lost_example :
    take_task (add_tasks (task 0 ∷ task 1 ∷ []) (initialize_threadpool 2)) ≡ none
add_tasks_lost_example = add_tasks_lost 2 (task 0 ∷ task 1 ∷ []) (omega arith) refl

-- The products of 1 and 2 with the columns of a matrix of two rows, last task first.
abbrev a : Matrix
a i k = k + 1

abbrev b : Matrix
b k j = k * 10 + j

abbrev zeros : Matrix
zeros i j = 0

element_one : sequential_matrix_multiplication a b zeros 1 2 2 0 1 ≡ 23
unfolding sequential_matrix_multiplication fill_rows fill_row accumulate
element_one = refl

-- `parallel_matrix_multiplication` creates the first of its two threads.
one_created :
    (s : Run Matrix) × (step (parallel_worker a b) (create_tasks 1 2 2) Move.create (fresh zeros)
      ≡ some s)
unfolding step task_rows task_row
one_created = (_, refl)

created-Reached : Reached (parallel_worker a b) (create_tasks 1 2 2) zeros 1 one_created.0
created-Reached = Reached.next Move.create Reached.start one_created.1

parallel-sequential_matrix_multiplication_example :
    (1 ≤ 3 * (1 * 2))
    × (((move : Move) × (s' : Run Matrix) × (step
              (parallel_worker a b)
              (create_tasks 1 2 2)
              move
              one_created.0
            ≡ some s'))
        ⊎ ((one_created.0.joined ≡ 1 * 2)
            × ((i j : ℕ)
                → i < 1
                → j < 2
                → one_created.0.state i j ≡ sequential_matrix_multiplication a b zeros 1 2 2 i j)))
parallel-sequential_matrix_multiplication_example =
    parallel-sequential_matrix_multiplication a b zeros zeros 1 2 2 1 one_created.0 created-Reached

-- `main` adds the first of its two tasks.
one_added : (s : Working) × (Pooled.step a b Pooled.Move.add (set_up 1 2 2 zeros) ≡ some s)
unfolding Pooled.step task_rows task_row
one_added = (_, refl)

added-KeptUp : KeptUp a b 4 (set_up 1 2 2 zeros) 1 one_added.0
added-KeptUp = KeptUp.next Pooled.Move.add KeptUp.start tt (λ e f. absurd (omega arith)) one_added.1

KeptUp-sequential_matrix_multiplication_example :
    (1 ≤ 3 * (1 * 2))
    × (CanMove a b 4 one_added.0
        ⊎ ((i j : ℕ)
            → i < 1
            → j < 2
            → one_added.0.result i j ≡ sequential_matrix_multiplication a b zeros 1 2 2 i j))
KeptUp-sequential_matrix_multiplication_example =
    KeptUp-sequential_matrix_multiplication a b 4 1 2 2 zeros (omega arith) zeros 1 one_added.0
      (omega arith) added-KeptUp
