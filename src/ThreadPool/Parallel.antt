-- ===== src/ThreadPool/Parallel.antt =====
-- Multithreading/q4p2.c: the matrix product by a thread for each task.
use os_in_parts.Prelude.{
  ℕ, zero, suc, ◌+◌, ◌*◌, ◌≤◌, ◌<◌, ◌≡◌, refl, sym, ◌∙◌, arith, List, [], ◌∷◌, ◌++◌, ◌⊎◌, inl, inr,
  some, subst,
}
use os_in_parts.ThreadPool.{Task}
use os_in_parts.ThreadPool.Product.{Matrix, write, sum_from, sequential_matrix_multiplication}
use os_in_parts.ThreadPool.Same.{value, fill_rows_lem}
use os_in_parts.Threads.Run.{Run, Move, step, Reached}
use os_in_parts.Threads.Product.{
  compute_element, create_row, create_rows, threads_of, sequential_rows,
}
use os_in_parts.Threads.Same.{sequential_rows_lem, Reached-sequential_rows}

unfoldable pub parallel_worker : Matrix → Matrix → Task → Matrix → Matrix
parallel_worker a b task c = write c task.row task.col (sum_from a b task.row task.col task.n 0 0)

-- The tasks that the two loops create, with the number of rounds left.
unfoldable pub task_row : (n i rounds j : ℕ) → List Task
task_row n i zero j = []
task_row n i (suc rounds) j = record { row = i; col = j; n = n } ∷ task_row n i rounds (j + 1)

unfoldable pub task_rows : (n p rounds i : ℕ) → List Task
task_rows n p zero i = []
task_rows n p (suc rounds) i = task_row n i p 0 ++ task_rows n p rounds (i + 1)

abbrev pub create_tasks : (m n p : ℕ) → List Task
create_tasks m n p = task_rows n p m 0

-- They are those of the threads of Multithreading/q4p1.c.
task_row-create_row : (n i rounds j : ℕ) → task_row n i rounds j ≡ create_row n i rounds j
unfolding task_row create_row
task_row-create_row n i zero j = refl
task_row-create_row n i (suc rounds) j = rw (task_row-create_row n i rounds (j + 1)) refl

pub task_rows-create_rows : (n p rounds i : ℕ) → task_rows n p rounds i ≡ create_rows n p rounds i
unfolding task_rows create_rows
task_rows-create_rows n p zero i = refl
task_rows-create_rows n p (suc rounds) i =
    rw (task_row-create_row n i p 0, task_rows-create_rows n p rounds (i + 1)) refl

same_loops :
    (a b c : Matrix) (m n p i j : ℕ)
    → i < m
    → j < p
    → sequential_rows a b n p m 0 c i j ≡ sequential_matrix_multiplication a b c m n p i j
unfolding sequential_matrix_multiplication value
same_loops a b c m n p i j hi hj =
    ground (arith, sequential_rows_lem a b n p m 0 c i j, fill_rows_lem a b n p m 0 c i j)

-- After `k` steps of `parallel_matrix_multiplication` and of the threads that it creates, in any order,
-- `k` is at most three for each element, and something can happen next, or it has joined them all,
-- and each element of its result is the one that `sequential_matrix_multiplication` stores, whatever
-- the two result matrices held before.
pub parallel-sequential_matrix_multiplication :
    (a b c c' : Matrix) (m n p k : ℕ) (s : Run Matrix)
    → Reached (parallel_worker a b) (create_tasks m n p) c k s
    → (k ≤ 3 * (m * p))
      × (((move : Move) × (s' : Run Matrix) × (step
                (parallel_worker a b)
                (create_tasks m n p)
                move
                s
              ≡ some s'))
          ⊎ ((s.joined ≡ m * p)
              × ((i j : ℕ)
                  → i < m
                  → j < p
                  → s.state i j ≡ sequential_matrix_multiplication a b c' m n p i j)))
unfolding parallel_worker
parallel-sequential_matrix_multiplication a b c c' m n p k s reached =
    let same = task_rows-create_rows n p m 0 in
    let threaded : Reached (compute_element a b) (threads_of m n p) c k s =
      unfold compute_element in subst (λ ts. Reached (compute_element a b) ts c k s) same reached in
    let (bound, outcome) = Reached-sequential_rows a b c c' m n p k s threaded in
    (
      bound,
      elim outcome [
        | inl (move, s', e) ↦ inl (
          move,
          s',
          (unfold compute_element in
              subst (λ ts. step (compute_element a b) ts move s ≡ some s') (sym same) e),
        )
        | inr (joined, equal) ↦
            inr (joined, λ i j hi hj. equal i j hi hj ∙ same_loops a b c' m n p i j hi hj)
      ],
    )
