-- ===== src/ThreadPool/Product.antt =====
-- Multithreading/q4p2.c: the matrix product, in one thread and by tasks.
-- A matrix is a function of row and column. An `int` is 32 bits, so a sum wraps around.
use os_in_parts.Prelude.{ℕ, zero, suc, ◌+◌, ◌*◌, ◌%◌, ◌^◌, ◌&&◌, List, [], ◌∷◌, ◌==◌, if◌then◌else◌}
use os_in_parts.ThreadPool.{Task}

abbrev pub Matrix : Type 0
Matrix = ℕ → ℕ → ℕ

abbrev pub write : Matrix → ℕ → ℕ → ℕ → Matrix
write c row col value i j = if i == row && j == col then value else c i j

abbrev pub add_product : ℕ → ℕ → ℕ → ℕ
add_product sum a b = (sum + a * b) % 2 ^ 32

-- The loop of a worker from `k` on, with `rounds` left.
unfoldable pub sum_from : Matrix → Matrix → (row col rounds k sum : ℕ) → ℕ
sum_from a b row col zero k sum = sum
sum_from a b row col (suc rounds) k sum =
    sum_from a b row col rounds (k + 1) (add_product sum (a row k) (b k col))

-- What a worker, or `parallel_worker`, does with a task.
unfoldable pub execute : Matrix → Matrix → Task → Matrix → Matrix
execute a b task c = write c task.row task.col (sum_from a b task.row task.col task.n 0 0)

-- Tasks that are executed one after the other. Each writes one element once, so this is any order in
-- which the threads write.
unfoldable pub execute_all : Matrix → Matrix → List Task → Matrix → Matrix
execute_all a b [] c = c
execute_all a b (task ∷ tasks) c = execute_all a b tasks (execute a b task c)

-- The three loops of `sequential_matrix_multiplication`, from the innermost out.
unfoldable pub accumulate : Matrix → Matrix → (i j rounds k : ℕ) → Matrix → Matrix
accumulate a b i j zero k c = c
accumulate a b i j (suc rounds) k c =
    accumulate a b i j rounds (k + 1) (write c i j (add_product (c i j) (a i k) (b k j)))

unfoldable pub fill_row : Matrix → Matrix → (n i rounds j : ℕ) → Matrix → Matrix
fill_row a b n i zero j c = c
fill_row a b n i (suc rounds) j c =
    fill_row a b n i rounds (j + 1) (accumulate a b i j n 0 (write c i j 0))

unfoldable pub fill_rows : Matrix → Matrix → (n p rounds i : ℕ) → Matrix → Matrix
fill_rows a b n p zero i c = c
fill_rows a b n p (suc rounds) i c = fill_rows a b n p rounds (i + 1) (fill_row a b n i p 0 c)

unfoldable pub sequential_matrix_multiplication : Matrix → Matrix → Matrix → (m n p : ℕ) → Matrix
sequential_matrix_multiplication a b c m n p = fill_rows a b n p m 0 c
