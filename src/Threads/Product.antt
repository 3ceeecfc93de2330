-- ===== src/Threads/Product.antt =====
-- Multithreading/q4p1.c: the matrix product, by threads and in one thread.
-- A matrix is a function of row and column, and an `int` has 32 bits, as in Multithreading/q4p2.c, whose
-- inner loop is the same.
use os_in_parts.Prelude.{ℕ, zero, suc, ◌+◌, List, [], ◌∷◌, ◌++◌}
use os_in_parts.ThreadPool.{Task}
use os_in_parts.ThreadPool.Product.{Matrix, write, sum_from}

-- The fields are those of a `Task` of the other program. The matrices are the same for all threads.
abbrev pub ThreadData : Type 0
ThreadData = Task

unfoldable pub compute_element : Matrix → Matrix → ThreadData → Matrix → Matrix
compute_element a b d c = write c d.row d.col (sum_from a b d.row d.col d.n 0 0)

-- The data of the threads that the two loops of `main` create, with the number of rounds left.
unfoldable pub create_row : (n i rounds j : ℕ) → List ThreadData
create_row n i zero j = []
create_row n i (suc rounds) j = record { row = i; col = j; n = n } ∷ create_row n i rounds (j + 1)

unfoldable pub create_rows : (n p rounds i : ℕ) → List ThreadData
create_rows n p zero i = []
create_rows n p (suc rounds) i = create_row n i p 0 ++ create_rows n p rounds (i + 1)

-- The threads of an m-by-n and an n-by-p matrix.
abbrev pub threads_of : (m n p : ℕ) → List ThreadData
threads_of m n p = create_rows n p m 0

-- The sequential loops of `main`, which store each sum at its end.
unfoldable pub sequential_row : Matrix → Matrix → (n i rounds j : ℕ) → Matrix → Matrix
sequential_row a b n i zero j c = c
sequential_row a b n i (suc rounds) j c =
    sequential_row a b n i rounds (j + 1) (write c i j (sum_from a b i j n 0 0))

unfoldable pub sequential_rows : Matrix → Matrix → (n p rounds i : ℕ) → Matrix → Matrix
sequential_rows a b n p zero i c = c
sequential_rows a b n p (suc rounds) i c =
    sequential_rows a b n p rounds (i + 1) (sequential_row a b n i p 0 c)
