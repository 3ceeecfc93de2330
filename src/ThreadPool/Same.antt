-- ===== src/ThreadPool/Same.antt =====
-- Multithreading/q4p2.c: tasks give what the sequential loops give.
use os_in_parts.Prelude.{
  ℕ, zero, suc, ◌+◌, ◌<◌, ◌≡◌, ◌&&◌, some, List, [], ◌∷◌, arith, get_elem?, All, leb, ltb, ◌==◌,
  if◌then◌else◌,
}
use os_in_parts.ThreadPool.{Task}
use os_in_parts.ThreadPool.Product.{
  Matrix, write, add_product, sum_from, execute, execute_all, accumulate, fill_row, fill_rows,
  sequential_matrix_multiplication,
}

module _ (a b : Matrix) (n : ℕ) where
  -- The element at `i` and `j` of the product.
  unfoldable pub value : ℕ → ℕ → ℕ
  value i j = sum_from a b i j n 0 0

  accumulate_lem :
      (i j rounds k : ℕ) (c : Matrix) (i' j' : ℕ)
      → accumulate a b i j rounds k c i' j'
        ≡ (if i' == i && j' == j then sum_from a b i j rounds k (c i j) else c i' j')
  unfolding accumulate sum_from
  accumulate_lem i j zero k c i' j' = ground arith
  accumulate_lem i j (suc rounds) k c i' j' = ground (
    arith,
    accumulate_lem i j rounds (k + 1) (write c i j (add_product (c i j) (a i k) (b k j))) i' j',
  )

  fill_row_lem :
      (i rounds j : ℕ) (c : Matrix) (i' j' : ℕ)
      → fill_row a b n i rounds j c i' j'
        ≡ (if i' == i && (leb j j' && ltb j' (j + rounds)) then value i' j' else c i' j')
  unfolding fill_row value
  fill_row_lem i zero j c i' j' = ground arith
  fill_row_lem i (suc rounds) j c i' j' = ground (
    arith,
    fill_row_lem i rounds (j + 1) (accumulate a b i j n 0 (write c i j 0)) i' j',
    accumulate_lem i j n 0 (write c i j 0) i' j',
  )

  pub fill_rows_lem :
      (p rounds i : ℕ) (c : Matrix) (i' j' : ℕ)
      → fill_rows a b n p rounds i c i' j'
        ≡ (if leb i i' && (ltb i' (i + rounds) && ltb j' p) then value i' j' else c i' j')
  unfolding fill_rows
  fill_rows_lem p zero i c i' j' = ground arith
  fill_rows_lem p (suc rounds) i c i' j' = ground (
    arith,
    fill_rows_lem p rounds (i + 1) (fill_row a b n i p 0 c) i' j',
    fill_row_lem i p 0 c i' j',
  )

  -- A task for an element stores the element of the product, and no task stores another value there.
  execute_all-keeps :
      (tasks : List Task) (c : Matrix) (i j : ℕ)
      → All (λ t. t.n ≡ n) tasks
      → c i j ≡ value i j
      → execute_all a b tasks c i j ≡ value i j
  unfolding execute_all execute value
  execute_all-keeps [] c i j h e = e
  execute_all-keeps (t ∷ tasks) c i j h e =
      execute_all-keeps tasks (execute a b t c) i j h.1 (ground (arith, e, h.0))

  pub execute_all-value :
      (tasks : List Task) (c : Matrix) (k : ℕ) (t : Task)
      → All (λ t'. t'.n ≡ n) tasks
      → get_elem? tasks k ≡ some t
      → execute_all a b tasks c t.row t.col ≡ value t.row t.col
  unfolding execute_all execute value
  execute_all-value [] c k t h e = absurd (cc)
  execute_all-value (t' ∷ tasks) c zero t h e =
      execute_all-keeps tasks (execute a b t' c) t.row t.col h.1 (ground (arith, h.0))
  execute_all-value (t' ∷ tasks) c (suc k) t h e =
      execute_all-value tasks (execute a b t' c) k t h.1 e

-- Whatever the order in which tasks of length `n` write, each element of the m-by-p product whose
-- task is among them ends up with the value that the sequential loops store there, whatever the two
-- result matrices held before.
pub execute_all-sequential_matrix_multiplication :
    (a b c c' : Matrix) (m n p : ℕ) (tasks : List Task) (k : ℕ) (t : Task)
    → All (λ t'. t'.n ≡ n) tasks
    → get_elem? tasks k ≡ some t
    → t.row < m
    → t.col < p
    → execute_all a b tasks c t.row t.col
      ≡ sequential_matrix_multiplication a b c' m n p t.row t.col
unfolding sequential_matrix_multiplication
execute_all-sequential_matrix_multiplication a b c c' m n p tasks k t h e in_rows in_cols =
    ground
      (arith, execute_all-value a b n tasks c k t h e, fill_rows_lem a b n p m 0 c' t.row t.col)
