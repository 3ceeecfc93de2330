-- ===== src/Threads/Examples.antt =====
-- Multithreading/q4p1.c: the product of one row and two columns.
use os_in_parts.Prelude.{ℕ, ◌+◌, ◌*◌, ◌≤◌, ◌<◌, ◌≡◌, ◌⊎◌, refl, some}
use os_in_parts.ThreadPool.Product.{Matrix, sum_from}
use os_in_parts.Threads.Run.{Run, Move, fresh, step, Reached}
use os_in_parts.Threads.Product.{
  compute_element, create_rows, create_row, threads_of, sequential_rows, sequential_row,
}
use os_in_parts.Threads.Same.{Reached-sequential_rows}

abbrev a : Matrix
a i k = k + 1

abbrev b : Matrix
b k j = k * 10 + j

abbrev zeros : Matrix
zeros i j = 0

element_one : sequential_rows a b 2 2 1 0 zeros 0 1 ≡ 23
unfolding sequential_rows sequential_row sum_from
element_one = refl

-- `main` creates the thread of the first element, which runs before the second is created.
created :
    (s : Run Matrix) × (step (compute_element a b) (threads_of 1 2 2) Move.create (fresh zeros)
      ≡ some s)
unfolding step create_rows create_row
created = (_, refl)

ran :
    (s : Run Matrix) × (step (compute_element a b) (threads_of 1 2 2) (Move.run 0) created.0
      ≡ some s)
unfolding step create_rows create_row created
ran = (_, refl)

ran-state : ran.0.state 0 0 ≡ 20
unfolding created ran compute_element sum_from
ran-state = refl

two_steps : Reached (compute_element a b) (threads_of 1 2 2) zeros 2 ran.0
two_steps = Reached.next (Move.run 0) (Reached.next Move.create Reached.start created.1) ran.1

Reached-sequential_rows_example :
    (2 ≤ 3 * (1 * 2))
    × (((move : Move) × (s' : Run Matrix) × (step
              (compute_element a b)
              (threads_of 1 2 2)
              move
              ran.0
            ≡ some s'))
        ⊎ ((ran.0.joined ≡ 1 * 2)
            × ((i j : ℕ)
                → i < 1
                → j < 2
                → ran.0.state i j ≡ sequential_rows a b 2 2 1 0 zeros i j)))
Reached-sequential_rows_example = Reached-sequential_rows a b zeros zeros 1 2 2 2 ran.0 two_steps
