-- ===== src/ThreadPool/Finished.antt =====
-- Multithreading/q4p2.c: what the workers have done at the end.
use os_in_parts.Prelude.{
  ℕ, ◌+◌, ◌*◌, ◌%◌, ◌≤◌, ◌<◌, ◌≡◌, refl, sym, ap, ◌∙◌, arith, none, some, List, [], ◌∷◌, get_elem?,
  is_some, is_some-true, is_some-false, find_below, update, ◌⊎◌, inl, inr, subst,
}
use os_in_parts.Prelude.Circle.{place_value}
use os_in_parts.ThreadPool.{Task, Pool, add_task}
use os_in_parts.ThreadPool.Product.{Matrix, execute, sequential_matrix_multiplication}
use os_in_parts.ThreadPool.Queue.{IsQueue, take_task-IsQueue}
use os_in_parts.ThreadPool.Same.{execute_all-sequential_matrix_multiplication}
use os_in_parts.ThreadPool.Parallel.{create_tasks, task_rows-create_rows}
use os_in_parts.ThreadPool.Run.{Working, Move, set_up, add_next, step, IsWorker, HasRoom, KeptUp}
use os_in_parts.ThreadPool.Kept.{create_tasks-length, KeptUp-Inv, KeptUp-size}
use os_in_parts.ThreadPool.Workers.{Where}
use os_in_parts.Threads.Same.{create_rows-has}

-- A move that a run in which the workers keep up can make.
abbrev pub CanMove : Matrix → Matrix → ℕ → Working → Type 0
CanMove a b cores s =
    (move : Move) × (s' : Working) × IsWorker cores move
    × (move ≡ Move.add → HasRoom s.pool)
    × (step a b move s ≡ some s')

-- An empty queue of two slots has room.
empty-HasRoom : (pool : Pool) → IsQueue pool [] → 2 ≤ pool.queue_size → HasRoom pool
empty-HasRoom pool q two e =
    let home : pool.rear ≡ pool.front = omega (
      arith,
      q.front_in,
      q.rear_at,
      place_value pool.queue_size pool.front q.front_in 0 (omega arith),
    ) in
    let next : (pool.front + 1) % pool.queue_size ≡ pool.front =
      sym (ap (λ x. (x + 1) % pool.queue_size) home) ∙ e in
    omega (arith, place_value pool.queue_size pool.front q.front_in 1 two)

module _ (a b : Matrix) (cores m n p : ℕ) (c : Matrix) (two : 2 ≤ m * p) where
  -- With idle workers, something can happen unless the queue is empty and all tasks are added.
  idle_moves :
      (s : Working) (queue to_add : List Task)
      → IsQueue s.pool queue
      → s.pool.queue_size ≡ m * p
      → s.to_add ≡ to_add
      → 0 < cores
      → s.workers 0 ≡ none
      → CanMove a b cores s ⊎ ((queue ≡ []) × (to_add ≡ []))
  unfolding step
  idle_moves s (t ∷ rest) to_add q size at some_core idle =
      let (pool', e, q') = take_task-IsQueue s.pool t rest q in
      inl (
        Move.take 0,
        record s { pool = pool'; workers = update s.workers 0 (some t) },
        some_core,
        (λ f. absurd (cc)),
        ground (arith, e, idle),
      )
  idle_moves s [] (t ∷ rest) q size at some_core idle = inl (
    Move.add,
    record s { pool = add_task t s.pool; to_add = rest },
    tt,
    (λ f. empty-HasRoom s.pool q (omega arith)),
    ap (add_next s) at,
  )
  idle_moves s [] [] q size at some_core idle = inr (refl, refl)

  -- When nothing is left, each task is done.
  nothing_left :
      (s : Working) (order : List Task) (t : Task)
      → ((w : ℕ) → w < cores → s.workers w ≡ none)
      → Where cores order [] [] s.workers t
      → (j : ℕ) × (get_elem? order j ≡ some t)
  nothing_left s order t idle (Where.done j at) = (j, at)
  nothing_left s order t idle (Where.with_worker w lt at) = let none_held = idle w lt in absurd (cc)
  nothing_left s order t idle (Where.queued j at) = absurd (cc)
  nothing_left s order t idle (Where.left j at) = absurd (cc)

  -- If the product has two elements or more and there is a worker, then after `k` steps in which the
  -- workers keep up, in any order, `k` is at most three for each element, and something can happen
  -- next, or each element of the result is the one that `sequential_matrix_multiplication` stores,
  -- whatever the two result matrices held before.
  pub KeptUp-sequential_matrix_multiplication :
      (c' : Matrix) (k : ℕ) (s : Working)
      → 0 < cores
      → KeptUp a b cores (set_up m n p c) k s
      → (k ≤ 3 * (m * p))
        × (CanMove a b cores s
            ⊎ ((i j : ℕ)
                → i < m
                → j < p
                → s.result i j ≡ sequential_matrix_multiplication a b c' m n p i j))
  unfolding step
  KeptUp-sequential_matrix_multiplication c' k s some_core reached =
      let v = KeptUp-Inv a b cores m n p c (omega arith) reached in
      (
        omega (arith, v.steps, create_tasks-length m n p),
        elim (find_below (λ w. is_some (s.workers w)) cores) [
          | inl (w, lt, e) ↦
              let (t, busy) = is_some-true (s.workers w) e in
              inl (
                Move.work w,
                record s { workers = update s.workers w none; result = execute a b t s.result },
                lt,
                (λ f. absurd (cc)),
                ground (arith, busy),
              )
          | inr idle ↦
              let none_held : (w : ℕ) → w < cores → s.workers w ≡ none =
                λ w lt. is_some-false (s.workers w) (idle w lt) in
              elim (idle_moves s v.queue s.to_add v.is_queue (KeptUp-size a b cores m n p c reached)
                refl some_core (none_held 0 some_core)) [
                  | inl move ↦ inl move
                  | inr (no_queue, none_to_add) ↦ inr (λ i j hi hj.
                      let (l, at) = create_rows-has n p m 0 i j (omega arith) (omega arith) hj in
                      let t : Task = record { row = i; col = j; n = n } in
                      let at' : get_elem? (create_tasks m n p) l ≡ some t =
                        subst (λ ts. get_elem? ts l ≡ some t) (sym (task_rows-create_rows n p m 0))
                          at in
                      let place : Where cores v.order [] [] s.workers t =
                        subst (λ x. Where cores v.order x [] s.workers t) no_queue
                          (subst (λ x. Where cores v.order v.queue x s.workers t) none_to_add
                            (v.placed l t at')) in
                      let (l', done) = nothing_left s v.order t none_held place in
                      ap (λ x. x i j) v.result
                      ∙ execute_all-sequential_matrix_multiplication a b c c' m n p v.order l' t
                          v.order_n done hi hj)
                ]
        ],
      )
