-- ===== src/ThreadPool/Queue.antt =====
-- Multithreading/q4p2.c: the circular array against a list of tasks.
use native.Mathlib.Nat.{mod-add-mod, mod-eq_of_lt}
use os_in_parts.Prelude.{
  ℕ, suc, ◌+◌, ◌%◌, ◌<◌, ◌≡◌, ◌≢◌, refl, sym, ap, ◌∙◌, subst, none, some, List, [], ◌∷◌, ◌++◌,
  arith, length, length-append, get_elem?, get_elem?-append_lt, get_elem?-append_last, ℕ_discrete,
}
use os_in_parts.Prelude.Circle.{place-suc, place_full, place_value, place_injective}
use os_in_parts.ThreadPool.{Task, Pool, initialize_threadpool, add_task, take_task, add_tasks}

-- The pool holds the tasks of the list, the next one first; fewer than it has slots.
pub record IsQueue (pool : Pool) (tasks : List Task) : Type 0 where
  pub front_in : pool.front < pool.queue_size
  pub room : length tasks < pool.queue_size
  pub rear_at : pool.rear ≡ (pool.front + length tasks) % pool.queue_size
  pub slots :
      (k : ℕ)
      → k < length tasks
      → pool.task_queue ((pool.front + k) % pool.queue_size) ≡ get_elem? tasks k

-- A place counted from the next index on.
place_next : (n s k : ℕ) → ((s + 1) % n + k) % n ≡ (s + suc k) % n
place_next n s k = mod-add-mod (s + 1) n k ∙ ap (λ x. x % n) (omega arith)

place_zero : (n s : ℕ) → s < n → (s + 0) % n ≡ s
place_zero n s h = ap (λ x. x % n) (omega arith) ∙ mod-eq_of_lt h

pub initialize-IsQueue : (size : ℕ) → 0 < size → IsQueue (initialize_threadpool size) []
initialize-IsQueue size some_slot = record {
  front_in = some_slot;
  room = some_slot;
  rear_at = sym (mod-eq_of_lt some_slot);
  slots = λ k h. absurd (omega arith);
}

-- A worker finds nothing if the list is empty.
pub take_task-nil : (pool : Pool) → IsQueue pool [] → take_task pool ≡ none
unfolding take_task
take_task-nil pool q = ground (arith, q.rear_at, place_zero pool.queue_size pool.front q.front_in)

-- If the pool holds a list that is not empty, a worker takes its first task, and the pool then holds
-- the rest.
pub take_task-IsQueue :
    (pool : Pool) (task : Task) (tasks : List Task)
    → IsQueue pool (task ∷ tasks)
    → (pool' : Pool) × (take_task pool ≡ some (some task, pool')) × IsQueue pool' tasks
unfolding take_task
take_task-IsQueue pool task tasks q = (
  record pool { front = (pool.front + 1) % pool.queue_size },
  (let first : pool.task_queue pool.front ≡ some task =
        subst (λ x. pool.task_queue x ≡ some task)
          (place_zero pool.queue_size pool.front q.front_in) (q.slots 0 (omega arith)) in
      let not_empty : pool.front ≢ pool.rear = λ e. omega (
        arith,
        q.rear_at,
        place_value pool.queue_size pool.front q.front_in (suc (length tasks)) q.room,
      ) in
      ground (arith, first, not_empty)),
  record {
    front_in = omega (arith, q.front_in);
    room = omega (arith, q.room);
    rear_at = q.rear_at ∙ sym (place_next pool.queue_size pool.front (length tasks));
    slots = λ k h.
        ap pool.task_queue (place_next pool.queue_size pool.front k)
        ∙ q.slots (suc k) (omega arith);
  },
)

-- If the pool holds a list, and the list with a new task is still shorter than the array, then after
-- `add_task` it holds the list with the new task at its end.
pub add_task-IsQueue :
    (pool : Pool) (task : Task) (tasks : List Task)
    → IsQueue pool tasks
    → length tasks + 1 < pool.queue_size
    → IsQueue (add_task task pool) (tasks ++ task ∷ [])
unfolding add_task
add_task-IsQueue pool task tasks q more = record {
  front_in = q.front_in;
  room = omega (arith, length-append tasks (task ∷ []));
  rear_at =
      ap (λ x. (x + 1) % pool.queue_size) q.rear_at
      ∙ place-suc pool.queue_size pool.front q.front_in (length tasks)
      ∙ ap (λ x. (pool.front + x) % pool.queue_size) (sym (length-append tasks (task ∷ [])));
  slots = λ k h. elim (ℕ_discrete k (length tasks)) [
    | yes last ↦ rw last (ground (arith, q.rear_at) ∙ sym (get_elem?-append_last tasks task))
    | no before ↦
        let lt : k < length tasks = omega (arith, length-append tasks (task ∷ [])) in
        let other : pool.rear ≢ (pool.front + k) % pool.queue_size = λ e. before (
          place_injective pool.queue_size pool.front q.front_in k (length tasks)
            (omega (arith, q.room)) q.room (sym (sym q.rear_at ∙ e))) in
        ground (arith, other) ∙ q.slots k lt ∙ sym (get_elem?-append_lt tasks (task ∷ []) k lt)
  ];
}

-- The indices once all the tasks of a list are added.
add_tasks-rear :
    (tasks : List Task) (pool : Pool)
    → pool.rear < pool.queue_size
    → ((add_tasks tasks pool).front ≡ pool.front)
      × ((add_tasks tasks pool).queue_size ≡ pool.queue_size)
      × ((add_tasks tasks pool).rear ≡ (pool.rear + length tasks) % pool.queue_size)
unfolding add_tasks add_task
add_tasks-rear [] pool h = (refl, refl, sym (place_zero pool.queue_size pool.rear h))
add_tasks-rear (task ∷ tasks) pool h =
    let (front, size, rear) = add_tasks-rear tasks (add_task task pool) (omega arith) in
    (front, size, rear ∙ place_next pool.queue_size pool.rear (length tasks))

-- If a pool with a slot is set up and as many tasks are added as it has slots before a worker takes
-- one, then the workers find nothing.
pub add_tasks_lost :
    (size : ℕ) (tasks : List Task)
    → 0 < size
    → length tasks ≡ size
    → take_task (add_tasks tasks (initialize_threadpool size)) ≡ none
unfolding take_task
add_tasks_lost size tasks some_slot full =
    let (front, same_size, rear) = add_tasks-rear tasks (initialize_threadpool size) some_slot in
    let home : (0 + length tasks) % size ≡ 0 =
      ap (λ x. (0 + x) % size) full ∙ place_full size 0 some_slot in
    ground (arith, front, rear, home)
