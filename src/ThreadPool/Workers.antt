-- ===== src/ThreadPool/Workers.antt =====
-- Multithreading/q4p2.c: each task is in one place until it is done.
use os_in_parts.Prelude.{
  ℕ, zero, suc, ◌+◌, ◌*◌, ◌%◌, ◌<◌, ◌≡◌, refl, sym, ap, ◌∙◌, arith, Option, none, some, List, [],
  ◌∷◌, ◌++◌, length, length-append, get_elem?, get_elem?-some, get_elem?-append_lt,
  get_elem?-append_last, All, All-append, update, total, total-update, ℕ_discrete, dec_lt, subst,
}
use os_in_parts.Prelude.Circle.{place-suc, place_full}
use os_in_parts.ThreadPool.{Task, Pool, add_task}
use os_in_parts.ThreadPool.Product.{Matrix, execute, execute_all}
use os_in_parts.ThreadPool.Queue.{IsQueue, add_task-IsQueue}
use os_in_parts.ThreadPool.Run.{Working, HasRoom}

abbrev pub held : Option Task → ℕ
held none = 0
held (some t) = 1

pub execute_all-last :
    (a b : Matrix) (order : List Task) (t : Task) (c : Matrix)
    → execute_all a b (order ++ t ∷ []) c ≡ execute a b t (execute_all a b order c)
unfolding execute_all
execute_all-last a b [] t c = refl
execute_all-last a b (x ∷ order) t c = execute_all-last a b order t (execute a b x c)

-- Where a task is: done, with a worker, in the queue, or not added yet.
pub data Where (cores : ℕ) (order queue to_add : List Task) (workers : ℕ → Option Task) (t : Task)
    : Type 0 where
  done : (j : ℕ) → get_elem? order j ≡ some t → Where cores order queue to_add workers t
  with_worker : (w : ℕ) → w < cores → workers w ≡ some t → Where cores order queue to_add workers t
  queued : (j : ℕ) → get_elem? queue j ≡ some t → Where cores order queue to_add workers t
  left : (j : ℕ) → get_elem? to_add j ≡ some t → Where cores order queue to_add workers t

-- The invariant of the tasks of a product, all of length `n`.
pub record Inv (a b : Matrix) (cores n : ℕ) (tasks : List Task) (c : Matrix) (k : ℕ) (s : Working)
    : Type 0 where
  pub queue : List Task
  pub order : List Task
  pub is_queue : IsQueue s.pool queue
  pub result : s.result ≡ execute_all a b order c
  pub placed :
      (i : ℕ) (t : Task) → get_elem? tasks i ≡ some t → Where cores order queue s.to_add s.workers t
  pub order_n : All (λ t. t.n ≡ n) order
  pub queue_n : All (λ t. t.n ≡ n) queue
  pub to_add_n : All (λ t. t.n ≡ n) s.to_add
  pub workers_n : (w : ℕ) (t : Task) → s.workers w ≡ some t → t.n ≡ n
  pub steps :
      k + 3 * length s.to_add + 2 * length queue + total held cores s.workers ≡ 3 * length tasks

-- With room the list has more than one slot to spare.
HasRoom-length :
    (pool : Pool) (queue : List Task)
    → IsQueue pool queue
    → HasRoom pool
    → length queue + 1 < pool.queue_size
HasRoom-length pool queue q room = elim (dec_lt (length queue + 1) pool.queue_size) [
  | yes lt ↦ lt
  | no ge ↦
      let full : length queue + 1 ≡ pool.queue_size = omega (arith, q.room) in
      absurd (
        room (
          ap (λ x. (x + 1) % pool.queue_size) q.rear_at
          ∙ place-suc pool.queue_size pool.front q.front_in (length queue)
          ∙ ap (λ x. (pool.front + x) % pool.queue_size) full
          ∙ place_full pool.queue_size pool.front q.front_in))
]

module _ (a b : Matrix) (cores n : ℕ) (tasks : List Task) (c : Matrix) (k : ℕ) (s : Working)
    (v : Inv a b cores n tasks c k s) where
  pub add-Inv :
      (t : Task) (rest : List Task)
      → s.to_add ≡ t ∷ rest
      → HasRoom s.pool
      → Inv a b cores n tasks c (suc k) (record s { pool = add_task t s.pool; to_add = rest })
  add-Inv t rest e room = record {
    queue = v.queue ++ t ∷ [];
    order = v.order;
    is_queue =
        add_task-IsQueue s.pool t v.queue v.is_queue
          (HasRoom-length s.pool v.queue v.is_queue room);
    result = v.result;
    placed = λ i u at. moved u (v.placed i u at);
    order_n = v.order_n;
    queue_n =
        All-append _ v.queue (t ∷ []) v.queue_n ((subst (All (λ t'. t'.n ≡ n)) e v.to_add_n).0, tt);
    to_add_n = (subst (All (λ t'. t'.n ≡ n)) e v.to_add_n).1;
    workers_n = v.workers_n;
    steps = omega (arith, v.steps, length-append v.queue (t ∷ []), ap length e);
  }
    where
      moved :
          (u : Task)
          → Where cores v.order v.queue s.to_add s.workers u
          → Where cores v.order (v.queue ++ t ∷ []) rest s.workers u
      moved u (Where.done j at) = Where.done j at
      moved u (Where.with_worker w lt at) = Where.with_worker w lt at
      moved u (Where.queued j at) =
          Where.queued j
            (get_elem?-append_lt v.queue (t ∷ []) j (get_elem?-some v.queue j u at) ∙ at)
      moved u (Where.left j at) = first j (subst (λ ts. get_elem? ts j ≡ some u) e at)
        where
          first :
              (j : ℕ)
              → get_elem? (t ∷ rest) j ≡ some u
              → Where cores v.order (v.queue ++ t ∷ []) rest s.workers u
          first zero at = Where.queued (length v.queue) (get_elem?-append_last v.queue t ∙ at)
          first (suc j) at = Where.left j at

  -- A worker that has no task takes the first one.
  pub take-Inv :
      (w : ℕ) (t : Task) (rest : List Task) (pool : Pool)
      → w < cores
      → s.workers w ≡ none
      → v.queue ≡ t ∷ rest
      → IsQueue pool rest
      → Inv a b cores n tasks c
          (suc k)
          (record s { pool = pool; workers = update s.workers w (some t) })
  take-Inv w t rest pool lt idle e q = record {
    queue = rest;
    order = v.order;
    is_queue = q;
    result = v.result;
    placed = λ i u at. moved u (v.placed i u at);
    order_n = v.order_n;
    queue_n = (subst (All (λ t'. t'.n ≡ n)) e v.queue_n).1;
    to_add_n = v.to_add_n;
    workers_n =
        λ x u at. ground (arith, v.workers_n x u, (subst (All (λ t'. t'.n ≡ n)) e v.queue_n).0);
    steps = omega (
      arith,
      v.steps,
      ap length e,
      total-update held cores s.workers w (some t) lt,
      (let none_held : held (s.workers w) ≡ 0 = ap held idle in none_held),
    );
  }
    where
      moved :
          (u : Task)
          → Where cores v.order v.queue s.to_add s.workers u
          → Where cores v.order rest s.to_add (update s.workers w (some t)) u
      moved u (Where.done j at) = Where.done j at
      moved u (Where.with_worker x hx at) = elim (ℕ_discrete x w) [
        | yes same ↦ absurd (ground arith)
        | no ne ↦ Where.with_worker x hx (ground arith)
      ]
      moved u (Where.queued j at) = first j (subst (λ ts. get_elem? ts j ≡ some u) e at)
        where
          first :
              (j : ℕ)
              → get_elem? (t ∷ rest) j ≡ some u
              → Where cores v.order rest s.to_add (update s.workers w (some t)) u
          first zero at = Where.with_worker w lt (ground (arith, at))
          first (suc j) at = Where.queued j at
      moved u (Where.left j at) = Where.left j at

  -- A worker that has one does it.
  pub work-Inv :
      (w : ℕ) (t : Task)
      → w < cores
      → s.workers w ≡ some t
      → Inv a b cores n tasks c
          (suc k)
          (record s { workers = update s.workers w none; result = execute a b t s.result })
  work-Inv w t lt busy = record {
    queue = v.queue;
    order = v.order ++ t ∷ [];
    is_queue = v.is_queue;
    result = ap (execute a b t) v.result ∙ sym (execute_all-last a b v.order t c);
    placed = λ i u at. moved u (v.placed i u at);
    order_n = All-append _ v.order (t ∷ []) v.order_n (v.workers_n w t busy, tt);
    queue_n = v.queue_n;
    to_add_n = v.to_add_n;
    workers_n = λ x u at. ground (arith, v.workers_n x u);
    steps = omega (
      arith,
      v.steps,
      total-update held cores s.workers w none lt,
      (let one_held : held (s.workers w) ≡ 1 = ap held busy in one_held),
    );
  }
    where
      moved :
          (u : Task)
          → Where cores v.order v.queue s.to_add s.workers u
          → Where cores (v.order ++ t ∷ []) v.queue s.to_add (update s.workers w none) u
      moved u (Where.done j at) =
          Where.done j (get_elem?-append_lt v.order (t ∷ []) j (get_elem?-some v.order j u at) ∙ at)
      moved u (Where.with_worker x hx at) = elim (ℕ_discrete x w) [
        | yes same ↦
            Where.done (length v.order)
              (get_elem?-append_last v.order t ∙ sym busy ∙ ap s.workers (sym same) ∙ at)
        | no ne ↦ Where.with_worker x hx (ground arith)
      ]
      moved u (Where.queued j at) = Where.queued j at
      moved u (Where.left j at) = Where.left j at
