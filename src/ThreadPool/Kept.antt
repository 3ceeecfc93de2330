-- ===== src/ThreadPool/Kept.antt =====
-- Multithreading/q4p2.c: each step keeps the tasks in their places.
use mathlib.Core.Option.{some-injective}
use os_in_parts.Prelude.{
  ℕ, suc, ◌*◌, ◌<◌, ◌≡◌, refl, sym, ap, ◌∙◌, arith, Option, none, some, List, [], ◌∷◌, length, All,
  total_zeros, update, subst,
}
use os_in_parts.ThreadPool.{Task, Pool, add_task, take_task}
use os_in_parts.ThreadPool.Product.{Matrix, execute_all}
use os_in_parts.ThreadPool.Queue.{IsQueue, initialize-IsQueue, take_task-nil, take_task-IsQueue}
use os_in_parts.ThreadPool.Parallel.{create_tasks, task_rows-create_rows}
use os_in_parts.ThreadPool.Run.{
  Working, Move, set_up, add_next, look, finish, step, IsWorker, HasRoom, KeptUp,
}
use os_in_parts.ThreadPool.Workers.{held, Where, Inv, add-Inv, take-Inv, work-Inv}
use os_in_parts.Threads.Same.{create_rows-length, create_rows-All}

-- What a worker finds is the first task.
found_first :
    (pool pool' : Pool) (o : Option Task) (queue : List Task)
    → IsQueue pool queue
    → take_task pool ≡ some (o, pool')
    → (t : Task) × (rest : List Task) × (queue ≡ t ∷ rest) × (o ≡ some t) × IsQueue pool' rest
found_first pool pool' o [] q e = let nothing = take_task-nil pool q in absurd (cc)
found_first pool pool' o (t ∷ rest) q e =
    let (pool'', e', q') = take_task-IsQueue pool t rest q in
    let same : ◌≡◌ {A = Option Task × Pool} (some t, pool'') (o, pool') = cc in
    (t, rest, refl, sym (ap (λ x. x.0) same), subst (λ x. IsQueue x.1 rest) same q')

module _ (a b : Matrix) (cores n : ℕ) (tasks : List Task) (c : Matrix) where
  step-Inv :
      (k : ℕ) (s s' : Working) (move : Move)
      → Inv a b cores n tasks c k s
      → IsWorker cores move
      → (move ≡ Move.add → HasRoom s.pool)
      → step a b move s ≡ some s'
      → Inv a b cores n tasks c (suc k) s'
  unfolding step
  step-Inv k s s' Move.add v lt room e = go s.to_add refl e
    where
      go :
          (ts : List Task)
          → s.to_add ≡ ts
          → add_next s ts ≡ some s'
          → Inv a b cores n tasks c (suc k) s'
      go [] at f = absurd (cc)
      go (t ∷ rest) at f =
          subst (Inv a b cores n tasks c (suc k)) (some-injective _ _ f)
            (add-Inv a b cores n tasks c k s v t rest at (room refl))
  step-Inv k s s' (Move.take w) v lt room e = go (s.workers w) refl (take_task s.pool) refl e
    where
      go :
          (x : Option Task)
          → s.workers w ≡ x
          → (y : Option (Option Task × Pool)) → take_task s.pool ≡ y
          → look w s x y ≡ some s'
          → Inv a b cores n tasks c (suc k) s'
      go (some t) idle y found f = absurd (cc)
      go none idle none found f = absurd (cc)
      go none idle (some (o, pool)) found f =
          let (t, rest, first, same, q) = found_first s.pool pool o v.queue v.is_queue found in
          subst (Inv a b cores n tasks c (suc k))
            (ap (λ x. record s { pool = pool; workers = update s.workers w x }) (sym same)
              ∙ some-injective _ _ f)
            (take-Inv a b cores n tasks c k s v w t rest pool lt idle first q)
  step-Inv k s s' (Move.work w) v lt room e = go (s.workers w) refl e
    where
      go :
          (x : Option Task)
          → s.workers w ≡ x
          → finish a b w s x ≡ some s'
          → Inv a b cores n tasks c (suc k) s'
      go none busy f = absurd (cc)
      go (some t) busy f =
          subst (Inv a b cores n tasks c (suc k)) (some-injective _ _ f)
            (work-Inv a b cores n tasks c k s v w t lt busy)

pub create_tasks-length : (m n p : ℕ) → length (create_tasks m n p) ≡ m * p
create_tasks-length m n p = ap length (task_rows-create_rows n p m 0) ∙ create_rows-length n p m 0

create_tasks-All : (m n p : ℕ) → All (λ t. t.n ≡ n) (create_tasks m n p)
create_tasks-All m n p =
    subst (All (λ t. t.n ≡ n)) (sym (task_rows-create_rows n p m 0)) (create_rows-All n p m 0)

module _ (a b : Matrix) (cores m n p : ℕ) (c : Matrix) (some_slot : 0 < m * p) where
  abbrev pub PoolInv : ℕ → Working → Type 0
  PoolInv = Inv a b cores n (create_tasks m n p) c

  set_up-Inv : PoolInv 0 (set_up m n p c)
  set_up-Inv = record {
    queue = [];
    order = [];
    is_queue = initialize-IsQueue (m * p) some_slot;
    result = unfold execute_all in refl;
    placed = λ i t at. Where.left i at;
    order_n = tt;
    queue_n = tt;
    to_add_n = create_tasks-All m n p;
    workers_n = λ w t e. absurd (cc);
    steps = omega (arith, total_zeros held cores (λ _. none) (λ i h. refl));
  }

  pub KeptUp-Inv : {k : ℕ} {s : Working} → KeptUp a b cores (set_up m n p c) k s → PoolInv k s
  KeptUp-Inv KeptUp.start = set_up-Inv
  KeptUp-Inv (KeptUp.next {k} {s} {s'} move reached worker room e) =
      step-Inv a b cores n (create_tasks m n p) c k s s' move (KeptUp-Inv reached) worker room e

step-size :
    (a b : Matrix) (move : Move) (s s' : Working)
    → step a b move s ≡ some s'
    → s'.pool.queue_size ≡ s.pool.queue_size
unfolding step add_task take_task
step-size a b Move.add s s' e = ground arith
step-size a b (Move.take w) s s' e = ground arith
step-size a b (Move.work w) s s' e = ground arith

pub KeptUp-size :
    (a b : Matrix) (cores m n p : ℕ) (c : Matrix) {k : ℕ} {s : Working}
    → KeptUp a b cores (set_up m n p c) k s
    → s.pool.queue_size ≡ m * p
KeptUp-size a b cores m n p c KeptUp.start = refl
KeptUp-size a b cores m n p c (KeptUp.next {k} {s} {s'} move reached worker room e) =
    step-size a b move s s' e ∙ KeptUp-size a b cores m n p c reached
