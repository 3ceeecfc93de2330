-- ===== src/Servers/Calls.antt =====
-- Multithreading/q2.c: the calls that the servers have left.
use os_in_parts.Prelude.{
  ℕ, ◌+◌, ◌≤◌, ◌<◌, ◌≡◌, ◌≢◌, refl, some, arith, total, total_change, total_pair-ge,
}
use os_in_parts.Servers.Defs.{
  total_servers, Servers, sem_wait, sem_post, next_task, step_in, step, Reached,
}
use os_in_parts.Servers.Invariant.{holds, to_go, calls_left, Inv, Inv-initial, step_other, step-Inv}

step_other-tasks :
    (i j : ℕ) (s s' : Servers) → step i s ≡ some s' → j ≢ i → s'.task_count j ≡ s.task_count j
unfolding step step_in sem_wait sem_post next_task
step_other-tasks i j s s' e ne = ground arith

step-to_go :
    (i : ℕ) (s s' : Servers)
    → i < total_servers
    → Inv s
    → step i s ≡ some s'
    → to_go s' i + 1 ≡ to_go s i
unfolding step step_in sem_wait sem_post next_task
step-to_go i s s' lt v e = ground (arith, v.tasks i lt)

-- A step is one call less to go.
step-calls_left :
    (i : ℕ) (s s' : Servers)
    → i < total_servers
    → Inv s
    → step i s ≡ some s'
    → calls_left s' + 1 ≡ calls_left s
step-calls_left i s s' lt v e = omega (
  arith,
  total_change (λ k. k) total_servers (to_go s) (to_go s') i lt
      (λ j ne. rw (step_other i j s s' e ne, step_other-tasks i j s s' e ne) refl),
  step-to_go i s s' lt v e,
)

-- The calls of five servers with three tasks of four calls each.
abbrev pub all_calls : ℕ
all_calls = 60

pub Reached-Inv : {k : ℕ} {s : Servers} → Reached k s → Inv s × (k + calls_left s ≡ all_calls)
unfolding total
Reached-Inv Reached.start = (Inv-initial, omega arith)
Reached-Inv (Reached.moved {k} {i} {s} {s'} reached lt e) =
    let (v, left) = Reached-Inv reached in
    (step-Inv i s s' lt e v, omega (arith, left, step-calls_left i s s' lt v e))

-- Whatever the order of the steps, no channel is held by two servers.
pub Reached-exclusive :
    (k : ℕ) (s : Servers) (c i j : ℕ)
    → Reached k s
    → c < total_servers
    → i < total_servers
    → j < total_servers
    → i ≢ j
    → holds (s.phase i) i c + holds (s.phase j) j c ≤ 1
Reached-exclusive k s c i j reached hc hi hj ne =
    let (v, left) = Reached-Inv reached in
    omega (
      arith,
      v.counted c hc,
      total_pair-ge (λ n. n) total_servers (λ n. holds (s.phase n) n c) i j hi hj ne,
    )
