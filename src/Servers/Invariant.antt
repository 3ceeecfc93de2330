-- ===== src/Servers/Invariant.antt =====
-- Multithreading/q2.c: each channel is free or held by one server.
use os_in_parts.Prelude.{
  ℕ, ◌+◌, ◌-◌, ◌*◌, ◌<◌, ◌≡◌, ◌≢◌, refl, some, arith, ◌==◌, if◌then◌else◌, total, total_change, ◌⊎◌,
  inr,
}
use os_in_parts.Servers.Defs.{
  total_servers, max_tasks, Phase, Servers, initial, left_channel, right_channel, first_channel,
  sem_wait, sem_post, next_task, step_in, step,
}

-- What a server holds of a channel.
abbrev pub holds : Phase → ℕ → ℕ → ℕ
holds Phase.waiting i c = 0
holds Phase.holding_first i c = if c == first_channel i then 1 else 0
holds Phase.processing i c =
    (if c == left_channel i then 1 else 0) + (if c == right_channel i then 1 else 0)
holds Phase.posted i c = if c == right_channel i then 1 else 0
holds Phase.finished i c = 0

abbrev pub held : Servers → ℕ → ℕ
held s c = total (λ k. k) total_servers (λ i. holds (s.phase i) i c)

-- The calls that a server has before it in its round.
abbrev pub calls : Phase → ℕ
calls Phase.waiting = 4
calls Phase.holding_first = 3
calls Phase.processing = 2
calls Phase.posted = 1
calls Phase.finished = 4

-- The calls that it has before it in all.
abbrev pub to_go : Servers → ℕ → ℕ
to_go s i = calls (s.phase i) + 4 * (max_tasks - s.task_count i) - 4

abbrev pub calls_left : Servers → ℕ
calls_left s = total (λ k. k) total_servers (to_go s)

pub record Inv (s : Servers) : Type 0 where
  pub counted : (c : ℕ) → c < total_servers → s.channels c + held s c ≡ 1
  pub tasks :
      (i : ℕ)
      → i < total_servers
      → ((s.phase i ≡ Phase.finished) × (s.task_count i ≡ max_tasks))
        ⊎ ((s.phase i ≢ Phase.finished) × (s.task_count i < max_tasks))

pub Inv-initial : Inv initial
unfolding total
Inv-initial = record { counted = λ c h. omega arith; tasks = λ i h. inr ((λ e. cc), omega arith) }

-- A step leaves the phase of the other servers alone.
pub step_other : (i j : ℕ) (s s' : Servers) → step i s ≡ some s' → j ≢ i → s'.phase j ≡ s.phase j
unfolding step step_in sem_wait sem_post next_task
step_other i j s s' e ne = ground arith

step-held :
    (i : ℕ) (s s' : Servers) (c : ℕ)
    → i < total_servers
    → step i s ≡ some s'
    → held s' c + holds (s.phase i) i c ≡ held s c + holds (s'.phase i) i c
step-held i s s' c lt e =
    total_change (λ k. k) total_servers (λ j. holds (s.phase j) j c) (λ j. holds (s'.phase j) j c) i
      lt (λ j ne. rw (step_other i j s s' e ne) refl)

-- A step changes what one server holds, and no other.
pub step-Inv : (i : ℕ) (s s' : Servers) → i < total_servers → step i s ≡ some s' → Inv s → Inv s'
unfolding step step_in sem_wait sem_post next_task
step-Inv i s s' lt e v = record {
  counted = λ c h. let change = step-held i s s' c lt e in ground (arith, change, v.counted c h);
  tasks = λ j h. ground (arith, v.tasks j h, v.tasks i lt);
}
