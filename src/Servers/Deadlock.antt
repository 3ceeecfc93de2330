-- ===== src/Servers/Deadlock.antt =====
-- Multithreading/q2.c: the servers do not deadlock, and do all their tasks.
use os_in_parts.Prelude.{
  is_some, is_some-true, is_some-false, ℕ, zero, suc, ◌+◌, ◌%◌, ◌≤◌, ◌<◌, ◌≡◌, ◌≢◌, refl, sym, none,
  some, arith, total-cong, total-zero, ◌⊎◌, inl, inr, ℕ_discrete, find_below,
}
use os_in_parts.Servers.Defs.{
  total_servers, max_tasks, Phase, Servers, left_channel, right_channel, first_channel,
  second_channel, sem_wait, sem_post, next_task, step_in, step, Reached,
}
use os_in_parts.Servers.Invariant.{holds, to_go, calls_left, Inv}
use os_in_parts.Servers.Calls.{all_calls, Reached-Inv}

holds_elsewhere : (p : Phase) (i c : ℕ) → c ≢ left_channel i → c ≢ right_channel i → holds p i c ≡ 0
holds_elsewhere p i c ne ne' = ground arith

-- A channel that neither of its two servers holds is free.
channel_free :
    (s : Servers) (c r : ℕ)
    → Inv s
    → c < total_servers
    → r < total_servers
    → right_channel r ≡ c
    → holds (s.phase c) c c ≡ 0
    → holds (s.phase r) r c ≡ 0
    → s.channels c ≡ 1
channel_free s c r v hc hr e left right = omega (
  arith,
  v.counted c hc,
  total-cong (λ n. n) (λ n. n) total_servers (λ n. holds (s.phase n) n c) (λ _. 0)
      (λ k hk. elim (ℕ_discrete k c) [
        | yes same ↦ rw same left
        | no ne ↦ elim (ℕ_discrete k r) [
          | yes same ↦ rw same right
          | no ne' ↦ holds_elsewhere (s.phase k) k c (λ x. ne (sym x)) (omega arith)
        ]
      ]),
  total-zero (λ n. n) total_servers 0 refl,
)

-- Why a server cannot take a step.
data Blocked (i : ℕ) (s : Servers) : Type 0 where
  at_first : s.phase i ≡ Phase.waiting → s.channels (first_channel i) ≡ 0 → Blocked i s
  at_second : s.phase i ≡ Phase.holding_first → s.channels (second_channel i) ≡ 0 → Blocked i s
  ended : s.phase i ≡ Phase.finished → Blocked i s

step-Blocked : (i : ℕ) (s : Servers) → step i s ≡ none → Blocked i s
unfolding step step_in sem_wait sem_post next_task
step-Blocked i s e = go (s.phase i) refl
  where
    go : (p : Phase) → s.phase i ≡ p → Blocked i s
    go Phase.waiting f = Blocked.at_first f (ground arith)
    go Phase.holding_first f = Blocked.at_second f (ground arith)
    go Phase.processing f = absurd (ground arith)
    go Phase.posted f = absurd (ground arith)
    go Phase.finished f = Blocked.ended f

-- A server that waits for its second channel holds its first one alone, and one that cannot take a
-- step and does not wait for its second channel holds none.
holding-holds :
    (i c : ℕ) (s : Servers)
    → s.phase i ≡ Phase.holding_first
    → c ≢ first_channel i
    → holds (s.phase i) i c ≡ 0
holding-holds i c s e ne = rw e (ground arith)

Blocked-holds :
    (i c : ℕ) (s : Servers)
    → Blocked i s
    → s.phase i ≢ Phase.holding_first
    → holds (s.phase i) i c ≡ 0
Blocked-holds i c s (Blocked.at_first e f) ne = rw e refl
Blocked-holds i c s (Blocked.at_second e f) ne = absurd (ne e)
Blocked-holds i c s (Blocked.ended e) ne = rw e refl

-- The other server of a first channel.
user_of :
    (i : ℕ)
    → i < total_servers
    → (first_channel i < total_servers)
      × ((first_channel i + 4) % 5 < total_servers)
      × (right_channel ((first_channel i + 4) % 5) ≡ first_channel i)
user_of i h = ground arith

module _ (s : Servers) (v : Inv s) (blocked : (i : ℕ) → i < total_servers → Blocked i s) where
  -- A server cannot hold its first channel if no server holds its second one.
  second_free :
      (i r : ℕ)
      → i < total_servers
      → r < total_servers
      → right_channel r ≡ second_channel i
      → holds (s.phase (second_channel i)) (second_channel i) (second_channel i) ≡ 0
      → holds (s.phase r) r (second_channel i) ≡ 0
      → s.phase i ≢ Phase.holding_first
  second_free i r hi hr e left right h = go (blocked i hi)
    where
      go : Blocked i s → ⊥
      go (Blocked.at_first f none_left) = cc
      go (Blocked.at_second f none_left) =
          omega (arith, channel_free s (second_channel i) r v (ground arith) hr e left right)
      go (Blocked.ended f) = cc

  -- The servers 0 to 3 wait for a channel with a higher number than the one they hold.
  below_last :
      (i : ℕ)
      → i < 4
      → holds (s.phase (i + 1)) (i + 1) (i + 1) ≡ 0
      → s.phase i ≢ Phase.holding_first
  below_last i hi left h =
      second_free i i (omega arith) (omega arith) (ground arith) (ground arith)
        (holding-holds i (second_channel i) s h (ground arith)) h

  first_four :
      (i : ℕ) → i < 4 → s.phase (i + 1) ≢ Phase.holding_first → s.phase i ≢ Phase.holding_first
  first_four i hi next =
      below_last i hi (Blocked-holds (i + 1) (i + 1) s (blocked (i + 1) (omega arith)) next)

  -- Channel 4 is the second one of the servers 3 and 4.
  three_free : s.phase 3 ≢ Phase.holding_first
  three_free = below_last 3 (omega arith) (four_left (blocked 4 (omega arith)))
    where
      four_left : Blocked 4 s → holds (s.phase 4) 4 4 ≡ 0
      four_left (Blocked.at_first e f) = rw e refl
      four_left (Blocked.at_second e f) = rw e refl
      four_left (Blocked.ended e) = rw e refl

  four_free : s.phase 4 ≢ Phase.holding_first
  four_free h =
      second_free 4 3 (omega arith) (omega arith) refl (rw h refl)
        (Blocked-holds 3 4 s (blocked 3 (omega arith)) three_free) h

  two_free : s.phase 2 ≢ Phase.holding_first
  two_free = first_four 2 (omega arith) three_free

  one_free : s.phase 1 ≢ Phase.holding_first
  one_free = first_four 1 (omega arith) two_free

  none_holds : (i : ℕ) → i < total_servers → s.phase i ≢ Phase.holding_first
  none_holds zero h = first_four 0 (omega arith) one_free
  none_holds (suc zero) h = one_free
  none_holds (suc (suc zero)) h = two_free
  none_holds (suc (suc (suc zero))) h = three_free
  none_holds (suc (suc (suc (suc zero)))) h = four_free
  none_holds (suc (suc (suc (suc (suc i))))) h = absurd (omega arith)

  -- If no server can take a step, all have ended.
  Blocked-finished : (i : ℕ) → i < total_servers → s.phase i ≡ Phase.finished
  Blocked-finished i h = go (blocked i h)
    where
      holds_none : (k c : ℕ) → k < total_servers → holds (s.phase k) k c ≡ 0
      holds_none k c hk = Blocked-holds k c s (blocked k hk) (none_holds k hk)

      go : Blocked i s → s.phase i ≡ Phase.finished
      go (Blocked.at_first e f) =
          let c = first_channel i in
          let (hc, hr, same) = user_of i h in
          absurd (
            omega (
              arith,
              channel_free s c ((c + 4) % 5) v hc hr same (holds_none c c hc)
                  (holds_none ((c + 4) % 5) c hr),
            ))
      go (Blocked.at_second e f) = absurd (none_holds i h e)
      go (Blocked.ended e) = e

-- A server that has ended has done its tasks.
finished-tasks :
    (s : Servers) (i : ℕ)
    → Inv s
    → i < total_servers
    → s.phase i ≡ Phase.finished
    → s.task_count i ≡ max_tasks
finished-tasks s i v h e = ground (arith, v.tasks i h)

finished-calls :
    (s : Servers)
    → Inv s
    → ((i : ℕ) → i < total_servers → s.phase i ≡ Phase.finished)
    → calls_left s ≡ 0
finished-calls s v all = omega (
  arith,
  total-cong (λ n. n) (λ n. n) total_servers (to_go s) (λ _. 0)
      (λ i h. let t = finished-tasks s i v h (all i h) in rw (all i h, t) refl),
  total-zero (λ n. n) total_servers 0 refl,
)

-- After `k` calls of the servers, in any order, `k` is at most 60, and either some server can make a
-- call that does not block, or `k` is 60 and every server has done its three tasks and left its
-- loop.
pub Reached-completes :
    (k : ℕ) (s : Servers)
    → Reached k s
    → (k ≤ all_calls)
      × (((i : ℕ) × (s' : Servers) × (i < total_servers) × (step i s ≡ some s'))
          ⊎ ((k ≡ all_calls)
              × ((i : ℕ)
                  → i < total_servers
                  → (s.phase i ≡ Phase.finished) × (s.task_count i ≡ max_tasks))))
Reached-completes k s reached =
    let (v, left) = Reached-Inv reached in
    (
      omega arith,
      elim (find_below (λ i. is_some (step i s)) total_servers) [
        | inl (i, lt, e) ↦ let (s', stepped) = is_some-true (step i s) e in inl (i, s', lt, stepped)
        | inr stuck ↦
            let all =
              Blocked-finished s v
                (λ i h. step-Blocked i s (is_some-false (step i s) (stuck i h))) in
            inr (
              omega (arith, left, finished-calls s v all),
              (λ i h. (all i h, finished-tasks s i v h (all i h))),
            )
      ],
    )
