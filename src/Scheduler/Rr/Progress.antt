-- ===== src/Scheduler/Rr/Progress.antt =====
-- Fork, Wait, Exec, Process Scheduling/q4.c: `rr` completes every process, if it is never idle.
use os_in_parts.Prelude.{
  count_all, count-le, count-lt, count_gap, ℕ, zero, suc, ◌+◌, ◌-◌, ◌*◌, ◌≤◌, ◌<◌, ◌≡◌, ◌≢◌, refl,
  ◌∙◌, inl, inr, true, false, some, arith, leb, if◌then◌else◌, total, total-ge, total-add-le,
  total-cong, total-zero, find_below, Bool-cases, dec_lt, ℕ_discrete,
}
use os_in_parts.Prelude.Int.{int_max}
use os_in_parts.Scheduler.Process.{Process}
use os_in_parts.Scheduler.Times.{Ran, IsInt, Within-IsInt}
use os_in_parts.Scheduler.Rr.{Rr, initial, is_ready, serve, wrap, round_at, round, rounds, rr}
use os_in_parts.Scheduler.Rr.Serve.{
  burst, left, Inv, IsInput, Inv-initial, Inv-idx, serve-left, serve-Inv, wrap-lt,
}

-- The burst of a process that has arrived at the time `t`.
abbrev pub arrived_burst : ℕ → Process → ℕ
arrived_burst t q = if leb q.arrival_time t then q.burst_time else 0

completed-le : (n : ℕ) (p : ℕ → Process) (s : Rr) → Inv n p s → s.completed ≤ n
completed-le n p s v = omega (arith, v.counted, count-le n s.is_completed)

-- Once `completed` is `n`, every process is completed.
all_completed :
    (n : ℕ) (p : ℕ → Process) (s : Rr)
    → Inv n p s
    → n ≤ s.completed
    → (i : ℕ) → i < n
    → s.is_completed i ≡ true
all_completed n p s v e = count_all n s.is_completed (omega (arith, v.counted))

-- If no process is ready, what has arrived has been run.
idle-le :
    (n : ℕ) (p : ℕ → Process) (s : Rr)
    → Inv n p s
    → ((i : ℕ) → i < n → is_ready i s ≡ false)
    → total (arrived_burst s.current_time) n p ≤ s.current_time
unfolding is_ready
idle-le n p s v idle =
    let le : total left n s.p + total (arrived_burst s.current_time) n p ≤ total burst n p =
      total-add-le left (arrived_burst s.current_time) burst n s.p p
        (λ i lt. ground (arith, idle i lt, v.waiting i lt, v.ran i lt, v.same i)) in
    omega (arith, v.busy)

-- The steps of the index from `k` to `i` around a queue of `n`.
steps : ℕ → ℕ → ℕ → ℕ
steps n k i = if leb k i then i - k else i + n - k

steps-lt : (n k i : ℕ) → i < n → steps n k i < n + 1
unfolding steps
steps-lt n k i lt = ground arith

steps-suc : (n k i : ℕ) → i < n → k < n → k ≢ i → suc (steps n (wrap n (k + 1)) i) ≡ steps n k i
unfolding steps wrap
steps-suc n k i lt hk ne = ground arith

steps-wrap-lt : (n k i : ℕ) → i < n → steps n (wrap n k) i < n
unfolding steps wrap
steps-wrap-lt n k i lt = ground arith

lap-le : (n a b : ℕ) → a < b → n * a + n ≤ n * b
lap-le n a zero h = absurd (omega arith)
lap-le n a (suc b) h = elim (ℕ_discrete a b) [
  | yes e ↦ rw e (omega arith)
  | no ne ↦ omega (arith, lap-le n a b (omega arith))
]

is_ready-pending : (i : ℕ) (s : Rr) → is_ready i s ≡ true → s.is_completed i ≡ false
unfolding is_ready
is_ready-pending i s h = ground arith

is_ready-idx : (i k : ℕ) (s : Rr) → is_ready i (record s { idx = k }) ≡ is_ready i s
unfolding is_ready
is_ready-idx i k s = refl

-- The round of a process that is ready.
round-serve :
    (quantum n k : ℕ) (p : ℕ → Process) (s : Rr)
    → 0 < quantum
    → k < n
    → is_ready k s ≡ true
    → Inv n p s
    → Inv n p (round_at quantum k s) × (total left n (round_at quantum k s).p < total left n s.p)
unfolding round_at
round-serve quantum n k p s some_time lt ready v =
    let e : s.queue k - 1 ≡ k = omega (arith, v.queued k lt) in
    let pending : s.is_completed k ≡ false = is_ready-pending k s ready in
    let w = v.waiting k lt pending in
    rw (e, ready, if◌then◌else◌)
      (
        Inv-idx n (k + 1) p (serve quantum k s) (serve-Inv quantum n k p s some_time lt ready v),
        (serve-left quantum n k s some_time lt w.some_left).0,
      )

-- The round of one that is not.
round-skip :
    (quantum n k : ℕ) (p : ℕ → Process) (s : Rr)
    → k < n
    → is_ready k s ≡ false
    → Inv n p s
    → round_at quantum k s ≡ record s { idx = k + 1 }
unfolding round_at
round-skip quantum n k p s lt skip v =
    let e : s.queue k - 1 ≡ k = omega (arith, v.queued k lt) in rw (e, skip, if◌then◌else◌)

module _ (quantum n : ℕ) (p : ℕ → Process) (some_time : 0 < quantum) (input : IsInput n p)
    (positive : (i : ℕ) → i < n → 0 < (p i).burst_time)
    (no_gap : (t : ℕ) → t < total burst n p → t < total (arrived_burst t) n p) where
  -- While a process is left, one is ready.
  pick : (s : Rr) → Inv n p s → s.completed < n → (i : ℕ) × (i < n) × (is_ready i s ≡ true)
  pick s v more = elim (find_below (λ i. is_ready i s) n) [
    | inl found ↦ found
    | inr idle ↦
        let (j, lt, pending) = count_gap n s.is_completed (omega (arith, v.counted)) in
        let w = v.waiting j lt pending in
        absurd (
          omega (
            arith,
            no_gap s.current_time (omega (arith, v.busy, total-ge left n s.p j lt, w.some_left)),
            idle-le n p s v idle,
          ))
  ]

  more_to_do : (s : Rr) (i : ℕ) → Inv n p s → i < n → is_ready i s ≡ true → s.completed < n
  more_to_do s i v lt ready =
      omega (arith, v.counted, count-lt n s.is_completed i lt (is_ready-pending i s ready))

  -- How the loop ends.
  Ends : ℕ → Rr → Type 0
  Ends fuel s = (s' : Rr) × (rounds fuel quantum n s ≡ some s') × Inv n p s' × (n ≤ s'.completed)

  Ends-now : (fuel : ℕ) (s : Rr) → 0 < fuel → Inv n p s → n ≤ s.completed → Ends fuel s
  unfolding Ends rounds
  Ends-now zero s h v done = absurd (omega arith)
  Ends-now (suc fuel) s h v done = (s, ground arith, v, done)

  Ends-suc :
      (fuel : ℕ) (s : Rr) → s.completed < n → Ends fuel (round quantum n s) → Ends (suc fuel) s
  unfolding Ends rounds
  Ends-suc fuel s more (s', e, v, done) = (s', ground (arith, e), v, done)

  -- A lap for each unit of the bursts that is left, and the steps to the process at `i`.
  rounds-Ends :
      (fuel : ℕ) (s : Rr) (i : ℕ)
      → Inv n p s
      → i < n
      → is_ready i s ≡ true
      → n * total left n s.p + steps n (wrap n s.idx) i < fuel
      → Ends fuel s
  unfolding round
  rounds-Ends zero s i v lt ready enough = absurd (omega arith)
  rounds-Ends (suc fuel) s i v lt ready enough =
      let k = wrap n s.idx in
      let hk = wrap-lt n s.idx i lt in
      Ends-suc fuel s (more_to_do s i v lt ready) (elim (Bool-cases (is_ready k s)) [
        | inl now ↦
            let (v', less) = round-serve quantum n k p s some_time hk now v in
            let lap = lap-le n (total left n (round_at quantum k s).p) (total left n s.p) less in
            elim (dec_lt (round_at quantum k s).completed n) [
              | yes more ↦
                  let (i', lt', ready') = pick (round_at quantum k s) v' more in
                  rounds-Ends fuel (round_at quantum k s) i' v' lt' ready'
                    (omega (arith, lap, steps-wrap-lt n (round_at quantum k s).idx i' lt'))
              | no done ↦ Ends-now fuel (round_at quantum k s) (omega (arith, lap)) v' (omega arith)
            ]
        | inr skip ↦ rw (round-skip quantum n k p s hk skip v) (
            rounds-Ends fuel (record s { idx = k + 1 }) i (Inv-idx n (k + 1) p s v) lt
              (is_ready-idx i (k + 1) s ∙ ready) (omega (arith, steps-suc n k i lt hk (λ e. cc))))
      ])

  ends : Ends (n * total burst n p + n + 1) (initial p)
  ends = elim (dec_lt 0 n) [
    | no none_left ↦
        Ends-now (n * total burst n p + n + 1) (initial p) (omega arith)
          (Inv-initial n p input positive) (omega arith)
    | yes more ↦
        let v = Inv-initial n p input positive in
        let (i, lt, ready) = pick (initial p) v more in
        rounds-Ends (n * total burst n p + n + 1) (initial p) i v lt ready (
          let e : total left n p ≡ total burst n p = omega (arith, v.busy) in
          rw e (omega (arith, steps-wrap-lt n 0 i lt)))
  ]

  -- With one process or more, as they are read in, bursts and the quantum positive, and before every time
  -- below the sum of the bursts more burst arrived than that time, and with the sum of the bursts at
  -- most INT_MAX / `n`, a lap of the queue for each unit
  -- of the bursts and one more are enough: `rr` returns with every process completed and nothing
  -- of it left, and no `int` has overflowed: the time and the sums, which only grow, are at most
  -- INT_MAX at the end. Each process has started at or after its arrival and ended at least its burst later, its
  -- turnaround and response times are measured from its arrival, the time is the sum of the
  -- bursts, and no pid, arrival or burst has changed.
  pub rr_completes :
      0 < n
      → n * total burst n p ≤ int_max
      → (s : Rr) × (rr (n * total burst n p + n + 1) p n quantum ≡ some s)
        × ((i : ℕ) → i < n → (s.is_completed i ≡ true) × Ran (s.p i) × ((s.p i).remaining_time ≡ 0))
        × (s.current_time ≡ total burst n p)
        × IsInt s.current_time s.report
        × ((i : ℕ)
            → ((s.p i).pid ≡ (p i).pid)
              × ((s.p i).arrival_time ≡ (p i).arrival_time)
              × ((s.p i).burst_time ≡ (p i).burst_time))
  unfolding rr Ends
  rr_completes some_process room =
      let (s, e, v, done) = ends in
      let count : s.completed ≡ n = omega (arith, done, completed-le n p s v) in
      let all = all_completed n p s v done in
      let nothing = total-cong left (λ k. k) n s.p (λ _. 0) (λ i lt. (v.ran i lt (all i lt)).1) in
      (
        s,
        e,
        (λ i lt. let (ran, none_left) = v.ran i lt (all i lt) in (all i lt, ran, none_left)),
        omega (arith, v.busy, nothing, total-zero (λ k. k) n 0 refl),
        Within-IsInt n (total burst n p) s.completed s.current_time s.report some_process room count
            (omega (arith, v.busy)) v.sums,
        v.same,
      )
