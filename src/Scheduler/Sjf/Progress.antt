-- ===== src/Scheduler/Sjf/Progress.antt =====
-- Fork, Wait, Exec, Process Scheduling/q4.c: `sjf` completes every process.
use os_in_parts.Prelude.{
  count_all, count-le, count_gap, weight, ℕ, zero, suc, ◌+◌, ◌-◌, ◌*◌, ◌≤◌, ◌<◌, ◌≡◌, ◌≢◌, refl,
  ◌⊎◌, true, false, Option, none, some, [], ◌∷◌, arith, length, length-append, dec_lt, ℕ_discrete,
  total, total-update, total-zero,
}
use os_in_parts.Prelude.Int.{pos, int_max}
use os_in_parts.Scheduler.Process.{Process}
use os_in_parts.Scheduler.Times.{IsInt}
use os_in_parts.Scheduler.Sjf.Fits.{limit, Fits, Fits-initial, Fits-wait, Fits-run, Fits-IsInt}
use os_in_parts.Scheduler.Select.Optimal.{IsReady, Found, select-Found}
use os_in_parts.Scheduler.Sjf.{Sjf, initial, run_to_end, shortest, advance, rounds, sjf}

-- Two runs that do not overlap.
abbrev pub Apart : Process → Process → Type 0
Apart p q = (p.completion_time ≤ q.start_time) ⊎ (q.completion_time ≤ p.start_time)

-- The times of a process that has run without a break.
pub record Ran (q : Process) : Type 0 where
  pub waits : q.arrival_time ≤ q.start_time
  pub runs : q.completion_time ≡ q.start_time + q.burst_time
  pub turns : q.arrival_time + q.turnaround_time ≡ q.completion_time
  pub responds : q.arrival_time + q.response_time ≡ q.start_time

-- What holds in the loop, from the processes `p` at the start.
record Inv (n : ℕ) (p : ℕ → Process) (s : Sjf) : Type 0 where
  counted : s.completed ≡ total weight n s.is_completed
  printed : length s.report.order ≡ s.completed
  same :
      (i : ℕ)
      → ((s.p i).pid ≡ (p i).pid)
        × ((s.p i).arrival_time ≡ (p i).arrival_time)
        × ((s.p i).burst_time ≡ (p i).burst_time)
  ran : (i : ℕ) → s.is_completed i ≡ true → Ran (s.p i) × ((s.p i).completion_time ≤ s.current_time)
  apart :
      (i j : ℕ) → i ≢ j → s.is_completed i ≡ true → s.is_completed j ≡ true → Apart (s.p i) (s.p j)

Inv-initial : (n : ℕ) (p : ℕ → Process) → Inv n p (initial p)
Inv-initial n p = record {
  counted = omega (arith, total-zero weight n false refl);
  printed = refl;
  same = λ i. (refl, refl, refl);
  ran = λ i h. absurd (cc);
  apart = λ i j ne h k. absurd (cc);
}

Inv-wait :
    (n : ℕ) (p : ℕ → Process) (s : Sjf)
    → Inv n p s
    → Inv n p (record s { current_time = s.current_time + 1 })
Inv-wait n p s v = record {
  counted = v.counted;
  printed = v.printed;
  same = v.same;
  ran = λ i h. let (r, le) = v.ran i h in (r, omega arith);
  apart = v.apart;
}

Inv-run :
    (n i : ℕ) (p : ℕ → Process) (s : Sjf)
    → i < n
    → (s.p i).arrival_time ≤ s.current_time
    → s.is_completed i ≡ false
    → Inv n p s
    → Inv n p (run_to_end i s)
unfolding run_to_end
Inv-run n i p s lt arrived pending v = record {
  counted = ground (arith, total-update weight n s.is_completed i true, v.counted);
  printed = omega (arith, length-append s.report.order ((s.p i).pid ∷ []), v.printed);
  same = λ j. ground (arith, v.same j);
  ran = λ j h. ground (arith, v.ran j);
  apart = λ j k ne hj hk. ground (arith, v.ran j, v.ran k, v.apart j k);
}

completed-le : (n : ℕ) (p : ℕ → Process) (s : Sjf) → Inv n p s → s.completed ≤ n
completed-le n p s v = omega (arith, v.counted, count-le n s.is_completed)

-- Once `completed` is `n`, every process is completed.
all_completed :
    (n : ℕ) (p : ℕ → Process) (s : Sjf)
    → Inv n p s
    → s.completed ≡ n
    → (i : ℕ) → i < n
    → s.is_completed i ≡ true
all_completed n p s v e = count_all n s.is_completed (omega (arith, v.counted))

module _ (n last : ℕ) (p : ℕ → Process) (early : (i : ℕ) → i < n → (p i).arrival_time ≤ last)
    (short : (i : ℕ) → i < n → (p i).burst_time < int_max) where
  -- One completion or one tick less to go.
  measure : Sjf → ℕ
  measure s = (n - s.completed) + (last - s.current_time)

  run_measure : (i : ℕ) (s : Sjf) → s.completed < n → measure (run_to_end i s) < measure s
  unfolding measure run_to_end
  run_measure i s more = omega arith

  -- While a process is left and none is ready, the last arrival is still to come.
  idle-lt :
      (s : Sjf)
      → Inv n p s
      → s.completed < n
      → ((j : ℕ)
          → j < n
          → ¬ IsReady s.p (λ i. pos (s.p i).burst_time) s.is_completed s.current_time j)
      → s.current_time < last
  idle-lt s v more idle =
      let (j, lt, pending) = count_gap n s.is_completed (omega (arith, v.counted)) in
      elim (dec_lt s.current_time (s.p j).arrival_time) [
        | yes later ↦ omega (arith, (v.same j).1, early j lt)
        | no arrived ↦ absurd (idle j lt (record { arrived = omega arith; pending = pending }))
      ]

  shortest-Found :
      (s : Sjf)
      → Inv n p s
      → Found s.p (λ i. pos (s.p i).burst_time) s.is_completed s.current_time n (shortest n s)
  unfolding shortest
  shortest-Found s v =
      select-Found s.p (λ i. pos (s.p i).burst_time) s.is_completed s.current_time n
        (λ j h. omega (arith, short j h, (v.same j).2))

  advance-Inv :
      (s : Sjf)
      → Inv n p s
      → Fits n last p s
      → s.completed < n
      → Inv n p (advance (shortest n s) s)
        × Fits n last p (advance (shortest n s) s)
        × (measure (advance (shortest n s) s) < measure s)
  unfolding measure advance
  advance-Inv s v f more = go (shortest n s) (shortest-Found s v)
    where
      go :
          (o : Option ℕ)
          → Found s.p (λ i. pos (s.p i).burst_time) s.is_completed s.current_time n o
          → Inv n p (advance o s)
            × Fits n last p (advance o s)
            × (measure (advance o s) < measure s)
      go none (Found.none_ready idle) =
          let early = idle-lt s v more idle in
          (Inv-wait n p s v, Fits-wait n last p s early f, omega (arith, early))
      go (some i) (Found.optimal _ lt ready best) = (
        Inv-run n i p s lt ready.arrived ready.pending v,
        Fits-run n last i p s lt ready.pending (v.same i).2 f,
        run_measure i s more,
      )

  rounds-Inv :
      (fuel : ℕ) (s : Sjf)
      → Inv n p s
      → Fits n last p s
      → measure s < fuel
      → (s' : Sjf) × (rounds fuel n s ≡ some s')
        × Inv n p s'
        × Fits n last p s'
        × (s'.completed ≡ n)
  unfolding rounds
  rounds-Inv zero s v f enough = absurd (omega arith)
  rounds-Inv (suc fuel) s v f enough = elim (ℕ_discrete s.completed n) [
    | yes done ↦ (s, ground arith, v, f, done)
    | no more ↦
        let (v', f', less) = advance-Inv s v f (omega (arith, completed-le n p s v)) in
        let (s', e, w, g, done) = rounds-Inv fuel (advance (shortest n s) s) v' f' (omega arith) in
        (s', ground (arith, e), w, g, done)
  ]

  -- With one process or more, every arrival at most `last`, every burst below INT_MAX, and `last` and the sum of the bursts
  -- together at most INT_MAX / `n`, `n + last + 1` rounds are enough: `sjf` returns with every
  -- process completed, and no `int` has overflowed: the time and the sums, which only grow, are at
  -- most INT_MAX at the end. Each process has run without a break from a time
  -- at or after its arrival, no two have run at once, `n` pids are printed, and no pid, arrival or
  -- burst has changed.
  pub sjf_completes :
      0 < n
      → n * limit n last p ≤ int_max
      → (s : Sjf) × (sjf (n + last + 1) p n ≡ some s)
        × ((i : ℕ) → i < n → (s.is_completed i ≡ true) × Ran (s.p i))
        × ((i j : ℕ) → i < n → j < n → i ≢ j → Apart (s.p i) (s.p j))
        × (length s.report.order ≡ n)
        × IsInt s.current_time s.report
        × ((i : ℕ)
            → ((s.p i).pid ≡ (p i).pid)
              × ((s.p i).arrival_time ≡ (p i).arrival_time)
              × ((s.p i).burst_time ≡ (p i).burst_time))
  unfolding sjf measure
  sjf_completes some_process room =
      let (s, e, v, f, done) =
        rounds-Inv (n + last + 1) (initial p) (Inv-initial n p) (Fits-initial n last p)
          (omega arith) in
      let all = all_completed n p s v done in
      (
        s,
        e,
        (λ i lt. (all i lt, (v.ran i (all i lt)).0)),
        (λ i j hi hj ne. v.apart i j ne (all i hi) (all j hj)),
        omega (arith, v.printed),
        Fits-IsInt n last p s some_process room done f,
        v.same,
      )
