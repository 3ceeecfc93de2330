-- ===== src/Scheduler/Srtf/Progress.antt =====
-- Fork, Wait, Exec, Process Scheduling/q4.c: `srtf` completes every process.
use os_in_parts.Prelude.{
  count_all, count-le, count_gap, weight, ℕ, zero, suc, ◌+◌, ◌-◌, ◌*◌, ◌≤◌, ◌<◌, ◌≡◌, refl, ◌⊎◌,
  inl, inr, true, false, Option, none, some, [], ◌∷◌, arith, length, length-append, Bool-cases,
  dec_lt, ℕ_discrete, total, total-update, total-cong, total-zero,
}
use os_in_parts.Prelude.Int.{ℤ, pos, pos_part, neg_part, int_max, ◌<ℤ◌}
use os_in_parts.Scheduler.Process.{Process}
use os_in_parts.Scheduler.Times.{Ran, IsInt}
use os_in_parts.Scheduler.Srtf.Fits.{
  limit, Fits, Fits-initial, Fits-wait, Fits-run, Fits-IsInt, run-left, run-now,
}
use os_in_parts.Scheduler.Select.Optimal.{IsReady, Found, select-Found}
use os_in_parts.Scheduler.Srtf.{
  Srtf, initial, mark_start, tick, finish, shortest, advance, rounds, srtf,
}

-- A process that is not completed has part of its burst left, and what it has run fits between
-- its start and now.
record Waiting (q : Process) (left : ℤ) (now : ℕ) : Type 0 where
  signed : neg_part left ≡ 0
  some_left : 0 < pos_part left
  not_more : pos_part left ≤ q.burst_time
  fits :
      (pos_part left ≡ q.burst_time)
      ⊎ ((q.arrival_time ≤ q.start_time) × (q.start_time + q.burst_time ≤ now + pos_part left))

record Inv (n : ℕ) (p : ℕ → Process) (s : Srtf) : Type 0 where
  counted : s.completed ≡ total weight n s.is_completed
  printed : length s.report.order ≡ s.completed
  same :
      (i : ℕ)
      → ((s.p i).pid ≡ (p i).pid)
        × ((s.p i).arrival_time ≡ (p i).arrival_time)
        × ((s.p i).burst_time ≡ (p i).burst_time)
  waiting :
      (i : ℕ)
      → i < n
      → s.is_completed i ≡ false
      → Waiting (s.p i) (s.burst_remaining i) s.current_time
  ran : (i : ℕ) → i < n → s.is_completed i ≡ true → Ran (s.p i)
  spent : (i : ℕ) → i < n → s.is_completed i ≡ true → pos_part (s.burst_remaining i) ≡ 0

Inv-initial :
    (n : ℕ) (p : ℕ → Process) → ((i : ℕ) → i < n → 0 < (p i).burst_time) → Inv n p (initial p)
Inv-initial n p positive = record {
  counted = omega (arith, total-zero weight n false refl);
  printed = refl;
  same = λ i. (refl, refl, refl);
  waiting = λ i lt h. record {
    signed = refl;
    some_left = positive i lt;
    not_more = omega arith;
    fits = inl refl;
  };
  ran = λ i lt h. absurd (cc);
  spent = λ i lt h. absurd (cc);
}

Inv-idle :
    (n : ℕ) (p : ℕ → Process) (s : Srtf)
    → Inv n p s
    → Inv n p (record s { current_time = s.current_time + 1 })
Inv-idle n p s v = record {
  counted = v.counted;
  printed = v.printed;
  same = v.same;
  waiting = λ i lt h. ground (arith, v.waiting i lt h);
  ran = v.ran;
  spent = v.spent;
}

-- The process that is found, after its unit of time.
Inv-run :
    (n i : ℕ) (p : ℕ → Process) (s : Srtf)
    → i < n
    → (s.p i).arrival_time ≤ s.current_time
    → s.is_completed i ≡ false
    → Inv n p s
    → Inv n p (finish i (tick i (mark_start i s)))
unfolding finish mark_start
Inv-run n i p s lt arrived pending v = record {
  counted = ground (arith, total-update weight n s.is_completed i true, v.counted);
  printed = ground (arith, v.printed, length-append s.report.order ((s.p i).pid ∷ []));
  same = λ j. ground (arith, v.same j);
  waiting = λ j hj h. ground (arith, v.waiting j hj, v.waiting i lt);
  ran = λ j hj h. ground (arith, v.ran j hj, v.waiting i lt);
  spent = λ j hj h. ground (arith, v.spent j hj, v.waiting i lt);
}

-- The process that is found has started by now.
run-started :
    (i : ℕ) (s : Srtf)
    → Waiting (s.p i) (s.burst_remaining i) s.current_time
    → ((mark_start i s).p i).start_time ≤ s.current_time
unfolding mark_start
run-started i s w = ground (arith, w.signed, w.not_more, w.fits)

completed-le : (n : ℕ) (p : ℕ → Process) (s : Srtf) → Inv n p s → s.completed ≤ n
completed-le n p s v = omega (arith, v.counted, count-le n s.is_completed)

-- Once `completed` is `n`, every process is completed.
all_completed :
    (n : ℕ) (p : ℕ → Process) (s : Srtf)
    → Inv n p s
    → s.completed ≡ n
    → (i : ℕ) → i < n
    → s.is_completed i ≡ true
all_completed n p s v e = count_all n s.is_completed (omega (arith, v.counted))

module _ (n last : ℕ) (p : ℕ → Process) (early : (i : ℕ) → i < n → (p i).arrival_time ≤ last)
    (positive : (i : ℕ) → i < n → 0 < (p i).burst_time)
    (short : (i : ℕ) → i < n → (p i).burst_time < int_max) where
  -- The bursts that are left, and the time to the last arrival.
  measure : Srtf → ℕ
  measure s = total pos_part n s.burst_remaining + (last - s.current_time)

  -- While a process is left and none is ready, the last arrival is still to come.
  idle-lt :
      (s : Srtf)
      → Inv n p s
      → s.completed < n
      → ((j : ℕ) → j < n → ¬ IsReady s.p s.burst_remaining s.is_completed s.current_time j)
      → s.current_time < last
  idle-lt s v more idle =
      let (j, lt, pending) = count_gap n s.is_completed (omega (arith, v.counted)) in
      elim (dec_lt s.current_time (s.p j).arrival_time) [
        | yes later ↦ omega (arith, (v.same j).1, early j lt)
        | no arrived ↦ absurd (idle j lt (record { arrived = omega arith; pending = pending }))
      ]

  below_max : (s : Srtf) → Inv n p s → (j : ℕ) → j < n → s.burst_remaining j <ℤ pos int_max
  below_max s v j lt = elim (Bool-cases (s.is_completed j)) [
    | inl done ↦ omega (arith, v.spent j lt done)
    | inr pending ↦
        let w = v.waiting j lt pending in omega (arith, w.not_more, short j lt, (v.same j).2)
  ]

  shortest-Found :
      (s : Srtf)
      → Inv n p s
      → Found s.p s.burst_remaining s.is_completed s.current_time n (shortest n s)
  unfolding shortest
  shortest-Found s v =
      select-Found s.p s.burst_remaining s.is_completed s.current_time n (below_max s v)

  advance-Inv :
      (s : Srtf)
      → Inv n p s
      → Fits n last p s
      → s.completed < n
      → Inv n p (advance (shortest n s) s)
        × Fits n last p (advance (shortest n s) s)
        × (measure (advance (shortest n s) s) < measure s)
  unfolding measure advance
  advance-Inv s v f more = go (shortest n s) (shortest-Found s v)
    where
      go :
          (o : Option ℕ)
          → Found s.p s.burst_remaining s.is_completed s.current_time n o
          → Inv n p (advance o s)
            × Fits n last p (advance o s)
            × (measure (advance o s) < measure s)
      go none (Found.none_ready idle) =
          let early = idle-lt s v more idle in
          (Inv-idle n p s v, Fits-wait n last p s early f, omega (arith, early))
      go (some i) (Found.optimal _ lt ready best) =
          let w = v.waiting i lt ready.pending in
          (
            Inv-run n i p s lt ready.arrived ready.pending v,
            Fits-run n last i p s lt w.some_left (run-started i s w) f,
            omega (arith, run-left n i s lt w.some_left, run-now i s),
          )

  rounds-Inv :
      (fuel : ℕ) (s : Srtf)
      → Inv n p s
      → Fits n last p s
      → measure s < fuel
      → (s' : Srtf) × (rounds fuel n s ≡ some s')
        × Inv n p s'
        × Fits n last p s'
        × (s'.completed ≡ n)
  unfolding rounds
  rounds-Inv zero s v f enough = absurd (omega arith)
  rounds-Inv (suc fuel) s v f enough = elim (ℕ_discrete s.completed n) [
    | yes done ↦ (s, ground arith, v, f, done)
    | no more ↦
        let (v', f', less) = advance-Inv s v f (omega (arith, completed-le n p s v)) in
        let (s', e, w, g, done) = rounds-Inv fuel (advance (shortest n s) s) v' f' (omega arith) in
        (s', ground (arith, e), w, g, done)
  ]

  -- With one process or more, every arrival at most `last`, every burst positive and below INT_MAX, and `last` and the sum
  -- of the bursts together at most INT_MAX / `n`, one round for each unit of the bursts and `last + 1`
  -- more are enough: `srtf` returns with every process completed, and no `int` has overflowed: the
  -- time and the sums, which only grow, are at most INT_MAX at the end. Each process has started at or after its arrival and ended at least its burst later, its
  -- turnaround and response times are measured from its arrival, `n` pids are printed, and no
  -- pid, arrival or burst has changed.
  pub srtf_completes :
      0 < n
      → n * limit n last p ≤ int_max
      → (s : Srtf) × (srtf (total (λ q. q.burst_time) n p + last + 1) p n ≡ some s)
        × ((i : ℕ) → i < n → (s.is_completed i ≡ true) × Ran (s.p i))
        × (length s.report.order ≡ n)
        × IsInt s.current_time s.report
        × ((i : ℕ)
            → ((s.p i).pid ≡ (p i).pid)
              × ((s.p i).arrival_time ≡ (p i).arrival_time)
              × ((s.p i).burst_time ≡ (p i).burst_time))
  unfolding srtf measure
  srtf_completes some_process room =
      let (s, e, v, f, done) =
        rounds-Inv (total (λ q. q.burst_time) n p + last + 1) (initial p) (Inv-initial n p positive)
          (Fits-initial n last p)
          (omega (
            arith,
            total-cong pos_part (λ q. q.burst_time) n (initial p).burst_remaining p (λ i h. refl),
          )) in
      let all = all_completed n p s v done in
      (
        s,
        e,
        (λ i lt. (all i lt, v.ran i lt (all i lt))),
        omega (arith, v.printed),
        Fits-IsInt n last p s some_process room done f,
        v.same,
      )
