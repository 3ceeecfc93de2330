-- ===== src/Scheduler/Rr/Serve.antt =====
-- Fork, Wait, Exec, Process Scheduling/q4.c: what holds in the loop of `rr`, and a time slice.
use os_in_parts.Prelude.{
  weight, ℕ, ◌+◌, ◌≤◌, ◌<◌, ◌≡◌, refl, ◌⊎◌, inl, true, false, arith, total, total-update,
  total_change, total-cong, total-zero,
}
use os_in_parts.Scheduler.Process.{Process}
use os_in_parts.Scheduler.Times.{Ran, Within}
use os_in_parts.Scheduler.Rr.Fits.{serve-Within}
use os_in_parts.Scheduler.Rr.{
  Rr, initial, is_ready, mark_start, execution_time, slice, finish, print_pid, serve, wrap,
}

abbrev pub burst : Process → ℕ
burst q = q.burst_time

abbrev pub left : Process → ℕ
left q = q.remaining_time

-- A process that is not completed: nothing or only a part of it has run, since its start.
pub record Waiting (q : Process) (now : ℕ) : Type 0 where
  pub some_left : 0 < q.remaining_time
  pub not_more : q.remaining_time ≤ q.burst_time
  pub fits :
      ((q.started ≡ false) × (q.remaining_time ≡ q.burst_time))
      ⊎ ((q.started ≡ true)
          × (q.arrival_time ≤ q.start_time)
          × (q.start_time + q.burst_time ≤ now + q.remaining_time))

-- What holds in the loop, from the processes `p` at the start.
pub record Inv (n : ℕ) (p : ℕ → Process) (s : Rr) : Type 0 where
  pub counted : s.completed ≡ total weight n s.is_completed
  pub busy : s.current_time + total left n s.p ≡ total burst n p
  pub queued : (i : ℕ) → i < n → s.queue i ≡ i + 1
  pub same :
      (i : ℕ)
      → ((s.p i).pid ≡ (p i).pid)
        × ((s.p i).arrival_time ≡ (p i).arrival_time)
        × ((s.p i).burst_time ≡ (p i).burst_time)
  pub waiting : (i : ℕ) → i < n → s.is_completed i ≡ false → Waiting (s.p i) s.current_time
  pub ran : (i : ℕ) → i < n → s.is_completed i ≡ true → Ran (s.p i) × ((s.p i).remaining_time ≡ 0)
  pub sums : Within (total burst n p) s.completed s.report

-- The processes as `input_processes` leaves them.
pub record IsInput (n : ℕ) (p : ℕ → Process) : Type 0 where
  pub numbered : (i : ℕ) → i < n → (p i).pid ≡ i + 1
  pub whole : (i : ℕ) → i < n → (p i).remaining_time ≡ (p i).burst_time
  pub fresh : (i : ℕ) → i < n → (p i).started ≡ false

pub Inv-initial :
    (n : ℕ) (p : ℕ → Process)
    → IsInput n p
    → ((i : ℕ) → i < n → 0 < (p i).burst_time)
    → Inv n p (initial p)
Inv-initial n p h positive = record {
  counted = omega (arith, total-zero weight n false refl);
  busy = omega (arith, total-cong left burst n p p h.whole);
  queued = h.numbered;
  same = λ i. (refl, refl, refl);
  waiting = λ i lt e. record {
    some_left = omega (arith, h.whole i lt, positive i lt);
    not_more = omega (arith, h.whole i lt);
    fits = inl (h.fresh i lt, h.whole i lt);
  };
  ran = λ i lt e. absurd (cc);
  sums = record { turnaround = omega arith; response = omega arith };
}

pub Inv-idx : (n k : ℕ) (p : ℕ → Process) (s : Rr) → Inv n p s → Inv n p (record s { idx = k })
Inv-idx n k p s v = record {
  counted = v.counted;
  busy = v.busy;
  queued = v.queued;
  same = v.same;
  waiting = v.waiting;
  ran = v.ran;
  sums = v.sums;
}

-- A time slice of at least one unit.
pub serve-left :
    (quantum n i : ℕ) (s : Rr)
    → 0 < quantum
    → i < n
    → 0 < (s.p i).remaining_time
    → (total left n (serve quantum i s).p < total left n s.p)
      × ((serve quantum i s).current_time + total left n (serve quantum i s).p
          ≡ s.current_time + total left n s.p)
unfolding serve print_pid finish slice execution_time mark_start
serve-left quantum n i s some_time lt some_left =
    let change = total_change left n s.p (serve quantum i s).p i lt (λ j ne. ground arith) in
    (ground (arith, change), ground (arith, change))

mark_start-started :
    (i : ℕ) (s : Rr)
    → Waiting (s.p i) s.current_time
    → ((mark_start i s).p i).start_time ≤ s.current_time
unfolding mark_start
mark_start-started i s w = ground (arith, w.not_more, w.fits)

pub serve-Inv :
    (quantum n i : ℕ) (p : ℕ → Process) (s : Rr)
    → 0 < quantum
    → i < n
    → is_ready i s ≡ true
    → Inv n p s
    → Inv n p (serve quantum i s)
unfolding serve print_pid finish slice execution_time mark_start is_ready
serve-Inv quantum n i p s some_time lt ready v = record {
  counted = ground (arith, total-update weight n s.is_completed i true, v.counted);
  busy =
      let w = v.waiting i lt (ground arith) in
      omega (arith, v.busy, (serve-left quantum n i s some_time lt w.some_left).1);
  queued = λ j hj. ground (arith, v.queued j);
  same = λ j. ground (arith, v.same j);
  waiting = λ j hj h. ground (arith, v.waiting j hj, v.waiting i lt);
  ran = λ j hj h. ground (arith, v.ran j hj, v.waiting i lt);
  sums =
      let w = v.waiting i lt (ground arith) in
      serve-Within quantum i (total burst n p) s
        (omega (arith, v.busy, (serve-left quantum n i s some_time lt w.some_left).1))
        (mark_start-started i s w) v.sums;
}

pub wrap-lt : (n k i : ℕ) → i < n → wrap n k < n
unfolding wrap
wrap-lt n k i lt = ground arith
