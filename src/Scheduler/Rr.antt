-- ===== src/Scheduler/Rr.antt =====
-- Fork, Wait, Exec, Process Scheduling/q4.c: `rr`.
pub mod Fits
pub mod Serve
pub mod Progress
pub mod Stuck
use os_in_parts.Prelude.{
  ℕ, zero, suc, ◌+◌, ◌-◌, Bool, true, false, not, ◌&&◌, Option, none, some, List, [], ◌∷◌, ◌++◌,
  ltb, leb, ◌==◌, if◌then◌else◌, update,
}
use os_in_parts.Scheduler.Process.{Process, Report, empty_report}

-- The array and the local variables of `rr`.
pub record Rr : Type 0 where
  pub p : ℕ → Process
  pub queue : ℕ → ℕ
  pub is_completed : ℕ → Bool
  pub completed : ℕ
  pub current_time : ℕ
  pub idx : ℕ
  pub report : Report

abbrev pub initial : (ℕ → Process) → Rr
initial p = record {
  p = p;
  queue = λ i. (p i).pid;
  is_completed = λ _. false;
  completed = 0;
  current_time = 0;
  idx = 0;
  report = empty_report;
}

-- The test of the process at `i`.
unfoldable pub is_ready : ℕ → Rr → Bool
is_ready i s = leb (s.p i).arrival_time s.current_time && not (s.is_completed i)

-- A process that has not started starts now.
unfoldable pub mark_start : ℕ → Rr → Rr
mark_start i s = if (s.p i).started then s else record s {
  p = update s.p i (record (s.p i) { start_time = s.current_time; started = true });
}

unfoldable pub execution_time : ℕ → Process → ℕ
execution_time quantum q = if ltb quantum q.remaining_time then quantum else q.remaining_time

-- The time slice.
unfoldable pub slice : ℕ → ℕ → Rr → Rr
unfolding execution_time
slice quantum i s =
    let e = execution_time quantum (s.p i) in
    record s {
      p = update s.p i (record (s.p i) { remaining_time = (s.p i).remaining_time - e });
      current_time = s.current_time + e;
    }

-- The process with the times of a completion at `now`.
abbrev pub finished : Process → ℕ → Process
finished q now = record q {
  completion_time = now;
  turnaround_time = now - q.arrival_time;
  response_time = q.start_time - q.arrival_time;
}

-- A process with no time left is completed.
unfoldable pub finish : ℕ → Rr → Rr
finish i s =
    let q = finished (s.p i) s.current_time in
    if (s.p i).remaining_time == 0
    then record s {
      p = update s.p i q;
      is_completed = update s.is_completed i true;
      completed = s.completed + 1;
      report = record s.report {
        total_turnaround_time = s.report.total_turnaround_time + q.turnaround_time;
        total_response_time = s.report.total_response_time + q.response_time;
      };
    }
    else s

-- The `printf` of the pid.
unfoldable pub print_pid : ℕ → Rr → Rr
print_pid i s = record s {
  report = record s.report { order = s.report.order ++ ((s.p i).pid ∷ []) };
}

-- The branch of a process that is ready.
unfoldable pub serve : ℕ → ℕ → Rr → Rr
serve quantum i s = print_pid i (finish i (slice quantum i (mark_start i s)))

-- The index, back at 0 once it is `n`.
unfoldable pub wrap : ℕ → ℕ → ℕ
wrap n idx = if leb n idx then 0 else idx

-- The body of the `while`, for the process that stands at the index `k` of the queue.
unfoldable pub round_at : ℕ → ℕ → Rr → Rr
round_at quantum k s =
    let i = s.queue k - 1 in
    let s' = if is_ready i s then serve quantum i s else s in record s' { idx = k + 1 }

unfoldable pub round : ℕ → ℕ → Rr → Rr
round quantum n s = round_at quantum (wrap n s.idx) s

-- The `while` on fuel; `none` is no return.
unfoldable pub rounds : ℕ → ℕ → ℕ → Rr → Option Rr
rounds zero quantum n s = none
rounds (suc fuel) quantum n s =
    let rest = rounds fuel quantum n (round quantum n s) in
    if ltb s.completed n then rest else some s

unfoldable pub rr : ℕ → (ℕ → Process) → ℕ → ℕ → Option Rr
rr fuel p n quantum = rounds fuel quantum n (initial p)
