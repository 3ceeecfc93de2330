-- ===== src/Scheduler/Srtf.antt =====
-- Fork, Wait, Exec, Process Scheduling/q4.c: `srtf`.
pub mod Fits
pub mod Rounds
pub mod Progress
pub mod Stuck
use os_in_parts.Prelude.{
  ℕ, zero, suc, ◌+◌, ◌-◌, Bool, true, false, Option, none, some, List, [], ◌∷◌, ◌++◌, ◌==◌,
  if◌then◌else◌, update,
}
use os_in_parts.Prelude.Int.{ℤ, pos, ◌==ℤ◌, pred_ℤ}
use os_in_parts.Scheduler.Process.{Process, Report, empty_report}
use os_in_parts.Scheduler.Select.{select}

-- The array and the local variables of `srtf`.
pub record Srtf : Type 0 where
  pub p : ℕ → Process
  pub burst_remaining : ℕ → ℤ
  pub is_completed : ℕ → Bool
  pub completed : ℕ
  pub current_time : ℕ
  pub report : Report

abbrev pub initial : (ℕ → Process) → Srtf
initial p = record {
  p = p;
  burst_remaining = λ i. pos (p i).burst_time;
  is_completed = λ _. false;
  completed = 0;
  current_time = 0;
  report = empty_report;
}

-- A process whose whole burst is left starts now.
unfoldable pub mark_start : ℕ → Srtf → Srtf
mark_start i s =
    if s.burst_remaining i ==ℤ pos (s.p i).burst_time
    then record s { p = update s.p i (record (s.p i) { start_time = s.current_time }) }
    else s

-- One unit of time for the process at `i`.
abbrev pub tick : ℕ → Srtf → Srtf
tick i s = record s {
  burst_remaining = update s.burst_remaining i (pred_ℤ (s.burst_remaining i));
  current_time = s.current_time + 1;
}

-- The process with the times of a completion at `now`.
abbrev pub finished : Process → ℕ → Process
finished q now = record q {
  completion_time = now;
  turnaround_time = now - q.arrival_time;
  response_time = q.start_time - q.arrival_time;
}

-- A process with nothing left is completed.
unfoldable pub finish : ℕ → Srtf → Srtf
finish i s =
    let q = finished (s.p i) s.current_time in
    if s.burst_remaining i ==ℤ pos 0
    then record s {
      p = update s.p i q;
      is_completed = update s.is_completed i true;
      completed = s.completed + 1;
      report = record {
        order = s.report.order ++ (q.pid ∷ []);
        total_turnaround_time = s.report.total_turnaround_time + q.turnaround_time;
        total_response_time = s.report.total_response_time + q.response_time;
      };
    }
    else s

unfoldable pub shortest : ℕ → Srtf → Option ℕ
shortest n s = select s.p s.burst_remaining s.is_completed s.current_time n

-- The two branches after the search.
unfoldable pub advance : Option ℕ → Srtf → Srtf
advance (some i) s = finish i (tick i (mark_start i s))
advance none s = record s { current_time = s.current_time + 1 }

-- The `while` on fuel; `none` is no return.
unfoldable pub rounds : ℕ → ℕ → Srtf → Option Srtf
rounds zero n s = none
rounds (suc fuel) n s =
    let rest = rounds fuel n (advance (shortest n s) s) in if s.completed == n then some s else rest

unfoldable pub srtf : ℕ → (ℕ → Process) → ℕ → Option Srtf
srtf fuel p n = rounds fuel n (initial p)
