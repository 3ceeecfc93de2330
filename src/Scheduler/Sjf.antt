-- ===== src/Scheduler/Sjf.antt =====
-- Fork, Wait, Exec, Process Scheduling/q4.c: `sjf`.
pub mod Fits
pub mod Progress
use os_in_parts.Prelude.{
  ℕ, zero, suc, ◌+◌, ◌-◌, Bool, true, false, Option, none, some, List, [], ◌∷◌, ◌++◌, ◌==◌,
  if◌then◌else◌, update,
}
use os_in_parts.Prelude.Int.{pos}
use os_in_parts.Scheduler.Process.{Process, Report, empty_report}
use os_in_parts.Scheduler.Select.{select}

-- The array and the local variables of `sjf`.
pub record Sjf : Type 0 where
  pub p : ℕ → Process
  pub is_completed : ℕ → Bool
  pub completed : ℕ
  pub current_time : ℕ
  pub report : Report

abbrev pub initial : (ℕ → Process) → Sjf
initial p = record {
  p = p;
  is_completed = λ _. false;
  completed = 0;
  current_time = 0;
  report = empty_report;
}

-- The process at `i` with the times of a run from `now`.
abbrev pub timed : Process → ℕ → Process
timed q now = record q {
  start_time = now;
  completion_time = now + q.burst_time;
  turnaround_time = now + q.burst_time - q.arrival_time;
  response_time = now - q.arrival_time;
}

-- The branch of a process that is found: it runs to its end.
unfoldable pub run_to_end : ℕ → Sjf → Sjf
run_to_end i s =
    let q = timed (s.p i) s.current_time in
    record {
      p = update s.p i q;
      is_completed = update s.is_completed i true;
      completed = s.completed + 1;
      current_time = s.current_time + q.burst_time;
      report = record {
        order = s.report.order ++ (q.pid ∷ []);
        total_turnaround_time = s.report.total_turnaround_time + q.turnaround_time;
        total_response_time = s.report.total_response_time + q.response_time;
      };
    }

-- The search for the shortest job.
unfoldable pub shortest : ℕ → Sjf → Option ℕ
shortest n s = select s.p (λ i. pos (s.p i).burst_time) s.is_completed s.current_time n

-- The two branches after the search.
unfoldable pub advance : Option ℕ → Sjf → Sjf
advance (some i) s = run_to_end i s
advance none s = record s { current_time = s.current_time + 1 }

-- The `while` on fuel; `none` is no return.
unfoldable pub rounds : ℕ → ℕ → Sjf → Option Sjf
rounds zero n s = none
rounds (suc fuel) n s =
    let rest = rounds fuel n (advance (shortest n s) s) in if s.completed == n then some s else rest

unfoldable pub sjf : ℕ → (ℕ → Process) → ℕ → Option Sjf
sjf fuel p n = rounds fuel n (initial p)
