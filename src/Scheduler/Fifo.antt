-- ===== src/Scheduler/Fifo.antt =====
-- Fork, Wait, Exec, Process Scheduling/q4.c: `fifo`.
-- Its two sums are `float`s, which round.
pub mod Bounds
pub mod Sort
pub mod Timeline
use os_in_parts.Prelude.{
  ℕ, zero, suc, ◌+◌, ◌-◌, Bool, true, false, ◌&&◌, ◌||◌, List, [], ◌∷◌, ◌++◌, length, ltb, ◌==◌,
  if◌then◌else◌,
}
use os_in_parts.Scheduler.Float.{add_float}
use os_in_parts.Scheduler.Process.{Process, Report, empty_report}

-- The test of the inner loop: the first process has to come after the second.
abbrev pub out_of_order : Process → Process → Bool
out_of_order p q =
    ltb q.arrival_time p.arrival_time || (p.arrival_time == q.arrival_time && ltb q.pid p.pid)

-- The inner loop with `k` comparisons left. Its index only moves forward, so it is the rest of the
-- array.
unfoldable pub pass : ℕ → List Process → List Process
pass (suc k) (p ∷ q ∷ ps) = if out_of_order p q then q ∷ pass k (p ∷ ps) else p ∷ pass k (q ∷ ps)
pass _ ps = ps

-- The outer loop: the inner one makes `n - 1` comparisons, then `n - 2`, down to 1.
unfoldable pub sort_rounds : ℕ → List Process → List Process
unfolding pass
sort_rounds zero ps = ps
sort_rounds (suc k) ps = sort_rounds k (pass (suc k) ps)

-- The variables of the second loop.
pub record Clock : Type 0 where
  pub curr_time : ℕ
  pub report : Report

-- The body of the second loop.
unfoldable pub execute_one : Process → Clock → Process × Clock
execute_one p c =
    let start = if ltb c.curr_time p.arrival_time then p.arrival_time else c.curr_time in
    let completion = start + p.burst_time in
    let turnaround = completion - p.arrival_time in
    let response = start - p.arrival_time in
    (
      record p {
        start_time = start;
        completion_time = completion;
        turnaround_time = turnaround;
        response_time = response;
      },
      record {
        curr_time = start + p.burst_time;
        report = record {
          order = c.report.order ++ (p.pid ∷ []);
          total_turnaround_time = add_float c.report.total_turnaround_time turnaround;
          total_response_time = add_float c.report.total_response_time response;
        };
      },
    )

unfoldable pub execute : List Process → Clock → List Process × Clock
execute [] c = ([], c)
execute (p ∷ ps) c = let (q, c') = execute_one p c in let (qs, c'') = execute ps c' in (q ∷ qs, c'')

unfoldable pub fifo : List Process → List Process × Report
fifo ps =
    let (qs, c) =
      execute (sort_rounds (length ps - 1) ps) (record { curr_time = 0; report = empty_report }) in
    (qs, c.report)
