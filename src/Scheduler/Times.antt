-- ===== src/Scheduler/Times.antt =====
-- Fork, Wait, Exec, Process Scheduling/q4.c: what the times of a process say once a scheduler that
-- interrupts processes has completed it, and the bounds of the sums of a scheduler.
use os_in_parts.Prelude.{ℕ, zero, suc, ◌+◌, ◌*◌, ◌≤◌, ◌<◌, ◌≡◌, arith}
use os_in_parts.Prelude.Int.{int_max}
use os_in_parts.Scheduler.Process.{Process, Report}

-- The times of a process that has run, with breaks.
pub record Ran (q : Process) : Type 0 where
  pub waits : q.arrival_time ≤ q.start_time
  pub runs : q.start_time + q.burst_time ≤ q.completion_time
  pub turns : q.arrival_time + q.turnaround_time ≡ q.completion_time
  pub responds : q.arrival_time + q.response_time ≡ q.start_time

-- The sums of a report, of at most `limit` for each of the processes that are completed.
pub record Within (limit completed : ℕ) (r : Report) : Type 0 where
  pub turnaround : r.total_turnaround_time ≤ completed * limit
  pub response : r.total_response_time ≤ completed * limit

-- The time and the sums are at most INT_MAX. No step makes one of them less.
pub record IsInt (now : ℕ) (r : Report) : Type 0 where
  pub time : now ≤ int_max
  pub turnaround : r.total_turnaround_time ≤ int_max
  pub response : r.total_response_time ≤ int_max

limit-le : (n limit : ℕ) → 0 < n → limit ≤ n * limit
limit-le zero limit h = absurd (omega arith)
limit-le (suc n) limit h = omega arith

times-le : (a b m : ℕ) → a ≤ b → a * m ≤ b * m
times-le a b m h = grind arith

-- Bounds for some of the processes are bounds for all of them.
pub Within-le :
    (limit completed n : ℕ) (r : Report)
    → completed ≤ n
    → Within limit completed r
    → Within limit n r
Within-le limit completed n r h w = record {
  turnaround = omega (arith, w.turnaround, times-le completed n limit h);
  response = omega (arith, w.response, times-le completed n limit h);
}

pub Within-IsInt :
    (n limit completed now : ℕ) (r : Report)
    → 0 < n
    → n * limit ≤ int_max
    → completed ≡ n
    → now ≤ limit
    → Within limit completed r
    → IsInt now r
Within-IsInt n limit completed now r some_process room done soon w =
    let sums : Within limit n r = rw (← done) w in
    record {
      time = omega (arith, limit-le n limit some_process);
      turnaround = omega (arith, sums.turnaround);
      response = omega (arith, sums.response);
    }
