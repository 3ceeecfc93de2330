-- ===== src/Scheduler/Process.antt =====
-- Fork, Wait, Exec, Process Scheduling/q4.c: processes and their input.
-- An `int` that holds a time is a number without a bound, and taken not to be negative. The model is
-- the program as long as no `int` overflows, for which each theorem on a scheduler has a condition.
-- Averages are kept as the sums that are divided by `n`.
use os_in_parts.Prelude.{ℕ, ◌+◌, Bool, false, List, [], ◌∷◌}

pub record Process : Type 0 where
  pub pid : ℕ
  pub arrival_time : ℕ
  pub burst_time : ℕ
  pub start_time : ℕ
  pub completion_time : ℕ
  pub turnaround_time : ℕ
  pub response_time : ℕ
  pub remaining_time : ℕ
  pub started : Bool

-- What a scheduler prints: the pids in order, and the two sums.
pub record Report : Type 0 where
  pub order : List ℕ
  pub total_turnaround_time : ℕ
  pub total_response_time : ℕ

abbrev pub empty_report : Report
empty_report = record { order = []; total_turnaround_time = 0; total_response_time = 0 }

-- The loop of `input_processes` from index `i`, over the pairs that are typed in. The array is not
-- initialised, so its other fields stay what they are.
unfoldable pub input_from : ℕ → List (ℕ × ℕ) → List Process → List Process
input_from i ((arrival, burst) ∷ inputs) (p ∷ ps) =
    record p {
      pid = i + 1;
      arrival_time = arrival;
      burst_time = burst;
      remaining_time = burst;
      started = false;
    }
    ∷ input_from (i + 1) inputs ps
input_from i _ ps = ps

unfoldable pub input_processes : List (ℕ × ℕ) → List Process → List Process
unfolding input_from
input_processes inputs processes = input_from 0 inputs processes
