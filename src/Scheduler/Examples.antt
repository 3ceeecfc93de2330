-- ===== src/Scheduler/Examples.antt =====
-- Fork, Wait, Exec, Process Scheduling/q4.c: the four schedulers on concrete processes.
use mathlib.Core.List.{Perm}
use os_in_parts.Prelude.{
  ℕ, ◌+◌, ◌*◌, ◌≤◌, ◌<◌, ◌≡◌, ◌≢◌, refl, true, false, Option, none, some, List, [], ◌∷◌, map, arith,
  length, All, ◌==◌, if◌then◌else◌, total,
}
use os_in_parts.Prelude.Int.{pos, neg_part, int_max}
use os_in_parts.Scheduler.Process.{Process, input_processes, input_from}
use os_in_parts.Scheduler.Main.{Algorithm, Printed, schedule, main}
use os_in_parts.Scheduler.Rr
use os_in_parts.Scheduler.Times.{Ran, IsInt}
use os_in_parts.Scheduler.Fifo.{fifo, sort_rounds, execute, execute_one}
use os_in_parts.Scheduler.Float.{add_float}
use os_in_parts.Scheduler.Fifo.Sort.{IsSorted}
use os_in_parts.Scheduler.Fifo.Timeline.{IsTimeline, Reports, job, fifo_lem}
use os_in_parts.Scheduler.Select.{select}
use os_in_parts.Scheduler.Select.Optimal.{Found, select-Found}
use os_in_parts.Scheduler.Sjf.{Sjf, sjf, rounds, advance, shortest, run_to_end}
use os_in_parts.Scheduler.Sjf.Progress
use os_in_parts.Scheduler.Sjf.Progress.{Apart, sjf_completes}
use os_in_parts.Scheduler.Srtf
use os_in_parts.Scheduler.Srtf.{Srtf, srtf}
use os_in_parts.Scheduler.Srtf.Rounds.{after}
use os_in_parts.Scheduler.Srtf.Progress.{srtf_completes}
use os_in_parts.Scheduler.Srtf.Stuck.{srtf_stuck}
use os_in_parts.Scheduler.Rr.{Rr, rr, round_at, is_ready, serve, print_pid, slice, execution_time}
use os_in_parts.Scheduler.Rr.Serve.{burst, IsInput}
use os_in_parts.Scheduler.Rr.Progress.{arrived_burst, rr_completes}
use os_in_parts.Scheduler.Rr.Stuck
use os_in_parts.Scheduler.Rr.Stuck.{rr_stuck}

abbrev process : ℕ → ℕ → ℕ → Process
process pid arrival_time burst_time = record {
  pid = pid;
  arrival_time = arrival_time;
  burst_time = burst_time;
  start_time = 0;
  completion_time = 0;
  turnaround_time = 0;
  response_time = 0;
  remaining_time = burst_time;
  started = false;
}

-- A long process at 0 and a short one at `second`.
abbrev pair : ℕ → ℕ → Process
pair second i = if i == 0 then process 1 0 3 else process 2 second 1

-- A process of one unit of time, and an empty one.
abbrev with_empty : ℕ → Process
with_empty i = if i == 0 then process 1 0 1 else process 2 0 0

pids : Option Sjf → List ℕ
pids none = []
pids (some s) = s.report.order

sjf_order : pids (sjf 10 (pair 1) 2) ≡ 1 ∷ 2 ∷ []
unfolding pids sjf rounds advance shortest select run_to_end
sjf_order = refl

fifo_lem_example :
    let (qs, r) = fifo (process 1 2 3 ∷ process 2 0 1 ∷ []) in
    IsSorted qs
    × IsTimeline 0 qs
    × All (λ q. q.completion_time ≤ int_max) qs
    × Reports qs r
    × Perm (map job qs) (map job (process 1 2 3 ∷ process 2 0 1 ∷ []))
fifo_lem_example =
    fifo_lem (process 1 2 3 ∷ process 2 0 1 ∷ []) 2 (omega arith, omega arith) (omega arith)

-- The last bit of a large burst is lost in a total.
rounded : (fifo (process 1 0 16777217 ∷ [])).1.total_turnaround_time ≡ 16777216
unfolding fifo sort_rounds execute execute_one add_float
rounded = refl

select-Found_example :
    Found
      (pair 1)
      (λ i. pos (pair 1 i).burst_time)
      (λ _. false)
      1
      2
      (select (pair 1) (λ i. pos (pair 1 i).burst_time) (λ _. false) 1 2)
select-Found_example =
    select-Found (pair 1) (λ i. pos (pair 1 i).burst_time) (λ _. false) 1 2 (λ j h. ground arith)

sjf_completes_example :
    (s : Sjf) × (sjf (2 + 1 + 1) (pair 1) 2 ≡ some s)
    × ((i : ℕ) → i < 2 → (s.is_completed i ≡ true) × Progress.Ran (s.p i))
    × ((i j : ℕ) → i < 2 → j < 2 → i ≢ j → Apart (s.p i) (s.p j))
    × (length s.report.order ≡ 2)
    × IsInt s.current_time s.report
    × ((i : ℕ)
        → ((s.p i).pid ≡ (pair 1 i).pid)
          × ((s.p i).arrival_time ≡ (pair 1 i).arrival_time)
          × ((s.p i).burst_time ≡ (pair 1 i).burst_time))
sjf_completes_example =
    sjf_completes 2 1 (pair 1) (λ i h. ground arith) (λ i h. ground arith) (omega arith)
      (unfold total in omega arith)

srtf_completes_example :
    (s : Srtf) × (srtf (total (λ q. q.burst_time) 2 (pair 1) + 1 + 1) (pair 1) 2 ≡ some s)
    × ((i : ℕ) → i < 2 → (s.is_completed i ≡ true) × Ran (s.p i))
    × (length s.report.order ≡ 2)
    × IsInt s.current_time s.report
    × ((i : ℕ)
        → ((s.p i).pid ≡ (pair 1 i).pid)
          × ((s.p i).arrival_time ≡ (pair 1 i).arrival_time)
          × ((s.p i).burst_time ≡ (pair 1 i).burst_time))
srtf_completes_example =
    srtf_completes 2 1 (pair 1) (λ i h. ground arith) (λ i h. ground arith) (λ i h. ground arith)
      (omega arith) (unfold total in omega arith)

srtf_stuck_example :
    (srtf 1000 with_empty 2 ≡ none)
    × IsInt
        (after 1000 2 (Srtf.initial with_empty)).current_time
        (after 1000 2 (Srtf.initial with_empty)).report
    × ((j : ℕ) → neg_part ((after 1000 2 (Srtf.initial with_empty)).burst_remaining j) ≤ int_max)
srtf_stuck_example =
    srtf_stuck 2 with_empty 1 (omega arith) refl (λ j h. ground arith) 1000 (omega arith)

pair-IsInput : (second : ℕ) → IsInput 2 (pair second)
pair-IsInput second = record {
  numbered = λ i h. ground arith;
  whole = λ i h. ground arith;
  fresh = λ i h. ground arith;
}

pair-burst : (second : ℕ) → total burst 2 (pair second) ≡ 4
unfolding total
pair-burst second = refl

pair-no_gap : (t : ℕ) → t < total burst 2 (pair 1) → t < total (arrived_burst t) 2 (pair 1)
unfolding total
pair-no_gap t h = ground arith

rr_completes_example :
    (s : Rr) × (rr (2 * total burst 2 (pair 1) + 2 + 1) (pair 1) 2 2 ≡ some s)
    × ((i : ℕ) → i < 2 → (s.is_completed i ≡ true) × Ran (s.p i) × ((s.p i).remaining_time ≡ 0))
    × (s.current_time ≡ total burst 2 (pair 1))
    × IsInt s.current_time s.report
    × ((i : ℕ)
        → ((s.p i).pid ≡ (pair 1 i).pid)
          × ((s.p i).arrival_time ≡ (pair 1 i).arrival_time)
          × ((s.p i).burst_time ≡ (pair 1 i).burst_time))
rr_completes_example =
    rr_completes 2 2 (pair 1) (omega arith) (pair-IsInput 1) (λ i h. ground arith) pair-no_gap
      (omega arith) (omega (arith, pair-burst 1))

rr_stuck_example :
    (rr 1000 (pair 4) 2 2 ≡ none)
    × IsInt
        (Stuck.after 1000 2 2 (Rr.initial (pair 4))).current_time
        (Stuck.after 1000 2 2 (Rr.initial (pair 4))).report
rr_stuck_example =
    rr_stuck 2 (pair 4) 1 (pair-IsInput 4) (omega arith) (omega (arith, pair-burst 4))
      (omega (arith, pair-burst 4)) 2 1000

-- What is typed in for the first pair, into an array that is not initialised.
abbrev inputs : List (ℕ × ℕ)
inputs = (0, 3) ∷ (1, 1) ∷ []

abbrev blank : List Process
blank = process 9 9 9 ∷ process 9 9 9 ∷ []

-- Round robin on what is typed in.
main-rr :
    main 20 (pair 0 0) (Algorithm.rr_chosen 2) inputs blank
    ≡ some (
        Printed.report_of
          (record { order = 1 ∷ 2 ∷ 1 ∷ []; total_turnaround_time = 6; total_response_time = 1 }))
unfolding main schedule rr Rr.rounds Rr.round round_at is_ready serve print_pid Rr.finish slice
    Rr.mark_start execution_time Rr.wrap input_processes input_from
main-rr = refl
