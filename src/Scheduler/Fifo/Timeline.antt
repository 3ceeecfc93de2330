-- ===== src/Scheduler/Fifo/Timeline.antt =====
-- Fork, Wait, Exec, Process Scheduling/q4.c: the times that `fifo` sets.
use mathlib.Core.List.{Perm, append_assoc, append-nil}
use mathlib.Core.List.Perm
use mathlib.Core.Path.{ap₂}
use os_in_parts.Prelude.{
  sum_by, ℕ, ◌+◌, ◌-◌, ◌≤◌, ◌≡◌, refl, ◌⊎◌, List, [], ◌∷◌, ◌++◌, map, arith, length, All, ◌∙◌, ap,
  sym, subst,
}
use os_in_parts.Scheduler.Float.{add_float, sum_float}
use os_in_parts.Prelude.Int.{int_max}
use os_in_parts.Scheduler.Fifo.Bounds.{burst, Arrives, sort_rounds-Fits, execute-le}
use os_in_parts.Scheduler.Process.{Process, Report, empty_report}
use os_in_parts.Scheduler.Fifo.{sort_rounds, Clock, execute_one, execute, fifo}
use os_in_parts.Scheduler.Fifo.Sort.{Before, IsSorted, sort_rounds-IsSorted}

-- The times of a process that has run are consistent.
pub record IsTimed (p : Process) : Type 0 where
  pub waits : p.arrival_time ≤ p.start_time
  pub runs : p.completion_time ≡ p.start_time + p.burst_time
  pub turns : p.arrival_time + p.turnaround_time ≡ p.completion_time
  pub responds : p.arrival_time + p.response_time ≡ p.start_time

-- From `now` on the processes run one after the other, each as soon as it has arrived and the one
-- before has completed.
abbrev pub IsTimeline : ℕ → List Process → Type 0
IsTimeline now [] = Unit
IsTimeline now (p ∷ ps) =
    IsTimed p
    × (now ≤ p.start_time)
    × ((p.start_time ≡ p.arrival_time) ⊎ (p.start_time ≡ now))
    × IsTimeline p.completion_time ps

-- The fields that a scheduler leaves alone.
abbrev pub job : Process → ℕ × ℕ × ℕ
job p = (p.pid, p.arrival_time, p.burst_time)

-- What a report says of the processes in the order in which they ran.
pub record Reports (ps : List Process) (r : Report) : Type 0 where
  pub order : r.order ≡ map (λ p. p.pid) ps
  pub turnaround : r.total_turnaround_time ≡ sum_float 0 (map (λ p. p.turnaround_time) ps)
  pub response : r.total_response_time ≡ sum_float 0 (map (λ p. p.response_time) ps)

execute_one-times :
    (p : Process) (c : Clock)
    → let (q, c') = execute_one p c in
      IsTimed q
      × (c.curr_time ≤ q.start_time)
      × ((q.start_time ≡ q.arrival_time) ⊎ (q.start_time ≡ c.curr_time))
      × (q.completion_time ≡ c'.curr_time)
      × (job q ≡ job p)
unfolding execute_one
execute_one-times p c = ground arith

execute-IsTimeline : (ps : List Process) (c : Clock) → IsTimeline c.curr_time (execute ps c).0
unfolding execute
execute-IsTimeline [] c = tt
execute-IsTimeline (p ∷ ps) c =
    let (timed, after, prompt, ends, same) = execute_one-times p c in
    (
      timed,
      after,
      prompt,
      subst (λ now. IsTimeline now (execute ps (execute_one p c).1).0) (sym ends)
          (execute-IsTimeline ps (execute_one p c).1),
    )

execute-job : (ps : List Process) (c : Clock) → map job (execute ps c).0 ≡ map job ps
unfolding execute
execute-job [] c = refl
execute-job (p ∷ ps) c = ap₂ ◌∷◌ (execute_one-times p c).4 (execute-job ps (execute_one p c).1)

-- The order of two processes depends on fields that `fifo` leaves alone.
Before-job : (p q p' q' : Process) → job p ≡ job p' → job q ≡ job q' → Before p q → Before p' q'
Before-job p q p' q' e f h = ground arith

All-Before-job :
    (p p' : Process) (ps qs : List Process)
    → job p ≡ job p'
    → map job ps ≡ map job qs
    → All (Before p) ps
    → All (Before p') qs
All-Before-job p p' [] [] e f h = tt
All-Before-job p p' [] (q ∷ qs) e f h = absurd (cc)
All-Before-job p p' (r ∷ ps) [] e f h = absurd (cc)
All-Before-job p p' (r ∷ ps) (q ∷ qs) e f h =
    (Before-job p r p' q e (cc) h.0, All-Before-job p p' ps qs e (cc) h.1)

IsSorted-job : (ps qs : List Process) → map job ps ≡ map job qs → IsSorted ps → IsSorted qs
IsSorted-job [] [] e h = tt
IsSorted-job [] (q ∷ qs) e h = absurd (cc)
IsSorted-job (p ∷ ps) [] e h = absurd (cc)
IsSorted-job (p ∷ ps) (q ∷ qs) e h =
    (All-Before-job p q ps qs (cc) (cc) h.0, IsSorted-job ps qs (cc) h.1)

-- The report of the processes that run adds to the report so far.
record Extends (c : Clock) (ps : List Process) (r : Report) : Type 0 where
  order : r.order ≡ c.report.order ++ map (λ p. p.pid) ps
  turnaround :
      r.total_turnaround_time
      ≡ sum_float c.report.total_turnaround_time (map (λ p. p.turnaround_time) ps)
  response :
      r.total_response_time ≡ sum_float c.report.total_response_time (map (λ p. p.response_time) ps)

execute_one-report :
    (p : Process) (c : Clock)
    → let (q, c') = execute_one p c in
      (c'.report.order ≡ c.report.order ++ q.pid ∷ [])
      × (c'.report.total_turnaround_time
          ≡ add_float c.report.total_turnaround_time q.turnaround_time)
      × (c'.report.total_response_time ≡ add_float c.report.total_response_time q.response_time)
unfolding execute_one
execute_one-report p c = (refl, refl, refl)

execute-Extends :
    (ps : List Process) (c : Clock) → Extends c (execute ps c).0 (execute ps c).1.report
unfolding execute
execute-Extends [] c = record {
  order = sym (append-nil _);
  turnaround = unfold sum_float in refl;
  response = unfold sum_float in refl;
}
execute-Extends (p ∷ ps) c =
    let (order, turnaround, response) = execute_one-report p c in
    let rest = execute-Extends ps (execute_one p c).1 in
    record {
      order =
          rest.order
          ∙ ap (λ l. l ++ map (λ p. p.pid) (execute ps (execute_one p c).1).0) order
          ∙ append_assoc c.report.order _ _;
      turnaround =
          rest.turnaround
          ∙ unfold sum_float in
            ap (λ t. sum_float t (map (λ q. q.turnaround_time) (execute ps (execute_one p c).1).0))
              turnaround;
      response =
          rest.response
          ∙ unfold sum_float in
            ap (λ t. sum_float t (map (λ q. q.response_time) (execute ps (execute_one p c).1).0))
              response;
    }

-- If no arrival is after `last`, and `last` and the sum of the bursts together are at most INT_MAX,
-- then `fifo` runs the processes in order of arrival, then of pid, each once. They run one after the
-- other, each as soon as it has arrived and the one before has completed, with turnaround and
-- response times that count from its arrival, and none of these times is above INT_MAX. The report lists
-- the pids in that order, and its totals are the sums of those times in that order, in which each
-- addition is rounded to a `float`.
pub fifo_lem :
    (ps : List Process) (last : ℕ)
    → All (Arrives last) ps
    → last + sum_by burst ps ≤ int_max
    → let (qs, r) = fifo ps in
      IsSorted qs
      × IsTimeline 0 qs
      × All (λ q. q.completion_time ≤ int_max) qs
      × Reports qs r
      × Perm (map job qs) (map job ps)
unfolding fifo
fifo_lem ps last early room =
    let c : Clock = record { curr_time = 0; report = empty_report } in
    let sorted = sort_rounds (length ps - 1) ps in
    let (in_order, moved) = sort_rounds-IsSorted ps in
    let reports = execute-Extends sorted c in
    (
      IsSorted-job sorted (execute sorted c).0 (sym (execute-job sorted c)) in_order,
      execute-IsTimeline sorted c,
      (let fits = sort_rounds-Fits (length ps - 1) last int_max ps (early, room) in
          execute-le sorted c last int_max fits (omega (arith, fits.1))),
      record {
        order = reports.order;
        turnaround = reports.turnaround;
        response = reports.response;
      },
      subst (λ l. Perm l (map job ps)) (sym (execute-job sorted c)) (Perm.map job moved),
    )
