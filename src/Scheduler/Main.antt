-- ===== src/Scheduler/Main.antt =====
-- Fork, Wait, Exec, Process Scheduling/q4.c: `main`, once the name of the algorithm is known.
-- `algo` is an array of 4 characters, and `scanf` writes 5 for FIFO and SRTF; what that overwrites is
-- not modelled.
pub mod Input
use os_in_parts.Prelude.{ℕ, Option, none, some, List, length, get_elem?}
use os_in_parts.Scheduler.Process.{Process, Report, input_processes}
use os_in_parts.Scheduler.Fifo.{fifo}
use os_in_parts.Scheduler.Sjf.{sjf}
use os_in_parts.Scheduler.Srtf.{srtf}
use os_in_parts.Scheduler.Rr.{rr}

-- What `strcmp` makes of the name; the quantum is read for round robin alone.
pub data Algorithm : Type 0 where
  fifo_chosen sjf_chosen srtf_chosen invalid : Algorithm
  rr_chosen : ℕ → Algorithm

-- An array as a function of the index; `rest` stands past its end.
abbrev pub or_rest : Process → Option Process → Process
or_rest rest none = rest
or_rest rest (some p) = p

abbrev pub array : Process → List Process → ℕ → Process
array rest ps i = or_rest rest (get_elem? ps i)

-- What is printed: a report, or that the name is not valid.
pub data Printed : Type 0 where
  report_of : Report → Printed
  invalid_algorithm : Printed

abbrev pub report_or_none {ℓ} : {A : Type ℓ} → (A → Report) → Option A → Option Printed
report_or_none f none = none
report_or_none f (some s) = some (Printed.report_of (f s))

-- On fuel for the loops of the schedulers; `none` is no return.
unfoldable pub schedule : ℕ → Process → Algorithm → List Process → Option Printed
schedule fuel rest Algorithm.fifo_chosen ps = some (Printed.report_of (fifo ps).1)
schedule fuel rest Algorithm.sjf_chosen ps =
    report_or_none (λ s. s.report) (sjf fuel (array rest ps) (length ps))
schedule fuel rest Algorithm.srtf_chosen ps =
    report_or_none (λ s. s.report) (srtf fuel (array rest ps) (length ps))
schedule fuel rest (Algorithm.rr_chosen quantum) ps =
    report_or_none (λ s. s.report) (rr fuel (array rest ps) (length ps) quantum)
schedule fuel rest Algorithm.invalid ps = some Printed.invalid_algorithm

unfoldable pub main : ℕ → Process → Algorithm → List (ℕ × ℕ) → List Process → Option Printed
main fuel rest algo inputs processes = schedule fuel rest algo (input_processes inputs processes)
